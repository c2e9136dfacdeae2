-- ===== src/Auth/Rotation.antt =====
-- The refresh tokens in Redis: each is used once, unless two requests race.
use miniwallet.Base.{
  ℕ, ◌+◌, ◌*◌, ◌<◌, ◌≡◌, ◌≢◌, inl, inr, refl, sym, String, false, none, some, [], ◌∷◌, str_eq,
  str_eq_refl, str_eq_iff, ◌∙◌, Bool-cases, lt→ltb,
}
use miniwallet.Errors.{ok, raise, invalid_refresh_token}
use miniwallet.Auth.{
  refresh_token_expire_days, Security, Grant, Tokens, lookup, revoke, Draw, issue, rotate,
  refresh_token,
}

lookup_revoked : (now : ℕ) (token : String) (l : Tokens) → lookup now token (revoke token l) ≡ none
unfolding lookup revoke
lookup_revoked now token [] = refl
lookup_revoked now token (g ∷ l) = elim (Bool-cases (str_eq g.token token)) [
  | inl p ↦ rw p (lookup_revoked now token l)
  | inr n ↦ rw (n, n) (lookup_revoked now token l)
]

lookup_other :
    (now : ℕ) (token : String) (g : Grant) (l : Tokens)
    → str_eq g.token token ≡ false
    → lookup now token (g ∷ l) ≡ lookup now token l
unfolding lookup
lookup_other now token g l h = rw h refl

lookup_fresh :
    (now : ℕ) (g : Grant) (l : Tokens)
    → now < g.expires_at
    → lookup now g.token (g ∷ l) ≡ some g.user_id
unfolding lookup
lookup_fresh now g l h = rw (str_eq_refl g.token, lt→ltb now g.expires_at h) refl

apart : (s t : String) → s ≢ t → str_eq s t ≡ false
apart s t h = elim (Bool-cases (str_eq s t)) [
  | inl p ↦ absurd (h ((str_eq_iff s t).0 p))
  | inr n ↦ n
]

revoke_other :
    (now : ℕ) (old token : String) (l : Tokens)
    → token ≢ old
    → lookup now token (revoke old l) ≡ lookup now token l
unfolding lookup revoke
revoke_other now old token [] ne = refl
revoke_other now old token (g ∷ l) ne =
    let rest = revoke_other now old token l ne in
    elim (Bool-cases (str_eq g.token old)) [
      | inl p ↦
          (let same : g.token ≡ old = (str_eq_iff g.token old).0 p in
            let other = apart old token (λ e. ne (sym e)) in rw (p, same, other) rest)
      | inr n ↦ elim (Bool-cases (str_eq g.token token)) [
        | inl p' ↦ rw (n, p') refl
        | inr n' ↦ rw (n, n') rest
      ]
    ]

-- What the store has under a token after a rotation that drew another one.
rotate-lookup :
    (lib : Security) (d : Draw) (old token : String) (i now : ℕ) (tokens : Tokens)
    → d.token ≢ token
    → lookup now token (rotate lib d old (some i) tokens).1 ≡ lookup now token (revoke old tokens)
unfolding rotate issue
rotate-lookup lib d old token i now tokens ne =
    lookup_other now token _ (revoke old tokens) (apart d.token token ne)

rotate-fresh :
    (lib : Security) (d : Draw) (old : String) (i now : ℕ) (tokens : Tokens)
    → now < d.now + refresh_token_expire_days * 86400
    → lookup now d.token (rotate lib d old (some i) tokens).1 ≡ some i
unfolding rotate issue
rotate-fresh lib d old i now tokens h = lookup_fresh now _ (revoke old tokens) h

rotate-none :
    (lib : Security) (d : Draw) (old : String) (tokens : Tokens)
    → rotate lib d old none tokens ≡ (raise invalid_refresh_token, tokens)
unfolding rotate
rotate-none lib d old tokens = refl

rotate-some :
    (lib : Security) (d : Draw) (old : String) (i : ℕ) (tokens : Tokens)
    → rotate lib d old (some i) tokens
      ≡ (ok (issue lib d i (revoke old tokens)).0, (issue lib d i (revoke old tokens)).1)
unfolding rotate
rotate-some lib d old i tokens = refl

-- A refresh token is used once: after a refresh that found the token and drew another one, the
-- old token is refused, and the new one renews the session of the same user until it expires.
pub refresh_token_rotates :
    (lib : Security) (d later : Draw) (old : String) (i : ℕ) (tokens : Tokens)
    → lookup d.now old tokens ≡ some i
    → d.token ≢ old
    → later.now < d.now + refresh_token_expire_days * 86400
    → let tokens' = (refresh_token lib d old tokens).1 in
      (refresh_token lib later old tokens' ≡ (raise invalid_refresh_token, tokens'))
      × (refresh_token lib later d.token tokens' ≡ (
        ok (issue lib later i (revoke d.token tokens')).0,
        (issue lib later i (revoke d.token tokens')).1,
      ))
unfolding refresh_token
refresh_token_rotates lib d later old i tokens found ne h =
    let gone =
      rotate-lookup lib d old old i later.now tokens ne ∙ lookup_revoked later.now old tokens in
    let fresh = rotate-fresh lib d old i later.now tokens h in
    rw (found, gone, fresh) (rotate-none lib later old _, rotate-some lib later d.token i _)

-- The read and the delete of a refresh are two commands. Of two refreshes of one token that both
-- read it before either deletes it, both succeed: the two new tokens, if they differ from each
-- other and from the old one, are valid side by side.
pub refresh_race :
    (lib : Security) (d d' : Draw) (old : String) (i now : ℕ) (tokens : Tokens)
    → lookup d.now old tokens ≡ some i
    → lookup d'.now old tokens ≡ some i
    → d.token ≢ old
    → d'.token ≢ d.token
    → now < d.now + refresh_token_expire_days * 86400
    → now < d'.now + refresh_token_expire_days * 86400
    → let first = (rotate lib d old (lookup d.now old tokens) tokens).1 in
      let second = (rotate lib d' old (lookup d'.now old tokens) first).1 in
      (lookup now d.token second ≡ some i) × (lookup now d'.token second ≡ some i)
refresh_race lib d d' old i now tokens found found' ne ne' h h' =
    rw (found, found')
      (
        rotate-lookup lib d' old d.token i now _ ne'
            ∙ revoke_other now old d.token _ ne
            ∙ rotate-fresh lib d old i now tokens h,
        rotate-fresh lib d' old i now _ h',
      )
