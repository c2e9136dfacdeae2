-- ===== src/Tests/Sessions.antt =====
-- Registration, login and refresh at concrete inputs, with a bcrypt and a PyJWT that compute: a
-- hash is the password, and a token writes the user and the expiry in two runs of one character.
use Prim.Native.Char.{char, code}
use Prim.Native.String.{[] as end_, ◌∷◌ as ◌then◌}
use miniwallet.Base.{
  ℕ, zero, suc, ◌≡◌, ◌≢◌, refl, ap, String, Option, none, some, [], ◌∷◌, ltb, lt→ltb, ◌==◌, str_eq,
  str_eq_refl, if◌then◌else◌, arith,
}
use miniwallet.Errors.{ok, raise, ◌>>=◌, invalid_refresh_token}
use miniwallet.Events.{Leaf, uuid}
use miniwallet.Models.{User}
use miniwallet.Db.{insert_user}
use miniwallet.Auth.{
  Claims, Security, Tokens, Draw, user_row, lookup, register, login, issue, refresh_token, rotate,
  revoke, get_current_user,
}
use miniwallet.Auth.Sessions.{IsSecure, registered_user_authenticates}
use miniwallet.Auth.Rotation.{refresh_token_rotates, refresh_race}
use miniwallet.Tests.Data.{env_at, funded_db}

abbrev strokes : ℕ → String → String
strokes zero s = s
strokes (suc n) s = char 1 tt then strokes n s

abbrev strokes_of : String → ℕ
strokes_of end_ = 0
strokes_of (c then s) = let rest = strokes_of s in if code c == 1 then suc rest else 0

abbrev after_gap : String → String
after_gap end_ = end_
after_gap (c then s) = let rest = after_gap s in if code c == 1 then rest else s

abbrev token : ℕ → ℕ → String
token i t = strokes i (char 0 tt then strokes t end_)

abbrev encode_claims : Option Leaf → Option ℕ → String
encode_claims (some (uuid i)) (some t) = token i t
encode_claims _ _ = ""

abbrev decoded : ℕ → ℕ → ℕ → Option Claims
decoded now i t = if ltb now t then some (record { sub = some (uuid i); exp = some t }) else none

abbrev pub security : Security
security = record {
  hashpw = λ salt p. some p;
  checkpw = λ p h. some (str_eq p h);
  encode = λ c. encode_claims c.sub c.exp;
  decode = λ now s. decoded now (strokes_of s) (strokes_of (after_gap s));
}

strokes_of-strokes : (n : ℕ) (s : String) → strokes_of (strokes n (char 0 tt then s)) ≡ n
strokes_of-strokes zero s = refl
strokes_of-strokes (suc n) s = ap (λ k. suc k) (strokes_of-strokes n s)

strokes_of-end : (n : ℕ) → strokes_of (strokes n end_) ≡ n
strokes_of-end zero = refl
strokes_of-end (suc n) = ap (λ k. suc k) (strokes_of-end n)

after_gap-strokes : (n : ℕ) (s : String) → after_gap (strokes n (char 0 tt then s)) ≡ s
after_gap-strokes zero s = refl
after_gap-strokes (suc n) s = after_gap-strokes n s

decode-token : (now i t : ℕ) → security.decode now (token i t) ≡ decoded now i t
decode-token now i t =
    rw
      (
        strokes_of-strokes i (strokes t end_),
        after_gap-strokes i (strokes t end_),
        strokes_of-end t,
      )
      refl

pub security-IsSecure : IsSecure security
security-IsSecure = record {
  checks = λ salt p h e. let same : h ≡ p = ground arith in rw (same, str_eq_refl p) refl;
  decodes = λ now t i h. rw (decode-token now i t, lt→ltb now t h) refl;
  expires = λ now t i h. rw (decode-token now i t, h) refl;
}

abbrev draw : ℕ → String → Draw
draw n t = record { now = n; token = t }

abbrev registered_user : User
registered_user = user_row (env_at 1) "a@b.c" "password"

registered_user_authenticates_example :
    ((login security
        (draw 1000 "t")
        "a@b.c"
        "password"
        (record funded_db { users = registered_user ∷ funded_db.users })
        []).0
      >>= λ t.
          get_current_user security 1500
            (some t.access_token)
            (record funded_db { users = registered_user ∷ funded_db.users }))
    ≡ ok registered_user
unfolding register insert_user
registered_user_authenticates_example =
    registered_user_authenticates security (env_at 1) (draw 1000 "t") "a@b.c" "password" funded_db
      [] 1500 security-IsSecure refl (omega arith)

abbrev one_grant : Tokens
one_grant = record { token = "old"; user_id = 7; expires_at = 5000 } ∷ []

refresh_token_rotates_example :
    let tokens' = (refresh_token security (draw 1000 "new") "old" one_grant).1 in
    (refresh_token security (draw 2000 "newer") "old" tokens'
      ≡ (raise invalid_refresh_token, tokens'))
    × (refresh_token security (draw 2000 "newer") "new" tokens' ≡ (
      ok (issue security (draw 2000 "newer") 7 (revoke "new" tokens')).0,
      (issue security (draw 2000 "newer") 7 (revoke "new" tokens')).1,
    ))
unfolding lookup
refresh_token_rotates_example =
    refresh_token_rotates security (draw 1000 "new") (draw 2000 "newer") "old" 7 one_grant refl
      new_is_not_old (omega arith)
  where
    new_is_not_old : ◌≢◌ {A = String} "new" "old"
    new_is_not_old h = ground (arith, ap (λ (t : String). str_eq t "old") h)

refresh_race_example :
    let first =
      (rotate security (draw 1000 "new") "old" (lookup 1000 "old" one_grant) one_grant).1 in
    let second =
      (rotate security (draw 1001 "newer") "old" (lookup 1001 "old" one_grant) first).1 in
    (lookup 2000 "new" second ≡ some 7) × (lookup 2000 "newer" second ≡ some 7)
unfolding lookup
refresh_race_example =
    refresh_race security (draw 1000 "new") (draw 1001 "newer") "old" 7 2000 one_grant refl refl
      new_is_not_old newer_is_not_new (omega arith) (omega arith)
  where
    new_is_not_old : ◌≢◌ {A = String} "new" "old"
    new_is_not_old h = ground (arith, ap (λ (t : String). str_eq t "old") h)

    newer_is_not_new : ◌≢◌ {A = String} "newer" "new"
    newer_is_not_new h = ground (arith, ap (λ (t : String). str_eq t "new") h)
