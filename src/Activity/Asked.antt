-- ===== src/Activity/Asked.antt =====
-- What a query of an account's activity asks for, and its WHERE clause.
use miniwallet.Base.{
  ℕ, ◌≡◌, ◌≤◌, ◌==◌, refl, inl, inr, true, false, String, Option, none, some, str_eq, str_eq_iff,
  Bool-cases, arith,
}
use miniwallet.Activity.{TransactionActivity}
use miniwallet.Activity.History.{Query, not_before, not_after, of_type, matches}

-- The row is of the account, from the dates and of the type that were asked for; a type that is an
-- empty text asks for any.
pub record IsAsked (q : Query) (r : TransactionActivity) : Type 0 where
  pub account : r.account_id ≡ q.account_id
  pub from : (d : ℕ) → q.from_date ≡ some d → d ≤ r.occurred_at
  pub upto : (d : ℕ) → q.to_date ≡ some d → r.occurred_at ≤ d
  pub kind : (t : String) → q.entry_type ≡ some t → str_eq t "" ≡ false → r.entry_type ≡ t

since_first : (o : Option ℕ) (t : ℕ) → ((d : ℕ) → o ≡ some d → d ≤ t) → not_before o t ≡ true
since_first none t h = refl
since_first (some d) t h = let le = h d refl in ground (arith, le)

until_last : (o : Option ℕ) (t : ℕ) → ((d : ℕ) → o ≡ some d → t ≤ d) → not_after o t ≡ true
until_last none t h = refl
until_last (some d) t h = let le = h d refl in ground (arith, le)

of_kind :
    (o : Option String) (t : String)
    → ((e : String) → o ≡ some e → str_eq e "" ≡ false → t ≡ e)
    → of_type o t ≡ true
of_kind none t h = refl
of_kind (some e) t h = elim (Bool-cases (str_eq e "")) [
  | inl any ↦ rw any refl
  | inr other ↦ rw other ((str_eq_iff t e).1 (h e refl other))
]

pub IsAsked-matches : (q : Query) (r : TransactionActivity) → IsAsked q r → matches q r ≡ true
unfolding matches
IsAsked-matches q r h =
    let own : (r.account_id == q.account_id) ≡ true = ground (arith, h.account) in
    rw
      (
        own,
        since_first q.from_date r.occurred_at h.from,
        until_last q.to_date r.occurred_at h.upto,
        of_kind q.entry_type r.entry_type h.kind,
      )
      refl

pub matches-IsAsked : (q : Query) (r : TransactionActivity) → matches q r ≡ true → IsAsked q r
unfolding matches
matches-IsAsked q r h = record {
  account = ground (arith, h);
  from = λ d e. ground (arith, h, e);
  upto = λ d e. ground (arith, h, e);
  kind = λ t e n.
      let same : str_eq r.entry_type t ≡ true = ground (arith, h, e, n) in
      (str_eq_iff r.entry_type t).0 same;
}
