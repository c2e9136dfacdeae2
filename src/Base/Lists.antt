-- ===== src/Base/Lists.antt =====
-- Lists measured by native numbers, under the library's names.
use Prim.Native.Nat.{ℕ, zero, suc}
use mathlib.Core.Bool.{Bool, true, false}
use mathlib.Core.Path.{◌≡◌, refl}
use mathlib.Core.Logic.{◌⊎◌, inl, inr}
use native.Mathlib.Omega.{arith}
use mathlib.Core.List.{List, [], ◌∷◌, ◌++◌, map}
use mathlib.Core.Option.{Option, none, some}
use miniwallet.Base.Tests.{if◌then◌else◌, ltb, Bool-cases}

module _ {ℓ} {A : Type ℓ} where
  abbrev pub length : List A → ℕ
  length [] = 0
  length (x ∷ xs) = suc (length xs)

  abbrev pub take : ℕ → List A → List A
  take zero xs = []
  take (suc n) [] = []
  take (suc n) (x ∷ xs) = x ∷ take n xs

  abbrev pub drop : ℕ → List A → List A
  drop zero xs = xs
  drop (suc n) [] = []
  drop (suc n) (x ∷ xs) = drop n xs

  -- The rows that a Boolean condition selects.
  abbrev pub filter : (A → Bool) → List A → List A
  filter p [] = []
  filter p (x ∷ xs) = let rest = filter p xs in if p x then x ∷ rest else rest

  -- The first row that a condition selects.
  abbrev pub find? : (A → Bool) → List A → Option A
  find? p [] = none
  find? p (x ∷ xs) = let rest = find? p xs in if p x then some x else rest

  abbrev pub any : (A → Bool) → List A → Bool
  any p [] = false
  any p (x ∷ xs) = let rest = any p xs in if p x then true else rest

  abbrev pub All {κ} : (A → Type κ) → List A → Type κ
  All P [] = Unit
  All P (x ∷ xs) = P x × All P xs

  -- ORDER BY a number, ascending; rows with the same number stay in the table's order.
  abbrev pub insert_by : (A → ℕ) → A → List A → List A
  insert_by key x [] = x ∷ []
  insert_by key x (y ∷ l) =
      let rest = insert_by key x l in if ltb (key y) (key x) then y ∷ rest else x ∷ y ∷ l

  abbrev pub sort_by : (A → ℕ) → List A → List A
  sort_by key [] = []
  sort_by key (x ∷ l) = insert_by key x (sort_by key l)

module _ {A : Type 0} where
  abbrev pub IsOneOf : A → List A → Type 0
  IsOneOf a [] = ⊥
  IsOneOf a (x ∷ l) = (a ≡ x) ⊎ IsOneOf a l

  -- A condition that no row meets.
  pub any-false : (p : A → Bool) (a : A) (l : List A) → any p l ≡ false → IsOneOf a l → p a ≡ false
  any-false p a [] h mem = absurd mem
  any-false p a (x ∷ l) h (inl e) = elim (Bool-cases (p x)) [
    | inl yes_x ↦ ground (arith, rw yes_x at h)
    | inr no_x ↦ rw e no_x
  ]
  any-false p a (x ∷ l) h (inr mem) = elim (Bool-cases (p x)) [
    | inl yes_x ↦ ground (arith, rw yes_x at h)
    | inr no_x ↦ any-false p a l (rw no_x at h) mem
  ]

  pub IsOneOf-append : (a : A) (k l : List A) → IsOneOf a l → IsOneOf a (k ++ l)
  IsOneOf-append a [] l h = h
  IsOneOf-append a (x ∷ k) l h = inr (IsOneOf-append a k l h)

  pub IsOneOf-left : (a : A) (k l : List A) → IsOneOf a k → IsOneOf a (k ++ l)
  IsOneOf-left a [] l h = absurd h
  IsOneOf-left a (x ∷ k) l (inl e) = inl e
  IsOneOf-left a (x ∷ k) l (inr h) = inr (IsOneOf-left a k l h)

  -- A condition that a row meets.
  pub any-true : (p : A → Bool) (l : List A) → any p l ≡ true → (a : A) × IsOneOf a l × (p a ≡ true)
  any-true p [] h = absurd (ground (arith, h))
  any-true p (x ∷ l) h = elim (Bool-cases (p x)) [
    | inl yes_x ↦ (x, inl refl, yes_x)
    | inr no_x ↦ let (a, mem, e) = any-true p l (rw no_x at h) in (a, inr mem, e)
  ]

  pub any-intro : (p : A → Bool) (a : A) (l : List A) → IsOneOf a l → p a ≡ true → any p l ≡ true
  any-intro p a [] mem h = absurd mem
  any-intro p a (x ∷ l) (inl e) h = let same : p x ≡ true = rw e at h in ground (arith, same)
  any-intro p a (x ∷ l) (inr mem) h = ground (arith, any-intro p a l mem h)

  pub IsOneOf-filter :
      (p : A → Bool) (a : A) (l : List A) → IsOneOf a l → p a ≡ true → IsOneOf a (filter p l)
  IsOneOf-filter p a [] mem h = absurd mem
  IsOneOf-filter p a (x ∷ l) (inl e) h = let same : p x ≡ true = rw e at h in rw same (inl e)
  IsOneOf-filter p a (x ∷ l) (inr mem) h = elim (Bool-cases (p x)) [
    | inl yes_x ↦ rw yes_x (inr (IsOneOf-filter p a l mem h))
    | inr no_x ↦ rw no_x (IsOneOf-filter p a l mem h)
  ]

  module _ (P : A → Type 0) where
    pub All-append : (k l : List A) → All P k → All P l → All P (k ++ l)
    All-append [] l hk hl = hl
    All-append (x ∷ k) l (h, hk) hl = (h, All-append k l hk hl)

    -- What holds of all rows holds of each, and the other way round.
    pub All-each : (a : A) (l : List A) → All P l → IsOneOf a l → P a
    All-each a [] h mem = absurd mem
    All-each a (x ∷ l) (h, _) (inl e) = rw e h
    All-each a (x ∷ l) (_, hs) (inr mem) = All-each a l hs mem

    pub All-intro : (l : List A) → ((a : A) → IsOneOf a l → P a) → All P l
    All-intro [] h = tt
    All-intro (x ∷ l) h = (h x (inl refl), All-intro l (λ a mem. h a (inr mem)))

    pub All-map : (f : A → A) (l : List A) → ((a : A) → P a → P (f a)) → All P l → All P (map f l)
    All-map f [] h a = a
    All-map f (x ∷ l) h (a, rest) = (h x a, All-map f l h rest)

    pub All-imp : (Q : A → Type 0) (l : List A) → ((a : A) → P a → Q a) → All P l → All Q l
    All-imp Q [] f h = tt
    All-imp Q (x ∷ l) f (h, hs) = (f x h, All-imp Q l f hs)
