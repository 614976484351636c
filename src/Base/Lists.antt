-- ===== src/Base/Lists.antt =====
-- Lists measured by native numbers, and the searches and updates that stand for SQL clauses.
use Prim.Native.Nat.{ℕ, zero, suc, ◌+◌}
use mathlib.Core.Path.{◌≡◌, refl}
use mathlib.Core.Bool.{Bool, true, false}
use mathlib.Core.Logic.{inl, inr}
use mathlib.Core.Option.{Option, none, some}
use mathlib.Core.List.{List, [], ◌∷◌, ◌++◌}
use native.Mathlib.Omega.{arith}
use mini_wallet.Base.Tests.{if◌then◌else◌, Bool-cases}

module _ {ℓ} {A : Type ℓ} where
  abbrev pub length : List A → ℕ
  length [] = 0
  length (x ∷ xs) = suc (length xs)

  -- The first row that a `WHERE` test accepts.
  abbrev pub find : (A → Bool) → List A → Option A
  find p [] = none
  find p (x ∷ xs) = if p x then some x else find p xs

  -- The rows that a `WHERE` test accepts.
  abbrev pub select : (A → Bool) → List A → List A
  select p [] = []
  select p (x ∷ xs) = let rest = select p xs in if p x then x ∷ rest else rest

  -- The rows that a `DELETE ... WHERE` leaves.
  abbrev pub reject : (A → Bool) → List A → List A
  reject p [] = []
  reject p (x ∷ xs) = let rest = reject p xs in if p x then rest else x ∷ rest

  -- `UPDATE ... SET f WHERE p`.
  abbrev pub update : (A → Bool) → (A → A) → List A → List A
  update p f [] = []
  update p f (x ∷ xs) = (if p x then f x else x) ∷ update p f xs

  abbrev pub any : (A → Bool) → List A → Bool
  any p [] = false
  any p (x ∷ xs) = if p x then true else any p xs

  -- The rows affected by a statement with this `WHERE`.
  abbrev pub matching : (A → Bool) → List A → ℕ
  matching p [] = 0
  matching p (x ∷ xs) = if p x then suc (matching p xs) else matching p xs

  abbrev pub take : ℕ → List A → List A
  take zero xs = []
  take (suc n) [] = []
  take (suc n) (x ∷ xs) = x ∷ take n xs

  abbrev pub All {κ} : (A → Type κ) → List A → Type κ
  All P [] = Unit
  All P (x ∷ xs) = P x × All P xs

module _ {ℓ} {A : Type ℓ} where
  pub length-append : (xs ys : List A) → length (xs ++ ys) ≡ length xs + length ys
  length-append [] ys = omega arith
  length-append (x ∷ xs) ys = omega (arith, length-append xs ys)

  pub matching-find : (p : A → Bool) (xs : List A) → find p xs ≡ none → matching p xs ≡ 0
  matching-find p [] h = refl
  matching-find p (x ∷ xs) h = ground (arith, matching-find p xs)

  pub All-append {κ} : (P : A → Type κ) (xs ys : List A) → All P xs → All P ys → All P (xs ++ ys)
  All-append P [] ys hx hy = hy
  All-append P (x ∷ xs) ys hx hy = (hx.0, All-append P xs ys hx.1 hy)

  pub All-map {κ μ} :
      (P : A → Type κ) (Q : A → Type μ) (f : (x : A) → P x → Q x) (xs : List A)
      → All P xs
      → All Q xs
  All-map P Q f [] h = tt
  All-map P Q f (x ∷ xs) h = (f x h.0, All-map P Q f xs h.1)

  -- An update that keeps a predicate row by row keeps it on the table.
  pub All-update {κ} :
      (P : A → Type κ) (p : A → Bool) (f : A → A)
      → ((x : A) → P x → P (f x))
      → (xs : List A) → All P xs
      → All P (update p f xs)
  All-update P p f keep [] h = tt
  All-update P p f keep (x ∷ xs) h = elim (Bool-cases (p x)) [
    | inl hit ↦ rw hit (keep x h.0, All-update P p f keep xs h.1)
    | inr miss ↦ rw miss (h.0, All-update P p f keep xs h.1)
  ]

  pub All-reject {κ} :
      (P : A → Type κ) (p : A → Bool) (xs : List A) → All P xs → All P (reject p xs)
  All-reject P p [] h = tt
  All-reject P p (x ∷ xs) h = elim (Bool-cases (p x)) [
    | inl hit ↦ rw hit (All-reject P p xs h.1)
    | inr miss ↦ rw miss (h.0, All-reject P p xs h.1)
  ]
