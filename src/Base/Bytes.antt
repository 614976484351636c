-- ===== src/Base/Bytes.antt =====
-- Texts as lists of bytes, where the source takes them apart.
use Prim.Native.Nat.{ℕ, zero, suc}
use mathlib.Core.Path.{◌≡◌, refl}
use mathlib.Core.Bool.{false}
use mathlib.Core.List.{List, [], ◌∷◌, ◌++◌}
use native.Mathlib.Omega.{arith}
use mini_wallet.Base.Tests.{if◌then◌else◌, ◌==◌}
use mini_wallet.Base.Lists.{any, length}

-- A byte put before the first part.
abbrev pub onto_first : ℕ → List (List ℕ) → List (List ℕ)
onto_first b [] = (b ∷ []) ∷ []
onto_first b (p ∷ ps) = (b ∷ p) ∷ ps

-- `strings.Split(s, sep)` for a separator of one byte
abbrev pub split : ℕ → List ℕ → List (List ℕ)
split sep [] = [] ∷ []
split sep (b ∷ bs) = let rest = split sep bs in if b == sep then [] ∷ rest else onto_first b rest

-- `strings.Repeat`
abbrev pub repeat : ℕ → ℕ → List ℕ
repeat b zero = []
repeat b (suc n) = b ∷ repeat b n

-- A text without the separator is one part.
pub split-one : (sep : ℕ) (bs : List ℕ) → any (λ b. b == sep) bs ≡ false → split sep bs ≡ bs ∷ []
split-one sep [] h = refl
split-one sep (b ∷ bs) h = ground (arith, split-one sep bs)

-- Up to the first separator, and the parts of what follows it.
pub split-append :
    (sep : ℕ) (bs cs : List ℕ)
    → any (λ b. b == sep) bs ≡ false
    → split sep (bs ++ sep ∷ cs) ≡ bs ∷ split sep cs
split-append sep [] cs h = ground arith
split-append sep (b ∷ bs) cs h = ground (arith, split-append sep bs cs)

pub length-repeat : (b n : ℕ) → length (repeat b n) ≡ n
length-repeat b zero = refl
length-repeat b (suc n) = omega (arith, length-repeat b n)
