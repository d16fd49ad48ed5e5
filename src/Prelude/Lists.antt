-- ===== src/Prelude/Lists.antt =====
-- Byte strings: Go's `string` and `[]byte` as lists of numbers, their length and their equality.
use Prim.Native.Nat.{ℕ, suc, ◌+◌}
use Prim.Native.Char.{code}
use Prim.Native.String.{String}
use mathlib.Core.Path.{◌≡◌, refl, ap}
use mathlib.Core.Logic.{◌≢◌, ◌↔◌}
use mathlib.Core.Bool.{Bool, true, false, ◌&&◌}
use mathlib.Core.List.{List, [], ◌∷◌, ◌++◌}
use native.Mathlib.Omega.{arith}
use edgelessdb.Prelude.Tests.{◌==◌}

-- A Go string or byte slice. A nil slice and an empty one are both `[]`.
abbrev pub Bytes : Type 0
Bytes = List ℕ

-- A text literal, which is ASCII throughout.
unfoldable pub text : String → Bytes
text String.[] = []
text (String.◌∷◌ c s) = code c ∷ text s

module _ {ℓ} {A : Type ℓ} where
  abbrev pub length : List A → ℕ
  length [] = 0
  length (x ∷ xs) = suc (length xs)

  pub length-append : (xs ys : List A) → length (xs ++ ys) ≡ length xs + length ys
  length-append [] ys = omega arith
  length-append (x ∷ xs) ys = omega (arith, length-append xs ys)

-- Every element satisfies a predicate.
abbrev pub All {ℓ κ} : {A : Type ℓ} → (A → Type κ) → List A → Type κ
All P [] = Unit
All P (x ∷ xs) = P x × All P xs

abbrev pub is_empty {ℓ} : {A : Type ℓ} → List A → Bool
is_empty [] = true
is_empty (_ ∷ _) = false

unfoldable pub bytes_eq : Bytes → Bytes → Bool
bytes_eq [] [] = true
bytes_eq [] (_ ∷ _) = false
bytes_eq (_ ∷ _) [] = false
bytes_eq (x ∷ xs) (y ∷ ys) = x == y && bytes_eq xs ys

pub bytes_eq_refl : (s : Bytes) → bytes_eq s s ≡ true
unfolding bytes_eq
bytes_eq_refl [] = refl
bytes_eq_refl (x ∷ s) = ground (arith, bytes_eq_refl s)

pub eq_of_bytes_eq : (s t : Bytes) → bytes_eq s t ≡ true → s ≡ t
unfolding bytes_eq
eq_of_bytes_eq [] [] h = refl
eq_of_bytes_eq [] (_ ∷ _) h = cc
eq_of_bytes_eq (_ ∷ _) [] h = cc
eq_of_bytes_eq (x ∷ s) (y ∷ t) h = ground (arith, eq_of_bytes_eq s t)

pub bytes_eq_iff : (s t : Bytes) → (bytes_eq s t ≡ true) ↔ (s ≡ t)
bytes_eq_iff s t = (eq_of_bytes_eq s t, λ e. ground (arith, bytes_eq_refl s))

-- Texts of different lengths differ.
pub bytes_ne_of_length : (s t : Bytes) → length s ≢ length t → bytes_eq s t ≡ false
unfolding bytes_eq
bytes_ne_of_length [] [] h = absurd (h refl)
bytes_ne_of_length [] (_ ∷ _) h = refl
bytes_ne_of_length (_ ∷ _) [] h = refl
bytes_ne_of_length (x ∷ s) (y ∷ t) h = ground (arith, bytes_ne_of_length s t (λ e. h (ap suc e)))
