-- ===== src/Common/Bytes.antt =====
-- Byte strings as lists of numbers, `from_le_bytes`, `from_be_bytes` and their inverses.
use Prim.Native.Nat.{ℕ, zero, suc, ◌+◌, ◌*◌, ◌/◌, ◌%◌, ◌^◌, ◌<◌}
use mathlib.Core.Path.{◌≡◌, refl, ap, ◌∙◌}
use mathlib.Core.Bool.{Bool, true, false}
use mathlib.Core.List.{List, [], ◌∷◌, ◌++◌, reverse, reverse-reverse, reverse-cons}
use native.Mathlib.Nat.{pow-suc}
use native.Mathlib.Omega.{arith}
use compatra.Common.Tests.{if◌then◌else◌}
use compatra.Common.Lists.{length, length-append, take, drop}

abbrev pub IsByte : ℕ → Type 0
IsByte b = b < 256

unfoldable pub le_value : List ℕ → ℕ
le_value [] = 0
le_value (b ∷ bs) = b + 256 * le_value bs

unfoldable pub be_value : List ℕ → ℕ
unfolding le_value
be_value bs = le_value (reverse bs)

-- `u32::from_be_bytes` or `u32::from_le_bytes`, and so for the other widths.
unfoldable pub value : Bool → List ℕ → ℕ
unfolding be_value le_value
value big bs = if big then be_value bs else le_value bs

unfoldable pub le_bytes : ℕ → ℕ → List ℕ
le_bytes zero v = []
le_bytes (suc n) v = (v % 256) ∷ le_bytes n (v / 256)

unfoldable pub bytes : Bool → ℕ → ℕ → List ℕ
unfolding le_bytes
bytes big n v = if big then reverse (le_bytes n v) else le_bytes n v

length-le_bytes : (n v : ℕ) → length (le_bytes n v) ≡ n
unfolding le_bytes
length-le_bytes zero v = refl
length-le_bytes (suc n) v = ap suc (length-le_bytes n (v / 256))

length-reverse {ℓ} : {A : Type ℓ} (xs : List A) → length (reverse xs) ≡ length xs
length-reverse [] = refl
length-reverse (x ∷ xs) =
    omega
      (arith, ap length (reverse-cons x xs), length-append (reverse xs) (x ∷ []), length-reverse xs)

pub length-bytes : (big : Bool) (n v : ℕ) → length (bytes big n v) ≡ n
unfolding bytes
length-bytes true n v = length-reverse (le_bytes n v) ∙ length-le_bytes n v
length-bytes false n v = length-le_bytes n v

le_value-le_bytes : (n v : ℕ) → v < 256 ^ n → le_value (le_bytes n v) ≡ v
unfolding le_value le_bytes
le_value-le_bytes zero v h = omega arith
le_value-le_bytes (suc n) v h =
    omega (arith, pow-suc 256 n, le_value-le_bytes n (v / 256) (omega (arith, pow-suc 256 n)))

pub value-bytes : (big : Bool) (n v : ℕ) → v < 256 ^ n → value big (bytes big n v) ≡ v
unfolding value bytes
value-bytes true n v h = rw reverse-reverse (le_value-le_bytes n v h)
value-bytes false n v h = le_value-le_bytes n v h

pub take-append {ℓ} : {A : Type ℓ} (n : ℕ) (xs ys : List A) → length xs ≡ n → take n (xs ++ ys) ≡ xs
take-append zero [] ys h = refl
take-append zero (x ∷ xs) ys h = absurd (omega arith)
take-append (suc n) [] ys h = absurd (omega arith)
take-append (suc n) (x ∷ xs) ys h = ap (◌∷◌ x) (take-append n xs ys (omega arith))

pub drop-append {ℓ} : {A : Type ℓ} (n : ℕ) (xs ys : List A) → length xs ≡ n → drop n (xs ++ ys) ≡ ys
drop-append zero [] ys h = refl
drop-append zero (x ∷ xs) ys h = absurd (omega arith)
drop-append (suc n) [] ys h = absurd (omega arith)
drop-append (suc n) (x ∷ xs) ys h = drop-append n xs ys (omega arith)
