-- ===== src/Common/BTree.antt =====
-- `std::collections::BTreeMap` and `BTreeSet` with strings for keys, as lists that ascend by their
-- keys. `get` is `lookup` of the hash map, and iteration is the list.
use Prim.Native.Nat.{ℕ, compare, Ordering}
use mathlib.Core.Path.{◌≡◌, refl}
use mathlib.Core.Logic.{◌⊎◌, inl, inr}
use mathlib.Core.Bool.{Bool, false, ◌||◌}
use mathlib.Core.Option.{some}
use mathlib.Core.List.{List, [], ◌∷◌}
use native.Mathlib.Omega.{arith}
use compatra.Common.Tests.{if◌then◌else◌, bytes_beq, bytes_beq_iff, bytes_eq}
use compatra.Common.HashMap.{lookup}

-- The order of strings: that of their bytes, the shorter first.
abbrev pub bytes_compare : List ℕ → List ℕ → Ordering
bytes_compare [] [] = Ordering.eq
bytes_compare [] (b ∷ bs) = Ordering.lt
bytes_compare (a ∷ xs) [] = Ordering.gt
bytes_compare (a ∷ xs) (b ∷ bs) =
    let rest = bytes_compare xs bs in
    elim (compare a b) [
      | Ordering.lt ↦ Ordering.lt
      | Ordering.eq ↦ rest
      | Ordering.gt ↦ Ordering.gt
    ]

bytes_compare-eq : (xs ys : List ℕ) → bytes_compare xs ys ≡ Ordering.eq → xs ≡ ys
bytes_compare-eq [] [] h = refl
bytes_compare-eq [] (b ∷ bs) h = cc
bytes_compare-eq (a ∷ xs) [] h = cc
bytes_compare-eq (a ∷ xs) (b ∷ bs) h = ground (arith, bytes_compare-eq xs bs)

bytes_compare_self : (xs : List ℕ) → bytes_compare xs xs ≡ Ordering.eq
bytes_compare_self [] = refl
bytes_compare_self (a ∷ xs) = ground (arith, bytes_compare_self xs)

pub Ordering-cases : (o : Ordering) → (o ≡ Ordering.lt) ⊎ ((o ≡ Ordering.eq) ⊎ (o ≡ Ordering.gt))
Ordering-cases Ordering.lt = inl refl
Ordering-cases Ordering.eq = inr (inl refl)
Ordering-cases Ordering.gt = inr (inr refl)

abbrev pub BTreeMap {κ} : Type κ → Type κ
BTreeMap V = List (List ℕ × V)

module _ {κ} {V : Type κ} where
  unfoldable pub insert : List ℕ → V → BTreeMap V → BTreeMap V
  insert k v [] = (k, v) ∷ []
  insert k v ((j, w) ∷ m) = elim (bytes_compare k j) [
    | Ordering.lt ↦ (k, v) ∷ (j, w) ∷ m
    | Ordering.eq ↦ (j, v) ∷ m
    | Ordering.gt ↦ (j, w) ∷ insert k v m
  ]

  pub lookup-insert :
      (j k : List ℕ) (v : V) (m : BTreeMap V)
      → lookup j (insert k v m) ≡ (if bytes_beq k j then some v else lookup j m)
  unfolding lookup insert
  lookup-insert j k v [] = refl
  lookup-insert j k v ((i, w) ∷ m) = ground (
    arith,
    bytes_compare-eq k i,
    bytes_compare_self k,
    bytes_beq_iff k j,
    bytes_beq_iff i k,
    bytes_beq_iff i j,
    lookup-insert j k v m,
  )

unfoldable pub set_insert : List ℕ → List (List ℕ) → List (List ℕ)
set_insert k [] = k ∷ []
set_insert k (j ∷ s) = elim (bytes_compare k j) [
  | Ordering.lt ↦ k ∷ j ∷ s
  | Ordering.eq ↦ j ∷ s
  | Ordering.gt ↦ j ∷ set_insert k s
]

unfoldable pub set_contains : List ℕ → List (List ℕ) → Bool
set_contains k [] = false
set_contains k (j ∷ s) = bytes_beq j k || set_contains k s

pub set_contains-set_insert :
    (k j : List ℕ) (s : List (List ℕ))
    → set_contains j (set_insert k s) ≡ (bytes_beq k j || set_contains j s)
unfolding set_contains set_insert
set_contains-set_insert k j [] = refl
set_contains-set_insert k j (i ∷ s) =
    ground (arith, bytes_compare-eq k i, bytes_beq_iff i k, set_contains-set_insert k j s)
