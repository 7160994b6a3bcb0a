-- ===== src/Common/HashMap.antt =====
-- `std::collections::HashMap` as an association list with one entry for each key. Every operation
-- that the components call is here: get, insert, remove, contains_key. The laws of `lookup` hold of
-- every list; those that equate whole maps, and `total`, need distinct keys (`IsMap`) where they say so.
use Prim.Native.Nat.{ℕ, ◌+◌}
use mathlib.Core.Path.{◌≡◌, refl}
use mathlib.Core.Bool.{Bool, true, false}
use mathlib.Core.Option.{Option, none, some}
use mathlib.Core.List.{List, [], ◌∷◌}
use native.Mathlib.Omega.{arith}
use compatra.Common.Tests.{Eq, if◌then◌else◌}

abbrev pub HashMap {ℓ κ} : Type ℓ → Type κ → Type (ℓ ⊔ κ)
HashMap K V = List (K × V)

pub beq_refl {ℓ} : {K : Type ℓ} ⦃e : Eq K⦄ (k : K) → e.beq k k ≡ true
beq_refl ⦃e⦄ k = (e.beq_iff k k).1 refl

-- A measure of a looked-up value, 0 where there is none.
abbrev pub measure {κ} : {V : Type κ} → (V → ℕ) → Option V → ℕ
measure f none = 0
measure f (some v) = f v

module _ {ℓ κ} {K : Type ℓ} {V : Type κ} ⦃e : Eq K⦄ where
  unfoldable pub lookup : K → HashMap K V → Option V
  lookup k [] = none
  lookup k ((j, v) ∷ m) = if e.beq j k then some v else lookup k m

  unfoldable pub insert : K → V → HashMap K V → HashMap K V
  insert k v [] = (k, v) ∷ []
  insert k v ((j, w) ∷ m) = if e.beq j k then (j, v) ∷ m else (j, w) ∷ insert k v m

  unfoldable pub remove : K → HashMap K V → HashMap K V
  remove k [] = []
  remove k ((j, w) ∷ m) = let rest = remove k m in if e.beq j k then rest else (j, w) ∷ rest

  unfoldable pub contains_key : K → HashMap K V → Bool
  unfolding lookup
  contains_key k m = elim (lookup k m) [ none ↦ false | some v ↦ true ]

  pub lookup-insert :
      (j k : K) (v : V) (m : HashMap K V)
      → lookup j (insert k v m) ≡ (if e.beq k j then some v else lookup j m)
  unfolding lookup insert
  lookup-insert j k v [] = refl
  lookup-insert j k v ((i, w) ∷ m) =
      ground (arith, e.beq_iff k j, e.beq_iff i k, e.beq_iff i j, lookup-insert j k v m)

  pub lookup-remove :
      (j k : K) (m : HashMap K V) → lookup j (remove k m) ≡ (if e.beq k j then none else lookup j m)
  unfolding lookup remove
  lookup-remove j k [] = ground arith
  lookup-remove j k ((i, w) ∷ m) =
      ground (arith, e.beq_iff k j, e.beq_iff i k, e.beq_iff i j, lookup-remove j k m)

  pub lookup-insert_self : (k : K) (v : V) (m : HashMap K V) → lookup k (insert k v m) ≡ some v
  lookup-insert_self k v m = rw (lookup-insert k k v m, beq_refl k)

  pub lookup-remove_self : (k : K) (m : HashMap K V) → lookup k (remove k m) ≡ none
  lookup-remove_self k m = rw (lookup-remove k k m, beq_refl k)

  -- Each key has one entry.
  abbrev pub IsMap : HashMap K V → Type κ
  IsMap [] = Unit {κ}
  IsMap ((k, v) ∷ m) = (lookup k m ≡ none) × IsMap m

  pub insert-IsMap : (k : K) (v : V) (m : HashMap K V) → IsMap m → IsMap (insert k v m)
  unfolding insert lookup
  insert-IsMap k v [] h = (refl, tt)
  insert-IsMap k v ((i, w) ∷ m) h =
      ground (arith, e.beq_iff k i, e.beq_iff i k, insert-IsMap k v m h.1, lookup-insert i k v m)

  pub remove-IsMap : (k : K) (m : HashMap K V) → IsMap m → IsMap (remove k m)
  unfolding remove
  remove-IsMap k [] h = tt
  remove-IsMap k ((i, w) ∷ m) h = ground (arith, remove-IsMap k m h.1, lookup-remove i k m)

  -- What an operation that is undone leaves behind.
  pub insert-insert : (k : K) (v w : V) (m : HashMap K V) → insert k v (insert k w m) ≡ insert k v m
  unfolding insert
  insert-insert k v w [] = rw (beq_refl k)
  insert-insert k v w ((i, x) ∷ m) = ground (arith, insert-insert k v w m, beq_refl k)

  pub insert_present : (k : K) (v : V) (m : HashMap K V) → lookup k m ≡ some v → insert k v m ≡ m
  unfolding insert lookup
  insert_present k v [] h = cc
  insert_present k v ((i, w) ∷ m) h = ground (arith, insert_present k v m)

  pub remove_absent : (k : K) (m : HashMap K V) → lookup k m ≡ none → remove k m ≡ m
  unfolding remove lookup
  remove_absent k [] h = refl
  remove_absent k ((i, w) ∷ m) h = ground (arith, remove_absent k m)

  pub remove-insert :
      (k : K) (v : V) (m : HashMap K V) → lookup k m ≡ none → remove k (insert k v m) ≡ m
  unfolding remove insert lookup
  remove-insert k v [] h = rw (beq_refl k)
  remove-insert k v ((i, w) ∷ m) h = ground (arith, remove-insert k v m)

  -- The sum of a measure over the values.
  unfoldable pub total : (V → ℕ) → HashMap K V → ℕ
  total f [] = 0
  total f ((k, v) ∷ m) = f v + total f m

  pub total-insert :
      (f : V → ℕ) (k : K) (v : V) (m : HashMap K V)
      → total f (insert k v m) + measure f (lookup k m) ≡ total f m + f v
  unfolding total insert lookup
  total-insert f k v [] = omega arith
  total-insert f k v ((i, w) ∷ m) = ground (arith, total-insert f k v m)

  pub total-remove :
      (f : V → ℕ) (k : K) (m : HashMap K V)
      → IsMap m
      → total f (remove k m) + measure f (lookup k m) ≡ total f m
  unfolding total remove lookup
  total-remove f k [] h = omega arith
  total-remove f k ((i, w) ∷ m) h =
      ground (arith, total-remove f k m h.1, e.beq_iff i k, remove_absent k m)

pub ruleset map_laws = (lookup-insert, lookup-remove, lookup-insert_self, lookup-remove_self)
