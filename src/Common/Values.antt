-- ===== src/Common/Values.antt =====
-- What holds of every value of a hash map.
use mathlib.Core.Path.{◌≡◌, subst}
use mathlib.Core.Logic.{inl, inr}
use mathlib.Core.Option.{some}
use mathlib.Core.List.{[], ◌∷◌}
use compatra.Common.Tests.{Eq, Bool-cases}
use compatra.Common.Lists.{All}
use compatra.Common.HashMap.{HashMap, lookup, insert, remove}

module _ {K : Type 0} {V : Type 0} ⦃e : Eq K⦄ where
  abbrev pub AllValues : (V → Type 0) → HashMap K V → Type 0
  AllValues P m = All (λ (entry : K × V). P entry.1) m

  pub AllValues-insert :
      (P : V → Type 0) (k : K) (v : V) (m : HashMap K V)
      → P v
      → AllValues P m
      → AllValues P (insert k v m)
  unfolding insert
  AllValues-insert P k v [] p h = (p, tt)
  AllValues-insert P k v ((j, w) ∷ m) p h = elim (Bool-cases (e.beq j k)) [
    | inl same ↦ rw (insert, same) (p, h.1)
    | inr other ↦ rw (insert, other) (h.0, AllValues-insert P k v m p h.1)
  ]

  pub AllValues-lookup :
      (P : V → Type 0) (k : K) (v : V) (m : HashMap K V) → lookup k m ≡ some v → AllValues P m → P v
  unfolding lookup
  AllValues-lookup P k v [] found h = cc
  AllValues-lookup P k v ((j, w) ∷ m) found h = elim (Bool-cases (e.beq j k)) [
    | inl same ↦
        let here : some w ≡ some v = rw (lookup, same) at found in
        let value : w ≡ v = cc in subst P value h.0
    | inr other ↦ AllValues-lookup P k v m (rw (lookup, other) at found) h.1
  ]

  pub AllValues-map :
      (P Q : V → Type 0) (m : HashMap K V) → ((v : V) → P v → Q v) → AllValues P m → AllValues Q m
  AllValues-map P Q [] f h = tt
  AllValues-map P Q (entry ∷ m) f h = (f entry.1 h.0, AllValues-map P Q m f h.1)

  pub AllValues-remove :
      (P : V → Type 0) (k : K) (m : HashMap K V) → AllValues P m → AllValues P (remove k m)
  unfolding remove
  AllValues-remove P k [] h = tt
  AllValues-remove P k ((j, w) ∷ m) h = elim (Bool-cases (e.beq j k)) [
    | inl same ↦ rw (remove, same) (AllValues-remove P k m h.1)
    | inr other ↦ rw (remove, other) (h.0, AllValues-remove P k m h.1)
  ]

  pub AllValues-both :
      (P Q R : V → Type 0) (m : HashMap K V)
      → ((v : V) → P v → Q v → R v)
      → AllValues P m
      → AllValues Q m
      → AllValues R m
  AllValues-both P Q R [] f h k = tt
  AllValues-both P Q R (entry ∷ m) f h k = (f entry.1 h.0 k.0, AllValues-both P Q R m f h.1 k.1)
