-- ===== src/Loader/Read.antt =====
-- Sequences of reads from one cursor.
use compatra.Common.{ℕ, List}
use compatra.Loader.Cursor.{Outcome, ok, err, panic, Read}

infixl 5 ◌>>=◌
abbrev pub ◌>>=◌ {ℓ κ} : {A : Type ℓ} {B : Type κ} → Read A → (A → Read B) → Read B
◌>>=◌ m f bs = elim (m bs) [ ok (a, rest) ↦ f a rest | err e ↦ err e | panic ↦ panic ]

abbrev pub pure {ℓ} : {A : Type ℓ} → A → Read A
pure a bs = ok (a, bs)

-- The value, with the bytes behind it dropped.
abbrev pub value_of {ℓ} : {A : Type ℓ} → Outcome (A × List ℕ) → Outcome A
value_of (ok (a, rest)) = ok a
value_of (err e) = err e
value_of panic = panic
