-- ===== src/Loader/Library/Extending.antt =====
-- How `push_undefined_symbol_if_missing` of crates/compatra-runtime/src/macos/loader/guest_libraries.rs
-- adds to the imports: nothing twice.
use mathlib.Core.List.{append_assoc, append-nil}
use compatra.Common.{
  ℕ, ◌+◌, ◌≡◌, refl, ◌∙◌, ap, inl, inr, List, [], ◌∷◌, ◌++◌, false, ◌||◌, length, length-append,
  Bool-cases, bytes_beq, bytes_beq_iff, arith,
}
use compatra.Loader.Library.Bindings.{
  Extending, is_present, push_if_missing, push_all_missing, push_all_names,
}

module _ (normalize : List ℕ → List ℕ) where
  -- No import stands for the same symbol as a later one.
  abbrev pub Distinct : List (List ℕ × ℕ) → Type 0
  Distinct [] = Unit {0}
  Distinct ((name, n_type) ∷ undefs) = (is_present normalize name undefs ≡ false) × Distinct undefs

  pub record Extends (x x' : Extending) : Type 0 where
    pub extra : List (List ℕ × ℕ)
    pub appended : x'.undefs ≡ x.undefs ++ extra
    pub counted : x'.added ≡ x.added + length extra
    pub distinct : Distinct x.undefs → Distinct x'.undefs

  pub Extends-refl : (x : Extending) → Extends x x
  Extends-refl x = record {
    extra = [];
    appended = rw append-nil refl;
    counted = omega arith;
    distinct = λ d. d;
  }

  pub Extends-trans : (x y z : Extending) → Extends x y → Extends y z → Extends x z
  Extends-trans x y z a b = record {
    extra = a.extra ++ b.extra;
    appended =
        b.appended ∙ (ap (λ u. u ++ b.extra) a.appended ∙ append_assoc x.undefs a.extra b.extra);
    counted = omega (arith, a.counted, b.counted, length-append a.extra b.extra);
    distinct = λ d. b.distinct (a.distinct d);
  }

  is_present-snoc :
      (name other : List ℕ) (n_type : ℕ) (undefs : List (List ℕ × ℕ))
      → is_present normalize name undefs ≡ false
      → (bytes_beq other name || bytes_beq (normalize other) (normalize name)) ≡ false
      → is_present normalize name (undefs ++ ((other, n_type) ∷ [])) ≡ false
  unfolding is_present
  is_present-snoc name other n_type [] h d = ground arith
  is_present-snoc name other n_type ((e, t) ∷ undefs) h d =
      ground (arith, is_present-snoc name other n_type undefs)

  Distinct-snoc :
      (name : List ℕ) (n_type : ℕ) (undefs : List (List ℕ × ℕ))
      → is_present normalize name undefs ≡ false
      → Distinct undefs
      → Distinct (undefs ++ ((name, n_type) ∷ []))
  unfolding is_present
  Distinct-snoc name n_type [] h d = (refl, tt)
  Distinct-snoc name n_type ((e, t) ∷ undefs) h d = (
    is_present-snoc e name n_type undefs d.0 (
        ground (
          arith,
          bytes_beq_iff e name,
          bytes_beq_iff name e,
          bytes_beq_iff (normalize e) (normalize name),
          bytes_beq_iff (normalize name) (normalize e),
        )),
    Distinct-snoc name n_type undefs (ground arith) d.1,
  )

  pub push_if_missing-Extends :
      (name : List ℕ) (n_type : ℕ) (x : Extending)
      → Extends x (push_if_missing normalize name n_type x)
  unfolding push_if_missing
  push_if_missing-Extends name n_type x = elim (Bool-cases (is_present normalize name x.undefs)) [
    | inl e ↦ rw (push_if_missing, e) (Extends-refl x)
    | inr e ↦
        rw (push_if_missing, e)
          (record {
            extra = (name, n_type) ∷ [];
            appended = refl;
            counted = refl;
            distinct = Distinct-snoc name n_type x.undefs e;
          })
  ]

  pub push_all_missing-Extends :
      (symbols : List (List ℕ × ℕ)) (x : Extending)
      → Extends x (push_all_missing normalize symbols x)
  unfolding push_all_missing
  push_all_missing-Extends [] x = Extends-refl x
  push_all_missing-Extends ((name, n_type) ∷ symbols) x =
      Extends-trans x (push_if_missing normalize name n_type x) _
        (push_if_missing-Extends name n_type x)
        (push_all_missing-Extends symbols (push_if_missing normalize name n_type x))

  pub push_all_names-Extends :
      (names : List (List ℕ)) (x : Extending) → Extends x (push_all_names normalize names x)
  unfolding push_all_names
  push_all_names-Extends [] x = Extends-refl x
  push_all_names-Extends (name ∷ names) x =
      Extends-trans x (push_if_missing normalize name 0 x) _ (push_if_missing-Extends name 0 x)
        (push_all_names-Extends names (push_if_missing normalize name 0 x))
