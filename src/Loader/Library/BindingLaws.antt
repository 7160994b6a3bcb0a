-- ===== src/Loader/Library/BindingLaws.antt =====
-- What `apply_import_bindings` of crates/compatra-runtime/src/macos/loader/guest_libraries.rs writes.
use compatra.Common.{
  ℕ, ◌≡◌, refl, sym, subst, ap, ◌∙◌, ◌⊎◌, inl, inr, List, [], ◌∷◌, Option, some, Bool, false,
  is_empty, Bool-cases, Option-cases, bytes_beq, bytes_beq_iff, bytes_eq,
}
use compatra.Common.HashMap.{HashMap, lookup, lookup-insert, insert}
use compatra.Loader.Library.Keys.{guest_library_symbol_lookup_keys}
use compatra.Loader.Library.Set.{GuestLibrarySymbol, GuestLibrarySet}
use compatra.Loader.Library.Exports.{IsOneOf}
use compatra.Loader.Library.Bindings.{
  insert_keys, bound_export, binding_loop, apply_import_bindings,
}

-- The address that the stub has is that of an export which one of the imports is bound to, and the key is
-- a lookup name of that import.
pub record IsBound (set : GuestLibrarySet) (should_resolve : List ℕ → Bool)
    (undefs : List (List ℕ × ℕ)) (key : List ℕ) (stub : Option ℕ) : Type 0 where
  pub undef : List ℕ × ℕ
  pub export : GuestLibrarySymbol
  pub imported : IsOneOf undef undefs
  pub bound : bound_export set should_resolve undef.0 ≡ some export
  pub alias : IsOneOf key (guest_library_symbol_lookup_keys undef.0)
  pub address : stub ≡ some export.address

insert_keys-cases :
    (address : ℕ) (key : List ℕ) (keys : List (List ℕ)) (stubs : HashMap (List ℕ) ℕ)
    → (lookup key (insert_keys address keys stubs) ≡ lookup key stubs)
      ⊎ (IsOneOf key keys × (lookup key (insert_keys address keys stubs) ≡ some address))
unfolding insert_keys
insert_keys-cases address key [] stubs = inl refl
insert_keys-cases address key (k ∷ keys) stubs =
    elim (insert_keys-cases address key keys (insert k address stubs)) [
      | inr (m, e) ↦ inr (inr m, e)
      | inl e ↦ elim (Bool-cases (bytes_beq k key)) [
        | inl same ↦ inr (
          inl ((bytes_beq_iff k key).0 same),
          e ∙ (rw (lookup-insert key k address stubs, same) refl),
        )
        | inr other ↦ inl (e ∙ (rw (lookup-insert key k address stubs, other) refl))
      ]
    ]

module _ (set : GuestLibrarySet) (should_resolve : List ℕ → Bool) (key : List ℕ) where
  abbrev LoopOutcome : List (List ℕ × ℕ) → HashMap (List ℕ) ℕ → Type 0
  LoopOutcome undefs stubs =
      (lookup key (binding_loop set should_resolve undefs stubs).0 ≡ lookup key stubs)
      ⊎ IsBound set should_resolve undefs key
          (lookup key (binding_loop set should_resolve undefs stubs).0)

  later :
      (u : List ℕ × ℕ) (undefs : List (List ℕ × ℕ)) (stub : Option ℕ)
      → IsBound set should_resolve undefs key stub
      → IsBound set should_resolve (u ∷ undefs) key stub
  later u undefs stub b = record {
    undef = b.undef;
    export = b.export;
    imported = inr b.imported;
    bound = b.bound;
    alias = b.alias;
    address = b.address;
  }

  after_binding :
      (name : List ℕ) (n_type : ℕ) (undefs : List (List ℕ × ℕ)) (stubs : HashMap (List ℕ) ℕ)
      (export : GuestLibrarySymbol)
      → bound_export set should_resolve name ≡ some export
      → LoopOutcome undefs
          (insert_keys export.address (guest_library_symbol_lookup_keys name) stubs)
      → LoopOutcome ((name, n_type) ∷ undefs) stubs
  unfolding binding_loop
  after_binding name n_type undefs stubs export e (inr b) =
      inr (rw (binding_loop, e) (later (name, n_type) undefs _ b))
  after_binding name n_type undefs stubs export e (inl same) =
      elim (insert_keys-cases export.address key (guest_library_symbol_lookup_keys name) stubs) [
        | inl kept ↦ inl (rw (binding_loop, e) (same ∙ kept))
        | inr (alias, address) ↦ inr (record {
          undef = (name, n_type);
          export = export;
          imported = inl refl;
          bound = e;
          alias = alias;
          address = rw (binding_loop, e) (same ∙ address);
        })
      ]

  loop_outcome :
      (undefs : List (List ℕ × ℕ)) (stubs : HashMap (List ℕ) ℕ) → LoopOutcome undefs stubs
  unfolding binding_loop
  loop_outcome [] stubs = inl refl
  loop_outcome ((name, n_type) ∷ undefs) stubs =
      elim (Option-cases (bound_export set should_resolve name)) [
        | inr (export, e) ↦ after_binding name n_type undefs stubs export e (
            loop_outcome undefs
              (insert_keys export.address (guest_library_symbol_lookup_keys name) stubs))
        | inl e ↦ elim (loop_outcome undefs stubs) [
          | inl same ↦ inl (rw (binding_loop, e) same)
          | inr b ↦ inr (rw (binding_loop, e) (later (name, n_type) undefs _ b))
        ]
      ]

  -- A stub keeps its address, or has that of an export to which an import is bound that the caller
  -- chose and that has the stub's name among its lookup names.
  pub apply_import_bindings-IsBound :
      (undefs : List (List ℕ × ℕ)) (stubs : HashMap (List ℕ) ℕ)
      → (lookup key (apply_import_bindings set should_resolve undefs stubs).0 ≡ lookup key stubs)
        ⊎ IsBound set should_resolve undefs key
            (lookup key (apply_import_bindings set should_resolve undefs stubs).0)
  unfolding apply_import_bindings
  apply_import_bindings-IsBound undefs stubs = elim (Bool-cases (is_empty set.images)) [
    | inl e ↦ inl (rw (apply_import_bindings, e) refl)
    | inr e ↦ rw (apply_import_bindings, e) (loop_outcome undefs stubs)
  ]

insert_keys_alias :
    (address : ℕ) (key : List ℕ) (keys : List (List ℕ)) (stubs : HashMap (List ℕ) ℕ)
    → IsOneOf key keys
    → lookup key (insert_keys address keys stubs) ≡ some address
unfolding insert_keys
insert_keys_alias address key [] stubs m = elim m [ ]
insert_keys_alias address key (k ∷ keys) stubs (inr m) =
    insert_keys_alias address key keys (insert k address stubs) m
insert_keys_alias address key (k ∷ keys) stubs (inl same) =
    elim (insert_keys-cases address key keys (insert k address stubs)) [
      | inr (m, e) ↦ e
      | inl e ↦ e ∙ (rw (lookup-insert key k address stubs, (bytes_beq_iff k key).1 same) refl)
    ]

module _ (set : GuestLibrarySet) (should_resolve : List ℕ → Bool) (key : List ℕ)
    (export : GuestLibrarySymbol) where
  loop_binds :
      (undefs : List (List ℕ × ℕ)) (u : List ℕ × ℕ) (stubs : HashMap (List ℕ) ℕ)
      → IsOneOf u undefs
      → bound_export set should_resolve u.0 ≡ some export
      → IsOneOf key (guest_library_symbol_lookup_keys u.0)
      → IsBound set should_resolve undefs key
          (lookup key (binding_loop set should_resolve undefs stubs).0)
  unfolding binding_loop
  loop_binds [] u stubs m e k = elim m [ ]
  loop_binds (first ∷ undefs) u stubs (inr m) e k =
      elim (Option-cases (bound_export set should_resolve first.0)) [
        | inl f ↦
            rw (binding_loop, f)
              (later set should_resolve key first undefs _ (loop_binds undefs u stubs m e k))
        | inr (x, f) ↦
            rw (binding_loop, f)
              (later set should_resolve key first undefs _ (
                loop_binds undefs u
                  (insert_keys x.address (guest_library_symbol_lookup_keys first.0) stubs) m e k))
      ]
  loop_binds ((name, n_type) ∷ undefs) u stubs (inl same) e k =
      let f : bound_export set should_resolve name ≡ some export =
        ap (λ (p : List ℕ × ℕ). bound_export set should_resolve p.0) same ∙ e in
      let alias : IsOneOf key (guest_library_symbol_lookup_keys name) =
        subst (λ (p : List ℕ × ℕ). IsOneOf key (guest_library_symbol_lookup_keys p.0)) (sym same)
          k in
      let stubs' = insert_keys export.address (guest_library_symbol_lookup_keys name) stubs in
      elim (loop_outcome set should_resolve key undefs stubs') [
        | inr b ↦ rw (binding_loop, f) (later set should_resolve key (name, n_type) undefs _ b)
        | inl kept ↦ record {
          undef = (name, n_type);
          export = export;
          imported = inl refl;
          bound = f;
          alias = alias;
          address =
              rw (binding_loop, f)
                (kept
                  ∙ insert_keys_alias export.address key (guest_library_symbol_lookup_keys name)
                      stubs alias);
        }
      ]

  -- Where a library is loaded, each lookup name of an import that is bound gets the address of an
  -- export to which an import with that lookup name is bound.
  pub apply_import_bindings_binds :
      (undefs : List (List ℕ × ℕ)) (u : List ℕ × ℕ) (stubs : HashMap (List ℕ) ℕ)
      → is_empty set.images ≡ false
      → IsOneOf u undefs
      → bound_export set should_resolve u.0 ≡ some export
      → IsOneOf key (guest_library_symbol_lookup_keys u.0)
      → IsBound set should_resolve undefs key
          (lookup key (apply_import_bindings set should_resolve undefs stubs).0)
  unfolding apply_import_bindings
  apply_import_bindings_binds undefs u stubs loaded m e k =
      rw (apply_import_bindings, loaded) (loop_binds undefs u stubs m e k)
