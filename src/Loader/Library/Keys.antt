-- ===== src/Loader/Library/Keys.antt =====
-- The names under which a symbol is looked up, in
-- crates/compatra-runtime/src/macos/loader/guest_libraries.rs. A name is the bytes of its string.
use compatra.Common.{ℕ, List, [], ◌∷◌, Option, none, some, ◌==◌, if◌then◌else◌, is_empty}
use compatra.Common.BTree.{set_insert}

-- The name with an underscore before it.
abbrev pub underscored : List ℕ → List ℕ
underscored symbol = b'_' ∷ symbol

-- `if !stripped.is_empty() { keys.insert(stripped) }`.
abbrev pub insert_nonempty : List ℕ → List (List ℕ) → List (List ℕ)
insert_nonempty symbol keys = if is_empty symbol then keys else set_insert symbol keys

-- The name itself, the name without its first underscore, and the name with one more.
unfoldable pub add_symbol_lookup_forms : List (List ℕ) → List ℕ → List (List ℕ)
unfolding set_insert
add_symbol_lookup_forms keys [] = keys
add_symbol_lookup_forms keys (c ∷ stripped) =
    if c == b'_'
    then set_insert (underscored (c ∷ stripped))
        (insert_nonempty stripped (set_insert (c ∷ stripped) keys))
    else set_insert (underscored (c ∷ stripped)) (set_insert (c ∷ stripped) keys)

-- The part of a name before its first '$', where it has one.
unfoldable pub before_dollar : List ℕ → Option (List ℕ)
before_dollar [] = none
before_dollar (c ∷ cs) =
    let rest = before_dollar cs in
    if c == b'$' then some [] else elim rest [ none ↦ none | some base ↦ some (c ∷ base) ]

unfoldable pub guest_library_symbol_lookup_keys : List ℕ → List (List ℕ)
unfolding add_symbol_lookup_forms before_dollar
guest_library_symbol_lookup_keys symbol = elim (before_dollar symbol) [
  | none ↦ add_symbol_lookup_forms [] symbol
  | some base ↦ add_symbol_lookup_forms (add_symbol_lookup_forms [] symbol) base
]
