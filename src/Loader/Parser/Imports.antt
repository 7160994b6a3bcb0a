-- ===== src/Loader/Parser/Imports.antt =====
-- The symbols that a binary imports or leaves undefined, in
-- crates/compatra-runtime/src/macos/loader/parser.rs. Both queries read entries of 16 bytes, and take a
-- name that no NUL ends to have 64 bytes.
use compatra.Common.{
  ℕ, zero, suc, ◌+◌, ◌*◌, ◌%◌, ◌^◌, List, [], ◌∷◌, ◌++◌, Option, none, some, Bool, true, false, not,
  ◌==◌, ◌&&◌, ◌||◌, ltb, leb, if◌then◌else◌, length, take, drop, is_empty, bytes_eq,
}
use compatra.Common.HashMap.{HashMap, insert, lookup}
use compatra.Common.Bytes.{value}
use compatra.Loader.Cursor.{Outcome, ok, err, panic}
use compatra.Loader.Strings.{string_at, from_utf8_lossy}
use compatra.Loader.Header.{word_at}
use compatra.Loader.Command.Types.{LoadCommand, SymtabCommand, DysymtabCommand}
use compatra.Loader.Parser.Binary.{MachoBinary}
use compatra.Loader.Parser.Relocations.{get_dysymtab_cmd}
use compatra.Loader.Parser.Symbols.{byte_at, long_at, type_bits}

unfoldable pub has_nul : List ℕ → Bool
has_nul [] = false
has_nul (b ∷ bs) = b == 0 || has_nul bs

-- The name at an offset, and a panic where its slice ends behind the file.
unfoldable pub name_from : List ℕ → ℕ → Outcome (List ℕ)
unfolding has_nul string_at from_utf8_lossy
name_from bs start =
    if has_nul (drop start bs)
    then ok (string_at (drop start bs))
    else if leb (start + 64) (length bs)
    then ok (from_utf8_lossy (take 64 (drop start bs)))
    else panic

-- Whether the entry names a string of the file.
abbrev pub has_string : List ℕ → SymtabCommand → ℕ → Bool
has_string bs t strx = ltb 0 strx && ltb strx t.strsize && ltb (t.stroff + strx) (length bs)

abbrev pub push_import : ℕ → HashMap (List ℕ) ℕ → Outcome (List ℕ) → Outcome (HashMap (List ℕ) ℕ)
push_import n_value symbols (ok name) =
    ok (if is_empty name then symbols else insert name n_value symbols)
push_import n_value symbols (err e) = err e
push_import n_value symbols panic = panic

-- The body of the loop over the entries.
unfoldable pub import_entry :
    List ℕ → SymtabCommand → ℕ → HashMap (List ℕ) ℕ → Outcome (HashMap (List ℕ) ℕ)
unfolding name_from insert value
import_entry bs t offset symbols =
    if leb (offset + 16) (length bs) && has_string bs t (word_at false offset bs)
    then push_import (long_at (offset + 8) bs) symbols
        (name_from bs (t.stroff + word_at false offset bs))
    else ok symbols

-- The rounds that are left, from the next offset.
unfoldable pub import_loop :
    List ℕ → SymtabCommand → ℕ → ℕ → HashMap (List ℕ) ℕ → Outcome (HashMap (List ℕ) ℕ)
unfolding import_entry
import_loop bs t offset zero symbols = ok symbols
import_loop bs t offset (suc n) symbols = elim (import_entry bs t offset symbols) [
  | panic ↦ panic
  | err e ↦ err e
  | ok symbols' ↦ import_loop bs t (offset + 16) n symbols'
]

-- `nsyms > 0 && stroff < data.len() as u32`.
abbrev pub has_table : List ℕ → SymtabCommand → Bool
has_table bs t = ltb 0 t.nsyms && ltb t.stroff (length bs % 2 ^ 32)

unfoldable pub import_commands :
    List ℕ → List LoadCommand → HashMap (List ℕ) ℕ → Outcome (HashMap (List ℕ) ℕ)
unfolding import_loop
import_commands bs [] symbols = ok symbols
import_commands bs (LoadCommand.symtab t ∷ cs) symbols = elim (has_table bs t) [
  | false ↦ import_commands bs cs symbols
  | true ↦ elim (import_loop bs t t.symoff t.nsyms symbols) [
    | panic ↦ panic
    | err e ↦ err e
    | ok symbols' ↦ import_commands bs cs symbols'
  ]
]
import_commands bs (_ ∷ cs) symbols = import_commands bs cs symbols

unfoldable pub get_import_symbols : MachoBinary → Outcome (HashMap (List ℕ) ℕ)
unfolding import_commands
get_import_symbols m = import_commands m.contents m.commands []

abbrev pub is_undefined_type : ℕ → Bool
is_undefined_type n_type = not (type_bits n_type == 0x0e) && not (type_bits n_type == 0x0a)

abbrev pub push_undefined : ℕ → List (List ℕ × ℕ) → Outcome (List ℕ) → Outcome (List (List ℕ × ℕ))
push_undefined n_type symbols (ok name) = ok (
    if not (is_empty name) && is_undefined_type n_type
    then symbols ++ ((name, n_type) ∷ [])
    else symbols)
push_undefined n_type symbols (err e) = err e
push_undefined n_type symbols panic = panic

unfoldable pub undefined_entry :
    List ℕ → SymtabCommand → ℕ → List (List ℕ × ℕ) → Outcome (List (List ℕ × ℕ))
unfolding name_from value
undefined_entry bs t offset symbols =
    if has_string bs t (word_at false offset bs)
    then push_undefined (byte_at (offset + 4) bs) symbols
        (name_from bs (t.stroff + word_at false offset bs))
    else ok symbols

-- The loop ends at the first entry that is not whole.
unfoldable pub undefined_loop :
    List ℕ → SymtabCommand → ℕ → ℕ → List (List ℕ × ℕ) → Outcome (List (List ℕ × ℕ))
unfolding undefined_entry
undefined_loop bs t offset zero symbols = ok symbols
undefined_loop bs t offset (suc n) symbols = elim (ltb (length bs) (offset + 16)) [
  | true ↦ ok symbols
  | false ↦ elim (undefined_entry bs t offset symbols) [
    | panic ↦ panic
    | err e ↦ err e
    | ok symbols' ↦ undefined_loop bs t (offset + 16) n symbols'
  ]
]

-- `iundefsym` and `nundefsym` of the first LC_DYSYMTAB.
abbrev pub undefined_range : Option DysymtabCommand → ℕ × ℕ
undefined_range none = (0, 0)
undefined_range (some d) = (d.iundefsym, d.nundefsym)

-- The symbols that the table of an LC_SYMTAB adds, `range` the first index and the count.
unfoldable pub undefined_in :
    List ℕ → ℕ × ℕ → SymtabCommand → List (List ℕ × ℕ) → Outcome (List (List ℕ × ℕ))
unfolding undefined_loop
undefined_in bs range t symbols = elim (has_table bs t) [
  | false ↦ ok symbols
  | true ↦ undefined_loop bs t (t.symoff + range.0 * 16) range.1 symbols
]

unfoldable pub undefined_commands :
    List ℕ → ℕ × ℕ → List LoadCommand → List (List ℕ × ℕ) → Outcome (List (List ℕ × ℕ))
unfolding undefined_in
undefined_commands bs range [] symbols = ok symbols
undefined_commands bs range (LoadCommand.symtab t ∷ cs) symbols =
    elim (undefined_in bs range t symbols) [
      | panic ↦ panic
      | err e ↦ err e
      | ok symbols' ↦ undefined_commands bs range cs symbols'
    ]
undefined_commands bs range (_ ∷ cs) symbols = undefined_commands bs range cs symbols

unfoldable pub get_undefined_symbols : MachoBinary → Outcome (List (List ℕ × ℕ))
unfolding undefined_commands get_dysymtab_cmd
get_undefined_symbols m =
    undefined_commands m.contents (undefined_range (get_dysymtab_cmd m.commands)) m.commands []

-- Neither loop over the undefined symbols finds an address, but the query of them may panic.
unfoldable pub resolve_symbol : MachoBinary → List ℕ → Outcome (Option ℕ)
unfolding get_import_symbols get_undefined_symbols lookup
resolve_symbol m name = elim (get_import_symbols m) [
  | panic ↦ panic
  | err e ↦ err e
  | ok symbols ↦ elim (lookup name symbols) [
    | some addr ↦ ok (some addr)
    | none ↦ elim (get_undefined_symbols m) [
      | panic ↦ panic
      | err e ↦ err e
      | ok undefined ↦ ok none
    ]
  ]
]

unfoldable pub dylib_id : List LoadCommand → Option (List ℕ)
dylib_id [] = none
dylib_id (LoadCommand.id_dylib c ∷ cs) = some c.name
dylib_id (_ ∷ cs) = dylib_id cs

unfoldable pub get_dylib_id : MachoBinary → Option (List ℕ)
unfolding dylib_id
get_dylib_id m = dylib_id m.commands
