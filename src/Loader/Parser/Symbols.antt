-- ===== src/Loader/Parser/Symbols.antt =====
-- The symbol table in crates/compatra-runtime/src/macos/loader/parser.rs: an entry and its name, and
-- the symbols that the file defines. A name is the bytes of its UTF-8 string.
use compatra.Common.{
  ℕ, zero, suc, ◌+◌, ◌*◌, ◌/◌, ◌%◌, List, [], ◌∷◌, Option, none, some, get_or, Bool, true, false,
  not, ◌==◌, ◌&&◌, ◌||◌, ltb, leb, if◌then◌else◌, length, take, drop, is_empty, bytes_eq,
}
use compatra.Common.HashMap.{HashMap, insert}
use compatra.Common.Bytes.{value}
use compatra.Loader.Strings.{until_nul, string_at}
use compatra.Loader.Header.{is_64_bit, word_at}
use compatra.Loader.Command.Types.{LoadCommand, SymtabCommand}
use compatra.Loader.Parser.Binary.{MachoBinary}

-- The byte at an offset.
abbrev pub byte_at : ℕ → List ℕ → ℕ
byte_at offset bs = value false (take 1 (drop offset bs))

abbrev pub long_at : ℕ → List ℕ → ℕ
long_at offset bs = value false (take 8 (drop offset bs))

-- `n_type & 0x0e`.
abbrev pub type_bits : ℕ → ℕ
type_bits n_type = 2 * ((n_type / 2) % 8)

abbrev pub symbol_entry_size : MachoBinary → ℕ
symbol_entry_size m = if is_64_bit m.magic then 16 else 12

unfoldable pub get_symtab_cmd : List LoadCommand → Option SymtabCommand
get_symtab_cmd [] = none
get_symtab_cmd (LoadCommand.symtab c ∷ cs) = some c
get_symtab_cmd (_ ∷ cs) = get_symtab_cmd cs

abbrev pub nonempty_name : List ℕ → Option (List ℕ)
nonempty_name bs = if is_empty (until_nul bs) then none else some (string_at bs)

-- The part of `read_symbol_name` behind the search for the table.
unfoldable pub name_in : List ℕ → SymtabCommand → ℕ → Option (List ℕ)
unfolding until_nul string_at
name_in bs t strx =
    if strx == 0 || leb t.strsize strx
    then none
    else if leb (length bs) (t.stroff + strx)
    then none
    else nonempty_name (drop (t.stroff + strx) bs)

unfoldable pub read_symbol_name : MachoBinary → ℕ → Option (List ℕ)
unfolding get_symtab_cmd name_in
read_symbol_name m strx = elim (get_symtab_cmd m.commands) [
  | none ↦ none
  | some t ↦ name_in m.contents t strx
]

-- A symbol: its name, its value and its type.
abbrev pub Symbol : Type 0
Symbol = List ℕ × ℕ × ℕ

abbrev pub symbol_value : MachoBinary → ℕ → ℕ
symbol_value m offset =
    if is_64_bit m.magic
    then long_at (offset + 8) m.contents
    else word_at false (offset + 8) m.contents

abbrev pub symbol_at : MachoBinary → ℕ → Symbol
symbol_at m offset = (
  get_or (read_symbol_name m (word_at false offset m.contents)) [],
  symbol_value m offset,
  byte_at (offset + 4) m.contents,
)

unfoldable pub get_symbol_by_index : MachoBinary → ℕ → Option Symbol
unfolding get_symtab_cmd read_symbol_name value
get_symbol_by_index m index = elim (get_symtab_cmd m.commands) [
  | none ↦ none
  | some t ↦
      if leb t.nsyms index
      then none
      else if ltb (length m.contents) (t.symoff + index * symbol_entry_size m + symbol_entry_size m)
      then none
      else some (symbol_at m (t.symoff + index * symbol_entry_size m))
]

-- A symbol with a name that a section defines is kept.
abbrev pub is_kept : Symbol → Bool
is_kept (name, v, n_type) = not (is_empty name) && type_bits n_type == 0x0e

abbrev pub keep_symbol : Symbol → HashMap (List ℕ) ℕ → HashMap (List ℕ) ℕ
keep_symbol s symbols = if is_kept s then insert s.0 s.1 symbols else symbols

-- The rounds that are left, from the next index.
unfoldable pub defined_loop :
    MachoBinary → SymtabCommand → ℕ → ℕ → HashMap (List ℕ) ℕ → HashMap (List ℕ) ℕ
unfolding get_symbol_by_index insert
defined_loop m t i zero symbols = symbols
defined_loop m t i (suc n) symbols = elim (get_symbol_by_index m i) [
  | none ↦ symbols
  | some s ↦ elim (ltb (length m.contents) (t.symoff + (i + 1) * symbol_entry_size m)) [
    | true ↦ keep_symbol s symbols
    | false ↦ defined_loop m t (i + 1) n (keep_symbol s symbols)
  ]
]

unfoldable pub get_defined_symbols : MachoBinary → HashMap (List ℕ) ℕ
unfolding get_symtab_cmd defined_loop
get_defined_symbols m = elim (get_symtab_cmd m.commands) [
  | none ↦ []
  | some t ↦ defined_loop m t 0 t.nsyms []
]
