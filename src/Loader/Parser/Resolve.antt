-- ===== src/Loader/Parser/Resolve.antt =====
-- The queries of symbols in crates/compatra-runtime/src/macos/loader/parser.rs that slice the file, where
-- its last byte is a NUL.
use compatra.Common.{
  ℕ, zero, suc, ◌+◌, ◌*◌, ◌<◌, ◌≡◌, refl, ap, ◌&&◌, leb, length-append, ltb→lt, List, [], ◌∷◌, ◌++◌,
  Bool, true, false, ltb, length, drop, inl, inr, Bool-cases, Option-cases, bytes_eq, arith,
}
use compatra.Common.HashMap.{HashMap, lookup}
use compatra.Loader.Cursor.{Outcome, ok}
use compatra.Loader.Strings.{string_at}
use compatra.Loader.Header.{word_at}
use compatra.Loader.Command.Types.{LoadCommand, SymtabCommand}
use compatra.Loader.Parser.Binary.{MachoBinary}
use compatra.Loader.Parser.Relocations.{get_dysymtab_cmd}
use compatra.Loader.Parser.Imports.{
  has_nul, name_from, has_string, has_table, import_entry, import_loop, import_commands,
  get_import_symbols, undefined_entry, undefined_loop, undefined_in, undefined_range,
  undefined_commands, get_undefined_symbols, resolve_symbol,
}

abbrev pub EndsInNul : List ℕ → Type 0
EndsInNul bs = (front : List ℕ) × (bs ≡ front ++ (0 ∷ []))

-- The outcome is a value.
abbrev pub Succeeds {ℓ} : {A : Type ℓ} → Outcome A → Type ℓ
Succeeds {A = A} o = (a : A) × (o ≡ ok a)

has_nul-drop :
    (front : List ℕ) (n : ℕ) → n < length front + 1 → has_nul (drop n (front ++ (0 ∷ []))) ≡ true
unfolding has_nul
has_nul-drop [] zero h = refl
has_nul-drop [] (suc n) h = absurd (omega arith)
has_nul-drop (b ∷ front) zero h = ground (arith, has_nul-drop front 0)
has_nul-drop (b ∷ front) (suc n) h = has_nul-drop front n (omega arith)

name_from-ok :
    (bs : List ℕ) (start : ℕ)
    → EndsInNul bs
    → ltb start (length bs) ≡ true
    → name_from bs start ≡ ok (string_at (drop start bs))
unfolding name_from
name_from-ok bs start (front, e) h =
    let nul : has_nul (drop start bs) ≡ true = rw e (
      has_nul-drop front start
        (omega (arith, ltb→lt start (length bs) h, ap length e, length-append front (0 ∷ [])))) in
    rw (name_from, nul) refl

and_right : (a b : Bool) → (a && b) ≡ true → b ≡ true
and_right true b h = h
and_right false b h = cc

import_entry-Succeeds :
    (bs : List ℕ) (t : SymtabCommand) (offset : ℕ) (symbols : HashMap (List ℕ) ℕ)
    → EndsInNul bs
    → Succeeds (import_entry bs t offset symbols)
unfolding import_entry
import_entry-Succeeds bs t offset symbols e =
    elim (Bool-cases (leb (offset + 16) (length bs) && has_string bs t (word_at false offset bs))) [
      | inr g ↦ (symbols, rw (import_entry, g) refl)
      | inl g ↦
          let inside = and_right _ _ (and_right _ _ g) in
          rw (import_entry, g, name_from-ok bs (t.stroff + word_at false offset bs) e inside)
            (_, refl)
    ]

undefined_entry-Succeeds :
    (bs : List ℕ) (t : SymtabCommand) (offset : ℕ) (symbols : List (List ℕ × ℕ))
    → EndsInNul bs
    → Succeeds (undefined_entry bs t offset symbols)
unfolding undefined_entry
undefined_entry-Succeeds bs t offset symbols e =
    elim (Bool-cases (has_string bs t (word_at false offset bs))) [
      | inr g ↦ (symbols, rw (undefined_entry, g) refl)
      | inl g ↦
          let inside = and_right _ _ g in
          rw (undefined_entry, g, name_from-ok bs (t.stroff + word_at false offset bs) e inside)
            (_, refl)
    ]

import_loop-Succeeds :
    (bs : List ℕ) (t : SymtabCommand) (offset n : ℕ) (symbols : HashMap (List ℕ) ℕ)
    → EndsInNul bs
    → Succeeds (import_loop bs t offset n symbols)
unfolding import_loop
import_loop-Succeeds bs t offset zero symbols e = (symbols, refl)
import_loop-Succeeds bs t offset (suc n) symbols e =
    let (symbols', p) = import_entry-Succeeds bs t offset symbols e in
    rw (import_loop, p) (import_loop-Succeeds bs t (offset + 16) n symbols' e)

undefined_loop-Succeeds :
    (bs : List ℕ) (t : SymtabCommand) (offset n : ℕ) (symbols : List (List ℕ × ℕ))
    → EndsInNul bs
    → Succeeds (undefined_loop bs t offset n symbols)
unfolding undefined_loop
undefined_loop-Succeeds bs t offset zero symbols e = (symbols, refl)
undefined_loop-Succeeds bs t offset (suc n) symbols e =
    elim (Bool-cases (ltb (length bs) (offset + 16))) [
      | inl g ↦ (symbols, rw (undefined_loop, g) refl)
      | inr g ↦
          let (symbols', p) = undefined_entry-Succeeds bs t offset symbols e in
          rw (undefined_loop, g, p) (undefined_loop-Succeeds bs t (offset + 16) n symbols' e)
    ]

undefined_in-Succeeds :
    (bs : List ℕ) (range : ℕ × ℕ) (t : SymtabCommand) (symbols : List (List ℕ × ℕ))
    → EndsInNul bs
    → Succeeds (undefined_in bs range t symbols)
unfolding undefined_in
undefined_in-Succeeds bs range t symbols e = elim (Bool-cases (has_table bs t)) [
  | inr g ↦ (symbols, rw (undefined_in, g) refl)
  | inl g ↦
      rw (undefined_in, g)
        (undefined_loop-Succeeds bs t (t.symoff + range.0 * 16) range.1 symbols e)
]

import_commands-Succeeds :
    (bs : List ℕ) (cs : List LoadCommand) (symbols : HashMap (List ℕ) ℕ)
    → EndsInNul bs
    → Succeeds (import_commands bs cs symbols)
unfolding import_commands
import_commands-Succeeds bs [] symbols e = (symbols, refl)
import_commands-Succeeds bs (LoadCommand.symtab t ∷ cs) symbols e =
    elim (Bool-cases (has_table bs t)) [
      | inr g ↦ rw (import_commands, g) (import_commands-Succeeds bs cs symbols e)
      | inl g ↦
          let (symbols', p) = import_loop-Succeeds bs t t.symoff t.nsyms symbols e in
          rw (import_commands, g, p) (import_commands-Succeeds bs cs symbols' e)
    ]
import_commands-Succeeds bs (_ ∷ cs) symbols e = import_commands-Succeeds bs cs symbols e

undefined_commands-Succeeds :
    (bs : List ℕ) (range : ℕ × ℕ) (cs : List LoadCommand) (symbols : List (List ℕ × ℕ))
    → EndsInNul bs
    → Succeeds (undefined_commands bs range cs symbols)
unfolding undefined_commands
undefined_commands-Succeeds bs range [] symbols e = (symbols, refl)
undefined_commands-Succeeds bs range (LoadCommand.symtab t ∷ cs) symbols e =
    let (symbols', p) = undefined_in-Succeeds bs range t symbols e in
    rw (undefined_commands, p) (undefined_commands-Succeeds bs range cs symbols' e)
undefined_commands-Succeeds bs range (_ ∷ cs) symbols e =
    undefined_commands-Succeeds bs range cs symbols e

pub get_undefined_symbols-Succeeds :
    (m : MachoBinary) → EndsInNul m.contents → Succeeds (get_undefined_symbols m)
unfolding get_undefined_symbols
get_undefined_symbols-Succeeds m e =
    undefined_commands-Succeeds m.contents (undefined_range (get_dysymtab_cmd m.commands))
      m.commands [] e

resolved :
    (m : MachoBinary) (name : List ℕ) (imports : HashMap (List ℕ) ℕ) (undefined : List (List ℕ × ℕ))
    → get_import_symbols m ≡ ok imports
    → get_undefined_symbols m ≡ ok undefined
    → resolve_symbol m name ≡ ok (lookup name imports)
unfolding resolve_symbol
resolved m name imports undefined p q = elim (Option-cases (lookup name imports)) [
  | inl none_found ↦ rw (resolve_symbol, p, none_found, q) refl
  | inr (v, found) ↦ rw (resolve_symbol, p, found) refl
]

-- In a file whose last byte is a NUL no query of its imports or of its undefined symbols panics, and
-- a name is resolved to its value among the imports, or to nothing where it has none there.
pub resolve_symbol-Succeeds :
    (m : MachoBinary) (name : List ℕ)
    → EndsInNul m.contents
    → (imports : HashMap (List ℕ) ℕ) × (undefined : List (List ℕ × ℕ)) × (get_import_symbols m
        ≡ ok imports)
      × (get_undefined_symbols m ≡ ok undefined)
      × (resolve_symbol m name ≡ ok (lookup name imports))
unfolding get_import_symbols get_undefined_symbols
resolve_symbol-Succeeds m name e =
    let (imports, p) = import_commands-Succeeds m.contents m.commands [] e in
    let (undefined, q) =
      undefined_commands-Succeeds m.contents (undefined_range (get_dysymtab_cmd m.commands))
        m.commands [] e in
    (imports, undefined, p, q, resolved m name imports undefined p q)
