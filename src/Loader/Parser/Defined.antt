-- ===== src/Loader/Parser/Defined.antt =====
-- `get_defined_symbols` of crates/compatra-runtime/src/macos/loader/parser.rs against the entries that
-- lie in the file.
use compatra.Common.{
  ℕ, zero, suc, ◌+◌, ◌-◌, ◌*◌, ◌/◌, ◌≤◌, ◌<◌, ◌≡◌, refl, sym, subst, ◌∙◌, ap, ◌⊎◌, inl, inr, List,
  [], ◌∷◌, Option, none, some, true, false, ◌&&◌, ltb, if◌then◌else◌, length, min, Bool-cases,
  bytes_beq, bytes_eq, ltb→lt, arith,
}
use compatra.Common.HashMap.{HashMap, lookup, lookup-insert}
use compatra.Loader.Command.Types.{SymtabCommand}
use compatra.Loader.Parser.Binary.{MachoBinary}
use compatra.Loader.Parser.Symbols.{
  Symbol, symbol_entry_size, get_symtab_cmd, symbol_at, get_symbol_by_index, is_kept, keep_symbol,
  defined_loop, get_defined_symbols,
}

-- `n` entries of the table from an offset on.
abbrev pub entries : MachoBinary → ℕ → ℕ → List Symbol
entries m offset zero = []
entries m offset (suc n) = symbol_at m offset ∷ entries m (offset + symbol_entry_size m) n

-- How many whole entries lie in the file behind an offset.
abbrev pub room : MachoBinary → ℕ → ℕ
room m offset = (length m.contents - offset) / symbol_entry_size m

-- The value of the last symbol of a name that is kept.
abbrev pub last_value : List ℕ → List Symbol → Option ℕ → Option ℕ
last_value name [] old = old
last_value name (s ∷ symbols) old =
    last_value name symbols (if is_kept s && bytes_beq s.0 name then some s.1 else old)

lookup-keep_symbol :
    (name : List ℕ) (s : Symbol) (symbols : HashMap (List ℕ) ℕ)
    → lookup name (keep_symbol s symbols)
      ≡ (if is_kept s && bytes_beq s.0 name then some s.1 else lookup name symbols)
lookup-keep_symbol name s symbols = elim (Bool-cases (is_kept s)) [
  | inl e ↦ rw (e, lookup-insert name s.0 s.1 symbols) refl
  | inr e ↦ rw e refl
]

size_cases : (m : MachoBinary) → (symbol_entry_size m ≡ 12) ⊎ (symbol_entry_size m ≡ 16)
size_cases m = ground arith

next_offset : (b i s : ℕ) → b + (i + 1) * s ≡ b + i * s + s
next_offset b i s = grind arith

no_room : (n k off s : ℕ) → (s ≡ 12) ⊎ (s ≡ 16) → n < off + s → min k ((n - off) / s) ≡ 0
no_room n k off s (inl e) h = rw e (omega arith)
no_room n k off s (inr e) h = rw e (omega arith)

more_room :
    (n k off s : ℕ)
    → (s ≡ 12) ⊎ (s ≡ 16)
    → off + s ≤ n
    → min (suc k) ((n - off) / s) ≡ suc (min k ((n - (off + s)) / s))
more_room n k off s (inl e) h = rw e (omega arith)
more_room n k off s (inr e) h = rw e (omega arith)

abbrev offset_of : MachoBinary → SymtabCommand → ℕ → ℕ
offset_of m t i = t.symoff + i * symbol_entry_size m

no_symbol :
    (m : MachoBinary) (t : SymtabCommand) (i : ℕ)
    → get_symtab_cmd m.commands ≡ some t
    → ltb (length m.contents) (offset_of m t i + symbol_entry_size m) ≡ true
    → get_symbol_by_index m i ≡ none
unfolding get_symbol_by_index
no_symbol m t i found h = rw (get_symbol_by_index, found, h) (ground arith)

one_symbol :
    (m : MachoBinary) (t : SymtabCommand) (i : ℕ)
    → get_symtab_cmd m.commands ≡ some t
    → i < t.nsyms
    → ltb (length m.contents) (offset_of m t i + symbol_entry_size m) ≡ false
    → get_symbol_by_index m i ≡ some (symbol_at m (offset_of m t i))
unfolding get_symbol_by_index
one_symbol m t i found below h = rw (get_symbol_by_index, found, h) (ground arith)

module _ (m : MachoBinary) (t : SymtabCommand) (found : get_symtab_cmd m.commands ≡ some t)
    (name : List ℕ) where
  abbrev LoopReads : ℕ → ℕ → HashMap (List ℕ) ℕ → Type 0
  LoopReads i n symbols =
      lookup name (defined_loop m t i n symbols)
      ≡ last_value name (entries m (offset_of m t i) (min n (room m (offset_of m t i))))
          (lookup name symbols)

  loop_end :
      (i n : ℕ) (symbols : HashMap (List ℕ) ℕ)
      → ltb (length m.contents) (offset_of m t i + symbol_entry_size m) ≡ true
      → LoopReads i (suc n) symbols
  unfolding defined_loop
  loop_end i n symbols h =
      rw
        (
          defined_loop,
          no_symbol m t i found h,
          no_room (length m.contents) (suc n) (offset_of m t i) (symbol_entry_size m) (size_cases m)
              (ltb→lt _ _ h),
        )
        refl

  step_next :
      (i n : ℕ) (symbols : HashMap (List ℕ) ℕ)
      → i < t.nsyms
      → ltb (length m.contents) (offset_of m t i + symbol_entry_size m) ≡ false
      → defined_loop m t i (suc n) symbols
        ≡ defined_loop m t (i + 1) n (keep_symbol (symbol_at m (offset_of m t i)) symbols)
  unfolding defined_loop
  step_next i n symbols below h =
      rw
        (
          defined_loop,
          one_symbol m t i found below h,
          next_offset t.symoff i (symbol_entry_size m),
          h,
        )
        refl

  entries_next :
      (i n : ℕ)
      → ltb (length m.contents) (offset_of m t i + symbol_entry_size m) ≡ false
      → entries m (offset_of m t i) (min (suc n) (room m (offset_of m t i)))
        ≡ symbol_at m (offset_of m t i)
          ∷ entries m (offset_of m t (i + 1)) (min n (room m (offset_of m t (i + 1))))
  entries_next i n h =
      ap (entries m (offset_of m t i)) (
        more_room (length m.contents) n (offset_of m t i) (symbol_entry_size m) (size_cases m)
          (ground arith))
      ∙ ap (λ (o : ℕ). symbol_at m (offset_of m t i) ∷ entries m o (min n (room m o)))
          (sym (next_offset t.symoff i (symbol_entry_size m)))

  loop_next :
      (i n : ℕ) (symbols : HashMap (List ℕ) ℕ)
      → i < t.nsyms
      → ltb (length m.contents) (offset_of m t i + symbol_entry_size m) ≡ false
      → LoopReads (i + 1) n (keep_symbol (symbol_at m (offset_of m t i)) symbols)
      → LoopReads i (suc n) symbols
  loop_next i n symbols below h ih =
      rw (step_next i n symbols below h, entries_next i n h)
        (ih
          ∙ ap
              (last_value name
                (entries m (offset_of m t (i + 1)) (min n (room m (offset_of m t (i + 1))))))
              (lookup-keep_symbol name (symbol_at m (offset_of m t i)) symbols))

  loop_reads : (i n : ℕ) (symbols : HashMap (List ℕ) ℕ) → i + n ≤ t.nsyms → LoopReads i n symbols
  unfolding defined_loop
  loop_reads i zero symbols fits =
      let nothing_left : min 0 (room m (offset_of m t i)) ≡ 0 = omega arith in rw nothing_left refl
  loop_reads i (suc n) symbols fits =
      elim (Bool-cases (ltb (length m.contents) (offset_of m t i + symbol_entry_size m))) [
        | inl h ↦ loop_end i n symbols h
        | inr h ↦ loop_next i n symbols (omega arith) h (
            loop_reads (i + 1) n (keep_symbol (symbol_at m (offset_of m t i)) symbols)
              (omega arith))
      ]

  -- With a symbol table, a name is looked up to the value of its last entry that a section defines,
  -- among as many entries as the table is to have or as lie in the file whole, whichever is less.
  pub get_defined_symbols_lem :
      lookup name (get_defined_symbols m)
      ≡ last_value name (entries m t.symoff (min t.nsyms (room m t.symoff))) none
  unfolding get_defined_symbols lookup
  get_defined_symbols_lem =
      let start : offset_of m t 0 ≡ t.symoff = omega arith in
      rw (get_defined_symbols, found)
        (subst
          (λ o.
            lookup name (defined_loop m t 0 t.nsyms [])
            ≡ last_value name (entries m o (min t.nsyms (room m o))) none)
          start (loop_reads 0 t.nsyms [] (omega arith)))
