-- ===== src/Loader/Parser/Relocations.antt =====
-- Relocations in crates/compatra-runtime/src/macos/loader/parser.rs: the table that LC_DYSYMTAB names, an
-- entry of 8 bytes at a time, and the bits of an entry.
use compatra.Common.{
  ℕ, zero, suc, ◌+◌, ◌-◌, ◌/◌, ◌%◌, ◌^◌, List, [], ◌∷◌, ◌++◌, Option, none, some, Bool, false, ◌==◌,
  ◌||◌, ltb, if◌then◌else◌, length, saturating_add,
}
use compatra.Common.Bytes.{value}
use compatra.Loader.Header.{word_at}
use compatra.Loader.Command.Types.{LoadCommand, DysymtabCommand}
use compatra.Loader.Parser.Binary.{MachoBinary}

pub record RelocationInfo : Type 0 where
  pub address : ℕ
  pub symbolnum : ℕ
  pub pcrel : Bool
  pub length : ℕ
  pub is_extern : Bool
  pub rtype : ℕ

-- `i32` to `i64` to `u64`.
unfoldable pub sign_extend : ℕ → ℕ
sign_extend v = if ltb v (2 ^ 31) then v else v + (2 ^ 64 - 2 ^ 32)

abbrev pub bit_at : ℕ → ℕ → Bool
bit_at n v = (v / 2 ^ n) % 2 == 1

-- An entry of an address word and a word of bit fields.
unfoldable pub relocation_of : ℕ → ℕ → RelocationInfo
unfolding sign_extend
relocation_of r_address r_info = record {
  address = sign_extend r_address;
  symbolnum = r_info % 2 ^ 24;
  pcrel = bit_at 24 r_info;
  length = (r_info / 2 ^ 25) % 4;
  is_extern = bit_at 27 r_info;
  rtype = (r_info / 2 ^ 28) % 16;
}

unfoldable pub decode_relocation : List ℕ → ℕ → Option RelocationInfo
unfolding relocation_of value
decode_relocation bs offset =
    if ltb (length bs) (offset + 8)
    then none
    else some (relocation_of (word_at false offset bs) (word_at false (offset + 4) bs))

-- The rounds that are left, from the next offset.
unfoldable pub parse_relocations_at : List ℕ → ℕ → ℕ → List RelocationInfo
unfolding decode_relocation
parse_relocations_at bs offset zero = []
parse_relocations_at bs offset (suc n) =
    let rest = parse_relocations_at bs (saturating_add offset 8) n in
    elim (decode_relocation bs offset) [ none ↦ [] | some reloc ↦ reloc ∷ rest ]

unfoldable pub get_dysymtab_cmd : List LoadCommand → Option DysymtabCommand
get_dysymtab_cmd [] = none
get_dysymtab_cmd (LoadCommand.dysymtab c ∷ cs) = some c
get_dysymtab_cmd (_ ∷ cs) = get_dysymtab_cmd cs

-- The local and the external relocations.
unfoldable pub get_dysymtab_relocations : MachoBinary → List RelocationInfo × List RelocationInfo
unfolding get_dysymtab_cmd parse_relocations_at
get_dysymtab_relocations m = elim (get_dysymtab_cmd m.commands) [
  | none ↦ ([], [])
  | some d ↦ (
    parse_relocations_at m.contents d.locreloff d.nlocrel,
    parse_relocations_at m.contents d.extreloff d.nextrel,
  )
]

unfoldable pub get_relocations : MachoBinary → List RelocationInfo
unfolding get_dysymtab_relocations
get_relocations m = (get_dysymtab_relocations m).0 ++ (get_dysymtab_relocations m).1

unfoldable pub got_only : List RelocationInfo → List RelocationInfo
got_only [] = []
got_only (r ∷ rs) =
    let rest = got_only rs in if r.rtype == 3 || r.rtype == 4 then r ∷ rest else rest

unfoldable pub get_got_relocations : MachoBinary → List RelocationInfo
unfolding get_relocations got_only
get_got_relocations m = got_only (get_relocations m)
