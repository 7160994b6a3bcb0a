-- ===== src/Loader/Parser/Fat.antt =====
-- The FAT container in crates/compatra-runtime/src/macos/loader/parser.rs: `is_fat`, the entries that
-- lie in the file and the choice of one of them.
use compatra.Common.{
  ℕ, zero, suc, ◌+◌, List, [], ◌∷◌, Option, none, some, Bool, true, false, ◌==◌, ◌||◌, ltb, leb,
  length, drop,
}
use compatra.Common.Bytes.{value}
use compatra.Loader.Consts.{cpu_type_arm64, cpu_type_x86_64}
use compatra.Loader.Cursor.{Outcome, ok, err, panic}
use compatra.Loader.Header.{
  MachOMagic, from_u32, word_at, FatArch, parse_fat_header, parse_fat_arch,
}

abbrev pub is_fat_magic : MachOMagic → Bool
is_fat_magic MachOMagic.fat = true
is_fat_magic _ = false

unfoldable pub is_fat : List ℕ → Bool
unfolding from_u32 value
is_fat bs = elim (ltb (length bs) 4) [
  | true ↦ false
  | false ↦ is_fat_magic (from_u32 (word_at false 0 bs))
]

-- An entry that does not parse is left out.
abbrev pub push_arch : Outcome FatArch → List FatArch → List FatArch
push_arch (ok a) rest = a ∷ rest
push_arch (err e) rest = rest
push_arch panic rest = rest

-- The rounds that are left, from the offset of the next entry.
unfoldable pub arch_loop : ℕ → List ℕ → ℕ → List FatArch
unfolding parse_fat_arch
arch_loop zero bs offset = []
arch_loop (suc n) bs offset =
    let rest = arch_loop n bs (offset + 20) in
    elim (leb (offset + 20) (length bs)) [
      | true ↦ push_arch (parse_fat_arch (drop offset bs)) rest
      | false ↦ rest
    ]

unfoldable pub fat_architectures : List ℕ → Outcome (List FatArch)
unfolding is_fat parse_fat_header arch_loop
fat_architectures bs = elim (is_fat bs) [
  | false ↦ ok []
  | true ↦ elim (parse_fat_header bs) [
    | panic ↦ panic
    | err e ↦ err e
    | ok h ↦ ok (arch_loop h.nfat_arch bs 8)
  ]
]

unfoldable pub any_cpu : ℕ → List FatArch → Bool
any_cpu t [] = false
any_cpu t (a ∷ archs) = a.cputype == t || any_cpu t archs

unfoldable pub fat_contains_cpu : List ℕ → ℕ → Bool
unfolding fat_architectures any_cpu
fat_contains_cpu bs t = elim (fat_architectures bs) [
  | ok archs ↦ any_cpu t archs
  | err e ↦ false
  | panic ↦ false
]

-- `iter().find(|a| a.cputype == t)`.
unfoldable pub find_cpu : ℕ → List FatArch → Option FatArch
find_cpu t [] = none
find_cpu t (a ∷ archs) = elim (a.cputype == t) [ true ↦ some a | false ↦ find_cpu t archs ]

abbrev pub first_arch : List FatArch → Option FatArch
first_arch [] = none
first_arch (a ∷ archs) = some a

abbrev pub or_else {ℓ} : {A : Type ℓ} → Option A → Option A → Option A
or_else (some a) o = some a
or_else none o = o

unfoldable pub preferred_arch : List FatArch → Option FatArch
unfolding find_cpu
preferred_arch archs =
    or_else (or_else (find_cpu cpu_type_arm64 archs) (find_cpu cpu_type_x86_64 archs))
      (first_arch archs)
