-- ===== src/Loader/Parser/FatChoice.antt =====
-- Which slice of a FAT file is parsed, in crates/compatra-runtime/src/macos/loader/parser.rs.
use compatra.Common.{
  ℕ, ◌≡◌, ◌≢◌, refl, ◌⊎◌, inl, inr, List, [], ◌∷◌, ◌++◌, none, some, true, false, ◌==◌, Bool-cases,
  List-cases, All, arith, ap,
}
use compatra.Loader.Consts.{cpu_type_arm64, cpu_type_x86_64}
use compatra.Loader.Header.{FatArch}
use compatra.Loader.Parser.Fat.{any_cpu, find_cpu, preferred_arch}

abbrev pub IsOther : ℕ → FatArch → Type 0
IsOther t a = a.cputype ≢ t

-- The first entry for a processor.
abbrev pub IsFirstFor : ℕ → List FatArch → FatArch → Type 0
IsFirstFor t archs a =
    (before : List FatArch) × (after : List FatArch) × (archs ≡ before ++ (a ∷ after))
    × (a.cputype ≡ t)
    × All (IsOther t) before

find_cpu_cases :
    (t : ℕ) (archs : List FatArch)
    → (All (IsOther t) archs × (find_cpu t archs ≡ none) × (any_cpu t archs ≡ false))
      ⊎ ((a : FatArch) × (find_cpu t archs ≡ some a)
          × (any_cpu t archs ≡ true)
          × IsFirstFor t archs a)
unfolding find_cpu any_cpu
find_cpu_cases t [] = inl (tt, refl, refl)
find_cpu_cases t (b ∷ archs) = elim (Bool-cases (b.cputype == t)) [
  | inl e ↦ inr (b, ground arith, ground arith, ([], archs, refl, ground arith, tt))
  | inr e ↦ elim (find_cpu_cases t archs) [
    | inl (others, n, f) ↦ inl ((ground arith, others), ground arith, ground arith)
    | inr (a, s, f, (before, after, split, id, others)) ↦ inr (
      a,
      ground arith,
      ground arith,
      (b ∷ before, after, ap (◌∷◌ b) split, id, (ground arith, others)),
    )
  ]
]

-- The entry that is parsed is the first ARM64 entry; where there is none the first x86-64 entry; where
-- there is neither the first entry; and there is none only among no entries.
pub preferred_arch_lem :
    (archs : List FatArch)
    → ((archs ≡ []) × (preferred_arch archs ≡ none))
      ⊎ ((a : FatArch) × (preferred_arch archs ≡ some a)
          × (IsFirstFor cpu_type_arm64 archs a
              ⊎ ((any_cpu cpu_type_arm64 archs ≡ false)
                  × (IsFirstFor cpu_type_x86_64 archs a
                      ⊎ ((any_cpu cpu_type_x86_64 archs ≡ false)
                          × ((rest : List FatArch) × (archs ≡ a ∷ rest)))))))
unfolding preferred_arch
preferred_arch_lem archs = elim (find_cpu_cases cpu_type_arm64 archs) [
  | inr (a, s, f, first) ↦ inr (a, rw (preferred_arch, s), inl first)
  | inl (others, n, f) ↦ elim (find_cpu_cases cpu_type_x86_64 archs) [
    | inr (a, s, g, first) ↦ inr (a, rw (preferred_arch, n, s), inr (f, inl first))
    | inl (_, m, g) ↦ elim (List-cases archs) [
      | inl e ↦ inl (e, rw (preferred_arch, n, m, e))
      | inr (a, rest, e) ↦ inr (a, rw (preferred_arch, n, m, e), inr (f, inr (g, (rest, e))))
    ]
  ]
]
