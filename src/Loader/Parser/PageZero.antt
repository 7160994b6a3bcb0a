-- ===== src/Loader/Parser/PageZero.antt =====
-- The base address that crates/compatra-runtime/src/macos/loader/parser.rs gives a binary.
use compatra.Common.{
  ℕ, ◌==◌, ◌&&◌, Bool-cases, ◌≡◌, ◌⊎◌, refl, ap, List, [], ◌∷◌, ◌++◌, none, some, All, inl, inr,
  arith,
}
use compatra.Loader.Command.Types.{LoadCommand}
use compatra.Loader.Parser.Binary.{MachoBinary}
use compatra.Loader.Parser.Build.{segments_of}
use compatra.Loader.Parser.Queries.{page_zero, first_page_zero, page_zero_segment, page_zero_size}

-- A segment command, of 64 or 32 bits, at address 0 that has no bytes in the file.
abbrev pub IsPageZero : LoadCommand → ℕ → Type 0
IsPageZero (LoadCommand.segment64 s) size = (s.vmaddr ≡ 0) × (s.filesize ≡ 0) × (s.vmsize ≡ size)
IsPageZero (LoadCommand.segment s) size = (s.vmaddr ≡ 0) × (s.filesize ≡ 0) × (s.vmsize ≡ size)
IsPageZero _ size = ⊥

abbrev pub IsOther : LoadCommand → Type 0
IsOther c = (size : ℕ) → ¬ IsPageZero c size

-- The size is that of the first such command, or it is 0 and there is none.
abbrev pub IsPageZeroSize : List LoadCommand → ℕ → Type 0
IsPageZeroSize cs size =
    ((before : List LoadCommand) × (c : LoadCommand) × (after : List LoadCommand) × (cs
        ≡ before ++ (c ∷ after))
      × All IsOther before
      × IsPageZero c size)
    ⊎ (All IsOther cs × (size ≡ 0))

page_zero_cases :
    (c : LoadCommand)
    → ((size : ℕ) × (page_zero c ≡ some size) × IsPageZero c size)
      ⊎ ((page_zero c ≡ none) × IsOther c)
page_zero_cases (LoadCommand.segment64 s) = elim (Bool-cases (s.vmaddr == 0 && s.filesize == 0)) [
  | inl e ↦ inl (s.vmsize, rw (page_zero, e) refl, (ground arith, ground arith, refl))
  | inr e ↦ inr (rw (page_zero, e) refl, λ size h. ground (arith, h.0, h.1))
]
page_zero_cases (LoadCommand.segment s) = elim (Bool-cases (s.vmaddr == 0 && s.filesize == 0)) [
  | inl e ↦ inl (s.vmsize, rw (page_zero, e) refl, (ground arith, ground arith, refl))
  | inr e ↦ inr (rw (page_zero, e) refl, λ size h. ground (arith, h.0, h.1))
]
page_zero_cases _ = inr (refl, λ size h. h)

first_page_zero_cases :
    (cs : List LoadCommand)
    → ((size : ℕ) × (first_page_zero cs ≡ some size) × IsPageZeroSize cs size)
      ⊎ ((first_page_zero cs ≡ none) × All IsOther cs)
unfolding first_page_zero
first_page_zero_cases [] = inr (refl, tt)
first_page_zero_cases (c ∷ cs) = elim (page_zero_cases c) [
  | inl (size, e, h) ↦ inl (size, rw (first_page_zero, e) refl, inl ([], c, cs, refl, tt, h))
  | inr (e, o) ↦ elim (first_page_zero_cases cs) [
    | inr (f, os) ↦ inr (rw (first_page_zero, e) f, (o, os))
    | inl (size, f, inl (before, d, after, at, os, h)) ↦
        inl (size, rw (first_page_zero, e) f, inl (c ∷ before, d, after, ap (◌∷◌ c) at, (o, os), h))
    | inl (size, f, inr (os, z)) ↦ inl (size, rw (first_page_zero, e) f, inr ((o, os), z))
  ]
]

no_page_zero :
    (cs : List LoadCommand) → first_page_zero cs ≡ none → page_zero_segment (segments_of cs) ≡ none
unfolding first_page_zero page_zero_segment
no_page_zero [] h = refl
no_page_zero (LoadCommand.segment64 s ∷ cs) h = ground (arith, no_page_zero cs)
no_page_zero (LoadCommand.segment s ∷ cs) h = no_page_zero cs (ground arith)
no_page_zero (_ ∷ cs) h = no_page_zero cs h

-- In a binary whose segments are those of its commands the size is that of the first segment command, of
-- 64 or 32 bits, that is at address 0 and has no bytes in the file; where there is none it is 0, and the
-- second search, of the segments, finds nothing either.
pub page_zero_size_lem :
    (m : MachoBinary)
    → m.segments ≡ segments_of m.commands
    → IsPageZeroSize m.commands (page_zero_size m)
unfolding page_zero_size
page_zero_size_lem m h = elim (first_page_zero_cases m.commands) [
  | inl (size, e, p) ↦ rw (page_zero_size, e) p
  | inr (e, os) ↦ rw (page_zero_size, e, h, no_page_zero m.commands e) (inr (os, refl))
]
