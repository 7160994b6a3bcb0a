-- ===== src/Loader/Parser/RelocationLaws.antt =====
-- The relocations that crates/compatra-runtime/src/macos/loader/parser.rs reads.
use compatra.Common.{
  ℕ, zero, suc, ◌+◌, ◌-◌, ◌*◌, ◌/◌, ◌%◌, ◌^◌, ◌<◌, ◌≤◌, ◌≡◌, inl, inr, List, [], ◌∷◌, Bool, true,
  false, ltb, if◌then◌else◌, length, min, u64_max, saturating_add, Bool-cases, ap, arith,
}
use compatra.Loader.Header.{word_at}
use compatra.Loader.Parser.Relocations.{
  RelocationInfo, sign_extend, relocation_of, decode_relocation, parse_relocations_at,
}

abbrev bit : Bool → ℕ
bit b = if b then 1 else 0

-- The word of bit fields of an entry.
abbrev pub info_word : RelocationInfo → ℕ
info_word r =
    r.symbolnum
    + 2 ^ 24 * bit r.pcrel
    + 2 ^ 25 * r.length
    + 2 ^ 27 * bit r.is_extern
    + 2 ^ 28 * r.rtype

-- The bit fields of a 32-bit word are a partition of it, each within its width; and the address has 64
-- bits, of which the lower 32 are the address word and the upper 32 are copies of bit 31 of that word.
pub relocation_of_lem :
    (r_address r_info : ℕ)
    → r_address < 2 ^ 32
    → r_info < 2 ^ 32
    → let r = relocation_of r_address r_info in
      (info_word r ≡ r_info)
      × (r.symbolnum < 2 ^ 24)
      × (r.length < 4)
      × (r.rtype < 16)
      × (r.address < 2 ^ 64)
      × (r.address % 2 ^ 32 ≡ r_address)
      × (r.address / 2 ^ 32 ≡ r_address / 2 ^ 31 * (2 ^ 32 - 1))
unfolding relocation_of sign_extend
relocation_of_lem r_address r_info h k = (
  ground arith,
  ground arith,
  ground arith,
  ground arith,
  ground arith,
  ground arith,
  ground arith,
)

no_saturation :
    (n offset : ℕ) → n ≤ u64_max → ltb n (offset + 8) ≡ false → saturating_add offset 8 ≡ offset + 8
no_saturation n offset small e = ground arith

parse_relocations_at_end :
    (bs : List ℕ) (offset n : ℕ)
    → ltb (length bs) (offset + 8) ≡ true
    → parse_relocations_at bs offset (suc n) ≡ []
unfolding parse_relocations_at
parse_relocations_at_end bs offset n e = rw (parse_relocations_at, decode_relocation, e)

parse_relocations_at_next :
    (bs : List ℕ) (offset n : ℕ)
    → length bs ≤ u64_max
    → ltb (length bs) (offset + 8) ≡ false
    → parse_relocations_at bs offset (suc n)
      ≡ relocation_of (word_at false offset bs) (word_at false (offset + 4) bs)
        ∷ parse_relocations_at bs (offset + 8) n
unfolding parse_relocations_at
parse_relocations_at_next bs offset n small e =
    rw (parse_relocations_at, decode_relocation, e)
      (ap
        (λ (o : ℕ).
          relocation_of (word_at false offset bs) (word_at false (offset + 4) bs)
          ∷ parse_relocations_at bs o n)
        (no_saturation (length bs) offset small e))

-- In a file shorter than 2 ^ 64 bytes a table has as many entries as are asked for or as fit in whole
-- behind its start, whichever is less.
pub length-parse_relocations_at :
    (bs : List ℕ) (offset n : ℕ)
    → length bs ≤ u64_max
    → length (parse_relocations_at bs offset n) ≡ min n ((length bs - offset) / 8)
unfolding parse_relocations_at
length-parse_relocations_at bs offset zero small = omega arith
length-parse_relocations_at bs offset (suc n) small =
    elim (Bool-cases (ltb (length bs) (offset + 8))) [
      | inl e ↦ rw (parse_relocations_at_end bs offset n e) (ground arith)
      | inr e ↦
          rw (parse_relocations_at_next bs offset n small e)
            (ground (arith, length-parse_relocations_at bs (offset + 8) n small))
    ]
