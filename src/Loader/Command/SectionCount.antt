-- ===== src/Loader/Command/SectionCount.antt =====
-- How many sections a segment of crates/compatra-runtime/src/macos/loader/command.rs has.
use native.Mathlib.Numerals.{unary_clauses}
use compatra.Common.{
  ℕ, zero, suc, ◌+◌, ◌-◌, ◌/◌, ◌≤◌, ◌≡◌, refl, ◌∙◌, inl, inr, List, [], ◌∷◌, Bool, true, false, ltb,
  length, length-drop, drop, min, Bool-cases, ltb→lt, le→leb, ap, take, arith,
}
use compatra.Loader.Cursor.{
  LoaderError, read_exact, read_exact_long, read_u32, read_i32, read_u64, Read,
  failed_to_read_segname, failed_to_read_u32, failed_to_read_i32, failed_to_read_u64, ok,
}
use compatra.Common.Bytes.{value}
use compatra.Loader.Read.{◌>>=◌}
use compatra.Loader.Command.Types.{Section64, SegmentCommand64}
use compatra.Loader.Command.Segments.{
  slice_from, section64_of, parse_section64, sections64, parse_segment64, read_segment64,
}

-- The sections that the bytes behind `position` hold.
abbrev pub room64 : List ℕ → ℕ → ℕ
room64 bs position = (length bs - position) / 80

-- Each section is parsed from its own 80 bytes, the first from those at `position`.
abbrev pub SectionsAt : List ℕ → Bool → ℕ → List Section64 → Type 0
SectionsAt bs big position [] = Unit
SectionsAt bs big position (x ∷ xs) =
    (parse_section64 (drop position bs) big ≡ ok x) × SectionsAt bs big (position + 80) xs

abbrev Sections : ℕ → List ℕ → Bool → ℕ → Type 0
Sections n bs big position =
    (xs : List Section64) × (sections64 n bs big position ≡ ok xs)
    × (length xs ≡ min n (room64 bs position))
    × SectionsAt bs big position xs

parse_section64_long :
    (bs : List ℕ) (big : Bool)
    → ltb (length bs) 80 ≡ false
    → parse_section64 bs big ≡ ok (section64_of bs big)
unfolding parse_section64
parse_section64_long bs big h = rw (parse_section64, h) refl

not_below : (a b : ℕ) → ltb a b ≡ false → b ≤ a
not_below a b h = ground arith

le→not_below : (bs : List ℕ) (n : ℕ) → n ≤ length bs → ltb (length bs) n ≡ false
le→not_below bs n h = ground arith

slice_from_inside :
    (position : ℕ) (bs : List ℕ)
    → position ≤ length bs
    → slice_from position bs ≡ ok (drop position bs)
slice_from_inside position bs h = ground arith

no_section :
    (n : ℕ) (bs : List ℕ) (big : Bool) (position : ℕ)
    → position ≤ length bs
    → ltb (length (drop position bs)) 80 ≡ true
    → Sections (suc n) bs big position
unfolding sections64
no_section n bs big position h e = (
  [],
  rw (sections64, slice_from_inside position bs h, e) refl,
  omega (arith, ltb→lt (length (drop position bs)) 80 e, length-drop position bs),
  tt,
)

one_section :
    (n : ℕ) (bs : List ℕ) (big : Bool) (position : ℕ)
    → position ≤ length bs
    → ltb (length (drop position bs)) 80 ≡ false
    → Sections n bs big (position + 80)
    → Sections (suc n) bs big position
unfolding sections64
one_section n bs big position h e (xs, rest, count, at) = (
  section64_of (drop position bs) big ∷ xs,
  rw (sections64, slice_from_inside position bs h, e, rest) refl,
  omega (arith, count, not_below (length (drop position bs)) 80 e, length-drop position bs),
  (parse_section64_long (drop position bs) big e, at),
)

sections64-Sections :
    (n : ℕ) (bs : List ℕ) (big : Bool) (position : ℕ)
    → position ≤ length bs
    → Sections n bs big position
unfolding sections64
sections64-Sections zero bs big position h = ([], refl, omega arith, tt)
sections64-Sections (suc n) bs big position h =
    elim (Bool-cases (ltb (length (drop position bs)) 80)) [
      | inl e ↦ no_section n bs big position h e
      | inr e ↦ one_section n bs big position h e (
          sections64-Sections n bs big (position + 80)
            (omega (arith, not_below (length (drop position bs)) 80 e, length-drop position bs)))
    ]

-- A read that takes `n` bytes wherever there are as many.
abbrev Takes {ℓ} : {A : Type ℓ} → ℕ → Read A → Type ℓ
Takes {A = A} n m = (bs : List ℕ) → n ≤ length bs → (a : A) × (m bs ≡ ok (a, drop n bs))

drop-drop {ℓ} : {A : Type ℓ} (n k : ℕ) (xs : List A) → drop k (drop n xs) ≡ drop (n + k) xs
drop-drop zero k xs = let e : k ≡ 0 + k = omega arith in ap (λ (m : ℕ). drop m xs) e
drop-drop (suc n) zero [] = simp unary_clauses
drop-drop (suc n) (suc k) [] = simp unary_clauses
drop-drop (suc n) k (x ∷ xs) =
    let e : suc (n + k) ≡ suc n + k = omega arith in
    drop-drop n k xs ∙ ap (λ (m : ℕ). drop m (x ∷ xs)) e

read_exact-Takes : (e : LoaderError) (n : ℕ) → Takes n (read_exact e n)
read_exact-Takes e n bs h = (take n bs, read_exact_long e n bs h)

read_u32-Takes : (big : Bool) → Takes 4 (read_u32 big)
unfolding read_u32
read_u32-Takes big bs h =
    (value big (take 4 bs), rw (read_u32, read_exact_long failed_to_read_u32 4 bs h))

read_i32-Takes : (big : Bool) → Takes 4 (read_i32 big)
unfolding read_i32
read_i32-Takes big bs h =
    (value big (take 4 bs), rw (read_i32, read_exact_long failed_to_read_i32 4 bs h))

read_u64-Takes : (big : Bool) → Takes 8 (read_u64 big)
unfolding read_u64
read_u64-Takes big bs h =
    (value big (take 8 bs), rw (read_u64, read_exact_long failed_to_read_u64 8 bs h))

bind-Takes {ℓ κ} :
    {A : Type ℓ} {B : Type κ} (n k : ℕ) (m : Read A) (f : A → Read B)
    → Takes n m
    → ((a : A) → Takes k (f a))
    → Takes (n + k) (m >>= f)
bind-Takes n k m f h g bs long =
    let (a, e) = h bs (omega arith) in
    let (b, d) = g a (drop n bs) (omega (arith, length-drop n bs)) in
    (b, rw (◌>>=◌, e, d) (ap (λ x. ok (b, x)) (drop-drop n k bs)))

read_segment64-Takes : (big : Bool) → Takes 64 (read_segment64 big)
unfolding read_segment64
read_segment64-Takes big =
    bind-Takes 16 48 (read_exact failed_to_read_segname 16) _
      (read_exact-Takes failed_to_read_segname 16)
      (λ _. bind-Takes 8 40 (read_u64 big) _ (read_u64-Takes big) (λ _.
        bind-Takes 8 32 (read_u64 big) _ (read_u64-Takes big) (λ _.
          bind-Takes 8 24 (read_u64 big) _ (read_u64-Takes big) (λ _.
            bind-Takes 8 16 (read_u64 big) _ (read_u64-Takes big) (λ _.
              bind-Takes 4 12 (read_i32 big) _ (read_i32-Takes big) (λ _.
                bind-Takes 4 8 (read_i32 big) _ (read_i32-Takes big) (λ _.
                  bind-Takes 4 4 (read_u32 big) _ (read_u32-Takes big) (λ _.
                    bind-Takes 4 0 (read_u32 big) _ (read_u32-Takes big)
                      (λ _. λ bs h. (_, refl))))))))))

-- A 64-bit segment of 72 bytes or more always parses. It has as many sections as its header claims or
-- as fit in whole behind its fields, whichever is less, and each is parsed from its own 80 bytes in
-- order.
pub parse_segment64-SectionsAt :
    (bs : List ℕ) (big : Bool)
    → 72 ≤ length bs
    → (s : SegmentCommand64) × (parse_segment64 bs big ≡ ok s)
      × (length s.sections ≡ min s.nsects ((length bs - 64) / 80))
      × SectionsAt bs big 64 s.sections
unfolding parse_segment64
parse_segment64-SectionsAt bs big h =
    let (r, e) = read_segment64-Takes big bs (omega arith) in
    let (xs, k, count, at) = sections64-Sections r.nsects bs big 64 (omega arith) in
    (
      record r { sections = xs },
      rw (parse_segment64, le→not_below bs 64 (omega arith), e, le→leb 72 (length bs) h, k),
      count,
      at,
    )
