-- ===== src/Loader/Command/NoPanicSegments.antt =====
-- The segments of crates/compatra-runtime/src/macos/loader/command.rs, and `LoadCommand::parse` as a whole,
-- do not panic.
use compatra.Common.{
  ℕ, zero, suc, ◌+◌, ◌-◌, ◌≤◌, ◌≡◌, refl, List, Bool, true, false, ◌||◌, ltb, leb, length,
  length-drop, drop, arith, Bool-cases, inl, inr, if◌then◌else◌,
}
use compatra.Loader.Cursor.{Outcome, ok, err, panic}
use compatra.Loader.Command.Types.{LoadCommand}
use compatra.Loader.Command.Segments.{
  parse_section64, read_section32, parse_section32, sections64, sections32, read_segment64,
  parse_segment64, read_segment32, parse_segment32, slice_from, or_break,
}
use compatra.Loader.Command.Dispatch.{wrap, parse_body, with_size, parse_sized}
use compatra.Loader.Command.NoPanic.{
  NoPanic, IsTotal, checked-NoPanic, and_then-NoPanic, total_reads, parse_symtab-NoPanic,
  parse_dysymtab-NoPanic, parse_main-NoPanic, parse_code_signature-NoPanic,
  parse_version_min-NoPanic, parse_source_version-NoPanic, parse_segment_split_info-NoPanic,
  parse_function_starts-NoPanic, parse_dyld_chained_fixups-NoPanic, parse_data_in_code-NoPanic,
  parse_dyld_info_only-NoPanic, parse_unix_thread-NoPanic, parse_uuid-NoPanic,
  parse_dylinker-NoPanic, parse_id_dylinker-NoPanic, parse_dylib-NoPanic, parse_rpath-NoPanic,
}

parse_section64-NoPanic : (bs : List ℕ) (big : Bool) → NoPanic (parse_section64 bs big)
unfolding parse_section64
parse_section64-NoPanic bs big = ground arith

parse_section32-NoPanic : (bs : List ℕ) (big : Bool) → NoPanic (parse_section32 bs big)
unfolding parse_section32 read_section32
parse_section32-NoPanic bs big =
    checked-NoPanic _ _ (read_section32 big) bs (search total_reads depth 40)

slice_from-NoPanic :
    (position : ℕ) (bs : List ℕ) → position ≤ length bs → NoPanic (slice_from position bs)
slice_from-NoPanic position bs h = ground arith

slice_from-ok :
    (position : ℕ) (bs s : List ℕ)
    → slice_from position bs ≡ ok s
    → (position ≤ length bs) × (length s ≡ length bs - position)
slice_from-ok position bs s h = ground (arith, length-drop position bs)

pub if-NoPanic {ℓ} :
    {A : Type ℓ} (b : Bool) (o p : Outcome A)
    → (b ≡ true → NoPanic o)
    → (b ≡ false → NoPanic p)
    → NoPanic (if b then o else p)
if-NoPanic true o p h k = h refl
if-NoPanic false o p h k = k refl

or_break-NoPanic {ℓ κ} :
    {A : Type ℓ} {B : Type κ} (o : Outcome A) (f : A → Outcome (List B))
    → NoPanic o
    → ((a : A) → NoPanic (f a))
    → NoPanic (or_break o f)
or_break-NoPanic (ok a) f h k = k a
or_break-NoPanic (err e) f h k = tt
or_break-NoPanic panic f h k = h

sections64-NoPanic :
    (n : ℕ) (bs : List ℕ) (big : Bool) (position : ℕ)
    → position ≤ length bs
    → NoPanic (sections64 n bs big position)
unfolding sections64
sections64-NoPanic zero bs big position h = tt
sections64-NoPanic (suc n) bs big position h =
    and_then-NoPanic (slice_from position bs) _ (slice_from-NoPanic position bs h) (λ s e.
      if-NoPanic (ltb (length s) 80) _ _ (λ _. tt)
        (λ long.
          and_then-NoPanic (parse_section64 s big) _ (parse_section64-NoPanic s big) (λ section _.
            and_then-NoPanic (sections64 n bs big (position + 80)) _
              (sections64-NoPanic n bs big (position + 80)
                (ground (arith, slice_from-ok position bs s e)))
              (λ sections _. tt))))

sections32-NoPanic :
    (n : ℕ) (bs : List ℕ) (big : Bool) (position : ℕ)
    → position ≤ length bs
    → NoPanic (sections32 n bs big position)
unfolding sections32
sections32-NoPanic zero bs big position h = tt
sections32-NoPanic (suc n) bs big position h =
    and_then-NoPanic (slice_from position bs) _ (slice_from-NoPanic position bs h) (λ s e.
      if-NoPanic (ltb (length s) 68) _ _ (λ _. tt)
        (λ long.
          or_break-NoPanic (parse_section32 s big) _ (parse_section32-NoPanic s big) (λ section.
            and_then-NoPanic (sections32 n bs big (position + 68)) _
              (sections32-NoPanic n bs big (position + 68)
                (ground (arith, slice_from-ok position bs s e)))
              (λ sections _. tt))))

read_segment64-IsTotal : (big : Bool) → IsTotal (read_segment64 big)
unfolding read_segment64
read_segment64-IsTotal big = search total_reads depth 40

read_segment32-IsTotal : (big : Bool) → IsTotal (read_segment32 big)
unfolding read_segment32
read_segment32-IsTotal big = search total_reads depth 40

parse_segment64-NoPanic : (bs : List ℕ) (big : Bool) → NoPanic (parse_segment64 bs big)
unfolding parse_segment64
parse_segment64-NoPanic bs big =
    if-NoPanic (ltb (length bs) 64) _ _ (λ _. tt)
      (λ long. and_then-NoPanic (read_segment64 big bs) _ (read_segment64-IsTotal big bs) (λ r _.
        if-NoPanic (leb 72 (length bs)) _ _
          (λ _.
            and_then-NoPanic (sections64 r.0.nsects bs big 64) _
              (sections64-NoPanic r.0.nsects bs big 64 (ground arith)) (λ sections _. tt))
          (λ _. tt)))

parse_segment32-NoPanic : (bs : List ℕ) (big : Bool) → NoPanic (parse_segment32 bs big)
unfolding parse_segment32
parse_segment32-NoPanic bs big =
    if-NoPanic (ltb (length bs) 48) _ _ (λ _. tt)
      (λ long. and_then-NoPanic (read_segment32 big bs) _ (read_segment32-IsTotal big bs) (λ r _.
        and_then-NoPanic (sections32 r.0.nsects bs big (length bs - length r.1)) _
          (sections32-NoPanic r.0.nsects bs big (length bs - length r.1) (omega arith))
          (λ sections _. tt)))

wrap-NoPanic {ℓ} :
    {A : Type ℓ} (f : A → LoadCommand) (o : Outcome A) → NoPanic o → NoPanic (wrap f o)
wrap-NoPanic f (ok a) h = tt
wrap-NoPanic f (err e) h = tt
wrap-NoPanic f panic h = h

branch-NoPanic {ℓ} :
    {A : Type ℓ} (b : Bool) (o p : Outcome A) → NoPanic o → NoPanic p → NoPanic (if b then o else p)
branch-NoPanic b o p h k = if-NoPanic b o p (λ _. h) (λ _. k)

ruleset commands = (
  parse_symtab-NoPanic, parse_dysymtab-NoPanic, parse_main-NoPanic, parse_code_signature-NoPanic,
  parse_version_min-NoPanic, parse_source_version-NoPanic, parse_segment_split_info-NoPanic,
  parse_function_starts-NoPanic, parse_dyld_chained_fixups-NoPanic, parse_data_in_code-NoPanic,
  parse_dyld_info_only-NoPanic, parse_unix_thread-NoPanic, parse_uuid-NoPanic,
  parse_dylinker-NoPanic, parse_id_dylinker-NoPanic, parse_dylib-NoPanic, parse_rpath-NoPanic,
  parse_dysymtab-NoPanic, parse_main-NoPanic, parse_code_signature-NoPanic,
  parse_version_min-NoPanic, parse_source_version-NoPanic, parse_segment_split_info-NoPanic,
  parse_function_starts-NoPanic, parse_dyld_chained_fixups-NoPanic, parse_data_in_code-NoPanic,
  parse_dyld_info_only-NoPanic, parse_unix_thread-NoPanic, parse_uuid-NoPanic,
  parse_dylinker-NoPanic, parse_id_dylinker-NoPanic, parse_dylib-NoPanic, parse_rpath-NoPanic,
  parse_segment64-NoPanic, parse_segment32-NoPanic,
)

pub parse_body-NoPanic :
    (cmd cmdsize : ℕ) (bs : List ℕ) (big : Bool) → NoPanic (parse_body cmd cmdsize bs big)
unfolding parse_body
parse_body-NoPanic cmd cmdsize bs big = search (branch-NoPanic, wrap-NoPanic, commands) depth 60

with_size-NoPanic :
    (cmdsize : ℕ) (o : Outcome LoadCommand) → NoPanic o → NoPanic (with_size cmdsize o)
with_size-NoPanic cmdsize (ok c) h = tt
with_size-NoPanic cmdsize (err e) h = tt
with_size-NoPanic cmdsize panic h = h

pub parse_sized-NoPanic :
    (cmd cmdsize : ℕ) (bs : List ℕ) (big : Bool) → NoPanic (parse_sized cmd cmdsize bs big)
unfolding parse_sized
parse_sized-NoPanic cmd cmdsize bs big = elim (Bool-cases (ltb cmdsize 8 || ltb 65536 cmdsize)) [
  | inl e ↦ rw (parse_sized, e) tt
  | inr e ↦
      rw (parse_sized, e)
        (with_size-NoPanic cmdsize _ (parse_body-NoPanic cmd cmdsize (drop 8 bs) big))
]
