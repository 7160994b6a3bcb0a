-- ===== src/Loader/Command/NoPanic.antt =====
-- No load command of crates/compatra-runtime/src/macos/loader/command.rs makes its parser panic: every
-- index and slice there is within a length that was checked.
use compatra.Common.{ℕ, ◌≡◌, refl, List, Bool, true, false, length, if◌then◌else◌, arith}
use compatra.Loader.Cursor.{
  LoaderError, Outcome, ok, err, panic, and_then, Read, read_exact, read_u32, read_i32, read_u64,
}
use compatra.Loader.Read.{◌>>=◌, pure, value_of}
use compatra.Loader.Command.Fixed.{
  read_symtab, parse_symtab, read_dysymtab, parse_dysymtab, read_main, parse_main,
  read_code_signature, parse_code_signature, read_version_min, parse_version_min,
  read_source_version, parse_source_version, read_segment_split_info, parse_segment_split_info,
  read_function_starts, parse_function_starts, read_dyld_chained_fixups, parse_dyld_chained_fixups,
  read_data_in_code, parse_data_in_code, read_dyld_info_only, parse_dyld_info_only, parse_uuid,
}
use compatra.Loader.Command.Thread.X86.{read_x86_32, read_x86_64}
use compatra.Loader.Command.Thread.Arm.{read_arm32, read_arm64}
use compatra.Loader.Command.Thread.{read_registers, read_unix_thread, parse_unix_thread}
use compatra.Loader.Command.Names.{
  name_at, parse_dylinker, parse_id_dylinker, parse_dylib, parse_rpath,
}

abbrev pub NoPanic {ℓ} : {A : Type ℓ} → Outcome A → Type 0
NoPanic (ok a) = Unit
NoPanic (err e) = Unit
NoPanic panic = ⊥

abbrev pub IsTotal {ℓ} : {A : Type ℓ} → Read A → Type 0
IsTotal m = (bs : List ℕ) → NoPanic (m bs)

then-NoPanic {ℓ κ} :
    {A : Type ℓ} {B : Type κ} (f : A → Read B) (o : Outcome (A × List ℕ))
    → NoPanic o
    → ((a : A) → IsTotal (f a))
    → NoPanic (elim o [ ok (a, rest) ↦ f a rest | err e ↦ err e | panic ↦ panic ])
then-NoPanic f (ok (a, rest)) h k = k a rest
then-NoPanic f (err e) h k = tt
then-NoPanic f panic h k = h

pub bind-IsTotal {ℓ κ} :
    {A : Type ℓ} {B : Type κ} (m : Read A) (f : A → Read B)
    → IsTotal m
    → ((a : A) → IsTotal (f a))
    → IsTotal (m >>= f)
bind-IsTotal m f h k bs = then-NoPanic f (m bs) (h bs) k

pub if-IsTotal {ℓ} :
    {A : Type ℓ} (b : Bool) (m n : Read A) → IsTotal m → IsTotal n → IsTotal (if b then m else n)
if-IsTotal true m n h k = h
if-IsTotal false m n h k = k

value_of-NoPanic {ℓ} : {A : Type ℓ} (o : Outcome (A × List ℕ)) → NoPanic o → NoPanic (value_of o)
value_of-NoPanic (ok (a, rest)) h = tt
value_of-NoPanic (err e) h = tt
value_of-NoPanic panic h = h

pub and_then-NoPanic {ℓ κ} :
    {A : Type ℓ} {B : Type κ} (o : Outcome A) (f : A → Outcome B)
    → NoPanic o
    → ((a : A) → o ≡ ok a → NoPanic (f a))
    → NoPanic (and_then o f)
and_then-NoPanic (ok a) f h k = k a refl
and_then-NoPanic (err e) f h k = tt
and_then-NoPanic panic f h k = h

-- A length check in front of a total read.
pub checked-NoPanic {ℓ} :
    {A : Type ℓ} (b : Bool) (e : LoaderError) (m : Read A) (bs : List ℕ)
    → IsTotal m
    → NoPanic (if b then err e else value_of (m bs))
checked-NoPanic true e m bs h = tt
checked-NoPanic false e m bs h = value_of-NoPanic (m bs) (h bs)

pub pure-IsTotal {ℓ} : {A : Type ℓ} (a : A) → IsTotal (pure a)
pure-IsTotal a bs = tt

pub read_exact-IsTotal : (e : LoaderError) (n : ℕ) → IsTotal (read_exact e n)
unfolding read_exact
read_exact-IsTotal e n bs = ground arith

pub read_u32-IsTotal : (big : Bool) → IsTotal (read_u32 big)
unfolding read_u32 read_exact
read_u32-IsTotal big bs = ground arith

pub read_i32-IsTotal : (big : Bool) → IsTotal (read_i32 big)
unfolding read_i32 read_exact
read_i32-IsTotal big bs = ground arith

pub read_u64-IsTotal : (big : Bool) → IsTotal (read_u64 big)
unfolding read_u64 read_exact
read_u64-IsTotal big bs = ground arith

pub ruleset total_reads = (
  bind-IsTotal, if-IsTotal, pure-IsTotal, read_exact-IsTotal, read_u32-IsTotal, read_i32-IsTotal,
  read_u64-IsTotal,
)

pub parse_symtab-NoPanic : (bs : List ℕ) (big : Bool) → NoPanic (parse_symtab bs big)
unfolding parse_symtab read_symtab
parse_symtab-NoPanic bs big = checked-NoPanic _ _ (read_symtab big) bs (search total_reads depth 40)

pub parse_dysymtab-NoPanic : (bs : List ℕ) (big : Bool) → NoPanic (parse_dysymtab bs big)
unfolding parse_dysymtab read_dysymtab
parse_dysymtab-NoPanic bs big =
    checked-NoPanic _ _ (read_dysymtab big) bs (search total_reads depth 40)

pub parse_main-NoPanic : (bs : List ℕ) (big : Bool) → NoPanic (parse_main bs big)
unfolding parse_main read_main
parse_main-NoPanic bs big = checked-NoPanic _ _ (read_main big) bs (search total_reads depth 40)

pub parse_code_signature-NoPanic :
    (bs : List ℕ) (big : Bool) → NoPanic (parse_code_signature bs big)
unfolding parse_code_signature read_code_signature
parse_code_signature-NoPanic bs big =
    checked-NoPanic _ _ (read_code_signature big) bs (search total_reads depth 40)

pub parse_version_min-NoPanic : (bs : List ℕ) (big : Bool) → NoPanic (parse_version_min bs big)
unfolding parse_version_min read_version_min
parse_version_min-NoPanic bs big =
    checked-NoPanic _ _ (read_version_min big) bs (search total_reads depth 40)

pub parse_source_version-NoPanic :
    (bs : List ℕ) (big : Bool) → NoPanic (parse_source_version bs big)
unfolding parse_source_version read_source_version
parse_source_version-NoPanic bs big =
    checked-NoPanic _ _ (read_source_version big) bs (search total_reads depth 40)

pub parse_segment_split_info-NoPanic :
    (bs : List ℕ) (big : Bool) → NoPanic (parse_segment_split_info bs big)
unfolding parse_segment_split_info read_segment_split_info
parse_segment_split_info-NoPanic bs big =
    checked-NoPanic _ _ (read_segment_split_info big) bs (search total_reads depth 40)

pub parse_function_starts-NoPanic :
    (bs : List ℕ) (big : Bool) → NoPanic (parse_function_starts bs big)
unfolding parse_function_starts read_function_starts
parse_function_starts-NoPanic bs big =
    checked-NoPanic _ _ (read_function_starts big) bs (search total_reads depth 40)

pub parse_dyld_chained_fixups-NoPanic :
    (bs : List ℕ) (big : Bool) → NoPanic (parse_dyld_chained_fixups bs big)
unfolding parse_dyld_chained_fixups read_dyld_chained_fixups
parse_dyld_chained_fixups-NoPanic bs big =
    checked-NoPanic _ _ (read_dyld_chained_fixups big) bs (search total_reads depth 40)

pub parse_data_in_code-NoPanic : (bs : List ℕ) (big : Bool) → NoPanic (parse_data_in_code bs big)
unfolding parse_data_in_code read_data_in_code
parse_data_in_code-NoPanic bs big =
    checked-NoPanic _ _ (read_data_in_code big) bs (search total_reads depth 40)

pub parse_dyld_info_only-NoPanic :
    (bs : List ℕ) (big : Bool) → NoPanic (parse_dyld_info_only bs big)
unfolding parse_dyld_info_only read_dyld_info_only
parse_dyld_info_only-NoPanic bs big =
    checked-NoPanic _ _ (read_dyld_info_only big) bs (search total_reads depth 40)

read_x86_32-IsTotal : (big : Bool) → IsTotal (read_x86_32 big)
unfolding read_x86_32
read_x86_32-IsTotal big = search total_reads depth 40

read_x86_64-IsTotal : (big : Bool) → IsTotal (read_x86_64 big)
unfolding read_x86_64
read_x86_64-IsTotal big = search total_reads depth 40

read_arm32-IsTotal : (big : Bool) → IsTotal (read_arm32 big)
unfolding read_arm32
read_arm32-IsTotal big = search total_reads depth 40

read_arm64-IsTotal : (big : Bool) → IsTotal (read_arm64 big)
unfolding read_arm64
read_arm64-IsTotal big = search (bind-IsTotal, pure-IsTotal, read_u64-IsTotal) depth 40 fits 100000

ruleset total_registers =
    (read_x86_32-IsTotal, read_x86_64-IsTotal, read_arm32-IsTotal, read_arm64-IsTotal)

read_registers-IsTotal :
    (big : Bool) (flavor count size : ℕ) → IsTotal (read_registers big flavor count size)
unfolding read_registers
read_registers-IsTotal big flavor count size = search (total_reads, total_registers) depth 40

read_unix_thread-IsTotal : (big : Bool) (size : ℕ) → IsTotal (read_unix_thread big size)
unfolding read_unix_thread
read_unix_thread-IsTotal big size = search (total_reads, read_registers-IsTotal)

pub parse_unix_thread-NoPanic : (bs : List ℕ) (big : Bool) → NoPanic (parse_unix_thread bs big)
unfolding parse_unix_thread
parse_unix_thread-NoPanic bs big =
    checked-NoPanic _ _ (read_unix_thread big (length bs)) bs
      (read_unix_thread-IsTotal big (length bs))

pub parse_uuid-NoPanic : (bs : List ℕ) → NoPanic (parse_uuid bs)
unfolding parse_uuid
parse_uuid-NoPanic bs = ground arith

pub parse_dylinker-NoPanic : (bs : List ℕ) (big : Bool) → NoPanic (parse_dylinker bs big)
unfolding parse_dylinker read_u32 read_exact name_at
parse_dylinker-NoPanic bs big = ground arith

pub parse_id_dylinker-NoPanic : (bs : List ℕ) (big : Bool) → NoPanic (parse_id_dylinker bs big)
unfolding parse_id_dylinker read_u32 read_exact name_at
parse_id_dylinker-NoPanic bs big = ground arith

pub parse_dylib-NoPanic : (bs : List ℕ) (big : Bool) → NoPanic (parse_dylib bs big)
unfolding parse_dylib read_u32 read_exact name_at
parse_dylib-NoPanic bs big = ground arith

pub parse_rpath-NoPanic : (bs : List ℕ) (big : Bool) → NoPanic (parse_rpath bs big)
unfolding parse_rpath read_u32 read_exact name_at
parse_rpath-NoPanic bs big = ground arith
