-- ===== src/Loader/Cursor.antt =====
-- The results of the Mach-O loader and its `Cursor` over the bytes that are left, with `read_exact`
-- and the three read functions at the end of crates/compatra-runtime/src/macos/loader/command.rs.
use compatra.Common.{
  ℕ, ◌^◌, ◌<◌, ◌≤◌, ◌≡◌, ap, List, ◌++◌, Bool, ltb, length, length-append, take, drop,
  if◌then◌else◌, arith,
}
use compatra.Common.Bytes.{value, bytes, length-bytes, value-bytes, take-append, drop-append}

-- The messages of `MacOsError::LoaderError`. A wrapped or formatted message keeps its arguments.
pub data LoaderError : Type 0 where
  header_too_short fat_header_too_short fat_arch_too_short : LoaderError
  file_too_short failed_to_parse_fat : LoaderError
  unknown_magic : ℕ → LoaderError
  header_parse_error : LoaderError → LoaderError
  load_command_too_short : LoaderError
  invalid_cmdsize : ℕ → LoaderError
  segment64_too_short segment32_too_short : ℕ → LoaderError
  section64_too_short section32_too_short symtab_too_short dysymtab_too_short : LoaderError
  dylinker_too_short id_dylinker_too_short uuid_too_short unix_thread_too_short : LoaderError
  main_too_short dylib_too_short rpath_too_short code_signature_too_short : LoaderError
  version_min_too_short source_version_too_short segment_split_info_too_short : LoaderError
  function_starts_too_short dyld_chained_fixups_too_short data_in_code_too_short : LoaderError
  dyld_info_only_too_short : LoaderError
  invalid_dylinker_name_offset dylinker_name_out_of_bounds : LoaderError
  invalid_id_dylinker_name_offset id_dylinker_name_out_of_bounds : LoaderError
  invalid_dylib_name_offset dylib_name_out_of_bounds : LoaderError
  invalid_rpath_offset rpath_out_of_bounds : LoaderError
  failed_to_read_segname failed_to_read_u32 failed_to_read_i32 failed_to_read_u64 : LoaderError
  unexpected_eof : LoaderError

-- `Result<_, MacOsError>`, with a panic (an index or a slice out of bounds) as a third outcome.
pub data Outcome {ℓ} (A : Type ℓ) : Type ℓ where
  ok : A → Outcome A
  err : LoaderError → Outcome A
  panic : Outcome A

infixl 5 ◌>>=◌
abbrev pub ◌>>=◌ {ℓ κ} : {A : Type ℓ} {B : Type κ} → Outcome A → (A → Outcome B) → Outcome B
ok a >>= f = f a
err e >>= f = err e
panic >>= f = panic

-- The same as a prefix, beside the reads that share the operator.
abbrev pub and_then {ℓ κ} : {A : Type ℓ} {B : Type κ} → Outcome A → (A → Outcome B) → Outcome B
and_then o f = o >>= f

-- A read returns its value and the bytes behind it.
abbrev pub Read {ℓ} : Type ℓ → Type ℓ
Read A = List ℕ → Outcome (A × List ℕ)

unfoldable pub read_exact : LoaderError → ℕ → Read (List ℕ)
read_exact e n bs = if ltb (length bs) n then err e else ok (take n bs, drop n bs)

unfoldable pub read_u32 : Bool → Read ℕ
unfolding read_exact
read_u32 big bs = read_exact failed_to_read_u32 4 bs >>= λ r. ok (value big r.0, r.1)

-- A signed field is kept as the u32 of the same bits.
unfoldable pub read_i32 : Bool → Read ℕ
unfolding read_exact
read_i32 big bs = read_exact failed_to_read_i32 4 bs >>= λ r. ok (value big r.0, r.1)

unfoldable pub read_u64 : Bool → Read ℕ
unfolding read_exact
read_u64 big bs = read_exact failed_to_read_u64 8 bs >>= λ r. ok (value big r.0, r.1)

pub read_exact_long :
    (e : LoaderError) (n : ℕ) (bs : List ℕ)
    → n ≤ length bs
    → read_exact e n bs ≡ ok (take n bs, drop n bs)
unfolding read_exact
read_exact_long e n bs h = ground arith

pub read_exact-append :
    (e : LoaderError) (n : ℕ) (xs rest : List ℕ)
    → length xs ≡ n
    → read_exact e n (xs ++ rest) ≡ ok (xs, rest)
unfolding read_exact
read_exact-append e n xs rest h =
    ground (arith, take-append n xs rest h, drop-append n xs rest h, length-append xs rest)

pub read_u32-bytes :
    (big : Bool) (v : ℕ) (rest : List ℕ)
    → v < 2 ^ 32
    → read_u32 big (bytes big 4 v ++ rest) ≡ ok (v, rest)
unfolding read_u32
read_u32-bytes big v rest h =
    rw (read_exact-append failed_to_read_u32 4 (bytes big 4 v) rest (length-bytes big 4 v))
      (ap (λ (x : ℕ). ok (x, rest)) (value-bytes big 4 v h))

pub read_i32-bytes :
    (big : Bool) (v : ℕ) (rest : List ℕ)
    → v < 2 ^ 32
    → read_i32 big (bytes big 4 v ++ rest) ≡ ok (v, rest)
unfolding read_i32
read_i32-bytes big v rest h =
    rw (read_exact-append failed_to_read_i32 4 (bytes big 4 v) rest (length-bytes big 4 v))
      (ap (λ (x : ℕ). ok (x, rest)) (value-bytes big 4 v h))

pub read_u64-bytes :
    (big : Bool) (v : ℕ) (rest : List ℕ)
    → v < 2 ^ 64
    → read_u64 big (bytes big 8 v ++ rest) ≡ ok (v, rest)
unfolding read_u64
read_u64-bytes big v rest h =
    rw (read_exact-append failed_to_read_u64 8 (bytes big 8 v) rest (length-bytes big 8 v))
      (ap (λ (x : ℕ). ok (x, rest)) (value-bytes big 8 v h))

pub ruleset reads = (read_exact-append, read_u32-bytes, read_i32-bytes, read_u64-bytes)
