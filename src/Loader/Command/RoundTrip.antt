-- ===== src/Loader/Command/RoundTrip.antt =====
-- The commands of a fixed layout in crates/compatra-runtime/src/macos/loader/command.rs, written out field
-- by field as a linker writes them, parse back.
use compatra.Common.{
  ℕ, ◌+◌, ◌^◌, ◌<◌, ◌≤◌, ◌≡◌, refl, List, [], ◌∷◌, ◌++◌, Bool, false, ltb, length, length-append,
  All, if◌then◌else◌, arith,
}
use compatra.Common.Bytes.{bytes, length-bytes}
use compatra.Loader.Cursor.{LoaderError, Outcome, ok, err, reads}
use compatra.Loader.Read.{◌>>=◌, value_of}
use compatra.Loader.Command.Types.{
  SymtabCommand, DysymtabCommand, MainCommand, CodeSignatureCommand, VersionMinCommand,
  SourceVersionCommand, SegmentSplitInfoCommand, FunctionStartsCommand, DyldChainedFixupsCommand,
  DataInCodeCommand, DyldInfoOnlyCommand,
}
use compatra.Loader.Command.Fixed.{
  read_symtab, parse_symtab, read_dysymtab, parse_dysymtab, read_main, parse_main,
  read_code_signature, parse_code_signature, read_version_min, parse_version_min,
  read_source_version, parse_source_version, read_segment_split_info, parse_segment_split_info,
  read_function_starts, parse_function_starts, read_dyld_chained_fixups, parse_dyld_chained_fixups,
  read_data_in_code, parse_data_in_code, read_dyld_info_only, parse_dyld_info_only,
}

-- A field: its width in bytes and its value.
abbrev pub Field : Type 0
Field = ℕ × ℕ

abbrev pub FitsField : Field → Type 0
FitsField (w, v) = v < 256 ^ w

abbrev pub encode : Bool → List Field → List ℕ → List ℕ
encode big [] rest = rest
encode big ((w, v) ∷ fs) rest = bytes big w v ++ encode big fs rest

abbrev pub width : List Field → ℕ
width [] = 0
width ((w, v) ∷ fs) = w + width fs

pub length-encode :
    (big : Bool) (fs : List Field) (rest : List ℕ)
    → length (encode big fs rest) ≡ width fs + length rest
length-encode big [] rest = omega arith
length-encode big ((w, v) ∷ fs) rest = omega (
  arith,
  length-append (bytes big w v) (encode big fs rest),
  length-bytes big w v,
  length-encode big fs rest,
)

long_enough :
    (big : Bool) (fs : List Field) (rest : List ℕ) (n : ℕ)
    → n ≤ width fs
    → ltb (length (encode big fs rest)) n ≡ false
long_enough big fs rest n h = ground (arith, length-encode big fs rest)

checked {ℓ} :
    {A : Type ℓ} (b : Bool) (e : LoaderError) (o : Outcome (A × List ℕ)) (a : A) (rest : List ℕ)
    → b ≡ false
    → o ≡ ok (a, rest)
    → (if b then err e else value_of o) ≡ ok a
checked b e o a rest h k = rw (h, k) refl

abbrev pub symtab_fields : SymtabCommand → List Field
symtab_fields c = (4, c.symoff) ∷ (4, c.nsyms) ∷ (4, c.stroff) ∷ (4, c.strsize) ∷ []

pub parse_symtab-encode :
    (big : Bool) (c : SymtabCommand) (rest : List ℕ)
    → All FitsField (symtab_fields c)
    → parse_symtab (encode big (symtab_fields c) rest) big ≡ ok c
unfolding parse_symtab read_symtab
parse_symtab-encode big c rest (h0, (h1, (h2, (h3, _)))) =
    checked _ _ _ c rest (long_enough big (symtab_fields c) rest 16 (omega arith))
      (simp (◌>>=◌, reads))

abbrev pub dysymtab_fields : DysymtabCommand → List Field
dysymtab_fields c =
    (4, c.ilocalsym)
    ∷ (4, c.nlocalsym)
    ∷ (4, c.iextdefsym)
    ∷ (4, c.nextdefsym)
    ∷ (4, c.iundefsym)
    ∷ (4, c.nundefsym)
    ∷ (4, c.tocoff)
    ∷ (4, c.ntoc)
    ∷ (4, c.modtaboff)
    ∷ (4, c.nmodtab)
    ∷ (4, c.extrefsymoff)
    ∷ (4, c.nextrefsyms)
    ∷ (4, c.indirectsymoff)
    ∷ (4, c.nindirectsyms)
    ∷ (4, c.extreloff)
    ∷ (4, c.nextrel)
    ∷ (4, c.locreloff)
    ∷ (4, c.nlocrel)
    ∷ []

pub parse_dysymtab-encode :
    (big : Bool) (c : DysymtabCommand) (rest : List ℕ)
    → All FitsField (dysymtab_fields c)
    → parse_dysymtab (encode big (dysymtab_fields c) rest) big ≡ ok c
unfolding parse_dysymtab read_dysymtab
parse_dysymtab-encode big c rest
      (
        h0,
        (
          h1,
          (
            h2,
            (
              h3,
              (
                h4,
                (
                  h5,
                  (h6, (h7, (h8, (h9, (h10, (h11, (h12, (h13, (h14, (h15, (h16, (h17, _)))))))))))),
                ),
              ),
            ),
          ),
        ),
      ) =
    checked _ _ _ c rest (long_enough big (dysymtab_fields c) rest 72 (omega arith))
      (simp (◌>>=◌, reads))

abbrev pub main_fields : MainCommand → List Field
main_fields c = (8, c.entryoff) ∷ (8, c.stacksize) ∷ []

pub parse_main-encode :
    (big : Bool) (c : MainCommand) (rest : List ℕ)
    → All FitsField (main_fields c)
    → parse_main (encode big (main_fields c) rest) big ≡ ok c
unfolding parse_main read_main
parse_main-encode big c rest (h0, (h1, _)) =
    checked _ _ _ c rest (long_enough big (main_fields c) rest 16 (omega arith))
      (simp (◌>>=◌, reads))

abbrev pub code_signature_fields : CodeSignatureCommand → List Field
code_signature_fields c = (4, c.data_offset) ∷ (4, c.data_size) ∷ []

pub parse_code_signature-encode :
    (big : Bool) (c : CodeSignatureCommand) (rest : List ℕ)
    → All FitsField (code_signature_fields c)
    → parse_code_signature (encode big (code_signature_fields c) rest) big ≡ ok c
unfolding parse_code_signature read_code_signature
parse_code_signature-encode big c rest (h0, (h1, _)) =
    checked _ _ _ c rest (long_enough big (code_signature_fields c) rest 8 (omega arith))
      (simp (◌>>=◌, reads))

abbrev pub version_min_fields : VersionMinCommand → List Field
version_min_fields c = (4, c.version) ∷ (4, c.reserved) ∷ []

pub parse_version_min-encode :
    (big : Bool) (c : VersionMinCommand) (rest : List ℕ)
    → All FitsField (version_min_fields c)
    → parse_version_min (encode big (version_min_fields c) rest) big ≡ ok c
unfolding parse_version_min read_version_min
parse_version_min-encode big c rest (h0, (h1, _)) =
    checked _ _ _ c rest (long_enough big (version_min_fields c) rest 8 (omega arith))
      (simp (◌>>=◌, reads))

abbrev pub source_version_fields : SourceVersionCommand → List Field
source_version_fields c = (8, c.version) ∷ []

pub parse_source_version-encode :
    (big : Bool) (c : SourceVersionCommand) (rest : List ℕ)
    → All FitsField (source_version_fields c)
    → parse_source_version (encode big (source_version_fields c) rest) big ≡ ok c
unfolding parse_source_version read_source_version
parse_source_version-encode big c rest (h0, _) =
    checked _ _ _ c rest (long_enough big (source_version_fields c) rest 8 (omega arith))
      (simp (◌>>=◌, reads))

abbrev pub segment_split_info_fields : SegmentSplitInfoCommand → List Field
segment_split_info_fields c = (4, c.data_offset) ∷ (4, c.data_size) ∷ []

pub parse_segment_split_info-encode :
    (big : Bool) (c : SegmentSplitInfoCommand) (rest : List ℕ)
    → All FitsField (segment_split_info_fields c)
    → parse_segment_split_info (encode big (segment_split_info_fields c) rest) big ≡ ok c
unfolding parse_segment_split_info read_segment_split_info
parse_segment_split_info-encode big c rest (h0, (h1, _)) =
    checked _ _ _ c rest (long_enough big (segment_split_info_fields c) rest 8 (omega arith))
      (simp (◌>>=◌, reads))

abbrev pub function_starts_fields : FunctionStartsCommand → List Field
function_starts_fields c = (4, c.data_offset) ∷ (4, c.data_size) ∷ []

pub parse_function_starts-encode :
    (big : Bool) (c : FunctionStartsCommand) (rest : List ℕ)
    → All FitsField (function_starts_fields c)
    → parse_function_starts (encode big (function_starts_fields c) rest) big ≡ ok c
unfolding parse_function_starts read_function_starts
parse_function_starts-encode big c rest (h0, (h1, _)) =
    checked _ _ _ c rest (long_enough big (function_starts_fields c) rest 8 (omega arith))
      (simp (◌>>=◌, reads))

abbrev pub dyld_chained_fixups_fields : DyldChainedFixupsCommand → List Field
dyld_chained_fixups_fields c = (4, c.data_offset) ∷ (4, c.data_size) ∷ []

pub parse_dyld_chained_fixups-encode :
    (big : Bool) (c : DyldChainedFixupsCommand) (rest : List ℕ)
    → All FitsField (dyld_chained_fixups_fields c)
    → parse_dyld_chained_fixups (encode big (dyld_chained_fixups_fields c) rest) big ≡ ok c
unfolding parse_dyld_chained_fixups read_dyld_chained_fixups
parse_dyld_chained_fixups-encode big c rest (h0, (h1, _)) =
    checked _ _ _ c rest (long_enough big (dyld_chained_fixups_fields c) rest 8 (omega arith))
      (simp (◌>>=◌, reads))

abbrev pub data_in_code_fields : DataInCodeCommand → List Field
data_in_code_fields c = (4, c.data_offset) ∷ (4, c.data_size) ∷ []

pub parse_data_in_code-encode :
    (big : Bool) (c : DataInCodeCommand) (rest : List ℕ)
    → All FitsField (data_in_code_fields c)
    → parse_data_in_code (encode big (data_in_code_fields c) rest) big ≡ ok c
unfolding parse_data_in_code read_data_in_code
parse_data_in_code-encode big c rest (h0, (h1, _)) =
    checked _ _ _ c rest (long_enough big (data_in_code_fields c) rest 8 (omega arith))
      (simp (◌>>=◌, reads))

abbrev pub dyld_info_only_fields : DyldInfoOnlyCommand → List Field
dyld_info_only_fields c =
    (4, c.rebase_off)
    ∷ (4, c.rebase_size)
    ∷ (4, c.binding_off)
    ∷ (4, c.binding_size)
    ∷ (4, c.weak_binding_off)
    ∷ (4, c.weak_binding_size)
    ∷ (4, c.lazy_binding_off)
    ∷ (4, c.lazy_binding_size)
    ∷ (4, c.export_off)
    ∷ (4, c.export_size)
    ∷ []

pub parse_dyld_info_only-encode :
    (big : Bool) (c : DyldInfoOnlyCommand) (rest : List ℕ)
    → All FitsField (dyld_info_only_fields c)
    → parse_dyld_info_only (encode big (dyld_info_only_fields c) rest) big ≡ ok c
unfolding parse_dyld_info_only read_dyld_info_only
parse_dyld_info_only-encode big c rest
      (h0, (h1, (h2, (h3, (h4, (h5, (h6, (h7, (h8, (h9, _)))))))))) =
    checked _ _ _ c rest (long_enough big (dyld_info_only_fields c) rest 40 (omega arith))
      (simp (◌>>=◌, reads))
