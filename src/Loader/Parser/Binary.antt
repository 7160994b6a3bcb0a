-- ===== src/Loader/Parser/Binary.antt =====
-- `MachoBinary` and `build_binary` of crates/compatra-runtime/src/macos/loader/parser.rs. A sum of a
-- file offset and a size wraps, as in a release build; a slice that starts behind its end panics.
use compatra.Common.{
  ℕ, ◌+◌, ◌-◌, ◌%◌, ◌^◌, List, [], ◌∷◌, ◌++◌, Option, none, some, Bool, true, false, ◌==◌, ◌&&◌,
  ltb, leb, length, take, drop, bytes_eq,
}
use compatra.Common.HashMap.{HashMap, insert}
use compatra.Loader.Consts.{mh_kext_bundle}
use compatra.Loader.Cursor.{Outcome, ok, err, panic}
use compatra.Loader.Strings.{string_at}
use compatra.Loader.Header.{MachOMagic, MachHeader, MachHeader64}
use compatra.Loader.Command.Types.{LoadCommand, SegmentCommand64}

pub record MachoBinary : Type 0 where
  pub contents : List ℕ
  pub magic : MachOMagic
  pub header_64 : Option MachHeader64
  pub header_32 : Option MachHeader
  pub commands : List LoadCommand
  pub segments : List SegmentCommand64
  pub entry_point : Option ℕ
  pub is_driver : Bool
  pub segments_data : HashMap (List ℕ) (List ℕ)

-- The variables of the loop.
pub record Build : Type 0 where
  pub segments : List SegmentCommand64
  pub segments_data : HashMap (List ℕ) (List ℕ)
  pub entry_point : Option ℕ

-- `&data[start..end]`.
abbrev pub slice : ℕ → ℕ → List ℕ → Outcome (List ℕ)
slice start end bs = elim (leb start end && leb end (length bs)) [
  | true ↦ ok (take (end - start) (drop start bs))
  | false ↦ panic
]

abbrev pub put_segment : List ℕ → Build → Outcome (List ℕ) → Outcome Build
put_segment name b (ok contents) =
    ok (record b { segments_data = insert name contents b.segments_data })
put_segment name b (err e) = err e
put_segment name b panic = panic

-- The contents of a segment of `filesize` bytes from `fileoff`, where a `w`-bit sum of the two lies in
-- the file. The file length is compared in `w` bits first.
unfoldable pub store_contents : ℕ → List ℕ → List ℕ → ℕ → ℕ → Build → Outcome Build
store_contents w bs name fileoff filesize b =
    elim (ltb 0 filesize && ltb fileoff (length bs % 2 ^ w)) [
      | false ↦ ok b
      | true ↦ elim (leb ((fileoff + filesize) % 2 ^ w) (length bs)) [
        | false ↦ ok b
        | true ↦ put_segment name b (slice fileoff ((fileoff + filesize) % 2 ^ w) bs)
      ]
    ]

abbrev pub push_segment : SegmentCommand64 → Outcome Build → Outcome Build
push_segment s (ok b) = ok (record b { segments = b.segments ++ (s ∷ []) })
push_segment s (err e) = err e
push_segment s panic = panic

-- The body of `for cmd in &commands`.
unfoldable pub build_step : List ℕ → LoadCommand → Build → Outcome Build
unfolding store_contents string_at
build_step bs (LoadCommand.segment64 s) b =
    push_segment s (store_contents 64 bs (string_at s.segname) s.fileoff s.filesize b)
build_step bs (LoadCommand.segment s) b =
    store_contents 32 bs (string_at s.segname) s.fileoff s.filesize b
build_step bs (LoadCommand.unixthread c) b = ok (record b { entry_point = some c.entry })
build_step bs (LoadCommand.main c) b = ok (record b { entry_point = some c.entryoff })
build_step bs _ b = ok b

unfoldable pub build_loop : List ℕ → List LoadCommand → Build → Outcome Build
unfolding build_step
build_loop bs [] b = ok b
build_loop bs (c ∷ cs) b = elim (build_step bs c b) [
  | panic ↦ panic
  | err e ↦ err e
  | ok b' ↦ build_loop bs cs b'
]

abbrev pub has_driver_header : Option MachHeader64 → Option MachHeader → Bool
has_driver_header (some h) o = h.filetype == mh_kext_bundle
has_driver_header none (some h) = h.filetype == mh_kext_bundle
has_driver_header none none = false

abbrev pub binary_of :
    List ℕ
    → MachOMagic
    → Option MachHeader
    → Option MachHeader64
    → List LoadCommand
    → Outcome Build
    → Outcome MachoBinary
binary_of bs magic h32 h64 cs (ok b) = ok (record {
  contents = bs;
  magic = magic;
  header_64 = h64;
  header_32 = h32;
  commands = cs;
  segments = b.segments;
  entry_point = b.entry_point;
  is_driver = has_driver_header h64 h32;
  segments_data = b.segments_data;
})
binary_of bs magic h32 h64 cs (err e) = err e
binary_of bs magic h32 h64 cs panic = panic

abbrev pub empty_build : Build
empty_build = record { segments = []; segments_data = []; entry_point = none }

unfoldable pub build_binary :
    List ℕ
    → MachOMagic
    → Option MachHeader
    → Option MachHeader64
    → List LoadCommand
    → Outcome MachoBinary
unfolding build_loop
build_binary bs magic h32 h64 cs = binary_of bs magic h32 h64 cs (build_loop bs cs empty_build)
