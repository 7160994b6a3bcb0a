-- ===== src/Loader/Parser/BuildResult.antt =====
-- What `build_binary` of crates/compatra-runtime/src/macos/loader/parser.rs makes of the commands.
use compatra.Common.{
  ℕ, ◌≡◌, refl, ap, ◌∙◌, ◌⊎◌, inl, inr, List, [], ◌∷◌, ◌++◌, Option, none, some, true, false, arith,
  bytes_eq,
}
use compatra.Common.HashMap.{lookup}
use compatra.Loader.Cursor.{ok, panic}
use compatra.Loader.Strings.{string_at}
use compatra.Loader.Command.Types.{LoadCommand, SegmentCommand64, SegmentCommand32}
use compatra.Loader.Parser.Ranges.{
  Range, range, range_of, store, range_overflows, RangeFits, contents_after, Stored, store64-Stored,
  store32-Stored, lookup-store,
}
use compatra.Loader.Parser.Binary.{Build, build_step}

abbrev pub segment_of : LoadCommand → List SegmentCommand64
segment_of (LoadCommand.segment64 s) = s ∷ []
segment_of _ = []

-- The entry point after a command.
abbrev pub entry_after : LoadCommand → Option ℕ → Option ℕ
entry_after (LoadCommand.unixthread c) e = some c.entry
entry_after (LoadCommand.main c) e = some c.entryoff
entry_after _ e = e

-- What a command makes of the variables of the loop.
pub record Steps (bs : List ℕ) (c : LoadCommand) (b b' : Build) : Type 0 where
  pub built : build_step bs c b ≡ ok b'
  pub segments : b'.segments ≡ b.segments ++ segment_of c
  pub entry_point : b'.entry_point ≡ entry_after c b.entry_point
  pub contents :
      (name : List ℕ)
      → lookup name b'.segments_data
        ≡ contents_after bs name (range_of c) (lookup name b.segments_data)

-- A command makes the loop panic where its range overflows, and otherwise does what it should.
abbrev pub StepOutcome : List ℕ → LoadCommand → Build → Type 0
StepOutcome bs c b =
    ((range_overflows bs (range_of c) ≡ true) × (build_step bs c b ≡ panic))
    ⊎ ((range_overflows bs (range_of c) ≡ false) × ((b' : Build) × Steps bs c b b'))

pub append_none : (xs : List SegmentCommand64) → xs ≡ xs ++ []
append_none [] = refl
append_none (x ∷ xs) = ap (◌∷◌ x) (append_none xs)

store-segments : (bs : List ℕ) (r : Option Range) (b : Build) → (store bs r b).segments ≡ b.segments
store-segments bs none b = refl
store-segments bs (some r) b = ground arith

store-entry_point :
    (bs : List ℕ) (r : Option Range) (b : Build) → (store bs r b).entry_point ≡ b.entry_point
store-entry_point bs none b = refl
store-entry_point bs (some r) b = ground arith

segment64-Steps :
    (bs : List ℕ) (s : SegmentCommand64) (b : Build)
    → Stored 64 bs (string_at s.segname) s.fileoff s.filesize b
    → StepOutcome bs (LoadCommand.segment64 s) b
unfolding build_step
segment64-Steps bs s b (inl (o, e)) = inl (o, rw (build_step, e) refl)
segment64-Steps bs s b (inr (o, e)) =
    let r = some (range 64 (string_at s.segname) s.fileoff s.filesize) in
    inr (
      o,
      (
        _,
        record {
          built = rw (build_step, e) refl;
          segments = ap (λ xs. xs ++ (s ∷ [])) (store-segments bs r b);
          entry_point = store-entry_point bs r b;
          contents = λ name. lookup-store bs name r b;
        },
      ),
    )

segment-Steps :
    (bs : List ℕ) (s : SegmentCommand32) (b : Build)
    → Stored 32 bs (string_at s.segname) s.fileoff s.filesize b
    → StepOutcome bs (LoadCommand.segment s) b
unfolding build_step
segment-Steps bs s b (inl (o, e)) = inl (o, e)
segment-Steps bs s b (inr (o, e)) =
    let r = some (range 32 (string_at s.segname) s.fileoff s.filesize) in
    inr (
      o,
      (
        store bs r b,
        record {
          built = e;
          segments = store-segments bs r b ∙ append_none b.segments;
          entry_point = store-entry_point bs r b;
          contents = λ name. lookup-store bs name r b;
        },
      ),
    )

pub step_outcome :
    (bs : List ℕ) (c : LoadCommand) (b : Build) → RangeFits (range_of c) → StepOutcome bs c b
unfolding build_step
step_outcome bs (LoadCommand.segment64 s) b h =
    segment64-Steps bs s b (store64-Stored bs (string_at s.segname) s.fileoff s.filesize b h)
step_outcome bs (LoadCommand.segment s) b h =
    segment-Steps bs s b (store32-Stored bs (string_at s.segname) s.fileoff s.filesize b h)
step_outcome bs (LoadCommand.unixthread c) b h = inr (
  refl,
  (
    _,
    record {
      built = refl;
      segments = append_none b.segments;
      entry_point = refl;
      contents = λ name. refl;
    },
  ),
)
step_outcome bs (LoadCommand.main c) b h = inr (
  refl,
  (
    _,
    record {
      built = refl;
      segments = append_none b.segments;
      entry_point = refl;
      contents = λ name. refl;
    },
  ),
)
step_outcome bs _ b h = inr (
  refl,
  (
    b,
    record {
      built = refl;
      segments = append_none b.segments;
      entry_point = refl;
      contents = λ name. refl;
    },
  ),
)
