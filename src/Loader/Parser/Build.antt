-- ===== src/Loader/Parser/Build.antt =====
-- `build_binary` of crates/compatra-runtime/src/macos/loader/parser.rs over a whole list of commands.
use mathlib.Core.List.{append_assoc}
use compatra.Common.{
  ℕ, ◌≡◌, refl, ◌∙◌, ap, ◌⊎◌, inl, inr, List, [], ◌∷◌, ◌++◌, Option, none, Bool, true, false, ◌||◌,
  All, bytes_eq,
}
use compatra.Common.HashMap.{lookup}
use compatra.Loader.Cursor.{ok, panic}
use compatra.Loader.Header.{MachOMagic, MachHeader, MachHeader64}
use compatra.Loader.Command.Types.{LoadCommand, SegmentCommand64}
use compatra.Loader.Parser.Binary.{
  MachoBinary, Build, build_loop, binary_of, build_binary, empty_build,
}
use compatra.Loader.Parser.Ranges.{range_of, range_overflows, RangeFits, contents_after}
use compatra.Loader.Parser.BuildResult.{segment_of, entry_after, Steps, append_none, step_outcome}

abbrev pub any_overflows : List ℕ → List LoadCommand → Bool
any_overflows bs [] = false
any_overflows bs (c ∷ cs) = range_overflows bs (range_of c) || any_overflows bs cs

abbrev pub segments_of : List LoadCommand → List SegmentCommand64
segments_of [] = []
segments_of (c ∷ cs) = segment_of c ++ segments_of cs

abbrev pub last_entry : List LoadCommand → Option ℕ → Option ℕ
last_entry [] e = e
last_entry (c ∷ cs) e = last_entry cs (entry_after c e)

abbrev pub last_contents : List ℕ → List ℕ → List LoadCommand → Option (List ℕ) → Option (List ℕ)
last_contents bs name [] old = old
last_contents bs name (c ∷ cs) old =
    last_contents bs name cs (contents_after bs name (range_of c) old)

record Runs (bs : List ℕ) (cs : List LoadCommand) (b b' : Build) : Type 0 where
  built : build_loop bs cs b ≡ ok b'
  segments : b'.segments ≡ b.segments ++ segments_of cs
  entry_point : b'.entry_point ≡ last_entry cs b.entry_point
  contents :
      (name : List ℕ)
      → lookup name b'.segments_data ≡ last_contents bs name cs (lookup name b.segments_data)

abbrev LoopOutcome : List ℕ → List LoadCommand → Build → Type 0
LoopOutcome bs cs b =
    ((any_overflows bs cs ≡ true) × (build_loop bs cs b ≡ panic))
    ⊎ ((any_overflows bs cs ≡ false) × ((b' : Build) × Runs bs cs b b'))

then_loop :
    (bs : List ℕ) (c : LoadCommand) (cs : List LoadCommand) (b b' : Build)
    → range_overflows bs (range_of c) ≡ false
    → Steps bs c b b'
    → LoopOutcome bs cs b'
    → LoopOutcome bs (c ∷ cs) b
unfolding build_loop
then_loop bs c cs b b' o s (inl (p, e)) = inl (rw o p, rw (build_loop, s.built) e)
then_loop bs c cs b b' o s (inr (p, (b'', r))) = inr (
  rw o p,
  (
    b'',
    record {
      built = rw (build_loop, s.built) r.built;
      segments =
          r.segments
          ∙ (ap (λ xs. xs ++ segments_of cs) s.segments
              ∙ append_assoc b.segments (segment_of c) (segments_of cs));
      entry_point = r.entry_point ∙ ap (last_entry cs) s.entry_point;
      contents = λ name. r.contents name ∙ ap (last_contents bs name cs) (s.contents name);
    },
  ),
)

loop_outcome :
    (bs : List ℕ) (cs : List LoadCommand) (b : Build)
    → All (λ c. RangeFits (range_of c)) cs
    → LoopOutcome bs cs b
unfolding build_loop
loop_outcome bs [] b h = inr (
  refl,
  (
    b,
    record {
      built = refl;
      segments = append_none b.segments;
      entry_point = refl;
      contents = λ name. refl;
    },
  ),
)
loop_outcome bs (c ∷ cs) b h = elim (step_outcome bs c b h.0) [
  | inl (o, e) ↦ inl (rw o refl, rw (build_loop, e) refl)
  | inr (o, (b', s)) ↦ then_loop bs c cs b b' o s (loop_outcome bs cs b' h.1)
]

-- Where the fields of the segments have their widths, `build_binary` panics just when a segment with
-- bytes starts in the file, whose length is taken in the width of the fields, and its end overflows
-- its fields. Otherwise the binary has the file, the commands, the 64-bit segments in the order of the
-- commands, the entry point of the last command that gives one, and under each name the bytes of the
-- last segment of that name that starts in the file in that sense and ends in it.
pub build_binary_lem :
    (bs : List ℕ) (magic : MachOMagic) (h32 : Option MachHeader) (h64 : Option MachHeader64)
    (cs : List LoadCommand)
    → All (λ c. RangeFits (range_of c)) cs
    → ((any_overflows bs cs ≡ true) × (build_binary bs magic h32 h64 cs ≡ panic))
      ⊎ ((any_overflows bs cs ≡ false)
          × ((m : MachoBinary) × (build_binary bs magic h32 h64 cs ≡ ok m)
              × (m.contents ≡ bs)
              × (m.commands ≡ cs)
              × (m.segments ≡ segments_of cs)
              × (m.entry_point ≡ last_entry cs none)
              × ((name : List ℕ) → lookup name m.segments_data ≡ last_contents bs name cs none)))
unfolding build_binary lookup
build_binary_lem bs magic h32 h64 cs h = elim (loop_outcome bs cs empty_build h) [
  | inl (o, e) ↦ inl (o, ap (binary_of bs magic h32 h64 cs) e)
  | inr (o, (b, r)) ↦ inr (
    o,
    (
      _,
      ap (binary_of bs magic h32 h64 cs) r.built,
      refl,
      refl,
      r.segments,
      r.entry_point,
      r.contents,
    ),
  )
]
