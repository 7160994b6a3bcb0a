-- ===== src/Loader/Command/Parsed.antt =====
-- What `LoadCommand::parse` of crates/compatra-runtime/src/macos/loader/command.rs returns.
use compatra.Common.{
  ℕ, ◌≤◌, ◌≡◌, refl, ◌⊎◌, inl, inr, List, Bool, true, false, ◌==◌, ◌||◌, ltb, leb, length,
  length-drop, drop, arith, Bool-cases, if◌then◌else◌,
}
use compatra.Loader.Consts.{
  lc_segment_64, lc_segment, lc_symtab, lc_dysymtab, lc_load_dylinker, lc_id_dylinker, lc_uuid,
  lc_unixthread, lc_main, lc_id_dylib, lc_rpath, lc_code_signature, lc_version_min_macosx,
  lc_version_min_iphoneos, lc_source_version, lc_segment_split_info, lc_function_starts,
  lc_data_in_code, lc_dyld_info_only, lc_dyld_chained_fixups, lc_load_dylib, lc_load_weak_dylib,
}
use compatra.Loader.Cursor.{
  LoaderError, Outcome, ok, err, panic, read_exact_long, unexpected_eof, load_command_too_short,
}
use compatra.Loader.Header.{word_at}
use compatra.Loader.Command.Types.{LoadCommand}
use compatra.Loader.Command.Dispatch.{
  wrap, parse_body, with_size, parse_sized, parse_command, cmd_id,
}
use compatra.Loader.Command.NoPanic.{NoPanic}
use compatra.Loader.Command.NoPanicSegments.{parse_body-NoPanic}

-- The id under which a command is kept: a weak library is a library.
abbrev pub kept_id : ℕ → ℕ
kept_id cmd = if cmd == lc_load_weak_dylib then lc_load_dylib else cmd

abbrev HasId : ℕ → Outcome LoadCommand → Type 0
HasId id (ok c) = cmd_id c ≡ id
HasId id (err e) = Unit
HasId id panic = Unit

branch-HasId :
    (id : ℕ) (b : Bool) (o p : Outcome LoadCommand)
    → (b ≡ true → HasId id o)
    → (b ≡ false → HasId id p)
    → HasId id (if b then o else p)
branch-HasId id true o p h k = h refl
branch-HasId id false o p h k = k refl

wrap-HasId {ℓ} :
    {A : Type ℓ} (id : ℕ) (f : A → LoadCommand) (o : Outcome A)
    → ((a : A) → cmd_id (f a) ≡ id)
    → HasId id (wrap f o)
wrap-HasId id f (ok a) h = h a
wrap-HasId id f (err e) h = tt
wrap-HasId id f panic h = tt

parse_body-HasId :
    (cmd cmdsize : ℕ) (bs : List ℕ) (big : Bool)
    → HasId (kept_id cmd) (parse_body cmd cmdsize bs big)
unfolding parse_body cmd_id
parse_body-HasId cmd cmdsize bs big =
    branch-HasId (kept_id cmd) (cmd == lc_segment_64) _ _
      (λ e. wrap-HasId _ _ _ (λ c. ground arith))
      (λ _.
        branch-HasId (kept_id cmd) (cmd == lc_segment) _ _
          (λ e. wrap-HasId _ _ _ (λ c. ground arith))
          (λ _.
            branch-HasId (kept_id cmd) (cmd == lc_symtab) _ _
              (λ e. wrap-HasId _ _ _ (λ c. ground arith))
              (λ _.
                branch-HasId (kept_id cmd) (cmd == lc_dysymtab) _ _
                  (λ e. wrap-HasId _ _ _ (λ c. ground arith))
                  (λ _.
                    branch-HasId (kept_id cmd) (cmd == lc_load_dylinker) _ _
                      (λ e. wrap-HasId _ _ _ (λ c. ground arith))
                      (λ _.
                        branch-HasId (kept_id cmd) (cmd == lc_id_dylinker) _ _
                          (λ e. wrap-HasId _ _ _ (λ c. ground arith))
                          (λ _.
                            branch-HasId (kept_id cmd) (cmd == lc_uuid) _ _
                              (λ e. wrap-HasId _ _ _ (λ c. ground arith))
                              (λ _.
                                branch-HasId (kept_id cmd) (cmd == lc_unixthread) _ _
                                  (λ e. wrap-HasId _ _ _ (λ c. ground arith))
                                  (λ _.
                                    branch-HasId (kept_id cmd) (cmd == lc_main) _ _
                                      (λ e. wrap-HasId _ _ _ (λ c. ground arith))
                                      (λ _.
                                        branch-HasId (kept_id cmd)
                                          (cmd == lc_load_dylib || cmd == lc_load_weak_dylib) _ _
                                          (λ e. wrap-HasId _ _ _ (λ c. ground arith))
                                          (λ library.
                                            branch-HasId (kept_id cmd) (cmd == lc_id_dylib) _ _
                                              (λ e. wrap-HasId _ _ _ (λ c. ground arith))
                                              (λ _.
                                                branch-HasId (kept_id cmd) (cmd == lc_rpath) _ _
                                                  (λ e. wrap-HasId _ _ _ (λ c. ground arith))
                                                  (λ _.
                                                    branch-HasId (kept_id cmd)
                                                      (cmd == lc_code_signature) _ _
                                                      (λ e. wrap-HasId _ _ _ (λ c. ground arith))
                                                      (λ _.
                                                        branch-HasId (kept_id cmd)
                                                          (cmd == lc_version_min_macosx) _ _
                                                          (λ e.
                                                            wrap-HasId _ _ _ (λ c. ground arith))
                                                          (λ _.
                                                            branch-HasId (kept_id cmd)
                                                            (cmd == lc_version_min_iphoneos) _ _
                                                            (λ e.
                                                            wrap-HasId _ _ _ (λ c. ground arith))
                                                            (λ _.
                                                            branch-HasId (kept_id cmd)
                                                            (cmd == lc_source_version) _ _
                                                            (λ e.
                                                            wrap-HasId _ _ _ (λ c. ground arith))
                                                            (λ _.
                                                            branch-HasId (kept_id cmd)
                                                            (cmd == lc_segment_split_info) _ _
                                                            (λ e.
                                                            wrap-HasId _ _ _ (λ c. ground arith))
                                                            (λ _.
                                                            branch-HasId (kept_id cmd)
                                                            (cmd == lc_function_starts) _ _
                                                            (λ e.
                                                            wrap-HasId _ _ _ (λ c. ground arith))
                                                            (λ _.
                                                            branch-HasId (kept_id cmd)
                                                            (cmd == lc_data_in_code) _ _
                                                            (λ e.
                                                            wrap-HasId _ _ _ (λ c. ground arith))
                                                            (λ _.
                                                            branch-HasId (kept_id cmd)
                                                            (cmd == lc_dyld_info_only) _ _
                                                            (λ e.
                                                            wrap-HasId _ _ _ (λ c. ground arith))
                                                            (λ _.
                                                            branch-HasId (kept_id cmd)
                                                            (cmd == lc_dyld_chained_fixups) _ _
                                                            (λ e.
                                                            wrap-HasId _ _ _ (λ c. ground arith))
                                                            (λ _. ground arith)))))))))))))))))))))

parse_command_long :
    (bs : List ℕ) (big : Bool)
    → 8 ≤ length bs
    → ltb (length bs) 8 ≡ false
    → parse_command bs big ≡ parse_sized (word_at big 0 bs) (word_at big 4 bs) bs big
unfolding parse_command
parse_command_long bs big h not_short = rw (
  parse_command,
  not_short,
  read_exact_long unexpected_eof 4 bs (omega arith),
  read_exact_long unexpected_eof 4 (drop 4 bs) (omega (arith, length-drop 4 bs)),
)

parse_command_short :
    (bs : List ℕ) (big : Bool)
    → ltb (length bs) 8 ≡ true
    → parse_command bs big ≡ err load_command_too_short
unfolding parse_command
parse_command_short bs big h = rw (parse_command, h)

-- What comes of a command with the given id and size.
abbrev pub Parsed : ℕ → ℕ → Outcome (LoadCommand × ℕ) → Type 0
Parsed cmd cmdsize o =
    ((c : LoadCommand) × (o ≡ ok (c, cmdsize))
      × (8 ≤ cmdsize)
      × (cmdsize ≤ 65536)
      × (cmd_id c ≡ kept_id cmd))
    ⊎ ((e : LoaderError) × (o ≡ err e))

with_size-Parsed :
    (cmd cmdsize : ℕ) (o : Outcome LoadCommand)
    → 8 ≤ cmdsize
    → cmdsize ≤ 65536
    → NoPanic o
    → HasId (kept_id cmd) o
    → Parsed cmd cmdsize (with_size cmdsize o)
with_size-Parsed cmd cmdsize (ok c) low high h k = inl (c, refl, low, high, k)
with_size-Parsed cmd cmdsize (err e) low high h k = inr (e, refl)
with_size-Parsed cmd cmdsize panic low high h k = absurd h

parse_sized-Parsed :
    (cmd cmdsize : ℕ) (bs : List ℕ) (big : Bool)
    → Parsed cmd cmdsize (parse_sized cmd cmdsize bs big)
unfolding parse_sized
parse_sized-Parsed cmd cmdsize bs big = elim (Bool-cases (ltb cmdsize 8 || ltb 65536 cmdsize)) [
  | inl e ↦ rw (parse_sized, e) (inr (_, refl))
  | inr e ↦
      rw (parse_sized, e)
        (with_size-Parsed cmd cmdsize _ (ground arith) (ground arith)
          (parse_body-NoPanic cmd cmdsize (drop 8 bs) big)
          (parse_body-HasId cmd cmdsize (drop 8 bs) big))
]

-- On every input `LoadCommand::parse` returns an error or a command and never panics. The size that
-- it returns with a command is the second word of the input and lies between 8 and 65,536, so that the
-- loop over the commands moves on, and the id of the command is the first word, except that a weak
-- library has the id of a library.
pub parse_command-Parsed :
    (bs : List ℕ) (big : Bool) → Parsed (word_at big 0 bs) (word_at big 4 bs) (parse_command bs big)
parse_command-Parsed bs big = elim (Bool-cases (leb 8 (length bs))) [
  | inl e ↦
      rw (parse_command_long bs big (ground arith) (ground arith))
        (parse_sized-Parsed (word_at big 0 bs) (word_at big 4 bs) bs big)
  | inr e ↦ inr (load_command_too_short, parse_command_short bs big (ground arith))
]
