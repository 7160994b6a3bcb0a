-- ===== src/Loader/Parser/CommandBounds.antt =====
-- What the loop over the load commands in crates/compatra-runtime/src/macos/loader/parser.rs reads.
use compatra.Common.{
  ℕ, zero, suc, ◌+◌, ◌*◌, ◌≤◌, ◌≡◌, refl, ◌⊎◌, inl, inr, List, [], ◌∷◌, Bool, true, false, ltb,
  length, drop, max, arith, Bool-cases,
}
use compatra.Loader.Cursor.{LoaderError, Outcome, ok, err}
use compatra.Loader.Header.{word_at}
use compatra.Loader.Command.Types.{LoadCommand}
use compatra.Loader.Command.Dispatch.{parse_command}
use compatra.Loader.Command.Parsed.{parse_command-Parsed}
use compatra.Loader.Parser.Commands.{parse_commands}

-- At most `n` commands, each with at least 8 bytes of the file behind `offset` of its own; or an error.
abbrev pub Bounded : List ℕ → ℕ → ℕ → Outcome (List LoadCommand) → Type 0
Bounded bs n offset o =
    ((cs : List LoadCommand) × (o ≡ ok cs)
      × (length cs ≤ n)
      × (offset + 8 * length cs ≤ max offset (length bs)))
    ⊎ ((e : LoaderError) × (o ≡ err e))

parse_commands_end :
    (bs : List ℕ) (n offset : ℕ) (big : Bool)
    → ltb (length bs) (offset + 8) ≡ true
    → parse_commands bs (suc n) offset big ≡ ok []
unfolding parse_commands
parse_commands_end bs n offset big h = rw (parse_commands, h)

parse_commands_error :
    (bs : List ℕ) (n offset : ℕ) (big : Bool) (e : LoaderError)
    → ltb (length bs) (offset + 8) ≡ false
    → parse_command (drop offset bs) big ≡ err e
    → parse_commands bs (suc n) offset big ≡ err e
unfolding parse_commands
parse_commands_error bs n offset big e h k = rw (parse_commands, h, k)

not_below : (a b : ℕ) → ltb a b ≡ false → b ≤ a
not_below a b h = ground arith

next-Bounded :
    (bs : List ℕ) (n offset size : ℕ) (big : Bool) (c : LoadCommand)
    → ltb (length bs) (offset + 8) ≡ false
    → parse_command (drop offset bs) big ≡ ok (c, size)
    → 8 ≤ size
    → Bounded bs n (offset + size) (parse_commands bs n (offset + size) big)
    → Bounded bs (suc n) offset (parse_commands bs (suc n) offset big)
unfolding parse_commands
next-Bounded bs n offset size big c h k low (inr (e, rest)) =
    inr (e, rw (parse_commands, h, k, rest))
next-Bounded bs n offset size big c h k low (inl (cs, rest, count, fits)) = inl (
  c ∷ cs,
  rw (parse_commands, h, k, rest),
  omega arith,
  omega (arith, not_below (length bs) (offset + 8) h),
)

-- The loop returns an error or at most `ncmds` commands and never panics, whatever the header claims:
-- each command that it returns has 8 bytes of the file of its own, so their number is also at most an
-- eighth of the bytes behind the header.
pub parse_commands-Bounded :
    (bs : List ℕ) (ncmds header_size : ℕ) (big : Bool)
    → Bounded bs ncmds header_size (parse_commands bs ncmds header_size big)
parse_commands-Bounded bs zero offset big =
    inl ([], unfold parse_commands in refl, omega arith, omega arith)
parse_commands-Bounded bs (suc n) offset big = elim (Bool-cases (ltb (length bs) (offset + 8))) [
  | inl h ↦ inl ([], parse_commands_end bs n offset big h, omega arith, omega arith)
  | inr h ↦ elim (parse_command-Parsed (drop offset bs) big) [
    | inr (e, k) ↦ inr (e, parse_commands_error bs n offset big e h k)
    | inl (c, k, low, high, id) ↦
        next-Bounded bs n offset (word_at big 4 (drop offset bs)) big c h k low
          (parse_commands-Bounded bs n (offset + word_at big 4 (drop offset bs)) big)
  ]
]
