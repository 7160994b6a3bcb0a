-- ===== src/Loader/Parser/Commands.antt =====
-- `MachoBinary::parse_commands` of crates/compatra-runtime/src/macos/loader/parser.rs.
use compatra.Common.{ℕ, zero, suc, ◌+◌, List, [], ◌∷◌, Bool, true, false, ltb, length, drop}
use compatra.Loader.Cursor.{Outcome, ok, err, panic}
use compatra.Loader.Command.Types.{LoadCommand}
use compatra.Loader.Command.Dispatch.{parse_command}

-- One round for each of the `ncmds` that are left.
unfoldable pub parse_commands : List ℕ → ℕ → ℕ → Bool → Outcome (List LoadCommand)
unfolding parse_command
parse_commands bs zero offset big = ok []
parse_commands bs (suc n) offset big = elim (ltb (length bs) (offset + 8)) [
  | true ↦ ok []
  | false ↦ elim (parse_command (drop offset bs) big) [
    | panic ↦ panic
    | err e ↦ err e
    | ok (c, size) ↦ elim (parse_commands bs n (offset + size) big) [
      | panic ↦ panic
      | err e ↦ err e
      | ok cs ↦ ok (c ∷ cs)
    ]
  ]
]
