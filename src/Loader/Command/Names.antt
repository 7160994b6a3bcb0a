-- ===== src/Loader/Command/Names.antt =====
-- The load commands that hold a path, in crates/compatra-runtime/src/macos/loader/command.rs: an offset
-- from the start of the command, checked against the 8 bytes before the data and against its end.
use compatra.Common.{ℕ, ◌-◌, List, Bool, ltb, leb, if◌then◌else◌, length, drop}
use compatra.Loader.Cursor.{
  LoaderError, Outcome, ok, err, ◌>>=◌, read_u32, dylinker_too_short, invalid_dylinker_name_offset,
  dylinker_name_out_of_bounds, id_dylinker_too_short, invalid_id_dylinker_name_offset,
  id_dylinker_name_out_of_bounds, dylib_too_short, invalid_dylib_name_offset,
  dylib_name_out_of_bounds, rpath_too_short, invalid_rpath_offset, rpath_out_of_bounds,
}
use compatra.Loader.Strings.{string_at}
use compatra.Loader.Command.Types.{DylinkerCommand, IdDylinkerCommand, DylibCommand, RpathCommand}

-- `checked_sub(8)`, the bounds check and the string up to the NUL.
unfoldable pub name_at : LoaderError → LoaderError → ℕ → List ℕ → Outcome (List ℕ)
unfolding string_at
name_at invalid out_of_bounds name_offset bs =
    if ltb name_offset 8
    then err invalid
    else if leb (length bs) (name_offset - 8)
    then err out_of_bounds
    else ok (string_at (drop (name_offset - 8) bs))

unfoldable pub parse_dylinker : List ℕ → Bool → Outcome DylinkerCommand
unfolding read_u32 name_at
parse_dylinker bs big =
    if ltb (length bs) 4
    then err dylinker_too_short
    else read_u32 big bs >>= λ offset.
        name_at invalid_dylinker_name_offset dylinker_name_out_of_bounds offset.0 bs >>= λ name.
        ok (record { name_offset = offset.0; name = name })

unfoldable pub parse_id_dylinker : List ℕ → Bool → Outcome IdDylinkerCommand
unfolding read_u32 name_at
parse_id_dylinker bs big =
    if ltb (length bs) 4
    then err id_dylinker_too_short
    else read_u32 big bs >>= λ offset.
        name_at invalid_id_dylinker_name_offset id_dylinker_name_out_of_bounds offset.0 bs
        >>= λ name. ok (record { name_offset = offset.0; name = name })

unfoldable pub parse_dylib : List ℕ → Bool → Outcome DylibCommand
unfolding read_u32 name_at
parse_dylib bs big =
    if ltb (length bs) 24
    then err dylib_too_short
    else read_u32 big bs >>= λ offset. read_u32 big offset.1 >>= λ stamp.
        read_u32 big stamp.1 >>= λ current. read_u32 big current.1 >>= λ compatibility.
        name_at invalid_dylib_name_offset dylib_name_out_of_bounds offset.0 bs >>= λ name.
        ok (record {
          name_offset = offset.0;
          timestamp = stamp.0;
          current_version = current.0;
          compatibility_version = compatibility.0;
          name = name;
        })

unfoldable pub parse_rpath : List ℕ → Bool → Outcome RpathCommand
unfolding read_u32 name_at
parse_rpath bs big =
    if ltb (length bs) 4
    then err rpath_too_short
    else read_u32 big bs >>= λ offset.
        name_at invalid_rpath_offset rpath_out_of_bounds offset.0 bs >>= λ path.
        ok (record { path_offset = offset.0; path = path })
