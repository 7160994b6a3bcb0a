-- ===== src/Loader/Library/Reference.antt =====
-- `matches_reference` of crates/compatra-runtime/src/macos/loader/guest_libraries.rs, with
-- `str::trim_matches` and `str::trim` on the bytes of a UTF-8 string.
use compatra.Common.{
  ℕ, zero, suc, List, [], ◌∷◌, Option, none, some, Bool, false, ◌==◌, ◌&&◌, ◌||◌, leb,
  if◌then◌else◌, is_empty, reverse, bytes_beq,
}
use compatra.Common.FilePath.{file_name, same_path}
use compatra.Loader.Library.Image.{GuestLibraryImage}

unfoldable pub trim_start_nul : List ℕ → List ℕ
trim_start_nul [] = []
trim_start_nul (b ∷ bs) = let rest = trim_start_nul bs in if b == 0 then rest else b ∷ bs

unfoldable pub trim_matches_nul : List ℕ → List ℕ
unfolding trim_start_nul
trim_matches_nul bs = reverse (trim_start_nul (reverse (trim_start_nul bs)))

-- How many bytes the character of property White_Space at the start takes, 0 where there is none.
abbrev pub space_width : List ℕ → ℕ
space_width [] = 0
space_width (a ∷ []) = if (leb 9 a && leb a 13) || a == 32 then 1 else 0
space_width (a ∷ b ∷ []) =
    if (leb 9 a && leb a 13) || a == 32
    then 1
    else if a == 0xC2 && (b == 0x85 || b == 0xA0)
    then 2
    else 0
space_width (a ∷ b ∷ c ∷ rest) =
    if (leb 9 a && leb a 13) || a == 32
    then 1
    else if a == 0xC2 && (b == 0x85 || b == 0xA0)
    then 2
    else if a == 0xE1 && (b == 0x9A && c == 0x80)
    then 3
    else if a == 0xE2
        && (b == 0x80 && (leb 0x80 c && leb c 0x8A || (c == 0xA8 || (c == 0xA9 || c == 0xAF)))
            || b == 0x81 && c == 0x9F)
    then 3
    else if a == 0xE3 && (b == 0x80 && c == 0x80)
    then 3
    else 0

-- `skip` counts the bytes of the last space that are left to pass over.
unfoldable pub trim_start : ℕ → List ℕ → List ℕ
trim_start skip [] = []
trim_start (suc skip) (b ∷ bs) = trim_start skip bs
trim_start zero (b ∷ bs) = elim (space_width (b ∷ bs)) [
  | zero ↦ b ∷ bs
  | suc more ↦ trim_start more bs
]

-- A byte of a space is only found where the space starts: no other character has its first byte.
unfoldable pub trim_end : List ℕ → List ℕ
unfolding trim_start
trim_end [] = []
trim_end (b ∷ bs) =
    let rest = trim_end bs in if is_empty (trim_start 0 (b ∷ bs)) then [] else b ∷ rest

unfoldable pub trim : List ℕ → List ℕ
unfolding trim_start trim_end
trim bs = trim_end (trim_start 0 bs)

abbrev pub same_name : Option (List ℕ) → Option (List ℕ) → Bool
same_name (some a) (some b) = bytes_beq a b
same_name (some a) none = false
same_name none b = false

abbrev pub base_name : Option (List ℕ) → Option (List ℕ)
base_name none = none
base_name (some path) = file_name path

abbrev pub is_reference : GuestLibraryImage → List ℕ → Bool
is_reference image reference =
    same_name image.install_name (some reference)
    || (same_path reference image.path
        || (same_name (file_name reference) (file_name image.path)
            || same_name (file_name reference) (base_name image.install_name)))

unfoldable pub matches_reference : GuestLibraryImage → List ℕ → Bool
unfolding trim_matches_nul trim file_name same_path
matches_reference image raw =
    let reference = trim (trim_matches_nul raw) in
    if is_empty reference then false else is_reference image reference
