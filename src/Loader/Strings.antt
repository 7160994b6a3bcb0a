-- ===== src/Loader/Strings.antt =====
-- `String::from_utf8_lossy` as the bytes of the UTF-8 string that it returns, and the names that end
-- at a NUL in crates/compatra-runtime/src/macos/loader/command.rs.
use compatra.Common.{
  ℕ, zero, suc, ◌+◌, ◌-◌, List, [], ◌∷◌, ◌++◌, Bool, ◌&&◌, leb, ltb, ◌==◌, if◌then◌else◌, take,
}

abbrev pub is_within : ℕ → ℕ → ℕ → Bool
is_within low high b = leb low b && leb b high

abbrev pub is_continuation : ℕ → Bool
is_continuation b = is_within 0x80 0xBF b

-- The bytes that follow a first byte in a well-formed sequence: how many, and the range of the first
-- of them. A byte that starts no sequence of several has none.
abbrev pub second_byte : ℕ → ℕ → Bool
second_byte first b =
    if first == 0xE0
    then is_within 0xA0 0xBF b
    else if first == 0xED
    then is_within 0x80 0x9F b
    else if first == 0xF0
    then is_within 0x90 0xBF b
    else if first == 0xF4
    then is_within 0x80 0x8F b
    else is_continuation b

abbrev pub width : ℕ → ℕ
width b =
    if ltb b 0x80
    then 1
    else if is_within 0xC2 0xDF b
    then 2
    else if is_within 0xE0 0xEF b
    then 3
    else if is_within 0xF0 0xF4 b
    then 4
    else 0

-- How many of the bytes behind the first belong to its sequence.
abbrev pub continuations : ℕ → List ℕ → ℕ
continuations zero bs = 0
continuations (suc n) [] = 0
continuations (suc n) (b ∷ bs) =
    let rest = continuations n bs in if is_continuation b then suc rest else 0

abbrev pub well_formed_behind : ℕ → List ℕ → ℕ
well_formed_behind first [] = 0
well_formed_behind first (b ∷ bs) =
    if ltb (width first) 2
    then 0
    else if second_byte first b
    then suc (continuations (width first - 2) bs)
    else 0

-- The bytes of U+FFFD.
abbrev pub replacement : List ℕ
replacement = 0xEF ∷ 0xBF ∷ 0xBD ∷ []

-- Each ill-formed prefix becomes one replacement character. `skip` counts the bytes that the last
-- sequence covers and that are left to pass over.
unfoldable pub lossy_loop : ℕ → List ℕ → List ℕ
lossy_loop skip [] = []
lossy_loop (suc skip) (b ∷ bs) = lossy_loop skip bs
lossy_loop zero (b ∷ bs) =
    let behind = well_formed_behind b bs in
    let rest = lossy_loop behind bs in
    if (behind + 1) == width b then (b ∷ take behind bs) ++ rest else replacement ++ rest

unfoldable pub from_utf8_lossy : List ℕ → List ℕ
unfolding lossy_loop
from_utf8_lossy bs = lossy_loop 0 bs

-- `data[..position(|c| c == 0).unwrap_or(data.len())]`.
unfoldable pub until_nul : List ℕ → List ℕ
until_nul [] = []
until_nul (b ∷ bs) = let rest = until_nul bs in if b == 0 then [] else b ∷ rest

-- The string of a NUL-padded or NUL-terminated field.
unfoldable pub string_at : List ℕ → List ℕ
unfolding until_nul from_utf8_lossy
string_at bs = from_utf8_lossy (until_nul bs)
