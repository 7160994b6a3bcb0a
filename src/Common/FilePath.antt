-- ===== src/Common/FilePath.antt =====
-- `std::path::Path` of a Unix host, as the bytes of a path: its components, its last name and its
-- equality.
use Prim.Native.Nat.{ℕ, Ordering}
use mathlib.Core.Bool.{Bool, true, false, ◌&&◌, ◌||◌}
use mathlib.Core.Option.{Option, none, some}
use mathlib.Core.List.{List, [], ◌∷◌, ◌++◌}
use compatra.Common.Tests.{◌==◌, if◌then◌else◌, bytes_beq}
use compatra.Common.Lists.{is_empty}
use compatra.Common.BTree.{bytes_compare}

abbrev pub put_first : ℕ → List (List ℕ) → List (List ℕ)
put_first c [] = (c ∷ []) ∷ []
put_first c (piece ∷ pieces) = (c ∷ piece) ∷ pieces

-- The pieces between the separators, never none.
unfoldable pub pieces_of : List ℕ → List (List ℕ)
pieces_of [] = [] ∷ []
pieces_of (c ∷ cs) = let rest = pieces_of cs in if c == b'/' then [] ∷ rest else put_first c rest

abbrev pub dot : List ℕ
dot = b'.' ∷ []

abbrev pub dot_dot : List ℕ
dot_dot = b'.' ∷ b'.' ∷ []

unfoldable pub drop_dots : List (List ℕ) → List (List ℕ)
drop_dots [] = []
drop_dots (piece ∷ pieces) =
    let rest = drop_dots pieces in
    if is_empty piece || bytes_beq piece dot then rest else piece ∷ rest

-- Behind the root: a "." stands for itself only at the start of a relative path.
abbrev pub normal_pieces : List (List ℕ) → List (List ℕ)
normal_pieces [] = []
normal_pieces (piece ∷ pieces) =
    if is_empty piece then drop_dots pieces else piece ∷ drop_dots pieces

unfoldable pub components : List ℕ → List (List ℕ)
unfolding pieces_of drop_dots
components path = normal_pieces (pieces_of path)

abbrev pub has_root : List ℕ → Bool
has_root [] = false
has_root (c ∷ cs) = c == b'/'

abbrev pub last_piece : List (List ℕ) → Option (List ℕ)
last_piece [] = none
last_piece (piece ∷ []) = some piece
last_piece (piece ∷ next ∷ pieces) = last_piece (next ∷ pieces)

abbrev pub name_of : Option (List ℕ) → Option (List ℕ)
name_of none = none
name_of (some piece) = if bytes_beq piece dot || bytes_beq piece dot_dot then none else some piece

unfoldable pub file_name : List ℕ → Option (List ℕ)
unfolding components
file_name path = name_of (last_piece (components path))

abbrev pub pieces_beq : List (List ℕ) → List (List ℕ) → Bool
pieces_beq [] [] = true
pieces_beq [] (q ∷ qs) = false
pieces_beq (p ∷ ps) [] = false
pieces_beq (p ∷ ps) (q ∷ qs) = bytes_beq p q && pieces_beq ps qs

abbrev pub bool_beq : Bool → Bool → Bool
bool_beq true b = b
bool_beq false true = false
bool_beq false false = true

-- `Path::eq`.
unfoldable pub same_path : List ℕ → List ℕ → Bool
unfolding components
same_path p q = bool_beq (has_root p) (has_root q) && pieces_beq (components p) (components q)

-- A name before and behind its last dot, where it has a dot.
unfoldable pub rsplit_dot : List ℕ → Option (List ℕ × List ℕ)
rsplit_dot [] = none
rsplit_dot (c ∷ cs) =
    let rest = rsplit_dot cs in
    elim rest [
      | some (before, after) ↦ some (c ∷ before, after)
      | none ↦ if c == b'.' then some ([], cs) else none
    ]

-- The stem and the extension of a name: a name that starts with its only dot has no extension.
abbrev pub split_name : List ℕ → List ℕ × Option (List ℕ)
split_name name = elim (rsplit_dot name) [
  | none ↦ (name, none)
  | some (before, after) ↦ if is_empty before then (name, none) else (before, some after)
]

unfoldable pub extension : List ℕ → Option (List ℕ)
unfolding file_name rsplit_dot
extension path = elim (file_name path) [ none ↦ none | some name ↦ (split_name name).1 ]

unfoldable pub file_stem : List ℕ → Option (List ℕ)
unfolding file_name rsplit_dot
file_stem path = elim (file_name path) [ none ↦ none | some name ↦ some (split_name name).0 ]

abbrev pub ends_in_slash : List ℕ → Bool
ends_in_slash [] = false
ends_in_slash (c ∷ []) = c == b'/'
ends_in_slash (c ∷ d ∷ cs) = ends_in_slash (d ∷ cs)

-- `Path::join`: an absolute path replaces the first.
unfoldable pub join : List ℕ → List ℕ → List ℕ
join p q =
    if has_root q then q else if is_empty p || ends_in_slash p then p ++ q else p ++ (b'/' ∷ q)

-- A component as a string whose order is that of `Component`: the root, ".", "..", and then names.
abbrev pub component_key : List ℕ → List ℕ
component_key piece =
    if bytes_beq piece dot then 1 ∷ [] else if bytes_beq piece dot_dot then 2 ∷ [] else 3 ∷ piece

abbrev pub keys_of : List (List ℕ) → List (List ℕ)
keys_of [] = []
keys_of (piece ∷ pieces) = component_key piece ∷ keys_of pieces

unfoldable pub path_key : List ℕ → List (List ℕ)
unfolding components
path_key path =
    if has_root path then (0 ∷ []) ∷ keys_of (components path) else keys_of (components path)

abbrev pub pieces_compare : List (List ℕ) → List (List ℕ) → Ordering
pieces_compare [] [] = Ordering.eq
pieces_compare [] (q ∷ qs) = Ordering.lt
pieces_compare (p ∷ ps) [] = Ordering.gt
pieces_compare (p ∷ ps) (q ∷ qs) =
    let rest = pieces_compare ps qs in
    elim (bytes_compare p q) [
      | Ordering.lt ↦ Ordering.lt
      | Ordering.eq ↦ rest
      | Ordering.gt ↦ Ordering.gt
    ]

unfoldable pub insert_path : List ℕ → List (List ℕ) → List (List ℕ)
unfolding path_key
insert_path p [] = p ∷ []
insert_path p (q ∷ qs) = elim (pieces_compare (path_key p) (path_key q)) [
  | Ordering.gt ↦ q ∷ insert_path p qs
  | _ ↦ p ∷ q ∷ qs
]

-- `sort` on paths.
unfoldable pub sort_paths : List (List ℕ) → List (List ℕ)
unfolding insert_path
sort_paths [] = []
sort_paths (p ∷ ps) = insert_path p (sort_paths ps)
