-- ===== src/Loader/Library/Specs.antt =====
-- `GuestLibrarySet::from_specs` of crates/compatra-runtime/src/macos/loader/guest_libraries.rs. The
-- files of the host are a parameter, and so is `MachoBinary::parse_file` on them.
use compatra.Common.{
  ℕ, List, [], ◌∷◌, Option, none, some, Bool, true, false, ◌&&◌, ◌||◌, if◌then◌else◌,
  saturating_add, bytes_beq,
}
use compatra.Common.Result.{Result, ok, err, ◌>>=◌}
use compatra.Common.FilePath.{extension, file_stem, join, same_path, sort_paths}
use compatra.Loader.Parser.Binary.{MachoBinary}
use compatra.Loader.Library.Range.{align_up}
use compatra.Loader.Library.Image.{GuestLibraryImage, LibraryError, from_binary}
use compatra.Loader.Library.Set.{GuestLibrarySet, empty_set, push}

-- What the loader asks of the host. An entry of a directory that cannot be read is none.
pub record Host : Type 0 where
  pub is_file : List ℕ → Bool
  pub is_dir : List ℕ → Bool
  pub read_dir : List ℕ → Option (List (Option (List ℕ)))
  pub parse_file : List ℕ → Result LibraryError MachoBinary

abbrev pub has_extension : List ℕ → List ℕ → Bool
has_extension wanted path = elim (extension path) [ none ↦ false | some e ↦ bytes_beq e wanted ]

-- "framework" and "dylib".
abbrev pub framework : List ℕ
framework = b'f' ∷ b'r' ∷ b'a' ∷ b'm' ∷ b'e' ∷ b'w' ∷ b'o' ∷ b'r' ∷ b'k' ∷ []

abbrev pub dylib : List ℕ
dylib = b'd' ∷ b'y' ∷ b'l' ∷ b'i' ∷ b'b' ∷ []

-- The libraries among the entries of a directory.
unfoldable pub dylibs_in :
    Host → List ℕ → List (Option (List ℕ)) → Result LibraryError (List (List ℕ))
unfolding extension
dylibs_in host dir [] = ok []
dylibs_in host dir (none ∷ entries) = err (LibraryError.unreadable_directory dir)
dylibs_in host dir (some candidate ∷ entries) = dylibs_in host dir entries >>= λ files.
    ok
      (if host.is_file candidate && has_extension dylib candidate then candidate ∷ files else files)

unfoldable pub files_of_directory : Host → List ℕ → Result LibraryError (List (List ℕ))
unfolding dylibs_in sort_paths
files_of_directory host path = elim (host.read_dir path) [
  | none ↦ err (LibraryError.unreadable_directory path)
  | some entries ↦ dylibs_in host path entries >>= λ files. ok (sort_paths files)
]

-- The binary of a framework.
abbrev pub framework_binary : Host → List ℕ → Option (List ℕ)
framework_binary host path =
    if host.is_dir path && has_extension framework path
    then (elim (file_stem path) [
      | none ↦ none
      | some stem ↦ if host.is_file (join path stem) then some (join path stem) else none
    ])
    else none

unfoldable pub expand_guest_library_spec : Host → List ℕ → Result LibraryError (List (List ℕ))
unfolding extension file_stem join files_of_directory
expand_guest_library_spec host path =
    if host.is_file path then ok (path ∷ []) else elim (framework_binary host path) [
      | some candidate ↦ ok (candidate ∷ [])
      | none ↦
          if host.is_dir path
          then files_of_directory host path
          else err (LibraryError.missing_path path)
    ]

unfoldable pub from_path : Host → List ℕ → ℕ → Result LibraryError GuestLibraryImage
unfolding from_binary
from_path host path load_base = host.parse_file path >>= λ binary. from_binary path binary load_base

abbrev pub guest_library_load_align : ℕ
guest_library_load_align = 0x10000

abbrev pub guest_library_load_gap : ℕ
guest_library_load_gap = 0x10000

-- The variables of the loop.
pub record Linking : Type 0 where
  pub set : GuestLibrarySet
  pub next_base : ℕ
  pub seen : List (List ℕ)

unfoldable pub is_seen : List ℕ → List (List ℕ) → Bool
unfolding same_path
is_seen path [] = false
is_seen path (other ∷ seen) = same_path other path || is_seen path seen

-- The base for the library behind one that ends at an address.
abbrev pub base_behind : ℕ → ℕ
base_behind end = align_up (saturating_add end guest_library_load_gap) guest_library_load_align

abbrev pub linked : Linking → List ℕ → GuestLibraryImage → Linking
linked l path image = record {
  set = push l.set image;
  next_base = base_behind image.mapped_range.end;
  seen = path ∷ l.seen;
}

unfoldable pub link_path : Host → List ℕ → Linking → Result LibraryError Linking
unfolding is_seen from_path push
link_path host path l = elim (is_seen path l.seen) [
  | true ↦ ok l
  | false ↦ from_path host path l.next_base >>= λ image. ok (linked l path image)
]

unfoldable pub link_paths : Host → List (List ℕ) → Linking → Result LibraryError Linking
unfolding link_path
link_paths host [] l = ok l
link_paths host (path ∷ paths) l = link_path host path l >>= λ l'. link_paths host paths l'

unfoldable pub link_specs : Host → List (List ℕ) → Linking → Result LibraryError Linking
unfolding expand_guest_library_spec link_paths
link_specs host [] l = ok l
link_specs host (spec ∷ specs) l = expand_guest_library_spec host spec >>= λ paths.
    link_paths host paths l >>= λ l'. link_specs host specs l'

abbrev pub no_libraries : ℕ → Linking
no_libraries load_base = record {
  set = empty_set;
  next_base = align_up load_base guest_library_load_align;
  seen = [];
}

unfoldable pub from_specs : Host → List (List ℕ) → ℕ → Result LibraryError GuestLibrarySet
unfolding link_specs
from_specs host specs load_base = link_specs host specs (no_libraries load_base) >>= λ l. ok l.set
