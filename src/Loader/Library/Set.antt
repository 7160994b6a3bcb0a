-- ===== src/Loader/Library/Set.antt =====
-- `GuestLibrarySet` of crates/compatra-runtime/src/macos/loader/guest_libraries.rs: the libraries in
-- the order in which they were loaded, and every name under which one of their symbols is found.
use compatra.Common.{
  ℕ, ◌+◌, ◌%◌, ◌^◌, List, [], ◌∷◌, ◌++◌, Option, none, some, get_or, Bool, true, false, max, length,
  get_elem?, bytes_eq,
}
use compatra.Common.HashMap.{lookup}
use compatra.Common.BTree.{BTreeMap}
use compatra.Common.BTree
use compatra.Loader.Library.Keys.{guest_library_symbol_lookup_keys}
use compatra.Loader.Library.Image.{GuestLibraryImage, export_count}
use compatra.Loader.Library.Reference.{matches_reference}

pub record GuestLibrarySymbol : Type 0 where
  pub library_index : ℕ
  pub library_path : List ℕ
  pub install_name : Option (List ℕ)
  pub symbol : List ℕ
  pub file_vmaddr : ℕ
  pub address : ℕ

pub record GuestLibrarySet : Type 0 where
  pub images : List GuestLibraryImage
  pub exports : BTreeMap (List GuestLibrarySymbol)

abbrev pub empty_set : GuestLibrarySet
empty_set = record { images = []; exports = [] }

-- `exports.entry(alias).or_default().push(resolved)` for each alias.
unfoldable pub push_aliases :
    GuestLibrarySymbol
    → List (List ℕ)
    → BTreeMap (List GuestLibrarySymbol)
    → BTreeMap (List GuestLibrarySymbol)
unfolding lookup BTree.insert
push_aliases resolved [] exports = exports
push_aliases resolved (alias ∷ aliases) exports =
    push_aliases resolved aliases
      (BTree.insert alias (get_or (lookup alias exports) [] ++ (resolved ∷ [])) exports)

abbrev pub symbol_of : GuestLibraryImage → ℕ → List ℕ → ℕ → GuestLibrarySymbol
symbol_of image library_index symbol file_vmaddr = record {
  library_index = library_index;
  library_path = image.path;
  install_name = image.install_name;
  symbol = symbol;
  file_vmaddr = file_vmaddr;
  address = (file_vmaddr + image.slide) % 2 ^ 64;
}

unfoldable pub push_exports :
    GuestLibraryImage
    → ℕ
    → BTreeMap ℕ
    → BTreeMap (List GuestLibrarySymbol)
    → BTreeMap (List GuestLibrarySymbol)
unfolding push_aliases guest_library_symbol_lookup_keys
push_exports image library_index [] exports = exports
push_exports image library_index ((symbol, file_vmaddr) ∷ symbols) exports =
    push_exports image library_index symbols (
      push_aliases (symbol_of image library_index symbol file_vmaddr)
        (guest_library_symbol_lookup_keys symbol) exports)

unfoldable pub push : GuestLibrarySet → GuestLibraryImage → GuestLibrarySet
unfolding push_exports
push set image = record {
  images = set.images ++ (image ∷ []);
  exports = push_exports image (length set.images) image.exports set.exports;
}

abbrev pub image_count : GuestLibrarySet → ℕ
image_count set = length set.images

unfoldable pub sum_exports : List GuestLibraryImage → ℕ
sum_exports [] = 0
sum_exports (image ∷ images) = export_count image + sum_exports images

unfoldable pub set_export_count : GuestLibrarySet → ℕ
unfolding sum_exports
set_export_count set = sum_exports set.images

unfoldable pub last_end : List GuestLibraryImage → ℕ
last_end [] = 0
last_end (image ∷ images) = max image.mapped_range.end (last_end images)

unfoldable pub set_mapped_end : GuestLibrarySet → ℕ
unfolding last_end
set_mapped_end set = last_end set.images

-- `exports.get(key)` and then `first()`.
abbrev pub first_symbol : Option (List GuestLibrarySymbol) → Option GuestLibrarySymbol
first_symbol none = none
first_symbol (some []) = none
first_symbol (some (symbol ∷ symbols)) = some symbol

unfoldable pub find_symbol :
    BTreeMap (List GuestLibrarySymbol) → List (List ℕ) → Option GuestLibrarySymbol
unfolding lookup
find_symbol exports [] = none
find_symbol exports (key ∷ keys) = elim (first_symbol (lookup key exports)) [
  | some symbol ↦ some symbol
  | none ↦ find_symbol exports keys
]

unfoldable pub resolve_symbol : GuestLibrarySet → List ℕ → Option GuestLibrarySymbol
unfolding find_symbol guest_library_symbol_lookup_keys
resolve_symbol set symbol = find_symbol set.exports (guest_library_symbol_lookup_keys symbol)

abbrev pub is_from : List GuestLibraryImage → List ℕ → GuestLibrarySymbol → Bool
is_from images reference symbol = elim (get_elem? images symbol.library_index) [
  | none ↦ false
  | some image ↦ matches_reference image reference
]

unfoldable pub first_from :
    List GuestLibraryImage → List ℕ → List GuestLibrarySymbol → Option GuestLibrarySymbol
unfolding matches_reference
first_from images reference [] = none
first_from images reference (symbol ∷ symbols) = elim (is_from images reference symbol) [
  | true ↦ some symbol
  | false ↦ first_from images reference symbols
]

unfoldable pub find_symbol_from :
    GuestLibrarySet → List ℕ → List (List ℕ) → Option GuestLibrarySymbol
unfolding first_from lookup
find_symbol_from set reference [] = none
find_symbol_from set reference (key ∷ keys) =
    elim (first_from set.images reference (get_or (lookup key set.exports) [])) [
      | some symbol ↦ some symbol
      | none ↦ find_symbol_from set reference keys
    ]

unfoldable pub resolve_symbol_for_library_reference :
    GuestLibrarySet → Option (List ℕ) → List ℕ → Option GuestLibrarySymbol
unfolding resolve_symbol find_symbol_from guest_library_symbol_lookup_keys
resolve_symbol_for_library_reference set none symbol = resolve_symbol set symbol
resolve_symbol_for_library_reference set (some reference) symbol =
    find_symbol_from set reference (guest_library_symbol_lookup_keys symbol)
