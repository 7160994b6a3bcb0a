-- ===== src/Loader/Images/Examples.antt =====
-- A program and two libraries in the registry of
-- crates/compatra-runtime/src/macos/loader/guest_images.rs: runs of it, and the theorems applied.
use compatra.Common.{ℕ, ◌≡◌, ◌≤◌, refl, List, [], ◌∷◌, some, arith}
use compatra.Loader.Library.Range.{macho_vm_range}
use compatra.Loader.Library.Examples.{
  library_binary, library_range, small_host, two_paths, two_libraries, two_libraries_loaded,
}
use compatra.Loader.Images.Registry.{
  GuestImageKind, GuestImageAddress, GuestImageRegistry, from_loaded_images, image_count,
  library_count, mapped_start, mapped_end, resolve_runtime_address, resolve_file_address,
}
use compatra.Loader.Images.Loaded.{
  resolve_file_address-resolve_runtime_address, resolve_runtime_address-resolve_file_address,
}

abbrev main_path : List ℕ
main_path = 109 ∷ []

abbrev program : GuestImageRegistry
program = from_loaded_images main_path library_binary 0x10000000 two_libraries

three_images : (image_count program ≡ 3) × (library_count program ≡ 2)
unfolding from_loaded_images library_count
three_images = (refl, refl)

spanned : (mapped_start program ≡ some 0x10001000) × (mapped_end program ≡ some 0x20021000)
unfolding from_loaded_images mapped_start mapped_end
spanned = (refl, refl)

ranged : macho_vm_range library_binary ≡ some library_range
unfolding macho_vm_range
ranged = refl

abbrev address_in_b : GuestImageAddress
address_in_b = record {
  image_index = 2;
  kind = GuestImageKind.library;
  path = 98 ∷ [];
  install_name = some (98 ∷ []);
  file_vmaddr = 0x1080;
  runtime_address = 0x20020080;
}

resolved : resolve_runtime_address program 0x20020080 ≡ some address_in_b
unfolding from_loaded_images resolve_runtime_address
resolved = refl

resolve_file_address-resolve_runtime_address_example :
    resolve_file_address program 2 0x1080 ≡ some 0x20020080
resolve_file_address-resolve_runtime_address_example =
    resolve_file_address-resolve_runtime_address small_host two_paths 0x20000000 two_libraries
      main_path library_binary 0x10000000 library_range two_libraries_loaded (omega arith) ranged
      (omega arith) 0x20020080 address_in_b resolved

placed : resolve_file_address program 0 0x1234 ≡ some 0x10001234
unfolding from_loaded_images resolve_file_address
placed = refl

resolve_runtime_address-resolve_file_address_example :
    (x : GuestImageAddress) × (resolve_runtime_address program 0x10001234 ≡ some x)
    × (x.image_index ≤ 0)
resolve_runtime_address-resolve_file_address_example =
    resolve_runtime_address-resolve_file_address small_host two_paths 0x20000000 two_libraries
      main_path library_binary 0x10000000 library_range two_libraries_loaded (omega arith) ranged
      (omega arith) 0 0x1234 0x10001234 placed
