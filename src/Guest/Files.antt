-- ===== src/Guest/Files.antt =====
-- The guest's files and directories: crates/compatra-runtime/src/macos/guest_model/files.rs. The files of
-- the host are a parameter; a path is the bytes of a UTF-8 string.
use Prim.Native.Nat.{Ordering}
use compatra.Common.{
  ℕ, ◌/◌, ◌%◌, ◌^◌, List, [], ◌∷◌, Option, none, some, Bool, true, false, ◌==◌, ◌&&◌, if◌then◌else◌,
  max, saturating_add, bytes_beq, nat_eq, pair_eq,
}
use compatra.Common.HashMap.{HashMap, insert}
use compatra.Common.BTree.{bytes_compare}
use compatra.Common.FilePath.{join}
use compatra.Common.Result.{Result, ok, err}

pub data GuestOpenTarget : Type 0 where
  file directory : ℕ → GuestOpenTarget

pub data SyntheticGuestFileKind : Type 0 where
  host_bytes : List ℕ → SyntheticGuestFileKind
  urandom : SyntheticGuestFileKind

pub record SyntheticGuestFile : Type 0 where
  pub raw_path : List ℕ
  pub resolved_path : List ℕ
  pub kind : SyntheticGuestFileKind

pub record GuestDirectoryEntry : Type 0 where
  pub name : List ℕ
  pub is_dir : Bool
  pub size : ℕ

pub record SyntheticGuestDirectory : Type 0 where
  pub raw_path : List ℕ
  pub resolved_path : List ℕ
  pub entries : List GuestDirectoryEntry

pub record GuestPathPolicy : Type 0 where
  pub materialize_missing_paths : Bool
  pub create_missing_files : Bool
  pub synthetic_file_size : ℕ

pub record GuestFileTable : Type 0 where
  pub next_file_id : ℕ
  pub next_dir_id : ℕ
  pub guest_fs_base : List ℕ
  pub policy : GuestPathPolicy
  pub files : HashMap ℕ SyntheticGuestFile
  pub directories : HashMap ℕ SyntheticGuestDirectory
  pub file_offsets : HashMap (ℕ × ℕ) ℕ
  pub directory_offsets : HashMap (ℕ × ℕ) ℕ

abbrev pub default_policy : GuestPathPolicy
default_policy = record {
  materialize_missing_paths = false;
  create_missing_files = true;
  synthetic_file_size = 0;
}

unfoldable pub with_policy : List ℕ → GuestPathPolicy → GuestFileTable
with_policy guest_fs_base policy = record {
  next_file_id = 1;
  next_dir_id = 1;
  guest_fs_base = guest_fs_base;
  policy = policy;
  files = [];
  directories = [];
  file_offsets = [];
  directory_offsets = [];
}

pub record Metadata : Type 0 where
  pub is_dir : Bool
  pub len : ℕ

-- `std::fs` on the host. An entry of a directory that cannot be read, has no UTF-8 name or no metadata
-- is none.
pub record HostFiles : Type 0 where
  pub metadata : List ℕ → Option Metadata
  pub read : List ℕ → Option (List ℕ)
  pub read_dir : List ℕ → Option (List (Option (List ℕ × Metadata)))

-- "/dev/urandom".
abbrev pub dev_urandom : List ℕ
dev_urandom = b'/' ∷ b'd' ∷ b'e' ∷ b'v' ∷ b'/' ∷ b'u' ∷ b'r' ∷ b'a' ∷ b'n' ∷ b'd' ∷ b'o' ∷ b'm' ∷ []

unfoldable pub trim_slashes : List ℕ → List ℕ
trim_slashes [] = []
trim_slashes (c ∷ cs) = let rest = trim_slashes cs in if c == b'/' then rest else c ∷ cs

unfoldable pub resolve_guest_path : List ℕ → List ℕ → List ℕ
unfolding trim_slashes join
resolve_guest_path base raw_path = join base (trim_slashes raw_path)

-- The file behind the next id, and its offset for the descriptor.
unfoldable pub add_file :
    GuestFileTable
    → ℕ
    → ℕ
    → SyntheticGuestFile
    → GuestFileTable × Result ℕ (GuestOpenTarget × List ℕ)
unfolding insert
add_file t pid fd f =
    let file_id = max t.next_file_id 1 in
    (
      record t {
        next_file_id = saturating_add file_id 1;
        files = insert file_id f t.files;
        file_offsets = insert (pid, fd) 0 t.file_offsets;
      },
      ok (GuestOpenTarget.file file_id, f.resolved_path),
    )

-- Entries by their names; those of one name keep their order.
unfoldable pub insert_entry :
    GuestDirectoryEntry → List GuestDirectoryEntry → List GuestDirectoryEntry
insert_entry e [] = e ∷ []
insert_entry e (f ∷ entries) = elim (bytes_compare e.name f.name) [
  | Ordering.gt ↦ f ∷ insert_entry e entries
  | _ ↦ e ∷ f ∷ entries
]

unfoldable pub sort_entries : List GuestDirectoryEntry → List GuestDirectoryEntry
unfolding insert_entry
sort_entries [] = []
sort_entries (e ∷ entries) = insert_entry e (sort_entries entries)

unfoldable pub host_entries : List (Option (List ℕ × Metadata)) → List GuestDirectoryEntry
host_entries [] = []
host_entries (none ∷ entries) = host_entries entries
host_entries (some (name, meta) ∷ entries) =
    record { name = name; is_dir = meta.is_dir; size = meta.len } ∷ host_entries entries

abbrev pub dot_entry : List ℕ → GuestDirectoryEntry
dot_entry name = record { name = name; is_dir = true; size = 0 }

unfoldable pub read_directory_entries : HostFiles → List ℕ → Result ℕ (List GuestDirectoryEntry)
unfolding sort_entries host_entries
read_directory_entries host resolved = elim (host.read_dir resolved) [
  | none ↦ err 2
  | some entries ↦
      ok
        (sort_entries (dot_entry (b'.' ∷ []) ∷ dot_entry (b'.' ∷ b'.' ∷ []) ∷ host_entries entries))
]

-- The id is taken before the entries are read.
unfoldable pub open_directory :
    HostFiles
    → GuestFileTable
    → ℕ
    → ℕ
    → List ℕ
    → List ℕ
    → GuestFileTable × Result ℕ (GuestOpenTarget × List ℕ)
unfolding read_directory_entries insert
open_directory host t pid fd raw_path resolved =
    let dir_id = max t.next_dir_id 1 in
    let t' = record t { next_dir_id = saturating_add dir_id 1 } in
    elim (read_directory_entries host resolved) [
      | err e ↦ (t', err e)
      | ok entries ↦ (
        record t' {
          directories =
              insert dir_id
                (record { raw_path = raw_path; resolved_path = resolved; entries = entries })
                t.directories;
          directory_offsets = insert (pid, fd) 0 t.directory_offsets;
        },
        ok (GuestOpenTarget.directory dir_id, resolved),
      )
    ]

abbrev pub file_of : List ℕ → List ℕ → SyntheticGuestFileKind → SyntheticGuestFile
file_of raw_path resolved kind = record {
  raw_path = raw_path;
  resolved_path = resolved;
  kind = kind;
}

-- Bit 9 of the flags, GUEST_OPEN_CREATE.
abbrev pub is_creating : ℕ → Bool
is_creating flags = (flags / 2 ^ 9) % 2 == 1

unfoldable pub open_host_path :
    HostFiles
    → GuestFileTable
    → ℕ
    → ℕ
    → List ℕ
    → List ℕ
    → ℕ
    → GuestFileTable × Result ℕ (GuestOpenTarget × List ℕ)
unfolding add_file open_directory
open_host_path host t pid fd raw_path resolved flags = elim (host.metadata resolved) [
  | none ↦
      if is_creating flags && t.policy.create_missing_files
      then add_file t pid fd (file_of raw_path resolved (SyntheticGuestFileKind.host_bytes []))
      else (t, err 2)
  | some meta ↦
      if meta.is_dir
      then open_directory host t pid fd raw_path resolved
      else elim (host.read resolved) [
        | none ↦ (t, err 2)
        | some contents ↦
            add_file t pid fd
              (file_of raw_path resolved (SyntheticGuestFileKind.host_bytes contents))
      ]
]

unfoldable pub open_guest_path_with_flags :
    HostFiles
    → GuestFileTable
    → ℕ
    → ℕ
    → List ℕ
    → ℕ
    → GuestFileTable × Result ℕ (GuestOpenTarget × List ℕ)
unfolding resolve_guest_path add_file open_host_path
open_guest_path_with_flags host t pid fd raw_path flags =
    let resolved = resolve_guest_path t.guest_fs_base raw_path in
    if bytes_beq raw_path dev_urandom
    then add_file t pid fd (file_of raw_path resolved SyntheticGuestFileKind.urandom)
    else open_host_path host t pid fd raw_path resolved flags
