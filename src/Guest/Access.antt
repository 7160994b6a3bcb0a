-- ===== src/Guest/Access.antt =====
-- Reads of guest files and directories in crates/compatra-runtime/src/macos/guest_model/files.rs.
use Prim.Native.Nat.{bit_xor}
use compatra.Common.{
  ℕ, zero, suc, ◌+◌, ◌-◌, ◌*◌, ◌/◌, ◌%◌, ◌^◌, List, [], ◌∷◌, ◌++◌, Option, none, some, get_or, Bool,
  true, false, leb, if◌then◌else◌, min, length, get_elem?, take, drop, saturating_add, bytes_beq,
  nat_eq, pair_eq,
}
use compatra.Common.HashMap.{lookup, insert}
use compatra.Common.Result.{Result, ok, err}
use compatra.Guest.Files.{
  SyntheticGuestFile, SyntheticGuestFileKind, SyntheticGuestDirectory, GuestDirectoryEntry,
  GuestFileTable, HostFiles, dev_urandom, resolve_guest_path,
}

-- The three shifts of a 64-bit word.
unfoldable pub scramble : ℕ → ℕ
scramble s =
    let a = bit_xor s (s / 2 ^ 12) in
    let b = bit_xor a (a * 2 ^ 25 % 2 ^ 64) in bit_xor b (b / 2 ^ 27)

unfoldable pub random_bytes : ℕ → ℕ → List ℕ
unfolding scramble
random_bytes zero state = []
random_bytes (suc n) state =
    (scramble state * 0x2545F4914F6CDD1D % 256) ∷ random_bytes n (scramble state)

abbrev pub seed : ℕ → ℕ
seed offset = (offset * 0x9E3779B97F4A7C15 + 0xA5A55A5AC3C33C3C) % 2 ^ 64

-- A chunk, the next offset, and whether the end of the file is reached.
unfoldable pub read_chunk : SyntheticGuestFileKind → ℕ → ℕ → List ℕ × ℕ × Bool
unfolding random_bytes
read_chunk (SyntheticGuestFileKind.host_bytes contents) offset count =
    let start = min offset (length contents) in
    let end = min (saturating_add start count) (length contents) in
    (take (end - start) (drop start contents), end, leb (length contents) end)
read_chunk SyntheticGuestFileKind.urandom offset count =
    (random_bytes count (seed offset), saturating_add offset count, false)

unfoldable pub read_guest_file :
    GuestFileTable → ℕ → ℕ → ℕ → ℕ → GuestFileTable × Option (List ℕ × Bool)
unfolding lookup insert read_chunk
read_guest_file t pid fd file_id count = elim (lookup file_id t.files) [
  | none ↦ (t, none)
  | some f ↦
      let chunk = read_chunk f.kind (get_or (lookup (pid, fd) t.file_offsets) 0) count in
      (record t { file_offsets = insert (pid, fd) chunk.1 t.file_offsets }, some (chunk.0, chunk.2))
]

abbrev pub kind_size : SyntheticGuestFileKind → ℕ
kind_size (SyntheticGuestFileKind.host_bytes contents) = length contents
kind_size SyntheticGuestFileKind.urandom = 0

unfoldable pub find_file : List ℕ → List SyntheticGuestFile → Option SyntheticGuestFile
find_file raw_path [] = none
find_file raw_path (f ∷ files) = elim (bytes_beq f.raw_path raw_path) [
  | true ↦ some f
  | false ↦ find_file raw_path files
]

unfoldable pub find_directory :
    List ℕ → List SyntheticGuestDirectory → Option SyntheticGuestDirectory
find_directory raw_path [] = none
find_directory raw_path (d ∷ directories) = elim (bytes_beq d.raw_path raw_path) [
  | true ↦ some d
  | false ↦ find_directory raw_path directories
]

abbrev pub stat_host : HostFiles → List ℕ → List ℕ → Result ℕ (ℕ × List ℕ)
stat_host host raw_path resolved =
    if bytes_beq raw_path dev_urandom
    then ok (0, resolved)
    else elim (host.metadata resolved) [ none ↦ err 2 | some meta ↦ ok (meta.len, resolved) ]

-- `files` and `directories` are the values of the maps, in the order in which they are iterated.
unfoldable pub stat_guest_path :
    HostFiles
    → GuestFileTable
    → List SyntheticGuestFile
    → List SyntheticGuestDirectory
    → List ℕ
    → Result ℕ (ℕ × List ℕ)
unfolding find_file find_directory resolve_guest_path
stat_guest_path host t files directories raw_path = elim (find_file raw_path files) [
  | some f ↦ ok (kind_size f.kind, f.resolved_path)
  | none ↦ elim (find_directory raw_path directories) [
    | some d ↦ ok (0, d.resolved_path)
    | none ↦ stat_host host raw_path (resolve_guest_path t.guest_fs_base raw_path)
  ]
]

unfoldable pub fstat_guest_file : GuestFileTable → ℕ → Result ℕ ℕ
unfolding lookup
fstat_guest_file t file_id = elim (lookup file_id t.files) [
  | none ↦ err 9
  | some f ↦ ok (kind_size f.kind)
]

abbrev pub entry_at : Option SyntheticGuestDirectory → ℕ → Option GuestDirectoryEntry
entry_at none offset = none
entry_at (some d) offset = get_elem? d.entries offset

unfoldable pub read_guest_directory_entry :
    GuestFileTable → ℕ → ℕ → ℕ → GuestFileTable × Option GuestDirectoryEntry
unfolding lookup insert
read_guest_directory_entry t pid fd dir_id =
    let offset = get_or (lookup (pid, fd) t.directory_offsets) 0 in
    elim (entry_at (lookup dir_id t.directories) offset) [
      | none ↦ (t, none)
      | some entry ↦ (
        record t {
          directory_offsets = insert (pid, fd) (saturating_add offset 1) t.directory_offsets;
        },
        some entry,
      )
    ]

abbrev pub chunk_of : Option (List ℕ × Bool) → List ℕ
chunk_of none = []
chunk_of (some (chunk, eof)) = chunk

-- Reads of one descriptor, one after the other: their chunks together.
unfoldable pub read_all : GuestFileTable → ℕ → ℕ → ℕ → List ℕ → GuestFileTable × List ℕ
unfolding read_guest_file
read_all t pid fd file_id [] = (t, [])
read_all t pid fd file_id (count ∷ counts) =
    let now = read_guest_file t pid fd file_id count in
    let later = read_all now.0 pid fd file_id counts in (later.0, chunk_of now.1 ++ later.1)
