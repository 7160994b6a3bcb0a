-- ===== src/Guest/Reading.antt =====
-- What a guest program reads from a file of the host that it opened, with
-- crates/compatra-runtime/src/macos/guest_model/files.rs.
use compatra.Common.{
  ℕ, zero, suc, ◌+◌, ◌-◌, ◌≤◌, ◌≡◌, refl, sym, ◌∙◌, ap, List, [], ◌∷◌, ◌++◌, some, get_or, false,
  leb, min, max, length, take, drop, length-drop, u64_max, saturating_add, bytes_beq, nat_eq,
  pair_eq, arith,
}
use compatra.Common.HashMap.{lookup, insert, lookup-insert_self}
use compatra.Common.Result.{ok}
use compatra.Guest.Files.{
  GuestOpenTarget, SyntheticGuestFile, SyntheticGuestFileKind, GuestFileTable, HostFiles,
  dev_urandom, resolve_guest_path, add_file, file_of, open_host_path, open_guest_path_with_flags,
}
use compatra.Guest.Access.{read_chunk, read_guest_file, read_all}

unfoldable pub sum : List ℕ → ℕ
sum [] = 0
sum (n ∷ ns) = n + sum ns

module _ {A : Type 0} where
  drop_empty : (n : ℕ) → drop {A = A} n [] ≡ []
  drop_empty zero = refl
  drop_empty (suc n) = refl

  take_empty : (n : ℕ) → take {A = A} n [] ≡ []
  take_empty zero = refl
  take_empty (suc n) = refl

  drop-drop : (a b n : ℕ) (xs : List A) → n ≡ a + b → drop n xs ≡ drop b (drop a xs)
  drop-drop zero b n xs h = ap (λ (k : ℕ). drop k xs) (omega arith)
  drop-drop (suc a) b zero xs h = absurd (omega arith)
  drop-drop (suc a) b (suc n) [] h = sym (drop_empty b)
  drop-drop (suc a) b (suc n) (x ∷ xs) h = drop-drop a b n xs (omega arith)

  take-take : (a b n : ℕ) (xs : List A) → n ≡ a + b → take a xs ++ take b (drop a xs) ≡ take n xs
  take-take zero b n xs h = ap (λ (k : ℕ). take k xs) (omega arith)
  take-take (suc a) b zero xs h = absurd (omega arith)
  take-take (suc a) b (suc n) [] h = take_empty b
  take-take (suc a) b (suc n) (x ∷ xs) h = ap (◌∷◌ x) (take-take a b n xs (omega arith))

  drop-min : (n m : ℕ) (xs : List A) → m ≡ length xs → drop (min n m) xs ≡ drop n xs
  drop-min n m [] h = drop_empty (min n m) ∙ sym (drop_empty n)
  drop-min n zero (x ∷ xs) h = absurd (omega arith)
  drop-min zero (suc m) (x ∷ xs) h =
      let e : min 0 (suc m) ≡ 0 = omega arith in ap (λ (k : ℕ). drop k (x ∷ xs)) e
  drop-min (suc n) (suc m) (x ∷ xs) h =
      let e : min (suc n) (suc m) ≡ suc (min n m) = omega arith in
      ap (λ (k : ℕ). drop k (x ∷ xs)) e ∙ drop-min n m xs (omega arith)

  take-min : (n m k : ℕ) (xs : List A) → m ≡ length xs → k ≡ min n m → take k xs ≡ take n xs
  take-min n m k [] h e = take_empty k ∙ sym (take_empty n)
  take-min n zero k (x ∷ xs) h e = absurd (omega arith)
  take-min zero (suc m) zero (x ∷ xs) h e = refl
  take-min zero (suc m) (suc k) (x ∷ xs) h e = absurd (omega arith)
  take-min (suc n) (suc m) zero (x ∷ xs) h e = absurd (omega arith)
  take-min (suc n) (suc m) (suc k) (x ∷ xs) h e =
      ap (◌∷◌ x) (take-min n m k xs (omega arith) (omega arith))

abbrev next_offset : List ℕ → ℕ → ℕ → ℕ
next_offset contents offset count =
    min (saturating_add (min offset (length contents)) count) (length contents)

chunk_lem :
    (contents : List ℕ) (offset count : ℕ)
    → length contents ≤ u64_max
    → (read_chunk (SyntheticGuestFileKind.host_bytes contents) offset count).0
      ≡ take count (drop offset contents)
unfolding read_chunk
chunk_lem contents offset count small =
    let start = min offset (length contents) in
    take-min count (length (drop start contents)) (next_offset contents offset count - start)
      (drop start contents) refl (ground (arith, length-drop start contents))
    ∙ ap (take count) (drop-min offset (length contents) contents refl)

drop-next_offset :
    (contents : List ℕ) (offset count : ℕ)
    → length contents ≤ u64_max
    → drop (next_offset contents offset count) contents ≡ drop count (drop offset contents)
drop-next_offset contents offset count small =
    let start = min offset (length contents) in
    let e : next_offset contents offset count ≡ min (start + count) (length contents) =
      ground arith in
    ap (λ (k : ℕ). drop k contents) e
    ∙ (drop-min (start + count) (length contents) contents refl
        ∙ (drop-drop start count (start + count) contents refl
            ∙ ap (drop count) (drop-min offset (length contents) contents refl)))

-- The descriptor stands at an offset of a file with these contents.
record StandsAt (t : GuestFileTable) (pid fd file_id : ℕ) (contents : List ℕ) (offset : ℕ)
    : Type 0 where
  file : SyntheticGuestFile
  opened : lookup file_id t.files ≡ some file
  kind : file.kind ≡ SyntheticGuestFileKind.host_bytes contents
  at : get_or (lookup (pid, fd) t.file_offsets) 0 ≡ offset

module _ (pid fd file_id : ℕ) (contents : List ℕ) (small : length contents ≤ u64_max) where
  abbrev moved : GuestFileTable → ℕ → GuestFileTable
  moved t offset = record t { file_offsets = insert (pid, fd) offset t.file_offsets }

  moved-StandsAt :
      (t : GuestFileTable) (offset offset' : ℕ)
      → StandsAt t pid fd file_id contents offset
      → StandsAt (moved t offset') pid fd file_id contents offset'
  moved-StandsAt t offset offset' s = record {
    file = s.file;
    opened = s.opened;
    kind = s.kind;
    at = rw (lookup-insert_self (pid, fd) offset' t.file_offsets) refl;
  }

  read_once :
      (t : GuestFileTable) (offset count : ℕ)
      → StandsAt t pid fd file_id contents offset
      → read_guest_file t pid fd file_id count ≡ (
        moved t (next_offset contents offset count),
        some (
          take count (drop offset contents),
          leb (length contents) (next_offset contents offset count),
        ),
      )
  unfolding read_guest_file read_chunk
  read_once t offset count s =
      rw (read_guest_file, s.opened, s.kind, s.at)
        (ap
          (λ (chunk : List ℕ). (
            moved t (next_offset contents offset count),
            some (chunk, leb (length contents) (next_offset contents offset count)),
          ))
          (chunk_lem contents offset count small))

  reads :
      (counts : List ℕ) (t : GuestFileTable) (offset : ℕ)
      → StandsAt t pid fd file_id contents offset
      → (read_all t pid fd file_id counts).1 ≡ take (sum counts) (drop offset contents)
  unfolding read_all sum
  reads [] t offset s = refl
  reads (count ∷ counts) t offset s =
      let next = next_offset contents offset count in
      rw (read_all, read_once t offset count s)
        (ap (λ rest. take count (drop offset contents) ++ rest)
            (reads counts (moved t next) next (moved-StandsAt t offset next s)
              ∙ ap (take (sum counts)) (drop-next_offset contents offset count small))
          ∙ take-take count (sum counts) (count + sum counts) (drop offset contents) refl)

add_file-StandsAt :
    (t : GuestFileTable) (pid fd : ℕ) (raw resolved contents : List ℕ)
    → StandsAt
        (add_file t pid fd (file_of raw resolved (SyntheticGuestFileKind.host_bytes contents))).0
        pid
        fd
        (max t.next_file_id 1)
        contents
        0
unfolding add_file
add_file-StandsAt t pid fd raw resolved contents = record {
  file = file_of raw resolved (SyntheticGuestFileKind.host_bytes contents);
  opened = lookup-insert_self (max t.next_file_id 1) _ t.files;
  kind = refl;
  at = rw (lookup-insert_self (pid, fd) 0 t.file_offsets) refl;
}

-- A file of the host with fewer than 2 ^ 64 bytes that is opened under a path other than /dev/urandom and
-- then read through the descriptor, by any counts, gives its bytes from the first on, as many as the
-- counts add up to or as the file has.
pub read_all-open_guest_path_with_flags :
    (host : HostFiles) (t : GuestFileTable) (pid fd flags len : ℕ) (raw_path contents : List ℕ)
    (counts : List ℕ)
    → bytes_beq raw_path dev_urandom ≡ false
    → host.metadata (resolve_guest_path t.guest_fs_base raw_path)
      ≡ some (record { is_dir = false; len = len })
    → host.read (resolve_guest_path t.guest_fs_base raw_path) ≡ some contents
    → length contents ≤ u64_max
    → (file_id : ℕ) × ((open_guest_path_with_flags host t pid fd raw_path flags).1
        ≡ ok (GuestOpenTarget.file file_id, resolve_guest_path t.guest_fs_base raw_path))
      × ((read_all
            (open_guest_path_with_flags host t pid fd raw_path flags).0
            pid
            fd
            file_id
            counts).1
          ≡ take (sum counts) contents)
unfolding open_guest_path_with_flags
read_all-open_guest_path_with_flags host t pid fd flags len raw_path contents counts other meta read
      small =
    let resolved = resolve_guest_path t.guest_fs_base raw_path in
    let opened : open_guest_path_with_flags host t pid fd raw_path flags
        ≡ add_file t pid fd
            (file_of raw_path resolved (SyntheticGuestFileKind.host_bytes contents)) =
      rw (open_guest_path_with_flags, other, open_host_path, meta, read) refl in
    (
      max t.next_file_id 1,
      rw (opened, add_file) refl,
      rw opened (
          reads pid fd (max t.next_file_id 1) contents small counts _ 0
            (add_file-StandsAt t pid fd raw_path resolved contents)),
    )
