-- ===== src/Guest/Backing.antt =====
-- What the descriptors of crates/compatra-runtime/src/macos/arch_arm64/runtime.rs refer to.
use compatra.Common.{
  ℕ, ◌≡◌, inl, inr, Option, none, some, Bool, true, false, ◌==◌, if◌then◌else◌, is_some,
  Option-cases, nat_eq, pair_eq, arith,
}
use compatra.Common.HashMap.{lookup, lookup-insert, lookup-remove}
use compatra.Guest.Os.{SyntheticPipe, SyntheticFdTarget, Arm64SyntheticOsRuntime}
use compatra.Guest.Descriptors.{
  has_pipe_endpoint_ref, settle_pipe, without_reader, without_writer, close_target,
}

abbrev pub reads : Option SyntheticPipe → Bool
reads none = false
reads (some p) = p.read_open

abbrev pub writes : Option SyntheticPipe → Bool
writes none = false
writes (some p) = p.write_open

-- The file or the directory is in the table, or that end of the pipe is open.
abbrev pub is_backed : Arm64SyntheticOsRuntime → SyntheticFdTarget → Bool
is_backed os (SyntheticFdTarget.pipe_read pipe_id) = reads (lookup pipe_id os.pipes)
is_backed os (SyntheticFdTarget.pipe_write pipe_id) = writes (lookup pipe_id os.pipes)
is_backed os (SyntheticFdTarget.file file_id) = is_some (lookup file_id os.guest_files.files)
is_backed os (SyntheticFdTarget.directory dir_id) =
    is_some (lookup dir_id os.guest_files.directories)

module _ (os : Arm64SyntheticOsRuntime) (pid fd i j : ℕ) where
  pub kept_file :
      is_backed os (SyntheticFdTarget.file j) ≡ true
      → has_pipe_endpoint_ref os pid fd (SyntheticFdTarget.file j) ≡ true
      → is_backed (close_target os pid fd (SyntheticFdTarget.file i)).0 (SyntheticFdTarget.file j)
        ≡ true
  unfolding close_target
  kept_file b h = ground (arith, lookup-remove j i os.guest_files.files)

  pub kept_directory :
      is_backed os (SyntheticFdTarget.directory j) ≡ true
      → has_pipe_endpoint_ref os pid fd (SyntheticFdTarget.directory j) ≡ true
      → is_backed
          (close_target os pid fd (SyntheticFdTarget.directory i)).0
          (SyntheticFdTarget.directory j)
        ≡ true
  unfolding close_target
  kept_directory b h = ground (arith, lookup-remove j i os.guest_files.directories)

  -- The pipe that a closed end leaves, in the four cases of the closed end and of the end that is kept.
  pub settled :
      (p : SyntheticPipe)
      → (reads (lookup j (settle_pipe os i p).0.pipes)
          ≡ (if i == j then p.read_open else reads (lookup j os.pipes)))
        × (writes (lookup j (settle_pipe os i p).0.pipes)
            ≡ (if i == j then p.write_open else writes (lookup j os.pipes)))
        × ((settle_pipe os i p).0.guest_files ≡ os.guest_files)
  unfolding settle_pipe
  settled p = (
    ground (arith, lookup-remove j i os.pipes, lookup-insert j i p os.pipes),
    ground (arith, lookup-remove j i os.pipes, lookup-insert j i p os.pipes),
    ground arith,
  )

  pub kept_reader_read :
      is_backed os (SyntheticFdTarget.pipe_read j) ≡ true
      → has_pipe_endpoint_ref os pid fd (SyntheticFdTarget.pipe_read j) ≡ true
      → is_backed
          (close_target os pid fd (SyntheticFdTarget.pipe_read i)).0
          (SyntheticFdTarget.pipe_read j)
        ≡ true
  unfolding close_target
  kept_reader_read b h = elim (Option-cases (lookup i os.pipes)) [
    | inl e ↦ rw (close_target, e) b
    | inr (p, e) ↦
        rw
          (
            close_target,
            e,
            (settled (
                without_reader (has_pipe_endpoint_ref os pid fd (SyntheticFdTarget.pipe_read i)) fd
                  p)).0,
          )
          (ground (arith, e))
  ]

  pub kept_writer_read :
      is_backed os (SyntheticFdTarget.pipe_write j) ≡ true
      → is_backed
          (close_target os pid fd (SyntheticFdTarget.pipe_read i)).0
          (SyntheticFdTarget.pipe_write j)
        ≡ true
  unfolding close_target
  kept_writer_read b = elim (Option-cases (lookup i os.pipes)) [
    | inl e ↦ rw (close_target, e) b
    | inr (p, e) ↦
        rw
          (
            close_target,
            e,
            (settled (
                without_reader (has_pipe_endpoint_ref os pid fd (SyntheticFdTarget.pipe_read i)) fd
                  p)).1,
          )
          (ground (arith, e))
  ]

  pub kept_writer_write :
      is_backed os (SyntheticFdTarget.pipe_write j) ≡ true
      → has_pipe_endpoint_ref os pid fd (SyntheticFdTarget.pipe_write j) ≡ true
      → is_backed
          (close_target os pid fd (SyntheticFdTarget.pipe_write i)).0
          (SyntheticFdTarget.pipe_write j)
        ≡ true
  unfolding close_target
  kept_writer_write b h = elim (Option-cases (lookup i os.pipes)) [
    | inl e ↦ rw (close_target, e) b
    | inr (p, e) ↦
        rw
          (
            close_target,
            e,
            (settled (
                without_writer (has_pipe_endpoint_ref os pid fd (SyntheticFdTarget.pipe_write i)) fd
                  p)).1,
          )
          (ground (arith, e))
  ]

  pub kept_reader_write :
      is_backed os (SyntheticFdTarget.pipe_read j) ≡ true
      → is_backed
          (close_target os pid fd (SyntheticFdTarget.pipe_write i)).0
          (SyntheticFdTarget.pipe_read j)
        ≡ true
  unfolding close_target
  kept_reader_write b = elim (Option-cases (lookup i os.pipes)) [
    | inl e ↦ rw (close_target, e) b
    | inr (p, e) ↦
        rw
          (
            close_target,
            e,
            (settled (
                without_writer (has_pipe_endpoint_ref os pid fd (SyntheticFdTarget.pipe_write i)) fd
                  p)).0,
          )
          (ground (arith, e))
  ]
