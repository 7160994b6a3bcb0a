-- ===== src/Guest/Live.antt =====
-- No descriptor of crates/compatra-runtime/src/macos/arch_arm64/runtime.rs dangles.
use compatra.Common.{
  ℕ, ◌≡◌, refl, inl, inr, [], ◌∷◌, true, ◌==◌, Bool-cases, nat_eq, pair_eq, pair_beq, arith,
}
use compatra.Common.HashMap.{HashMap, remove}
use compatra.Common.Values.{AllValues, AllValues-map}
use compatra.Guest.Os.{SyntheticFdTarget, Arm64SyntheticOsRuntime, target_beq}
use compatra.Guest.Descriptors.{has_process_ref, has_global_ref}
use compatra.Guest.Backing.{is_backed}

target_beq_refl : (t : SyntheticFdTarget) → target_beq t t ≡ true
target_beq_refl (SyntheticFdTarget.pipe_read a) = ground arith
target_beq_refl (SyntheticFdTarget.pipe_write a) = ground arith
target_beq_refl (SyntheticFdTarget.file a) = ground arith
target_beq_refl (SyntheticFdTarget.directory a) = ground arith

-- What is bound once a descriptor is not is found by the search that passes it over.
pub process_refs :
    (m : HashMap (ℕ × ℕ) SyntheticFdTarget) (pid fd : ℕ)
    → AllValues (λ t. has_process_ref (remove (pid, fd) m) pid fd t ≡ true) (remove (pid, fd) m)
unfolding remove has_process_ref
process_refs [] pid fd = tt
process_refs ((key, other) ∷ m) pid fd = elim (Bool-cases (pair_beq key (pid, fd))) [
  | inl same ↦ rw (remove, same) (process_refs m pid fd)
  | inr different ↦
      rw (remove, different)
        (
          rw (different, target_beq_refl other) refl,
          AllValues-map _ _ (remove (pid, fd) m) (λ t h. rw h (ground arith))
              (process_refs m pid fd),
        )
]

pub global_refs :
    (m : HashMap ℕ SyntheticFdTarget) (fd : ℕ)
    → AllValues (λ t. has_global_ref (remove fd m) fd t ≡ true) (remove fd m)
unfolding remove has_global_ref
global_refs [] fd = tt
global_refs ((key, other) ∷ m) fd = elim (Bool-cases (key == fd)) [
  | inl same ↦ rw (remove, same) (global_refs m fd)
  | inr different ↦
      rw (remove, different)
        (
          rw (different, target_beq_refl other) refl,
          AllValues-map _ _ (remove fd m) (λ t h. rw h (ground arith)) (global_refs m fd),
        )
]

-- Every descriptor, of a process or of all of them, refers to a file or a directory of the table, or to
-- an open end of a pipe.
pub record NoDangling (os : Arm64SyntheticOsRuntime) : Type 0 where
  pub process : AllValues (λ t. is_backed os t ≡ true) os.process_fd_targets
  pub global : AllValues (λ t. is_backed os t ≡ true) os.fd_targets
