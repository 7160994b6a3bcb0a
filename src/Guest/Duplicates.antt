-- ===== src/Guest/Duplicates.antt =====
-- `duplicate_synthetic_fd` of crates/compatra-runtime/src/macos/arch_arm64/runtime.rs returns, and what it
-- returns.
use compatra.Common.{
  ℕ, zero, suc, ◌+◌, ◌≤◌, ◌<◌, ◌≡◌, refl, ◌∙◌, ap, inl, inr, [], ◌∷◌, some, true, false, leb,
  if◌then◌else◌, max, length, u64_max, saturating_add, Bool-cases, Option-cases, nat_eq, pair_eq,
  pair_beq, arith,
}
use compatra.Common.HashMap.{HashMap, lookup, lookup-insert, contains_key}
use compatra.Common.Result.{ok}
use compatra.Guest.Os.{SyntheticFdTarget, Arm64SyntheticOsRuntime, resolve_process_fd_target}
use compatra.Guest.Descriptors.{is_taken, free_fd, duplicated, duplicate_synthetic_fd}
use compatra.Guest.Duplicating.{duplicated-Same}

-- How many bindings have a number from `fd` on.
abbrev process_above : ℕ → HashMap (ℕ × ℕ) SyntheticFdTarget → ℕ
process_above fd [] = 0
process_above fd (((pid, other), t) ∷ m) =
    let rest = process_above fd m in if leb fd other then rest + 1 else rest

abbrev global_above : ℕ → HashMap ℕ SyntheticFdTarget → ℕ
global_above fd [] = 0
global_above fd ((other, t) ∷ m) =
    let rest = global_above fd m in if leb fd other then rest + 1 else rest

process_above-le : (fd : ℕ) (m : HashMap (ℕ × ℕ) SyntheticFdTarget) → process_above fd m ≤ length m
process_above-le fd [] = omega arith
process_above-le fd (((pid, other), t) ∷ m) = ground (arith, process_above-le fd m)

global_above-le : (fd : ℕ) (m : HashMap ℕ SyntheticFdTarget) → global_above fd m ≤ length m
global_above-le fd [] = omega arith
global_above-le fd ((other, t) ∷ m) = ground (arith, global_above-le fd m)

process_above_next :
    (fd : ℕ) (m : HashMap (ℕ × ℕ) SyntheticFdTarget) → process_above (fd + 1) m ≤ process_above fd m
process_above_next fd [] = omega arith
process_above_next fd (((pid, other), t) ∷ m) = ground (arith, process_above_next fd m)

global_above_next :
    (fd : ℕ) (m : HashMap ℕ SyntheticFdTarget) → global_above (fd + 1) m ≤ global_above fd m
global_above_next fd [] = omega arith
global_above_next fd ((other, t) ∷ m) = ground (arith, global_above_next fd m)

process_taken :
    (pid fd : ℕ) (m : HashMap (ℕ × ℕ) SyntheticFdTarget)
    → contains_key (pid, fd) m ≡ true
    → process_above (fd + 1) m < process_above fd m
unfolding contains_key lookup
process_taken pid fd [] h = cc
process_taken pid fd (((other_pid, other), t) ∷ m) h =
    ground (arith, process_taken pid fd m, process_above_next fd m)

global_taken :
    (fd : ℕ) (m : HashMap ℕ SyntheticFdTarget)
    → contains_key fd m ≡ true
    → global_above (fd + 1) m < global_above fd m
unfolding contains_key lookup
global_taken fd [] h = cc
global_taken fd ((other, t) ∷ m) h = ground (arith, global_taken fd m, global_above_next fd m)

abbrev above : Arm64SyntheticOsRuntime → ℕ → ℕ
above os fd = process_above fd os.process_fd_targets + global_above fd os.fd_targets

above_taken :
    (os : Arm64SyntheticOsRuntime) (pid fd : ℕ)
    → is_taken os pid fd ≡ true
    → above os (fd + 1) < above os fd
unfolding is_taken
above_taken os pid fd h = elim (Bool-cases (contains_key (pid, fd) os.process_fd_targets)) [
  | inl e ↦
      omega
        (arith, process_taken pid fd os.process_fd_targets e, global_above_next fd os.fd_targets)
  | inr e ↦ omega (
    arith,
    global_taken fd os.fd_targets (ground (arith, e)),
    process_above_next fd os.process_fd_targets,
  )
]

free_fd_next :
    (n : ℕ) (os : Arm64SyntheticOsRuntime) (pid fd : ℕ)
    → is_taken os pid fd ≡ true
    → fd + 1 ≤ u64_max
    → free_fd (suc n) os pid fd ≡ free_fd n os pid (fd + 1)
unfolding free_fd
free_fd_next n os pid fd e small =
    let next : saturating_add fd 1 ≡ fd + 1 = ground arith in
    rw (free_fd, e) (ap (free_fd n os pid) next)

free_fd_here :
    (n : ℕ) (os : Arm64SyntheticOsRuntime) (pid fd : ℕ)
    → is_taken os pid fd ≡ false
    → free_fd (suc n) os pid fd ≡ some fd
unfolding free_fd
free_fd_here n os pid fd e = rw (free_fd, e) refl

free_fd-some :
    (n : ℕ) (os : Arm64SyntheticOsRuntime) (pid fd : ℕ)
    → above os fd < n
    → fd + above os fd ≤ u64_max
    → (new_fd : ℕ) × (free_fd n os pid fd ≡ some new_fd)
      × (is_taken os pid new_fd ≡ false)
      × (fd ≤ new_fd)
free_fd-some zero os pid fd h k = absurd (omega arith)
free_fd-some (suc n) os pid fd h k = elim (Bool-cases (is_taken os pid fd)) [
  | inr e ↦ (fd, free_fd_here n os pid fd e, e, omega arith)
  | inl e ↦
      let less = above_taken os pid fd e in
      let (new_fd, found, free, le) = free_fd-some n os pid (fd + 1) (omega arith) (omega arith) in
      (new_fd, free_fd_next n os pid fd e (omega arith) ∙ found, free, omega arith)
]

abbrev bindings : Arm64SyntheticOsRuntime → ℕ
bindings os = length os.process_fd_targets + length os.fd_targets

above-le : (os : Arm64SyntheticOsRuntime) (fd : ℕ) → above os fd ≤ bindings os
above-le os fd =
    omega (arith, process_above-le fd os.process_fd_targets, global_above-le fd os.fd_targets)

resolve-duplicated :
    (os : Arm64SyntheticOsRuntime) (pid fd : ℕ) (target : SyntheticFdTarget)
    (new_fd other_pid other : ℕ)
    → resolve_process_fd_target (duplicated os pid fd new_fd target) other_pid other ≡ (
        if pair_beq (pid, new_fd) (other_pid, other)
        then some target
        else resolve_process_fd_target os other_pid other)
unfolding resolve_process_fd_target
resolve-duplicated os pid fd target new_fd other_pid other =
    let (same, bound) = duplicated-Same os pid fd new_fd target in
    let found = lookup-insert (other_pid, other) (pid, new_fd) target os.process_fd_targets in
    elim (Bool-cases (pair_beq (pid, new_fd) (other_pid, other))) [
      | inl e ↦ rw (resolve_process_fd_target, bound, found, e) refl
      | inr e ↦ elim (Option-cases (lookup (other_pid, other) os.process_fd_targets)) [
        | inl f ↦
            rw (resolve_process_fd_target, bound, found, e, f) (ap (lookup other) same.globals)
        | inr (t, f) ↦ rw (resolve_process_fd_target, bound, found, e, f) refl
      ]
    ]

-- A bound descriptor is duplicated with more fuel than there are bindings, where as many numbers follow
-- the first candidate: the new number is at least the first candidate and was not bound, it refers to what
-- the descriptor refers to, and every other descriptor of every process refers to what it did.
pub duplicate_synthetic_fd-some :
    (fuel : ℕ) (os : Arm64SyntheticOsRuntime) (pid fd min_fd other_pid other : ℕ)
    (target : SyntheticFdTarget)
    → resolve_process_fd_target os pid fd ≡ some target
    → bindings os < fuel
    → max (max os.next_fd min_fd) 3 + bindings os ≤ u64_max
    → (new_fd : ℕ) × (os' : Arm64SyntheticOsRuntime) × (duplicate_synthetic_fd fuel os pid fd min_fd
        ≡ some (os', ok new_fd))
      × (max (max os.next_fd min_fd) 3 ≤ new_fd)
      × (is_taken os pid new_fd ≡ false)
      × (resolve_process_fd_target os' other_pid other ≡ (
          if pair_beq (pid, new_fd) (other_pid, other)
          then some target
          else resolve_process_fd_target os other_pid other))
unfolding duplicate_synthetic_fd
duplicate_synthetic_fd-some fuel os pid fd min_fd other_pid other target bound enough room =
    let start = max (max os.next_fd min_fd) 3 in
    let few = above-le os start in
    let (new_fd, found, free, le) = free_fd-some fuel os pid start (omega arith) (omega arith) in
    (
      new_fd,
      duplicated os pid fd new_fd target,
      rw (duplicate_synthetic_fd, bound, found) refl,
      le,
      free,
      resolve-duplicated os pid fd target new_fd other_pid other,
    )
