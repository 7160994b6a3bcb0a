-- ===== src/Loader/Command/Thread.antt =====
-- The register blocks of an LC_UNIXTHREAD command and `UnixThreadCommand::parse` of
-- crates/compatra-runtime/src/macos/loader/command.rs.
pub mod X86
pub mod Arm
use compatra.Loader.Command.Thread.X86.{
  X86ThreadState32, X86ThreadState64, read_x86_32, read_x86_64,
}
use compatra.Loader.Command.Thread.Arm.{ArmThreadState32, Arm64ThreadState, read_arm32, read_arm64}
use compatra.Common.{
  ℕ, ◌+◌, List, Option, none, some, Bool, ltb, leb, ◌==◌, ◌&&◌, if◌then◌else◌, length,
}
use compatra.Loader.Consts.{x86_thread_state32, x86_thread_state64, arm_thread_state64}
use compatra.Loader.Cursor.{Outcome, err, unix_thread_too_short, Read, read_u32, read_u64}
use compatra.Loader.Read.{◌>>=◌, pure, value_of}

pub record ThreadRegisters : Type 0 where
  pub x86_32 : Option X86ThreadState32
  pub x86_64 : Option X86ThreadState64
  pub arm32 : Option ArmThreadState32
  pub arm64 : Option Arm64ThreadState

pub record UnixThreadCommand : Type 0 where
  pub flavor : ℕ
  pub count : ℕ
  pub entry : ℕ
  pub registers : ThreadRegisters

abbrev no_registers : ThreadRegisters
no_registers = record { x86_32 = none; x86_64 = none; arm32 = none; arm64 = none }

-- The entry point and the registers for a flavour; `size` is the length of the command's data.
unfoldable pub read_registers : Bool → ℕ → ℕ → ℕ → Read (ℕ × ThreadRegisters)
unfolding read_x86_32 read_x86_64 read_arm32 read_arm64
read_registers big flavor count size =
    if flavor == x86_thread_state32
    then (if leb 17 count && leb (8 + 68) size
        then (do regs ← read_arm32 big; pure (regs.pc, record no_registers { arm32 = some regs }))
        else if leb (8 + 64) size
        then (do
          regs ← read_x86_32 big
          pure (regs.eip, record no_registers { x86_32 = some regs }))
        else pure (0, no_registers))
    else if flavor == x86_thread_state64
    then (if leb (8 + 168) size
        then (do
          regs ← read_x86_64 big
          pure (regs.rip, record no_registers { x86_64 = some regs }))
        else pure (0, no_registers))
    else if flavor == arm_thread_state64
    then (if leb (8 + 168) size
        then (do regs ← read_arm64 big; pure (regs.pc, record no_registers { arm64 = some regs }))
        else pure (0, no_registers))
    else pure (0, no_registers)

unfoldable pub read_unix_thread : Bool → ℕ → Read UnixThreadCommand
unfolding read_registers read_u32
read_unix_thread big size = do
  flavor' ← read_u32 big
  count' ← read_u32 big
  (entry', registers') ← read_registers big flavor' count' size
  pure (record { flavor = flavor'; count = count'; entry = entry'; registers = registers' })

unfoldable pub parse_unix_thread : List ℕ → Bool → Outcome UnixThreadCommand
unfolding read_unix_thread
parse_unix_thread bs big =
    if ltb (length bs) 8
    then err unix_thread_too_short
    else value_of (read_unix_thread big (length bs) bs)
