-- ===== src/Loader/Command/Thread/Arm.antt =====
-- The ARM register blocks of LC_UNIXTHREAD in
-- crates/compatra-runtime/src/macos/loader/command.rs.
use compatra.Common.{ℕ, Bool}
use compatra.Loader.Cursor.{Read, read_u32, read_u64}
use compatra.Loader.Read.{◌>>=◌, pure}

pub record ArmThreadState32 : Type 0 where
  pub r0 : ℕ
  pub r1 : ℕ
  pub r2 : ℕ
  pub r3 : ℕ
  pub r4 : ℕ
  pub r5 : ℕ
  pub r6 : ℕ
  pub r7 : ℕ
  pub r8 : ℕ
  pub r9 : ℕ
  pub r10 : ℕ
  pub r11 : ℕ
  pub r12 : ℕ
  pub sp : ℕ
  pub lr : ℕ
  pub pc : ℕ
  pub cpsr : ℕ

pub record Arm64ThreadState : Type 0 where
  pub x0 : ℕ
  pub x1 : ℕ
  pub x2 : ℕ
  pub x3 : ℕ
  pub x4 : ℕ
  pub x5 : ℕ
  pub x6 : ℕ
  pub x7 : ℕ
  pub x8 : ℕ
  pub x9 : ℕ
  pub x10 : ℕ
  pub x11 : ℕ
  pub x12 : ℕ
  pub x13 : ℕ
  pub x14 : ℕ
  pub x15 : ℕ
  pub x16 : ℕ
  pub x17 : ℕ
  pub x18 : ℕ
  pub x19 : ℕ
  pub x20 : ℕ
  pub x21 : ℕ
  pub x22 : ℕ
  pub x23 : ℕ
  pub x24 : ℕ
  pub x25 : ℕ
  pub x26 : ℕ
  pub x27 : ℕ
  pub x28 : ℕ
  pub x29 : ℕ
  pub sp : ℕ
  pub pc : ℕ

unfoldable pub read_arm32 : Bool → Read ArmThreadState32
unfolding read_u32
read_arm32 big = do
  r0' ← read_u32 big
  r1' ← read_u32 big
  r2' ← read_u32 big
  r3' ← read_u32 big
  r4' ← read_u32 big
  r5' ← read_u32 big
  r6' ← read_u32 big
  r7' ← read_u32 big
  r8' ← read_u32 big
  r9' ← read_u32 big
  r10' ← read_u32 big
  r11' ← read_u32 big
  r12' ← read_u32 big
  sp' ← read_u32 big
  lr' ← read_u32 big
  pc' ← read_u32 big
  cpsr' ← read_u32 big
  pure (record {
    r0 = r0';
    r1 = r1';
    r2 = r2';
    r3 = r3';
    r4 = r4';
    r5 = r5';
    r6 = r6';
    r7 = r7';
    r8 = r8';
    r9 = r9';
    r10 = r10';
    r11 = r11';
    r12 = r12';
    sp = sp';
    lr = lr';
    pc = pc';
    cpsr = cpsr';
  })

unfoldable pub read_arm64 : Bool → Read Arm64ThreadState
unfolding read_u64
read_arm64 big = do
  x0' ← read_u64 big
  x1' ← read_u64 big
  x2' ← read_u64 big
  x3' ← read_u64 big
  x4' ← read_u64 big
  x5' ← read_u64 big
  x6' ← read_u64 big
  x7' ← read_u64 big
  x8' ← read_u64 big
  x9' ← read_u64 big
  x10' ← read_u64 big
  x11' ← read_u64 big
  x12' ← read_u64 big
  x13' ← read_u64 big
  x14' ← read_u64 big
  x15' ← read_u64 big
  x16' ← read_u64 big
  x17' ← read_u64 big
  x18' ← read_u64 big
  x19' ← read_u64 big
  x20' ← read_u64 big
  x21' ← read_u64 big
  x22' ← read_u64 big
  x23' ← read_u64 big
  x24' ← read_u64 big
  x25' ← read_u64 big
  x26' ← read_u64 big
  x27' ← read_u64 big
  x28' ← read_u64 big
  x29' ← read_u64 big
  sp' ← read_u64 big
  pc' ← read_u64 big
  pure (record {
    x0 = x0';
    x1 = x1';
    x2 = x2';
    x3 = x3';
    x4 = x4';
    x5 = x5';
    x6 = x6';
    x7 = x7';
    x8 = x8';
    x9 = x9';
    x10 = x10';
    x11 = x11';
    x12 = x12';
    x13 = x13';
    x14 = x14';
    x15 = x15';
    x16 = x16';
    x17 = x17';
    x18 = x18';
    x19 = x19';
    x20 = x20';
    x21 = x21';
    x22 = x22';
    x23 = x23';
    x24 = x24';
    x25 = x25';
    x26 = x26';
    x27 = x27';
    x28 = x28';
    x29 = x29';
    sp = sp';
    pc = pc';
  })
