-- ===== src/Loader/Command/Thread/X86.antt =====
-- The x86 register blocks of LC_UNIXTHREAD in
-- crates/compatra-runtime/src/macos/loader/command.rs.
use compatra.Common.{ℕ, Bool}
use compatra.Loader.Cursor.{Read, read_u32, read_u64}
use compatra.Loader.Read.{◌>>=◌, pure}

pub record X86ThreadState32 : Type 0 where
  pub eax : ℕ
  pub ebx : ℕ
  pub ecx : ℕ
  pub edx : ℕ
  pub edi : ℕ
  pub esi : ℕ
  pub ebp : ℕ
  pub esp : ℕ
  pub ss : ℕ
  pub eflags : ℕ
  pub eip : ℕ
  pub cs : ℕ
  pub ds : ℕ
  pub es : ℕ
  pub fs : ℕ
  pub gs : ℕ

pub record X86ThreadState64 : Type 0 where
  pub rax : ℕ
  pub rbx : ℕ
  pub rcx : ℕ
  pub rdx : ℕ
  pub rdi : ℕ
  pub rsi : ℕ
  pub rbp : ℕ
  pub rsp : ℕ
  pub r8 : ℕ
  pub r9 : ℕ
  pub r10 : ℕ
  pub r11 : ℕ
  pub r12 : ℕ
  pub r13 : ℕ
  pub r14 : ℕ
  pub r15 : ℕ
  pub rip : ℕ
  pub rflags : ℕ
  pub cs : ℕ
  pub fs : ℕ
  pub gs : ℕ

unfoldable pub read_x86_32 : Bool → Read X86ThreadState32
unfolding read_u32
read_x86_32 big = do
  eax' ← read_u32 big
  ebx' ← read_u32 big
  ecx' ← read_u32 big
  edx' ← read_u32 big
  edi' ← read_u32 big
  esi' ← read_u32 big
  ebp' ← read_u32 big
  esp' ← read_u32 big
  ss' ← read_u32 big
  eflags' ← read_u32 big
  eip' ← read_u32 big
  cs' ← read_u32 big
  ds' ← read_u32 big
  es' ← read_u32 big
  fs' ← read_u32 big
  gs' ← read_u32 big
  pure (record {
    eax = eax';
    ebx = ebx';
    ecx = ecx';
    edx = edx';
    edi = edi';
    esi = esi';
    ebp = ebp';
    esp = esp';
    ss = ss';
    eflags = eflags';
    eip = eip';
    cs = cs';
    ds = ds';
    es = es';
    fs = fs';
    gs = gs';
  })

unfoldable pub read_x86_64 : Bool → Read X86ThreadState64
unfolding read_u64
read_x86_64 big = do
  rax' ← read_u64 big
  rbx' ← read_u64 big
  rcx' ← read_u64 big
  rdx' ← read_u64 big
  rdi' ← read_u64 big
  rsi' ← read_u64 big
  rbp' ← read_u64 big
  rsp' ← read_u64 big
  r8' ← read_u64 big
  r9' ← read_u64 big
  r10' ← read_u64 big
  r11' ← read_u64 big
  r12' ← read_u64 big
  r13' ← read_u64 big
  r14' ← read_u64 big
  r15' ← read_u64 big
  rip' ← read_u64 big
  rflags' ← read_u64 big
  cs' ← read_u64 big
  fs' ← read_u64 big
  gs' ← read_u64 big
  pure (record {
    rax = rax';
    rbx = rbx';
    rcx = rcx';
    rdx = rdx';
    rdi = rdi';
    rsi = rsi';
    rbp = rbp';
    rsp = rsp';
    r8 = r8';
    r9 = r9';
    r10 = r10';
    r11 = r11';
    r12 = r12';
    r13 = r13';
    r14 = r14';
    r15 = r15';
    rip = rip';
    rflags = rflags';
    cs = cs';
    fs = fs';
    gs = gs';
  })
