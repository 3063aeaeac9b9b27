-- ===== src/Proc64/State.antt =====
-- The statics of src/proc64.c, and what it reaches outside: the frame allocator, physical memory, the
-- timer and the page tables. A `struct proc *` is an index of the table.
use aj.Common.{ℕ, ◌+◌, Bool, true, false, Option, List, [], get_or, modify, Memory, take}
use aj.Pmm64.{Pmm64}

abbrev pub user_base : ℕ
user_base = 0x10000000000

abbrev pub user_stack : ℕ
user_stack = 0x10000100000

abbrev pub page : ℕ
page = 4096

abbrev pub user_stack_top : ℕ
user_stack_top = user_stack + page

abbrev pub max_procs : ℕ
max_procs = 8

abbrev pub quantum : ℕ
quantum = 10

-- (u64)-1
abbrev pub minus_one : ℕ
minus_one = 0xffff_ffff_ffff_ffff

pub data ProcState : Type 0 where
  free run sleep wait zombie : ProcState

abbrev pub is_free : ProcState → Bool
is_free free = true
is_free _ = false

abbrev pub is_run : ProcState → Bool
is_run run = true
is_run _ = false

abbrev pub is_sleep : ProcState → Bool
is_sleep sleep = true
is_sleep _ = false

abbrev pub is_wait : ProcState → Bool
is_wait wait = true
is_wait _ = false

abbrev pub is_zombie : ProcState → Bool
is_zombie zombie = true
is_zombie _ = false

-- `struct uctx`
pub record Uctx : Type 0 where
  pub rax : ℕ
  pub rbx : ℕ
  pub rcx : ℕ
  pub rdx : ℕ
  pub rsi : ℕ
  pub rdi : ℕ
  pub rbp : ℕ
  pub rsp : ℕ
  pub r8 : ℕ
  pub r9 : ℕ
  pub r10 : ℕ
  pub r11 : ℕ
  pub r12 : ℕ
  pub r13 : ℕ
  pub r14 : ℕ
  pub r15 : ℕ
  pub rip : ℕ
  pub rflags : ℕ

abbrev pub zero_uctx : Uctx
zero_uctx = record {
  rax = 0;
  rbx = 0;
  rcx = 0;
  rdx = 0;
  rsi = 0;
  rdi = 0;
  rbp = 0;
  rsp = 0;
  r8 = 0;
  r9 = 0;
  r10 = 0;
  r11 = 0;
  r12 = 0;
  r13 = 0;
  r14 = 0;
  r15 = 0;
  rip = 0;
  rflags = 0;
}

-- `struct proc`. The name is a C string without its terminator.
pub record Proc : Type 0 where
  pub state : ProcState
  pub pid : ℕ
  pub ppid : ℕ
  pub exit_code : ℕ
  pub wake : ℕ
  pub wpid : ℕ
  pub wstatus : ℕ
  pub code_phys : ℕ
  pub stack_phys : ℕ
  pub background : Bool
  pub name : List ℕ
  pub ctx : Uctx

-- `memzero(p, sizeof(*p))`
abbrev pub zero_proc : Proc
zero_proc = record {
  state = free;
  pid = 0;
  ppid = 0;
  exit_code = 0;
  wake = 0;
  wpid = 0;
  wstatus = 0;
  code_phys = 0;
  stack_phys = 0;
  background = false;
  name = [];
  ctx = zero_uctx;
}

pub record Kernel : Type 0 where
  pub procs : List Proc
  pub current : Option ℕ
  pub next_pid : ℕ
  pub kernel_armed : Bool
  pub preempt_noted : Bool
  pub slice : ℕ
  pub rr : ℕ
  pub shell_poll_mode : Bool
  pub focus_pid : ℕ
  pub snap : Uctx
  pub pmm : Pmm64
  pub mem : Memory
  pub ticks : ℕ
  -- the words of the page tables, and the address of their root
  pub tables : Memory
  pub cr3 : ℕ

abbrev pub proc_at : Kernel → ℕ → Proc
proc_at k i = get_or k.procs i zero_proc

abbrev pub update_proc : Kernel → ℕ → (Proc → Proc) → Kernel
update_proc k i f = record k { procs = modify k.procs i f }

-- Up to 15 characters of a name.
abbrev pub name_set : List ℕ → List ℕ
name_set s = take 15 s
