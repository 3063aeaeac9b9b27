-- ===== src/Proc64/Window.antt =====
-- The user window of src/proc64.c: its translation to the frames of a process, the accesses of the
-- kernel through it, and the images that are loaded into it. Physical memory is a region of bytes.
use aj.Common.{
  ℕ, zero, suc, ◌+◌, ◌-◌, ◌*◌, ◌/◌, ◌%◌, bit_and, bit_or, Bool, true, false, not, ◌&&◌, ◌||◌,
  Option, none, some, List, [], ◌∷◌, ◌==◌, ltb, leb, if◌then◌else◌, length, get_or, Memory, store,
  u64,
}
use mathlib.Core.Option
use aj.Pmm64.{pmm64_alloc_frame}
use aj.Proc64.State.{
  Kernel, Proc, Uctx, zero_uctx, proc_at, update_proc, page, user_base, user_stack, user_stack_top,
}
use aj.Vm64.{Vm, vm64_map_user}
use aj.Proc64.Table.{free_if}

-- `memzero` and `memcopy` of a page, and the copy of an image to the start of one.
abbrev pub zero_page : Memory → ℕ → Memory
zero_page m at a = if leb at a && ltb a (at + page) then 0 else m a

abbrev pub copy_page : Memory → ℕ → ℕ → Memory
copy_page m to from a = if leb to a && ltb a (to + page) then m (from + (a - to)) else m a

abbrev pub copy_image : Memory → ℕ → List ℕ → Memory
copy_image m to img a = if leb to a && ltb a (to + length img) then get_or img (a - to) 0 else m a

unfoldable pub uvirt_to_phys : Proc → ℕ → ℕ
uvirt_to_phys p v =
    if leb user_base v && ltb v (user_base + page)
    then p.code_phys + (v - user_base)
    else if leb user_stack v && ltb v (user_stack + page)
    then p.stack_phys + (v - user_stack)
    else 0

-- A string of the user's of at most `n` bytes from address `at`, its terminator included. `none` is the
-- failure: outside the window, a byte that is not printable, or no terminator in time.
unfoldable pub ustr_loop : Memory → Proc → ℕ → ℕ → Option (List ℕ)
ustr_loop m p zero at = none
ustr_loop m p (suc n) at =
    let rest = ustr_loop m p n (u64 (at + 1)) in
    let phys = uvirt_to_phys p at in
    let c = m phys in
    if phys == 0
    then none
    else if c == 0
    then some []
    else if ltb c 32 || ltb 126 c
    then none
    else Option.map (λ cs. c ∷ cs) rest

unfoldable pub ustr : Memory → Proc → ℕ → ℕ → Option (List ℕ)
unfolding ustr_loop
ustr m p uaddr cap = if ltb cap 2 then none else ustr_loop m p (cap - 1) uaddr

-- `*(volatile u64 *)phys = val`, the low byte first.
unfoldable pub store_bytes : ℕ → Memory → ℕ → ℕ → Memory
store_bytes zero m at v = m
store_bytes (suc n) m at v = store_bytes n (store m at (v % 256)) (at + 1) (v / 256)

unfoldable pub load_bytes : ℕ → Memory → ℕ → ℕ
load_bytes zero m at = 0
load_bytes (suc n) m at = m at + 256 * load_bytes n m (at + 1)

unfoldable pub uwrite64 : Memory → Proc → ℕ → ℕ → Memory × Bool
unfolding store_bytes
uwrite64 m p uaddr val =
    let phys = uvirt_to_phys p uaddr in
    if uaddr == 0 || not (bit_and uaddr 7 == 0)
    then (m, false)
    else if phys == 0 || uvirt_to_phys p (u64 (uaddr + 7)) == 0
    then (m, false)
    else (store_bytes 8 m phys val, true)

-- Both pages of a process are mapped, for which the page tables may take frames.
unfoldable pub map_proc : Kernel → ℕ → Kernel
map_proc k i =
    let p = proc_at k i in
    let s : Vm = record { mem = k.tables; pmm = k.pmm; cr3 = k.cr3 } in
    let s1 = vm64_map_user s user_base p.code_phys false in
    let s2 = vm64_map_user s1 user_stack p.stack_phys true in
    record k { tables = s2.mem; pmm = s2.pmm }

unfoldable pub alloc_frames : Kernel → ℕ → Kernel × Bool
alloc_frames k i =
    let (pmm1, code) = pmm64_alloc_frame k.pmm in
    let (pmm2, stack) = pmm64_alloc_frame pmm1 in
    if code == 0 || stack == 0
    then (
      record (update_proc k i (λ p. record p { code_phys = 0; stack_phys = 0 })) {
        pmm = free_if (free_if pmm2 code) stack;
      },
      false,
    )
    else (
      record (update_proc k i (λ p. record p { code_phys = code; stack_phys = stack })) {
        pmm = pmm2;
        mem = zero_page (zero_page k.mem code) stack;
      },
      true,
    )

abbrev pub start_ctx : Uctx
start_ctx = record zero_uctx { rip = user_base; rsp = user_stack_top; rflags = 0x202 }

-- The empty list stands for the null image too: both are refused.
unfoldable pub load_image : Kernel → ℕ → List ℕ → Kernel × Bool
load_image k i img =
    let p = proc_at k i in
    if length img == 0 || ltb page (length img) then (k, false) else (
      record (update_proc k i (λ q. record q { ctx = start_ctx })) {
        mem = copy_image (zero_page (zero_page k.mem p.code_phys) p.stack_phys) p.code_phys img;
      },
      true,
    )

-- `p->ctx.rflags |= 2`
unfoldable pub snap_to_ctx : Kernel → ℕ → Kernel
snap_to_ctx k i =
    update_proc k i (λ p. record p { ctx = record k.snap { rflags = bit_or k.snap.rflags 2 } })
