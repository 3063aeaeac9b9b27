-- ===== src/Proc64/Syscalls.antt =====
-- The system calls of src/proc64.c. `child_image` is the embedded CHILD64 binary, `read_file` is
-- `fat64_read_file` into a buffer of one page, with `none` for its results of 0 and below, and `wakes`
-- is the timer's value at each interrupt that ends a halt of the scheduler.
use aj.Common.{
  ℕ, ◌+◌, ◌-◌, ◌*◌, ◌/◌, Bool, true, false, ◌&&◌, ◌||◌, Option, none, some, List, [], ◌∷◌, ◌==◌,
  ltb, if◌then◌else◌, u64, u32,
}
use aj.Proc64.State.{
  Kernel, Proc, run, sleep, wait, zombie, proc_at, update_proc, is_run, page, minus_one, name_set,
}
use aj.Proc64.Table.{proc_slot, proc_release}
use aj.Proc64.Window.{
  uvirt_to_phys, ustr, map_proc, alloc_frames, load_image, snap_to_ctx, copy_page,
}
use aj.Proc64.Wait.{reap_one, has_child}
use aj.Proc64.Schedule.{Flow, returns, to_user, shell_loop, dispatch_next}

-- The copies that `fork` makes once the child has its frames.
unfoldable pub fork_into : Kernel → ℕ → ℕ → Kernel
fork_into k cur child =
    let from = proc_at k cur in
    let to = proc_at k child in
    let k' = record k {
      mem = copy_page (copy_page k.mem to.code_phys from.code_phys) to.stack_phys from.stack_phys;
    } in
    update_proc (snap_to_ctx k' child) child
      (λ p. record p { state = run; ctx = record (p.ctx) { rax = 0 } })

unfoldable pub fork_finish : ℕ → ℕ → Kernel × Bool → Kernel × ℕ
fork_finish cur child (k, true) = (fork_into k cur child, (proc_at k child).pid)
fork_finish cur child (k, false) = (proc_release k child, minus_one)

unfoldable pub fork_slot : ℕ → Kernel × Option ℕ → Kernel × ℕ
unfolding fork_into fork_finish
fork_slot cur (k, none) = (k, minus_one)
fork_slot cur (k, some child) =
    let named =
      update_proc k child
        (λ p. record p { ppid = (proc_at k cur).pid; name = name_set (proc_at k cur).name }) in
    fork_finish cur child (alloc_frames named child)

unfoldable pub sys_fork : Kernel → Option ℕ → Kernel × ℕ
unfolding fork_slot
sys_fork k none = (k, minus_one)
sys_fork k (some cur) =
    if is_run (proc_at k cur).state then fork_slot cur (proc_slot k) else (k, minus_one)

-- The caller goes to sleep in state `wait` until a child ends.
abbrev pub block_on : Kernel → ℕ → ℕ → ℕ → Kernel
block_on k cur pid status =
    record (update_proc (snap_to_ctx k cur) cur
      (λ p. record p { wpid = pid; wstatus = status; state = wait })) { current = none }

unfoldable pub wait_result : List ℕ → ℕ → ℕ → ℕ → Kernel × Option ℕ → Kernel × Flow
wait_result wakes cur pid status (k, some reaped) = (k, returns reaped)
wait_result wakes cur pid status (k, none) =
    if has_child k cur pid
    then dispatch_next wakes (block_on k cur pid status)
    else (k, returns minus_one)

unfoldable pub sys_waitpid : List ℕ → Kernel → Option ℕ → Kernel × Flow
unfolding wait_result
sys_waitpid wakes k none = (k, returns minus_one)
sys_waitpid wakes k (some cur) =
    wait_result wakes cur k.snap.rdi k.snap.rsi (reap_one k cur k.snap.rdi k.snap.rsi)

abbrev pub end_process : Kernel → ℕ → ℕ → Kernel
end_process k cur code =
    record (update_proc k cur (λ p. record p { exit_code = u32 code; state = zombie })) {
      current = none;
    }

unfoldable pub sys_exit : List ℕ → Kernel → Option ℕ → ℕ → Kernel × Flow
sys_exit wakes k none code = (k, shell_loop)
sys_exit wakes k (some cur) code = dispatch_next wakes (end_process k cur code)

-- `if (!ticks) ticks = 1;`
abbrev pub at_least_one : ℕ → ℕ
at_least_one t = if t == 0 then 1 else t

abbrev pub fall_asleep : Kernel → ℕ → ℕ → Kernel
fall_asleep k cur t =
    record (update_proc (snap_to_ctx k cur) cur (λ p. record p {
      ctx = record (p.ctx) { rax = 0 };
      wake = u64 (k.ticks + t);
      state = sleep;
    })) { current = none }

-- With no current process the kernel spins in `timer64_wait` until the timer has advanced as far.
unfoldable pub sys_sleep : List ℕ → Kernel → Option ℕ → ℕ → Kernel × Flow
sys_sleep wakes k none ms =
    (record k { ticks = u64 (k.ticks + at_least_one (u64 (ms + 9) / 10)) }, returns 0)
sys_sleep wakes k (some cur) ms =
    dispatch_next wakes (fall_asleep k cur (at_least_one (u64 (u64 (ms * 100) + 999) / 1000)))

-- "CHILD64"
abbrev pub child64_name : List ℕ
child64_name = b'C' ∷ b'H' ∷ b'I' ∷ b'L' ∷ b'D' ∷ b'6' ∷ b'4' ∷ []

abbrev pub same_string : List ℕ → List ℕ → Bool
same_string [] [] = true
same_string (a ∷ as') (b ∷ bs) = a == b && same_string as' bs
same_string _ _ = false

unfoldable pub find_image : List ℕ → (List ℕ → Option (List ℕ)) → List ℕ → Option (List ℕ)
find_image child_image read_file path =
    if same_string path child64_name then some child_image else read_file path

unfoldable pub exec_loaded : ℕ → List ℕ → Kernel × Bool → Kernel × Flow
exec_loaded cur path (k, false) = (k, returns minus_one)
exec_loaded cur path (k, true) =
    (map_proc (update_proc k cur (λ p. record p { name = name_set path })) cur, to_user cur)

unfoldable pub exec_image : Kernel → ℕ → List ℕ → Option (List ℕ) → Kernel × Flow
unfolding exec_loaded
exec_image k cur path none = (k, returns minus_one)
exec_image k cur path (some img) = exec_loaded cur path (load_image k cur img)

unfoldable pub exec_path :
    List ℕ → (List ℕ → Option (List ℕ)) → Kernel → ℕ → Option (List ℕ) → Kernel × Flow
unfolding exec_image find_image
exec_path child_image read_file k cur none = (k, returns minus_one)
exec_path child_image read_file k cur (some path) =
    exec_image k cur path (find_image child_image read_file path)

unfoldable pub sys_execve : List ℕ → (List ℕ → Option (List ℕ)) → Kernel → Option ℕ → Kernel × Flow
unfolding exec_path
sys_execve child_image read_file k none = (k, returns minus_one)
sys_execve child_image read_file k (some cur) =
    exec_path child_image read_file k cur (ustr k.mem (proc_at k cur) k.snap.rdi 40)

-- The length that `write` reports. The bytes go to the serial port.
unfoldable pub sys_write : Kernel → Option ℕ → ℕ
sys_write k none = if ltb page k.snap.rdx then page else k.snap.rdx
sys_write k (some cur) =
    let n = if ltb page k.snap.rdx then page else k.snap.rdx in
    let p = proc_at k cur in
    if n == 0
    then 0
    else if uvirt_to_phys p k.snap.rsi == 0 || uvirt_to_phys p (u64 (k.snap.rsi + n - 1)) == 0
    then 0
    else n

abbrev pub returning : Kernel × ℕ → Kernel × Flow
returning (k, v) = (k, returns v)

-- The field of the current process, 0 if there is none.
abbrev pub of_current : Kernel → Option ℕ → (Proc → ℕ) → ℕ
of_current k none f = 0
of_current k (some cur) f = f (proc_at k cur)

-- The cases of the switch of `syscall_handler`.
pub data Call : Type 0 where
  write exit sleep_ms getpid getppid get_ticks fork execve waitpid ps unknown : Call

unfoldable pub decode : ℕ → Call
decode n =
    if n == 1
    then write
    else if n == 2 || n == 5
    then exit
    else if n == 3
    then sleep_ms
    else if n == 6
    then getpid
    else if n == 7
    then getppid
    else if n == 8
    then get_ticks
    else if n == 16
    then fork
    else if n == 17
    then execve
    else if n == 18
    then waitpid
    else if n == 19
    then ps
    else unknown

-- `ps` only prints.
unfoldable pub serve : List ℕ → (List ℕ → Option (List ℕ)) → List ℕ → Kernel → Call → Kernel × Flow
unfolding sys_write sys_exit sys_sleep sys_fork sys_execve sys_waitpid
serve child_image read_file wakes k write = (k, returns (sys_write k k.current))
serve child_image read_file wakes k exit = sys_exit wakes k k.current k.snap.rdi
serve child_image read_file wakes k sleep_ms = sys_sleep wakes k k.current k.snap.rdi
serve child_image read_file wakes k getpid = (k, returns (of_current k k.current (λ p. p.pid)))
serve child_image read_file wakes k getppid = (k, returns (of_current k k.current (λ p. p.ppid)))
serve child_image read_file wakes k get_ticks = (k, returns k.ticks)
serve child_image read_file wakes k fork = returning (sys_fork k k.current)
serve child_image read_file wakes k execve = sys_execve child_image read_file k k.current
serve child_image read_file wakes k waitpid = sys_waitpid wakes k k.current
serve child_image read_file wakes k ps = (k, returns 0)
serve child_image read_file wakes k unknown = (k, returns minus_one)

-- `syscall_handler`, on the registers in `snap`.
unfoldable pub syscall_handler :
    List ℕ → (List ℕ → Option (List ℕ)) → List ℕ → Kernel → ℕ → Kernel × Flow
unfolding decode serve
syscall_handler child_image read_file wakes k nr =
    serve child_image read_file wakes k (decode (u32 nr))
