-- ===== src/Proc64/Table.antt =====
-- The process table of src/proc64.c: slots, pids, and the frames that a process owns.
use aj.Common.{ℕ, ◌+◌, Bool, not, ◌&&◌, Option, none, some, ◌==◌, if◌then◌else◌, u32, find_index}
use aj.Pmm64.{Pmm64, pmm64_free_frame}
use aj.Proc64.State.{Kernel, Proc, zero_proc, proc_at, update_proc, is_free}

abbrev pub has_pid : ℕ → Proc → Bool
has_pid pid p = not (is_free p.state) && p.pid == pid

unfoldable pub proc_by_pid : Kernel → ℕ → Option ℕ
proc_by_pid k pid = find_index (has_pid pid) k.procs

-- `next_pid++; if (next_pid == 0) next_pid = 1;`
abbrev pub pid_after : ℕ → ℕ
pid_after n = if u32 (n + 1) == 0 then 1 else u32 (n + 1)

unfoldable pub claim_slot : Kernel → Option ℕ → Kernel × Option ℕ
claim_slot k none = (k, none)
claim_slot k (some i) = (
  record (update_proc k i (λ _. record zero_proc { pid = k.next_pid })) {
    next_pid = pid_after k.next_pid;
  },
  some i,
)

-- The slot that is claimed stays `free` until its state is set; it has its pid already.
unfoldable pub proc_slot : Kernel → Kernel × Option ℕ
unfolding claim_slot
proc_slot k = claim_slot k (find_index (λ p. is_free p.state) k.procs)

-- `if (phys) pmm64_free_frame(phys);`
abbrev pub free_if : Pmm64 → ℕ → Pmm64
free_if m phys = if phys == 0 then m else pmm64_free_frame m phys

unfoldable pub proc_release : Kernel → ℕ → Kernel
proc_release k i =
    let p = proc_at k i in
    record (update_proc k i (λ _. zero_proc)) {
      pmm = free_if (free_if k.pmm p.code_phys) p.stack_phys;
    }
