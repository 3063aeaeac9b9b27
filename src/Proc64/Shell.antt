-- ===== src/Proc64/Shell.antt =====
-- The entry points of src/proc64.c for the shell and the start-up tests. Each runs until it returns or
-- control leaves for a process; where the scheduler comes back to `proc_save_kernel`, the rest of it is a
-- definition of its own, whose name ends in `_resumed`.
use aj.Common.{
  ℕ, zero, suc, ◌+◌, ◌-◌, Bool, true, false, not, ◌||◌, Option, none, some, List, [], ◌∷◌, ◌==◌,
  ltb, if◌then◌else◌, length,
}
use aj.Proc64.State.{Kernel, proc_at, update_proc, is_free, max_procs, quantum, page}
use aj.Proc64.Table.{proc_release}
use aj.Proc64.Wait.{wake_sleepers}
use aj.Proc64.Schedule.{Flow, pick_next, dispatch_next}
use aj.Proc64.Jobs.{reap_ppid0, shell_has_ppid0, spawn_image}

-- The results: a child with its exit code, a pid, a failure (-1), nothing, or control elsewhere.
pub data Turn : Type 0 where
  collected : ℕ → ℕ → Turn
  started : ℕ → Turn
  failed nothing : Turn
  left : Flow → Turn

abbrev pub leaving : Kernel × Flow → Kernel × Turn
leaving (k, f) = (k, left f)

unfoldable pub wait_for : List ℕ → ℕ → Kernel × Option (ℕ × ℕ) → Kernel × Turn
wait_for wakes pid (k, some (id, code)) = (k, collected id code)
wait_for wakes pid (k, none) =
    let k' = record k {
      focus_pid = if pid == 0 then 0xffff_ffff else pid;
      shell_poll_mode = false;
      kernel_armed = true;
    } in
    if not (shell_has_ppid0 k pid) then (k, failed) else leaving (dispatch_next wakes k')

-- One round of the loop of `proc64_shell_wait`.
unfoldable pub shell_wait : List ℕ → Kernel → ℕ → Kernel × Turn
unfolding wait_for
shell_wait wakes k pid = wait_for wakes pid (reap_ppid0 k pid)

unfoldable pub shell_wait_resumed : List ℕ → Kernel → ℕ → Kernel × Turn
unfolding shell_wait
shell_wait_resumed wakes k pid =
    shell_wait wakes (record k { kernel_armed = false; focus_pid = 0 }) pid

-- "proc"
abbrev pub name_or_proc : Option (List ℕ) → List ℕ
name_or_proc none = b'p' ∷ b'r' ∷ b'o' ∷ b'c' ∷ []
name_or_proc (some name) = name

unfoldable pub spawned : List ℕ → Bool → Kernel × Option ℕ → Kernel × Turn
spawned wakes bg (k, none) = (k, failed)
spawned wakes bg (k, some i) =
    let k' = update_proc k i (λ p. record p { background = bg }) in
    if bg then (k', started (proc_at k' i).pid) else shell_wait wakes k' (proc_at k' i).pid

-- `proc64_spawn`. In the foreground its result is the exit code of the child that is collected.
unfoldable pub proc64_spawn : List ℕ → Kernel → List ℕ → Option (List ℕ) → Bool → Kernel × Turn
unfolding spawned
proc64_spawn wakes k img name bg =
    if length img == 0 || ltb page (length img)
    then (k, failed)
    else spawned wakes bg (spawn_image k (name_or_proc name) img 0)

unfoldable pub poll_picked : List ℕ → Kernel × Option ℕ → Kernel × Turn
poll_picked wakes (k, none) = (k, nothing)
poll_picked wakes (k, some i) = leaving (
    dispatch_next wakes (record k {
      shell_poll_mode = true;
      focus_pid = 0;
      kernel_armed = true;
      slice = quantum - 1;
    }))

-- `proc64_shell_poll`. The process that it picks only tells it that there is one.
unfoldable pub shell_poll : List ℕ → Kernel → Kernel × Turn
unfolding poll_picked
shell_poll wakes k = poll_picked wakes (pick_next (wake_sleepers k) none true)

abbrev pub shell_poll_resumed : Kernel → Kernel
shell_poll_resumed k = record k { kernel_armed = false; shell_poll_mode = false }

unfoldable pub boot_test_started : List ℕ → Kernel × Option ℕ → Kernel × Turn
boot_test_started wakes (k, none) = (k, failed)
boot_test_started wakes (k, some i) =
    leaving
      (dispatch_next wakes (record k { kernel_armed = true; preempt_noted = false; slice = 0 }))

-- `proc64_boot_test` for the embedded program.
unfoldable pub boot_test : List ℕ → Kernel → List ℕ → List ℕ → Kernel × Turn
unfolding boot_test_started
boot_test wakes k name img = boot_test_started wakes (spawn_image k name img 0)

unfoldable pub m17_test_started : List ℕ → Kernel × Option ℕ → Kernel × Turn
m17_test_started wakes (k, none) = (k, failed)
m17_test_started wakes (k, some i) = leaving (
    dispatch_next wakes
      (record k { kernel_armed = true; shell_poll_mode = false; focus_pid = 0; slice = 0 }))

-- `proc64_m17_test` for the embedded program.
unfoldable pub m17_test : List ℕ → Kernel → List ℕ → List ℕ → Kernel × Turn
unfolding m17_test_started
m17_test wakes k name img = m17_test_started wakes (spawn_image k name img 0)

-- The loop at the end of both tests.
unfoldable pub release_from : ℕ → ℕ → Kernel → Kernel
release_from zero i k = k
release_from (suc n) i k =
    release_from n (i + 1) (if is_free (proc_at k i).state then k else proc_release k i)

unfoldable pub test_resumed : Kernel → Kernel
unfolding release_from
test_resumed k = release_from max_procs 0 (record k { kernel_armed = false; current = none })
