-- ===== src/Proc64/Jobs.antt =====
-- The shell's side of src/proc64.c: spawning, killing and collecting the processes whose parent is the
-- shell, which has pid 0.
use aj.Common.{
  ℕ, Bool, true, false, not, ◌&&◌, ◌||◌, Option, none, some, List, ◌==◌, if◌then◌else◌, first_from,
  is_some,
}
use aj.Proc64.State.{
  Kernel, run, zombie, proc_at, update_proc, is_free, is_zombie, max_procs, name_set,
}
use aj.Proc64.Table.{proc_by_pid, proc_slot, proc_release}
use aj.Proc64.Window.{alloc_frames, load_image}
use aj.Proc64.Schedule.{is_index}

abbrev pub clear_current : Kernel → ℕ → Kernel
clear_current k i = if is_index k.current i then record k { current = none } else k

unfoldable pub kill_at : Kernel → ℕ → Option ℕ → Kernel × Bool
kill_at k pid none = (k, false)
kill_at k pid (some i) =
    if pid == 0 || is_zombie (proc_at k i).state
    then (k, false)
    else (clear_current (update_proc k i (λ p. record p { exit_code = 9; state = zombie })) i, true)

-- `proc64_kill`; `false` is its -1.
unfoldable pub kill : Kernel → ℕ → Kernel × Bool
unfolding kill_at
kill k pid = kill_at k pid (proc_by_pid k pid)

unfoldable pub is_shell_child : Kernel → ℕ → ℕ → Bool
is_shell_child k pid i =
    not (is_free (proc_at k i).state)
    && (proc_at k i).ppid == 0
    && (pid == 0 || (proc_at k i).pid == pid)

unfoldable pub reap_shell_at : Kernel → Option ℕ → Kernel × Option (ℕ × ℕ)
reap_shell_at k none = (k, none)
reap_shell_at k (some i) = (proc_release k i, some ((proc_at k i).pid, (proc_at k i).exit_code))

-- `reap_ppid0`: the pid and the exit code of the child that it collects.
unfoldable pub reap_ppid0 : Kernel → ℕ → Kernel × Option (ℕ × ℕ)
unfolding reap_shell_at is_shell_child
reap_ppid0 k pid =
    reap_shell_at k
      (first_from (λ i. is_zombie (proc_at k i).state && is_shell_child k pid i) max_procs 0)

unfoldable pub shell_has_ppid0 : Kernel → ℕ → Bool
unfolding is_shell_child
shell_has_ppid0 k pid = is_some (first_from (is_shell_child k pid) max_procs 0)

unfoldable pub spawn_in : List ℕ → List ℕ → ℕ → Kernel × Option ℕ → Kernel × Option ℕ
spawn_in name img ppid (k, none) = (k, none)
spawn_in name img ppid (k, some i) =
    let named = update_proc k i (λ p. record p { ppid = ppid; name = name_set name }) in
    let (k1, got) = alloc_frames named i in
    let (k2, loaded) = load_image k1 i img in
    if not got
    then (proc_release k1 i, none)
    else if not loaded
    then (proc_release k2 i, none)
    else (update_proc k2 i (λ p. record p { state = run }), some i)

unfoldable pub spawn_image : Kernel → List ℕ → List ℕ → ℕ → Kernel × Option ℕ
unfolding spawn_in
spawn_image k name img ppid = spawn_in name img ppid (proc_slot k)
