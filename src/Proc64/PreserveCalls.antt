-- ===== src/Proc64/PreserveCalls.antt =====
-- The system calls of src/proc64.c and the frames of the processes.
use aj.Common.{
  ℕ, refl, inl, inr, Bool, true, false, Option, none, some, List, Bool-cases, u32, ltb, length,
  ◌||◌, ◌==◌,
}
use aj.Proc64.State.{Kernel, Proc, proc_at, is_run, name_set, page}
use aj.Proc64.Window.{ustr, load_image, snap_to_ctx, start_ctx}
use aj.Proc64.Wait.{has_child}
use aj.Proc64.Syscalls.{
  fork_into, fork_finish, fork_slot, sys_fork, wait_result, sys_waitpid, sys_exit, sys_sleep,
  exec_loaded, exec_image, exec_path, sys_execve, syscall_handler, Call, write, exit, sleep_ms,
  getpid, getppid, get_ticks, fork, execve, waitpid, ps, unknown, decode, serve,
}
use aj.Proc64.Isolation.{
  IsIsolated, update-IsIsolated, proc_slot-IsIsolated, proc_release-IsIsolated,
  alloc_frames-IsIsolated,
}
use aj.Proc64.Preserve.{
  elsewhere, map_proc-IsIsolated, reap_one-IsIsolated, dispatch_next-IsIsolated,
}

snap_to_ctx-IsIsolated : {k : Kernel} (i : ℕ) → IsIsolated k → IsIsolated (snap_to_ctx k i)
unfolding snap_to_ctx
snap_to_ctx-IsIsolated i h = update-IsIsolated i _ h (λ a p. refl)

fork_finish-IsIsolated :
    (cur child : ℕ) (r : Kernel × Bool) → IsIsolated r.0 → IsIsolated (fork_finish cur child r).0
unfolding fork_finish fork_into
fork_finish-IsIsolated cur child (k, true) g =
    update-IsIsolated child _ (snap_to_ctx-IsIsolated child (elsewhere g refl refl)) (λ a p. refl)
fork_finish-IsIsolated cur child (k, false) g = proc_release-IsIsolated child g

fork_slot-IsIsolated :
    (cur : ℕ) (r : Kernel × Option ℕ) → IsIsolated r.0 → IsIsolated (fork_slot cur r).0
unfolding fork_slot
fork_slot-IsIsolated cur (k, none) h = h
fork_slot-IsIsolated cur (k, some child) h =
    fork_finish-IsIsolated cur child _
      (alloc_frames-IsIsolated child (update-IsIsolated child f h (λ a p. refl)))
  where
    f : Proc → Proc
    f = λ p. record p { ppid = (proc_at k cur).pid; name = name_set (proc_at k cur).name }

sys_fork-IsIsolated : {k : Kernel} (cur : Option ℕ) → IsIsolated k → IsIsolated (sys_fork k cur).0
unfolding sys_fork
sys_fork-IsIsolated none h = h
sys_fork-IsIsolated {k} (some cur) h = elim (Bool-cases (is_run (proc_at k cur).state)) [
  | inl e ↦ rw e (fork_slot-IsIsolated cur _ (proc_slot-IsIsolated h))
  | inr e ↦ rw e h
]

wait_result-IsIsolated :
    (ws : List ℕ) (cur pid status : ℕ) (r : Kernel × Option ℕ)
    → IsIsolated r.0
    → IsIsolated (wait_result ws cur pid status r).0
unfolding wait_result
wait_result-IsIsolated ws cur pid status (k, some c) h = h
wait_result-IsIsolated ws cur pid status (k, none) h = elim (Bool-cases (has_child k cur pid)) [
  | inl e ↦ rw e (
      dispatch_next-IsIsolated ws _ (
        elsewhere (update-IsIsolated cur _ (snap_to_ctx-IsIsolated cur h) (λ a p. refl)) refl refl))
  | inr e ↦ rw e h
]

sys_waitpid-IsIsolated :
    {k : Kernel} (ws : List ℕ) (cur : Option ℕ) → IsIsolated k → IsIsolated (sys_waitpid ws k cur).0
unfolding sys_waitpid
sys_waitpid-IsIsolated ws none h = h
sys_waitpid-IsIsolated {k} ws (some cur) h =
    wait_result-IsIsolated ws cur k.snap.rdi k.snap.rsi _
      (reap_one-IsIsolated cur k.snap.rdi k.snap.rsi h)

sys_exit-IsIsolated :
    {k : Kernel} (ws : List ℕ) (cur : Option ℕ) (code : ℕ)
    → IsIsolated k
    → IsIsolated (sys_exit ws k cur code).0
unfolding sys_exit
sys_exit-IsIsolated ws none code h = h
sys_exit-IsIsolated ws (some cur) code h =
    dispatch_next-IsIsolated ws _ (elsewhere (update-IsIsolated cur _ h (λ a p. refl)) refl refl)

sys_sleep-IsIsolated :
    {k : Kernel} (ws : List ℕ) (cur : Option ℕ) (ms : ℕ)
    → IsIsolated k
    → IsIsolated (sys_sleep ws k cur ms).0
unfolding sys_sleep
sys_sleep-IsIsolated ws none ms h = elsewhere h refl refl
sys_sleep-IsIsolated ws (some cur) ms h =
    dispatch_next-IsIsolated ws _
      (elsewhere (update-IsIsolated cur _ (snap_to_ctx-IsIsolated cur h) (λ a p. refl)) refl refl)

pub load_image-IsIsolated :
    {k : Kernel} (i : ℕ) (img : List ℕ) → IsIsolated k → IsIsolated (load_image k i img).0
unfolding load_image
load_image-IsIsolated {k} i img h = elim (Bool-cases (length img == 0 || ltb page (length img))) [
  | inl e ↦ rw e h
  | inr e ↦ rw e (
      elsewhere (update-IsIsolated i (λ p. record p { ctx = start_ctx }) h (λ a p. refl)) refl refl)
]

exec_loaded-IsIsolated :
    (cur : ℕ) (path : List ℕ) (r : Kernel × Bool)
    → IsIsolated r.0
    → IsIsolated (exec_loaded cur path r).0
unfolding exec_loaded
exec_loaded-IsIsolated cur path (k, false) h = h
exec_loaded-IsIsolated cur path (k, true) h =
    map_proc-IsIsolated cur
      (update-IsIsolated cur (λ p. record p { name = name_set path }) h (λ a p. refl))

exec_image-IsIsolated :
    {k : Kernel} (cur : ℕ) (path : List ℕ) (o : Option (List ℕ))
    → IsIsolated k
    → IsIsolated (exec_image k cur path o).0
unfolding exec_image
exec_image-IsIsolated cur path none h = h
exec_image-IsIsolated cur path (some img) h =
    exec_loaded-IsIsolated cur path _ (load_image-IsIsolated cur img h)

module _ (child_image : List ℕ) (read_file : List ℕ → Option (List ℕ)) where
  exec_path-IsIsolated :
      {k : Kernel} (cur : ℕ) (o : Option (List ℕ))
      → IsIsolated k
      → IsIsolated (exec_path child_image read_file k cur o).0
  unfolding exec_path
  exec_path-IsIsolated cur none h = h
  exec_path-IsIsolated cur (some path) h = exec_image-IsIsolated cur path _ h

  sys_execve-IsIsolated :
      {k : Kernel} (cur : Option ℕ)
      → IsIsolated k
      → IsIsolated (sys_execve child_image read_file k cur).0
  unfolding sys_execve
  sys_execve-IsIsolated none h = h
  sys_execve-IsIsolated {k} (some cur) h =
      exec_path-IsIsolated cur (ustr k.mem (proc_at k cur) k.snap.rdi 40) h

  serve-IsIsolated :
      {k : Kernel} (wakes : List ℕ) (c : Call)
      → IsIsolated k
      → IsIsolated (serve child_image read_file wakes k c).0
  unfolding serve
  serve-IsIsolated ws write h = h
  serve-IsIsolated {k} ws exit h = sys_exit-IsIsolated ws k.current k.snap.rdi h
  serve-IsIsolated {k} ws sleep_ms h = sys_sleep-IsIsolated ws k.current k.snap.rdi h
  serve-IsIsolated ws getpid h = h
  serve-IsIsolated ws getppid h = h
  serve-IsIsolated ws get_ticks h = h
  serve-IsIsolated {k} ws fork h = sys_fork-IsIsolated k.current h
  serve-IsIsolated {k} ws execve h = sys_execve-IsIsolated k.current h
  serve-IsIsolated {k} ws waitpid h = sys_waitpid-IsIsolated ws k.current h
  serve-IsIsolated ws ps h = h
  serve-IsIsolated ws unknown h = h

  pub syscall_handler-IsIsolated :
      {k : Kernel} (wakes : List ℕ) (nr : ℕ)
      → IsIsolated k
      → IsIsolated (syscall_handler child_image read_file wakes k nr).0
  unfolding syscall_handler
  syscall_handler-IsIsolated ws nr h = serve-IsIsolated ws (decode (u32 nr)) h
