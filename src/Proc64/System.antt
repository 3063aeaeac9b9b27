-- ===== src/Proc64/System.antt =====
-- The kernel of src/proc64.c as a whole: its system calls, the timer interrupt, its entry points for the shell,
-- and the states that they reach.
use aj.Common.{
  ℕ, ◌+◌, ◌≡◌, refl, inl, inr, Bool, false, Option, none, some, List, replicate, Bool-cases, ltb,
  arith, Memory, not, ◌&&◌, ◌==◌, bit_and, get_or,
}
use aj.Pmm64.Laws.{IsPmm64}
use aj.Proc64.State.{Kernel, Uctx, zero_proc, proc_at, is_run, max_procs, quantum}
use aj.Proc64.Table.{proc_by_pid}
use aj.Proc64.Wait.{wake_sleepers, complete_waits}
use aj.Proc64.Schedule.{save_frame, switch_to, end_quantum, preempt, on_timer, ctx_from_frame}
use aj.Proc64.Syscalls.{syscall_handler}
use aj.Proc64.Jobs.{kill}
use aj.Proc64.Shell.{
  proc64_spawn, shell_wait, shell_wait_resumed, shell_poll, shell_poll_resumed, boot_test, m17_test,
  test_resumed,
}
use aj.Proc64.PreserveShell.{
  kill_at-IsIsolated, proc64_spawn-IsIsolated, shell_wait-IsIsolated, shell_wait_resumed-IsIsolated,
  shell_poll-IsIsolated, boot_test-IsIsolated, m17_test-IsIsolated, test_resumed-IsIsolated,
}
use aj.Proc64.Isolation.{IsIsolated, uses, update-IsIsolated}
use aj.Proc64.Preserve.{
  elsewhere, map_proc-IsIsolated, complete_waits-IsIsolated, wake_sleepers-IsIsolated,
  pick_next-IsIsolated,
}
use aj.Proc64.PreserveCalls.{syscall_handler-IsIsolated}

save_frame-IsIsolated :
    {k : Kernel} (i : ℕ) (fr : List ℕ) → IsIsolated k → IsIsolated (save_frame k i fr)
save_frame-IsIsolated i fr h =
    update-IsIsolated i (λ p. record p { ctx = ctx_from_frame fr }) h (λ a p. refl)

switch_to-IsIsolated :
    (cur : ℕ) (fr : List ℕ) (r : Kernel × Option ℕ)
    → IsIsolated r.0
    → IsIsolated (switch_to cur fr r).0
unfolding switch_to
switch_to-IsIsolated cur fr (k, none) h = h
switch_to-IsIsolated cur fr (k, some n) h = elim (Bool-cases (n == cur)) [
  | inl e ↦ rw e h
  | inr e ↦ rw e (map_proc-IsIsolated n (elsewhere (save_frame-IsIsolated cur fr h) refl refl))
]

end_quantum-IsIsolated :
    {k : Kernel} (cur : ℕ) (fr : List ℕ) → IsIsolated k → IsIsolated (end_quantum k cur fr).0
unfolding end_quantum
end_quantum-IsIsolated {k} cur fr h = elim (Bool-cases (k1.shell_poll_mode && k1.kernel_armed)) [
  | inl e ↦ rw e (elsewhere (save_frame-IsIsolated cur fr h1) refl refl)
  | inr e ↦ rw e (switch_to-IsIsolated cur fr _ (pick_next-IsIsolated (some cur) false h1))
]
  where
    k1 : Kernel
    k1 = complete_waits (wake_sleepers (record k { slice = 0 }))

    h1 : IsIsolated k1
    h1 = complete_waits-IsIsolated (wake_sleepers-IsIsolated (elsewhere h refl refl))

preempt-IsIsolated :
    {k : Kernel} (o : Option ℕ) (fr : List ℕ) → IsIsolated k → IsIsolated (preempt k o fr).0
unfolding preempt
preempt-IsIsolated none fr h = h
preempt-IsIsolated {k} (some cur) fr h = elim (Bool-cases (not (is_run (proc_at k cur).state))) [
  | inl e ↦ rw e h
  | inr e ↦ elim (Bool-cases (ltb (k.slice + 1) quantum)) [
    | inl f ↦ rw (e, f) (elsewhere h refl refl)
    | inr f ↦ rw (e, f) (end_quantum-IsIsolated cur fr h)
  ]
]

on_timer-IsIsolated : {k : Kernel} (fr : List ℕ) → IsIsolated k → IsIsolated (on_timer k fr).0
unfolding on_timer
on_timer-IsIsolated {k} fr h = elim (Bool-cases (bit_and (get_or fr 16 0) 3 == 3)) [
  | inl e ↦ rw e (preempt-IsIsolated _ fr (elsewhere h refl refl))
  | inr e ↦ rw e (elsewhere h refl refl)
]

-- What can happen to the kernel between two moments: a system call, a timer interrupt, a call of the shell or
-- of a start-up test, control coming back to one of these from the scheduler, or the running process changing its
-- registers and memory. They may follow one another in any order.
pub data Step (child_image : List ℕ) (read_file : List ℕ → Option (List ℕ))
    : Kernel → Kernel → Type 0 where
  call :
      {k : Kernel} (wakes : List ℕ) (nr : ℕ)
      → Step child_image read_file k (syscall_handler child_image read_file wakes k nr).0
  timer : {k : Kernel} (fr : List ℕ) → Step child_image read_file k (on_timer k fr).0
  killing : {k : Kernel} (pid : ℕ) → Step child_image read_file k (kill k pid).0
  spawning :
      {k : Kernel} (wakes img : List ℕ) (name : Option (List ℕ)) (bg : Bool)
      → Step child_image read_file k (proc64_spawn wakes k img name bg).0
  waiting :
      {k : Kernel} (wakes : List ℕ) (pid : ℕ)
      → Step child_image read_file k (shell_wait wakes k pid).0
  back_in_wait :
      {k : Kernel} (wakes : List ℕ) (pid : ℕ)
      → Step child_image read_file k (shell_wait_resumed wakes k pid).0
  polling : {k : Kernel} (wakes : List ℕ) → Step child_image read_file k (shell_poll wakes k).0
  back_in_poll : {k : Kernel} → Step child_image read_file k (shell_poll_resumed k)
  testing :
      {k : Kernel} (wakes name img : List ℕ)
      → Step child_image read_file k (boot_test wakes k name img).0
  testing_m17 :
      {k : Kernel} (wakes name img : List ℕ)
      → Step child_image read_file k (m17_test wakes k name img).0
  back_in_test : {k : Kernel} → Step child_image read_file k (test_resumed k)
  user :
      {k : Kernel} (regs : Uctx) (m : Memory)
      → Step child_image read_file k (record k { snap = regs; mem = m })

pub data Reach (child_image : List ℕ) (read_file : List ℕ → Option (List ℕ)) (k : Kernel)
    : Kernel → Type 0 where
  here : Reach child_image read_file k k
  next :
      {l m : Kernel}
      → Reach child_image read_file k l
      → Step child_image read_file l m
      → Reach child_image read_file k m

-- The table as the kernel starts: eight free slots, and whatever frames the kernel took for itself.
abbrev pub Boots : Kernel → Type 0
Boots k = (k.procs ≡ replicate max_procs zero_proc) × IsPmm64 k.pmm

Boots-IsIsolated : {k : Kernel} → Boots k → IsIsolated k
unfolding uses
Boots-IsIsolated h = record { allocator = h.1; owned = λ i l. rw h.0 (ground arith) }

module _ {child_image : List ℕ} {read_file : List ℕ → Option (List ℕ)} where
  Step-IsIsolated : {k l : Kernel} → Step child_image read_file k l → IsIsolated k → IsIsolated l
  unfolding kill
  Step-IsIsolated (call ws nr) h = syscall_handler-IsIsolated child_image read_file ws nr h
  Step-IsIsolated (timer fr) h = on_timer-IsIsolated fr h
  Step-IsIsolated (killing {k} pid) h = kill_at-IsIsolated pid (proc_by_pid k pid) h
  Step-IsIsolated (spawning ws img name bg) h = proc64_spawn-IsIsolated ws img name bg h
  Step-IsIsolated (waiting ws pid) h = shell_wait-IsIsolated ws pid h
  Step-IsIsolated (back_in_wait ws pid) h = shell_wait_resumed-IsIsolated ws pid h
  Step-IsIsolated (polling ws) h = shell_poll-IsIsolated ws h
  Step-IsIsolated back_in_poll h = elsewhere h refl refl
  Step-IsIsolated (testing ws name img) h = boot_test-IsIsolated ws name img h
  Step-IsIsolated (testing_m17 ws name img) h = m17_test-IsIsolated ws name img h
  Step-IsIsolated back_in_test h = test_resumed-IsIsolated h
  Step-IsIsolated (user regs m) h = elsewhere h refl refl

  -- In every state that the kernel reaches from its start, by any sequence of system calls, timer
  -- interrupts, calls of the shell and the start-up tests (spawn, kill, foreground wait, background poll), returns of
  -- control to these, and actions of user programs, each physical frame is the code or the stack
  -- of at most one process, at most once, and of none if the allocator counts it as free.
  pub Reach-IsIsolated : {k l : Kernel} → Boots k → Reach child_image read_file k l → IsIsolated l
  Reach-IsIsolated b here = Boots-IsIsolated b
  Reach-IsIsolated b (next r s) = Step-IsIsolated s (Reach-IsIsolated b r)
