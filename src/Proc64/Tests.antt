-- ===== src/Proc64/Tests.antt =====
-- Examples of the process table of src/proc64.c, from a kernel that has just booted.
use aj.Common.{
  ℕ, ◌≡◌, ◌<◌, true, false, Option, none, List, [], ◌∷◌, refl, arith, replicate, modify, first_from,
}
use aj.Pmm64.{pmm64_init}
use aj.Pmm64.Owners.{init-IsPmm64}
use aj.Proc64.State.{Kernel, Proc, zero_proc, zero_uctx, max_procs, run, zombie}
use aj.Proc64.Schedule.{pick_next, choose, is_index, eligible}
use aj.Proc64.Wait.{reap_one}
use aj.Proc64.Syscalls.{syscall_handler}
use aj.Proc64.Shell.{proc64_spawn, shell_poll, shell_poll_resumed, shell_wait}
use aj.Proc64.Isolation.{IsIsolated}
use aj.Proc64.System.{
  Boots, Reach, here, next, spawning, call, polling, back_in_poll, waiting, Reach-IsIsolated,
}
use aj.Proc64.RoundRobin.{Picks, pick_next-Picks, unpassed, passed, picks_fair}
use aj.Proc64.Reaping.{Reaps, reap_one-Reaps}

abbrev booted : Kernel
booted = record {
  procs = replicate max_procs zero_proc;
  current = none;
  next_pid = 1;
  kernel_armed = false;
  preempt_noted = false;
  slice = 0;
  rr = 0;
  shell_poll_mode = false;
  focus_pid = 0;
  snap = zero_uctx;
  pmm = pmm64_init (λ _. 0);
  mem = λ _. 0;
  ticks = 0;
  tables = λ _. 0;
  cr3 = 0x1000;
}

booted-Boots : Boots booted
booted-Boots = (refl, init-IsPmm64)

abbrev no_files : List ℕ → Option (List ℕ)
no_files _ = none

-- A program is started in the background, makes the call `fork` in the time of a poll, and the shell waits for it.
abbrev running : Kernel
running = (proc64_spawn [] booted (0x90 ∷ []) none true).0

abbrev polled : Kernel
polled = (shell_poll [] running).0

abbrev forked : Kernel
forked = (syscall_handler [] no_files [] polled 16).0

abbrev waited : Kernel
waited = (shell_wait [] (shell_poll_resumed forked) 1).0

waited-Reach : Reach [] no_files booted waited
waited-Reach =
    next
      (next (next (next (next here (spawning [] (0x90 ∷ []) none true)) (polling [])) (call [] 16))
        back_in_poll)
      (waiting [] 1)

Reach-IsIsolated_example : IsIsolated waited
Reach-IsIsolated_example = Reach-IsIsolated booted-Boots waited-Reach

-- Slot 3 can run, slot 5 is a dead child of pid 7 that exited with 2.
abbrev runnable : Proc
runnable = record zero_proc { state = run; pid = 7; code_phys = 0x1000000 }

abbrev dead : Proc
dead = record zero_proc { state = zombie; pid = 9; ppid = 7; exit_code = 2 }

abbrev busy : Kernel
busy = record booted {
  procs = modify (modify (replicate max_procs zero_proc) 3 (λ _. runnable)) 5 (λ _. dead);
}

pick_next-Picks_example : Picks busy none true (pick_next busy none true)
pick_next-Picks_example = pick_next-Picks busy none true

-- Slots 1 and 3 can run, and a pick from slot 0 passes over slot 3.
abbrev crowded : Kernel
crowded = record busy { procs = modify busy.procs 1 (λ _. runnable) }

third_eligible : eligible crowded none true 3 ≡ true
unfolding eligible
third_eligible = refl

third_skipped : is_index (pick_next crowded none true).1 3 ≡ false
unfolding pick_next choose eligible first_from
third_skipped = refl

picks_fair_example : 1 < max_procs
picks_fair_example =
    picks_fair {i = 3} {n = 1} {k = (pick_next crowded none true).0} (omega arith)
      (passed {k = crowded} unpassed crowded none true refl third_eligible third_skipped)

reap_one-Reaps_example : Reaps busy 3 9 (reap_one busy 3 9 0)
reap_one-Reaps_example = reap_one-Reaps busy 3 9 0
