-- ===== src/Proc64/Schedule.antt =====
-- The round-robin scheduler of src/proc64.c: the choice of the next process, the dispatch loop and the
-- timer interrupt. A function that does not return yields where control goes instead.
use aj.Common.{
  ℕ, ◌+◌, ◌%◌, bit_and, bit_or, Bool, true, false, not, ◌&&◌, ◌||◌, Option, none, some, List, [],
  ◌∷◌, ◌==◌, ltb, if◌then◌else◌, u64, get_or, first_from, is_some,
}
use aj.Proc64.State.{
  Kernel, Uctx, proc_at, update_proc, is_free, is_run, is_sleep, is_zombie, max_procs, quantum,
}
use aj.Proc64.Window.{map_proc}
use aj.Proc64.Wait.{wake_sleepers, complete_waits}

-- `returns v`: to the caller in the kernel, and so to the process that made the call. `to_user i`:
-- process `i` goes on in ring 3. `to_shell`: back at `proc_save_kernel`. `halted`: hlt for ever.
-- `idle`: hlt until an interrupt, then another round. `shell_loop`: `sh64_run`.
pub data Flow : Type 0 where
  returns : ℕ → Flow
  to_user : ℕ → Flow
  to_shell halted idle shell_loop : Flow

abbrev pub is_index : Option ℕ → ℕ → Bool
is_index none i = false
is_index (some c) i = i == c

-- The process may be chosen: it is not `cur`, if that one is excluded, and it can run.
unfoldable pub eligible : Kernel → Option ℕ → Bool → ℕ → Bool
eligible k cur allow_same i =
    not (is_index cur i && not allow_same)
    && (is_run (proc_at k i).state && not ((proc_at k i).code_phys == 0))

abbrev pub start_of : Kernel → Option ℕ → ℕ
start_of k none = k.rr
start_of k (some c) = c

-- The slot that the loop looks at in round `i`.
abbrev pub slot_after : ℕ → ℕ → ℕ
slot_after start i = (start + i) % max_procs

unfoldable pub choose : Kernel → ℕ → Option ℕ → Kernel × Option ℕ
choose k start none = (k, none)
choose k start (some i) = (record k { rr = slot_after start i }, some (slot_after start i))

unfoldable pub pick_next : Kernel → Option ℕ → Bool → Kernel × Option ℕ
unfolding choose eligible
pick_next k cur allow_same =
    let start = start_of k cur in
    choose k start (first_from (λ i. eligible k cur allow_same (slot_after start i)) max_procs 1)

unfoldable pub any_sleeping : Kernel → Bool
any_sleeping k = is_some (first_from (λ i. is_sleep (proc_at k i).state) max_procs 0)

-- A child of the shell that a foreground wait looks for.
unfoldable pub in_focus : Kernel → ℕ → Bool
in_focus k i =
    not (is_free (proc_at k i).state)
    && (proc_at k i).ppid == 0
    && (k.focus_pid == 0xffff_ffff || (proc_at k i).pid == k.focus_pid)

unfoldable pub focus_done : Kernel → Bool
unfolding in_focus
focus_done k =
    if k.focus_pid == 0
    then false
    else if is_some (first_from (λ i. in_focus k i && is_zombie (proc_at k i).state) max_procs 0)
    then true
    else not (is_some (first_from (in_focus k) max_procs 0))

-- What follows the choice in the dispatch loop.
unfoldable pub enter : Kernel × Option ℕ → Kernel × Flow
enter (k, some i) = (map_proc (record k { current = some i }) i, to_user i)
enter (k, none) =
    let k' = record k { current = none } in
    if k.shell_poll_mode && k.kernel_armed
    then (k', to_shell)
    else if any_sleeping k
    then (k', idle)
    else if k.kernel_armed
    then (k', to_shell)
    else (k', halted)

-- One round of the loop of `proc64_dispatch_next`.
unfoldable pub dispatch_round : Kernel → Kernel × Flow
unfolding enter focus_done
dispatch_round k =
    let k1 = complete_waits (wake_sleepers k) in
    if focus_done k1
    then (if k1.kernel_armed
        then (record k1 { current = none }, to_shell)
        else enter (pick_next (record k1 { current = none }) none true))
    else enter (pick_next k1 none true)

abbrev pub is_idle : Flow → Bool
is_idle idle = true
is_idle _ = false

-- `proc64_dispatch_next`. The list has the timer's value at each interrupt that ends a halt; where it
-- is used up the kernel still waits.
unfoldable pub dispatch_next : List ℕ → Kernel → Kernel × Flow
unfolding dispatch_round
dispatch_next [] k = dispatch_round k
dispatch_next (t ∷ ts) k =
    let (k', f) = dispatch_round k in
    let again = dispatch_next ts (record k' { ticks = t }) in if is_idle f then again else (k', f)

-- The registers at an interrupt, as `isr64_stub_32` and the CPU push them.
unfoldable pub ctx_from_frame : List ℕ → Uctx
ctx_from_frame fr =
    let at = λ (i : ℕ). get_or fr i 0 in
    record {
      rax = at 14;
      rbx = at 13;
      rcx = at 12;
      rdx = at 11;
      rsi = at 10;
      rdi = at 9;
      rbp = at 8;
      rsp = at 18;
      r8 = at 7;
      r9 = at 6;
      r10 = at 5;
      r11 = at 4;
      r12 = at 3;
      r13 = at 2;
      r14 = at 1;
      r15 = at 0;
      rip = at 15;
      rflags = bit_or (at 17) 2;
    }

unfoldable pub frame_from_ctx : Uctx → List ℕ
frame_from_ctx c =
    c.r15
    ∷ c.r14
    ∷ c.r13
    ∷ c.r12
    ∷ c.r11
    ∷ c.r10
    ∷ c.r9
    ∷ c.r8
    ∷ c.rbp
    ∷ c.rdi
    ∷ c.rsi
    ∷ c.rdx
    ∷ c.rcx
    ∷ c.rbx
    ∷ c.rax
    ∷ c.rip
    ∷ 0x2b
    ∷ bit_or c.rflags 2
    ∷ c.rsp
    ∷ 0x23
    ∷ []

abbrev pub save_frame : Kernel → ℕ → List ℕ → Kernel
save_frame k i fr = update_proc k i (λ p. record p { ctx = ctx_from_frame fr })

-- The switch at the end of the timer interrupt, from process `cur`.
unfoldable pub switch_to : ℕ → List ℕ → Kernel × Option ℕ → Kernel × List ℕ × Flow
unfolding ctx_from_frame frame_from_ctx
switch_to cur fr (k, none) = (k, fr, returns 0)
switch_to cur fr (k, some n) =
    if n == cur
    then (k, fr, returns 0)
    else (let k' =
          map_proc (record (save_frame k cur fr) { preempt_noted = true; current = some n }) n in
        (k', frame_from_ctx (proc_at k' n).ctx, returns 0))

-- The end of a quantum of process `cur`.
unfoldable pub end_quantum : Kernel → ℕ → List ℕ → Kernel × List ℕ × Flow
unfolding switch_to
end_quantum k cur fr =
    let k1 = complete_waits (wake_sleepers (record k { slice = 0 })) in
    if k1.shell_poll_mode && k1.kernel_armed
    then (record (save_frame k1 cur fr) { current = none }, fr, to_shell)
    else switch_to cur fr (pick_next k1 (some cur) false)

unfoldable pub preempt : Kernel → Option ℕ → List ℕ → Kernel × List ℕ × Flow
unfolding end_quantum
preempt k none fr = (k, fr, returns 0)
preempt k (some cur) fr =
    if not (is_run (proc_at k cur).state)
    then (k, fr, returns 0)
    else if ltb (k.slice + 1) quantum
    then (record k { slice = k.slice + 1 }, fr, returns 0)
    else end_quantum k cur fr

-- `proc64_on_timer`: the kernel, and the frame that the interrupt returns through.
unfoldable pub on_timer : Kernel → List ℕ → Kernel × List ℕ × Flow
unfolding preempt
on_timer k fr =
    let k' = record k { ticks = u64 (k.ticks + 1) } in
    if bit_and (get_or fr 16 0) 3 == 3 then preempt k' k'.current fr else (k', fr, returns 0)
