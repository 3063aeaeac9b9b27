-- ===== src/Proc64/Preserve.antt =====
-- The loops of src/proc64.c over the table, and the frames of the processes.
use aj.Common.{
  ℕ, zero, suc, ◌+◌, ◌≡◌, refl, inl, inr, Bool, true, false, Option, none, some, List, [], ◌∷◌,
  Bool-cases, arith, ◌==◌,
}
use aj.Vm64.{Vm, vm64_map_user}
use aj.Vm64.Frames.{vm64_map_user-Takes}
use aj.Proc64.State.{Kernel, proc_at, is_wait, max_procs, user_base, user_stack}
use aj.Proc64.Window.{map_proc}
use aj.Proc64.Wait.{
  wake_one, wake_sleepers, reap_at, reap_one, report_status, settle_wait, complete_wait,
  complete_from, complete_waits, has_child,
}
use aj.Proc64.Schedule.{
  is_idle, choose, pick_next, enter, focus_done, dispatch_round, dispatch_next,
}
use aj.Proc64.Isolation.{
  IsIsolated, IsIsolated-same, uses-map_same, update-IsIsolated, proc_release-IsIsolated,
}

-- A change to anything but the table and the allocator.
pub elsewhere : {k k' : Kernel} → IsIsolated k → k'.pmm ≡ k.pmm → k'.procs ≡ k.procs → IsIsolated k'
elsewhere {k} {k'} h e f = IsIsolated-same h e (λ a ne. rw f (omega arith))

pub wake_sleepers-IsIsolated : {k : Kernel} → IsIsolated k → IsIsolated (wake_sleepers k)
unfolding wake_sleepers
wake_sleepers-IsIsolated {k} h =
    IsIsolated-same h refl
      (λ a ne. omega (arith, uses-map_same a k.procs (wake_one k.ticks) (λ p. ground arith)))

pub report_status-IsIsolated :
    {k : Kernel} (parent status code : ℕ)
    → IsIsolated k
    → IsIsolated (report_status k parent status code)
unfolding report_status
report_status-IsIsolated {k} parent status code h = elim (Bool-cases (status == 0)) [
  | inl e ↦ rw e h
  | inr e ↦ rw e (elsewhere h refl refl)
]

pub reap_at-IsIsolated :
    {k : Kernel} (parent status : ℕ) (o : Option ℕ)
    → IsIsolated k
    → IsIsolated (reap_at k parent status o).0
unfolding reap_at
reap_at-IsIsolated parent status none h = h
reap_at-IsIsolated {k} parent status (some c) h =
    proc_release-IsIsolated c (report_status-IsIsolated parent status _ h)

pub reap_one-IsIsolated :
    {k : Kernel} (parent pid status : ℕ)
    → IsIsolated k
    → IsIsolated (reap_one k parent pid status).0
unfolding reap_one
reap_one-IsIsolated parent pid status h = reap_at-IsIsolated parent status _ h

pub settle_wait-IsIsolated :
    (k : Kernel) (i : ℕ) (r : Kernel × Option ℕ) → IsIsolated r.0 → IsIsolated (settle_wait k i r)
unfolding settle_wait
settle_wait-IsIsolated k i (k', some pid) h = update-IsIsolated i _ h (λ a p. refl)
settle_wait-IsIsolated k i (k', none) h = elim (Bool-cases (has_child k' i (proc_at k i).wpid)) [
  | inl e ↦ rw e h
  | inr e ↦ rw e (update-IsIsolated i _ h (λ a p. refl))
]

pub complete_wait-IsIsolated : {k : Kernel} (i : ℕ) → IsIsolated k → IsIsolated (complete_wait k i)
unfolding complete_wait
complete_wait-IsIsolated {k} i h = elim (Bool-cases (is_wait (proc_at k i).state)) [
  | inl e ↦ rw e (settle_wait-IsIsolated k i _ (reap_one-IsIsolated i _ _ h))
  | inr e ↦ rw e h
]

pub complete_from-IsIsolated :
    (n i : ℕ) (k : Kernel) → IsIsolated k → IsIsolated (complete_from n i k)
unfolding complete_from
complete_from-IsIsolated zero i k h = h
complete_from-IsIsolated (suc n) i k h =
    complete_from-IsIsolated n (i + 1) (complete_wait k i) (complete_wait-IsIsolated i h)

pub complete_waits-IsIsolated : {k : Kernel} → IsIsolated k → IsIsolated (complete_waits k)
unfolding complete_waits
complete_waits-IsIsolated {k} h = complete_from-IsIsolated max_procs 0 k h

pub choose-IsIsolated :
    {k : Kernel} (start : ℕ) (o : Option ℕ) → IsIsolated k → IsIsolated (choose k start o).0
unfolding choose
choose-IsIsolated start none h = h
choose-IsIsolated start (some i) h = elsewhere h refl refl

pub pick_next-IsIsolated :
    {k : Kernel} (cur : Option ℕ) (same : Bool) → IsIsolated k → IsIsolated (pick_next k cur same).0
unfolding pick_next
pick_next-IsIsolated cur same h = choose-IsIsolated _ _ h

-- The tables of the window take frames from the allocator, but none that a process has.
pub map_proc-IsIsolated : {k : Kernel} (i : ℕ) → IsIsolated k → IsIsolated (map_proc k i)
unfolding map_proc
map_proc-IsIsolated {k} i h =
    let p = proc_at k i in
    let s : Vm = record { mem = k.tables; pmm = k.pmm; cr3 = k.cr3 } in
    let a = vm64_map_user-Takes s user_base p.code_phys false h.allocator in
    let b =
      vm64_map_user-Takes (vm64_map_user s user_base p.code_phys false) user_stack p.stack_phys true
        a.0 in
    record { allocator = b.0; owned = λ j l. omega (arith, a.1 j l, b.1 j l, h.owned j l) }

pub enter-IsIsolated : (r : Kernel × Option ℕ) → IsIsolated r.0 → IsIsolated (enter r).0
unfolding enter
enter-IsIsolated (k, some i) h = map_proc-IsIsolated i (elsewhere h refl refl)
enter-IsIsolated (k, none) h = IsIsolated-same h (ground arith) (λ a ne. ground arith)

pub dispatch_round-IsIsolated : {k : Kernel} → IsIsolated k → IsIsolated (dispatch_round k).0
unfolding dispatch_round
dispatch_round-IsIsolated {k} h = elim (Bool-cases (focus_done k1)) [
  | inl e ↦ elim (Bool-cases k1.kernel_armed) [
    | inl f ↦ rw (e, f) (elsewhere h1 refl refl)
    | inr f ↦
        rw (e, f) (enter-IsIsolated _ (pick_next-IsIsolated none true (elsewhere h1 refl refl)))
  ]
  | inr e ↦ rw e (enter-IsIsolated _ (pick_next-IsIsolated none true h1))
]
  where
    k1 : Kernel
    k1 = complete_waits (wake_sleepers k)

    h1 : IsIsolated k1
    h1 = complete_waits-IsIsolated (wake_sleepers-IsIsolated h)

pub dispatch_next-IsIsolated :
    (ts : List ℕ) (k : Kernel) → IsIsolated k → IsIsolated (dispatch_next ts k).0
unfolding dispatch_next
dispatch_next-IsIsolated [] k h = dispatch_round-IsIsolated h
dispatch_next-IsIsolated (t ∷ ts) k h = elim (Bool-cases (is_idle (dispatch_round k).1)) [
  | inl e ↦ rw e (dispatch_next-IsIsolated ts _ (elsewhere (dispatch_round-IsIsolated h) refl refl))
  | inr e ↦ rw e (dispatch_round-IsIsolated h)
]
