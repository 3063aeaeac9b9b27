-- ===== src/Proc64/Wait.antt =====
-- Children, zombies and waiting in src/proc64.c.
use aj.Common.{
  ℕ, zero, suc, ◌+◌, ◌-◌, ◌^◌, Bool, not, ◌&&◌, ◌||◌, Option, none, some, map, ◌==◌, ltb,
  if◌then◌else◌, u64, first_from, is_some,
}
use aj.Proc64.State.{
  Kernel, Proc, run, proc_at, update_proc, is_free, is_sleep, is_wait, is_zombie, minus_one,
  max_procs,
}
use aj.Proc64.Table.{proc_release}
use aj.Proc64.Window.{uwrite64}

-- `(long long)(now - wake) >= 0`: the sign of the difference of two 64-bit words.
abbrev pub reached : ℕ → ℕ → Bool
reached now wake = ltb (u64 (now + 2 ^ 64 - wake)) (2 ^ 63)

abbrev pub wake_one : ℕ → Proc → Proc
wake_one now p = if is_sleep p.state && reached now p.wake then record p { state = run } else p

unfoldable pub wake_sleepers : Kernel → Kernel
wake_sleepers k = record k { procs = map (wake_one k.ticks) k.procs }

-- `is_child(c, parent, pid)` for two indices; pid 0 is any child.
unfoldable pub is_child : Kernel → ℕ → ℕ → ℕ → Bool
is_child k c parent pid =
    not (is_free (proc_at k c).state)
    && not (c == parent)
    && (proc_at k c).ppid == (proc_at k parent).pid
    && (pid == 0 || (proc_at k c).pid == pid)

unfoldable pub is_dead_child : Kernel → ℕ → ℕ → ℕ → Bool
unfolding is_child
is_dead_child k parent pid c = is_child k c parent pid && is_zombie (proc_at k c).state

-- `if (status_u) uwrite64(parent, status_u, code);`
unfoldable pub report_status : Kernel → ℕ → ℕ → ℕ → Kernel
report_status k parent status code =
    if status == 0 then k else record k { mem = (uwrite64 k.mem (proc_at k parent) status code).0 }

unfoldable pub reap_at : Kernel → ℕ → ℕ → Option ℕ → Kernel × Option ℕ
unfolding report_status
reap_at k parent status none = (k, none)
reap_at k parent status (some c) =
    (proc_release (report_status k parent status (proc_at k c).exit_code) c, some (proc_at k c).pid)

-- Reaps the first dead child that matches; the result is its pid.
unfoldable pub reap_one : Kernel → ℕ → ℕ → ℕ → Kernel × Option ℕ
unfolding reap_at is_dead_child
reap_one k parent pid status =
    reap_at k parent status (first_from (is_dead_child k parent pid) max_procs 0)

unfoldable pub has_child : Kernel → ℕ → ℕ → Bool
unfolding is_child
has_child k parent pid = is_some (first_from (λ c. is_child k c parent pid) max_procs 0)

-- `p->ctx.rax = v; p->state = ST_RUN;`
abbrev pub resume_with : Kernel → ℕ → ℕ → Kernel
resume_with k i v =
    update_proc k i (λ p. record p { state = run; ctx = record (p.ctx) { rax = v } })

unfoldable pub settle_wait : Kernel → ℕ → Kernel × Option ℕ → Kernel
unfolding has_child
settle_wait k i (k', some reaped) = resume_with k' i reaped
settle_wait k i (k', none) =
    if has_child k' i (proc_at k i).wpid then k' else resume_with k' i minus_one

-- One round of the loop of `complete_waits`.
unfoldable pub complete_wait : Kernel → ℕ → Kernel
unfolding settle_wait reap_one
complete_wait k i =
    let p = proc_at k i in
    if is_wait p.state then settle_wait k i (reap_one k i p.wpid p.wstatus) else k

unfoldable pub complete_from : ℕ → ℕ → Kernel → Kernel
unfolding complete_wait
complete_from zero i k = k
complete_from (suc n) i k = complete_from n (i + 1) (complete_wait k i)

unfoldable pub complete_waits : Kernel → Kernel
unfolding complete_from
complete_waits k = complete_from max_procs 0 k
