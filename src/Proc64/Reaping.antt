-- ===== src/Proc64/Reaping.antt =====
-- The collection of dead children in src/proc64.c, for `waitpid` and for the shell.
use aj.Common.{
  ℕ, ◌<◌, ◌≡◌, ◌≢◌, refl, true, false, Option, none, some, arith, IsFirstFrom,
  first_from-IsFirstFrom, get_or-modify_ne, get_or-modify_default, ◌∙◌,
}
use aj.Proc64.State.{Kernel, zero_proc, proc_at, is_zombie, max_procs}
use aj.Proc64.Table.{proc_release}
use aj.Proc64.Wait.{is_child, is_dead_child, report_status, reap_at, reap_one}

release-proc_at :
    (k : Kernel) (c : ℕ)
    → (proc_at (proc_release k c) c ≡ zero_proc)
      × ((j : ℕ) → c ≢ j → proc_at (proc_release k c) j ≡ proc_at k j)
unfolding proc_release
release-proc_at k c = (
  get_or-modify_default k.procs c zero_proc,
  λ j ne. get_or-modify_ne k.procs c j (λ _. zero_proc) zero_proc ne,
)

report_status-procs :
    (k : Kernel) (parent status code : ℕ) → (report_status k parent status code).procs ≡ k.procs
unfolding report_status
report_status-procs k parent status code = ground arith

-- `reap_one` returns the pid of a dead child that matches and empties its slot and no other; or it
-- returns nothing, and changes nothing, because there is no such child.
abbrev pub Reaps : Kernel → ℕ → ℕ → Kernel × Option ℕ → Type 0
Reaps k parent pid (k', none) =
    (k' ≡ k) × ((c : ℕ) → c < max_procs → is_dead_child k parent pid c ≡ false)
Reaps k parent pid (k', some reaped) =
    (c : ℕ) × (c < max_procs)
    × (is_child k c parent pid ≡ true)
    × (is_zombie (proc_at k c).state ≡ true)
    × (reaped ≡ (proc_at k c).pid)
    × (proc_at k' c ≡ zero_proc)
    × ((j : ℕ) → c ≢ j → proc_at k' j ≡ proc_at k j)

reap_at-Reaps :
    (k : Kernel) (parent pid status : ℕ) (o : Option ℕ)
    → IsFirstFrom (is_dead_child k parent pid) max_procs 0 o
    → Reaps k parent pid (reap_at k parent status o)
unfolding reap_at
reap_at-Reaps k parent pid status none h = (refl, λ c l. h c (omega arith) (omega arith))
reap_at-Reaps k parent pid status (some c) h =
    let told = report_status k parent status (proc_at k c).exit_code in
    let gone = release-proc_at told c in
    let same : told.procs ≡ k.procs = report_status-procs k parent status _ in
    let dead = h.2 in
    (
      c,
      omega (arith, h.1),
      unfold is_dead_child in ground arith,
      unfold is_dead_child in ground arith,
      refl,
      gone.0,
      λ j ne. gone.1 j ne ∙ (rw same),
    )

-- A call of `reap_one` for a parent finds a dead child that matches, if there is one, returns its pid
-- and empties its slot, and leaves every other slot as it is; if there is none it changes nothing.
pub reap_one-Reaps :
    (k : Kernel) (parent pid status : ℕ) → Reaps k parent pid (reap_one k parent pid status)
unfolding reap_one
reap_one-Reaps k parent pid status =
    reap_at-Reaps k parent pid status _ (first_from-IsFirstFrom _ _ _)
