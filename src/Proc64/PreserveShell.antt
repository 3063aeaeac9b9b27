-- ===== src/Proc64/PreserveShell.antt =====
-- The entry points of src/proc64.c for the shell and the frames of the processes.
use aj.Common.{
  ℕ, zero, suc, ◌+◌, refl, inl, inr, Bool, true, false, Option, none, some, List, Bool-cases, ltb,
  not, ◌||◌, ◌==◌, length,
}
use aj.Proc64.State.{
  Kernel, Proc, proc_at, update_proc, run, zombie, is_free, is_zombie, max_procs, name_set, page,
}
use aj.Proc64.Window.{alloc_frames, load_image}
use aj.Proc64.Schedule.{is_index}
use aj.Proc64.Jobs.{
  kill_at, clear_current, reap_shell_at, reap_ppid0, shell_has_ppid0, spawn_in, spawn_image,
}
use aj.Proc64.Shell.{
  wait_for, shell_wait, shell_wait_resumed, name_or_proc, spawned, proc64_spawn, poll_picked,
  shell_poll, boot_test_started, boot_test, m17_test_started, m17_test, release_from, test_resumed,
}
use aj.Proc64.Isolation.{
  IsIsolated, update-IsIsolated, proc_slot-IsIsolated, proc_release-IsIsolated,
  alloc_frames-IsIsolated,
}
use aj.Proc64.Preserve.{
  elsewhere, wake_sleepers-IsIsolated, pick_next-IsIsolated, dispatch_next-IsIsolated,
}
use aj.Proc64.PreserveCalls.{load_image-IsIsolated}

clear_current-IsIsolated : {k : Kernel} (i : ℕ) → IsIsolated k → IsIsolated (clear_current k i)
clear_current-IsIsolated {k} i h = elim (Bool-cases (is_index k.current i)) [
  | inl e ↦ rw e (elsewhere h refl refl)
  | inr e ↦ rw e h
]

pub kill_at-IsIsolated :
    {k : Kernel} (pid : ℕ) (o : Option ℕ) → IsIsolated k → IsIsolated (kill_at k pid o).0
unfolding kill_at
kill_at-IsIsolated pid none h = h
kill_at-IsIsolated {k} pid (some i) h =
    elim (Bool-cases (pid == 0 || is_zombie (proc_at k i).state)) [
      | inl e ↦ rw e h
      | inr e ↦ rw e (
          clear_current-IsIsolated i
            (update-IsIsolated i (λ p. record p { exit_code = 9; state = zombie }) h (λ a p. refl)))
    ]

reap_ppid0-IsIsolated : {k : Kernel} (pid : ℕ) → IsIsolated k → IsIsolated (reap_ppid0 k pid).0
unfolding reap_ppid0
reap_ppid0-IsIsolated {k} pid h = go _
  where
    go : (o : Option ℕ) → IsIsolated (reap_shell_at k o).0
    go none = unfold reap_shell_at in h
    go (some i) = unfold reap_shell_at in proc_release-IsIsolated i h

spawn_in-IsIsolated :
    (name img : List ℕ) (ppid : ℕ) (r : Kernel × Option ℕ)
    → IsIsolated r.0
    → IsIsolated (spawn_in name img ppid r).0
unfolding spawn_in
spawn_in-IsIsolated name img ppid (k, none) h = h
spawn_in-IsIsolated name img ppid (k, some i) h = elim (Bool-cases (not k1.1)) [
  | inl e ↦ rw e (proc_release-IsIsolated i h1)
  | inr e ↦ elim (Bool-cases (not k2.1)) [
    | inl f ↦ rw (e, f) (proc_release-IsIsolated i h2)
    | inr f ↦ rw (e, f) (update-IsIsolated i (λ p. record p { state = run }) h2 (λ a p. refl))
  ]
]
  where
    f : Proc → Proc
    f = λ p. record p { ppid = ppid; name = name_set name }

    k1 : Kernel × Bool
    k1 = alloc_frames (update_proc k i f) i

    h1 : IsIsolated k1.0
    h1 = alloc_frames-IsIsolated i (update-IsIsolated i f h (λ a p. refl))

    k2 : Kernel × Bool
    k2 = load_image k1.0 i img

    h2 : IsIsolated k2.0
    h2 = load_image-IsIsolated i img h1

spawn_image-IsIsolated :
    {k : Kernel} (name img : List ℕ) (ppid : ℕ)
    → IsIsolated k
    → IsIsolated (spawn_image k name img ppid).0
unfolding spawn_image
spawn_image-IsIsolated name img ppid h =
    spawn_in-IsIsolated name img ppid _ (proc_slot-IsIsolated h)

wait_for-IsIsolated :
    (ws : List ℕ) (pid : ℕ) (r : Kernel × Option (ℕ × ℕ))
    → IsIsolated r.0
    → IsIsolated (wait_for ws pid r).0
unfolding wait_for
wait_for-IsIsolated ws pid (k, some (id, code)) h = h
wait_for-IsIsolated ws pid (k, none) h = elim (Bool-cases (not (shell_has_ppid0 k pid))) [
  | inl e ↦ rw e h
  | inr e ↦ rw e (dispatch_next-IsIsolated ws _ (elsewhere h refl refl))
]

pub shell_wait-IsIsolated :
    {k : Kernel} (ws : List ℕ) (pid : ℕ) → IsIsolated k → IsIsolated (shell_wait ws k pid).0
unfolding shell_wait
shell_wait-IsIsolated ws pid h = wait_for-IsIsolated ws pid _ (reap_ppid0-IsIsolated pid h)

pub shell_wait_resumed-IsIsolated :
    {k : Kernel} (ws : List ℕ) (pid : ℕ) → IsIsolated k → IsIsolated (shell_wait_resumed ws k pid).0
unfolding shell_wait_resumed
shell_wait_resumed-IsIsolated ws pid h = shell_wait-IsIsolated ws pid (elsewhere h refl refl)

spawned-IsIsolated :
    (ws : List ℕ) (bg : Bool) (r : Kernel × Option ℕ)
    → IsIsolated r.0
    → IsIsolated (spawned ws bg r).0
unfolding spawned
spawned-IsIsolated ws bg (k, none) h = h
spawned-IsIsolated ws true (k, some i) h =
    update-IsIsolated i (λ p. record p { background = true }) h (λ a p. refl)
spawned-IsIsolated ws false (k, some i) h =
    shell_wait-IsIsolated ws _
      (update-IsIsolated i (λ p. record p { background = false }) h (λ a p. refl))

pub proc64_spawn-IsIsolated :
    {k : Kernel} (ws img : List ℕ) (name : Option (List ℕ)) (bg : Bool)
    → IsIsolated k
    → IsIsolated (proc64_spawn ws k img name bg).0
unfolding proc64_spawn
proc64_spawn-IsIsolated ws img name bg h =
    elim (Bool-cases (length img == 0 || ltb page (length img))) [
      | inl e ↦ rw e h
      | inr e ↦
          rw e (spawned-IsIsolated ws bg _ (spawn_image-IsIsolated (name_or_proc name) img 0 h))
    ]

poll_picked-IsIsolated :
    (ws : List ℕ) (r : Kernel × Option ℕ) → IsIsolated r.0 → IsIsolated (poll_picked ws r).0
unfolding poll_picked
poll_picked-IsIsolated ws (k, none) h = h
poll_picked-IsIsolated ws (k, some i) h = dispatch_next-IsIsolated ws _ (elsewhere h refl refl)

pub shell_poll-IsIsolated :
    {k : Kernel} (ws : List ℕ) → IsIsolated k → IsIsolated (shell_poll ws k).0
unfolding shell_poll
shell_poll-IsIsolated ws h =
    poll_picked-IsIsolated ws _ (pick_next-IsIsolated none true (wake_sleepers-IsIsolated h))

boot_test_started-IsIsolated :
    (ws : List ℕ) (r : Kernel × Option ℕ) → IsIsolated r.0 → IsIsolated (boot_test_started ws r).0
unfolding boot_test_started
boot_test_started-IsIsolated ws (k, none) h = h
boot_test_started-IsIsolated ws (k, some i) h =
    dispatch_next-IsIsolated ws _ (elsewhere h refl refl)

pub boot_test-IsIsolated :
    {k : Kernel} (ws name img : List ℕ) → IsIsolated k → IsIsolated (boot_test ws k name img).0
unfolding boot_test
boot_test-IsIsolated ws name img h =
    boot_test_started-IsIsolated ws _ (spawn_image-IsIsolated name img 0 h)

m17_test_started-IsIsolated :
    (ws : List ℕ) (r : Kernel × Option ℕ) → IsIsolated r.0 → IsIsolated (m17_test_started ws r).0
unfolding m17_test_started
m17_test_started-IsIsolated ws (k, none) h = h
m17_test_started-IsIsolated ws (k, some i) h = dispatch_next-IsIsolated ws _ (elsewhere h refl refl)

pub m17_test-IsIsolated :
    {k : Kernel} (ws name img : List ℕ) → IsIsolated k → IsIsolated (m17_test ws k name img).0
unfolding m17_test
m17_test-IsIsolated ws name img h =
    m17_test_started-IsIsolated ws _ (spawn_image-IsIsolated name img 0 h)

release_from-IsIsolated : (n i : ℕ) (k : Kernel) → IsIsolated k → IsIsolated (release_from n i k)
unfolding release_from
release_from-IsIsolated zero i k h = h
release_from-IsIsolated (suc n) i k h = elim (Bool-cases (is_free (proc_at k i).state)) [
  | inl e ↦ rw e (release_from-IsIsolated n (i + 1) k h)
  | inr e ↦ rw e (release_from-IsIsolated n (i + 1) _ (proc_release-IsIsolated i h))
]

pub test_resumed-IsIsolated : {k : Kernel} → IsIsolated k → IsIsolated (test_resumed k)
unfolding test_resumed
test_resumed-IsIsolated h = release_from-IsIsolated max_procs 0 _ (elsewhere h refl refl)
