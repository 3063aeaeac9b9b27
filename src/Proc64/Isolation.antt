-- ===== src/Proc64/Isolation.antt =====
-- Ownership of frames in src/proc64.c: which frames belong to which process, and the allocator.
use aj.Common.{
  ℕ, zero, suc, ◌+◌, ◌*◌, ◌≤◌, ◌<◌, ◌≡◌, ◌≢◌, refl, inl, inr, ◌||◌, Option, none, some, List, [],
  ◌∷◌, map, ◌==◌, Bool-cases, to_ℕ, get_or, modify, arith,
}
use aj.Pmm64.{Pmm64, frame_size, start_address, frames, pmm64_alloc_frame}
use aj.Pmm64.Bitmap.{bm_tst-le}
use aj.Pmm64.Laws.{IsPmm64, taken, alloc_frame-Allocates, free_frame-Releases}
use aj.Proc64.State.{Kernel, Proc, zero_proc, proc_at, update_proc}
use aj.Proc64.Table.{proc_slot, claim_slot, free_if, proc_release}
use aj.Proc64.Window.{alloc_frames}

abbrev pub frame_address : ℕ → ℕ
frame_address i = start_address + i * frame_size

-- How often address `a` is a frame of `p`, and of a table.
abbrev pub uses_of : ℕ → Proc → ℕ
uses_of a p = to_ℕ (p.code_phys == a) + to_ℕ (p.stack_phys == a)

unfoldable pub uses : ℕ → List Proc → ℕ
uses a [] = 0
uses a (p ∷ ps) = uses_of a p + uses a ps

-- The allocator's own invariant; and a frame that is taken belongs to at most one process, as its code
-- or as its stack, and a frame that is not to none.
pub record IsIsolated (k : Kernel) : Type 0 where
  pub allocator : IsPmm64 k.pmm
  pub owned : (i : ℕ) → i < frames → uses (frame_address i) k.procs ≤ taken k.pmm i

module _ (a : ℕ) where
  pub uses-modify_same :
      (ps : List Proc) (i : ℕ) (f : Proc → Proc)
      → ((p : Proc) → uses_of a (f p) ≡ uses_of a p)
      → uses a (modify ps i f) ≡ uses a ps
  unfolding uses
  uses-modify_same [] i f h = refl
  uses-modify_same (p ∷ ps) zero f h = omega (arith, h p)
  uses-modify_same (p ∷ ps) (suc i) f h = omega (arith, uses-modify_same ps i f h)

  uses-modify_add :
      (ps : List Proc) (i n : ℕ) (f : Proc → Proc)
      → ((p : Proc) → uses_of a (f p) ≤ n)
      → uses a (modify ps i f) ≤ uses a ps + n
  unfolding uses
  uses-modify_add [] i n f h = omega arith
  uses-modify_add (p ∷ ps) zero n f h = omega (arith, h p)
  uses-modify_add (p ∷ ps) (suc i) n f h = omega (arith, uses-modify_add ps i n f h)

  uses-modify_zero :
      (ps : List Proc) (i : ℕ)
      → a ≢ 0
      → uses a (modify ps i (λ _. zero_proc)) + uses_of a (get_or ps i zero_proc) ≡ uses a ps
  unfolding uses
  uses-modify_zero [] i ne = ground arith
  uses-modify_zero (p ∷ ps) zero ne = ground arith
  uses-modify_zero (p ∷ ps) (suc i) ne = omega (arith, uses-modify_zero ps i ne)

  pub uses-map_same :
      (ps : List Proc) (f : Proc → Proc)
      → ((p : Proc) → uses_of a (f p) ≡ uses_of a p)
      → uses a (map f ps) ≡ uses a ps
  unfolding uses
  uses-map_same [] f h = refl
  uses-map_same (p ∷ ps) f h = omega (arith, h p, uses-map_same ps f h)

-- A step that leaves the allocator alone and gives no process a frame.
pub IsIsolated-same :
    {k k' : Kernel}
    → IsIsolated k
    → k'.pmm ≡ k.pmm
    → ((a : ℕ) → a ≢ 0 → uses a k'.procs ≤ uses a k.procs)
    → IsIsolated k'
IsIsolated-same {k} {k'} h e u = record {
  allocator = rw e h.allocator;
  owned = λ i l. rw e (omega (arith, u (frame_address i) (λ z. omega arith), h.owned i l));
}

pub update-IsIsolated :
    {k : Kernel} (i : ℕ) (f : Proc → Proc)
    → IsIsolated k
    → ((a : ℕ) (p : Proc) → uses_of a (f p) ≡ uses_of a p)
    → IsIsolated (update_proc k i f)
update-IsIsolated {k} i f h same =
    IsIsolated-same h refl (λ a ne. omega (arith, uses-modify_same a k.procs i f (same a)))

pub proc_slot-IsIsolated : {k : Kernel} → IsIsolated k → IsIsolated (proc_slot k).0
unfolding proc_slot
proc_slot-IsIsolated {k} h = go _
  where
    go : (o : Option ℕ) → IsIsolated (claim_slot k o).0
    go none = h
    go (some i) = IsIsolated-same h refl (λ a ne. omega (
      arith,
      uses-modify_add a k.procs i 0 (λ _. record zero_proc { pid = k.next_pid })
          (λ p. ground arith),
    ))

-- `m` is valid, and has every frame taken that `u` counts.
abbrev Covers : (ℕ → ℕ) → Pmm64 → Type 0
Covers u m = IsPmm64 m × ((i : ℕ) → i < frames → u i ≤ taken m i)

-- A frame that is given back goes out of the count.
free_if-Covers :
    (u u' : ℕ → ℕ) (m : Pmm64) (phys : ℕ)
    → Covers u m
    → ((i : ℕ) → u' i + to_ℕ (phys == frame_address i) ≡ u i)
    → Covers u' (free_if m phys)
free_if-Covers u u' m phys (valid, c) e = elim (Bool-cases (phys == 0)) [
  | inl z ↦ rw z (valid, λ i l. omega (arith, c i l, e i))
  | inr z ↦ rw z (
    (free_frame-Releases valid phys).1,
    λ i l. elim (free_frame-Releases valid phys).0 [
      | inl h ↦ ground (arith, c i l, e i, h.4 i, bm_tst-le m.frame_bitmap i)
      | inr h ↦ rw h.0 (omega (arith, c i l, e i))
    ],
  )
]

pub proc_release-IsIsolated : {k : Kernel} (i : ℕ) → IsIsolated k → IsIsolated (proc_release k i)
unfolding proc_release
proc_release-IsIsolated {k} i h =
    let p = proc_at k i in
    let after : (ℕ → ℕ) = λ j. uses (frame_address j) (modify k.procs i (λ _. zero_proc)) in
    let middle : (ℕ → ℕ) = λ j. after j + to_ℕ (p.stack_phys == frame_address j) in
    let one =
      free_if-Covers (λ j. uses (frame_address j) k.procs) middle k.pmm p.code_phys
        (h.allocator, h.owned)
        (λ j. omega (arith, uses-modify_zero (frame_address j) k.procs i (λ z. omega arith))) in
    let two =
      free_if-Covers middle after (free_if k.pmm p.code_phys) p.stack_phys one (λ j. refl) in
    record { allocator = two.0; owned = two.1 }

-- One allocation: a frame that nobody has, or none.
abbrev Fresh : Pmm64 → Pmm64 → ℕ → Type 0
Fresh m m' phys =
    IsPmm64 m' × ((i : ℕ) → i < frames → taken m' i ≡ taken m i + to_ℕ (phys == frame_address i))

alloc-Fresh : (m : Pmm64) → IsPmm64 m → Fresh m (pmm64_alloc_frame m).0 (pmm64_alloc_frame m).1
alloc-Fresh m v = (
  (alloc_frame-Allocates v).1,
  λ i l. elim (alloc_frame-Allocates v).0 [
    | inl h ↦ ground (arith, h.0, h.1)
    | inr h ↦ ground (arith, h.2, h.3, h.5 i)
  ],
)

pub alloc_frames-IsIsolated : {k : Kernel} (i : ℕ) → IsIsolated k → IsIsolated (alloc_frames k i).0
unfolding alloc_frames
alloc_frames-IsIsolated {k} i h = elim (Bool-cases (code == 0 || stack == 0)) [
  | inl e ↦
      rw e
        (record { allocator = undone.0; owned = λ j l. omega (arith, undone.1 j l, none_added j) })
  | inr e ↦ rw e (record {
    allocator = two.0;
    owned = λ j l. omega (arith, both_added j, one.1 j l, two.1 j l, h.owned j l);
  })
]
  where
    pmm1 : Pmm64
    pmm1 = (pmm64_alloc_frame k.pmm).0

    code : ℕ
    code = (pmm64_alloc_frame k.pmm).1

    pmm2 : Pmm64
    pmm2 = (pmm64_alloc_frame pmm1).0

    stack : ℕ
    stack = (pmm64_alloc_frame pmm1).1

    one : Fresh k.pmm pmm1 code
    one = alloc-Fresh k.pmm h.allocator

    two : Fresh pmm1 pmm2 stack
    two = alloc-Fresh pmm1 one.0

    -- With both frames in the count, and with one of them.
    with_stack : ℕ → ℕ
    with_stack j = uses (frame_address j) k.procs + to_ℕ (stack == frame_address j)

    with_both : ℕ → ℕ
    with_both j = with_stack j + to_ℕ (code == frame_address j)

    undone : Covers (λ j. uses (frame_address j) k.procs) (free_if (free_if pmm2 code) stack)
    undone =
        free_if-Covers with_stack (λ j. uses (frame_address j) k.procs) (free_if pmm2 code) stack
          (free_if-Covers with_both with_stack pmm2 code
            (two.0, λ j l. omega (arith, one.1 j l, two.1 j l, h.owned j l)) (λ j. refl))
          (λ j. refl)

    none_added :
        (j : ℕ)
        → uses
            (frame_address j)
            (modify k.procs i (λ p. record p { code_phys = 0; stack_phys = 0 }))
          ≤ uses (frame_address j) k.procs + 0
    none_added j =
        uses-modify_add (frame_address j) k.procs i 0
          (λ p. record p { code_phys = 0; stack_phys = 0 }) (λ p. ground arith)

    both_added :
        (j : ℕ)
        → uses
            (frame_address j)
            (modify k.procs i (λ p. record p { code_phys = code; stack_phys = stack }))
          ≤ uses (frame_address j) k.procs
            + (to_ℕ (code == frame_address j) + to_ℕ (stack == frame_address j))
    both_added j =
        uses-modify_add (frame_address j) k.procs i
          (to_ℕ (code == frame_address j) + to_ℕ (stack == frame_address j))
          (λ p. record p { code_phys = code; stack_phys = stack }) (λ p. omega arith)
