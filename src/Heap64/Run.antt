-- ===== src/Heap64/Run.antt =====
-- Any use of the heap of src/vm64.c, as its callers see it: what they hold, and how much they asked for.
use aj.Common.{
  ℕ, ◌+◌, ◌-◌, ◌^◌, ◌≤◌, ◌<◌, ◌≡◌, ◌≢◌, sym, ap, ◌∙◌, inl, inr, Option, none, some, ◌==◌, ==→eq,
  if◌then◌else◌, Bool-cases, subst, arith,
}
use aj.Heap64.{Heap, heap_vma, header, heap64_init, kmalloc64, kfree64}
use aj.Heap64.FirstFit.{live}
use aj.Heap64.Spec.{
  IsHeap, heap_end, heap64_init-IsHeap, live_blocks_disjoint, kmalloc64-Granted, kfree64-Without,
}

-- The heap after some calls, and the size that was asked for at each pointer that is held. A caller releases only
-- what it holds, and asks for no size that the rounding wraps.
pub data Run : Heap → (ℕ → Option ℕ) → Type 0 where
  start : Run heap64_init (λ _. none)
  refused :
      {h : Heap} {held : ℕ → Option ℕ}
      → Run h held
      → (n : ℕ) → n ≤ 2 ^ 64 - 16
      → (kmalloc64 h n).1 ≡ 0
      → Run (kmalloc64 h n).0 held
  granted :
      {h : Heap} {held : ℕ → Option ℕ}
      → Run h held
      → (n : ℕ) → n ≤ 2 ^ 64 - 16
      → (kmalloc64 h n).1 ≢ 0
      → Run (kmalloc64 h n).0 (λ q. if q == (kmalloc64 h n).1 then some n else held q)
  released :
      {h h' : Heap} {held : ℕ → Option ℕ}
      → Run h held
      → (p n : ℕ) → held p ≡ some n
      → kfree64 h p ≡ some h'
      → Run h' (λ q. if q == p then none else held q)

-- Each pointer that is held is of a block in use that is large enough.
abbrev Backed : Heap → (ℕ → Option ℕ) → Type 0
Backed h held = (p n : ℕ) → held p ≡ some n → (sz : ℕ) × (live h p ≡ some sz) × (n ≤ sz)

Run-Backed : {h : Heap} {held : ℕ → Option ℕ} → Run h held → IsHeap h × Backed h held
Run-Backed start = (heap64_init-IsHeap, λ p n e. absurd (cc e))
Run-Backed (refused {h} {held} r n l z) =
    let (i, b) = Run-Backed r in
    let (keeps, o) = kmalloc64-Granted i n l in
    elim o [
      | inl (e, same) ↦ (
        keeps,
        λ p m x. let (sz, y, w) = b p m x in (sz, ap (λ (t : Heap × ℕ). live t.0 p) same ∙ y, w),
      )
      | inr (e, (sz, w, g)) ↦ (
        keeps,
        λ p m x.
            let (old, y, v) = b p m x in
            elim (Bool-cases (p == (kmalloc64 h n).1)) [
              | inl q ↦
                  let at : p ≡ (kmalloc64 h n).1 = ==→eq p _ q in absurd (cc (g.was_unused, y, at))
              | inr q ↦ (old, g.others p (λ t. ground (arith, q, t)) ∙ y, v)
            ],
      )
    ]
Run-Backed (granted {h} {held} r n l z) =
    let (i, b) = Run-Backed r in
    let (keeps, o) = kmalloc64-Granted i n l in
    elim o [
      | inl (e, same) ↦ absurd (z (ap (λ (t : Heap × ℕ). t.1) same))
      | inr (e, (sz, w, g)) ↦ (
        keeps,
        λ p m x. elim (Bool-cases (p == (kmalloc64 h n).1)) [
          | inl q ↦
              let at : p ≡ (kmalloc64 h n).1 = ==→eq p _ q in
              let size : n ≡ m = cc (rw q at x) in
              (sz, ap (live (kmalloc64 h n).0) at ∙ g.in_use, omega (arith, size, w))
          | inr q ↦
              let (old, y, v) = b p m (rw q at x) in
              (old, g.others p (λ t. ground (arith, q, t)) ∙ y, v)
        ],
      )
    ]
Run-Backed (released {h} {h'} {held} r p n has e) =
    let (i, b) = Run-Backed r in
    let (sz, y, w) = b p n has in
    let (t, f, keeps, without) = kfree64-Without i p sz y in
    let same : t ≡ h' = cc (f, e) in
    (
      subst IsHeap same keeps,
      λ q m x. elim (Bool-cases (q == p)) [
        | inl z ↦ absurd (cc (rw z at x))
        | inr z ↦
            let (old, u, v) = b q m (rw z at x) in
            (old, ap (λ (s : Heap). live s q) (sym same) ∙ without q ∙ rw z u, v)
      ],
    )

-- Whatever the callers have allocated, in sizes of at most 2 ^ 64 - 16, and released since the heap was set
-- up, the bytes that they asked for at two different pointers that they hold lie in the region of the heap,
-- behind its first header, and do not overlap.
pub Run-disjoint :
    {h : Heap} {held : ℕ → Option ℕ} (p q : ℕ) {n m : ℕ}
    → Run h held
    → held p ≡ some n
    → held q ≡ some m
    → p < q
    → (heap_vma + header ≤ p) × (p + n ≤ q) × (q + m ≤ heap_end)
Run-disjoint p q {n} {m} r a b l =
    let (i, backed) = Run-Backed r in
    let (sp, e, le) = backed p n a in
    let (sq, f, lf) = backed q m b in
    let d = live_blocks_disjoint p q i e f l in
    (d.0, omega (arith, d.1, le), omega (arith, d.2, lf))
