-- ===== src/Heap64/Spec.antt =====
-- The kernel heap of src/vm64.c for its callers, in terms of the blocks in use.
use aj.Common.{
  ℕ, ◌+◌, ◌-◌, ◌%◌, ◌^◌, ◌≤◌, ◌<◌, ◌≡◌, ◌≢◌, ◌⊎◌, refl, inl, inr, true, false, none, some, [], ◌∷◌,
  Bool-cases, arith, subst,
}
use aj.Heap64.{
  header, heap_vma, heap_size, Heap, heap64_init, round_up, first_fit, kmalloc64, kfree64,
}
use aj.Heap64.FirstFit.{
  Tiles, Tiles-le, Coalesced, live, fits, first_fit-Tiles, first_fit-Coalesced, first_fit-none,
  first_fit_ge, first_fit_aligned, live-first_fit_before, live-first_fit_self, live-first_fit_ne,
}
use aj.Heap64.Release.{
  Holds, Without, release-Tiles, release-Coalesced, release-Without, release_total,
}
use aj.Heap64.RoundTrip.{release-first_fit}

abbrev pub heap_end : ℕ
heap_end = heap_vma + heap_size

-- The blocks tile the 8 MB region, and no two free ones lie side by side.
pub record IsHeap (h : Heap) : Type 0 where
  pub tiles : Tiles heap_vma heap_end h
  pub coalesced : Coalesced h

pub heap64_init-IsHeap : IsHeap heap64_init
unfolding heap64_init
heap64_init-IsHeap = record { tiles = omega arith; coalesced = (refl, tt) }

live-bounds :
    (from end : ℕ) (h : Heap) (p : ℕ) {sz : ℕ}
    → Tiles from end h
    → live h p ≡ some sz
    → (from + header ≤ p) × (p + sz ≤ end)
unfolding live
live-bounds from end [] p t e = absurd (cc e)
live-bounds from end (b ∷ bs) p {sz} t e = ground (
  arith,
  live-bounds (from + header + b.size) end bs p {sz = sz} t.2,
  Tiles-le (from + header + b.size) end bs t.2,
)

live-disjoint :
    (from end : ℕ) (h : Heap) (p q : ℕ) {sp sq : ℕ}
    → Tiles from end h
    → live h p ≡ some sp
    → live h q ≡ some sq
    → p < q
    → p + sp ≤ q
unfolding live
live-disjoint from end [] p q t e f l = absurd (cc e)
live-disjoint from end (b ∷ bs) p q {sp} {sq} t e f l = ground (
  arith,
  live-bounds (from + header + b.size) end bs p {sz = sp} t.2,
  live-bounds (from + header + b.size) end bs q {sz = sq} t.2,
  live-disjoint (from + header + b.size) end bs p q {sp = sp} {sq = sq} t.2,
)

-- Two different blocks in use of a well-formed heap lie inside the region of the heap and do not overlap.
pub live_blocks_disjoint :
    {h : Heap} (p q : ℕ) {sp sq : ℕ}
    → IsHeap h
    → live h p ≡ some sp
    → live h q ≡ some sq
    → p < q
    → (heap_vma + header ≤ p) × (p + sp ≤ q) × (q + sq ≤ heap_end)
live_blocks_disjoint {h} p q {sp} {sq} i e f l = (
  (live-bounds heap_vma heap_end h p i.tiles e).0,
  live-disjoint heap_vma heap_end h p q i.tiles e f l,
  (live-bounds heap_vma heap_end h q i.tiles f).1,
)

-- `t` has the blocks in use of `s`, and one new one of `sz` bytes at `p`, aligned to 16.
pub record Granted (s t : Heap) (p sz : ℕ) : Type 0 where
  pub aligned : p % 16 ≡ 0
  pub was_unused : live s p ≡ none
  pub in_use : live t p ≡ some sz
  pub others : (q : ℕ) → q ≢ p → live t q ≡ live s q

module _ {h : Heap} (i : IsHeap h) where
  -- An allocation of at most 2 ^ 64 - 16 bytes from a well-formed heap leaves a well-formed heap. It
  -- grants a new aligned block of at least that size and disturbs no other, or, exactly if no free
  -- block holds the rounded size, returns 0 and changes nothing.
  pub kmalloc64-Granted :
      (n : ℕ)
      → n ≤ 2 ^ 64 - 16
      → IsHeap (kmalloc64 h n).0
        × (((fits (round_up n) h ≡ false) × (kmalloc64 h n ≡ (h, 0)))
            ⊎ ((fits (round_up n) h ≡ true)
                × ((sz : ℕ) × (n ≤ sz) × Granted h (kmalloc64 h n).0 (kmalloc64 h n).1 sz)))
  unfolding kmalloc64
  kmalloc64-Granted n l = elim (Bool-cases (fits r h)) [
    | inl e ↦
        let got = live-first_fit_self r heap_vma heap_end h i.tiles e in
        (
          keeps,
          inr (
            e,
            (
              got.0,
              omega (arith, got.2),
              record {
                aligned = omega (arith, first_fit_aligned r heap_vma heap_end h i.tiles e);
                was_unused = live-first_fit_before r heap_vma heap_end h i.tiles e;
                in_use = got.1;
                others = λ q ne. live-first_fit_ne r heap_vma heap_end h q i.tiles ne;
              },
            ),
          ),
        )
    | inr e ↦ (keeps, inl (e, first_fit-none r h e))
  ]
    where
      r : ℕ
      r = round_up n

      keeps : IsHeap (first_fit r h).0
      keeps = record {
        tiles = first_fit-Tiles r (omega arith) heap_vma heap_end h (omega arith) i.tiles;
        coalesced = first_fit-Coalesced r h i.coalesced;
      }

  -- From a well-formed heap, the release of a block in use takes that block out of use and leaves all
  -- others, and the heap is well-formed again.
  pub kfree64-Without :
      (p sz : ℕ)
      → live h p ≡ some sz
      → (h' : Heap) × (kfree64 h p ≡ some h') × IsHeap h' × Without p h h'
  unfolding kfree64
  kfree64-Without p sz e =
      let found = release_total p h {sz = sz} e in
      let low = live-bounds heap_vma heap_end h p {sz = sz} i.tiles e in
      (
        found.0,
        ground (arith, found.1),
        record {
          tiles =
              subst (Holds (Tiles heap_vma heap_end)) found.1
                (release-Tiles p heap_vma heap_end h (omega arith) i.tiles);
          coalesced = subst (Holds Coalesced) found.1 (release-Coalesced p h i.coalesced);
        },
        subst (Holds (Without p h)) found.1 (release-Without p heap_vma heap_end h i.tiles),
      )

  -- An allocation from a well-formed heap followed by the release of the pointer that it returned
  -- gives back the very same list of blocks: nothing is lost to fragmentation.
  pub kfree64-kmalloc64 : (n : ℕ) → let (h', p) = kmalloc64 h n in kfree64 h' p ≡ some h
  unfolding kmalloc64 kfree64
  kfree64-kmalloc64 n = elim (Bool-cases (fits r h)) [
    | inl e ↦
        let far = first_fit_ge r heap_vma heap_end h i.tiles e in
        let back = release-first_fit r heap_vma heap_end h (omega arith) i.tiles i.coalesced e in
        ground (arith, far, back)
    | inr e ↦ rw (first_fit-none r h e)
  ]
    where
      r : ℕ
      r = round_up n

-- The rounding of `kmalloc64` wraps: a request of the last 15 sizes of a 64-bit word is served as a
-- request of 0 bytes, whatever the heap.
pub kmalloc64_wraps :
    (h : Heap) (n : ℕ) → 2 ^ 64 - 15 ≤ n → n < 2 ^ 64 → kmalloc64 h n ≡ kmalloc64 h 0
unfolding kmalloc64
kmalloc64_wraps h n lo hi = let e : round_up n ≡ 0 = omega arith in rw e
