-- ===== src/Pmm64/Laws.antt =====
-- The frame allocator of src/pmm64.c: the invariant of its state, and each operation's effect on it.
use aj.Common.{
  ℕ, ◌+◌, ◌-◌, ◌*◌, ◌/◌, ◌≤◌, ◌<◌, ◌≡◌, ◌⊎◌, refl, inl, inr, true, false, Option, none, some, ◌==◌,
  ltb, ltb→lt, ltb-false→le, if◌then◌else◌, Bool-cases, ==→eq, IsBelow, u32, arith, bit_and_low,
  IsFirstFrom, first_from-IsFirstFrom, sum_below, sum_below-le, sum_below_change,
}
use aj.Pmm64.{
  Pmm64, frame_size, start_address, frames, bm_tst, take_frame, is_bad_address, give_back,
  pmm64_alloc_frame, pmm64_free_frame,
}
use aj.Pmm64.Bitmap.{bm_tst-le, bm_set-IsBelow, bm_clr-IsBelow, bm_tst-bm_set, bm_tst-bm_clr}

-- 1 for a frame that is taken, 0 for one that is free.
abbrev pub taken : Pmm64 → ℕ → ℕ
taken s i = bm_tst s.frame_bitmap i

pub record IsPmm64 (s : Pmm64) : Type 0 where
  pub bytes : IsBelow 256 s.frame_bitmap
  pub hint_in_range : s.lowest_free_hint < frames
  pub below_hint_taken : (j : ℕ) → j < s.lowest_free_hint → taken s j ≡ 1
  pub used : s.frames_used ≡ sum_below (taken s) frames

abbrev frame_address : ℕ → ℕ
frame_address i = start_address + i * frame_size

-- `t` is `s` but that frame `i` has the value `v`.
abbrev pub Changed : Pmm64 → Pmm64 → ℕ → ℕ → Type 0
Changed s t i v = (j : ℕ) → taken t j ≡ (if j == i then v else taken s j)

not_taken : (n : ℕ) → n ≤ 1 → (n == 0) ≡ false → n ≡ 1
not_taken n l h = ground arith

module _ {s : Pmm64} (h : IsPmm64 s) where
  used_change :
      (t : Pmm64) (i v : ℕ)
      → Changed s t i v
      → i < frames
      → sum_below (taken s) frames + v ≡ sum_below (taken t) frames + taken s i
  used_change t i v c l =
      let own : taken t i ≡ v = ground (arith, c i) in
      rw (← own) (sum_below_change (taken s) (taken t) frames i l (λ j ne. ground (arith, c j)))

  module _ (i : ℕ) (l : i < frames) (free : taken s i ≡ 0) where
    take-Changed : Changed s (take_frame s (some i)).0 i 1
    unfolding take_frame
    take-Changed = bm_tst-bm_set s.frame_bitmap i h.bytes

    take-IsPmm64 : ((j : ℕ) → j < i → taken s j ≡ 1) → IsPmm64 (take_frame s (some i)).0
    unfolding take_frame
    take-IsPmm64 below = record {
      bytes = bm_set-IsBelow s.frame_bitmap i h.bytes;
      hint_in_range = ground arith;
      below_hint_taken = λ j b. ground (arith, take-Changed j, below j);
      used = omega (
        arith,
        h.used,
        used_change (take_frame s (some i)).0 i 1 take-Changed l,
        sum_below-le (taken (take_frame s (some i)).0) frames (λ j. bm_tst-le _ j),
      );
    }

-- What an allocation does: it takes the first free frame and returns its address, or returns 0
-- and changes nothing because every frame is taken.
abbrev pub Allocates : Pmm64 → Pmm64 × ℕ → Type 0
Allocates s (t, phys) =
    ((phys ≡ 0) × (t ≡ s) × ((j : ℕ) → j < frames → taken s j ≡ 1))
    ⊎ ((i : ℕ) × (i < frames)
        × (phys ≡ frame_address i)
        × (taken s i ≡ 0)
        × ((j : ℕ) → j < i → taken s j ≡ 1)
        × Changed s t i 1
        × (t.frames_used ≡ s.frames_used + 1))

module _ {s : Pmm64} (h : IsPmm64 s) where
  all_below_taken :
      (n : ℕ)
      → ((j : ℕ) → s.lowest_free_hint ≤ j → j < n → (taken s j == 0) ≡ false)
      → (j : ℕ) → j < n
      → taken s j ≡ 1
  all_below_taken n rest j l = elim (Bool-cases (ltb j s.lowest_free_hint)) [
    | inl e ↦ h.below_hint_taken j (ltb→lt j _ e)
    | inr e ↦ not_taken _ (bm_tst-le s.frame_bitmap j) (rest j (ltb-false→le j _ e) l)
  ]

  take_frame_lem :
      (o : Option ℕ)
      → IsFirstFrom
          (λ i. bm_tst s.frame_bitmap i == 0)
          (frames - s.lowest_free_hint)
          s.lowest_free_hint
          o
      → Allocates s (take_frame s o) × IsPmm64 (take_frame s o).0
  unfolding take_frame
  take_frame_lem none f = (
    inl (refl, refl, all_below_taken frames (λ j a l. f j a (omega (arith, h.hint_in_range)))),
    h,
  )
  take_frame_lem (some i) f =
      let l : i < frames = omega (arith, f.1, h.hint_in_range) in
      let free : taken s i ≡ 0 = ==→eq _ _ f.2 in
      let below = all_below_taken i (λ j a l. f.3 j a l) in
      let t = (take_frame s (some i)).0 in
      let valid = take-IsPmm64 h i l free below in
      (
        inr (
          i,
          l,
          refl,
          free,
          below,
          take-Changed h i l free,
          omega (arith, valid.used, h.used, used_change h t i 1 (take-Changed h i l free) l),
        ),
        valid,
      )

-- In a state that satisfies the invariant, an allocation takes the lowest free frame, returns its
-- address and counts it; it returns 0, changing nothing, only if no frame is free. The invariant
-- holds afterwards.
pub alloc_frame-Allocates :
    {s : Pmm64} → IsPmm64 s → Allocates s (pmm64_alloc_frame s) × IsPmm64 (pmm64_alloc_frame s).0
unfolding pmm64_alloc_frame
alloc_frame-Allocates {s} h = take_frame_lem h _ (first_from-IsFirstFrom _ _ _)

-- What a release of address `phys` does: if it is the address of a taken frame that frame becomes
-- free; otherwise nothing changes.
abbrev pub Releases : Pmm64 → ℕ → Pmm64 → Type 0
Releases s phys t =
    ((i : ℕ) × (i < frames)
      × (phys ≡ frame_address i)
      × (taken s i ≡ 1)
      × Changed s t i 0
      × (t.frames_used + 1 ≡ s.frames_used))
    ⊎ ((t ≡ s) × ((i : ℕ) → i < frames → phys ≡ frame_address i → taken s i ≡ 0))

module _ {s : Pmm64} (h : IsPmm64 s) (i : ℕ) (l : i < frames) (busy : taken s i ≡ 1) where
  give_back-Changed : Changed s (give_back s i) i 0
  unfolding give_back
  give_back-Changed = bm_tst-bm_clr s.frame_bitmap i h.bytes

  give_back-IsPmm64 : IsPmm64 (give_back s i) × ((give_back s i).frames_used + 1 ≡ s.frames_used)
  unfolding give_back
  give_back-IsPmm64 = (
    record {
      bytes = bm_clr-IsBelow s.frame_bitmap i h.bytes;
      hint_in_range = ground (arith, h.hint_in_range);
      below_hint_taken = λ j b. ground (arith, give_back-Changed j, h.below_hint_taken j);
      used = omega (arith, h.used, change, few);
    },
    omega (arith, h.used, change, few),
  )
    where
      change : sum_below (taken s) frames + 0 ≡ sum_below (taken (give_back s i)) frames + taken s i
      change = used_change h (give_back s i) i 0 give_back-Changed l

      few : sum_below (taken s) frames ≤ frames
      few = sum_below-le (taken s) frames (λ j. bm_tst-le _ j)

good_address :
    (phys : ℕ)
    → is_bad_address phys ≡ false
    → (phys ≡ frame_address (u32 ((phys - start_address) / frame_size)))
      × (u32 ((phys - start_address) / frame_size) < frames)
unfolding is_bad_address
good_address phys e = ground (arith, bit_and_low 12 4095 phys (omega arith))

frame_address-good : (i : ℕ) → i < frames → is_bad_address (frame_address i) ≡ false
unfolding is_bad_address
frame_address-good i l = ground (arith, bit_and_low 12 4095 (frame_address i) (omega arith))

-- In a state that satisfies the invariant, the release of an address frees the taken frame that
-- starts there, and does nothing if the address is outside the range, not aligned, or that of a
-- free frame. The invariant holds afterwards.
pub free_frame-Releases :
    {s : Pmm64}
    → IsPmm64 s
    → (phys : ℕ) → Releases s phys (pmm64_free_frame s phys) × IsPmm64 (pmm64_free_frame s phys)
unfolding pmm64_free_frame
free_frame-Releases {s} h phys = elim (Bool-cases (is_bad_address phys)) [
  | inl e ↦ rw e (inr (refl, λ i l q. bad_frame i l q e), h)
  | inr e ↦
      let (at, l) = good_address phys e in
      elim (Bool-cases (taken s idx == 0)) [
        | inl z ↦ rw (e, z) (inr (refl, λ i m q. ground arith), h)
        | inr z ↦
            let busy : taken s idx ≡ 1 = not_taken _ (bm_tst-le _ idx) z in
            let (valid, fewer) = give_back-IsPmm64 h idx l busy in
            rw (e, z) (inl (idx, l, at, busy, give_back-Changed h idx l busy, fewer), valid)
      ]
]
  where
    idx : ℕ
    idx = u32 ((phys - start_address) / frame_size)

    bad_frame :
        (i : ℕ) → i < frames → phys ≡ frame_address i → is_bad_address phys ≡ true → taken s i ≡ 0
    bad_frame i l q e = ground (arith, frame_address-good i l)
