-- ===== src/Pmm64/Owners.antt =====
-- The frame allocator of src/pmm64.c from its clients' side: runs of allocations and releases from
-- the start of the kernel, with the list of the frames that are out.
use aj.Common.{
  ℕ, ◌+◌, ◌-◌, ◌*◌, ◌≤◌, ◌<◌, ◌≡◌, ◌≢◌, inl, inr, List, [], ◌∷◌, ◌==◌, if◌then◌else◌, to_ℕ, arith,
  sum_below-zero, bit_and_low, bit_and, sym, ◌/◌, ◌^◌,
}
use aj.Pmm64.{
  Pmm64, bm_tst, frame_size, start_address, frames, pmm64_init, pmm64_alloc_frame, pmm64_free_frame,
}
use aj.Pmm64.Bitmap.{bm_tst-le}
use aj.Pmm64.Laws.{IsPmm64, taken, Allocates, Releases, alloc_frame-Allocates, free_frame-Releases}

unfoldable pub occurrences : ℕ → List ℕ → ℕ
occurrences a [] = 0
occurrences a (x ∷ xs) = to_ℕ (x == a) + occurrences a xs

-- One occurrence less, if there is one.
unfoldable pub erase : ℕ → List ℕ → List ℕ
erase p [] = []
erase p (x ∷ xs) = if x == p then xs else x ∷ erase p xs

occurrences-erase :
    (a p : ℕ) (xs : List ℕ)
    → occurrences a (erase p xs) ≡ (if p == a then occurrences a xs - 1 else occurrences a xs)
unfolding occurrences erase
occurrences-erase a p [] = ground arith
occurrences-erase a p (x ∷ xs) = ground (arith, occurrences-erase a p xs)

-- A run of the allocator since the kernel started with a zero bitmap, and the addresses that are
-- out: each successful allocation adds one, and each release, right or wrong, takes its argument off.
pub data Run : Pmm64 → List ℕ → Type 0 where
  start : Run (pmm64_init (λ _. 0)) []
  alloc :
      {s : Pmm64} {out : List ℕ}
      → Run s out
      → (pmm64_alloc_frame s).1 ≢ 0
      → Run (pmm64_alloc_frame s).0 ((pmm64_alloc_frame s).1 ∷ out)
  refuse :
      {s : Pmm64} {out : List ℕ}
      → Run s out
      → (pmm64_alloc_frame s).1 ≡ 0
      → Run (pmm64_alloc_frame s).0 out
  free :
      {s : Pmm64} {out : List ℕ} (phys : ℕ)
      → Run s out
      → Run (pmm64_free_frame s phys) (erase phys out)

zero_bitmap : (j : ℕ) → bm_tst (λ _. 0) j ≡ 0
unfolding bm_tst
zero_bitmap j = omega (arith, bit_and_low 1 1 (0 / 2 ^ bit_and j 7) (omega arith))

pub init-IsPmm64 : IsPmm64 (pmm64_init (λ _. 0))
unfolding pmm64_init
init-IsPmm64 = record {
  bytes = λ a. omega arith;
  hint_in_range = omega arith;
  below_hint_taken = λ j l. absurd (omega arith);
  used = sym (sum_below-zero (bm_tst (λ _. 0)) frames zero_bitmap);
}

Run-IsPmm64 : {s : Pmm64} {out : List ℕ} → Run s out → IsPmm64 s
Run-IsPmm64 start = init-IsPmm64
Run-IsPmm64 (alloc r e) = (alloc_frame-Allocates (Run-IsPmm64 r)).1
Run-IsPmm64 (refuse r e) = (alloc_frame-Allocates (Run-IsPmm64 r)).1
Run-IsPmm64 (free phys r) = (free_frame-Releases (Run-IsPmm64 r) phys).1

-- The list of the addresses that are out agrees with the bitmap.
abbrev pub Accounts : Pmm64 → List ℕ → Type 0
Accounts s out = (i : ℕ) → i < frames → occurrences (start_address + i * frame_size) out ≡ taken s i

alloc-Accounts :
    {s t : Pmm64} (out : List ℕ) (phys : ℕ)
    → Accounts s out
    → Allocates s (t, phys)
    → phys ≢ 0
    → Accounts t (phys ∷ out)
unfolding occurrences
alloc-Accounts out phys a (inl h) ne = absurd (ne h.0)
alloc-Accounts out phys a (inr h) ne = λ i l. ground (arith, a i, h.5 i, h.2)

free-Accounts :
    {s t : Pmm64} (out : List ℕ) (phys : ℕ)
    → Accounts s out
    → Releases s phys t
    → Accounts t (erase phys out)
free-Accounts out phys a (inl h) = λ i l.
    ground (arith, a i, h.4 i, h.2, occurrences-erase (start_address + i * frame_size) phys out)
free-Accounts out phys a (inr h) =
    λ i l. ground (arith, a i, h.1 i, occurrences-erase (start_address + i * frame_size) phys out)

Run-Accounts : {s : Pmm64} {out : List ℕ} → Run s out → Accounts s out
unfolding occurrences pmm64_init
Run-Accounts start = λ i l. sym (zero_bitmap i)
Run-Accounts (alloc {out} r e) =
    alloc-Accounts out _ (Run-Accounts r) (alloc_frame-Allocates (Run-IsPmm64 r)).0 e
Run-Accounts (refuse {s} r e) = λ i l. elim (alloc_frame-Allocates (Run-IsPmm64 r)).0 [
  | inl h ↦ rw h.1 (Run-Accounts r i l)
  | inr h ↦ absurd (omega (arith, h.2, e))
]
Run-Accounts (free {out} phys r) =
    free-Accounts out phys (Run-Accounts r) (free_frame-Releases (Run-IsPmm64 r) phys).0

-- After any run of allocations and releases, right or wrong ones, a frame is out exactly as often as
-- its bit says: once if it is set, not at all if it is clear. So no frame is ever handed out twice
-- without a release between, and none is lost.
pub Run-bitmap :
    {s : Pmm64} {out : List ℕ}
    → Run s out
    → (i : ℕ) → i < frames
    → (occurrences (start_address + i * frame_size) out ≡ taken s i)
      × (occurrences (start_address + i * frame_size) out ≤ 1)
Run-bitmap {s} r i l =
    let e = Run-Accounts r i l in (e, omega (arith, e, bm_tst-le s.frame_bitmap i))
