-- ===== src/Heap64/FirstFit.antt =====
-- The first-fit loop of `kmalloc64` in src/vm64.c: the layout it keeps, and the block it finds.
use aj.Common.{
  ℕ, ◌+◌, ◌%◌, ◌^◌, ◌≤◌, ◌<◌, ◌≡◌, ◌≢◌, refl, inl, inr, Bool, true, false, not, ◌&&◌, ◌||◌, Option,
  none, some, [], ◌∷◌, leb, if◌then◌else◌, Bool-cases, u64, arith,
}
use aj.Heap64.{header, Heap, carve, first_fit, is_at}

-- The blocks lie one behind the other from `from` to `end`, with sizes that are multiples of 16.
abbrev pub Tiles : ℕ → ℕ → Heap → Type 0
Tiles from end [] = from ≡ end
Tiles from end (b ∷ bs) =
    (b.addr ≡ from) × (b.size % 16 ≡ 0) × Tiles (from + header + b.size) end bs

abbrev pub starts_free : Heap → Bool
starts_free [] = false
starts_free (b ∷ bs) = b.free

-- No two blocks in a row are free.
abbrev pub Coalesced : Heap → Type 0
Coalesced [] = Unit {0}
Coalesced (b ∷ bs) = (b.free && starts_free bs ≡ false) × Coalesced bs

pub Tiles-le : (from end : ℕ) (h : Heap) → Tiles from end h → from ≤ end
Tiles-le from end [] t = omega arith
Tiles-le from end (b ∷ bs) t = omega (arith, Tiles-le (from + header + b.size) end bs t.2)

module _ (n : ℕ) (even : n % 16 ≡ 0) where
  pub first_fit-Tiles :
      (from end : ℕ) (h : Heap) → end < 2 ^ 63 → Tiles from end h → Tiles from end (first_fit n h).0
  unfolding first_fit carve
  first_fit-Tiles from end [] small t = t
  first_fit-Tiles from end (b ∷ bs) small t = ground (
    arith,
    Tiles-le (from + header + b.size) end bs,
    first_fit-Tiles (from + header + b.size) end bs small,
  )

module _ (n : ℕ) where
  first_fit_start : (h : Heap) → starts_free h ≡ false → starts_free (first_fit n h).0 ≡ false
  unfolding first_fit
  first_fit_start [] e = refl
  first_fit_start (b ∷ bs) e = rw e

  pub first_fit-Coalesced : (h : Heap) → Coalesced h → Coalesced (first_fit n h).0
  unfolding first_fit carve
  first_fit-Coalesced [] c = c
  first_fit-Coalesced (b ∷ bs) c = ground (arith, first_fit_start bs, first_fit-Coalesced bs)

-- The blocks in use: the payload address of each, with its size.
unfoldable pub live : Heap → ℕ → Option ℕ
live [] q = none
live (b ∷ bs) q = if not b.free && is_at q b then some b.size else live bs q

unfoldable pub fits : ℕ → Heap → Bool
fits n [] = false
fits n (b ∷ bs) = (b.free && leb n b.size) || fits n bs

pub live_low :
    (from end : ℕ) (h : Heap) (q : ℕ) → Tiles from end h → q < from + header → live h q ≡ none
unfolding live
live_low from end [] q t l = refl
live_low from end (b ∷ bs) q t l =
    ground (arith, live_low (from + header + b.size) end bs q t.2 (omega (arith, l)))

module _ (n : ℕ) where
  -- If no free block is large enough, nothing happens.
  pub first_fit-none : (h : Heap) → fits n h ≡ false → first_fit n h ≡ (h, 0)
  unfolding first_fit fits
  first_fit-none [] e = refl
  first_fit-none (b ∷ bs) e = ground (arith, first_fit-none bs)

  pub first_fit_ge :
      (from end : ℕ) (h : Heap)
      → Tiles from end h
      → fits n h ≡ true
      → from + header ≤ (first_fit n h).1
  unfolding first_fit fits
  first_fit_ge from end [] t e = cc
  first_fit_ge from end (b ∷ bs) t e = ground (arith, first_fit_ge (from + header + b.size) end bs)

  pub first_fit_aligned :
      (from end : ℕ) (h : Heap)
      → Tiles from end h
      → fits n h ≡ true
      → (first_fit n h).1 % 16 ≡ from % 16
  unfolding first_fit fits
  first_fit_aligned from end [] t e = cc
  first_fit_aligned from end (b ∷ bs) t e =
      ground (arith, first_fit_aligned (from + header + b.size) end bs)

  pub live-first_fit_before :
      (from end : ℕ) (h : Heap)
      → Tiles from end h
      → fits n h ≡ true
      → live h (first_fit n h).1 ≡ none
  unfolding first_fit fits live
  live-first_fit_before from end [] t e = cc
  live-first_fit_before from end (b ∷ bs) t e = ground (
    arith,
    live-first_fit_before (from + header + b.size) end bs,
    live_low (from + header + b.size) end bs (b.addr + header),
    first_fit_ge (from + header + b.size) end bs,
  )

  -- The block that is found serves the request: it has at least `n` bytes.
  pub live-first_fit_self :
      (from end : ℕ) (h : Heap)
      → Tiles from end h
      → fits n h ≡ true
      → (sz : ℕ) × (live (first_fit n h).0 (first_fit n h).1 ≡ some sz) × (n ≤ sz)
  unfolding first_fit fits live carve
  live-first_fit_self from end [] t e = absurd (cc e)
  live-first_fit_self from end (b ∷ bs) t e = elim (Bool-cases (b.free && leb n b.size)) [
    | inl y ↦
        rw y (if leb (u64 (n + header + 16)) b.size then n else b.size, ground arith, ground arith)
    | inr y ↦
        let rest = live-first_fit_self (from + header + b.size) end bs t.2 (rw y at e) in
        let far = first_fit_ge (from + header + b.size) end bs t.2 (rw y at e) in
        rw y (rest.0, ground arith, rest.2)
  ]

  pub live-first_fit_ne :
      (from end : ℕ) (h : Heap) (q : ℕ)
      → Tiles from end h
      → q ≢ (first_fit n h).1
      → live (first_fit n h).0 q ≡ live h q
  unfolding first_fit live carve
  live-first_fit_ne from end [] q t ne = refl
  live-first_fit_ne from end (b ∷ bs) q t ne =
      ground (arith, live-first_fit_ne (from + header + b.size) end bs q)
