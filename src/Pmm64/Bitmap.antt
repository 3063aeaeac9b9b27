-- ===== src/Pmm64/Bitmap.antt =====
-- The bitmap of src/pmm64.c as a set of frame numbers.
use aj.Common.{
  ℕ, ◌-◌, ◌/◌, ◌%◌, ◌^◌, ◌≤◌, ◌<◌, ◌≡◌, refl, bit_and, bit_or, Bool, true, inl, inr, ◌==◌,
  if◌then◌else◌, Bool-cases, ==→eq, eq→==, false, Memory, store, IsBelow, store-IsBelow, u8, arith,
  bit_and_low, every_value, every_value_holds,
}
use aj.Pmm64.{bm_set, bm_clr, bm_tst}

-- Bit `j` of byte `b` after bit `k` is set, for all bytes and bits at once.
set_law : ℕ → ℕ → ℕ → Bool
set_law b k j = u8 (bit_or b (u8 (2 ^ k))) / 2 ^ j % 2 == (if j == k then 1 else b / 2 ^ j % 2)

clr_law : ℕ → ℕ → ℕ → Bool
clr_law b k j = u8 (bit_and b (255 - 2 ^ k)) / 2 ^ j % 2 == (if j == k then 0 else b / 2 ^ j % 2)

for_all_bits : (ℕ → ℕ → ℕ → Bool) → Bool
unfolding every_value
for_all_bits p = every_value (λ k. every_value (λ j. every_value (λ b. p b k j) 256) 8) 8

for_all_bits_sound :
    (p : ℕ → ℕ → ℕ → Bool) (b k j : ℕ)
    → for_all_bits p ≡ true
    → b < 256
    → k < 8
    → j < 8
    → p b k j ≡ true
unfolding for_all_bits
for_all_bits_sound p b k j h lb lk lj =
    let at_k =
      every_value_holds (λ k. every_value (λ j. every_value (λ b. p b k j) 256) 8) 8 k lk h in
    let at_j = every_value_holds (λ j. every_value (λ b. p b k j) 256) 8 j lj at_k in
    every_value_holds (λ b. p b k j) 256 b lb at_j

set_table : for_all_bits set_law ≡ true
unfolding for_all_bits set_law
set_table = refl

clr_table : for_all_bits clr_law ≡ true
unfolding for_all_bits clr_law
clr_table = refl

bm_tst-eq : (m : Memory) (j : ℕ) → bm_tst m j ≡ m (j / 8) / 2 ^ (j % 8) % 2
unfolding bm_tst
bm_tst-eq m j = rw (bit_and_low 3 7 j (omega arith)) (bit_and_low 1 1 _ (omega arith))

pub bm_tst-le : (m : Memory) (j : ℕ) → bm_tst m j ≤ 1
bm_tst-le m j = omega (arith, bm_tst-eq m j)

-- A write to the byte of bit `i` that changes only that bit, seen through `bm_tst`.
write_bit :
    (m : Memory) (i byte v : ℕ)
    → ((k : ℕ) → k < 8 → byte / 2 ^ k % 2 ≡ (if k == i % 8 then v else m (i / 8) / 2 ^ k % 2))
    → (j : ℕ) → bm_tst (store m (i / 8) byte) j ≡ (if j == i then v else bm_tst m j)
write_bit m i byte v law j =
    rw (bm_tst-eq (store m (i / 8) byte) j, bm_tst-eq m j)
      (elim (Bool-cases (j / 8 == i / 8)) [
        | inl e ↦
            let q : j / 8 ≡ i / 8 = ==→eq _ _ e in
            let l = law (j % 8) (omega arith) in
            rw (e, l, q)
              (elim (Bool-cases (j == i)) [
                | inl z ↦ rw (z, eq→== (j % 8) (i % 8) (let y : j ≡ i = ==→eq _ _ z in rw y))
                | inr z ↦ rw (z, differ z q)
              ])
        | inr e ↦ rw (e, other e)
      ])
  where
    differ : (j == i) ≡ false → j / 8 ≡ i / 8 → (j % 8 == i % 8) ≡ false
    differ z q = ground arith

    other : (j / 8 == i / 8) ≡ false → (j == i) ≡ false
    other e = ground arith

module _ (m : Memory) (i : ℕ) (b : IsBelow 256 m) where
  pub bm_set-IsBelow : IsBelow 256 (bm_set m i)
  unfolding bm_set
  bm_set-IsBelow = store-IsBelow 256 m _ _ b (omega arith)

  pub bm_clr-IsBelow : IsBelow 256 (bm_clr m i)
  unfolding bm_clr
  bm_clr-IsBelow = store-IsBelow 256 m _ _ b (omega arith)

  pub bm_tst-bm_set : (j : ℕ) → bm_tst (bm_set m i) j ≡ (if j == i then 1 else bm_tst m j)
  unfolding bm_set set_law
  bm_tst-bm_set j = rw (bit_and_low 3 7 i (omega arith)) (
      write_bit m i _ 1
        (λ k l.
          ==→eq _ _
            (for_all_bits_sound set_law (m (i / 8)) (i % 8) k set_table (b _) (omega arith) l))
        j)

  pub bm_tst-bm_clr : (j : ℕ) → bm_tst (bm_clr m i) j ≡ (if j == i then 0 else bm_tst m j)
  unfolding bm_clr clr_law
  bm_tst-bm_clr j = rw (bit_and_low 3 7 i (omega arith)) (
      write_bit m i _ 0
        (λ k l.
          ==→eq _ _
            (for_all_bits_sound clr_law (m (i / 8)) (i % 8) k clr_table (b _) (omega arith) l))
        j)
