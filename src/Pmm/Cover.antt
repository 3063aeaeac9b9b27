-- ===== src/Pmm/Cover.antt =====
-- The buddy allocator of kernel/mm/pmm.c: the bytes of memory that are in free blocks.
use aj.Common.{
  ℕ, zero, suc, ◌+◌, ◌-◌, ◌*◌, ◌^◌, ◌≤◌, ◌<◌, ◌≡◌, ◌≢◌, refl, ap, ◌∙◌, inl, inr, true, false, ◌&&◌,
  Option, none, some, List, [], ◌∷◌, ◌==◌, ltb, leb, Bool-cases, length, modify, length-modify,
  get_or, to_ℕ, IsFirstFrom, first_from-IsFirstFrom, u32, arith,
}
use aj.Pmm.{
  Pmm, max_order, block_size, add_to_list, has_block, is_nonempty, split, tail, take_block,
  alloc_from, alloc_page, free_page,
}

-- Whether the block of an order at `b` has the byte `a`, as a number.
abbrev pub inside : ℕ → ℕ → ℕ → ℕ
inside order b a = to_ℕ (leb b a && ltb a (b + block_size order))

unfoldable pub blocks_with : ℕ → ℕ → List ℕ → ℕ
blocks_with order a [] = 0
blocks_with order a (b ∷ bs) = inside order b a + blocks_with order a bs

-- How many free blocks have the byte `a`, for lists from an order on.
unfoldable pub free_from : ℕ → ℕ → List (List ℕ) → ℕ
unfolding blocks_with
free_from order a [] = 0
free_from order a (bs ∷ rest) = blocks_with order a bs + free_from (suc order) a rest

block_double : (n : ℕ) → block_size (suc n) ≡ 2 * block_size n
block_double n = omega arith

block_size-positive : (n : ℕ) → 0 < block_size n
block_size-positive zero = omega arith
block_size-positive (suc n) = omega (arith, block_size-positive n, block_double n)

module _ (a : ℕ) where
  free_from-add :
      (lists : List (List ℕ)) (k addr i : ℕ)
      → i < length lists
      → free_from k a (add_to_list lists addr i) ≡ inside (i + k) addr a + free_from k a lists
  unfolding free_from blocks_with add_to_list
  free_from-add [] k addr i l = absurd (omega arith)
  free_from-add (bs ∷ rest) k addr zero l =
      let z : 0 + k ≡ k = omega arith in omega (arith, ap (λ (t : ℕ). inside t addr a) z)
  free_from-add (bs ∷ rest) k addr (suc i) l =
      let ih = free_from-add rest (suc k) addr i (omega arith) in
      let e : i + suc k ≡ suc i + k = omega arith in
      omega (arith, ih, ap (λ (t : ℕ). inside t addr a) e)

  free_from-tail :
      (lists : List (List ℕ)) (k i : ℕ) (b : ℕ) (bs : List ℕ)
      → get_or lists i [] ≡ b ∷ bs
      → free_from k a lists ≡ inside (i + k) b a + free_from k a (modify lists i tail)
  unfolding free_from blocks_with
  free_from-tail [] k i b bs e = absurd (cc e)
  free_from-tail (cs ∷ rest) k zero b bs e =
      let z : 0 + k ≡ k = omega arith in rw e (omega (arith, ap (λ (t : ℕ). inside t b a) z))
  free_from-tail (cs ∷ rest) k (suc i) b bs e =
      let ih = free_from-tail rest (suc k) i b bs e in
      let z : i + suc k ≡ suc i + k = omega arith in
      omega (arith, ih, ap (λ (t : ℕ). inside t b a) z)

  free_from-add_first :
      (lists : List (List ℕ)) (addr i : ℕ)
      → i < length lists
      → free_from 0 a (add_to_list lists addr i) ≡ inside i addr a + free_from 0 a lists
  free_from-add_first lists addr i l =
      let z : i + 0 ≡ i = omega arith in
      omega (arith, free_from-add lists 0 addr i l, ap (λ (t : ℕ). inside t addr a) z)

  free_from-tail_first :
      (lists : List (List ℕ)) (i b : ℕ) (bs : List ℕ)
      → get_or lists i [] ≡ b ∷ bs
      → free_from 0 a lists ≡ inside i b a + free_from 0 a (modify lists i tail)
  free_from-tail_first lists i b bs e =
      let z : i + 0 ≡ i = omega arith in
      omega (arith, free_from-tail lists 0 i b bs e, ap (λ (t : ℕ). inside t b a) z)

  halves : (n addr : ℕ) → inside (suc n) addr a ≡ inside n addr a + inside n (addr + block_size n) a
  halves n addr = ground (arith, block_double n)

  -- The split keeps what is free, but for the block at `addr` of the smaller order.
  split-free_from :
      (d : ℕ) (lists : List (List ℕ)) (addr order : ℕ)
      → order + d ≤ length lists
      → addr + block_size (order + d) ≤ 2 ^ 32
      → free_from 0 a (split d lists addr order) + inside order addr a
        ≡ free_from 0 a lists + inside (order + d) addr a
  unfolding split
  split-free_from zero lists addr order l fits =
      let z : order + 0 ≡ order = omega arith in omega (arith, ap (λ (t : ℕ). inside t addr a) z)
  split-free_from (suc d) lists addr order l fits =
      let e : order + suc d ≡ suc (order + d) = omega arith in
      let twice : block_size (order + suc d) ≡ 2 * block_size (order + d) =
        ap (λ (t : ℕ). block_size t) e ∙ block_double (order + d) in
      let mid : u32 (addr + block_size (order + d)) ≡ addr + block_size (order + d) =
        omega (arith, twice, fits, block_size-positive (order + d)) in
      let more = add_to_list lists (u32 (addr + block_size (order + d))) (order + d) in
      let added : free_from 0 a more
          ≡ inside (order + d) (addr + block_size (order + d)) a + free_from 0 a lists =
        free_from-add_first lists (u32 (addr + block_size (order + d))) (order + d) (omega arith)
        ∙ ap (λ (t : ℕ). inside (order + d) t a + free_from 0 a lists) mid in
      let rest =
        split-free_from d more addr order
          (unfold add_to_list in
            rw (length-modify lists (order + d) (λ bs. u32 (addr + block_size (order + d)) ∷ bs))
              (omega arith))
          (omega (arith, twice, fits)) in
      omega (arith, rest, added, halves (order + d) addr, ap (λ (t : ℕ). inside t addr a) e)

-- The lists are one for each order, and each block ends below 4 GB.
pub record IsPmm (s : Pmm) : Type 0 where
  pub orders : length s.free_lists ≡ max_order + 1
  pub in_memory :
      (order : ℕ) (b : ℕ) (bs : List ℕ)
      → get_or s.free_lists order [] ≡ b ∷ bs
      → b + block_size order ≤ 2 ^ 32

-- What an allocation does: nothing, as no list from the order on has a block; or it returns a block of
-- the order, and every byte is in as many free blocks and returned blocks as it was in free ones.
abbrev pub Allocated : Pmm → ℕ → Pmm × Option ℕ → Type 0
Allocated s order (t, none) =
    (t ≡ s) × ((j : ℕ) → order ≤ j → j ≤ max_order → get_or s.free_lists j [] ≡ [])
Allocated s order (t, some addr) =
    (a : ℕ) → free_from 0 a t.free_lists + inside order addr a ≡ free_from 0 a s.free_lists

is_empty : (bs : List ℕ) → is_nonempty bs ≡ false → bs ≡ []
is_empty [] h = refl
is_empty (b ∷ bs) h = absurd (cc h)

module _ {s : Pmm} (p : IsPmm s) (order : ℕ) (l : order ≤ max_order) where
  take_block-Allocated :
      (d : ℕ) (bs : List ℕ)
      → order + d ≤ max_order
      → get_or s.free_lists (order + d) [] ≡ bs
      → is_nonempty bs ≡ true
      → Allocated s order (take_block s order (order + d) bs)
  unfolding take_block
  take_block-Allocated d [] b e h = absurd (cc h)
  take_block-Allocated d (addr ∷ bs) b e h = λ a.
      let z : order + d - order ≡ d = omega arith in
      let n = length-modify s.free_lists (order + d) tail in
      rw z (
        omega (
          arith,
          split-free_from a d (modify s.free_lists (order + d) tail) addr order
              (omega (arith, n, p.orders)) (p.in_memory (order + d) addr bs e),
          free_from-tail_first a s.free_lists (order + d) addr bs e,
        ))

  alloc_from-Allocated :
      (o : Option ℕ)
      → IsFirstFrom (has_block s.free_lists) (max_order + 1 - order) order o
      → Allocated s order (alloc_from s order o)
  unfolding alloc_from
  alloc_from-Allocated none g = (refl, λ j b c. is_empty _ (g j b (omega arith)))
  alloc_from-Allocated (some j) g =
      let z : order + (j - order) ≡ j = omega (arith, g.0) in
      rw (← z) (
        take_block-Allocated (j - order) (get_or s.free_lists (order + (j - order)) [])
          (omega (arith, g.1)) refl (rw z g.2))

-- With eleven lists whose blocks end below 4 GB, an allocation of an order up to 10 returns a block that was
-- free, whole or split off a larger one: each byte of memory is afterwards in as many free blocks and
-- returned blocks as it was in free blocks before. It returns nothing, and changes nothing, only if all lists
-- from that order on are empty.
pub alloc_page-Allocated :
    {s : Pmm} (order : ℕ) → IsPmm s → order ≤ max_order → Allocated s order (alloc_page s order)
unfolding alloc_page
alloc_page-Allocated {s} order p l =
    let e : ltb max_order order ≡ false = ground arith in
    rw e (alloc_from-Allocated p order l _ (first_from-IsFirstFrom _ _ _))

length-split :
    (d : ℕ) (lists : List (List ℕ)) (addr order : ℕ)
    → length (split d lists addr order) ≡ length lists
unfolding split add_to_list
length-split zero lists addr order = refl
length-split (suc d) lists addr order =
    length-split d _ addr order
    ∙ length-modify lists (order + d) (λ bs. u32 (addr + block_size (order + d)) ∷ bs)

length-take_block :
    (s : Pmm) (order j : ℕ) (bs : List ℕ)
    → length (take_block s order j bs).0.free_lists ≡ length s.free_lists
unfolding take_block
length-take_block s order j [] = refl
length-take_block s order j (addr ∷ bs) =
    length-split (j - order) _ addr order ∙ length-modify s.free_lists j tail

length-alloc_page :
    (s : Pmm) (order : ℕ) → length (alloc_page s order).0.free_lists ≡ length s.free_lists
unfolding alloc_page
length-alloc_page s order = elim (Bool-cases (ltb max_order order)) [
  | inl e ↦ rw e refl
  | inr e ↦ rw e (go _)
]
  where
    go : (o : Option ℕ) → length (alloc_from s order o).0.free_lists ≡ length s.free_lists
    go none = unfold alloc_from in refl
    go (some j) = unfold alloc_from in length-take_block s order j (get_or s.free_lists j [])

-- With eleven lists whose blocks end below 4 GB, a block of an order up to 10 that is not at address 0 and
-- is allocated and then freed with the same order leaves every byte in as many free blocks
-- as it was in before both.
pub free_page-alloc_page :
    {s : Pmm} (order addr : ℕ)
    → IsPmm s
    → order ≤ max_order
    → (alloc_page s order).1 ≡ some addr
    → addr ≢ 0
    → (a : ℕ)
    → free_from 0 a (free_page (alloc_page s order).0 addr order).free_lists
      ≡ free_from 0 a s.free_lists
unfolding free_page
free_page-alloc_page {s} order addr p l e nz a =
    let null : (addr == 0) ≡ false = ground arith in
    let high : ltb max_order order ≡ false = ground arith in
    rw (null, high)
      (go (alloc_page s order) (alloc_page-Allocated order p l) e
        (omega (arith, length-alloc_page s order, p.orders)))
  where
    go :
        (r : Pmm × Option ℕ)
        → Allocated s order r
        → r.1 ≡ some addr
        → order < length r.0.free_lists
        → free_from 0 a (add_to_list r.0.free_lists addr order) ≡ free_from 0 a s.free_lists
    go (t, none) h f b = absurd (cc f)
    go (t, some x) h f b =
        let z : x ≡ addr = cc in
        omega (
          arith,
          free_from-add_first a t.free_lists addr order b,
          h a,
          ap (λ (y : ℕ). inside order y a) z,
        )
