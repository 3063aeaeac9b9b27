-- ===== src/Heap64/RoundTrip.antt =====
-- `kmalloc64` and then `kfree64`, src/vm64.c: the block that was carved and its rest.
use aj.Common.{
  ℕ, ◌+◌, ◌-◌, ◌^◌, ◌<◌, ◌≡◌, refl, sym, ap, ◌∙◌, inl, inr, true, false, ◌&&◌, some, [], ◌∷◌, ◌++◌,
  leb, Bool-cases, ==-refl, u64, arith,
}
use mathlib.Core.Option
use aj.Heap64.{
  header, Block, Heap, carve, first_fit, grow, absorb_next, join_prev, mark_free, is_at, release,
}
use aj.Heap64.FirstFit.{Tiles, Tiles-le, Coalesced, fits, first_fit_ge}

release-head :
    (p : ℕ) (x : Block) (xs : Heap)
    → is_at p x ≡ true
    → release p (x ∷ xs) ≡ some (absorb_next (mark_free x) xs)
unfolding release absorb_next
release-head p x [] e = rw e
release-head p x (y ∷ ys) e = rw e

release-second :
    (p : ℕ) (a x : Block) (xs : Heap)
    → is_at p a ≡ false
    → is_at p x ≡ true
    → a.free ≡ false
    → release p (a ∷ x ∷ xs) ≡ some (a ∷ absorb_next (mark_free x) xs)
unfolding release join_prev absorb_next
release-second p a x [] e f g = ground arith
release-second p a x (y ∷ ys) e f g = ground arith

release-skip :
    (p : ℕ) (a x : Block) (xs : Heap)
    → is_at p a ≡ false
    → is_at p x ≡ false
    → release p (a ∷ x ∷ xs) ≡ Option.map (λ r. a ∷ r) (release p (x ∷ xs))
unfolding release
release-skip p a x xs e f = rw (e, f)

-- A block that is taken whole, released.
absorb_whole :
    (b : Block) (bs : Heap)
    → Coalesced (b ∷ bs)
    → b.free ≡ true
    → absorb_next (mark_free (record b { free = false })) bs ≡ b ∷ bs
unfolding absorb_next
absorb_whole b [] c f = ground arith
absorb_whole b (y ∷ ys) c f = ground arith

module _ (n : ℕ) where
  -- The carved block, released, is the block that it was carved from.
  release-carve :
      (from end : ℕ) (b : Block) (bs : Heap)
      → end < 2 ^ 63
      → Tiles from end (b ∷ bs)
      → Coalesced (b ∷ bs)
      → (b.free && leb n b.size) ≡ true
      → release (b.addr + header) (carve n b ++ bs) ≡ some (b ∷ bs)
  unfolding carve
  release-carve from end b bs small t c e = elim (Bool-cases (leb (u64 (n + header + 16)) b.size)) [
    | inl f ↦
        rw (f, release-head (b.addr + header) front (back ∷ bs) (==-refl _))
          (unfold absorb_next grow in ground (arith, Tiles-le (from + header + b.size) end bs t.2))
    | inr f ↦
        rw
          (
            f,
            release-head (b.addr + header) (record b { free = false }) bs (==-refl _),
            absorb_whole b bs c (ground arith),
          )
          refl
  ]
    where
      front : Block
      front = record b { size = n; free = false }

      back : Block
      back = record { addr = b.addr + header + n; size = b.size - n - header; free = true }

  -- The same behind a block in use.
  release-cons_carve :
      (a c : Block) (cs : Heap)
      → is_at (c.addr + header) a ≡ false
      → a.free ≡ false
      → release (c.addr + header) (a ∷ (carve n c ++ cs))
        ≡ Option.map (λ r. a ∷ r) (release (c.addr + header) (carve n c ++ cs))
  unfolding carve
  release-cons_carve a c cs e u = elim (Bool-cases (leb (u64 (n + header + 16)) c.size)) [
    | inl f ↦ rw f (both _ _ (==-refl _))
    | inr f ↦ rw f (both _ _ (==-refl _))
  ]
    where
      both :
          (x : Block) (xs : Heap)
          → is_at (c.addr + header) x ≡ true
          → release (c.addr + header) (a ∷ x ∷ xs)
            ≡ Option.map (λ r. a ∷ r) (release (c.addr + header) (x ∷ xs))
      both x xs f =
          release-second (c.addr + header) a x xs e f u
          ∙ sym (ap (Option.map (λ r. a ∷ r)) (release-head (c.addr + header) x xs f))

  pub release-first_fit :
      (from end : ℕ) (h : Heap)
      → end < 2 ^ 63
      → Tiles from end h
      → Coalesced h
      → fits n h ≡ true
      → release (first_fit n h).1 (first_fit n h).0 ≡ some h
  unfolding first_fit fits
  release-first_fit from end [] small t c e = absurd (cc e)
  release-first_fit from end (b ∷ []) small t c e =
      let y : (b.free && leb n b.size) ≡ true = ground arith in
      rw y (release-carve from end b [] small t c y)
  release-first_fit from end (b ∷ d ∷ ds) small t c e = elim (Bool-cases (b.free && leb n b.size)) [
    | inl y ↦ rw y (release-carve from end b (d ∷ ds) small t c y)
    | inr y ↦ elim (Bool-cases (d.free && leb n d.size)) [
      | inl z ↦ rw (y, z) (later_head y z)
      | inr z ↦
          rw (y, z)
            (later_tail y z
              (rw z at (release-first_fit next end (d ∷ ds) small t.2 c.1 (rw y at e))))
    ]
  ]
    where
      next : ℕ
      next = from + header + b.size

      later_head :
          (b.free && leb n b.size) ≡ false
          → (d.free && leb n d.size) ≡ true
          → release (d.addr + header) (b ∷ (carve n d ++ ds)) ≡ some (b ∷ d ∷ ds)
      later_head y z =
          rw
            (
              release-cons_carve b d ds (ground arith) (ground arith),
              release-carve next end d ds small t.2 c.1 z,
            )
            refl

      later_tail :
          (b.free && leb n b.size) ≡ false
          → (d.free && leb n d.size) ≡ false
          → release (first_fit n ds).1 (d ∷ (first_fit n ds).0) ≡ some (d ∷ ds)
          → release (first_fit n ds).1 (b ∷ d ∷ (first_fit n ds).0) ≡ some (b ∷ d ∷ ds)
      later_tail y z rest =
          let far = first_fit_ge n (next + header + d.size) end ds t.2.2 (rw (y, z) at e) in
          release-skip (first_fit n ds).1 b d (first_fit n ds).0 (ground arith) (ground arith)
          ∙ ap (Option.map (λ r. b ∷ r)) rest
