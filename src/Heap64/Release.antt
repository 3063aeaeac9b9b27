-- ===== src/Heap64/Release.antt =====
-- `kfree64` of src/vm64.c: the merging of free neighbours, the layout, and the blocks in use.
use aj.Common.{
  ℕ, ◌+◌, ◌^◌, ◌<◌, ◌≡◌, refl, inl, inr, Bool, true, false, Option, none, some, [], ◌∷◌, ◌==◌,
  if◌then◌else◌, Bool-cases, arith,
}
use mathlib.Core.Option
use aj.Heap64.{header, Block, Heap, grow, absorb_next, join_prev, mark_free, is_at, release}
use aj.Heap64.FirstFit.{Tiles, Tiles-le, Coalesced, starts_free, live, live_low}

-- `P` holds of the heap, if there is one.
abbrev pub Holds : (Heap → Type 0) → Option Heap → Type 0
Holds P none = Unit
Holds P (some h) = P h

Holds-map :
    (P Q : Heap → Type 0) (f : Heap → Heap) (o : Option Heap)
    → Holds P o
    → ((h : Heap) → P h → Q (f h))
    → Holds Q (Option.map f o)
Holds-map P Q f none h step = tt
Holds-map P Q f (some x) h step = step x h

absorb-Tiles :
    (from end : ℕ) (b : Block) (bs : Heap)
    → end < 2 ^ 63
    → Tiles from end (b ∷ bs)
    → Tiles from end (absorb_next b bs)
unfolding absorb_next grow
absorb-Tiles from end b [] small t = t
absorb-Tiles from end b (c ∷ cs) small t =
    ground (arith, Tiles-le (from + header + b.size + header + c.size) end cs)

join-Tiles :
    (from end : ℕ) (a : Block) (bs : Heap)
    → end < 2 ^ 63
    → Tiles from end (a ∷ bs)
    → Tiles from end (join_prev a bs)
unfolding join_prev grow
join-Tiles from end a [] small t = t
join-Tiles from end a (b ∷ bs) small t =
    ground (arith, Tiles-le (from + header + a.size + header + b.size) end bs)

pub release-Tiles :
    (p from end : ℕ) (h : Heap)
    → end < 2 ^ 63
    → Tiles from end h
    → Holds (Tiles from end) (release p h)
unfolding release
release-Tiles p from end [] small t = tt
release-Tiles p from end (a ∷ []) small t = elim (Bool-cases (is_at p a)) [
  | inl e ↦ rw e t
  | inr e ↦ rw e tt
]
release-Tiles p from end (a ∷ b ∷ bs) small t = elim (Bool-cases (is_at p a)) [
  | inl e ↦ rw e (absorb-Tiles from end (mark_free a) (b ∷ bs) small t)
  | inr e ↦ elim (Bool-cases (is_at p b)) [
    | inl f ↦
        let rest = absorb-Tiles (from + header + a.size) end (mark_free b) bs small t.2 in
        rw (e, f) (join-Tiles from end a (absorb_next (mark_free b) bs) small (t.0, t.1, rest))
    | inr f ↦
        rw (e, f)
          (Holds-map (Tiles (from + header + a.size) end) (Tiles from end) (λ r. a ∷ r)
            (release p (b ∷ bs)) (release-Tiles p (from + header + a.size) end (b ∷ bs) small t.2)
            (λ r u. (t.0, t.1, u)))
  ]
]

absorb-live : (b : Block) (bs : Heap) (q : ℕ) → live (absorb_next (mark_free b) bs) q ≡ live bs q
unfolding absorb_next grow live
absorb-live b [] q = refl
absorb-live b (c ∷ cs) q = ground arith

join-live :
    (a b : Block) (bs : Heap) (q : ℕ)
    → live (join_prev a (absorb_next (mark_free b) bs)) q ≡ live (a ∷ bs) q
unfolding join_prev absorb_next grow live
join-live a b [] q = ground arith
join-live a b (c ∷ cs) q = ground arith

-- `t` has the blocks in use of `s`, but for the one at `p`.
abbrev pub Without : ℕ → Heap → Heap → Type 0
Without p s t = (q : ℕ) → live t q ≡ (if q == p then none else live s q)

pub release-Without :
    (p from end : ℕ) (h : Heap) → Tiles from end h → Holds (Without p h) (release p h)
unfolding release
release-Without p from end [] t = tt
release-Without p from end (a ∷ []) t = elim (Bool-cases (is_at p a)) [
  | inl e ↦ rw e (λ q. unfold live in ground arith)
  | inr e ↦ rw e tt
]
release-Without p from end (a ∷ b ∷ bs) t = elim (Bool-cases (is_at p a)) [
  | inl e ↦ rw e (λ q.
      unfold live in
      ground
        (arith, absorb-live a (b ∷ bs) q, live_low (from + header + a.size) end (b ∷ bs) q t.2))
  | inr e ↦ elim (Bool-cases (is_at p b)) [
    | inl f ↦
        rw (e, f)
          (λ q.
            unfold live in
            ground (
              arith,
              join-live a b bs q,
              live_low (from + header + a.size + header + b.size) end bs q t.2.2,
            ))
    | inr f ↦
        rw (e, f)
          (Holds-map (Without p (b ∷ bs)) (Without p (a ∷ b ∷ bs)) (λ r. a ∷ r) (release p (b ∷ bs))
            (release-Without p (from + header + a.size) end (b ∷ bs) t.2)
            (λ r u q. unfold live in ground (arith, u q)))
  ]
]

-- A block in use can be released.
pub release_total :
    (p : ℕ) (h : Heap) {sz : ℕ} → live h p ≡ some sz → (h' : Heap) × (release p h ≡ some h')
unfolding release live
release_total p [] e = absurd (cc e)
release_total p (a ∷ []) e = (mark_free a ∷ [], ground arith)
release_total p (a ∷ b ∷ bs) {sz} e = elim (Bool-cases (is_at p a)) [
  | inl f ↦ (absorb_next (mark_free a) (b ∷ bs), rw f)
  | inr f ↦ elim (Bool-cases (is_at p b)) [
    | inl g ↦ (join_prev a (absorb_next (mark_free b) bs), rw (f, g))
    | inr g ↦
        let rest = release_total p (b ∷ bs) {sz = sz} (ground arith) in
        (a ∷ rest.0, rw (f, g, rest.1))
  ]
]

absorb-Coalesced : (b : Block) (bs : Heap) → Coalesced bs → Coalesced (absorb_next (mark_free b) bs)
unfolding absorb_next grow
absorb-Coalesced b [] c = (refl, tt)
absorb-Coalesced b (x ∷ xs) c = ground arith

-- The head of the merged list is free exactly if the head of the list before it was.
join-Coalesced :
    (a b : Block) (bs : Heap)
    → Coalesced bs
    → Coalesced (join_prev a (absorb_next (mark_free b) bs))
      × (starts_free (join_prev a (absorb_next (mark_free b) bs)) ≡ a.free)
unfolding join_prev absorb_next grow
join-Coalesced a b [] c = ground arith
join-Coalesced a b (x ∷ xs) c = ground arith

abbrev StartsAs : Bool → Heap → Type 0
StartsAs f h = Coalesced h × (starts_free h ≡ f)

release_later :
    (p : ℕ) (a : Block) (bs : Heap)
    → is_at p a ≡ false
    → Coalesced (a ∷ bs)
    → Holds (StartsAs a.free) (release p (a ∷ bs))
unfolding release
release_later p a [] e c = rw e tt
release_later p a (b ∷ bs) e c = elim (Bool-cases (is_at p b)) [
  | inl f ↦ rw (e, f) (join-Coalesced a b bs c.1.1)
  | inr f ↦
      rw (e, f)
        (Holds-map (StartsAs b.free) (StartsAs a.free) (λ r. a ∷ r) (release p (b ∷ bs))
          (release_later p b bs f c.1) (λ r u. ((rw u.1 c.0, u.0), refl)))
]

pub release-Coalesced : (p : ℕ) (h : Heap) → Coalesced h → Holds Coalesced (release p h)
unfolding release
release-Coalesced p [] c = tt
release-Coalesced p (a ∷ bs) c = elim (Bool-cases (is_at p a)) [
  | inl e ↦ first p a bs e c
  | inr e ↦ weaken (release p (a ∷ bs)) (release_later p a bs e c)
]
  where
    weaken : (o : Option Heap) → Holds (StartsAs a.free) o → Holds Coalesced o
    weaken none h = tt
    weaken (some x) h = h.0

    first :
        (p : ℕ) (a : Block) (bs : Heap)
        → is_at p a ≡ true
        → Coalesced (a ∷ bs)
        → Holds Coalesced (release p (a ∷ bs))
    first p a [] e c = rw e (refl, tt)
    first p a (b ∷ bs) e c = rw e (absorb-Coalesced a (b ∷ bs) c.1)
