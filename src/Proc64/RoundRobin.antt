-- ===== src/Proc64/RoundRobin.antt =====
-- The choice of the next process in src/proc64.c, and the order of the choices.
use aj.Common.{
  ℕ, suc, ◌+◌, ◌-◌, ◌%◌, ◌≤◌, ◌<◌, ◌≡◌, ◌≢◌, refl, ap, Bool, true, false, Option, none, some, arith,
  IsFirstFrom, first_from-IsFirstFrom,
}
use aj.Proc64.State.{Kernel, max_procs}
use aj.Proc64.Schedule.{is_index, eligible, start_of, slot_after, choose, pick_next}

-- How many rounds after slot `start` the loop comes to slot `i`, from 1 to 8.
abbrev pub rounds_to : ℕ → ℕ → ℕ
rounds_to start i = (i + 15 - start % max_procs) % max_procs + 1

rounds_to_lem :
    (start i : ℕ)
    → i < max_procs
    → (slot_after start (rounds_to start i) ≡ i) × (rounds_to start i < 9)
rounds_to_lem start i l = omega arith

rounds_to-slot_after : (start d : ℕ) → 1 ≤ d → d < 9 → rounds_to start (slot_after start d) ≡ d
rounds_to-slot_after start d a b = omega arith

-- What the scheduler's search returns: no slot is eligible and nothing changes, or the eligible slot that
-- comes first after the start in the order of the table, wrapping round, which it notes in `rr`.
abbrev pub Picks : Kernel → Option ℕ → Bool → Kernel × Option ℕ → Type 0
Picks k cur same (k', none) = (k' ≡ k) × ((i : ℕ) → i < max_procs → eligible k cur same i ≡ false)
Picks k cur same (k', some n) =
    (n < max_procs)
    × (eligible k cur same n ≡ true)
    × (k' ≡ record k { rr = n })
    × ((i : ℕ)
        → i < max_procs
        → rounds_to (start_of k cur) i < rounds_to (start_of k cur) n
        → eligible k cur same i ≡ false)

choose-Picks :
    (k : Kernel) (cur : Option ℕ) (same : Bool) (o : Option ℕ)
    → IsFirstFrom (λ i. eligible k cur same (slot_after (start_of k cur) i)) max_procs 1 o
    → Picks k cur same (choose k (start_of k cur) o)
unfolding choose
choose-Picks k cur same none h = (
  refl,
  λ i l.
      let (at, b) = rounds_to_lem (start_of k cur) i l in
      rw at at (h (rounds_to (start_of k cur) i) (omega arith) b),
)
choose-Picks k cur same (some d) h =
    let s = start_of k cur in
    let own : rounds_to s (slot_after s d) ≡ d = rounds_to-slot_after s d h.0 h.1 in
    (
      omega arith,
      h.2,
      refl,
      λ i l before.
          let (at, b) = rounds_to_lem s i l in
          rw at at (h.3 (rounds_to s i) (omega arith) (omega (arith, own, before))),
    )

-- The scheduler picks the first eligible process after the current one (or after the last pick, if
-- there is none), and none exactly if no slot is eligible; it changes nothing but `rr`.
pub pick_next-Picks :
    (k : Kernel) (cur : Option ℕ) (same : Bool) → Picks k cur same (pick_next k cur same)
unfolding pick_next
pick_next-Picks k cur same = choose-Picks k cur same _ (first_from-IsFirstFrom _ _ _)

nearer :
    (s m i : ℕ)
    → m < max_procs
    → i < max_procs
    → m ≢ i
    → rounds_to s m ≤ rounds_to s i
    → suc (rounds_to m i) ≤ rounds_to s i
nearer s m i a b ne le = omega arith

-- `n` picks have passed over slot `i`, which could be chosen at each of them. Whatever happens to the kernel
-- between two picks, each starts where the last one ended: in the dispatch loop as it reads `rr`, and at the timer
-- as the current process is the last one that was picked.
pub data Passed (i : ℕ) : ℕ → Kernel → Type 0 where
  unpassed : {k : Kernel} → Passed i 0 k
  passed :
      {n : ℕ} {k : Kernel}
      → Passed i n k
      → (m : Kernel) (cur : Option ℕ) (same : Bool) → start_of m cur ≡ k.rr
      → eligible m cur same i ≡ true
      → is_index (pick_next m cur same).1 i ≡ false
      → Passed i (suc n) (pick_next m cur same).0

pick_nearer :
    (m : Kernel) (cur : Option ℕ) (same : Bool) (i : ℕ) (p : Kernel × Option ℕ)
    → i < max_procs
    → Picks m cur same p
    → eligible m cur same i ≡ true
    → is_index p.1 i ≡ false
    → suc (rounds_to p.0.rr i) ≤ rounds_to (start_of m cur) i
pick_nearer m cur same i (k', none) l h e x = absurd (cc (h.1 i l, e))
pick_nearer m cur same i (k', some j) l h e x =
    let at : k'.rr ≡ j = ap (λ (k : Kernel). k.rr) h.2 in
    let le : rounds_to (start_of m cur) j ≤ rounds_to (start_of m cur) i =
      ground (arith, h.3 i l) in
    rw at (nearer (start_of m cur) j i h.0 l (λ z. ground arith) le)

Passed-rounds_to :
    {i n : ℕ} {k : Kernel} → i < max_procs → Passed i n k → n + rounds_to k.rr i ≤ max_procs
Passed-rounds_to l unpassed = omega arith
Passed-rounds_to {i} l (passed {n} {k} before m cur same at e x) =
    let near = pick_nearer m cur same i _ l (pick_next-Picks m cur same) e x in
    omega (arith, Passed-rounds_to l before, rw at at near)

-- A process that could be chosen at each of some picks in succession, where each search starts at the last
-- pick, is passed over by fewer than eight of them, whatever else happens to the table between the picks.
pub picks_fair : {i n : ℕ} {k : Kernel} → i < max_procs → Passed i n k → n < max_procs
picks_fair l p = omega (arith, Passed-rounds_to l p)
