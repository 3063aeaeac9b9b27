-- ===== src/Vm64/Descent.antt =====
-- One descent of src/vm64.c through the tables.
use aj.Common.{
  ℕ, zero, suc, ◌+◌, ◌*◌, ◌/◌, ◌%◌, ◌^◌, ◌<◌, ◌≡◌, ◌≢◌, refl, ap, sym, subst, ◌∙◌, inl, inr, Bool,
  true, false, none, some, List, ◌∷◌, ◌==◌, if◌then◌else◌, Bool-cases, sum_below, store, arith,
}
use aj.Pmm64.{Pmm64, pmm64_alloc_frame, start_address, frame_size, frames}
use aj.Pmm64.Laws.{IsPmm64, taken, alloc_frame-Allocates}
use aj.Vm64.{Vm, is_present, addr_of, entry, zero_table, next_level}
use aj.Vm64.Walk.{entry-flags, linked_at, is_link, is_large}
use aj.Vm64.Tree.{
  Key, IsTree, IsFair, slot, user_slot, Descends, key_new, key_new_at, key_new_keeps, keyed_else,
  walk_new, key_new-IsTree,
}

sum_below_ones : (f : ℕ → ℕ) (n : ℕ) → ((j : ℕ) → j < n → f j ≡ 1) → sum_below f n ≡ n
unfolding sum_below
sum_below_ones f zero h = refl
sum_below_ones f (suc n) h =
    omega (arith, h n (omega arith), sum_below_ones f n (λ j l. h j (omega arith)))

-- The frame that a table is given, while there is one.
pub record Fresh (s : Vm) (r : Pmm64 × ℕ) : Type 0 where
  pub frame : ℕ
  pub frame_lt : frame < frames
  pub at : r.1 ≡ start_address + frame * frame_size
  pub free : taken s.pmm frame ≡ 0
  pub valid : IsPmm64 r.0
  pub changed : (j : ℕ) → taken r.0 j ≡ (if j == frame then 1 else taken s.pmm j)
  pub used : r.0.frames_used ≡ s.pmm.frames_used + 1

alloc_frame-Fresh :
    (s : Vm) → IsPmm64 s.pmm → s.pmm.frames_used < frames → Fresh s (pmm64_alloc_frame s.pmm)
alloc_frame-Fresh s h room =
    let (a, v) = alloc_frame-Allocates h in
    elim a [
      | inl (z, w, all) ↦
          absurd (omega (arith, room, h.used, sum_below_ones (taken s.pmm) frames all))
      | inr (i, l, at, free, below, changed, used) ↦ record {
        frame = i;
        frame_lt = l;
        at = at;
        free = free;
        valid = v;
        changed = changed;
        used = used;
      }
    ]

-- The entry of a new table.
abbrev table_entry : Bool → ℕ → ℕ
table_entry user t = if user then entry t 7 0 else entry t 3 1

-- The entry of a new table is as the tables above the last ones want it.
table_entry-IsFair :
    (user : Bool) (q k : ℕ) (path : List ℕ)
    → q < 2 ^ 40
    → (slot path ≡ user_slot → user ≡ true)
    → IsFair k path (table_entry user (q * 2 ^ 12))
table_entry-IsFair true q k path l z =
    let (a, link, p, w, u, x) = entry-flags q 7 0 l (omega arith) refl refl (omega arith) in
    record {
      large = λ _ g. let n = link k in absurd (ground (arith, n, g));
      writable = λ _. w;
      user = λ _ _. (u, x);
    }
table_entry-IsFair false q k path l z =
    let (a, link, p, w, u, x) = entry-flags q 3 1 l (omega arith) refl refl (omega arith) in
    record {
      large = λ _ g. let n = link k in absurd (ground (arith, n, g));
      writable = λ _. w;
      user = λ _ r. absurd (cc (z r));
    }

entry_new :
    (user : Bool) (q : ℕ)
    → q < 2 ^ 40
    → let e = table_entry user (q * 2 ^ 12) in
      (addr_of e ≡ q * 2 ^ 12) × (is_present e ≡ true) × ((n : ℕ) → is_link n e ≡ true)
entry_new true q l =
    let f = entry-flags q 7 0 l (omega arith) refl refl (omega arith) in (f.0, f.2, f.1)
entry_new false q l =
    let f = entry-flags q 3 1 l (omega arith) refl refl (omega arith) in (f.0, f.2, f.1)

module _ (s : Vm) (key : Key) (h : IsTree s key) (t k : ℕ) (path : List ℕ) (i : ℕ)
    (c : key t ≡ some (suc (suc k), path)) (il : i < 512) (above : slot (i ∷ path) ≢ 0) where
  descend_present :
      is_present (s.mem (t + 8 * i)) ≡ true
      → Descends s key (s, addr_of (s.mem (t + 8 * i))) t k path i
  descend_present p =
      let o : is_link (suc k) (s.mem (t + 8 * i)) ≡ true =
        elim (Bool-cases (is_large (suc k) (s.mem (t + 8 * i)))) [
          | inl g ↦ absurd (above ((h.fair t k path i c il).large p g))
          | inr g ↦ rw (p, g) refl
        ] in
      record {
        key' = key;
        tree = h;
        found = h.child t k path i c il o;
        keeps = λ u x q. q;
        linked = (o, refl);
        stays = λ u x j q l o'. refl;
        same_walk = λ v n u pth q. refl;
        same_cr3 = refl;
        one_frame = omega arith;
      }

  descend_new :
      (e : ℕ)
      → is_present (s.mem (t + 8 * i)) ≡ false
      → Fresh s (pmm64_alloc_frame s.pmm)
      → is_present e ≡ true
      → ((n : ℕ) → is_link n e ≡ true)
      → IsFair (suc k) (i ∷ path) e
      → addr_of e ≡ (pmm64_alloc_frame s.pmm).1
      → let r = pmm64_alloc_frame s.pmm in
        Descends s key
          (record s { mem = store (zero_table s.mem r.1) (t + 8 * i) e; pmm = r.0 }, addr_of e)
          t
          k
          path
          i
  descend_new e absent f present link good to_new =
      let r = pmm64_alloc_frame s.pmm in
      let fresh : key r.1 ≡ none = ap key f.at ∙ h.no_free f.frame f.frame_lt f.free in
      let ta : r.1 % 4096 ≡ 0 = omega (arith, f.at) in
      let written = linked_at s.mem r.1 (t + 8 * i) e in
      record {
        key' = key_new s key h t k path i r.1 e c il fresh ta absent present link good to_new;
        tree =
            key_new-IsTree s key h t k path i r.1 e c il fresh ta absent present link good to_new
              r.0 f.frame f.at f.valid f.changed;
        found =
            ap (key_new s key h t k path i r.1 e c il fresh ta absent present link good to_new)
              to_new
            ∙ key_new_at s key h t k path i r.1 e c il fresh ta absent present link good to_new;
        keeps =
            key_new_keeps s key h t k path i r.1 e c il fresh ta absent present link good to_new;
        linked = (ap (is_link (suc k)) written ∙ link (suc k), ap addr_of written);
        stays = λ u x j q l o.
            keyed_else s key h t k path i r.1 e c il fresh ta absent present link good to_new u x j
              q l
              (λ z.
                let old : is_present (s.mem (u + 8 * j)) ≡ false =
                  ap (λ (y : ℕ). is_present (s.mem y)) z ∙ absent in
                absurd (cc (old, o)));
        same_walk = walk_new s key h t k path i r.1 e c il fresh ta absent present link good to_new;
        same_cr3 = refl;
        one_frame = omega (arith, f.used);
      }

  pub next_level-Descends :
      (user : Bool)
      → (slot (i ∷ path) ≡ user_slot → user ≡ true)
      → s.pmm.frames_used < frames
      → Descends s key (next_level user s (t + 8 * i)) t k path i
  unfolding next_level
  next_level-Descends user own room = elim (Bool-cases (is_present (s.mem (t + 8 * i)))) [
    | inl o ↦ rw o (descend_present o)
    | inr o ↦
        let f = alloc_frame-Fresh s h.valid room in
        let q : ℕ = start_address / frame_size + f.frame in
        let small : q < 2 ^ 40 = omega (arith, f.frame_lt) in
        let frame : (pmm64_alloc_frame s.pmm).1 ≡ q * 2 ^ 12 = omega (arith, f.at) in
        let low = entry_new user q small in
        let to_new : addr_of (table_entry user (pmm64_alloc_frame s.pmm).1)
            ≡ (pmm64_alloc_frame s.pmm).1 =
          rw frame low.0 in
        let present : is_present (table_entry user (pmm64_alloc_frame s.pmm).1) ≡ true =
          rw frame low.1 in
        let link : (n : ℕ) → is_link n (table_entry user (pmm64_alloc_frame s.pmm).1) ≡ true =
          λ n. rw frame (low.2 n) in
        let good : IsFair (suc k) (i ∷ path) (table_entry user (pmm64_alloc_frame s.pmm).1) =
          subst (λ (y : ℕ). IsFair (suc k) (i ∷ path) (table_entry user y)) (sym frame)
            (table_entry-IsFair user q (suc k) (i ∷ path) small own) in
        rw o
          (descend_new (table_entry user (pmm64_alloc_frame s.pmm).1) o f present link good to_new)
  ]
