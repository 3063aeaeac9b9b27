-- ===== src/Vm64/Tree.antt =====
-- The tables of src/vm64.c as a tree, and a new table in it.
use aj.Common.{
  ℕ, zero, suc, ◌+◌, ◌*◌, ◌%◌, ◌≤◌, ◌<◌, ◌≡◌, ◌≢◌, ◌⊎◌, refl, sym, ap, subst, ◌∙◌, inl, inr, true,
  false, Option, none, some, List, [], ◌∷◌, ◌==◌, ==→eq, ==-refl, if◌then◌else◌, Bool-cases, Memory,
  arith,
}
use aj.Pmm64.{Pmm64, start_address, frame_size, frames}
use aj.Pmm64.Laws.{IsPmm64, taken}
use aj.Vm64.{Vm, is_present, addr_of}
use aj.Vm64.Walk.{
  index, walk, index-lt, walk_link, walk_end, walk_absent, linked_in, linked_else, linked_zero,
  linked_at, is_link, is_large, can_write, is_user, no_execute, restrict, restrict-none,
}

-- What a table is for: its level, 4 for the first, and the indices that lead to it, the last one first.
abbrev pub Key : Type 0
Key = ℕ → Option (ℕ × List ℕ)

-- The entry of the root that a path starts with.
abbrev pub slot : List ℕ → ℕ
slot [] = 0
slot (i ∷ []) = i
slot (i ∷ j ∷ path) = slot (j ∷ path)

-- The slot of the window of the processes.
abbrev pub user_slot : ℕ
user_slot = 2

-- What the tables above the last ones have in an entry: large pages are only in the identity mapping of the
-- first slot, every link can be written through, and the links to the window's tables leave it to the user
-- and to execution.
pub record IsFair (k : ℕ) (path : List ℕ) (e : ℕ) : Type 0 where
  pub large : is_present e ≡ true → is_large k e ≡ true → slot path ≡ 0
  pub writable : is_link k e ≡ true → can_write e ≡ true
  pub user :
      is_link k e ≡ true → slot path ≡ user_slot → (is_user e ≡ true) × (no_execute e ≡ false)

pub absent-IsFair : (k : ℕ) (path : List ℕ) → IsFair k path 0
absent-IsFair k path = record {
  large = λ p l. absurd (cc p);
  writable = λ p. absurd (cc p);
  user = λ p z. absurd (cc p);
}

-- The tables are a tree, and no free frame is a table.
pub record IsTree (s : Vm) (key : Key) : Type 0 where
  pub valid : IsPmm64 s.pmm
  pub root : key s.cr3 ≡ some (4, [])
  pub aligned : (t : ℕ) (x : ℕ × List ℕ) → key t ≡ some x → t % 4096 ≡ 0
  pub child :
      (t k : ℕ) (path : List ℕ) (i : ℕ)
      → key t ≡ some (suc (suc k), path)
      → i < 512
      → is_link (suc k) (s.mem (t + 8 * i)) ≡ true
      → key (addr_of (s.mem (t + 8 * i))) ≡ some (suc k, i ∷ path)
  pub fair :
      (t k : ℕ) (path : List ℕ) (i : ℕ)
      → key t ≡ some (suc (suc k), path)
      → i < 512
      → IsFair (suc k) (i ∷ path) (s.mem (t + 8 * i))
  pub no_free :
      (j : ℕ) → j < frames → taken s.pmm j ≡ 0 → key (start_address + j * frame_size) ≡ none

-- The tables after a descent through entry `i` of table `t`.
pub record Descends (s : Vm) (key : Key) (r : Vm × ℕ) (t k : ℕ) (path : List ℕ) (i : ℕ)
    : Type 0 where
  pub key' : Key
  pub tree : IsTree r.0 key'
  pub found : key' r.1 ≡ some (suc k, i ∷ path)
  pub keeps : (u : ℕ) (x : ℕ × List ℕ) → key u ≡ some x → key' u ≡ some x
  pub linked :
      (is_link (suc k) (r.0.mem (t + 8 * i)) ≡ true) × (addr_of (r.0.mem (t + 8 * i)) ≡ r.1)
  pub stays :
      (u : ℕ) (x : ℕ × List ℕ) (j : ℕ)
      → key u ≡ some x
      → j < 512
      → is_present (s.mem (u + 8 * j)) ≡ true
      → r.0.mem (u + 8 * j) ≡ s.mem (u + 8 * j)
  pub same_walk :
      (v n u : ℕ) (pth : List ℕ)
      → key u ≡ some (suc n, pth)
      → walk r.0.mem (suc n) u v ≡ walk s.mem (suc n) u v
  pub same_cr3 : r.0.cr3 ≡ s.cr3
  pub one_frame : r.0.pmm.frames_used ≤ s.pmm.frames_used + 1

-- The level of a key, and its path.
abbrev pub level_of : Option (ℕ × List ℕ) → ℕ
level_of none = 0
level_of (some (k, path)) = k

abbrev pub path_of : Option (ℕ × List ℕ) → List ℕ
path_of none = []
path_of (some (k, path)) = path

-- The new table in the tree.
module _ (s : Vm) (key : Key) (h : IsTree s key) (t k : ℕ) (path : List ℕ) (i tn e : ℕ)
    (c : key t ≡ some (suc (suc k), path)) (il : i < 512) (fresh : key tn ≡ none)
    (ta : tn % 4096 ≡ 0) (absent : is_present (s.mem (t + 8 * i)) ≡ false)
    (present : is_present e ≡ true) (link : (n : ℕ) → is_link n e ≡ true)
    (good : IsFair (suc k) (i ∷ path) e) (to_new : addr_of e ≡ tn) where
  abbrev pub new_mem : Memory
  new_mem = linked_in s.mem tn (t + 8 * i) e

  abbrev pub key_new : Key
  key_new u = if u == tn then some (suc k, i ∷ path) else key u

  apart : (u : ℕ) (x : ℕ × List ℕ) → key u ≡ some x → u ≢ tn
  apart u x q z = absurd (cc (fresh, q, ap key z))

  pub keyed_else :
      (u : ℕ) (x : ℕ × List ℕ) (j : ℕ)
      → key u ≡ some x
      → j < 512
      → u + 8 * j ≢ t + 8 * i
      → new_mem (u + 8 * j) ≡ s.mem (u + 8 * j)
  keyed_else u x j q l n =
      let ne = apart u x q in
      let ua = h.aligned u x q in
      linked_else s.mem tn (t + 8 * i) e (u + 8 * j) n (ground (arith, ne, ua, ta))

  -- An entry of a table is not the one that changes, or it is entry `i` of `t`.
  pub is_or_not :
      (u : ℕ) (x : ℕ × List ℕ) (j : ℕ)
      → key u ≡ some x
      → j < 512
      → ((u ≡ t) × (j ≡ i)) ⊎ (u + 8 * j ≢ t + 8 * i)
  is_or_not u x j q l =
      let ua = h.aligned u x q in let ta' = h.aligned t _ c in ground (arith, ua, ta')

  new_zero : (j : ℕ) → j < 512 → new_mem (tn + 8 * j) ≡ 0
  new_zero j l =
      let ne = apart t _ c in
      let ta' = h.aligned t _ c in
      linked_zero s.mem tn (t + 8 * i) e (tn + 8 * j) (ground (arith, ne, ta, ta', il, l))
        (omega arith) (omega (arith, l))

  new_empty : (n v : ℕ) → walk new_mem (suc n) tn v ≡ none
  new_empty n v = walk_absent new_mem n tn v (rw (new_zero (index v n) (index-lt v n)) refl)

  pub key_new_at : key_new tn ≡ some (suc k, i ∷ path)
  key_new_at = rw (==-refl tn) refl

  key_new_old : (u : ℕ) → u ≢ tn → key_new u ≡ key u
  key_new_old u n = let f : (u == tn) ≡ false = ground arith in rw f refl

  pub key_new_keeps : (u : ℕ) (x : ℕ × List ℕ) → key u ≡ some x → key_new u ≡ some x
  key_new_keeps u x q = key_new_old u (apart u x q) ∙ q

  walk_step :
      (v n u : ℕ) (pth : List ℕ)
      → key u ≡ some (suc n, pth)
      → (is_link n (s.mem (u + 8 * index v n)) ≡ true
          → walk new_mem n (addr_of (s.mem (u + 8 * index v n))) v
            ≡ walk s.mem n (addr_of (s.mem (u + 8 * index v n))) v)
      → walk new_mem (suc n) u v ≡ walk s.mem (suc n) u v
  walk_step v n u pth q below = elim (is_or_not u _ (index v n) q (index-lt v n)) [
    | inl (a, b) ↦
        let here : u + 8 * index v n ≡ t + 8 * i = omega (arith, a, b) in
        let old : is_present (s.mem (u + 8 * index v n)) ≡ false =
          ap (λ (x : ℕ). is_present (s.mem x)) here ∙ absent in
        let new : new_mem (u + 8 * index v n) ≡ e =
          ap new_mem here ∙ linked_at s.mem tn (t + 8 * i) e in
        let level : n ≡ suc k =
          (let z : suc n ≡ suc (suc k) = ap level_of (sym q ∙ ap key a ∙ c) in omega (arith, z)) in
        let below_new : walk new_mem n (addr_of (new_mem (u + 8 * index v n))) v ≡ none =
          ap (λ (x : ℕ). walk new_mem n x v) (ap addr_of new ∙ to_new)
          ∙ ap (λ (x : ℕ). walk new_mem x tn v) level
          ∙ new_empty k v in
        walk_link new_mem n u v (ap (is_link n) new ∙ link n)
        ∙ ap (restrict (new_mem (u + 8 * index v n))) below_new
        ∙ restrict-none (new_mem (u + 8 * index v n))
        ∙ sym (walk_absent s.mem n u v old)
    | inr ne ↦
        let same : new_mem (u + 8 * index v n) ≡ s.mem (u + 8 * index v n) =
          keyed_else u _ (index v n) q (index-lt v n) ne in
        elim (Bool-cases (is_link n (s.mem (u + 8 * index v n)))) [
          | inl o ↦
              walk_link new_mem n u v (ap (is_link n) same ∙ o)
              ∙ ap (λ (x : ℕ). restrict x (walk new_mem n (addr_of x) v)) same
              ∙ ap (restrict (s.mem (u + 8 * index v n))) (below o)
              ∙ sym (walk_link s.mem n u v o)
          | inr o ↦ walk_end s.mem new_mem n u v o same
        ]
  ]

  pub walk_new :
      (v n u : ℕ) (pth : List ℕ)
      → key u ≡ some (suc n, pth)
      → walk new_mem (suc n) u v ≡ walk s.mem (suc n) u v
  walk_new v zero u pth q = walk_step v zero u pth q (λ o. (unfold walk in refl))
  walk_new v (suc n) u pth q = walk_step v (suc n) u pth q (λ o.
      walk_new v n (addr_of (s.mem (u + 8 * index v (suc n)))) (index v (suc n) ∷ pth)
        (h.child u n pth (index v (suc n)) q (index-lt v (suc n)) o))

  child_old :
      (u n : ℕ) (pth : List ℕ) (j : ℕ)
      → key u ≡ some (suc (suc n), pth)
      → j < 512
      → is_link (suc n) (new_mem (u + 8 * j)) ≡ true
      → key_new (addr_of (new_mem (u + 8 * j))) ≡ some (suc n, j ∷ pth)
  child_old u n pth j q l o = elim (is_or_not u _ j q l) [
    | inl (a, b) ↦
        let z = sym c ∙ ap key (sym a) ∙ q in
        let level : suc (suc k) ≡ suc (suc n) = ap level_of z in
        let level' : k ≡ n = omega (arith, level) in
        let same : path ≡ pth = ap path_of z in
        let here : u + 8 * j ≡ t + 8 * i = omega (arith, a, b) in
        let new : new_mem (u + 8 * j) ≡ e = ap new_mem here ∙ linked_at s.mem tn (t + 8 * i) e in
        ap key_new (ap addr_of new ∙ to_new) ∙ key_new_at ∙ rw (level', same, b) refl
    | inr ne ↦
        let same : new_mem (u + 8 * j) ≡ s.mem (u + 8 * j) = keyed_else u _ j q l ne in
        ap (λ (x : ℕ). key_new (addr_of x)) same
        ∙ key_new_keeps (addr_of (s.mem (u + 8 * j))) _
            (h.child u n pth j q l (ap (is_link (suc n)) (sym same) ∙ o))
  ]

  child_new :
      (u n : ℕ) (pth : List ℕ) (j : ℕ)
      → key_new u ≡ some (suc (suc n), pth)
      → j < 512
      → is_link (suc n) (new_mem (u + 8 * j)) ≡ true
      → key_new (addr_of (new_mem (u + 8 * j))) ≡ some (suc n, j ∷ pth)
  child_new u n pth j q l o = elim (Bool-cases (u == tn)) [
    | inl z ↦
        let nothing : new_mem (u + 8 * j) ≡ 0 =
          ap (λ (y : ℕ). new_mem (y + 8 * j)) (==→eq u tn z) ∙ new_zero j l in
        let off : is_link (suc n) (new_mem (u + 8 * j)) ≡ false = ap (is_link (suc n)) nothing in
        absurd (cc (off, o))
    | inr z ↦ child_old u n pth j (rw z at q) l o
  ]

  old_entry-IsFair :
      (u n : ℕ) (pth : List ℕ) (j : ℕ)
      → key u ≡ some (suc (suc n), pth)
      → j < 512
      → IsFair (suc n) (j ∷ pth) (new_mem (u + 8 * j))
  old_entry-IsFair u n pth j q l = elim (is_or_not u _ j q l) [
    | inl (a, b) ↦
        let z = sym c ∙ ap key (sym a) ∙ q in
        let level : suc (suc k) ≡ suc (suc n) = ap level_of z in
        let level' : k ≡ n = omega (arith, level) in
        let same : path ≡ pth = ap path_of z in
        let here : u + 8 * j ≡ t + 8 * i = omega (arith, a, b) in
        let new : e ≡ new_mem (u + 8 * j) =
          sym (ap new_mem here ∙ linked_at s.mem tn (t + 8 * i) e) in
        subst (IsFair (suc n) (j ∷ pth)) new (
          subst (λ (x : ℕ). IsFair (suc n) (x ∷ pth) e) (sym b)
            (subst (λ (x : List ℕ). IsFair (suc n) (i ∷ x) e) same
              (subst (λ (x : ℕ). IsFair (suc x) (i ∷ path) e) level' good)))
    | inr ne ↦
        let same : new_mem (u + 8 * j) ≡ s.mem (u + 8 * j) = keyed_else u _ j q l ne in
        subst (IsFair (suc n) (j ∷ pth)) (sym same) (h.fair u n pth j q l)
  ]

  new_entry-IsFair :
      (u n : ℕ) (pth : List ℕ) (j : ℕ)
      → key_new u ≡ some (suc (suc n), pth)
      → j < 512
      → IsFair (suc n) (j ∷ pth) (new_mem (u + 8 * j))
  new_entry-IsFair u n pth j q l = elim (Bool-cases (u == tn)) [
    | inl z ↦
        let nothing : new_mem (u + 8 * j) ≡ 0 =
          ap (λ (y : ℕ). new_mem (y + 8 * j)) (==→eq u tn z) ∙ new_zero j l in
        subst (IsFair (suc n) (j ∷ pth)) (sym nothing) (absent-IsFair (suc n) (j ∷ pth))
    | inr z ↦ old_entry-IsFair u n pth j (rw z at q) l
  ]

  -- The tree with the new table, for an allocator that has taken its frame.
  pub key_new-IsTree :
      (pmm : Pmm64) (f : ℕ)
      → tn ≡ start_address + f * frame_size
      → IsPmm64 pmm
      → ((j : ℕ) → taken pmm j ≡ (if j == f then 1 else taken s.pmm j))
      → IsTree (record s { mem = new_mem; pmm = pmm }) key_new
  key_new-IsTree pmm f at ok changed = record {
    valid = ok;
    root = key_new_keeps s.cr3 _ h.root;
    aligned = λ u x q. elim (Bool-cases (u == tn)) [
      | inl z ↦ ap (λ (y : ℕ). y % 4096) (==→eq u tn z) ∙ ta
      | inr z ↦ h.aligned u x (rw z at q)
    ];
    child = λ u n pth j q l o. child_new u n pth j q l o;
    fair = λ u n pth j q l. new_entry-IsFair u n pth j q l;
    no_free = λ j l o.
        let other : j ≢ f = ground (arith, changed j) in
        let free : taken s.pmm j ≡ 0 = ground (arith, changed j) in
        key_new_old (start_address + j * frame_size) (omega (arith, at)) ∙ h.no_free j l free;
  }
