-- ===== src/Vm64/Map.antt =====
-- A page that src/vm64.c maps, and the walk of the processor to it and to the others.
use aj.Common.{
  ℕ, suc, ◌+◌, ◌*◌, ◌/◌, ◌^◌, ◌≤◌, ◌<◌, ◌≡◌, ◌≢◌, ◌⊎◌, refl, ap, subst, ◌∙◌, inl, inr, Bool, true,
  false, not, ◌&&◌, Option, some, List, [], ◌∷◌, ◌==◌, if◌then◌else◌, Bool-cases, ==→eq, get_or,
  Memory, arith,
}
use aj.Pmm64.{frames}
use aj.Vm64.{Vm, is_present, addr_of, entry, next_level, set_page, vm64_map, vm64_map_user}
use aj.Vm64.Walk.{
  index, index-lt, walk, walk_link, entry-flags, is_link, can_write, is_user, no_execute, Page,
  restrict,
}
use aj.Vm64.Tree.{Key, IsTree, IsFair, slot, user_slot, Descends}
use aj.Vm64.Descent.{next_level-Descends}
use aj.Vm64.Leaf.{ends, leaf_mem, leaf_at, leaf_else, higher, leaf_walk, leaf_mem-IsTree}

walk_to :
    (m : Memory) (n t v x : ℕ)
    → is_link n (m (t + 8 * index v n)) ≡ true
    → addr_of (m (t + 8 * index v n)) ≡ x
    → walk m (suc n) t v ≡ restrict (m (t + 8 * index v n)) (walk m n x v)
walk_to m n t v x a b =
    walk_link m n t v a ∙ ap (λ (y : ℕ). restrict (m (t + 8 * index v n)) (walk m n y v)) b

-- A link of the window's tables takes no right away, and one of other tables not the right to write.
module _ (k : ℕ) (path : List ℕ) (e : ℕ) (fair : IsFair k path e) (o : is_link k e ≡ true) where
  restrict_user : (p : Page) → slot path ≡ user_slot → restrict e (some p) ≡ some p
  unfolding restrict
  restrict_user p z = let u = fair.user o z in rw (fair.writable o, u.0, u.1) refl

  restrict_kernel :
      (f : ℕ)
      → restrict e (some (record { frame = f; writable = true; user = false; executable = false }))
        ≡ some (record { frame = f; writable = true; user = false; executable = false })
  unfolding restrict
  restrict_kernel f = rw (fair.writable o) (ground arith)

-- What the processor finds at an address.
abbrev pub translate : Vm → ℕ → Option Page
translate s v = walk s.mem 4 s.cr3 v

-- The page at `v` is `p` now, the other pages are what they were, and the tables are a tree.
pub record Maps (s s' : Vm) (v : ℕ) (p : Page) : Type 0 where
  pub tree : (key : Key) × IsTree s' key
  pub there : translate s' v ≡ some p
  pub others : (v' : ℕ) → v' < 2 ^ 48 → v' / 2 ^ 12 ≢ v / 2 ^ 12 → translate s' v' ≡ translate s v'

-- Two addresses with all indices equal are of one page.
one_page :
    (v v' : ℕ)
    → v < 2 ^ 48
    → v' < 2 ^ 48
    → v' / 2 ^ 12 ≢ v / 2 ^ 12
    → (ends v' 3 [] ≢ (index v 1 ∷ index v 2 ∷ index v 3 ∷ [])) ⊎ (index v' 0 ≢ index v 0)
one_page v v' l l' n = elim (Bool-cases (index v' 0 == index v 0)) [
  | inl e ↦ inl (λ z.
      let a : index v' 1 ≡ index v 1 = ap (λ (xs : List ℕ). get_or xs 0 0) z in
      let b : index v' 2 ≡ index v 2 = ap (λ (xs : List ℕ). get_or xs 1 0) z in
      let c : index v' 3 ≡ index v 3 = ap (λ (xs : List ℕ). get_or xs 2 0) z in
      let d : index v' 0 ≡ index v 0 = ==→eq _ _ e in n (omega (arith, a, b, c, d)))
  | inr e ↦ inr (λ z. ground (arith, e, z))
]

link_present : (k e : ℕ) → is_link k e ≡ true → is_present e ≡ true
link_present k e o = ground (arith, o)

-- The page that a last entry is of, seen through links that keep its rights.
abbrev leaf_page : ℕ → ℕ → Page
leaf_page q e = record {
  frame = q;
  writable = can_write e;
  user = is_user e;
  executable = not (no_execute e);
}

and_true : (b : Bool) → (b && true) ≡ b
and_true true = refl
and_true false = refl

restrict_leaf : (e q v : ℕ) (m : Memory) → restrict e (walk m 0 q v) ≡ some (leaf_page q e)
unfolding restrict walk
restrict_leaf e q v m =
    rw (and_true (can_write e), and_true (is_user e), and_true (not (no_execute e))) refl

module _ (user : Bool) (s : Vm) (key : Key) (h : IsTree s key) (v q e : ℕ)
    (room : s.pmm.frames_used + 3 ≤ frames) (l : v < 2 ^ 48) (link : is_link 0 e ≡ true)
    (to_page : addr_of e ≡ q) (above : index v 3 ≢ 0) (own : index v 3 ≡ user_slot → user ≡ true)
    (kept : (k : ℕ) (path : List ℕ) (x : ℕ)
      → IsFair k path x
      → is_link k x ≡ true
      → slot path ≡ index v 3
      → restrict x (some (leaf_page q e)) ≡ some (leaf_page q e)) where
  abbrev first : Vm × ℕ
  first = next_level user s (s.cr3 + 8 * index v 3)

  abbrev second : Vm × ℕ
  second = next_level user first.0 (first.1 + 8 * index v 2)

  abbrev third : Vm × ℕ
  third = next_level user second.0 (second.1 + 8 * index v 1)

  d1 : Descends s key first s.cr3 2 [] (index v 3)
  d1 =
      next_level-Descends s key h s.cr3 2 [] (index v 3) h.root (index-lt v 3) above user own
        (omega (arith, room))

  d2 : Descends first.0 d1.key' second first.1 1 (index v 3 ∷ []) (index v 2)
  d2 =
      next_level-Descends first.0 d1.key' d1.tree first.1 1 (index v 3 ∷ []) (index v 2) d1.found
        (index-lt v 2) above user own (omega (arith, room, d1.one_frame))

  d3 : Descends second.0 d2.key' third second.1 0 (index v 2 ∷ index v 3 ∷ []) (index v 1)
  d3 =
      next_level-Descends second.0 d2.key' d2.tree second.1 0 (index v 2 ∷ index v 3 ∷ [])
        (index v 1) d2.found (index-lt v 1) above user own
        (omega (arith, room, d1.one_frame, d2.one_frame))

  abbrev last : Memory
  last =
      leaf_mem third.0 d3.key' d3.tree third.1 (index v 1 ∷ index v 2 ∷ index v 3 ∷ []) (index v 0)
        e d3.found (index-lt v 0)

  -- What was read on the way down is still there at the end.
  last_keeps :
      (u n : ℕ) (pth : List ℕ) (j : ℕ)
      → d3.key' u ≡ some (suc (suc n), pth)
      → j < 512
      → last (u + 8 * j) ≡ third.0.mem (u + 8 * j)
  last_keeps u n pth j k lt =
      leaf_else third.0 d3.key' d3.tree third.1 (index v 1 ∷ index v 2 ∷ index v 3 ∷ []) (index v 0)
        e d3.found (index-lt v 0) u _ j k lt
        (inl (
          higher third.0 d3.key' d3.tree third.1 (index v 1 ∷ index v 2 ∷ index v 3 ∷ [])
            (index v 0) e d3.found (index-lt v 0) u n pth k))

  root1 : d1.key' s.cr3 ≡ some (4, [])
  root1 = d1.keeps s.cr3 _ h.root

  root2 : d2.key' s.cr3 ≡ some (4, [])
  root2 = d2.keeps s.cr3 _ root1

  root3 : d3.key' s.cr3 ≡ some (4, [])
  root3 = d3.keeps s.cr3 _ root2

  tree : IsTree (record third.0 { mem = last }) d3.key'
  tree =
      leaf_mem-IsTree third.0 d3.key' d3.tree third.1 (index v 1 ∷ index v 2 ∷ index v 3 ∷ [])
        (index v 0) e d3.found (index-lt v 0)

  -- One level of the walk at the end, through an entry that leads to a table with the page.
  through :
      (u n x : ℕ) (pth : List ℕ)
      → d3.key' u ≡ some (suc (suc n), pth)
      → is_link (suc n) (last (u + 8 * index v (suc n))) ≡ true
      → addr_of (last (u + 8 * index v (suc n))) ≡ x
      → slot (index v (suc n) ∷ pth) ≡ index v 3
      → walk last (suc n) x v ≡ some (leaf_page q e)
      → walk last (suc (suc n)) u v ≡ some (leaf_page q e)
  through u n x pth k o to at w =
      walk_to last (suc n) u v x o to
      ∙ ap (restrict (last (u + 8 * index v (suc n)))) w
      ∙ kept (suc n) (index v (suc n) ∷ pth) (last (u + 8 * index v (suc n)))
          (tree.fair u n pth (index v (suc n)) k (index-lt v (suc n))) o at

  walk1 : walk last 1 third.1 v ≡ some (leaf_page q e)
  walk1 =
      let at =
        leaf_at third.0 d3.key' d3.tree third.1 (index v 1 ∷ index v 2 ∷ index v 3 ∷ []) (index v 0)
          e d3.found (index-lt v 0) in
      walk_to last 0 third.1 v q (ap (is_link 0) at ∙ link) (ap addr_of at ∙ to_page)
      ∙ ap (λ (x : ℕ). restrict x (walk last 0 q v)) at
      ∙ restrict_leaf e q v last

  walk2 : walk last 2 second.1 v ≡ some (leaf_page q e)
  walk2 =
      let (p, to) = d3.linked in
      let key3 = d3.keeps second.1 _ d2.found in
      let same = last_keeps second.1 0 _ (index v 1) key3 (index-lt v 1) in
      through second.1 0 third.1 _ key3 (ap (is_link 1) same ∙ p) (ap addr_of same ∙ to) refl walk1

  walk3 : walk last 3 first.1 v ≡ some (leaf_page q e)
  walk3 =
      let (p, to) = d2.linked in
      let key2 = d2.keeps first.1 _ d1.found in
      let key3 = d3.keeps first.1 _ key2 in
      let st3 = d3.stays first.1 _ (index v 2) key2 (index-lt v 2) (link_present 2 _ p) in
      let same = last_keeps first.1 1 _ (index v 2) key3 (index-lt v 2) ∙ st3 in
      through first.1 1 second.1 _ key3 (ap (is_link 2) same ∙ p) (ap addr_of same ∙ to) refl walk2

  walk4 : walk last 4 s.cr3 v ≡ some (leaf_page q e)
  walk4 =
      let (p, to) = d1.linked in
      let there = link_present 3 _ p in
      let st2 = d2.stays s.cr3 _ (index v 3) root1 (index-lt v 3) there in
      let st3 = d3.stays s.cr3 _ (index v 3) root2 (index-lt v 3) (ap is_present st2 ∙ there) in
      let same = last_keeps s.cr3 2 [] (index v 3) root3 (index-lt v 3) ∙ st3 ∙ st2 in
      through s.cr3 2 first.1 [] root3 (ap (is_link 3) same ∙ p) (ap addr_of same ∙ to) refl walk3

  other_pages :
      (v' : ℕ)
      → v' < 2 ^ 48
      → v' / 2 ^ 12 ≢ v / 2 ^ 12
      → walk last 4 s.cr3 v' ≡ walk s.mem 4 s.cr3 v'
  other_pages v' l' n =
      leaf_walk third.0 d3.key' d3.tree third.1 (index v 1 ∷ index v 2 ∷ index v 3 ∷ []) (index v 0)
        e d3.found (index-lt v 0) v' 3 s.cr3 [] root3 (one_page v v' l l' n)
      ∙ d3.same_walk v' 3 s.cr3 [] root2
      ∙ d2.same_walk v' 3 s.cr3 [] root1
      ∙ d1.same_walk v' 3 s.cr3 [] h.root

  abbrev mapped : Vm
  mapped = record third.0 { mem = last }

  same_root : mapped.cr3 ≡ s.cr3
  same_root = d3.same_cr3 ∙ d2.same_cr3 ∙ d1.same_cr3

  mapped-Maps : Maps s mapped v (leaf_page q e)
  mapped-Maps = record {
    tree = (d3.key', tree);
    there = ap (λ (r : ℕ). walk last 4 r v) same_root ∙ walk4;
    others = λ v' l' n. ap (λ (r : ℕ). walk last 4 r v') same_root ∙ other_pages v' l' n;
  }

  pub set_page-Maps : Maps s (set_page user s v e) v (leaf_page q e)
  unfolding set_page
  set_page-Maps = mapped-Maps

abbrev pub kernel_page : ℕ → Page
kernel_page f = record { frame = f; writable = true; user = false; executable = false }

abbrev pub user_page : ℕ → Bool → Page
user_page f noexec = record { frame = f; writable = true; user = true; executable = not noexec }

module _ (s : Vm) (key : Key) (v q : ℕ) (h : IsTree s key) (room : s.pmm.frames_used + 3 ≤ frames)
    (l : v < 2 ^ 48) (small : q < 2 ^ 40) where
  kernel-Maps :
      index v 3 ≢ 0
      → index v 3 ≢ user_slot
      → Maps s (vm64_map s v (q * 2 ^ 12)) v (kernel_page (q * 2 ^ 12))
  unfolding vm64_map
  kernel-Maps above other =
      let (a, link, p, w, u, x) = entry-flags q 3 1 small (omega arith) refl refl (omega arith) in
      let same : leaf_page (q * 2 ^ 12) (entry (q * 2 ^ 12) 3 1) ≡ kernel_page (q * 2 ^ 12) =
        rw (w, u, x) refl in
      subst (Maps s (set_page false s v (entry (q * 2 ^ 12) 3 1)) v) same (
        set_page-Maps false s key h v (q * 2 ^ 12) (entry (q * 2 ^ 12) 3 1) room l (link 0) a above
          (λ z. absurd (other z))
          (λ k path y fair o at. rw same (restrict_kernel k path y fair o (q * 2 ^ 12))))

  user-Maps :
      (noexec : Bool)
      → index v 3 ≡ user_slot
      → Maps s (vm64_map_user s v (q * 2 ^ 12) noexec) v (user_page (q * 2 ^ 12) noexec)
  unfolding vm64_map_user
  user-Maps noexec own =
      let nx : ℕ = if noexec then 1 else 0 in
      let (a, link, p, w, u, x) = entry-flags q 7 nx small (omega arith) refl refl (ground arith) in
      let same : leaf_page (q * 2 ^ 12) (entry (q * 2 ^ 12) 7 nx) ≡ user_page (q * 2 ^ 12) noexec =
        rw (w, u, x) (by_flag noexec) in
      subst (Maps s (set_page true s v (entry (q * 2 ^ 12) 7 nx)) v) same (
        set_page-Maps true s key h v (q * 2 ^ 12) (entry (q * 2 ^ 12) 7 nx) room l (link 0) a
          (λ z. omega (arith, z, own)) (λ _. refl)
          (λ k path y fair o at.
            restrict_user k path y fair o (leaf_page (q * 2 ^ 12) (entry (q * 2 ^ 12) 7 nx))
              (at ∙ own)))
    where
      by_flag :
          (b : Bool) → user_page (q * 2 ^ 12) ((if b then 1 else 0) == 1) ≡ user_page (q * 2 ^ 12) b
      by_flag true = refl
      by_flag false = refl

-- With three frames left and tables that form a tree, where large pages are only in the first slot of the
-- root and the entries above the last tables allow writing and, in the window's slot, the user and execution:
-- outside these two slots, `vm64_map` of a page below 2 ^ 48 to a frame below 2 ^ 52 makes the processor find
-- the frame there, to be read and written by the kernel only and not executed. In the window's slot
-- `vm64_map_user` makes it find the frame, to be read and written by the user too, and executed unless
-- `noexec`. Either leaves what is found at every other page below 2 ^ 48, its rights included, and keeps the
-- tables such a tree.
pub vm64_map-Maps :
    (s : Vm) (key : Key) (v q u r : ℕ) (noexec : Bool)
    → IsTree s key
    → s.pmm.frames_used + 3 ≤ frames
    → v < 2 ^ 48
    → q < 2 ^ 40
    → index v 3 ≢ 0
    → index v 3 ≢ user_slot
    → u < 2 ^ 48
    → r < 2 ^ 40
    → index u 3 ≡ user_slot
    → Maps s (vm64_map s v (q * 2 ^ 12)) v (kernel_page (q * 2 ^ 12))
      × Maps s (vm64_map_user s u (r * 2 ^ 12) noexec) u (user_page (r * 2 ^ 12) noexec)
vm64_map-Maps s key v q u r noexec h room l small above other l' small' own = (
  kernel-Maps s key v q h room l small above other,
  user-Maps s key u r h room l' small' noexec own,
)
