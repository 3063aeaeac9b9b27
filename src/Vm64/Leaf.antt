-- ===== src/Vm64/Leaf.antt =====
-- An entry of a last table of src/vm64.c that changes, and the walk to the other pages.
use aj.Common.{
  ℕ, zero, suc, ◌+◌, ◌*◌, ◌<◌, ◌≡◌, ◌≢◌, ◌⊎◌, refl, sym, ap, subst, ◌∙◌, inl, inr, some, List, ◌∷◌,
  Bool-cases, Memory, store, arith,
}
use aj.Vm64.{Vm, addr_of}
use aj.Vm64.Walk.{index, index-lt, walk, walk_link, walk_end, is_link, restrict}
use aj.Vm64.Tree.{Key, IsTree, IsFair, level_of, path_of}

-- The indices that lead to the last table on the walk from a table of level `suc n`.
abbrev pub ends : ℕ → ℕ → List ℕ → List ℕ
ends v zero path = path
ends v (suc n) path = ends v n (index v (suc n) ∷ path)

-- Entry `i` of the last table `t` gets the value `e`.
module _ (s : Vm) (key : Key) (h : IsTree s key) (t : ℕ) (path : List ℕ) (i e : ℕ)
    (c : key t ≡ some (1, path)) (il : i < 512) where
  abbrev pub leaf_mem : Memory
  leaf_mem = store s.mem (t + 8 * i) e

  pub leaf_at : leaf_mem (t + 8 * i) ≡ e
  leaf_at = ground arith

  -- The entries of other tables, and the others of this one.
  pub leaf_else :
      (u : ℕ) (x : ℕ × List ℕ) (j : ℕ)
      → key u ≡ some x
      → j < 512
      → (u ≢ t) ⊎ (j ≢ i)
      → leaf_mem (u + 8 * j) ≡ s.mem (u + 8 * j)
  leaf_else u x j q l o =
      let ua = h.aligned u x q in let ta = h.aligned t _ c in ground (arith, ua, ta)

  pub higher : (u n : ℕ) (pth : List ℕ) → key u ≡ some (suc (suc n), pth) → u ≢ t
  higher u n pth q z =
      let level : suc (suc n) ≡ 1 = ap level_of (sym q ∙ ap key z ∙ c) in
      absurd (omega (arith, level))

  pub leaf_walk :
      (v n u : ℕ) (pth : List ℕ)
      → key u ≡ some (suc n, pth)
      → (ends v n pth ≢ path) ⊎ (index v 0 ≢ i)
      → walk leaf_mem (suc n) u v ≡ walk s.mem (suc n) u v
  leaf_walk v zero u pth q o =
      let off : (u ≢ t) ⊎ (index v 0 ≢ i) = elim o [
        | inl n ↦ inl (λ z. n (ap path_of (sym q ∙ ap key z ∙ c)))
        | inr n ↦ inr n
      ] in
      let same = leaf_else u _ (index v 0) q (index-lt v 0) off in unfold walk in rw same refl
  leaf_walk v (suc n) u pth q o =
      let same = leaf_else u _ (index v (suc n)) q (index-lt v (suc n)) (inl (higher u n pth q)) in
      elim (Bool-cases (is_link (suc n) (s.mem (u + 8 * index v (suc n))))) [
        | inl a ↦
            walk_link leaf_mem (suc n) u v (ap (is_link (suc n)) same ∙ a)
            ∙ ap (λ (x : ℕ). restrict x (walk leaf_mem (suc n) (addr_of x) v)) same
            ∙ ap (restrict (s.mem (u + 8 * index v (suc n)))) (
                leaf_walk v n (addr_of (s.mem (u + 8 * index v (suc n)))) (index v (suc n) ∷ pth)
                  (h.child u n pth (index v (suc n)) q (index-lt v (suc n)) a) o)
            ∙ sym (walk_link s.mem (suc n) u v a)
        | inr a ↦ walk_end s.mem leaf_mem (suc n) u v a same
      ]

  pub leaf_mem-IsTree : IsTree (record s { mem = leaf_mem }) key
  leaf_mem-IsTree = record {
    valid = h.valid;
    root = h.root;
    aligned = h.aligned;
    child = λ u n pth j q l o.
        let same = leaf_else u _ j q l (inl (higher u n pth q)) in
        ap (λ (x : ℕ). key (addr_of x)) same
        ∙ h.child u n pth j q l (ap (is_link (suc n)) (sym same) ∙ o);
    fair = λ u n pth j q l.
        subst (IsFair (suc n) (j ∷ pth)) (sym (leaf_else u _ j q l (inl (higher u n pth q))))
          (h.fair u n pth j q l);
    no_free = h.no_free;
  }
