-- ===== src/Ramfs/Files.antt =====
-- The table of src/ramfs.c as a function from names to bytes.
use aj.Common.{
  ℕ, zero, suc, ◌+◌, ◌≡◌, ◌⊎◌, refl, sym, ap, ◌∙◌, inl, inr, Bool, true, false, Option, none, some,
  List, [], ◌∷◌, if◌then◌else◌, Bool-cases, modify, get_elem?, find_index, find_index-some,
  find_index-modify_same, find_index-modify_new, same_bytes, same_bytes-eq, same_bytes_refl,
  field_at, field_at-modify_other, field_at-modify_own, OnlyOne, find_index-modify_gone,
  OnlyOne-modify, OnlyOne-modify_new, Memory,
}
use aj.Ramfs.{File, no_file, has_name}

-- The first bytes of memory from an index on.
unfoldable pub bytes_from : Memory → ℕ → ℕ → List ℕ
bytes_from m start zero = []
bytes_from m start (suc n) = m start ∷ bytes_from m (start + 1) n

abbrev pub contents : File → List ℕ
contents f = elim f.data_bytes [ none ↦ [] | some m ↦ bytes_from m 0 f.size ]

-- The bytes of the file with a name, if there is one.
unfoldable pub lookup : List File → List ℕ → Option (List ℕ)
lookup files name = field_at contents files (find_index (has_name name) files)

-- A function that is changed for one name.
abbrev pub update : (List ℕ → Option (List ℕ)) → List ℕ → Option (List ℕ) → List ℕ → Option (List ℕ)
update g name v other = if same_bytes name other then v else g other

-- No two files have one name.
abbrev pub IsTable : List File → Type 0
IsTable files = (name : List ℕ) → OnlyOne (has_name name) files

pub has_name-eq : (name : List ℕ) (f : File) → has_name name f ≡ true → f.name ≡ name
has_name-eq name f h = elim (Bool-cases f.in_use) [
  | inl u ↦ same_bytes-eq f.name name (rw u at h)
  | inr u ↦ absurd (cc (rw u at h))
]

has_name_other :
    (name other : List ℕ) (f : File)
    → has_name name f ≡ true
    → same_bytes name other ≡ false
    → has_name other f ≡ false
has_name_other name other f h ne = elim (Bool-cases f.in_use) [
  | inl u ↦ rw (u, has_name-eq name f h) ne
  | inr u ↦ rw u refl
]

-- The file `y` goes to slot `i` under `name`: there is none of that name, or it is the one in the slot, and the
-- slot has none of another name.
module _ (files : List File) (name : List ℕ) (i : ℕ) (x y : File) (one : IsTable files)
    (q : get_elem? files i ≡ some x) (used : y.in_use ≡ true) (named : y.name ≡ name)
    (slot : ((find_index (has_name name) files ≡ none) × (x.in_use ≡ false))
      ⊎ (find_index (has_name name) files ≡ some i)) where
  has : has_name name y ≡ true
  has = rw (used, named) (same_bytes_refl name)

  -- What is said of `x` holds of every file in the slot.
  in_slot :
      {z : File} → get_elem? files i ≡ some z → (p : File → Bool) {b : Bool} → p x ≡ b → p z ≡ b
  in_slot {z} r p e = let w : z ≡ x = cc (q, r) in ap p w ∙ e

  -- The file in the slot has the name, if it is not free.
  held : find_index (has_name name) files ≡ some i → has_name name x ≡ true
  held e =
      let ((x', q', t), before) = find_index-some (has_name name) files e in
      let z : x' ≡ x = cc (q, q') in ap (has_name name) (sym z) ∙ t

  old_other : (other : List ℕ) → same_bytes name other ≡ false → has_name other x ≡ false
  old_other other ne = elim slot [
    | inl n ↦ rw n.1 refl
    | inr e ↦ has_name_other name other x (held e) ne
  ]

  new_other : (other : List ℕ) → same_bytes name other ≡ false → has_name other y ≡ false
  new_other other ne = rw (used, named) ne

  found : find_index (has_name name) (modify files i (λ _. y)) ≡ some i
  found = elim slot [
    | inl n ↦ find_index-modify_new (has_name name) files i (λ _. y) n.0 q has
    | inr e ↦
        find_index-modify_same (has_name name) files i (λ _. y)
          (λ z r. has ∙ sym (in_slot r (has_name name) (held e)))
        ∙ e
  ]

  pub lookup-put :
      (other : List ℕ)
      → lookup (modify files i (λ _. y)) other
        ≡ update (lookup files) name (some (contents y)) other
  unfolding lookup
  lookup-put other = elim (Bool-cases (same_bytes name other)) [
    | inl e ↦
        let z : name ≡ other = same_bytes-eq name other e in
        rw (e, sym z) (field_at-modify_own contents (has_name name) files i (λ _. y) x found q)
    | inr e ↦ rw e (
        field_at-modify_other contents (has_name other) files i (λ _. y)
          (λ z r. (in_slot r (has_name other) (old_other other e), new_other other e)))
  ]

  pub IsTable-put : IsTable (modify files i (λ _. y))
  IsTable-put other = elim (Bool-cases (same_bytes name other)) [
    | inl e ↦ rw (sym (same_bytes-eq name other e)) (elim slot [
      | inl n ↦ OnlyOne-modify_new (has_name name) files i (λ _. y) n.0
      | inr k ↦
          OnlyOne-modify (has_name name) files i (λ _. y)
            (λ z r t. in_slot r (has_name name) (held k)) (one name)
    ])
    | inr e ↦
        OnlyOne-modify (has_name other) files i (λ _. y)
          (λ z r t. absurd (cc (t, new_other other e))) (one other)
  ]

-- The file in slot `i`, which has the name, goes.
module _ (files : List File) (name : List ℕ) (i : ℕ) (one : IsTable files)
    (e : find_index (has_name name) files ≡ some i) where
  in_slot_named : {z : File} → get_elem? files i ≡ some z → has_name name z ≡ true
  in_slot_named {z} r =
      let ((x, q, t), before) = find_index-some (has_name name) files e in
      let w : x ≡ z = cc (q, r) in ap (has_name name) (sym w) ∙ t

  pub lookup-delete :
      (other : List ℕ)
      → lookup (modify files i (λ _. no_file)) other ≡ update (lookup files) name none other
  unfolding lookup
  lookup-delete other = elim (Bool-cases (same_bytes name other)) [
    | inl t ↦
        let z : name ≡ other = same_bytes-eq name other t in
        let gone =
          find_index-modify_gone (has_name name) files i (λ _. no_file) (one name) e
            (λ x q. refl) in
        rw (t, sym z, gone) (unfold field_at in refl)
    | inr t ↦ rw t (
        field_at-modify_other contents (has_name other) files i (λ _. no_file)
          (λ z r. (has_name_other name other z (in_slot_named r) t, refl)))
  ]

  pub IsTable-delete : IsTable (modify files i (λ _. no_file))
  IsTable-delete other =
      OnlyOne-modify (has_name other) files i (λ _. no_file) (λ z r t. absurd (cc t)) (one other)
