-- ===== src/Vm64/Tests.antt =====
-- Examples of the page tables of src/vm64.c, from those that asm/boot64.asm sets up.
use aj.Common.{
  ℕ, suc, ◌+◌, ◌-◌, ◌*◌, ◌/◌, ◌%◌, ◌^◌, ◌≤◌, ◌<◌, ◌≡◌, refl, sym, ap, ◌∙◌, inl, inr, true, false,
  none, some, List, [], ◌∷◌, ◌==◌, ==→eq, if◌then◌else◌, Bool-cases, ◌&&◌, ltb, leb, arith, ◌⊎◌,
  subst, Memory,
}
use aj.Pmm64.{pmm64_init, start_address, frame_size, frames}
use aj.Pmm64.Owners.{init-IsPmm64}
use aj.Vm64.{Vm, addr_of, vm64_map, vm64_map_user}
use aj.Vm64.Walk.{is_link}
use aj.Vm64.Tree.{Key, IsTree, IsFair, absent-IsFair}
use aj.Vm64.Map.{Maps, kernel_page, user_page, vm64_map-Maps}

-- The root at 0x1000 with a table at 0x2000, which has four pages of 1 GB.
abbrev boot_mem : Memory
boot_mem a =
    if a == 0x1000
    then 0x2003
    else if leb 0x2000 a && ltb a 0x2020 && a % 8 == 0
    then (a - 0x2000) / 8 * 2 ^ 30 + 0x83
    else 0

abbrev boot : Vm
boot = record { mem = boot_mem; pmm = pmm64_init (λ _. 0); cr3 = 0x1000 }

abbrev boot_key : Key
boot_key u = if u == 0x1000 then some (4, []) else if u == 0x2000 then some (3, 0 ∷ []) else none

boot_key-cases :
    (u : ℕ) (x : ℕ × List ℕ)
    → boot_key u ≡ some x
    → ((u ≡ 0x1000) × ((4, []) ≡ x)) ⊎ ((u ≡ 0x2000) × ((3, 0 ∷ []) ≡ x))
boot_key-cases u x q = elim (Bool-cases (u == 0x1000)) [
  | inl e ↦ inl (==→eq u 0x1000 e, cc (rw e at q))
  | inr e ↦ elim (Bool-cases (u == 0x2000)) [
    | inl f ↦ inr (==→eq u 0x2000 f, cc (rw (e, f) at q))
    | inr f ↦ absurd (cc (rw (e, f) at q))
  ]
]

root_entry : (i : ℕ) → i < 512 → boot_mem (0x1000 + 8 * i) ≡ (if i == 0 then 0x2003 else 0)
root_entry i l = ground (arith, l)

large_entry :
    (i : ℕ) → i < 512 → boot_mem (0x2000 + 8 * i) ≡ (if ltb i 4 then i * 2 ^ 30 + 0x83 else 0)
large_entry i l = ground (arith, l)

no_link : (i : ℕ) → is_link 2 (if ltb i 4 then i * 2 ^ 30 + 0x83 else 0) ≡ false
no_link i = ground arith

root-child :
    (i : ℕ)
    → is_link 3 (if i == 0 then 0x2003 else 0) ≡ true
    → boot_key (addr_of (if i == 0 then 0x2003 else 0)) ≡ some (3, i ∷ [])
root-child i o = elim (Bool-cases (i == 0)) [
  | inl e ↦ let z : i ≡ 0 = ==→eq i 0 e in rw z refl
  | inr e ↦ absurd (cc (rw e at o))
]

root-IsFair : (i : ℕ) → i < 512 → IsFair 3 (i ∷ []) (if i == 0 then 0x2003 else 0)
root-IsFair i l = elim (Bool-cases (i == 0)) [
  | inl e ↦ rw e (record {
    large = λ p g. absurd (cc g);
    writable = λ _. refl;
    user = λ _ z. let f : i ≡ 0 = ==→eq i 0 e in absurd (omega (arith, z, f));
  })
  | inr e ↦ rw e (absent-IsFair 3 (i ∷ []))
]

large-IsFair : (i : ℕ) → IsFair 2 (i ∷ 0 ∷ []) (if ltb i 4 then i * 2 ^ 30 + 0x83 else 0)
large-IsFair i = record {
  large = λ p g. refl;
  writable = λ o. let n = no_link i in absurd (cc (n, o));
  user = λ o z. let n = no_link i in absurd (cc (n, o));
}

boot-child :
    (u k : ℕ) (path : List ℕ) (i : ℕ)
    → boot_key u ≡ some (suc (suc k), path)
    → i < 512
    → is_link (suc k) (boot_mem (u + 8 * i)) ≡ true
    → boot_key (addr_of (boot_mem (u + 8 * i))) ≡ some (suc k, i ∷ path)
boot-child u k path i q l o = elim (boot_key-cases u _ q) [
  | inl (a, b) ↦
      let level : k ≡ 2 = (let z = ap (λ (x : ℕ × List ℕ). x.0) b in omega (arith, z)) in
      let same : path ≡ [] = sym (ap (λ (x : ℕ × List ℕ). x.1) b) in
      let e : boot_mem (u + 8 * i) ≡ (if i == 0 then 0x2003 else 0) =
        ap (λ (y : ℕ). boot_mem (y + 8 * i)) a ∙ root_entry i l in
      let o' : is_link 3 (if i == 0 then 0x2003 else 0) ≡ true =
        ap (is_link 3) (sym e)
        ∙ ap (λ (y : ℕ). is_link (suc y) (boot_mem (u + 8 * i))) (sym level)
        ∙ o in
      ap (λ (y : ℕ). boot_key (addr_of y)) e
      ∙ root-child i o'
      ∙ ap (λ (y : ℕ). some (suc y, i ∷ [])) (sym level)
      ∙ ap (λ (y : List ℕ). some (suc k, i ∷ y)) (sym same)
  | inr (a, b) ↦
      let level : k ≡ 1 = (let z = ap (λ (x : ℕ × List ℕ). x.0) b in omega (arith, z)) in
      let e = ap (λ (y : ℕ). boot_mem (y + 8 * i)) a ∙ large_entry i l in
      let off : is_link (suc k) (boot_mem (u + 8 * i)) ≡ false =
        ap (λ (y : ℕ). is_link (suc y) (boot_mem (u + 8 * i))) level
        ∙ ap (is_link 2) e
        ∙ no_link i in
      absurd (cc (off, o))
]

boot-IsFair :
    (u k : ℕ) (path : List ℕ) (i : ℕ)
    → boot_key u ≡ some (suc (suc k), path)
    → i < 512
    → IsFair (suc k) (i ∷ path) (boot_mem (u + 8 * i))
boot-IsFair u k path i q l = elim (boot_key-cases u _ q) [
  | inl (a, b) ↦
      let level : 2 ≡ k = (let z = ap (λ (x : ℕ × List ℕ). x.0) b in omega (arith, z)) in
      let e = ap (λ (y : ℕ). boot_mem (y + 8 * i)) a ∙ root_entry i l in
      subst (IsFair (suc k) (i ∷ path)) (sym e) (
        subst (λ (y : List ℕ). IsFair (suc k) (i ∷ y) (if i == 0 then 0x2003 else 0))
          (ap (λ (x : ℕ × List ℕ). x.1) b)
          (subst (λ (y : ℕ). IsFair (suc y) (i ∷ []) (if i == 0 then 0x2003 else 0)) level
            (root-IsFair i l)))
  | inr (a, b) ↦
      let level : 1 ≡ k = (let z = ap (λ (x : ℕ × List ℕ). x.0) b in omega (arith, z)) in
      let e = ap (λ (y : ℕ). boot_mem (y + 8 * i)) a ∙ large_entry i l in
      subst (IsFair (suc k) (i ∷ path)) (sym e) (
        subst (λ (y : List ℕ). IsFair (suc k) (i ∷ y) (if ltb i 4 then i * 2 ^ 30 + 0x83 else 0))
          (ap (λ (x : ℕ × List ℕ). x.1) b)
          (subst (λ (y : ℕ). IsFair (suc y) (i ∷ 0 ∷ []) (if ltb i 4 then i * 2 ^ 30 + 0x83 else 0))
            level (large-IsFair i)))
]

boot-IsTree : IsTree boot boot_key
boot-IsTree = record {
  valid = init-IsPmm64;
  root = refl;
  aligned = λ u x q. elim (boot_key-cases u x q) [
    | inl a ↦ ap (λ (y : ℕ). y % 4096) a.0
    | inr a ↦ ap (λ (y : ℕ). y % 4096) a.0
  ];
  child = λ u k path i q l o. boot-child u k path i q l o;
  fair = λ u k path i q l. boot-IsFair u k path i q l;
  no_free = λ j l o.
      let a : (start_address + j * frame_size == 0x1000) ≡ false = ground arith in
      let b : (start_address + j * frame_size == 0x2000) ≡ false = ground arith in rw (a, b) refl;
}

none_used : boot.pmm.frames_used + 3 ≤ frames
unfolding pmm64_init
none_used = omega arith

-- A page of the heap and the stack of a process.
vm64_map-Maps_example :
    Maps boot
      (vm64_map boot 0x200_0000_0000 (5 * 2 ^ 12))
      0x200_0000_0000
      (kernel_page (5 * 2 ^ 12))
    × Maps boot
        (vm64_map_user boot 0x100_0010_0000 (6 * 2 ^ 12) true)
        0x100_0010_0000
        (user_page (6 * 2 ^ 12) true)
vm64_map-Maps_example =
    vm64_map-Maps boot boot_key 0x200_0000_0000 5 0x100_0010_0000 6 true boot-IsTree none_used
      (omega arith) (omega arith) (omega arith) (omega arith) (omega arith) (omega arith) refl
