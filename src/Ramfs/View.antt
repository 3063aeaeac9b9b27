-- ===== src/Ramfs/View.antt =====
-- What the operations of src/ramfs.c do to the table, and what is true of it all along.
use aj.Common.{
  ℕ, zero, suc, ◌+◌, ◌^◌, ◌≤◌, ◌<◌, ◌≡◌, ◌⊎◌, refl, sym, ap, ◌∙◌, inl, inr, Bool, true, false, not,
  ◌&&◌, Option, none, some, List, [], ◌∷◌, ltb, if◌then◌else◌, to_ℕ, length, length-modify, modify,
  take, take_all, get_elem?, get_elem?-modify_cases, is_some, find_index, find_index-some, count_if,
  count_if-modify, count_if-pos, field_at-modify_other, OnlyOne-modify, Memory, subst, u32, arith,
}
use aj.Ramfs.{File, Ramfs, max_files, max_name_len, has_name, mem_copy, copy_opt, create_at}
use aj.Ramfs.Files.{bytes_from, contents, lookup, update, IsTable, lookup-put, IsTable-put}

-- The bytes of the files in use, and of one file.
abbrev pub size_in_use : File → ℕ
size_in_use f = if f.in_use then f.size else 0

unfoldable pub sum_sizes : List File → ℕ
sum_sizes [] = 0
sum_sizes (f ∷ fs) = size_in_use f + sum_sizes fs

pub sum_sizes-modify :
    (fs : List File) (i : ℕ) (g : File → File) {x : File}
    → get_elem? fs i ≡ some x
    → sum_sizes (modify fs i g) + size_in_use x ≡ sum_sizes fs + size_in_use (g x)
unfolding sum_sizes
sum_sizes-modify [] i g h = absurd (cc h)
sum_sizes-modify (f ∷ fs) zero g {x} h = let z : f ≡ x = cc in rw z (omega arith)
sum_sizes-modify (f ∷ fs) (suc i) g h = omega (arith, sum_sizes-modify fs i g h)

-- The test by which a free entry is found, and the one that counts the others.
abbrev pub is_free : File → Bool
is_free f = not f.in_use

abbrev pub used_file : File → Bool
used_file f = f.in_use

pub count_if-is_free : (fs : List File) → count_if used_file fs + count_if is_free fs ≡ length fs
unfolding count_if
count_if-is_free [] = refl
count_if-is_free (f ∷ fs) = ground (arith, count_if-is_free fs)

-- A file in use has a block that its bytes fit in.
pub record IsStored (f : File) : Type 0 where
  pub block : Memory
  pub held : f.data_bytes ≡ some block
  pub fits : f.size ≤ f.capacity
  pub word : f.size < 2 ^ 32

-- 256 entries, no two files of one name, and counters that agree with the files.
pub record IsRamfs (c : Ramfs) : Type 0 where
  pub whole : length c.files ≡ max_files
  pub table : IsTable c.files
  pub stored : (i : ℕ) (f : File) → get_elem? c.files i ≡ some f → f.in_use ≡ true → IsStored f
  pub counted : c.file_count ≡ count_if used_file c.files
  pub summed : c.total_size ≡ u32 (sum_sizes c.files)

pub bytes_from-mem_copy :
    (dest src : Memory) (n start k : ℕ)
    → start + k ≤ n
    → bytes_from (mem_copy dest src n) start k ≡ bytes_from src start k
unfolding bytes_from mem_copy
bytes_from-mem_copy dest src n start zero h = refl
bytes_from-mem_copy dest src n start (suc k) h =
    let e : ltb start n ≡ true = ground arith in
    rw (e, bytes_from-mem_copy dest src n (start + 1) k (omega arith)) refl

-- What an operation does to the table that is seen: it leaves it, or changes it for one name.
pub record Becomes (c c' : Ramfs) (g : List ℕ → Option (List ℕ)) : Type 0 where
  pub valid : IsRamfs c'
  pub seen : (other : List ℕ) → lookup c'.files other ≡ g other

-- The file `y` in place of `x`, with counters that are right for it.
module _ (c : Ramfs) (h : IsRamfs c) (name : List ℕ) (i : ℕ) (x y : File)
    (q : get_elem? c.files i ≡ some x) (count total : ℕ) where
  pub puts :
      y.in_use ≡ true
      → y.name ≡ name
      → IsStored y
      → ((find_index (has_name name) c.files ≡ none) × (x.in_use ≡ false))
        ⊎ (find_index (has_name name) c.files ≡ some i)
      → count + to_ℕ x.in_use ≡ c.file_count + 1
      → u32 (total + size_in_use x) ≡ u32 (c.total_size + y.size)
      → total < 2 ^ 32
      → {v : List ℕ} → contents y ≡ v
      → Becomes c
          (record { files = modify c.files i (λ _. y); file_count = count; total_size = total })
          (update (lookup c.files) name (some v))
  puts used named kept slot a b t {v} d = record {
    valid = record {
      whole = length-modify c.files i (λ _. y) ∙ h.whole;
      table = IsTable-put c.files name i x y h.table q used named slot;
      stored = λ j f r u. elim (get_elem?-modify_cases c.files i (λ _. y) j f r) [
        | inl k ↦ subst IsStored k.3 kept
        | inr k ↦ h.stored j f k.1 u
      ];
      counted =
          omega (arith, a, h.counted, ap to_ℕ used, count_if-modify used_file c.files i (λ _. y) q);
      summed =
          (let w : size_in_use y ≡ y.size = rw used refl in
            omega (arith, b, t, h.summed, w, sum_sizes-modify c.files i (λ _. y) q));
    };
    seen = λ other.
        lookup-put c.files name i x y h.table q used named slot other
        ∙ ap (λ w. update (lookup c.files) name (some w) other) d;
  }

-- The bytes that a new file has: those given, else those that the block happens to have.
abbrev pub created : Option Memory → Option Memory → ℕ → List ℕ
created (some src) block size = bytes_from src 0 size
created none (some m) size = bytes_from m 0 size
created none none size = []

-- An entry that is written to but stays free is not seen.
module _ (c : Ramfs) (h : IsRamfs c) (i : ℕ) (x : File) (q : get_elem? c.files i ≡ some x)
    (free : x.in_use ≡ false) (name : List ℕ) where
  abbrev half : File → File
  half f = record f { name = take max_name_len name; data_bytes = none }

  off : {z : File} → get_elem? c.files i ≡ some z → z.in_use ≡ false
  off {z} r = let w : z ≡ x = cc (q, r) in ap used_file w ∙ free

  half_written : Becomes c (record c { files = modify c.files i half }) (lookup c.files)
  half_written = record {
    valid = record {
      whole = length-modify c.files i half ∙ h.whole;
      table = λ n.
          OnlyOne-modify (has_name n) c.files i half (λ z r t. absurd (cc (rw (off r) at t)))
            (h.table n);
      stored = λ j f r u. elim (get_elem?-modify_cases c.files i half j f r) [
        | inl k ↦
            let unused : f.in_use ≡ false = ap used_file (sym k.3) ∙ off k.2 in
            absurd (cc (u, unused))
        | inr k ↦ h.stored j f k.1 u
      ];
      counted = omega (arith, h.counted, count_if-modify used_file c.files i half q);
      summed =
          let w : size_in_use (half x) ≡ size_in_use x = refl in
          omega (arith, h.summed, w, sum_sizes-modify c.files i half q);
    };
    seen = λ other.
        unfold lookup in
        field_at-modify_other contents (has_name other) c.files i half
          (λ z r. rw (off r) (refl, refl));
  }

contents_created :
    (src : Option Memory) (m : Memory) (size : ℕ)
    → bytes_from (copy_opt m src size) 0 size ≡ created src (some m) size
contents_created none m size = refl
contents_created (some src) m size = bytes_from-mem_copy m src size 0 size (omega arith)

create_at-some :
    (c : Ramfs) (h : IsRamfs c) (name : List ℕ) (src : Option Memory) (size : ℕ) (m : Memory)
    (i : ℕ)
    → length name ≤ max_name_len
    → size < 2 ^ 32
    → find_index (has_name name) c.files ≡ none
    → find_index is_free c.files ≡ some i
    → Becomes c
        (create_at c name src size (some m) (some i)).0
        (update (lookup c.files) name (some (created src (some m) size)))
unfolding create_at
create_at-some c h name src size m i short small absent e =
    let ((x, q, t), before) = find_index-some is_free c.files e in
    let free : x.in_use ≡ false = ground (arith, t) in
    let room : count_if used_file c.files < 256 =
      omega (arith, count_if-is_free c.files, count_if-pos is_free c.files i q t, h.whole) in
    let none_used : to_ℕ x.in_use ≡ 0 = ap to_ℕ free in
    let no_size : size_in_use x ≡ 0 = rw free refl in
    let fits : size ≤ (if ltb size 64 then 64 else size) = ground arith in
    puts c h name i x _ q _ _ refl (take_all max_name_len name short)
      (record { block = _; held = refl; fits = fits; word = small }) (inl (absent, free))
      (omega (arith, h.counted)) (omega arith) (omega arith) (contents_created src m size)

pub same_state : (c : Ramfs) → IsRamfs c → Becomes c c (lookup c.files)
same_state c h = record { valid = h; seen = λ other. refl }

-- The files that are seen after a call with its result.
abbrev pub after_create :
    Ramfs → List ℕ → Option Memory → ℕ → Option Memory → Bool → List ℕ → Option (List ℕ)
after_create c name src size block ok =
    if ok then update (lookup c.files) name (some (created src block size)) else lookup c.files

pub create_at-Becomes :
    (c : Ramfs) (h : IsRamfs c) (name : List ℕ) (src : Option Memory) (size : ℕ)
    (block : Option Memory) (slot : Option ℕ)
    → length name ≤ max_name_len
    → size < 2 ^ 32
    → find_index (has_name name) c.files ≡ none
    → find_index is_free c.files ≡ slot
    → let r = create_at c name src size block slot in
      Becomes c r.0 (after_create c name src size block r.1)
      × (r.1 ≡ (is_some slot && is_some block))
create_at-Becomes c h name src size block none short small absent e =
    unfold create_at in (same_state c h, refl)
create_at-Becomes c h name src size none (some i) short small absent e =
    let ((x, q, t), before) = find_index-some is_free c.files e in
    unfold create_at in (half_written c h i x q (ground (arith, t)) name, refl)
create_at-Becomes c h name src size (some m) (some i) short small absent e =
    let b = create_at-some c h name src size m i short small absent e in
    unfold create_at in (b, refl)
