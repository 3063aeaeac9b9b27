-- ===== src/Ramfs/Delete.antt =====
-- Files that src/ramfs.c deletes and reads.
use mathlib.Core.Option
use aj.Common.{
  ℕ, ◌≡◌, refl, sym, ap, ◌∙◌, inl, inr, true, false, none, some, List, Bool-cases, to_ℕ,
  length-modify, get_elem?, get_or-get_elem?, is_some, find_index, count_if-modify, count_if-le,
  same_bytes, same_bytes-eq, get_elem?-modify_cases, Memory, arith,
}
use aj.Ramfs.{
  File, no_file, Ramfs, has_name, find_file, file_at, read_at, read_file, delete_at, delete_file,
}
use aj.Ramfs.Files.{bytes_from, lookup, update, lookup-delete, IsTable-delete}
use aj.Ramfs.View.{size_in_use, sum_sizes-modify, used_file, IsRamfs, Becomes, bytes_from-mem_copy}
use aj.Ramfs.Steps.{found_or_not, lookup-none, lookup-some}

absent_deleted :
    (files : List File) (name : List ℕ)
    → find_index (has_name name) files ≡ none
    → (other : List ℕ) → lookup files other ≡ update (lookup files) name none other
absent_deleted files name e other = elim (Bool-cases (same_bytes name other)) [
  | inl t ↦
      let z : name ≡ other = same_bytes-eq name other t in
      rw t (ap (lookup files) (sym z) ∙ lookup-none files name e)
  | inr t ↦ rw t refl
]

deleted :
    (c : Ramfs) (name : List ℕ) (i : ℕ) (x : File)
    → IsRamfs c
    → find_index (has_name name) c.files ≡ some i
    → get_elem? c.files i ≡ some x
    → x.in_use ≡ true
    → Becomes c (delete_at c (some i)).0 (update (lookup c.files) name none)
unfolding delete_at
deleted c name i x h e q used =
    let here : (file_at c i).size ≡ x.size =
      ap (λ (f : File). f.size) (get_or-get_elem? c.files i x no_file q) in
    let w : size_in_use x ≡ x.size = rw used refl in
    let one : to_ℕ x.in_use ≡ 1 = ap to_ℕ used in
    let s = h.stored i x q used in
    record {
      valid = record {
        whole = length-modify c.files i (λ _. no_file) ∙ h.whole;
        table = IsTable-delete c.files name i h.table e;
        stored = λ j f r u. elim (get_elem?-modify_cases c.files i (λ _. no_file) j f r) [
          | inl k ↦
              let unused : f.in_use ≡ false = ap used_file (sym k.3) in absurd (cc (u, unused))
          | inr k ↦ h.stored j f k.1 u
        ];
        counted = omega (
          arith,
          one,
          h.counted,
          h.whole,
          count_if-le used_file c.files,
          count_if-modify used_file c.files i (λ _. no_file) q,
        );
        summed =
            omega (arith, here, w, h.summed, s.word, sum_sizes-modify c.files i (λ _. no_file) q);
      };
      seen = lookup-delete c.files name i h.table e;
    }

-- In a file system that satisfies its invariant, `ramfs_delete_file` returns 1 exactly where there is a file
-- of that name, and then there is none any more; the other files, and all of them where it returns 0, are as
-- they were.
pub delete_file-Becomes :
    (c : Ramfs) (name : List ℕ)
    → IsRamfs c
    → let (c', ok) = delete_file c name in
      Becomes c c' (update (lookup c.files) name none) × (ok ≡ is_some (lookup c.files name))
unfolding delete_file delete_at find_file
delete_file-Becomes c name h = elim (found_or_not (has_name name) c.files) [
  | inl e ↦
      rw (e, lookup-none c.files name e)
        (record { valid = h; seen = absent_deleted c.files name e }, refl)
  | inr (i, x, e, q, t) ↦
      let used : x.in_use ≡ true = ground (arith, t) in
      rw (e, lookup-some c.files name e q) (deleted c name i x h e q used, refl)
]

-- In a file system that satisfies its invariant and with memory for the bytes, `ramfs_read_file` gives the
-- bytes of the file of that name, all of them and no more, or fails where there is none.
pub read_file-lookup :
    (c : Ramfs) (name : List ℕ) (buf : Memory)
    → IsRamfs c
    → Option.map (λ (r : Memory × ℕ). bytes_from r.0 0 r.1) (read_file c name (some buf))
      ≡ lookup c.files name
unfolding read_file read_at find_file
read_file-lookup c name buf h = elim (found_or_not (has_name name) c.files) [
  | inl e ↦ rw (e, lookup-none c.files name e) refl
  | inr (i, x, e, q, t) ↦
      let used : x.in_use ≡ true = ground (arith, t) in
      let here : file_at c i ≡ x = get_or-get_elem? c.files i x no_file q in
      let s = h.stored i x q used in
      rw (e, lookup-some c.files name e q, here, s.held)
        (ap some (bytes_from-mem_copy buf s.block x.size 0 x.size (omega arith)))
]
