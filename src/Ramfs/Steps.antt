-- ===== src/Ramfs/Steps.antt =====
-- The calls of src/ramfs.c against the table that they show.
use aj.Common.{
  ℕ, ◌^◌, ◌≤◌, ◌<◌, ◌≡◌, ◌⊎◌, refl, ap, ◌∙◌, inl, inr, Bool, true, false, not, ◌&&◌, ◌||◌, Option,
  none, some, List, ltb, if◌then◌else◌, Bool-cases, to_ℕ, length, get_elem?, get_or-get_elem?,
  is_some, find_index, find_index-none, IsFirst, find_index-IsFirst, count_if-pos, count_if-zero,
  field_at, Memory, arith,
}
use aj.Ramfs.{
  File, no_file, Ramfs, max_files, max_name_len, has_name, find_file, find_free_slot, mem_copy,
  create_file, file_at, grown, moved, rewrite, put_rewritten, write_at, write_file,
}
use aj.Ramfs.Files.{bytes_from, contents, lookup, update, has_name-eq}
use aj.Ramfs.View.{
  size_in_use, is_free, count_if-is_free, IsStored, IsRamfs, Becomes, puts, bytes_from-mem_copy,
  after_create, create_at-Becomes, same_state,
}

-- A search that fails or finds an entry.
pub found_or_not :
    (p : File → Bool) (files : List File)
    → (find_index p files ≡ none)
      ⊎ ((i : ℕ) × (x : File) × (find_index p files ≡ some i)
          × (get_elem? files i ≡ some x)
          × (p x ≡ true))
found_or_not p files = go _ (find_index-IsFirst p files)
  where
    go :
        (o : Option ℕ)
        → IsFirst p files o
        → (o ≡ none)
          ⊎ ((i : ℕ) × (x : File) × (o ≡ some i) × (get_elem? files i ≡ some x) × (p x ≡ true))
    go none g = inl refl
    go (some i) ((x, q, t), before) = inr (i, x, refl, q, t)

pub lookup-none :
    (files : List File) (name : List ℕ)
    → find_index (has_name name) files ≡ none
    → lookup files name ≡ none
unfolding lookup field_at
lookup-none files name e = rw e refl

pub lookup-some :
    (files : List File) (name : List ℕ) {i : ℕ} {x : File}
    → find_index (has_name name) files ≡ some i
    → get_elem? files i ≡ some x
    → lookup files name ≡ some (contents x)
unfolding lookup field_at
lookup-some files name e q = rw (e, q) refl

-- There is a free entry exactly while the counter is below 256.
room_left :
    (c : Ramfs) → IsRamfs c → is_some (find_index is_free c.files) ≡ ltb c.file_count max_files
room_left c h = elim (found_or_not is_free c.files) [
  | inl e ↦
      let full : ltb c.file_count max_files ≡ false = ground (
        arith,
        count_if-is_free c.files,
        count_if-zero is_free c.files (find_index-none is_free c.files e),
        h.whole,
        h.counted,
      ) in
      rw (e, full) refl
  | inr (i, x, e, q, t) ↦
      let room : ltb c.file_count max_files ≡ true =
        ground (
          arith,
          count_if-is_free c.files,
          count_if-pos is_free c.files i q t,
          h.whole,
          h.counted,
        ) in
      rw (e, room) refl
]

-- In a file system that satisfies its invariant, `ramfs_create_file` makes a file with the bytes given, fewer
-- than 2 ^ 32, under a name of at most 255 bytes, exactly where there is none of that name, fewer than 256
-- files, and memory; then it returns 1, and otherwise 0 and the files are as they were. The invariant holds
-- afterwards: no two files have one name, and the counters agree with the files.
pub create_file-Becomes :
    (c : Ramfs) (name : List ℕ) (src : Option Memory) (size : ℕ) (block : Option Memory)
    → IsRamfs c
    → length name ≤ max_name_len
    → size < 2 ^ 32
    → let (c', ok) = create_file c name src size block in
      Becomes c c' (after_create c name src size block ok)
      × (ok
          ≡ (not (is_some (lookup c.files name)) && (ltb c.file_count max_files && is_some block)))
unfolding create_file find_file find_free_slot
create_file-Becomes c name src size block h short small =
    elim (found_or_not (has_name name) c.files) [
      | inl e ↦
          let (b, ok) =
            create_at-Becomes c h name src size block (find_index is_free c.files) short small e
              refl in
          rw (e, lookup-none c.files name e)
            (b, ok ∙ ap (λ (t : Bool). t && is_some block) (room_left c h))
      | inr (i, x, e, q, t) ↦ rw (e, lookup-some c.files name e q) (same_state c h, refl)
    ]

-- A file with new bytes.
abbrev IsRewritten : File → Memory → ℕ → Option File → Type 0
IsRewritten f src size none = Unit
IsRewritten f src size (some g) =
    (g.in_use ≡ f.in_use)
    × (g.name ≡ f.name)
    × IsStored g
    × (g.size ≡ size)
    × (contents g ≡ bytes_from src 0 size)

rewrite-IsRewritten :
    (f : File) (src : Memory) (size : ℕ) (block : Option Memory)
    → IsStored f
    → size < 2 ^ 32
    → IsRewritten f src size (rewrite f src size block)
      × (is_some block ≡ true → is_some (rewrite f src size block) ≡ true)
unfolding rewrite
rewrite-IsRewritten f src size block s small = elim (Bool-cases (ltb f.capacity size)) [
  | inl e ↦ rw e (go block)
  | inr e ↦
      rw (e, s.held)
        (
          (
            refl,
            refl,
            record {
              block = mem_copy s.block src size;
              held = refl;
              fits = ground (arith, e);
              word = small;
            },
            refl,
            bytes_from-mem_copy s.block src size 0 size (omega arith),
          ),
          λ _. refl,
        )
]
  where
    go :
        (block : Option Memory)
        → IsRewritten f src size (moved f src size block)
          × (is_some block ≡ true → is_some (moved f src size block) ≡ true)
    go none = (tt, λ t. t)
    go (some m) = (
      (
        refl,
        refl,
        record {
          block = mem_copy (grown f m size) src size;
          held = refl;
          fits = omega arith;
          word = small;
        },
        refl,
        bytes_from-mem_copy (grown f m size) src size 0 size (omega arith),
      ),
      λ _. refl,
    )

abbrev pub after_write : Ramfs → List ℕ → Memory → ℕ → Bool → List ℕ → Option (List ℕ)
after_write c name src size ok =
    if ok then update (lookup c.files) name (some (bytes_from src 0 size)) else lookup c.files

put_rewritten-Becomes :
    (c : Ramfs) (name : List ℕ) (i : ℕ) (x : File) (src : Memory) (size : ℕ) (o : Option File)
    → IsRamfs c
    → size < 2 ^ 32
    → find_index (has_name name) c.files ≡ some i
    → get_elem? c.files i ≡ some x
    → x.in_use ≡ true
    → x.name ≡ name
    → IsRewritten x src size o
    → let (c', ok) = put_rewritten c i size o in
      Becomes c c' (after_write c name src size ok) × (ok ≡ is_some o)
unfolding put_rewritten
put_rewritten-Becomes c name i x src size none h small e q used named g = (same_state c h, refl)
put_rewritten-Becomes c name i x src size (some y) h small e q used named (a, b, k, l, d) =
    let here : (file_at c i).size ≡ x.size =
      ap (λ (f : File). f.size) (get_or-get_elem? c.files i x no_file q) in
    let w : size_in_use x ≡ x.size = rw used refl in
    let one : to_ℕ x.in_use ≡ 1 = ap to_ℕ used in
    let s = h.stored i x q used in
    (
      puts c h name i x y q _ _ (a ∙ used) (b ∙ named) k (inr e) (omega (arith, one))
          (omega (arith, here, w, l, s.word)) (omega arith) d,
      refl,
    )

and_swap : (a b : Bool) → (a && b) ≡ true → (b && a) ≡ true
and_swap true b h = rw h refl
and_swap false b h = absurd (cc h)

and_left : (a b : Bool) → (a && b) ≡ true → a ≡ true
and_left true b h = refl
and_left false b h = h

-- In a file system that satisfies its invariant, `ramfs_write_file` under a name of at most 255 bytes, which
-- makes the file where there is none of that name, leaves the file with the bytes given where it returns 1,
-- and all files as they were where it returns 0. It returns 1 where there is memory, and a file of that name
-- or fewer than 256 files.
pub write_file-Becomes :
    (c : Ramfs) (name : List ℕ) (src : Memory) (size : ℕ) (block : Option Memory)
    → IsRamfs c
    → length name ≤ max_name_len
    → size < 2 ^ 32
    → let (c', ok) = write_file c name src size block in
      Becomes c c' (after_write c name src size ok)
      × ((is_some block && (is_some (lookup c.files name) || ltb c.file_count max_files)) ≡ true
          → ok ≡ true)
unfolding write_file write_at find_file
write_file-Becomes c name src size block h short small =
    elim (found_or_not (has_name name) c.files) [
      | inl e ↦
          let (b, ok) = create_file-Becomes c name (some src) size block h short small in
          rw (e, lookup-none c.files name e)
            (b, λ t. ok ∙ rw (lookup-none c.files name e) (and_swap (is_some block) _ t))
      | inr (i, x, e, q, t) ↦
          let used : x.in_use ≡ true = ground (arith, t) in
          let (g, given) = rewrite-IsRewritten x src size block (h.stored i x q used) small in
          let here : file_at c i ≡ x = get_or-get_elem? c.files i x no_file q in
          let (b, ok) =
            put_rewritten-Becomes c name i x src size (rewrite x src size block) h small e q used
              (has_name-eq name x t) g in
          rw (e, here) (b, λ u. ok ∙ given (and_left (is_some block) _ u))
    ]
