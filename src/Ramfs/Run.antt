-- ===== src/Ramfs/Run.antt =====
-- Any sequence of calls of src/ramfs.c from the empty file system on, and the same calls on a function from names
-- to bytes.
use mathlib.Core.Path.{fun_ext}
use aj.Common.{
  ℕ, zero, suc, ◌^◌, ◌≤◌, ◌<◌, ◌≡◌, refl, sym, ap, ◌∙◌, Bool, Option, none, some, List, [], ◌∷◌,
  if◌then◌else◌, length, length-replicate, replicate, get_elem?, find_index, find_index-IsFirst,
  IsFirst, count_if, Memory, arith,
}
use aj.Ramfs.{
  File, no_file, Ramfs, max_files, max_name_len, has_name, ramfs_init, create_file, write_file,
  delete_file,
}
use aj.Ramfs.Files.{bytes_from, lookup, update}
use aj.Ramfs.View.{sum_sizes, used_file, IsRamfs, Becomes, created}
use aj.Ramfs.Steps.{lookup-none, create_file-Becomes, write_file-Becomes}
use aj.Ramfs.Delete.{delete_file-Becomes}

-- A call that changes the files, with what `kmalloc` returns in it.
pub data FileCall : Type 0 where
  create_call : List ℕ → Option Memory → ℕ → Option Memory → FileCall
  write_call : List ℕ → Memory → ℕ → Option Memory → FileCall
  delete_call : List ℕ → FileCall

abbrev pub IsFileCall : FileCall → Type 0
IsFileCall (create_call name src size block) = (length name ≤ max_name_len) × (size < 2 ^ 32)
IsFileCall (write_call name src size block) = (length name ≤ max_name_len) × (size < 2 ^ 32)
IsFileCall (delete_call name) = Unit

abbrev pub AllCalls : List FileCall → Type 0
AllCalls [] = Unit
AllCalls (k ∷ ks) = IsFileCall k × AllCalls ks

unfoldable pub call : FileCall → Ramfs → Ramfs × Bool
call (create_call name src size block) c = create_file c name src size block
call (write_call name src size block) c = write_file c name src size block
call (delete_call name) c = delete_file c name

unfoldable pub run : List FileCall → Ramfs → Ramfs
unfolding call
run [] c = c
run (k ∷ ks) c = run ks (call k c).0

unfoldable pub results : List FileCall → Ramfs → List Bool
unfolding call
results [] c = []
results (k ∷ ks) c = (call k c).1 ∷ results ks (call k c).0

abbrev pub Names : Type 0
Names = List ℕ → Option (List ℕ)

-- What a call with its result means for the function.
unfoldable pub meant : FileCall → Bool → Names → Names
meant (create_call name src size block) ok g =
    if ok then update g name (some (created src block size)) else g
meant (write_call name src size block) ok g =
    if ok then update g name (some (bytes_from src 0 size)) else g
meant (delete_call name) ok g = update g name none

unfoldable pub replay : List FileCall → List Bool → Names → Names
unfolding meant
replay [] oks g = g
replay (k ∷ ks) [] g = g
replay (k ∷ ks) (ok ∷ oks) g = replay ks oks (meant k ok g)

call-meant :
    (k : FileCall) (c : Ramfs)
    → IsRamfs c
    → IsFileCall k
    → Becomes c (call k c).0 (meant k (call k c).1 (lookup c.files))
unfolding call meant
call-meant (create_call name src size block) c h (short, small) =
    (create_file-Becomes c name src size block h short small).0
call-meant (write_call name src size block) c h (short, small) =
    (write_file-Becomes c name src size block h short small).0
call-meant (delete_call name) c h t = (delete_file-Becomes c name h).0

run_from :
    (ks : List FileCall) (c : Ramfs) (g : Names)
    → IsRamfs c
    → AllCalls ks
    → lookup c.files ≡ g
    → IsRamfs (run ks c) × (lookup (run ks c).files ≡ replay ks (results ks c) g)
unfolding run results replay
run_from [] c g h t e = (h, e)
run_from (k ∷ ks) c g h (a, t) e =
    let b = call-meant k c h a in
    let seen : lookup (call k c).0.files ≡ meant k (call k c).1 g =
      fun_ext b.seen ∙ ap (meant k (call k c).1) e in
    run_from ks (call k c).0 (meant k (call k c).1 g) b.valid t seen

-- A table of files that are all zero.
module _ (n : ℕ) where
  abbrev zeros : List File
  zeros = replicate n no_file

  zeros_all : (m i : ℕ) (x : File) → get_elem? (replicate m no_file) i ≡ some x → x ≡ no_file
  zeros_all zero i x q = absurd (cc q)
  zeros_all (suc m) zero x q = cc q
  zeros_all (suc m) (suc i) x q = zeros_all m i x q

  find_index-zeros : (name : List ℕ) → find_index (has_name name) zeros ≡ none
  find_index-zeros name = go _ (find_index-IsFirst (has_name name) zeros)
    where
      go : (o : Option ℕ) → IsFirst (has_name name) zeros o → o ≡ none
      go none g = refl
      go (some i) ((x, q, t), before) =
          absurd (cc (sym (ap (has_name name) (zeros_all n i x q)) ∙ t))

  count_if-zeros : (m : ℕ) → count_if used_file (replicate m no_file) ≡ 0
  unfolding count_if
  count_if-zeros zero = refl
  count_if-zeros (suc m) = omega (arith, count_if-zeros m)

  sum_sizes-zeros : (m : ℕ) → sum_sizes (replicate m no_file) ≡ 0
  unfolding sum_sizes
  sum_sizes-zeros zero = refl
  sum_sizes-zeros (suc m) = omega (arith, sum_sizes-zeros m)

  zeros-IsRamfs : n ≡ max_files → IsRamfs (record { files = zeros; file_count = 0; total_size = 0 })
  zeros-IsRamfs e = record {
    whole = length-replicate n no_file ∙ e;
    table = λ name i j x y q r t u. absurd (cc (sym (ap (has_name name) (zeros_all n i x q)) ∙ t));
    stored = λ i x q u. absurd (cc (sym (ap used_file (zeros_all n i x q)) ∙ u));
    counted = sym (count_if-zeros n);
    summed = omega (arith, sum_sizes-zeros n);
  }

pub ramfs_init-IsRamfs : IsRamfs ramfs_init
unfolding ramfs_init
ramfs_init-IsRamfs = zeros-IsRamfs max_files refl

-- After any calls from the empty file system on, with names of at most 255 bytes and sizes below 2 ^ 32, the
-- files that are seen are those of the same calls on a function from names to bytes, where a creation or a
-- write that returned 0 changes nothing; no two of the 256 entries have one name, every file fits in its
-- block, and the two counters agree with the files.
pub run-replay :
    (ks : List FileCall)
    → AllCalls ks
    → let c = run ks ramfs_init in
      IsRamfs c × (lookup c.files ≡ replay ks (results ks ramfs_init) (λ _. none))
unfolding ramfs_init
run-replay ks t =
    run_from ks ramfs_init (λ _. none) ramfs_init-IsRamfs t
      (fun_ext (λ name. lookup-none (zeros max_files) name (find_index-zeros max_files name)))
