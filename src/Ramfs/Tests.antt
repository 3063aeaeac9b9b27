-- ===== src/Ramfs/Tests.antt =====
-- Examples of the file system of src/ramfs.c.
use mathlib.Core.Option
use aj.Common.{ℕ, ◌≡◌, none, some, List, [], ◌∷◌, not, ◌&&◌, ltb, is_some, Memory, arith}
use aj.Ramfs.{Ramfs, max_files, ramfs_init, create_file, read_file}
use aj.Ramfs.Files.{bytes_from, lookup}
use aj.Ramfs.View.{IsRamfs, Becomes, after_create}
use aj.Ramfs.Steps.{create_file-Becomes}
use aj.Ramfs.Delete.{read_file-lookup}
use aj.Ramfs.Run.{
  FileCall, create_call, write_call, delete_call, run, results, replay, ramfs_init-IsRamfs,
  run-replay,
}

-- The names "a" and "b", and memory whose byte at an index is the index.
abbrev a_name : List ℕ
a_name = 97 ∷ []

abbrev b_name : List ℕ
b_name = 98 ∷ []

abbrev indices : Memory
indices a = a

abbrev zeros : Memory
zeros a = 0

abbrev some_calls : List FileCall
some_calls =
    create_call a_name (some indices) 3 (some zeros)
    ∷ write_call b_name zeros 100 (some indices)
    ∷ write_call a_name zeros 70 none
    ∷ delete_call b_name
    ∷ []

run-replay_example :
    IsRamfs (run some_calls ramfs_init)
    × (lookup (run some_calls ramfs_init).files
        ≡ replay some_calls (results some_calls ramfs_init) (λ _. none))
run-replay_example = run-replay some_calls (
  (omega arith, omega arith),
  ((omega arith, omega arith), ((omega arith, omega arith), (tt, tt))),
)

create_file-Becomes_example :
    let (c', ok) = create_file ramfs_init a_name (some indices) 3 (some zeros) in
    Becomes ramfs_init c' (after_create ramfs_init a_name (some indices) 3 (some zeros) ok)
    × (ok ≡ (
        not (is_some (lookup ramfs_init.files a_name))
        && (ltb ramfs_init.file_count max_files && is_some (some zeros))))
create_file-Becomes_example =
    create_file-Becomes ramfs_init a_name (some indices) 3 (some zeros) ramfs_init-IsRamfs
      (omega arith) (omega arith)

abbrev one_file : Ramfs
one_file = run (create_call a_name (some indices) 3 (some zeros) ∷ []) ramfs_init

one_file-IsRamfs : IsRamfs one_file
one_file-IsRamfs =
    (run-replay (create_call a_name (some indices) 3 (some zeros) ∷ [])
      ((omega arith, omega arith), tt)).0

read_file-lookup_example :
    Option.map (λ (r : Memory × ℕ). bytes_from r.0 0 r.1) (read_file one_file a_name (some zeros))
    ≡ lookup one_file.files a_name
read_file-lookup_example = read_file-lookup one_file a_name zeros one_file-IsRamfs
