-- ===== src/Ramfs.antt =====
-- The file system in memory, src/ramfs.c and include/ramfs.h. What `kmalloc` returns is an argument: `none`, or
-- memory with some bytes in it. A name is its bytes without the NUL, and a null pointer is `none`.
use aj.Common.{
  ℕ, ◌+◌, ◌-◌, ◌^◌, Bool, true, false, not, ◌&&◌, Option, none, some, List, [], ◌∷◌, ltb,
  if◌then◌else◌, modify, get_or, take, replicate, find_index, field_at, is_some, count_if, length,
  same_bytes, Memory, u32,
}
pub mod Files
pub mod View
pub mod Steps
pub mod Delete
pub mod Run
mod Tests

abbrev pub max_files : ℕ
max_files = 256

abbrev pub max_name_len : ℕ
max_name_len = 255

-- `struct ramfs_file`
pub record File : Type 0 where
  pub name : List ℕ
  pub data_bytes : Option Memory
  pub size : ℕ
  pub capacity : ℕ
  pub mode : ℕ
  pub mtime : ℕ
  pub in_use : Bool

-- `struct ramfs_ctx`
pub record Ramfs : Type 0 where
  pub files : List File
  pub file_count : ℕ
  pub total_size : ℕ

-- An entry that is all zero.
abbrev pub no_file : File
no_file = record {
  name = [];
  data_bytes = none;
  size = 0;
  capacity = 0;
  mode = 0;
  mtime = 0;
  in_use = false;
}

-- `ramfs_init` and `ramfs_deinit` leave the same, all zero.
unfoldable pub ramfs_init : Ramfs
ramfs_init = record { files = replicate max_files no_file; file_count = 0; total_size = 0 }

abbrev pub ramfs_deinit : Ramfs → Ramfs
ramfs_deinit c = record { files = replicate max_files no_file; file_count = 0; total_size = 0 }

abbrev pub has_name : List ℕ → File → Bool
has_name name f = f.in_use && same_bytes f.name name

-- `ramfs_find_file` and `ramfs_find_free_slot`: the index in place of the pointer.
unfoldable pub find_file : Ramfs → List ℕ → Option ℕ
find_file c name = find_index (has_name name) c.files

unfoldable pub find_free_slot : Ramfs → Option ℕ
find_free_slot c = find_index (λ f. not f.in_use) c.files

-- `mem_copy` of `n` bytes.
unfoldable pub mem_copy : Memory → Memory → ℕ → Memory
mem_copy dest src n a = if ltb a n then src a else dest a

-- `if (data && size > 0) mem_copy(file->data, data, size)`: a copy of no bytes changes nothing.
abbrev pub copy_opt : Memory → Option Memory → ℕ → Memory
copy_opt dest none n = dest
copy_opt dest (some src) n = mem_copy dest src n

-- The new file, `i` its entry; without memory for the data the name alone has been written.
unfoldable pub create_at :
    Ramfs → List ℕ → Option Memory → ℕ → Option Memory → Option ℕ → Ramfs × Bool
create_at c name src size block none = (c, false)
create_at c name src size none (some i) = (
  record c {
    files = modify c.files i (λ f. record f { name = take max_name_len name; data_bytes = none });
  },
  false,
)
create_at c name src size (some m) (some i) = (
  record {
    files = modify c.files i (λ _. record {
      name = take max_name_len name;
      data_bytes = some (copy_opt m src size);
      size = size;
      capacity = if ltb size 64 then 64 else size;
      mode = 0o644;
      mtime = 0;
      in_use = true;
    });
    file_count = u32 (c.file_count + 1);
    total_size = u32 (c.total_size + size);
  },
  true,
)

unfoldable pub create_file : Ramfs → List ℕ → Option Memory → ℕ → Option Memory → Ramfs × Bool
unfolding find_file find_free_slot create_at
create_file c name src size block =
    if is_some (find_file c name)
    then (c, false)
    else create_at c name src size block (find_free_slot c)

-- The entry at an index that has been found.
abbrev pub file_at : Ramfs → ℕ → File
file_at c i = get_or c.files i no_file

-- The buffer of a read: its bytes and their number.
unfoldable pub read_at : Ramfs → Option Memory → Option ℕ → Option (Memory × ℕ)
read_at c none found = none
read_at c (some buf) none = none
read_at c (some buf) (some i) =
    some (copy_opt buf (file_at c i).data_bytes (file_at c i).size, (file_at c i).size)

unfoldable pub read_file : Ramfs → List ℕ → Option Memory → Option (Memory × ℕ)
unfolding read_at find_file
read_file c name block = read_at c block (find_file c name)

-- The old bytes in a larger block.
abbrev pub grown : File → Memory → ℕ → Memory
grown f m size = copy_opt m f.data_bytes (if ltb f.size size then f.size else size)

abbrev pub map_opt : (Memory → Memory) → Option Memory → Option Memory
map_opt g none = none
map_opt g (some m) = some (g m)

-- The file with new bytes: in its block where that is large enough, else in a new one.
abbrev pub in_place : File → Memory → ℕ → File
in_place f src size = record f {
  data_bytes = map_opt (λ m. mem_copy m src size) f.data_bytes;
  size = size;
  mtime = 0;
}

abbrev pub moved : File → Memory → ℕ → Option Memory → Option File
moved f src size none = none
moved f src size (some m) = some (record f {
  data_bytes = some (mem_copy (grown f m size) src size);
  capacity = size;
  size = size;
  mtime = 0;
})

unfoldable pub rewrite : File → Memory → ℕ → Option Memory → Option File
rewrite f src size block =
    if ltb f.capacity size then moved f src size block else some (in_place f src size)

unfoldable pub put_rewritten : Ramfs → ℕ → ℕ → Option File → Ramfs × Bool
put_rewritten c i size none = (c, false)
put_rewritten c i size (some f) = (
  record c {
    files = modify c.files i (λ _. f);
    total_size = u32 (c.total_size + 2 ^ 32 - (file_at c i).size + size);
  },
  true,
)

unfoldable pub write_at : Ramfs → List ℕ → Memory → ℕ → Option Memory → Option ℕ → Ramfs × Bool
unfolding create_file rewrite put_rewritten
write_at c name src size block none = create_file c name (some src) size block
write_at c name src size block (some i) =
    put_rewritten c i size (rewrite (file_at c i) src size block)

unfoldable pub write_file : Ramfs → List ℕ → Memory → ℕ → Option Memory → Ramfs × Bool
unfolding write_at find_file
write_file c name src size block = write_at c name src size block (find_file c name)

unfoldable pub delete_at : Ramfs → Option ℕ → Ramfs × Bool
delete_at c none = (c, false)
delete_at c (some i) = (
  record {
    files = modify c.files i (λ _. no_file);
    file_count = u32 (c.file_count + 2 ^ 32 - 1);
    total_size = u32 (c.total_size + 2 ^ 32 - (file_at c i).size);
  },
  true,
)

unfoldable pub delete_file : Ramfs → List ℕ → Ramfs × Bool
unfolding delete_at find_file
delete_file c name = delete_at c (find_file c name)

pub file_exists : Ramfs → List ℕ → Bool
unfolding find_file
file_exists c name = is_some (find_file c name)

unfoldable pub get_file_size : Ramfs → List ℕ → Option ℕ
unfolding find_file
get_file_size c name = field_at (λ (f : File). f.size) c.files (find_file c name)

-- The names that `ramfs_list_files` gives, where its two allocations do not fail.
unfoldable pub names_of : List File → List (List ℕ)
names_of [] = []
names_of (f ∷ fs) = let rest = names_of fs in if f.in_use then f.name ∷ rest else rest

unfoldable pub list_files : Ramfs → List (List ℕ)
unfolding names_of
list_files c = names_of c.files
