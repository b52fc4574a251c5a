-- ===== src/FileStore/Disk.antt =====
-- testbench/containment.py, over the calls of `os` that it makes. A directory that is open is the path of
-- what is in it, up to the name: `""` for the directory of the bucket, `"a/b/"` for `b` in `a`. There are
-- no symbolic links, and two names that differ are two files. A write may fail at any of its calls; the
-- calls that make, move and remove files and directories fail by the tests that are written out, not by
-- input and output.
use storage_testbench.Base.{
  Bool, true, false, ◌||◌, ltb, Option, none, some, List, [], ◌∷◌, ◌++◌, Text, codes, text_eq,
  starts_with, length, drop, lookup, insert, erase, contains, if◌then◌else◌,
}
use storage_testbench.Errors.{
  py, file_not_found_error, file_exists_error, not_a_directory_error, os_error, ok, err, Exec, pure,
  raise, raise_if, gets, modify, ◌>>=◌, ◌>>◌,
}
use storage_testbench.Pathing.{utf8_length, name_max}
use storage_testbench.FileStore.{Content, directory, file, Tree}

-- An action on the tree of a bucket.
abbrev pub Action : Type 0 → Type 0
Action A = Exec Tree A

-- What every call says of a name: an empty one is not found, and one may be too long.
unfoldable pub check_name : Text → Action Unit
check_name name = do
  raise_if (text_eq name []) (py file_not_found_error)
  raise_if (ltb name_max (utf8_length name)) (py os_error)

-- `os.mkdir(name, 0o755, dir_fd=dir_fd)`, where `FileExistsError` is caught
unfoldable pub make_dir : Text → Text → Action Unit
make_dir dir name = do
  check_name name
  modify (λ fs. if contains (dir ++ name) fs then fs else insert (dir ++ name) directory fs)

-- `open_dir_nofollow`
unfoldable pub open_dir_nofollow : Text → Text → Action Text
open_dir_nofollow dir name = do
  check_name name
  fs ← gets (λ fs. fs)
  elim (lookup (dir ++ name) fs) [
    | none ↦ raise (py file_not_found_error)
    | some directory ↦ pure (dir ++ name ++ codes "/")
    | some (file c) ↦ raise (py not_a_directory_error)
  ]

-- The body of the loop of `walk_dirs`
unfoldable pub enter_dir : Bool → Text → Text → Action Text
enter_dir true cur part = do make_dir cur part; open_dir_nofollow cur part
enter_dir false cur part = open_dir_nofollow cur part

unfoldable pub walk_dirs : Bool → Text → List Text → Action Text
walk_dirs create cur [] = pure cur
walk_dirs create cur (part ∷ parts) = do nxt ← enter_dir create cur part; walk_dirs create nxt parts

-- `os.replace(tmp, name, src_dir_fd=dir_fd, dst_dir_fd=dir_fd)` of a file, with its cleanup in
-- `write_bytes_atomic`
unfoldable pub replace_or_unlink : Text → Text → Text → Content → Action Unit
replace_or_unlink dir tmp name content fs =
    if text_eq name []
    then (err (py file_not_found_error), erase (dir ++ tmp) fs)
    else elim (lookup (dir ++ name) fs) [
      | some directory ↦ (err (py os_error), erase (dir ++ tmp) fs)
      | _ ↦ (ok tt, insert (dir ++ name) (file content) (erase (dir ++ tmp) fs))
    ]

-- What goes wrong in a write behind the tests of the names: the file cannot be opened; the write, the
-- flush, the `fsync` of the file or `os.replace` fails, and the temporary file is unlinked, or cannot be
-- and keeps some content; the `fsync` of the directory fails behind `os.replace`.
pub data Fault : Type 0 where
  no_fault open_fails write_fails fsync_dir_fails : Fault
  write_fails_and_unlink : Content → Fault

-- The process, in decimal digits, and the faults of its writes, by the path and the files that there are.
pub record Process : Type 0 where
  pub pid : Text
  pub fault : Text → Tree → Fault

-- `".tmp-%d-%s" % (os.getpid(), name)`
unfoldable pub tmp_name : Text → Text → Text
tmp_name pid name = codes ".tmp-" ++ pid ++ codes "-" ++ name

-- `write_bytes_atomic` from `safe_open` on, of a temporary file that is not there yet
unfoldable pub write_file : Fault → Text → Text → Text → Content → Action Unit
write_file open_fails dir tmp name content = raise (py os_error)
write_file write_fails dir tmp name content = do
  modify (insert (dir ++ tmp) (file content))
  modify (erase (dir ++ tmp))
  raise (py os_error)
write_file (write_fails_and_unlink part) dir tmp name content = do
  modify (insert (dir ++ tmp) (file part))
  raise (py os_error)
write_file fsync_dir_fails dir tmp name content = do
  modify (insert (dir ++ tmp) (file content))
  replace_or_unlink dir tmp name content
  raise (py os_error)
write_file no_fault dir tmp name content = do
  modify (insert (dir ++ tmp) (file content))
  replace_or_unlink dir tmp name content

unfoldable pub write_bytes_atomic : Process → Text → Text → Content → Action Unit
write_bytes_atomic process dir name content = do
  check_name (tmp_name process.pid name)
  fs ← gets (λ fs. fs)
  raise_if (contains (dir ++ tmp_name process.pid name) fs) (py file_exists_error)
  write_file (process.fault (dir ++ name) fs) dir (tmp_name process.pid name) name content

-- `_unlink_quiet`
unfoldable pub unlink_quiet : Text → Text → Action Unit
unlink_quiet dir name fs =
    if ltb name_max (utf8_length name)
    then (err (py os_error), fs)
    else elim (lookup (dir ++ name) fs) [
      | none ↦ (ok tt, fs)
      | some directory ↦ (err (py os_error), fs)
      | some (file c) ↦ (ok tt, erase (dir ++ name) fs)
    ]

-- `path` is what is at `root`, or what is in it.
unfoldable pub is_under : Text → Text → Bool
is_under root path = text_eq path root || starts_with path (root ++ codes "/")

-- Whether there is anything in the directory `root`
unfoldable pub has_children : Text → Tree → Bool
has_children root [] = false
has_children root ((path, n) ∷ fs) = starts_with path (root ++ codes "/") || has_children root fs

-- A directory, and all that is in it, gets another path.
unfoldable pub move_tree : Text → Text → Tree → Tree
move_tree src dst [] = []
move_tree src dst ((path, n) ∷ fs) =
    let rest = move_tree src dst fs in
    if is_under src path then (dst ++ drop (length src) path, n) ∷ rest else (path, n) ∷ rest

-- `_move_quiet`, to a name that is not empty: `os.replace`, where `FileNotFoundError` is caught
unfoldable pub move_quiet : Text → Text → Text → Text → Action Unit
move_quiet src_dir src dst_dir dst fs =
    if ltb name_max (utf8_length src) || ltb name_max (utf8_length dst)
    then (err (py os_error), fs)
    else elim (lookup (src_dir ++ src) fs) [
      | none ↦ (ok tt, fs)
      | some (file c) ↦ elim (lookup (dst_dir ++ dst) fs) [
        | some directory ↦ (err (py os_error), fs)
        | _ ↦ (ok tt, insert (dst_dir ++ dst) (file c) (erase (src_dir ++ src) fs))
      ]
      | some directory ↦ elim (lookup (dst_dir ++ dst) fs) [
        | some (file c) ↦ (err (py not_a_directory_error), fs)
        | some directory ↦
            if has_children (dst_dir ++ dst) fs
            then (err (py os_error), fs)
            else (ok tt, move_tree (src_dir ++ src) (dst_dir ++ dst) (erase (dst_dir ++ dst) fs))
        | none ↦ (ok tt, move_tree (src_dir ++ src) (dst_dir ++ dst) fs)
      ]
    ]

-- `shutil.rmtree`
unfoldable pub remove_tree : Text → Tree → Tree
remove_tree root [] = []
remove_tree root ((path, n) ∷ fs) =
    let rest = remove_tree root fs in if is_under root path then rest else (path, n) ∷ rest

-- The content of the file at a path
unfoldable pub file_at : Tree → Text → Option Content
file_at fs path = elim (lookup path fs) [
  | none ↦ none
  | some directory ↦ none
  | some (file c) ↦ some c
]
