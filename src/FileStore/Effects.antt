-- ===== src/FileStore/Effects.antt =====
-- testbench/containment.py: what each call leaves in the files of a tree, whether it returns or raises.
use storage_testbench.Base.{
  Bool, true, false, Option, none, some, List, [], ◌∷◌, ◌++◌, ◌≡◌, refl, sym, ap, ◌∙◌, arith, Text,
  codes, text_eq, text_eq_iff, lookup, insert, erase, contains, lookup-insert, lookup-erase,
  if◌then◌else◌, ++-nil, inl, inr, ◌&&◌, Bool-cases,
}
use mathlib.Core.List.{append_assoc}
use storage_testbench.Errors.{Error, Result, ok, err, Reads, Result-cases, bind_state, bind_ok}
use storage_testbench.FileStore.{Content, Node, directory, file, Tree}
use storage_testbench.FileStore.Disk.{
  Process, Fault, no_fault, open_fails, write_fails, fsync_dir_fails, write_fails_and_unlink,
  write_file, check_name, make_dir, open_dir_nofollow, enter_dir, walk_dirs, replace_or_unlink,
  tmp_name, write_bytes_atomic, unlink_quiet, move_quiet, is_under, remove_tree, file_at,
}

unfoldable pub content_of : Node → Option Content
content_of directory = none
content_of (file c) = some c

pub file_at-insert :
    (p q : Text) (n : Node) (fs : Tree)
    → file_at (insert p n fs) q ≡ (if text_eq p q then content_of n else file_at fs q)
unfolding file_at content_of
file_at-insert p q directory fs = ground (arith, lookup-insert q p directory fs)
file_at-insert p q (file c) fs = ground (arith, lookup-insert q p (file c) fs)

pub file_at-erase :
    (p q : Text) (fs : Tree) → file_at (erase p fs) q ≡ (if text_eq p q then none else file_at fs q)
unfolding file_at
file_at-erase p q fs = ground (arith, lookup-erase q p fs)

file_at-absent : (p : Text) (fs : Tree) → contains p fs ≡ false → file_at fs p ≡ none
unfolding file_at
file_at-absent p fs e = ground arith

check_name-Reads : (name : Text) → Reads (check_name name)
unfolding check_name
check_name-Reads name fs = ground arith

-- A new directory is no file.
pub make_dir-keeps :
    (dir name : Text) (fs : Tree) (q : Text) → file_at (make_dir dir name fs).1 q ≡ file_at fs q
unfolding make_dir check_name content_of
make_dir-keeps dir name fs q = ground (
  arith,
  file_at-insert (dir ++ name) q directory fs,
  file_at-absent (dir ++ name) fs,
  text_eq_iff (dir ++ name) q,
)

pub open_dir_nofollow-Reads : (dir name : Text) → Reads (open_dir_nofollow dir name)
unfolding open_dir_nofollow check_name
open_dir_nofollow-Reads dir name fs = ground arith

pub open_dir_nofollow-result :
    (dir name : Text) (fs : Tree) (d : Text)
    → (open_dir_nofollow dir name fs).0 ≡ ok d
    → d ≡ dir ++ name ++ codes "/"
unfolding open_dir_nofollow check_name
open_dir_nofollow-result dir name fs d e = ground arith

enter_dir-keeps :
    (create : Bool) (dir name : Text) (fs : Tree) (q : Text)
    → file_at (enter_dir create dir name fs).1 q ≡ file_at fs q
unfolding enter_dir
enter_dir-keeps true dir name fs q =
    ground (
      arith,
      make_dir-keeps dir name fs q,
      open_dir_nofollow-Reads dir name (make_dir dir name fs).1,
    )
enter_dir-keeps false dir name fs q = ground (arith, open_dir_nofollow-Reads dir name fs)

enter_dir-result :
    (create : Bool) (dir name : Text) (fs : Tree) (d : Text)
    → (enter_dir create dir name fs).0 ≡ ok d
    → d ≡ dir ++ name ++ codes "/"
unfolding enter_dir
enter_dir-result true dir name fs d e =
    ground (arith, open_dir_nofollow-result dir name (make_dir dir name fs).1 d)
enter_dir-result false dir name fs d e = open_dir_nofollow-result dir name fs d e

-- The directories of a path, as `walk_dirs` opens them
unfoldable pub prefix_of : List Text → Text
prefix_of [] = []
prefix_of (part ∷ parts) = part ++ codes "/" ++ prefix_of parts

-- `walk_dirs` leaves all files alone, and opens the directory that its parts name.
pub walk_dirs-keeps :
    (create : Bool) (parts : List Text) (cur : Text) (fs : Tree) (q : Text)
    → file_at (walk_dirs create cur parts fs).1 q ≡ file_at fs q
unfolding walk_dirs
walk_dirs-keeps create [] cur fs q = refl
walk_dirs-keeps create (part ∷ parts) cur fs q =
    bind_state (λ s. file_at s q ≡ file_at fs q) (enter_dir create cur part)
      (λ nxt. walk_dirs create nxt parts) fs (enter_dir-keeps create cur part fs q)
      (λ nxt e.
        walk_dirs-keeps create parts nxt (enter_dir create cur part fs).1 q
        ∙ enter_dir-keeps create cur part fs q)

reassociate : (cur part t : Text) → cur ++ part ++ codes "/" ++ t ≡ cur ++ (part ++ codes "/" ++ t)
reassociate cur part t =
    append_assoc (cur ++ part) (codes "/") t
    ∙ append_assoc cur part (codes "/" ++ t)
    ∙ ap (λ r. cur ++ r) (sym (append_assoc part (codes "/") t))

pub walk_dirs-result :
    (create : Bool) (parts : List Text) (cur : Text) (fs : Tree) (d : Text)
    → (walk_dirs create cur parts fs).0 ≡ ok d
    → d ≡ cur ++ prefix_of parts
unfolding walk_dirs prefix_of
walk_dirs-result create [] cur fs d e = let same : d ≡ cur = ground arith in same ∙ sym (++-nil cur)
walk_dirs-result create (part ∷ parts) cur fs d e =
    bind_ok (λ s. d ≡ cur ++ prefix_of (part ∷ parts)) (enter_dir create cur part)
      (λ nxt. walk_dirs create nxt parts) fs
      (λ nxt entered walked.
        walk_dirs-result create parts nxt (enter_dir create cur part fs).1 d walked
        ∙ ap (λ r. r ++ prefix_of parts) (enter_dir-result create cur part fs nxt entered)
        ∙ reassociate cur part (prefix_of parts))
      e

-- A write that returns changes one file.
pub write_bytes_atomic-changes :
    (process : Process) (dir name : Text) (content : Content) (fs : Tree) (q : Text)
    → (write_bytes_atomic process dir name content fs).0 ≡ ok tt
    → file_at (write_bytes_atomic process dir name content fs).1 q
      ≡ (if text_eq (dir ++ name) q then some content else file_at fs q)
unfolding write_bytes_atomic write_file check_name replace_or_unlink content_of
write_bytes_atomic-changes process dir name content fs q e =
    let tmp = dir ++ tmp_name process.pid name in
    let written : Tree = insert tmp (file content) fs in
    let left : Tree = erase tmp written in
    ground (
      arith,
      file_at-insert (dir ++ name) q (file content) left,
      file_at-erase tmp q written,
      file_at-insert tmp q (file content) fs,
      file_at-absent tmp fs,
      text_eq_iff tmp q,
    )

pub unlink_quiet-changes :
    (dir name : Text) (fs : Tree) (q : Text)
    → (unlink_quiet dir name fs).0 ≡ ok tt
    → file_at (unlink_quiet dir name fs).1 q
      ≡ (if text_eq (dir ++ name) q then none else file_at fs q)
unfolding unlink_quiet file_at
unlink_quiet-changes dir name fs q e =
    ground (arith, file_at-erase (dir ++ name) q fs, text_eq_iff (dir ++ name) q)

-- A file that is there is moved.
pub move_quiet-changes :
    (src_dir src dst_dir dst : Text) (c : Content) (fs : Tree) (q : Text)
    → file_at fs (src_dir ++ src) ≡ some c
    → (move_quiet src_dir src dst_dir dst fs).0 ≡ ok tt
    → file_at (move_quiet src_dir src dst_dir dst fs).1 q ≡ (
        if text_eq (dst_dir ++ dst) q
        then some c
        else if text_eq (src_dir ++ src) q
        then none
        else file_at fs q)
unfolding move_quiet file_at content_of
move_quiet-changes src_dir src dst_dir dst c fs q there e =
    let left : Tree = erase (src_dir ++ src) fs in
    ground
      (arith, file_at-insert (dst_dir ++ dst) q (file c) left, file_at-erase (src_dir ++ src) q fs)

pub remove_tree-changes :
    (root q : Text) (fs : Tree)
    → file_at (remove_tree root fs) q ≡ (if is_under root q then none else file_at fs q)
unfolding remove_tree file_at lookup
remove_tree-changes root q [] = ground arith
remove_tree-changes root q ((p, n) ∷ fs) =
    ground (arith, remove_tree-changes root q fs, text_eq_iff p q)

-- What a write may leave, but for its temporary file: the file is replaced or it is not, and no other file
-- is changed. It is replaced if the write returns; if it raises, only where the directory could not be
-- written through behind `os.replace`.
pub record AllOrNothing (fault : Fault) (tmp path : Text) (content : Content) (fs : Tree)
    (left : Result (Unit {0}) × Tree) : Type 0 where
  pub replaced : Bool
  pub files :
      (q : Text)
      → text_eq tmp q ≡ false
      → file_at left.1 q ≡ (if replaced && text_eq path q then some content else file_at fs q)
  pub returned : left.0 ≡ ok tt → replaced ≡ true
  pub raised : (x : Error) → left.0 ≡ err x → replaced ≡ true → fault ≡ fsync_dir_fails

module _ (dir tmp name : Text) (content : Content) (fs : Tree) where
  abbrev written : Tree
  written = insert (dir ++ tmp) (file content) fs

  -- What `os.replace` leaves of the files.
  replace_or_unlink-replaces :
      (q : Text)
      → text_eq (dir ++ tmp) q ≡ false
      → (replace_or_unlink dir tmp name content written).0 ≡ ok tt
      → file_at (replace_or_unlink dir tmp name content written).1 q
        ≡ (if text_eq (dir ++ name) q then some content else file_at fs q)
  unfolding replace_or_unlink content_of
  replace_or_unlink-replaces q other e = ground (
    arith,
    file_at-insert (dir ++ name) q (file content) (erase (dir ++ tmp) written),
    file_at-erase (dir ++ tmp) q written,
    file_at-insert (dir ++ tmp) q (file content) fs,
  )

  replace_or_unlink-keeps :
      (q : Text) (x : Error)
      → text_eq (dir ++ tmp) q ≡ false
      → (replace_or_unlink dir tmp name content written).0 ≡ err x
      → file_at (replace_or_unlink dir tmp name content written).1 q ≡ file_at fs q
  unfolding replace_or_unlink content_of
  replace_or_unlink-keeps q x other e =
      ground (
        arith,
        file_at-erase (dir ++ tmp) q written,
        file_at-insert (dir ++ tmp) q (file content) fs,
      )

  write_file-AllOrNothing :
      (fault : Fault)
      → AllOrNothing fault
          (dir ++ tmp)
          (dir ++ name)
          content
          fs
          (write_file fault dir tmp name content fs)
  unfolding write_file
  write_file-AllOrNothing open_fails = record {
    replaced = false;
    files = λ q other. refl;
    returned = λ e. ground arith;
    raised = λ x e r. ground arith;
  }
  write_file-AllOrNothing write_fails = record {
    replaced = false;
    files = λ q other. ground (
      arith,
      file_at-erase (dir ++ tmp) q written,
      file_at-insert (dir ++ tmp) q (file content) fs,
    );
    returned = λ e. ground arith;
    raised = λ x e r. ground arith;
  }
  write_file-AllOrNothing (write_fails_and_unlink part) = record {
    replaced = false;
    files = λ q other. ground (arith, file_at-insert (dir ++ tmp) q (file part) fs);
    returned = λ e. ground arith;
    raised = λ x e r. ground arith;
  }
  write_file-AllOrNothing fsync_dir_fails =
      elim (Result-cases (replace_or_unlink dir tmp name content written).0) [
        | inl (_, e) ↦ record {
          replaced = true;
          files = λ q other. ground (arith, replace_or_unlink-replaces q other e);
          returned = λ e'. refl;
          raised = λ x e' r. refl;
        }
        | inr (y, e) ↦ record {
          replaced = false;
          files = λ q other. ground (arith, replace_or_unlink-keeps q y other e);
          returned = λ e'. ground arith;
          raised = λ x e' r. refl;
        }
      ]
  write_file-AllOrNothing no_fault =
      elim (Result-cases (replace_or_unlink dir tmp name content written).0) [
        | inl (_, e) ↦ record {
          replaced = true;
          files = λ q other. ground (arith, replace_or_unlink-replaces q other e);
          returned = λ e'. refl;
          raised = λ x e' r. ground arith;
        }
        | inr (y, e) ↦ record {
          replaced = false;
          files = λ q other. ground (arith, replace_or_unlink-keeps q y other e);
          returned = λ e'. ground arith;
          raised = λ x e' r. ground arith;
        }
      ]

refused :
    (fault : Fault) (tmp path : Text) (content : Content) (fs : Tree) (x : Error)
    → AllOrNothing fault tmp path content fs (err x, fs)
refused fault tmp path content fs x = record {
  replaced = false;
  files = λ q other. refl;
  returned = λ e. ground arith;
  raised = λ y e r. ground arith;
}

-- A write at any of whose calls the system may fail: if it returns, the file has the content, and all files
-- but its temporary one are as they were. If it raises, either all files but its temporary one are as they
-- were, or the file has the whole content and all others but the temporary one are as they were; the
-- latter only if the directory could not be synchronised behind `os.replace`.
pub write_bytes_atomic-AllOrNothing :
    (process : Process) (dir name : Text) (content : Content) (fs : Tree)
    → AllOrNothing
        (process.fault (dir ++ name) fs)
        (dir ++ tmp_name process.pid name)
        (dir ++ name)
        content
        fs
        (write_bytes_atomic process dir name content fs)
unfolding write_bytes_atomic
write_bytes_atomic-AllOrNothing process dir name content fs =
    let tmp = tmp_name process.pid name in
    elim (Result-cases (check_name tmp fs).0) [
      | inr (x, e) ↦
          let whole : check_name tmp fs ≡ (err x, fs) = ground (arith, check_name-Reads tmp fs) in
          rw whole (refused _ _ _ content fs x)
      | inl (_, e) ↦
          let whole : check_name tmp fs ≡ (ok tt, fs) = ground (arith, check_name-Reads tmp fs) in
          elim (Bool-cases (contains (dir ++ tmp) fs)) [
            | inl stale ↦ rw (whole, stale) (refused _ _ _ content fs _)
            | inr fresh ↦
                rw (whole, fresh)
                  (write_file-AllOrNothing dir tmp name content fs (process.fault (dir ++ name) fs))
          ]
    ]
