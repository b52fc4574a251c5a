-- ===== src/FileStore/Outcomes.antt =====
-- testbench/filestore.py: the files of a tree behind each method that returns.
use storage_testbench.Base.{
  Bool, true, false, none, some, List, [], ◌∷◌, ◌++◌, ◌≡◌, refl, sym, ap, ◌∙◌, arith, Text, codes,
  text_eq, text_eq_iff, if◌then◌else◌, inl, inr,
}
use mathlib.Core.List.{append_assoc}
use storage_testbench.Errors.{ok, ◌>>=◌, ◌>>◌, Reads, Result-cases, bind_ok, bind_state}
use storage_testbench.Database.State.{Blob, Bucket}
use storage_testbench.FileStore.{Content, media, bucket_sidecar, Tree}
use storage_testbench.FileStore.Disk.{
  Process, Action, walk_dirs, make_dir, write_bytes_atomic, unlink_quiet, file_at,
}
use storage_testbench.FileStore.Methods.{
  dump, meta_of, load_name, guard_collision, insert_object_files, update_object_files,
  delete_object_files, make_dirs, insert_bucket_files,
}
use storage_testbench.FileStore.Effects.{
  prefix_of, walk_dirs-keeps, walk_dirs-result, write_bytes_atomic-changes, unlink_quiet-changes,
  make_dir-keeps,
}

guard_collision-Reads : (dir base object_name : Text) → Reads (guard_collision dir base object_name)
unfolding guard_collision
guard_collision-Reads dir base object_name fs = ground arith

-- What is in the way of an object that is written has its name.
guard_collision-name :
    (dir base object_name : Text) (fs : Tree) (c : Content)
    → (guard_collision dir base object_name fs).0 ≡ ok tt
    → file_at fs (dir ++ meta_of base) ≡ some c
    → load_name c ≡ ok object_name
unfolding guard_collision file_at
guard_collision-name dir base object_name fs c e there = elim (Result-cases (load_name c)) [
  | inl (name, loaded) ↦ ground (arith, text_eq_iff name object_name)
  | inr (x, raised) ↦ ground arith
]

-- A directory is opened, and a file in it is written, or deleted.
module _ (create : Bool) (parts : List Text) where
  pub walk_write-changes :
      (process : Process) (name : Text) (content : Content) (fs : Tree) (q : Text)
      → ((walk_dirs create [] parts >>= λ dir. write_bytes_atomic process dir name content) fs).0
        ≡ ok tt
      → file_at
          ((walk_dirs create [] parts >>= λ dir. write_bytes_atomic process dir name content) fs).1
          q
        ≡ (if text_eq (prefix_of parts ++ name) q then some content else file_at fs q)
  walk_write-changes process name content fs q e =
      bind_ok
        (λ s.
          file_at s q
          ≡ (if text_eq (prefix_of parts ++ name) q then some content else file_at fs q))
        (walk_dirs create [] parts) (λ dir. write_bytes_atomic process dir name content) fs
        (λ dir walked written. ground (
          arith,
          walk_dirs-keeps create parts [] fs q,
          walk_dirs-result create parts [] fs dir walked,
          write_bytes_atomic-changes process dir name content (walk_dirs create [] parts fs).1 q
              written,
        ))
        e

  pub walk_unlink-changes :
      (name : Text) (fs : Tree) (q : Text)
      → ((walk_dirs create [] parts >>= λ dir. unlink_quiet dir name) fs).0 ≡ ok tt
      → file_at ((walk_dirs create [] parts >>= λ dir. unlink_quiet dir name) fs).1 q
        ≡ (if text_eq (prefix_of parts ++ name) q then none else file_at fs q)
  walk_unlink-changes name fs q e =
      bind_ok
        (λ s. file_at s q ≡ (if text_eq (prefix_of parts ++ name) q then none else file_at fs q))
        (walk_dirs create [] parts) (λ dir. unlink_quiet dir name) fs
        (λ dir walked unlinked. ground (
          arith,
          walk_dirs-keeps create parts [] fs q,
          walk_dirs-result create parts [] fs dir walked,
          unlink_quiet-changes dir name (walk_dirs create [] parts fs).1 q unlinked,
        ))
        e

module _ (parts : List Text) (base : Text) where
  -- The path that the directories and the name give
  abbrev pub path_to : Text
  path_to = prefix_of parts ++ base

  -- The paths of the two files, from the directory that `walk_dirs` opens
  pub walked-base :
      (create : Bool) (fs : Tree) (d : Text)
      → (walk_dirs create [] parts fs).0 ≡ ok d
      → d ++ base ≡ path_to
  walked-base create fs d e = ap (λ r. r ++ base) (walk_dirs-result create parts [] fs d e)

  pub walked-meta :
      (create : Bool) (fs : Tree) (d : Text)
      → (walk_dirs create [] parts fs).0 ≡ ok d
      → d ++ meta_of base ≡ meta_of path_to
  walked-meta create fs d e =
      sym (append_assoc d base (codes ".gcsmeta")) ∙ ap (λ r. meta_of r) (walked-base create fs d e)

  pub update_object_files-changes :
      (process : Process) (blob : Blob) (fs : Tree) (q : Text)
      → (update_object_files process (parts, base) blob fs).0 ≡ ok tt
      → file_at (update_object_files process (parts, base) blob fs).1 q
        ≡ (if text_eq (meta_of path_to) q then some (dump blob blob.name) else file_at fs q)
  unfolding update_object_files
  update_object_files-changes process blob fs q e = ground (
    arith,
    walk_write-changes false parts process (meta_of base) (dump blob blob.name) fs q e,
    append_assoc (prefix_of parts) base (codes ".gcsmeta"),
  )

  pub delete_object_files-changes :
      (fs : Tree) (q : Text)
      → (delete_object_files (parts, base) fs).0 ≡ ok tt
      → file_at (delete_object_files (parts, base) fs).1 q ≡ (
          if text_eq (meta_of path_to) q
          then none
          else if text_eq path_to q
          then none
          else file_at fs q)
  unfolding delete_object_files
  delete_object_files-changes fs q e =
      let opened : Tree = (walk_dirs false [] parts fs).1 in
      bind_ok
        (λ s. file_at s q ≡ (
          if text_eq (meta_of path_to) q
          then none
          else if text_eq path_to q
          then none
          else file_at fs q))
        (walk_dirs false [] parts) (λ dir. unlink_quiet dir base >> unlink_quiet dir (meta_of base))
        fs
        (λ dir walked entered.
          bind_ok
            (λ s. file_at s q ≡ (
              if text_eq (meta_of path_to) q
              then none
              else if text_eq path_to q
              then none
              else file_at fs q))
            (unlink_quiet dir base) (λ _. unlink_quiet dir (meta_of base)) opened
            (λ _ unlinked again. ground (
              arith,
              walk_dirs-keeps false parts [] fs q,
              walked-base false fs dir walked,
              walked-meta false fs dir walked,
              unlink_quiet-changes dir base opened q unlinked,
              unlink_quiet-changes dir (meta_of base) (unlink_quiet dir base opened).1 q again,
            ))
            entered)
        e

  -- What the guard leaves behind in the files, when all writes return
  pub insert_object_files-changes :
      (process : Process) (blob : Blob) (fs : Tree) (q : Text)
      → (insert_object_files process (parts, base) blob fs).0 ≡ ok tt
      → file_at (insert_object_files process (parts, base) blob fs).1 q ≡ (
          if text_eq (meta_of path_to) q
          then some (dump blob blob.name)
          else if text_eq path_to q
          then some (media blob.media)
          else file_at fs q)
  unfolding insert_object_files
  insert_object_files-changes process blob fs q e =
      bind_ok P (walk_dirs true [] parts) (λ dir. guard dir >> (write dir >> write_meta dir)) fs
        (λ dir walked entered.
          bind_ok P (guard dir) (λ _. write dir >> write_meta dir) (opened fs)
            (λ _ guarded passed.
              bind_ok P (write dir) (λ _. write_meta dir) (guard dir (opened fs)).1
                (λ _ written again. ground (
                  arith,
                  walk_dirs-keeps true parts [] fs q,
                  walked-base true fs dir walked,
                  walked-meta true fs dir walked,
                  guard_collision-Reads dir base blob.name (opened fs),
                  write_bytes_atomic-changes process dir base (media blob.media)
                      (guard dir (opened fs)).1 q written,
                  write_bytes_atomic-changes process dir (meta_of base) (dump blob blob.name)
                      (write dir (guard dir (opened fs)).1).1 q again,
                ))
                passed)
            entered)
        e
    where
      P : Tree → Type 0
      P s = file_at s q ≡ (
          if text_eq (meta_of path_to) q
          then some (dump blob blob.name)
          else if text_eq path_to q
          then some (media blob.media)
          else file_at fs q)

      opened : Tree → Tree
      opened s = (walk_dirs true [] parts s).1

      guard : Text → Action Unit
      guard dir = guard_collision dir base blob.name

      write : Text → Action Unit
      write dir = write_bytes_atomic process dir base (media blob.media)

      write_meta : Text → Action Unit
      write_meta dir = write_bytes_atomic process dir (meta_of base) (dump blob blob.name)

  pub insert_object_files-name :
      (process : Process) (blob : Blob) (fs : Tree) (c : Content)
      → (insert_object_files process (parts, base) blob fs).0 ≡ ok tt
      → file_at fs (meta_of path_to) ≡ some c
      → load_name c ≡ ok blob.name
  unfolding insert_object_files
  insert_object_files-name process blob fs c e there =
      bind_ok (λ s. load_name c ≡ ok blob.name) (walk_dirs true [] parts)
        (λ dir. guard_collision dir base blob.name >>= λ _.
          write_bytes_atomic process dir base (media blob.media) >>= λ _.
          write_bytes_atomic process dir (meta_of base) (dump blob blob.name))
        fs
        (λ dir walked entered.
          elim (Result-cases
            (guard_collision dir base blob.name (walk_dirs true [] parts fs).1).0) [
              | inl (u, guarded) ↦
                  guard_collision-name dir base blob.name (walk_dirs true [] parts fs).1 c guarded (
                    walk_dirs-keeps true parts [] fs (dir ++ meta_of base)
                    ∙ ap (file_at fs) (walked-meta true fs dir walked)
                    ∙ there)
              | inr (x, raised) ↦ ground arith
            ])
        e

make_dirs-keeps :
    (dir : Text) (subs : List Text) (fs : Tree) (q : Text)
    → file_at (make_dirs dir subs fs).1 q ≡ file_at fs q
unfolding make_dirs
make_dirs-keeps dir [] fs q = refl
make_dirs-keeps dir (sub ∷ subs) fs q =
    bind_state (λ s. file_at s q ≡ file_at fs q) (make_dir dir sub) (λ _. make_dirs dir subs) fs
      (make_dir-keeps dir sub fs q)
      (λ _ e. make_dirs-keeps dir subs (make_dir dir sub fs).1 q ∙ make_dir-keeps dir sub fs q)

pub insert_bucket_files-changes :
    (process : Process) (bucket : Bucket) (short : Text) (fs : Tree) (q : Text)
    → (insert_bucket_files process bucket short fs).0 ≡ ok tt
    → file_at (insert_bucket_files process bucket short fs).1 q ≡ (
        if text_eq (codes ".gcs/bucket.json") q
        then some (bucket_sidecar short bucket)
        else file_at fs q)
unfolding insert_bucket_files prefix_of
insert_bucket_files-changes process bucket short fs q e =
    bind_ok P (walk_dirs true [] (codes ".gcs" ∷ [])) (λ dir. make_dirs dir subs >> write dir) fs
      (λ dir walked entered.
        bind_ok P (make_dirs dir subs) (λ _. write dir) opened
          (λ _ made written. ground (
            arith,
            walk_dirs-keeps true (codes ".gcs" ∷ []) [] fs q,
            walk_dirs-result true (codes ".gcs" ∷ []) [] fs dir walked,
            make_dirs-keeps dir subs opened q,
            write_bytes_atomic-changes process dir (codes "bucket.json")
                (bucket_sidecar short bucket) (make_dirs dir subs opened).1 q written,
          ))
          entered)
      e
  where
    P : Tree → Type 0
    P s = file_at s q ≡ (
        if text_eq (codes ".gcs/bucket.json") q
        then some (bucket_sidecar short bucket)
        else file_at fs q)

    opened : Tree
    opened = (walk_dirs true [] (codes ".gcs" ∷ []) fs).1

    subs : List Text
    subs =
        codes "generations"
        ∷ codes "soft_deleted"
        ∷ codes "uploads"
        ∷ codes "folders"
        ∷ codes "overflow"
        ∷ []

    write : Text → Action Unit
    write dir = write_bytes_atomic process dir (codes "bucket.json") (bucket_sidecar short bucket)
