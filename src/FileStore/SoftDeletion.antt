-- ===== src/FileStore/SoftDeletion.antt =====
-- `object_soft_deleted` of testbench/filestore.py: the files behind it.
use storage_testbench.Base.{
  ℕ, true, false, Option, none, some, List, [], ◌∷◌, ◌++◌, ◌≡◌, ap, ◌∙◌, arith, Text, codes,
  text_eq, if◌then◌else◌,
}
use storage_testbench.Errors.{ok, ◌>>=◌, ◌>>◌, bind_ok}
use storage_testbench.Database.State.{Blob}
use storage_testbench.Uploads.Resumable.Ranges.{decimal}
use storage_testbench.FileStore.{Content, Tree}
use storage_testbench.FileStore.Disk.{
  Process, Action, walk_dirs, make_dir, open_dir_nofollow, write_bytes_atomic, unlink_quiet,
  move_quiet, file_at,
}
use storage_testbench.FileStore.Methods.{dump, meta_of, soft_delete_object_files}
use storage_testbench.FileStore.Effects.{
  prefix_of, walk_dirs-keeps, walk_dirs-result, write_bytes_atomic-changes, unlink_quiet-changes,
  move_quiet-changes, make_dir-keeps, open_dir_nofollow-Reads, open_dir_nofollow-result,
}
use storage_testbench.FileStore.Outcomes.{path_to, walked-base, walked-meta}

-- The directory of a soft deleted generation
abbrev pub soft_dir : ℕ → Text
soft_dir generation = codes ".gcs/soft_deleted/" ++ decimal generation ++ codes "/"

module _ (process : Process) (parts : List Text) (base : Text) (blob : Blob) (c : Content)
    (q : Text) where
  -- The files behind the method, where the object's media was `c`
  abbrev pub soft_deleted_at : Tree → Option Content
  soft_deleted_at fs =
      if text_eq (meta_of (path_to parts base)) q
      then none
      else if text_eq (soft_dir blob.generation ++ codes "meta.gcsmeta") q
      then some (dump blob blob.name)
      else if text_eq (soft_dir blob.generation ++ codes "media") q
      then some c
      else if text_eq (path_to parts base) q
      then none
      else file_at fs q

  move : Text → Text → Action (Unit {0})
  move dst dir = move_quiet dir base dst (codes "media")

  write : Text → Action (Unit {0})
  write dst = write_bytes_atomic process dst (codes "meta.gcsmeta") (dump blob blob.name)

  unlink : Text → Action (Unit {0})
  unlink dir = unlink_quiet dir (meta_of base)

  -- The files are moved, from the open directory of the object to that of the generation.
  moved :
      (fs : Tree) (dst dir : Text)
      → dst ≡ soft_dir blob.generation
      → dir ++ base ≡ path_to parts base
      → dir ++ meta_of base ≡ meta_of (path_to parts base)
      → file_at fs (path_to parts base) ≡ some c
      → ((move dst dir >> (write dst >> unlink dir)) fs).0 ≡ ok tt
      → file_at ((move dst dir >> (write dst >> unlink dir)) fs).1 q ≡ soft_deleted_at fs
  unfolding move write unlink
  moved fs dst dir at_dst at_base at_meta there e =
      bind_ok (λ s. file_at s q ≡ soft_deleted_at fs) (move dst dir) (λ _. write dst >> unlink dir)
        fs
        (λ _ moved_it e'.
          bind_ok (λ s. file_at s q ≡ soft_deleted_at fs) (write dst) (λ _. unlink dir)
            (move dst dir fs).1
            (λ _ written unlinked. ground (
              arith,
              move_quiet-changes dir base dst (codes "media") c fs q
                  (ap (file_at fs) at_base ∙ there) moved_it,
              write_bytes_atomic-changes process dst (codes "meta.gcsmeta") (dump blob blob.name)
                  (move dst dir fs).1 q written,
              unlink_quiet-changes dir (meta_of base) (write dst (move dst dir fs).1).1 q unlinked,
            ))
            e')
        e

  pub soft_delete_object_files-changes :
      (fs : Tree)
      → file_at fs (path_to parts base) ≡ some c
      → (soft_delete_object_files process (parts, base) blob fs).0 ≡ ok tt
      → file_at (soft_delete_object_files process (parts, base) blob fs).1 q ≡ soft_deleted_at fs
  unfolding soft_delete_object_files prefix_of move write unlink
  soft_delete_object_files-changes fs there e =
      let softs : List Text = codes ".gcs" ∷ codes "soft_deleted" ∷ [] in
      let gen : Text = decimal blob.generation in
      bind_ok P (walk_dirs true [] softs) from_soft fs
        (λ soft walked e1.
          let s1 : Tree = (walk_dirs true [] softs fs).1 in
          bind_ok P (make_dir soft gen) (λ _. from_made soft) s1
            (λ _ made e2.
              let s2 : Tree = (make_dir soft gen s1).1 in
              bind_ok P (open_dir_nofollow soft gen) from_dst s2
                (λ dst opened e3.
                  let s3 : Tree = (open_dir_nofollow soft gen s2).1 in
                  bind_ok P (walk_dirs false [] parts) (from_dir dst) s3
                    (λ dir walked' e4.
                      let s4 : Tree = (walk_dirs false [] parts s3).1 in
                      let same : (p : Text) → file_at s4 p ≡ file_at fs p = λ p.
                        walk_dirs-keeps false parts [] s3 p
                        ∙ ap (λ s. file_at s p) (open_dir_nofollow-Reads soft gen s2)
                        ∙ make_dir-keeps soft gen s1 p
                        ∙ walk_dirs-keeps true softs [] fs p in
                      let at_dst : dst ≡ soft_dir blob.generation =
                        open_dir_nofollow-result soft gen s2 dst opened
                        ∙ ap (λ d. d ++ gen ++ codes "/")
                            (walk_dirs-result true softs [] fs soft walked) in
                      ground (
                        arith,
                        same q,
                        moved s4 dst dir at_dst (walked-base parts base false s3 dir walked')
                            (walked-meta parts base false s3 dir walked')
                            (same (path_to parts base) ∙ there) e4,
                      ))
                    e3)
                e2)
            e1)
        e
    where
      P : Tree → Type 0
      P s = file_at s q ≡ soft_deleted_at fs

      from_dir : Text → Text → Action (Unit {0})
      from_dir dst dir = move dst dir >> (write dst >> unlink dir)

      from_dst : Text → Action (Unit {0})
      from_dst dst = walk_dirs false [] parts >>= from_dir dst

      from_made : Text → Action (Unit {0})
      from_made soft = open_dir_nofollow soft (decimal blob.generation) >>= from_dst

      from_soft : Text → Action (Unit {0})
      from_soft soft = make_dir soft (decimal blob.generation) >>= λ _. from_made soft
