-- ===== src/FileStore/Trees.antt =====
-- testbench/filestore.py: what each method does to a tree that shows the live objects of a bucket.
use storage_testbench.Base.{
  ℕ, true, false, Option, none, some, [], ◌∷◌, ◌++◌, ◌≡◌, refl, ap, ◌∙◌, arith, Text, codes,
  starts_with, text_eq, text_eq_iff, length, lookup, if◌then◌else◌, Option-cases, inl, inr,
}
use storage_testbench.Errors.{ok}
use storage_testbench.Database.State.{Blob, Bucket}
use storage_testbench.Pathing.{classify, has_char, overflow_token}
use storage_testbench.Uploads.Resumable.Ranges.{decimal}
use storage_testbench.FileStore.{media, bucket_sidecar, folder_envelope, Tree, directory, file}
use storage_testbench.FileStore.Disk.{Process, file_at}
use storage_testbench.FileStore.Methods.{
  meta_of, dest_parts, insert_bucket_files, update_bucket_files, insert_object_files,
  update_object_files, delete_object_files, soft_delete_object_files, purge_object_files,
  write_folder_files, remove_folder_files, delete_staging,
}
use storage_testbench.FileStore.Effects.{prefix_of, remove_tree-changes}
use storage_testbench.FileStore.Outcomes.{
  path_to, insert_object_files-changes, insert_object_files-name, update_object_files-changes,
  delete_object_files-changes, insert_bucket_files-changes, walk_write-changes, walk_unlink-changes,
}
use storage_testbench.FileStore.SoftDeletion.{soft_delete_object_files-changes}
use storage_testbench.FileStore.Places.{live_path, parts_of-path, is_internal}
use storage_testbench.FileStore.Shown.{Shows, Shows-insert, Shows-update, Shows-remove}
use storage_testbench.FileStore.Internal.{
  soft_meta, soft_media, folder_path, staging_path, is_internal-soft, is_internal-folder,
  is_internal-staging, fits-soft_meta, fits-soft_media, fits-folder, fits-bucket, Shows-write,
  Shows-unlink, Shows-remove_tree,
}

bucket_inside : is_internal (codes ".gcs/bucket.json") ≡ true
unfolding is_internal starts_with
bucket_inside = refl

module _ (sha256_hex : Text → Text) where
  -- The path of the parts is the place of the live object.
  path_to-dest_parts :
      (name : Text)
      → path_to (dest_parts sha256_hex name).0 (dest_parts sha256_hex name).1
        ≡ live_path sha256_hex name
  unfolding dest_parts live_path
  path_to-dest_parts name = parts_of-path (classify sha256_hex name)

  module _ (no_dot : (name : Text) → has_char 46 (sha256_hex name) ≡ false) (process : Process)
      (fs : Tree) (L L' : Text → Option Blob) (shown : Shows sha256_hex (file_at fs) L) where
    pub Shows-insert_object_files :
        (o : Blob)
        → o.size ≡ length o.media
        → ((n : Text) → L' n ≡ (if text_eq o.name n then some o else L n))
        → (insert_object_files process (dest_parts sha256_hex o.name) o fs).0 ≡ ok tt
        → Shows sha256_hex
            (file_at (insert_object_files process (dest_parts sha256_hex o.name) o fs).1)
            L'
    Shows-insert_object_files o sized change e =
        let (parts, base) = dest_parts sha256_hex o.name in
        Shows-insert sha256_hex no_dot (file_at fs) _ L L' o shown sized
          (λ c there.
            insert_object_files-name parts base process o fs c e
              (ap (λ p. file_at fs (meta_of p)) (path_to-dest_parts o.name) ∙ there))
          (λ q. ground (
            arith,
            insert_object_files-changes parts base process o fs q e,
            path_to-dest_parts o.name,
          ))
          change

    pub Shows-update_object_files :
        (o old : Blob)
        → L o.name ≡ some old
        → o.media ≡ old.media
        → o.size ≡ length o.media
        → ((n : Text) → L' n ≡ (if text_eq o.name n then some o else L n))
        → (update_object_files process (dest_parts sha256_hex o.name) o fs).0 ≡ ok tt
        → Shows sha256_hex
            (file_at (update_object_files process (dest_parts sha256_hex o.name) o fs).1)
            L'
    Shows-update_object_files o old there same sized change e =
        let (parts, base) = dest_parts sha256_hex o.name in
        Shows-update sha256_hex no_dot (file_at fs) _ L L' o old shown there same sized
          (λ q. ground (
            arith,
            update_object_files-changes parts base process o fs q e,
            path_to-dest_parts o.name,
          ))
          change

    pub Shows-delete_object_files :
        (name : Text) (old : Blob)
        → L name ≡ some old
        → ((n : Text) → L' n ≡ (if text_eq name n then none else L n))
        → (delete_object_files (dest_parts sha256_hex name) fs).0 ≡ ok tt
        → Shows sha256_hex (file_at (delete_object_files (dest_parts sha256_hex name) fs).1) L'
    Shows-delete_object_files name old there change e =
        let (parts, base) = dest_parts sha256_hex name in
        Shows-remove sha256_hex no_dot (file_at fs) _ L L' name old shown there
          (λ q _.
            ground (arith, delete_object_files-changes parts base fs q e, path_to-dest_parts name))
          (λ p c inside at.
            ground (arith, delete_object_files-changes parts base fs p e, shown.fitting p c))
          change

    pub Shows-soft_delete_object_files :
        (o old : Blob)
        → L o.name ≡ some old
        → ((n : Text) → L' n ≡ (if text_eq o.name n then none else L n))
        → (soft_delete_object_files process (dest_parts sha256_hex o.name) o fs).0 ≡ ok tt
        → Shows sha256_hex
            (file_at (soft_delete_object_files process (dest_parts sha256_hex o.name) o fs).1)
            L'
    Shows-soft_delete_object_files o old there change e =
        let (parts, base) = dest_parts sha256_hex o.name in
        let at_path : file_at fs (path_to parts base) ≡ some (media old.media) =
          ap (file_at fs) (path_to-dest_parts o.name) ∙ shown.bytes o.name old there in
        let g = o.generation in
        Shows-remove sha256_hex no_dot (file_at fs) _ L L' o.name old shown there
          (λ q outside. ground (
            arith,
            soft_delete_object_files-changes process parts base o (media old.media) q fs at_path e,
            path_to-dest_parts o.name,
            text_eq_iff (soft_meta g) q,
            text_eq_iff (soft_media g) q,
            is_internal-soft g (codes "meta.gcsmeta"),
            is_internal-soft g (codes "media"),
          ))
          (λ p c inside at. ground (
            arith,
            soft_delete_object_files-changes process parts base o (media old.media) p fs at_path e,
            text_eq_iff (soft_meta g) p,
            text_eq_iff (soft_media g) p,
            fits-soft_meta sha256_hex g o.name (record o { media = [] }),
            fits-soft_media sha256_hex g c,
            shown.fitting p c,
          ))
          change

    pub Shows-insert_bucket_files :
        (b : Bucket) (short : Text)
        → (insert_bucket_files process b short fs).0 ≡ ok tt
        → Shows sha256_hex (file_at (insert_bucket_files process b short fs).1) L
    Shows-insert_bucket_files b short e =
        Shows-write sha256_hex no_dot (file_at fs) _ L (codes ".gcs/bucket.json")
          (bucket_sidecar short b) shown bucket_inside
          (fits-bucket sha256_hex (bucket_sidecar short b))
          (λ q. insert_bucket_files-changes process b short fs q e)

    pub Shows-update_bucket_files :
        (b : Bucket) (short : Text)
        → (update_bucket_files process b short fs).0 ≡ ok tt
        → Shows sha256_hex (file_at (update_bucket_files process b short fs).1) L
    unfolding update_bucket_files prefix_of
    Shows-update_bucket_files b short e =
        Shows-write sha256_hex no_dot (file_at fs) _ L (codes ".gcs/bucket.json")
          (bucket_sidecar short b) shown bucket_inside
          (fits-bucket sha256_hex (bucket_sidecar short b))
          (λ q.
            walk_write-changes true (codes ".gcs" ∷ []) process (codes "bucket.json")
              (bucket_sidecar short b) fs q e)

    pub Shows-write_folder_files :
        (name : Text)
        → (write_folder_files sha256_hex process name fs).0 ≡ ok tt
        → Shows sha256_hex (file_at (write_folder_files sha256_hex process name fs).1) L
    unfolding write_folder_files prefix_of
    Shows-write_folder_files name e =
        let token = overflow_token sha256_hex name in
        Shows-write sha256_hex no_dot (file_at fs) _ L (folder_path token) (folder_envelope name)
          shown (is_internal-folder token) (fits-folder sha256_hex token name)
          (λ q.
            walk_write-changes true (codes ".gcs" ∷ codes "folders" ∷ []) process
              (token ++ codes ".json") (folder_envelope name) fs q e)

    pub Shows-remove_folder_files :
        (name : Text)
        → (remove_folder_files sha256_hex name fs).0 ≡ ok tt
        → Shows sha256_hex (file_at (remove_folder_files sha256_hex name fs).1) L
    unfolding remove_folder_files prefix_of
    Shows-remove_folder_files name e =
        let token = overflow_token sha256_hex name in
        Shows-unlink sha256_hex no_dot (file_at fs) _ L (folder_path token) shown
          (is_internal-folder token)
          (λ q.
            walk_unlink-changes false (codes ".gcs" ∷ codes "folders" ∷ []) (token ++ codes ".json")
              fs q e)

    pub Shows-delete_staging :
        (name : Text)
        → (delete_staging name fs).0 ≡ ok tt
        → Shows sha256_hex (file_at (delete_staging name fs).1) L
    unfolding delete_staging prefix_of
    Shows-delete_staging name e =
        Shows-unlink sha256_hex no_dot (file_at fs) _ L (staging_path name) shown
          (is_internal-staging name)
          (λ q. walk_unlink-changes true (codes ".gcs" ∷ codes "uploads" ∷ []) name fs q e)

    pub Shows-purge_object_files :
        (g : ℕ) → Shows sha256_hex (file_at (purge_object_files g fs).1) L
    unfolding purge_object_files
    Shows-purge_object_files g = elim (Option-cases (lookup root fs)) [
      | inl e ↦ rw (purge_object_files, e) shown
      | inr (directory, e) ↦
          rw (purge_object_files, e)
            (Shows-remove_tree sha256_hex no_dot (file_at fs) _ L g shown
              (λ q. remove_tree-changes root q fs))
      | inr (file c, e) ↦ rw (purge_object_files, e) shown
    ]
      where
        root : Text
        root = codes ".gcs/soft_deleted/" ++ decimal g
