-- ===== src/FileStore/Mirrored.antt =====
-- testbench/filestore.py: the disk behind any sequence of current notifications.
use storage_testbench.Base.{
  ℕ, Bool, true, false, ◌&&◌, ==_iff, none, some, List, [], ◌∷◌, ◌≡◌, refl, arith, Text,
  text_eq_iff, length, insert, erase, lookup, Option-cases, inl, inr,
}
use storage_testbench.Errors.{ok, bind_ok}
use storage_testbench.Database.State.{
  Event, bucket_inserted, bucket_deleted, bucket_updated, object_inserted, object_deleted,
  object_updated, object_soft_deleted, object_purged, folder_inserted, folder_deleted,
  folder_renamed, upload_deleted, rewrite_deleted, cleared,
}
use storage_testbench.Database.Mirror.{Index, apply, replay}
use storage_testbench.Pathing.{has_char}
use storage_testbench.FileStore.Disk.{Process}
use storage_testbench.FileStore.{Disk}
use storage_testbench.FileStore.Methods.{
  bucket_name_from_proto, in_bucket, dest_parts, purge_object, insert_bucket_files,
  update_bucket_files, insert_object_files, update_object_files, delete_object_files,
  soft_delete_object_files, purge_object_files, write_folder_files, remove_folder_files,
  delete_staging, folder_bucket_short, step, run,
}
use storage_testbench.FileStore.Current.{
  live_object, is_current, live-inserted, live-updated, live-dropped, live-bucket_inserted,
  live-other,
}
use storage_testbench.FileStore.Trees.{
  Shows-insert_object_files, Shows-update_object_files, Shows-delete_object_files,
  Shows-soft_delete_object_files, Shows-insert_bucket_files, Shows-update_bucket_files,
  Shows-write_folder_files, Shows-remove_folder_files, Shows-delete_staging,
  Shows-purge_object_files,
}
use storage_testbench.FileStore.Steps.{
  OnDisk, OnDisk-internal, OnDisk-object, OnDisk-remove, OnDisk-empty,
}

-- Each notification is current when it is sent; the latest is the first.
unfoldable pub are_current : List Event → Bool
are_current [] = true
are_current (e ∷ es) = is_current e (replay es) && are_current es

module _ (sha256_hex : Text → Text) (no_dot : (name : Text) → has_char 46 (sha256_hex name) ≡ false)
    (process : Process) where
  purge_object-OnDisk :
      (short : Text) (g : ℕ) (x : Index) (disk : Disk)
      → OnDisk sha256_hex x disk
      → (purge_object short g disk).0 ≡ ok tt
      → OnDisk sha256_hex x (purge_object short g disk).1
  unfolding purge_object
  purge_object-OnDisk short g x disk on e = elim (Option-cases (lookup short disk)) [
    | inl gone ↦ rw (purge_object, gone) on
    | inr (fs, there) ↦
        rw (purge_object, there)
          (OnDisk-internal sha256_hex no_dot x x disk on false short (purge_object_files g)
            (ground arith) (λ bk n. refl)
            (λ fs' L _ shown. Shows-purge_object_files sha256_hex no_dot process fs' L L shown g))
  ]

  step-OnDisk :
      (ev : Event) (x : Index) (disk : Disk)
      → OnDisk sha256_hex x disk
      → is_current ev x ≡ true
      → (step sha256_hex process ev disk).0 ≡ ok tt
      → OnDisk sha256_hex (apply ev x) (step sha256_hex process ev disk).1
  unfolding step is_current apply
  step-OnDisk (bucket_inserted b) x disk on cur e =
      OnDisk-internal sha256_hex no_dot x _ disk on true short (insert_bucket_files process b short)
        e (λ bk n. live-bucket_inserted x bk b.name n b (ground arith))
        (λ fs L e' shown.
          Shows-insert_bucket_files sha256_hex no_dot process fs L L shown b short e')
    where
      short : Text
      short = bucket_name_from_proto b.name
  step-OnDisk (bucket_deleted i) x disk on cur e = OnDisk-remove sha256_hex no_dot x disk i on cur
  step-OnDisk (bucket_updated b) x disk on cur e =
      OnDisk-internal sha256_hex no_dot x _ disk on false short
        (update_bucket_files process b short) e
        (λ bk n. live-other x bk bk n (insert b.name b x.buckets) x.folders)
        (λ fs L e' shown.
          Shows-update_bucket_files sha256_hex no_dot process fs L L shown b short e')
    where
      short : Text
      short = bucket_name_from_proto b.name
  step-OnDisk (object_inserted i o) x disk on cur e =
      OnDisk-object sha256_hex no_dot x _ disk on i o.name (ground arith) (some o)
        (λ bk n. live-inserted x bk i n o (ground arith) (ground arith))
        (insert_object_files process (dest_parts sha256_hex o.name) o) e
        (λ fs e' shown change.
          Shows-insert_object_files sha256_hex no_dot process fs _ _ shown o
            (ground (arith, ==_iff o.size (length o.media))) change e')
  step-OnDisk (object_deleted i n g) x disk on cur e = elim (Option-cases (live_object i n x)) [
    | inl gone ↦ ground arith
    | inr (old, there) ↦
        OnDisk-object sha256_hex no_dot x _ disk on i n (ground arith) none
          (λ bk m. live-dropped x bk i m n g (ground arith))
          (delete_object_files (dest_parts sha256_hex n)) e
          (λ fs e' shown change.
            Shows-delete_object_files sha256_hex no_dot process fs _ _ shown n old there change e')
  ]
  step-OnDisk (object_updated i o) x disk on cur e = elim (Option-cases (live_object i o.name x)) [
    | inl gone ↦ ground arith
    | inr (old, there) ↦
        OnDisk-object sha256_hex no_dot x _ disk on i o.name (ground arith) (some o)
          (λ bk m. live-updated x bk i m o (ground arith) (ground arith))
          (update_object_files process (dest_parts sha256_hex o.name) o) e
          (λ fs e' shown change.
            Shows-update_object_files sha256_hex no_dot process fs _ _ shown o old there
              (ground (arith, text_eq_iff o.media old.media))
              (ground (arith, ==_iff o.size (length o.media))) change e')
  ]
  step-OnDisk (object_soft_deleted i o h) x disk on cur e =
      elim (Option-cases (live_object i o.name x)) [
        | inl gone ↦ ground arith
        | inr (old, there) ↦
            OnDisk-object sha256_hex no_dot x _ disk on i o.name (ground arith) none
              (λ bk m. live-dropped x bk i m o.name o.generation (ground arith))
              (soft_delete_object_files process (dest_parts sha256_hex o.name) o) e
              (λ fs e' shown change.
                Shows-soft_delete_object_files sha256_hex no_dot process fs _ _ shown o old there
                  change e')
      ]
  step-OnDisk (object_purged i n g) x disk on cur e =
      purge_object-OnDisk (bucket_name_from_proto i) g x disk on e
  step-OnDisk (folder_inserted n f) x disk on cur e =
      OnDisk-internal sha256_hex no_dot x _ disk on false (folder_bucket_short n)
        (write_folder_files sha256_hex process n) e
        (λ bk m. live-other x bk bk m x.buckets (insert n f x.folders))
        (λ fs L e' shown. Shows-write_folder_files sha256_hex no_dot process fs L L shown n e')
  step-OnDisk (folder_deleted n) x disk on cur e =
      OnDisk-internal sha256_hex no_dot x _ disk on false (folder_bucket_short n)
        (remove_folder_files sha256_hex n) e
        (λ bk m. live-other x bk bk m x.buckets (erase n x.folders))
        (λ fs L e' shown. Shows-remove_folder_files sha256_hex no_dot process fs L L shown n e')
  step-OnDisk (folder_renamed src dst f) x disk on cur e =
      bind_ok (OnDisk sha256_hex (apply (folder_renamed src dst f) x))
        (in_bucket false short (remove_folder_files sha256_hex src))
        (λ _. in_bucket false short (write_folder_files sha256_hex process dst)) disk
        (λ _ removed written.
          OnDisk-internal sha256_hex no_dot x _
            (in_bucket false short (remove_folder_files sha256_hex src) disk).1
            (OnDisk-internal sha256_hex no_dot x x disk on false short
              (remove_folder_files sha256_hex src) removed (λ bk m. refl)
              (λ fs L e' shown.
                Shows-remove_folder_files sha256_hex no_dot process fs L L shown src e'))
            false short (write_folder_files sha256_hex process dst) written
            (λ bk m. live-other x bk bk m x.buckets (insert dst f (erase src x.folders)))
            (λ fs L e' shown.
              Shows-write_folder_files sha256_hex no_dot process fs L L shown dst e'))
        e
    where
      short : Text
      short = folder_bucket_short src
  step-OnDisk (upload_deleted i u) x disk on cur e =
      OnDisk-internal sha256_hex no_dot x _ disk on false (bucket_name_from_proto i)
        (delete_staging u) e (λ bk m. refl)
        (λ fs L e' shown. Shows-delete_staging sha256_hex no_dot process fs L L shown u e')
  step-OnDisk (rewrite_deleted i u) x disk on cur e =
      OnDisk-internal sha256_hex no_dot x _ disk on false (bucket_name_from_proto i)
        (delete_staging u) e (λ bk m. refl)
        (λ fs L e' shown. Shows-delete_staging sha256_hex no_dot process fs L L shown u e')
  step-OnDisk cleared x disk on cur e = OnDisk-empty sha256_hex no_dot

  pub run-OnDisk :
      (es : List Event)
      → are_current es ≡ true
      → (run sha256_hex process es []).0 ≡ ok tt
      → OnDisk sha256_hex (replay es) (run sha256_hex process es []).1
  unfolding run replay are_current
  run-OnDisk [] cur e = OnDisk-empty sha256_hex no_dot
  run-OnDisk (ev ∷ es) cur e =
      bind_ok (OnDisk sha256_hex (apply ev (replay es))) (run sha256_hex process es)
        (λ _. step sha256_hex process ev) []
        (λ _ ran stepped.
          step-OnDisk ev (replay es) (run sha256_hex process es []).1
            (run-OnDisk es (ground arith) ran) (ground arith) stepped)
        e
