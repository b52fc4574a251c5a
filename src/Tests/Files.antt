-- ===== src/Tests/Files.antt =====
-- The theorems on the file backend at a concrete input.
use storage_testbench.Base.{
  ℕ, ◌+◌, ◌%◌, true, false, some, List, [], ◌∷◌, ◌≡◌, refl, ap, ◌∙◌, Text, codes, text_eq, arith,
  map, drop, lookup, insert, erase, alter, starts_with,
}
use storage_testbench.Errors.{rest, ok, err, py, os_error}
use storage_testbench.Database.State.{
  Database, Event, bucket_inserted, object_inserted, object_soft_deleted, init,
}
use storage_testbench.Database.Requests.{
  Request, create_bucket, create_object, remove_object, KeepsNames, EachKeepsNames, no_requests,
  and_request, serve, handle,
}
use storage_testbench.Database.Mirror.{index_of, replay, apply}
use storage_testbench.Database.Mirror.Serve.{IsClean, EachClean, none_clean, and_clean}
use storage_testbench.Database.Key.{bucket_name_to_proto, object_key, digits_rev}
use storage_testbench.Database.Access.{
  bucket_key, check_object, check_bucket, get_bucket, get_bucket_for_object, get_live_generation,
}
use storage_testbench.Database.Buckets.{insert_bucket}
use storage_testbench.Database.Objects.{
  get_object_entry, fetch_object, lookup_generation, insert_object, commit_object, current_object,
}
use storage_testbench.Database.Deletion.{
  delete_object, delete_found, retire_from_bucket, retire_object, soft_delete_object,
  remove_expired_objects, drop_expired, unexpired, expired, purge_events,
}
use storage_testbench.Pathing.{
  has_char, ends_with, split, is_dots, utf8_length, has_bad_segment, needs_overflow, escape,
  classify,
}
use storage_testbench.FileStore.{Content, media, file}
use storage_testbench.FileStore.Disk.{
  check_name, make_dir, open_dir_nofollow, enter_dir, walk_dirs, replace_or_unlink, tmp_name,
  Process, no_fault, fsync_dir_fails, write_file, write_bytes_atomic, unlink_quiet, move_quiet,
}
use storage_testbench.FileStore.Methods.{
  bucket_name_from_proto, but_last, last, parts_of, dest_parts, load_name, guard_collision,
  make_dirs, in_bucket, insert_bucket_files, insert_object_files, soft_delete_object_files, run,
  step,
}
use storage_testbench.FileStore.Effects.{AllOrNothing, write_bytes_atomic-AllOrNothing}
use storage_testbench.FileStore.Current.{live_object, is_current}
use storage_testbench.FileStore.Buckets.{tree_of}
use storage_testbench.FileStore.Mirrored.{are_current}
use storage_testbench.FileStore.Rebuild.{rebuild_bucket}
use storage_testbench.FileStore.Restart.{restart-serve}
use storage_testbench.Tests.{any_name, photos, photos_bucket, cat}

-- A token in decimal digits
abbrev digits : Text → Text
digits = map (λ c. 48 + c % 10)

digits-no_dot : (name : Text) → has_char 46 (digits name) ≡ false
unfolding has_char
digits-no_dot [] = refl
digits-no_dot (c ∷ t) = ground (arith, digits-no_dot t)

-- A process whose writes do not fail.
abbrev calm : Process
calm = record { pid = codes "7"; fault = λ path fs. no_fault }

-- Of two objects, one is written twice and deleted; the other lies in a directory.
abbrev stores : List Request
stores =
    create_bucket photos_bucket rest
    ∷ create_object (codes "photos") (cat 12) rest []
    ∷ create_object (codes "photos") (cat 15) rest []
    ∷ create_object (codes "photos") (record (cat 20) { name = codes "pets/dog" }) rest []
    ∷ remove_object (codes "photos") (codes "cat") rest 15 [] 100
    ∷ []

stores-EachKeepsNames : EachKeepsNames stores
unfolding KeepsNames
stores-EachKeepsNames =
    and_request tt (and_request tt (and_request tt (and_request tt (and_request tt no_requests))))

stores-EachClean : EachClean stores
unfolding IsClean check_object
stores-EachClean = and_clean tt (
    and_clean tt
      (and_clean tt (and_clean tt (and_clean (λ o live context e. ground arith) none_clean))))

abbrev stored : Database
stored = serve any_name stores init

-- What the backend is told, the latest first
abbrev told : List Event
told =
    object_soft_deleted photos
      (record (cat 15) { soft_delete_time = some 100; hard_delete_time = 160 }) 160
    ∷ object_inserted photos (record (cat 20) { name = codes "pets/dog" })
    ∷ object_inserted photos (cat 15)
    ∷ object_inserted photos (cat 12)
    ∷ bucket_inserted photos_bucket
    ∷ []

stored-told : stored.events ≡ told
unfolding serve delete_object get_object_entry lookup insert_object insert_bucket insert text_eq
    bucket_key bucket_name_to_proto check_object alter lookup_generation object_key digits_rev
    retire_from_bucket erase get_bucket_for_object get_live_generation delete_found retire_object
    soft_delete_object remove_expired_objects drop_expired unexpired expired purge_events
    commit_object current_object fetch_object handle check_bucket get_bucket
stored-told = refl

told-current : are_current told ≡ true
unfolding are_current is_current live_object lookup text_eq insert alter erase object_key digits_rev
    apply replay starts_with
told-current = refl

told-ran : (run digits calm told []).0 ≡ ok tt
unfolding run step bucket_name_from_proto in_bucket insert_bucket_files insert_object_files
    soft_delete_object_files dest_parts parts_of walk_dirs enter_dir make_dir open_dir_nofollow
    check_name write_bytes_atomic write_file tmp_name replace_or_unlink unlink_quiet move_quiet
    guard_collision load_name make_dirs lookup text_eq insert erase starts_with drop classify
    needs_overflow escape split ends_with has_char has_bad_segment is_dots utf8_length but_last last
    digits_rev
told-ran = refl

stored-current : are_current stored.events ≡ true
stored-current = ap are_current stored-told ∙ told-current

stored-ran : (run digits calm stored.events []).0 ≡ ok tt
stored-ran = ap (λ es. (run digits calm es []).0) stored-told ∙ told-ran

abbrev no_text : Content → List ℕ
no_text c = []

restart-serve_example :
    ((rebuild_bucket [] no_text photos_bucket
        (tree_of
          (bucket_name_from_proto photos)
          (run digits calm (serve any_name stores init).events []).1)
        init).0
      ≡ ok tt)
    × ((n : Text)
        → live_object photos n (
            index_of
              (rebuild_bucket [] no_text photos_bucket
                (tree_of
                  (bucket_name_from_proto photos)
                  (run digits calm (serve any_name stores init).events []).1)
                init).1)
          ≡ live_object photos n (index_of (serve any_name stores init)))
unfolding starts_with
restart-serve_example =
    restart-serve digits digits-no_dot calm [] no_text any_name stores stores-EachKeepsNames
      stores-EachClean stored-current stored-ran photos_bucket init refl

-- The directory cannot be synchronised.
abbrev unsynced : Process
unsynced = record { pid = codes "7"; fault = λ path fs. fsync_dir_fails }

-- The call raises, and the file has the new content.
write_bytes_atomic-AllOrNothing_example :
    AllOrNothing fsync_dir_fails
      (codes "a/.tmp-7-b")
      (codes "a/b")
      (media (3 ∷ 4 ∷ []))
      ((codes "a/b", file (media (9 ∷ []))) ∷ [])
      (err (py os_error), (codes "a/b", file (media (3 ∷ 4 ∷ []))) ∷ [])
unfolding write_bytes_atomic write_file check_name tmp_name replace_or_unlink lookup text_eq insert
    erase utf8_length
write_bytes_atomic-AllOrNothing_example =
    write_bytes_atomic-AllOrNothing unsynced (codes "a/") (codes "b") (media (3 ∷ 4 ∷ []))
      ((codes "a/b", file (media (9 ∷ []))) ∷ [])
