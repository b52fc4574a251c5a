-- ===== src/Tests/Stores.antt =====
-- The theorems on `Database` at concrete inputs.
use storage_testbench.Base.{
  ℕ, Bool, true, false, none, some, List, [], ◌∷◌, ◌≡◌, refl, Text, codes, lookup, insert, alter,
  erase, text_eq, arith, Dict,
}
use storage_testbench.Errors.{rest, ok, err, notfound, invalid}
use storage_testbench.Database.Key.{object_key, digits_rev, bucket_name_to_proto}
use storage_testbench.Database.State.{Database, Blob, init}
use storage_testbench.Database.Access.{bucket_key, get_bucket, check_object, check_bucket}
use storage_testbench.Database.Buckets.{insert_bucket, remove_bucket}
use storage_testbench.Database.Objects.{
  insert_object, get_object, get_object_entry, commit_object, lookup_generation,
}
use storage_testbench.Database.Deletion.{
  delete_object, restore_object, revive, retire_from_bucket, retire_object, remove_expired_objects,
  unexpired, find_generation, change_generation, keep_generation, remove_restored_object,
  get_soft_deleted_object,
}
use storage_testbench.Database.Requests.{
  Request, create_bucket, create_object, remove_object, KeepsNames, EachKeepsNames, and_request,
  no_requests, handle, serve, serve-IsWellFormed,
}
use storage_testbench.Database.WellFormed.{IsWellFormed, init-IsWellFormed}
use storage_testbench.Database.WellFormed.Buckets.{remove_bucket_lem}
use storage_testbench.Database.Outcomes.Lookup.{get_object_lem, lookup_object}
use storage_testbench.Database.Outcomes.Insert.{get_object-insert_object, insert_object_refused}
use storage_testbench.Database.Outcomes.Delete.{retained, without_object, delete_object_lem}
use storage_testbench.Database.Outcomes.Gone.{get_object-delete_object}
use storage_testbench.Database.Outcomes.Restore.{IsForgotten, restore_object-IsForgotten}
use storage_testbench.Database.Outcomes.RoundTrip.{comes_back, restore_object-delete_object}
use storage_testbench.Database.Mirror.{replay, index_of}
use storage_testbench.Database.Mirror.Serve.{
  IsClean, EachClean, none_clean, and_clean, serve-replays,
}
use storage_testbench.Database.Listing.{ListRequest, list_object}
use storage_testbench.Database.Listing.Order.{IsOrdered, list_object-IsOrdered}
use storage_testbench.Tests.{
  any_name, photos, photos_bucket, cat, uploads, album, uploads-EachKeepsNames, album-IsWellFormed,
}

serve-IsWellFormed_example : IsWellFormed (serve any_name uploads init)
serve-IsWellFormed_example =
    serve-IsWellFormed any_name uploads {s = init} uploads-EachKeepsNames init-IsWellFormed

-- One generation of the object is soft deleted, and another request is refused.
abbrev edits : List Request
edits =
    create_bucket photos_bucket rest
    ∷ create_object (codes "photos") (cat 12) rest []
    ∷ create_object (codes "photos") (cat 15) rest []
    ∷ remove_object (codes "photos") (codes "cat") rest 12 [] 100
    ∷ remove_object (codes "videos") (codes "cat") rest 12 [] 100
    ∷ []

edits-EachKeepsNames : EachKeepsNames edits
unfolding KeepsNames
edits-EachKeepsNames =
    and_request tt (and_request tt (and_request tt (and_request tt (and_request tt no_requests))))

edits-EachClean : EachClean edits
unfolding IsClean check_object
edits-EachClean = and_clean tt (
    and_clean tt (
      and_clean tt (
        and_clean (λ o live context e. ground arith)
          (and_clean (λ o live context e. ground arith) none_clean))))

serve-replays_example :
    replay (serve any_name edits init).events ≡ index_of (serve any_name edits init)
serve-replays_example = serve-replays any_name edits edits-EachKeepsNames edits-EachClean

get_object_lem_example :
    (get_object (codes "photos") (codes "cat") rest (some 12) [] album).0
    ≡ lookup_object photos (codes "cat") rest (some 12) [] album
unfolding bucket_key bucket_name_to_proto
get_object_lem_example =
    get_object_lem (codes "photos") (codes "cat") rest (some 12) [] album-IsWellFormed

get_object-insert_object_example :
    (get_object
      (codes "photos")
      (codes "cat")
      rest
      none
      []
      (insert_object (codes "photos") (cat 20) rest [] album).1).0
    ≡ ok (some (cat 20))
unfolding bucket_key bucket_name_to_proto serve handle insert_bucket insert_object lookup insert
    alter text_eq check_object
get_object-insert_object_example =
    get_object-insert_object (codes "photos") (cat 20) rest [] (codes "photos") (codes "cat") rest
      none album-IsWellFormed refl refl

delete_object_lem_example :
    delete_object (codes "photos") (codes "cat") rest 12 [] 100 album
    ≡ (ok tt, without_object photos (codes "cat") (cat 12) (some 60) 100 album)
unfolding bucket_key bucket_name_to_proto serve handle insert_bucket insert_object lookup insert
    alter text_eq check_object get_object_entry check_bucket lookup_generation object_key digits_rev
delete_object_lem_example =
    delete_object_lem (codes "photos") (codes "cat") rest 12 [] 100 (cat 12) (some 15) photos_bucket
      album-IsWellFormed refl refl

get_object-delete_object_example :
    (get_object
      (codes "photos")
      (codes "cat")
      rest
      (some 12)
      []
      (delete_object (codes "photos") (codes "cat") rest 12 [] 100 album).1).0
    ≡ err (notfound rest)
unfolding bucket_key bucket_name_to_proto serve handle insert_bucket insert_object lookup insert
    alter text_eq check_object get_object_entry check_bucket lookup_generation object_key digits_rev
get_object-delete_object_example =
    get_object-delete_object (codes "photos") (codes "cat") rest 12 [] 100 (cat 12) (some 15)
      photos_bucket (codes "photos") (codes "cat") rest (some 12) album-IsWellFormed refl refl

restore_object-delete_object_example :
    (restore_object
      (codes "photos")
      (codes "cat")
      12
      []
      rest
      120
      120
      (delete_object (codes "photos") (codes "cat") rest 12 [] 100 album).1).0
    ≡ ok (comes_back false 120 160 (cat 12))
unfolding bucket_key bucket_name_to_proto serve handle insert_bucket insert_object lookup insert
    alter text_eq check_object get_object_entry check_bucket lookup_generation object_key digits_rev
    find_generation
restore_object-delete_object_example =
    restore_object-delete_object (codes "photos") (codes "cat") rest 12 [] 100 60 120 120 (cat 12)
      (some 15) photos_bucket album-IsWellFormed refl refl refl refl (omega arith)

-- Two generations are soft deleted, and one is restored.
abbrev bin : Database
bin =
    serve any_name
      (remove_object (codes "photos") (codes "cat") rest 12 [] 100
        ∷ remove_object (codes "photos") (codes "cat") rest 15 [] 100
        ∷ [])
      album

restore_object-IsForgotten_example :
    IsForgotten photos
      (codes "cat")
      15
      (restore_object (codes "photos") (codes "cat") 12 [] rest 120 120 bin).1
unfolding bucket_key bucket_name_to_proto serve handle insert_bucket insert_object lookup insert
    alter text_eq check_object get_object_entry check_bucket lookup_generation object_key digits_rev
    delete_object restore_object remove_expired_objects unexpired find_generation change_generation
    keep_generation revive erase remove_restored_object get_soft_deleted_object commit_object
    get_bucket retire_from_bucket retire_object
restore_object-IsForgotten_example =
    restore_object-IsForgotten (codes "photos") (codes "cat") 12 [] rest 120 120 15 bin
      (revive false 120 (retained 100 60 (cat 12))) refl (ground arith)

remove_bucket_lem_example : remove_bucket photos_bucket rest album ≡ (err (invalid rest), album)
unfolding serve handle insert_bucket insert_object lookup insert alter text_eq check_object
    bucket_key bucket_name_to_proto
remove_bucket_lem_example = remove_bucket_lem photos_bucket rest album-IsWellFormed refl

insert_object_refused_example : (insert_object (codes "videos") (cat 20) rest [] album).1 ≡ album
unfolding bucket_key bucket_name_to_proto serve handle insert_bucket insert_object lookup insert
    alter text_eq check_object
insert_object_refused_example =
    insert_object_refused (codes "videos") (cat 20) rest [] album (notfound rest) refl

abbrev two_digits : ℕ
two_digits = 12

-- Objects with a `/` behind the prefix are rolled up.
abbrev request : ListRequest
request = record {
  delimiter = codes "/";
  prefix = [];
  versions = false;
  start_offset = [];
  end_offset = codes "d";
  include_trailing_delimiter = false;
  match_glob = [];
  soft_deleted = false;
}

abbrev any_glob : Text → Text → Bool
any_glob name pattern_ = true

abbrev cats : Dict Blob
cats = (object_key (codes "cat") 12, cat 12) ∷ (object_key (codes "cat") 15, cat 15) ∷ []

list_object-IsOrdered_example :
    IsOrdered (list_object any_glob request (codes "photos") rest album).0
list_object-IsOrdered_example = list_object-IsOrdered any_glob request (codes "photos") rest album
