-- ===== src/Database/Mirror/Methods.antt =====
-- Each method of `Database` keeps a listening store in sync.
use storage_testbench.Base.{
  ℕ, true, false, Option, none, some, List, ◌≡◌, ◌≢◌, refl, subst, Text, lookup, arith,
  insert-lookup, inl, inr, Option-cases, Bool-cases,
}
use storage_testbench.Errors.{
  Context, Error, Result, ok, err, bind_reader, or_raise-Reads, Result-cases,
}
use storage_testbench.Database.Key.{object_key, object_key-injective}
use storage_testbench.Database.State.{
  Database, Bucket, Blob, Folder, ObjectPrecondition, BucketPrecondition,
}
use storage_testbench.Database.Access.{bucket_key, check_object, get_bucket}
use storage_testbench.Database.Buckets.{
  or_none_type, nonempty, insert_bucket, delete_bucket, update_bucket, do_update_bucket,
}
use storage_testbench.Database.Objects.{lookup_generation, insert_object, get_object_entry}
use storage_testbench.Database.Deletion.{delete_object, get_list}
use storage_testbench.Database.Folders.{clear, insert_folder, delete_folder, rename_folder}
use storage_testbench.Database.Reads.{
  get_bucket-Reads, get_bucket-found, get_object_entry-Reads, get_object_entry-found,
}
use storage_testbench.Database.WellFormed.{IsWellFormed}
use storage_testbench.Database.WellFormed.Buckets.{KeepsName, remove_bucket_lem, drop_bucket}
use storage_testbench.Database.Outcomes.Delete.{delete_object_lem, without_object}
use storage_testbench.Database.Mirror.{InSync, replay}

pub insert_bucket-InSync :
    (validate : Text → Context → Result (Unit {0})) (b : Bucket) (context : Context) {s : Database}
    → InSync s
    → InSync (insert_bucket validate b context s).1
unfolding insert_bucket replay
insert_bucket-InSync validate b context {s} h = ground arith

pub insert_object-InSync :
    (bucket_name : Text) (o : Blob) (context : Context) (ps : List ObjectPrecondition)
    {s : Database}
    → InSync s
    → InSync (insert_object bucket_name o context ps s).1
unfolding insert_object replay
insert_object-InSync bucket_name o context ps {s} h = ground arith

pub insert_folder-InSync :
    (n : Text) (f : Folder) (context : Context) {s : Database}
    → InSync s
    → InSync (insert_folder n f context s).1
unfolding insert_folder replay
insert_folder-InSync n f context h = ground arith

pub delete_folder-InSync :
    (n : Text) (context : Context) {s : Database} → InSync s → InSync (delete_folder n context s).1
unfolding delete_folder replay
delete_folder-InSync n context h = ground arith

pub rename_folder-InSync :
    (src dst : Text) (context : Context) {s : Database}
    → InSync s
    → InSync (rename_folder src dst context s).1
unfolding rename_folder replay
rename_folder-InSync src dst context h = ground arith

pub clear-InSync : (s : Database) → InSync (clear s).1
unfolding clear replay
clear-InSync s = record { synced = refl }

pub delete_bucket-InSync :
    (bucket_name : Text) (context : Context) (ps : List BucketPrecondition) {s : Database}
    → IsWellFormed s
    → InSync s
    → InSync (delete_bucket bucket_name context ps s).1
unfolding delete_bucket
delete_bucket-InSync bucket_name context ps {s} w h =
    bind_reader InSync (get_bucket bucket_name context ps) _ s
      (get_bucket-Reads bucket_name context ps) h
      λ found e. bind_reader InSync (or_none_type found) _ s (or_raise-Reads found _) h λ b e'.
        let there : lookup (bucket_key bucket_name context) s.buckets ≡ some b =
          get_bucket-found bucket_name context ps s (ground arith) in
        let lem = remove_bucket_lem b context w (
          subst (λ k. lookup k s.buckets ≡ some b)
            (w.named (bucket_key bucket_name context) b there) there) in
        rw lem (elim (Bool-cases (nonempty (get_list b.name s.live_generations))) [
          | inl full ↦ rw full h
          | inr empty ↦
              rw empty (record { synced = unfold replay drop_bucket in ground (arith, h.synced) })
        ])

-- An update of a bucket that raises has changed nothing.
abbrev pub RaisesClean : (Bucket → Result (Unit {0}) × Bucket) → Type 0
RaisesClean f = (b : Bucket) (e : Error) → (f b).0 ≡ err e → (f b).1 ≡ b

update_bucket-InSync :
    (k : Text) (f : Bucket → Result (Unit {0}) × Bucket) (found : Option Bucket) {s : Database}
    → KeepsName f
    → RaisesClean f
    → IsWellFormed s
    → InSync s
    → ((b : Bucket) → found ≡ some b → lookup k s.buckets ≡ some b)
    → InSync (update_bucket k f found s).1
unfolding update_bucket
update_bucket-InSync k f none keeps clean w h there = h
update_bucket-InSync k f (some b) {s} keeps clean w h there = elim (Result-cases (f b).0) [
  | inl (a, returned) ↦ record {
    synced = unfold replay in ground (arith, keeps b, h.synced, w.named k b (there b refl));
  }
  | inr (e, raised) ↦ record {
    synced = ground (arith, h.synced, clean b e raised, insert-lookup k b s.buckets (there b refl));
  }
]

pub do_update_bucket-InSync :
    (bucket_name : Text) (f : Bucket → Result (Unit {0}) × Bucket) (context : Context)
    (ps : List BucketPrecondition) {s : Database}
    → KeepsName f
    → RaisesClean f
    → IsWellFormed s
    → InSync s
    → InSync (do_update_bucket bucket_name f context ps s).1
unfolding do_update_bucket
do_update_bucket-InSync bucket_name f context ps {s} keeps clean w h =
    bind_reader InSync (get_bucket bucket_name context ps) _ s
      (get_bucket-Reads bucket_name context ps) h
      λ found e.
        update_bucket-InSync (bucket_key bucket_name context) f found keeps clean w h
          (λ b is_b. get_bucket-found bucket_name context ps s (ground arith))

-- Preconditions that return `True` or raise, as all of testbench/common.py do.
abbrev pub NeverFalse : List ObjectPrecondition → Type 0
NeverFalse ps =
    (o : Option Blob) (live : Option ℕ) (context : Context)
    → check_object ps o live context ≢ ok false

get_object_entry-never_none :
    (bucket_name n : Text) (context : Context) (generation : Option ℕ)
    (ps : List ObjectPrecondition) (s : Database) (live : Option ℕ)
    → NeverFalse ps
    → (get_object_entry bucket_name n context generation ps true s).0 ≢ ok (none, live)
unfolding get_object_entry
get_object_entry-never_none bucket_name n context generation ps s live never e =
    let bk = bucket_key bucket_name context in
    elim (Option-cases (lookup bk s.live_generations)) [
      | inl missing ↦ ground arith
      | inr (inner, present) ↦ elim (Option-cases (lookup_generation generation (lookup n inner))) [
        | inl nothing ↦ ground arith
        | inr (g, asked) ↦ elim (Option-cases (lookup bk s.objects)) [
          | inl missing ↦ ground arith
          | inr (objects, there) ↦ elim (Option-cases (lookup (object_key n g) objects)) [
            | inl missing ↦ ground arith
            | inr (o, here) ↦ ground (arith, never (some o) (lookup n inner) context)
          ]
        ]
      ]
    ]

-- The notification of a deletion says what the deletion takes out of the index.
without_object-InSync :
    (bk n : Text) (blob : Blob) (policy : Option ℕ) (now : ℕ) {s : Database}
    → n ≡ blob.name
    → InSync s
    → InSync (without_object bk n blob policy now s)
unfolding without_object replay
without_object-InSync bk n blob none now {s} named h = record { synced = rw (h.synced, named) refl }
without_object-InSync bk n blob (some duration) now {s} named h = record {
  synced = rw (h.synced, named) refl;
}

pub delete_object-InSync :
    (bucket_name n : Text) (context : Context) (g : ℕ) (ps : List ObjectPrecondition) (now : ℕ)
    {s : Database}
    → NeverFalse ps
    → IsWellFormed s
    → InSync s
    → InSync (delete_object bucket_name n context g ps now s).1
delete_object-InSync bucket_name n context g ps now {s} never w h =
    let bk = bucket_key bucket_name context in
    elim (Result-cases (get_object_entry bucket_name n context (some g) ps true s).0) [
      | inl ((none, live), returned) ↦
          absurd
            (get_object_entry-never_none bucket_name n context (some g) ps s live never returned)
      | inl ((some blob, live), returned) ↦
          let (i, asked, lives, there) =
            get_object_entry-found bucket_name n context (some g) ps true s returned in
          let named =
            (object_key-injective n blob.name i blob.generation
              (w.keyed bk (object_key n i) blob there)).0 in
          elim (Option-cases (lookup bk s.buckets)) [
            | inl missing ↦ absurd (ground (arith, w.same_objects bk))
            | inr (b, is_bucket) ↦
                rw
                  (delete_object_lem bucket_name n context g ps now blob live b w returned
                    is_bucket)
                  (without_object-InSync bk n blob b.soft_delete_policy now named h)
          ]
      | inr (e, raised) ↦
          unfold delete_object in
          rw raised (rw (get_object_entry-Reads bucket_name n context (some g) ps true s) h)
    ]
