-- ===== src/Database/Mirror/Objects.antt =====
-- `restore_object` and `do_update_object` keep a listening store in sync.
use storage_testbench.Base.{
  ℕ, Bool, Option, none, some, List, [], ◌∷◌, ◌≡◌, refl, ap, ◌∙◌, Text, Dict, lookup, lookup2,
  contains, is_some, not, arith, insert, alter, insert-lookup, inl, inr, Option-cases, subst,
}
use storage_testbench.Errors.{
  Context, Error, Result, ok, err, bind_reader, bind_state, or_raise-Reads, Result-cases, raise_if,
}
use storage_testbench.Database.Key.{object_key}
use storage_testbench.Database.State.{Database, Blob, Event, ObjectPrecondition}
use storage_testbench.Database.Access.{bucket_key, read, get_bucket, get_bucket_for_object}
use storage_testbench.Database.Buckets.{or_none_type}
use storage_testbench.Database.Objects.{
  key_of, insert_object, get_object_entry, update_object, do_update_object,
}
use storage_testbench.Database.Deletion.{
  restore_object, remove_expired_objects, get_soft_deleted_object, remove_restored_object,
  purge_events, drop_expired, expired,
}
use storage_testbench.Database.Reads.{
  get_bucket-Reads, get_bucket_for_object-Reads, get_soft_deleted_object-Reads,
  get_object_entry-Reads, get_object_entry-found,
}
use storage_testbench.Database.WellFormed.{IsWellFormed}
use storage_testbench.Database.WellFormed.Restore.{KeepsKey}
use storage_testbench.Database.Mirror.{InSync, replay}
use storage_testbench.Database.Mirror.Methods.{insert_object-InSync}

replay-purge_events :
    (bk n : Text) (blobs : List Blob) (es : List Event)
    → replay (purge_events bk n blobs es) ≡ replay es
unfolding purge_events replay
replay-purge_events bk n [] es = refl
replay-purge_events bk n (o ∷ blobs) es = replay-purge_events bk n blobs _

module _ (bk n : Text) {s : Database} (h : InSync s) where
  drop_expired-InSync :
      (found : Option (List Blob)) (now : ℕ) → InSync (drop_expired bk n now found s).1
  unfolding drop_expired
  drop_expired-InSync none now = h
  drop_expired-InSync (some blobs) now = record {
    synced = replay-purge_events bk n (expired now blobs) s.events ∙ h.synced;
  }

  remove_expired_objects-InSync : (now : ℕ) → InSync (remove_expired_objects bk n now s).1
  unfolding remove_expired_objects
  remove_expired_objects-InSync now =
      bind_reader InSync (read (λ s. s.soft_deleted_objects) bk) _ s (λ _. refl) h
        λ entries _. drop_expired-InSync (lookup n entries) now

  remove_restored_object-InSync : (g : ℕ) → InSync (remove_restored_object bk n g s).1
  unfolding remove_restored_object
  remove_restored_object-InSync g = ground (arith, h.synced)

pub restore_object-InSync :
    (bucket_name object_name : Text) (generation : ℕ) (ps : List ObjectPrecondition)
    (context : Context) (now local_now : ℕ) {s : Database}
    → InSync s
    → InSync (restore_object bucket_name object_name generation ps context now local_now s).1
unfolding restore_object replay
restore_object-InSync bucket_name object_name generation ps context now local_now {s} h =
    let bk = bucket_key bucket_name context in
    bind_reader InSync (get_bucket bucket_name context []) _ s
      (get_bucket-Reads bucket_name context []) h
      λ found _. bind_reader InSync (or_none_type found) _ s (or_raise-Reads found _) h λ bucket _.
        bind_reader InSync (raise_if (not (is_some bucket.soft_delete_policy)) _) _ s (λ _. refl) h
          λ _ _.
            bind_reader InSync (get_bucket_for_object bucket_name context) _ s
              (get_bucket_for_object-Reads bucket_name context) h
              λ entries _.
                bind_reader InSync
                  (raise_if (contains (object_key object_name generation) entries) _) _ s
                  (λ _. refl) h
                  λ _ _.
                    let h₁ = remove_expired_objects-InSync bk object_name h local_now in
                    bind_state InSync (remove_expired_objects bk object_name local_now) _ s h₁
                      λ _ _.
                        bind_reader InSync
                          (get_soft_deleted_object bk object_name generation context) _ _
                          (get_soft_deleted_object-Reads bk object_name generation context) h₁
                          λ blob _.
                            let h₂ =
                              insert_object-InSync bucket_name _ context ps
                                (record { synced = h₁.synced }) in
                            bind_state InSync (insert_object bucket_name _ context ps) _ _ h₂ λ _ _.
                              let h₃ =
                                remove_restored_object-InSync bk object_name
                                  (record { synced = h₂.synced }) generation in
                              bind_state InSync (remove_restored_object bk object_name generation) _
                                _ h₃ λ _ _. h₃

-- An update of an object that raises has changed nothing.
abbrev pub ObjectRaisesClean :
    {T : Type 0} → (Option Blob → Option ℕ → Result T × (Blob → Blob)) → Type 0
ObjectRaisesClean f =
    (o : Blob) (live : Option ℕ) (e : Error)
    → (f (some o) live).0 ≡ err e
    → (f (some o) live).1 o ≡ o

-- A write of the object that is there changes nothing.
put-same :
    (k j : Text) (o : Blob) (d : Dict (Dict Blob))
    → lookup2 k j d ≡ some o
    → alter k (insert j o) d ≡ d
unfolding alter
put-same k j o d there = elim (Option-cases (lookup k d)) [
  | inl missing ↦ ground arith
  | inr (inner, e) ↦ ground (arith, insert-lookup j o inner, insert-lookup k inner d)
]

update_object-InSync :
    {T : Type 0} (bk : Text) (f : Option Blob → Option ℕ → Result T × (Blob → Blob))
    (found : Option Blob) (live : Option ℕ) {s : Database}
    → KeepsKey f
    → ObjectRaisesClean f
    → InSync s
    → ((o : Blob) → found ≡ some o → lookup2 bk (key_of o) s.objects ≡ some o)
    → InSync (update_object bk f (found, live) s).1
unfolding update_object
update_object-InSync bk f none live keeps clean h there = h
update_object-InSync bk f (some o) live {s} keeps clean h there =
    elim (Result-cases (f (some o) live).0) [
      | inl (a, returned) ↦
          rw returned (record { synced = unfold replay in rw (h.synced, keeps o live) refl })
      | inr (e, raised) ↦
          rw (raised, clean o live e raised, put-same bk (key_of o) o s.objects (there o refl)) h
    ]

pair_of :
    {r : Result (Option Blob × Option ℕ)} {found : Option Blob × Option ℕ} {o : Blob}
    → r ≡ ok found
    → found.0 ≡ some o
    → r ≡ ok (some o, found.1)
pair_of {r} {found} e is_o = e ∙ ap (λ o. ok (o, found.1)) is_o

pub do_update_object-InSync :
    {T : Type 0} (bucket_name object_name : Text)
    (f : Option Blob → Option ℕ → Result T × (Blob → Blob)) (context : Context)
    (generation : Option ℕ) (ps : List ObjectPrecondition) (required : Bool) {s : Database}
    → KeepsKey f
    → ObjectRaisesClean f
    → IsWellFormed s
    → InSync s
    → InSync (do_update_object bucket_name object_name f context generation ps required s).1
unfolding do_update_object
do_update_object-InSync bucket_name object_name f context generation ps required {s} keeps clean w
      h =
    let bk = bucket_key bucket_name context in
    bind_reader InSync (get_object_entry bucket_name object_name context generation ps required) _ s
      (get_object_entry-Reads bucket_name object_name context generation ps required) h
      λ found e. update_object-InSync bk f found.0 found.1 keeps clean h λ o is_o.
        let (g, asked, lives, there) =
          get_object_entry-found bucket_name object_name context generation ps required s
            (pair_of e is_o) in
        subst (λ k. lookup2 bk k s.objects ≡ some o) (w.keyed bk (object_key object_name g) o there)
          there
