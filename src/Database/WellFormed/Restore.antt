-- ===== src/Database/WellFormed/Restore.antt =====
-- `restore_object` and `do_update_object` keep the index well formed.
use storage_testbench.Base.{
  ℕ, Bool, Option, none, some, List, [], ◌≡◌, refl, Text, contains, is_some, not, arith, subst,
}
use storage_testbench.Errors.{
  Context, Result, bind_state, bind_reader, or_raise-Reads, raise_if, lift,
}
use storage_testbench.Database.Key.{object_key}
use storage_testbench.Database.State.{Database, Blob, ObjectPrecondition}
use storage_testbench.Database.Access.{bucket_key, get_bucket, get_bucket_for_object}
use storage_testbench.Database.Buckets.{or_none_type}
use storage_testbench.Database.Objects.{
  key_of, put_blob, get_object_entry, insert_object, update_object, do_update_object,
}
use storage_testbench.Database.Deletion.{
  restore_object, remove_expired_objects, get_soft_deleted_object, remove_restored_object,
}
use storage_testbench.Database.Reads.{
  get_bucket-Reads, get_bucket_for_object-Reads, get_soft_deleted_object-Reads,
  get_object_entry-Reads,
}
use storage_testbench.Database.WellFormed.{IsWellFormed}
use storage_testbench.Database.WellFormed.Updates.{
  put_blob-IsWellFormed, set_soft_deleted-IsWellFormed, soft-IsWellFormed, events-IsWellFormed,
}
use storage_testbench.Database.WellFormed.Objects.{insert_object-IsWellFormed}

module _ (bk object_name : Text) {s : Database} (w : IsWellFormed s) where
  remove_expired_objects-IsWellFormed :
      (now : ℕ) → IsWellFormed (remove_expired_objects bk object_name now s).1
  unfolding remove_expired_objects
  remove_expired_objects-IsWellFormed now =
      grind (arith, set_soft_deleted-IsWellFormed, events-IsWellFormed, w)

  remove_restored_object-IsWellFormed :
      (g : ℕ) → IsWellFormed (remove_restored_object bk object_name g s).1
  unfolding remove_restored_object
  remove_restored_object-IsWellFormed g = grind (arith, set_soft_deleted-IsWellFormed, w)

pub restore_object-IsWellFormed :
    (bucket_name object_name : Text) (generation : ℕ) (ps : List ObjectPrecondition)
    (context : Context) (now local_now : ℕ) {s : Database}
    → IsWellFormed s
    → IsWellFormed (restore_object bucket_name object_name generation ps context now local_now s).1
unfolding restore_object
restore_object-IsWellFormed bucket_name object_name generation ps context now local_now {s} w =
    let bk = bucket_key bucket_name context in
    bind_reader IsWellFormed (get_bucket bucket_name context []) _ s
      (get_bucket-Reads bucket_name context []) w
      λ found _.
        bind_reader IsWellFormed (or_none_type found) _ s (or_raise-Reads found _) w λ bucket _.
          bind_reader IsWellFormed (raise_if (not (is_some bucket.soft_delete_policy)) _) _ s
            (λ _. refl) w
            λ _ _.
              bind_reader IsWellFormed (get_bucket_for_object bucket_name context) _ s
                (get_bucket_for_object-Reads bucket_name context) w
                λ entries _.
                  bind_reader IsWellFormed
                    (raise_if (contains (object_key object_name generation) entries) _) _ s
                    (λ _. refl) w
                    λ _ _.
                      let w₁ = remove_expired_objects-IsWellFormed bk object_name w local_now in
                      bind_state IsWellFormed (remove_expired_objects bk object_name local_now) _ s
                        w₁
                        λ _ _.
                          bind_reader IsWellFormed
                            (get_soft_deleted_object bk object_name generation context) _ _
                            (get_soft_deleted_object-Reads bk object_name generation context) w₁
                            λ blob _.
                              let w₂ = soft-IsWellFormed bk w₁ _ in
                              bind_state IsWellFormed (insert_object bucket_name _ context ps) _ _
                                (insert_object-IsWellFormed bucket_name _ context ps w₂)
                                λ _ _.
                                  let w₃ =
                                    events-IsWellFormed
                                      (insert_object-IsWellFormed bucket_name _ context ps w₂) _ in
                                  bind_state IsWellFormed
                                    (remove_restored_object bk object_name generation) _ _
                                    (remove_restored_object-IsWellFormed bk object_name w₃
                                      generation)
                                    λ _ _.
                                      remove_restored_object-IsWellFormed bk object_name w₃
                                        generation

-- An update that keeps the name and the generation.
abbrev pub KeepsKey : {T : Type 0} → (Option Blob → Option ℕ → Result T × (Blob → Blob)) → Type 0
KeepsKey update_fn =
    (o : Blob) (live : Option ℕ) → key_of ((update_fn (some o) live).1 o) ≡ key_of o

update_object-IsWellFormed :
    {T : Type 0} (bk : Text) (update_fn : Option Blob → Option ℕ → Result T × (Blob → Blob))
    (found : Option Blob) (live : Option ℕ) {s : Database}
    → KeepsKey update_fn
    → IsWellFormed s
    → IsWellFormed (update_object bk update_fn (found, live) s).1
unfolding update_object
update_object-IsWellFormed bk update_fn none live keeps w = w
update_object-IsWellFormed bk update_fn (some o) live {s} keeps w =
    let w₁ : IsWellFormed (put_blob bk (key_of o) ((update_fn (some o) live).1 o) s) =
      subst (λ k. IsWellFormed (put_blob bk k ((update_fn (some o) live).1 o) s)) (keeps o live)
        (put_blob-IsWellFormed bk w ((update_fn (some o) live).1 o)) in
    bind_reader IsWellFormed (lift (update_fn (some o) live).0) _ _ (λ _. refl) w₁
      λ _ _. events-IsWellFormed w₁ _

pub do_update_object-IsWellFormed :
    {T : Type 0} (bucket_name object_name : Text)
    (update_fn : Option Blob → Option ℕ → Result T × (Blob → Blob)) (context : Context)
    (generation : Option ℕ) (ps : List ObjectPrecondition) (required : Bool) {s : Database}
    → KeepsKey update_fn
    → IsWellFormed s
    → IsWellFormed
        (do_update_object bucket_name object_name update_fn context generation ps required s).1
unfolding do_update_object
do_update_object-IsWellFormed bucket_name object_name update_fn context generation ps required {s}
      keeps w =
    bind_reader IsWellFormed
      (get_object_entry bucket_name object_name context generation ps required) _ s
      (get_object_entry-Reads bucket_name object_name context generation ps required) w
      λ found _.
        update_object-IsWellFormed (bucket_key bucket_name context) update_fn found.0 found.1 keeps
          w
