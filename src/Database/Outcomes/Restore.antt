-- ===== src/Database/Outcomes/Restore.antt =====
-- `restore_object`: what it returns, and what is left behind it.
use storage_testbench.Base.{
  ℕ, not, none, List, [], ◌∷◌, ◌≡◌, ◌≢◌, refl, Text, lookup, contains, is_some, arith, inl, inr,
  Option-cases, insert, lookup-alter, lookup-insert, text_eq_refl,
}
use storage_testbench.Errors.{Context, ok, bind_ok, raise_if}
use storage_testbench.Database.Key.{object_key}
use storage_testbench.Database.State.{Database, Blob, ObjectPrecondition}
use storage_testbench.Database.Access.{bucket_key, get_bucket, get_bucket_for_object}
use storage_testbench.Database.Buckets.{or_none_type}
use storage_testbench.Database.Objects.{insert_object}
use storage_testbench.Database.Deletion.{
  restore_object, remove_expired_objects, get_soft_deleted_object, remove_restored_object,
  find_generation, keep_generation,
}

find_generation-keep_generation :
    (h g : ℕ) (blobs : List Blob) → h ≢ g → find_generation h (keep_generation g blobs) ≡ none
unfolding find_generation keep_generation
find_generation-keep_generation h g [] ne = refl
find_generation-keep_generation h g (blob ∷ blobs) ne =
    ground (arith, find_generation-keep_generation h g blobs ne)

-- A generation of an object that cannot be read from the soft deleted objects.
abbrev pub IsForgotten : Text → Text → ℕ → Database → Type 0
IsForgotten bk n h s =
    (context : Context) (x : Blob) → (get_soft_deleted_object bk n h context s).0 ≢ ok x

remove_restored_object-IsForgotten :
    (bk n : Text) (g h : ℕ) (s : Database)
    → h ≢ g
    → IsForgotten bk n h (remove_restored_object bk n g s).1
unfolding remove_restored_object get_soft_deleted_object
remove_restored_object-IsForgotten bk n g h s ne context x e =
    elim (Option-cases (lookup bk s.soft_deleted_objects)) [
      | inl missing ↦ ground arith
      | inr (entries, there) ↦ elim (Option-cases (lookup n entries)) [
        | inl no_list ↦ ground arith
        | inr (blobs, list) ↦ ground (
          arith,
          lookup-alter bk bk (insert n (keep_generation g blobs)) s.soft_deleted_objects,
          text_eq_refl bk,
          text_eq_refl n,
          lookup-insert n n (keep_generation g blobs) entries,
          find_generation-keep_generation h g blobs ne,
        )
      ]
    ]

-- Behind a restoration that returns, no other generation of the object is left among the soft deleted
-- ones: each of them can neither be read nor be restored any more.
pub restore_object-IsForgotten :
    (bucket_name n : Text) (g : ℕ) (ps : List ObjectPrecondition) (context : Context)
    (now local_now : ℕ) (h : ℕ) (s : Database) (blob : Blob)
    → (restore_object bucket_name n g ps context now local_now s).0 ≡ ok blob
    → h ≢ g
    → IsForgotten
        (bucket_key bucket_name context)
        n
        h
        (restore_object bucket_name n g ps context now local_now s).1
unfolding restore_object
restore_object-IsForgotten bucket_name n g ps context now local_now h s blob returns ne =
    let bk = bucket_key bucket_name context in
    let P : Database → Type 0 = IsForgotten bk n h in
    bind_ok P (get_bucket bucket_name context []) _ s
      (λ found _. bind_ok P (or_none_type found) _ _ (λ bucket _.
        bind_ok P (raise_if (not (is_some bucket.soft_delete_policy)) _) _ _ (λ _ _.
          bind_ok P (get_bucket_for_object bucket_name context) _ _ (λ entries _.
            bind_ok P (raise_if (contains (object_key n g) entries) _) _ _ (λ _ _.
              bind_ok P (remove_expired_objects bk n local_now) _ _ (λ _ _.
                bind_ok P (get_soft_deleted_object bk n g context) _ _ (λ o _.
                  bind_ok P (insert_object bucket_name _ context ps) _ _ (λ _ _.
                    bind_ok P (remove_restored_object bk n g) _ _
                      (λ _ _ _. remove_restored_object-IsForgotten bk n g h _ ne)))))))))
      returns
