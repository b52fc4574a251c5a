-- ===== src/Database/WellFormed/Buckets.antt =====
-- The methods on buckets keep the index well formed.
use storage_testbench.Base.{
  ℕ, Option, none, some, List, [], ◌≡◌, refl, Text, lookup, contains, insert, erase, arith,
  text_eq_iff, subst, ◌∷◌, inl, inr, Bool-cases, if◌then◌else◌, lookup-insert, lookup-erase,
  lookup-nil,
}
use storage_testbench.Errors.{
  Context, Result, ok, err, bind_reader, or_raise-Reads, raise_if, lift, invalid,
}
use storage_testbench.Database.State.{Database, Bucket, Blob, BucketPrecondition, bucket_deleted}
use storage_testbench.Database.Access.{bucket_key, get_bucket}
use storage_testbench.Database.Buckets.{
  or_none_type, insert_bucket, nonempty, remove_bucket, delete_bucket, update_bucket,
  do_update_bucket,
}
use storage_testbench.Database.Deletion.{get_list}
use storage_testbench.Database.Folders.{clear}
use storage_testbench.Database.Reads.{get_bucket-Reads, get_bucket-found}
use storage_testbench.Database.WellFormed.{IsWellFormed, init-IsWellFormed}
use storage_testbench.Database.WellFormed.Updates.{events-IsWellFormed}

-- The four writes of `insert_bucket`.
add_bucket : Bucket → Database → Database
add_bucket b s = record s {
  buckets = insert b.name b s.buckets;
  objects = insert b.name [] s.objects;
  live_generations = insert b.name [] s.live_generations;
  soft_deleted_objects = insert b.name [] s.soft_deleted_objects;
}

add_bucket-IsWellFormed :
    (b : Bucket) {s : Database} → IsWellFormed s → IsWellFormed (add_bucket b s)
unfolding add_bucket
add_bucket-IsWellFormed b {s} w = record {
  same_objects = λ k. ground (
    arith,
    lookup-insert k b.name [] s.objects,
    lookup-insert k b.name b s.buckets,
    w.same_objects k,
  );
  same_live = λ k. ground (
    arith,
    lookup-insert k b.name [] s.live_generations,
    lookup-insert k b.name b s.buckets,
    w.same_live k,
  );
  same_soft = λ k. ground (
    arith,
    lookup-insert k b.name [] s.soft_deleted_objects,
    lookup-insert k b.name b s.buckets,
    w.same_soft k,
  );
  named = λ k x e.
      ground (arith, lookup-insert k b.name b s.buckets, w.named k x, text_eq_iff b.name k);
  keyed = λ k j x e.
      ground (arith, lookup-insert k b.name [] s.objects, w.keyed k j x, lookup-nil {V = Blob} j);
  live_present = λ k n g e. ground (
    arith,
    lookup-insert k b.name [] s.objects,
    lookup-insert k b.name [] s.live_generations,
    w.live_present k n g,
    lookup-nil {V = ℕ} n,
  );
}

pub insert_bucket-IsWellFormed :
    (validate : Text → Context → Result (Unit {0})) (b : Bucket) (context : Context) {s : Database}
    → IsWellFormed s
    → IsWellFormed (insert_bucket validate b context s).1
unfolding insert_bucket add_bucket
insert_bucket-IsWellFormed validate b context {s} w =
    bind_reader IsWellFormed (lift (validate b.name context)) _ s (λ _. refl) w
      λ _ _.
        bind_reader IsWellFormed (raise_if (contains b.name s.buckets) _) _ s (λ _. refl) w
          λ _ _. events-IsWellFormed (add_bucket-IsWellFormed b w) _

-- The four deletions of `delete_bucket`.
unfoldable pub drop_bucket : Text → Database → Database
drop_bucket n s = record s {
  buckets = erase n s.buckets;
  objects = erase n s.objects;
  live_generations = erase n s.live_generations;
  soft_deleted_objects = erase n s.soft_deleted_objects;
}

drop_bucket-IsWellFormed :
    (n : Text) {s : Database} → IsWellFormed s → IsWellFormed (drop_bucket n s)
unfolding drop_bucket
drop_bucket-IsWellFormed n {s} w = record {
  same_objects =
      λ k. ground (arith, lookup-erase k n s.objects, lookup-erase k n s.buckets, w.same_objects k);
  same_live = λ k.
      ground
        (arith, lookup-erase k n s.live_generations, lookup-erase k n s.buckets, w.same_live k);
  same_soft = λ k.
      ground
        (arith, lookup-erase k n s.soft_deleted_objects, lookup-erase k n s.buckets, w.same_soft k);
  named = λ k x e. ground (arith, lookup-erase k n s.buckets, w.named k x);
  keyed = λ k j x e. ground (arith, lookup-erase k n s.objects, w.keyed k j x);
  live_present = λ k m g e. ground (
    arith,
    lookup-erase k n s.objects,
    lookup-erase k n s.live_generations,
    w.live_present k m g,
  );
}

-- On a well-formed index, the removal of a bucket that is there: if it has live objects it is refused
-- and nothing changes, else the bucket goes with all that is in it, and the store is told.
pub remove_bucket_lem :
    (b : Bucket) (context : Context) {s : Database}
    → IsWellFormed s
    → lookup b.name s.buckets ≡ some b
    → remove_bucket b context s ≡ (
        if nonempty (get_list b.name s.live_generations)
        then (err (invalid context), s)
        else (ok tt, record (drop_bucket b.name s) { events = bucket_deleted b.name ∷ s.events }))
unfolding remove_bucket drop_bucket
remove_bucket_lem b context {s} w there = ground (
  arith,
  w.same_objects b.name,
  w.same_live b.name,
  w.same_soft b.name,
  lookup-erase b.name b.name s.buckets,
)

remove_bucket-IsWellFormed :
    (b : Bucket) (context : Context) {s : Database}
    → IsWellFormed s
    → lookup b.name s.buckets ≡ some b
    → IsWellFormed (remove_bucket b context s).1
remove_bucket-IsWellFormed b context {s} w there =
    rw (remove_bucket_lem b context w there)
      (elim (Bool-cases (nonempty (get_list b.name s.live_generations))) [
        | inl full ↦ rw full w
        | inr empty ↦ rw empty (events-IsWellFormed (drop_bucket-IsWellFormed b.name w) _)
      ])

pub delete_bucket-IsWellFormed :
    (bucket_name : Text) (context : Context) (ps : List BucketPrecondition) {s : Database}
    → IsWellFormed s
    → IsWellFormed (delete_bucket bucket_name context ps s).1
unfolding delete_bucket
delete_bucket-IsWellFormed bucket_name context ps {s} w =
    bind_reader IsWellFormed (get_bucket bucket_name context ps) _ s
      (get_bucket-Reads bucket_name context ps) w
      λ found e.
        bind_reader IsWellFormed (or_none_type found) _ s (or_raise-Reads found _) w λ b e'.
          let there : lookup (bucket_key bucket_name context) s.buckets ≡ some b =
            get_bucket-found bucket_name context ps s (ground arith) in
          remove_bucket-IsWellFormed b context w (
            subst (λ k. lookup k s.buckets ≡ some b)
              (w.named (bucket_key bucket_name context) b there) there)

pub clear-IsWellFormed : (s : Database) → IsWellFormed (clear s).1
unfolding clear
clear-IsWellFormed s = record {
  same_objects = init-IsWellFormed.same_objects;
  same_live = init-IsWellFormed.same_live;
  same_soft = init-IsWellFormed.same_soft;
  named = init-IsWellFormed.named;
  keyed = init-IsWellFormed.keyed;
  live_present = init-IsWellFormed.live_present;
}

-- An update that keeps the name of the bucket.
abbrev pub KeepsName : (Bucket → Result (Unit {0}) × Bucket) → Type 0
KeepsName update_fn = (b : Bucket) → (update_fn b).1.name ≡ b.name

replace_bucket-IsWellFormed :
    (k : Text) (b b' : Bucket) {s : Database}
    → IsWellFormed s
    → lookup k s.buckets ≡ some b
    → b'.name ≡ b.name
    → IsWellFormed (record s { buckets = insert k b' s.buckets })
replace_bucket-IsWellFormed k b b' {s} w there same = record {
  same_objects =
      λ j. ground (arith, lookup-insert j k b' s.buckets, w.same_objects j, text_eq_iff k j);
  same_live = λ j. ground (arith, lookup-insert j k b' s.buckets, w.same_live j, text_eq_iff k j);
  same_soft = λ j. ground (arith, lookup-insert j k b' s.buckets, w.same_soft j, text_eq_iff k j);
  named = λ j x e.
      ground
        (arith, lookup-insert j k b' s.buckets, w.named j x, w.named k b there, text_eq_iff k j);
  keyed = w.keyed;
  live_present = w.live_present;
}

update_bucket-IsWellFormed :
    (k : Text) (update_fn : Bucket → Result (Unit {0}) × Bucket) (found : Option Bucket)
    {s : Database}
    → KeepsName update_fn
    → IsWellFormed s
    → ((b : Bucket) → found ≡ some b → lookup k s.buckets ≡ some b)
    → IsWellFormed (update_bucket k update_fn found s).1
unfolding update_bucket
update_bucket-IsWellFormed k update_fn none keeps w there = w
update_bucket-IsWellFormed k update_fn (some b) {s} keeps w there =
    let w₁ = replace_bucket-IsWellFormed k b (update_fn b).1 w (there b refl) (keeps b) in
    bind_reader IsWellFormed (lift (update_fn b).0) _ _ (λ _. refl) w₁
      λ _ _. events-IsWellFormed w₁ _

pub do_update_bucket-IsWellFormed :
    (bucket_name : Text) (update_fn : Bucket → Result (Unit {0}) × Bucket) (context : Context)
    (ps : List BucketPrecondition) {s : Database}
    → KeepsName update_fn
    → IsWellFormed s
    → IsWellFormed (do_update_bucket bucket_name update_fn context ps s).1
unfolding do_update_bucket
do_update_bucket-IsWellFormed bucket_name update_fn context ps {s} keeps w =
    bind_reader IsWellFormed (get_bucket bucket_name context ps) _ s
      (get_bucket-Reads bucket_name context ps) w
      λ found e.
        update_bucket-IsWellFormed (bucket_key bucket_name context) update_fn found keeps w
          (λ b is_b. get_bucket-found bucket_name context ps s (ground arith))
