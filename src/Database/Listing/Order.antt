-- ===== src/Database/Listing/Order.antt =====
-- The order of what `list_object` answers.
use storage_testbench.Base.{
  take, ℕ, Bool, true, false, not, ◌&&◌, Option, List, [], ◌∷◌, ◌≡◌, refl, Text, text_eq, text_lt,
  values, ◌+◌, arith, if◌then◌else◌, inl, inr, Option-cases,
}
use storage_testbench.Errors.{
  Context, Result, ok, err, Result-cases, bind_result, raise_if, lift, pure, ◌>>=◌,
}
use storage_testbench.Database.State.{Database, Blob}
use storage_testbench.Database.Access.{bucket_key, get_bucket, get_bucket_for_object}
use storage_testbench.Database.Buckets.{or_none_type}
use storage_testbench.Database.Listing.{
  get_all_soft_deleted, ListRequest, insert_item, sort_items, by_name, add_prefix, list_blob,
  list_loop, list_object, rolled_up,
}

text_lt-asym : (s t : Text) → text_lt s t ≡ true → text_lt t s ≡ false
unfolding text_lt
text_lt-asym [] [] e = refl
text_lt-asym [] (b ∷ t) e = refl
text_lt-asym (a ∷ s) [] e = ground arith
text_lt-asym (a ∷ s) (b ∷ t) e = ground (arith, text_lt-asym s t)

text_lt-total : (s t : Text) → text_eq s t ≡ false → text_lt t s ≡ false → text_lt s t ≡ true
unfolding text_lt text_eq
text_lt-total [] [] e f = ground arith
text_lt-total [] (b ∷ t) e f = refl
text_lt-total (a ∷ s) [] e f = ground arith
text_lt-total (a ∷ s) (b ∷ t) e f = ground (arith, text_lt-total s t)

-- No name stands behind a greater one.
unfoldable pub is_sorted : List Blob → Bool
is_sorted [] = true
is_sorted (x ∷ []) = true
is_sorted (x ∷ y ∷ ys) = not (text_lt y.name x.name) && is_sorted (y ∷ ys)

-- Each text is less than the next.
unfoldable pub is_increasing : List Text → Bool
is_increasing [] = true
is_increasing (p ∷ []) = true
is_increasing (p ∷ q ∷ qs) = text_lt p q && is_increasing (q ∷ qs)

insert_item-sorted :
    (x : Blob) (ys : List Blob) → is_sorted ys ≡ true → is_sorted (insert_item by_name x ys) ≡ true
unfolding insert_item is_sorted
insert_item-sorted x [] e = refl
insert_item-sorted x (y ∷ []) e = ground (arith, text_lt-asym y.name x.name)
insert_item-sorted x (y ∷ z ∷ zs) e =
    ground (arith, text_lt-asym y.name x.name, insert_item-sorted x (z ∷ zs))

sort_items-sorted : (xs : List Blob) → is_sorted (sort_items by_name xs) ≡ true
unfolding sort_items is_sorted
sort_items-sorted [] = refl
sort_items-sorted (x ∷ xs) = insert_item-sorted x (sort_items by_name xs) (sort_items-sorted xs)

add_prefix-increasing :
    (p : Text) (qs : List Text) → is_increasing qs ≡ true → is_increasing (add_prefix p qs) ≡ true
unfolding add_prefix is_increasing
add_prefix-increasing p [] e = refl
add_prefix-increasing p (q ∷ []) e = ground (arith, text_lt-total p q)
add_prefix-increasing p (q ∷ r ∷ rs) e =
    ground (arith, text_lt-total p q, add_prefix-increasing p (r ∷ rs))

unfoldable increasing_answer : Result (List Blob × List Text) → Bool
increasing_answer (err e) = true
increasing_answer (ok (items, prefixes)) = is_increasing prefixes

-- An answer in order; an error is one.
unfoldable pub IsOrdered : Result (List Blob × List Text) → Type 0
IsOrdered (err e) = Unit {0}
IsOrdered (ok (items, prefixes)) = (is_sorted items ≡ true) × (is_increasing prefixes ≡ true)

module _ (glob : Text → Text → Bool) (r : ListRequest) where
  list_blob-increasing :
      (o : Blob) (items : List Blob) (prefixes : List Text)
      → is_increasing prefixes ≡ true
      → is_increasing (list_blob glob r o (items, prefixes)).1 ≡ true
  unfolding list_blob
  list_blob-increasing o items prefixes e = elim (Option-cases (rolled_up glob r o.name)) [
    | inl nothing ↦ ground arith
    | inr (i, found) ↦ ground (arith, add_prefix-increasing (take (i + 1) o.name) prefixes e)
  ]

  list_loop-increasing :
      (live : Text → Result (Option ℕ)) (objs : List Blob)
      → increasing_answer (list_loop glob r live objs) ≡ true
  unfolding list_loop is_increasing increasing_answer
  list_loop-increasing live [] = refl
  list_loop-increasing live (o ∷ objs) = elim (Result-cases (list_loop glob r live objs)) [
    | inl ((items, prefixes), found) ↦
        ground (arith, list_loop-increasing live objs, list_blob-increasing o items prefixes)
    | inr (e, raised) ↦ ground arith
  ]

  sort_items-IsOrdered :
      (found : Result (List Blob × List Text))
      → increasing_answer found ≡ true
      → (s : Database) → IsOrdered ((lift found >>= λ a. pure (sort_items by_name a.0, a.1)) s).0
  unfolding increasing_answer IsOrdered
  sort_items-IsOrdered (err e) up s = tt
  sort_items-IsOrdered (ok (items, prefixes)) up s = (sort_items-sorted items, up)

  -- When `list_object` answers, no item stands behind one with a greater name, and the prefixes stand in
  -- strictly increasing order: none is there twice.
  pub list_object-IsOrdered :
      (bucket_name : Text) (context : Context) (s : Database)
      → IsOrdered (list_object glob r bucket_name context s).0
  unfolding list_object IsOrdered
  list_object-IsOrdered bucket_name context s =
      bind_result IsOrdered (λ e. tt) (get_bucket_for_object bucket_name context) _ s
        λ bucket s₁.
          bind_result IsOrdered (λ e. tt) (get_bucket bucket_name context []) _ s₁
            λ found s₂.
              bind_result IsOrdered (λ e. tt) (or_none_type found) _ s₂
                λ metadata s₃.
                  bind_result IsOrdered (λ e. tt) (raise_if _ _) _ s₃
                    λ _ s₄.
                      bind_result IsOrdered (λ e. tt)
                        (if r.soft_deleted
                          then get_all_soft_deleted (bucket_key bucket_name context)
                          else pure (values bucket))
                        _ s₄
                        λ objects s₅. sort_items-IsOrdered _ (list_loop-increasing _ objects) s₅
