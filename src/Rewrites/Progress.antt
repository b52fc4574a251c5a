-- ===== src/Rewrites/Progress.antt =====
-- A client that calls `RewriteObject` again with the token it was given: how far one call comes, and how
-- many calls it takes.
use storage_testbench.Base.{
  take-zero, Dict, ℕ, zero, suc, ◌+◌, ◌-◌, ◌*◌, ◌≤◌, ◌<◌, min, true, false, ◌==◌, leb, ltb, Option,
  none, some, List, [], ◌++◌, Text, lookup, insert, insert-insert, lookup-insert, text_eq_iff,
  length, ◌≡◌, refl, sym, ap, ◌∙◌, arith, take, take_all, take-slice, length-take, Bool-cases, inl,
  inr,
}
use storage_testbench.Errors.{grpc, ok, pure, ◌>>=◌}
use storage_testbench.Database.State.{Database, Bucket, Blob, Resource, Rewrite, ObjectPrecondition}
use storage_testbench.Database.Access.{
  Action, get_bucket, get_bucket_for_object, get_live_generation, check_bucket, bucket_key,
}
use storage_testbench.Database.Objects.{
  get_object, get_object_entry, fetch_object, insert_object, commit_object,
}
use storage_testbench.Database.Folders.{get_rewrite, insert_rewrite}
use storage_testbench.Media.{Bytes, concat-chunks}
use storage_testbench.Blobs.{Codecs}
use storage_testbench.Blobs.Keys.{validation}
use storage_testbench.Blobs.Create.{Clock, init_object}
use storage_testbench.Rewrites.{
  total_bytes, copy_window, more, done, destination_of, names_of, advance, finish_grpc,
  continue_grpc, rewrite_object,
}

-- The rewrite that has copied the first `p` bytes.
abbrev pub copied : Bytes → ℕ → Rewrite → Rewrite
copied source p r = record r { media = take p source }

-- The database with the rewrite in it.
abbrev pub holding : Rewrite → Database → Database
holding r s = record s { rewrites = insert r.token r s.rewrites }

-- A call appends the next window of the source, in chunks of any positive size.
copy_window-copied :
    (size p : ℕ) (r : Rewrite) (source : Bytes)
    → 0 < size
    → p ≤ length source
    → copy_window size (copied source p r) source
      ≡ copied source (min (p + r.max_bytes) (length source)) r
unfolding copy_window total_bytes
copy_window-copied size p r source positive inside =
    let here : length (take p source) ≡ p = length-take p source inside in
    let low : leb p (length source) ≡ true = ground arith in
    let there : p + min r.max_bytes (length source - p) ≡ min (p + r.max_bytes) (length source) =
      omega arith in
    let end = min (p + r.max_bytes) (length source) in
    rw (here, low, there)
      (ap (λ m. record r { media = m })
        (ap (λ w. take p source ++ w)
            (concat-chunks (end - p) source p end size positive (omega arith))
          ∙ take-slice p end source (ground arith)))

-- What the methods on objects do does not depend on the rewrites.
get_object-rewrites :
    (bucket_name object_name : Text) (generation : Option ℕ)
    (preconditions : List ObjectPrecondition) (o : Option Blob) (rewrites : Dict Rewrite)
    (s : Database)
    → get_object bucket_name object_name grpc generation preconditions s ≡ (ok o, s)
    → get_object bucket_name object_name grpc generation preconditions
        (record s { rewrites = rewrites })
      ≡ (ok o, record s { rewrites = rewrites })
unfolding get_object get_object_entry fetch_object get_bucket_for_object
get_object-rewrites bucket_name object_name generation preconditions o rewrites s e = ground arith

insert_object-rewrites :
    (bucket_name : Text) (blob : Blob) (preconditions : List ObjectPrecondition)
    (rewrites : Dict Rewrite) (s s' : Database)
    → insert_object bucket_name blob grpc preconditions s ≡ (ok tt, s')
    → insert_object bucket_name blob grpc preconditions (record s { rewrites = rewrites })
      ≡ (ok tt, record s' { rewrites = rewrites })
unfolding insert_object get_bucket_for_object get_live_generation commit_object
insert_object-rewrites bucket_name blob preconditions rewrites s s' e = ground arith

get_bucket-found :
    (bucket_name : Text) (b : Bucket) (s : Database)
    → lookup bucket_name s.buckets ≡ some b
    → get_bucket bucket_name grpc [] s ≡ (ok (some b), s)
unfolding get_bucket check_bucket bucket_key
get_bucket-found bucket_name b s e = ground arith

lookup-inserted : (k : Text) (r : Rewrite) (d : Dict Rewrite) → lookup k (insert k r d) ≡ some r
lookup-inserted k r d = ground (arith, lookup-insert k k r d, text_eq_iff k k)

-- The client: it calls with the token of the last answer, up to `fuel` times, until the answer has an object.
module _ (lib : Codecs) (size : ℕ) (clock : Clock) (destination : Option Resource)
    (rewrite : Rewrite) where
  unfoldable pub poll : ℕ → Option Text → Action (Option Blob)
  poll zero token = pure none
  poll (suc fuel) token = do
    answer ← rewrite_object lib size clock destination token rewrite
    elim answer [ more token' total ↦ poll fuel (some token') | done blob ↦ pure (some blob) ]

-- The first call, which keeps the rewrite, is as a call with its token.
poll-first :
    (lib : Codecs) (size : ℕ) (clock : Clock) (destination : Option Resource) (rewrite : Rewrite)
    (fuel : ℕ) (s : Database)
    → poll lib size clock destination rewrite (suc fuel) none s
      ≡ poll lib size clock destination rewrite (suc fuel) (some rewrite.token) (holding rewrite s)
unfolding poll rewrite_object get_rewrite insert_rewrite
poll-first lib size clock destination rewrite fuel s =
    rw (lookup-inserted rewrite.token rewrite s.rewrites) refl

module _ (lib : Codecs) (size : ℕ) (clock : Clock) (destination : Option Resource)
    (rewrite : Rewrite) (source : Blob) (s : Database) (chunked : 0 < size)
    (readable : get_object rewrite.src_bucket_name rewrite.src_object_name grpc
        rewrite.origin.source_generation rewrite.origin.source_preconditions s
      ≡ (ok (some source), s))
    (keyed : validation lib rewrite.origin.source_encryption source.key_sha256 grpc ≡ ok tt) where
  -- The database when `p` bytes are copied.
  abbrev at : ℕ → Database
  at p = holding (copied source.media p rewrite) s

  abbrev next : ℕ → ℕ
  next p = min (p + rewrite.max_bytes) (length source.media)

  advance-copied :
      (p : ℕ)
      → p ≤ length source.media
      → advance lib size grpc (names_of rewrite) (copied source.media p rewrite) (at p)
        ≡ (ok (copied source.media (next p) rewrite, source), at (next p))
  unfolding advance insert_rewrite
  advance-copied p inside =
      rw
        (get_object-rewrites rewrite.src_bucket_name rewrite.src_object_name
          rewrite.origin.source_generation rewrite.origin.source_preconditions (some source)
          (at p).rewrites s readable)
        (rw keyed (
          rw (copy_window-copied size p rewrite source.media chunked inside)
            (rw insert-insert refl)))

  -- The rewrites behind the last call.
  abbrev ended : Dict Rewrite
  ended = insert rewrite.token (record rewrite { media = source.media }) s.rewrites

  total_bytes-copied :
      (p : ℕ)
      → p ≤ length source.media
      → total_bytes (copied source.media p rewrite) source.media ≡ next p
  unfolding total_bytes
  total_bytes-copied p inside =
      let here : length (take p source.media) ≡ p = length-take p source.media inside in
      rw here (ground arith)

  -- A call that does not come to the end of the source.
  continue_grpc-more :
      (p : ℕ)
      → p + rewrite.max_bytes < length source.media
      → continue_grpc lib size clock destination (copied source.media p rewrite) (at p)
        ≡ (ok (more rewrite.token (p + rewrite.max_bytes)), at (p + rewrite.max_bytes))
  unfolding continue_grpc
  continue_grpc-more p short =
      let there : next p ≡ p + rewrite.max_bytes = ground arith in
      let total : total_bytes (copied source.media p rewrite) source.media ≡ p + rewrite.max_bytes =
        total_bytes-copied p (omega arith) ∙ there in
      let unfinished : (p + rewrite.max_bytes == length source.media) ≡ false = ground arith in
      rw (advance-copied p (omega arith)) (rw total (rw unfinished (rw there refl)))

  -- A call that does.
  continue_grpc-done :
      (p : ℕ) (blob : Blob) (s' : Database) (b : Bucket)
      → p ≤ length source.media
      → length source.media ≤ p + rewrite.max_bytes
      → lookup rewrite.dst_bucket_name s.buckets ≡ some b
      → init_object lib clock rewrite.origin
          (destination_of destination rewrite.dst_object_name source)
          source.media
          grpc
        ≡ ok blob
      → insert_object rewrite.dst_bucket_name blob grpc rewrite.origin.preconditions s ≡ (ok tt, s')
      → continue_grpc lib size clock destination (copied source.media p rewrite) (at p)
        ≡ (ok (done blob), record s' { rewrites = ended })
  unfolding continue_grpc finish_grpc
  continue_grpc-done p blob s' b inside enough is_bucket made inserted =
      let there : next p ≡ length source.media = ground arith in
      let total : total_bytes (copied source.media p rewrite) source.media ≡ length source.media =
        total_bytes-copied p inside ∙ there in
      let finished : (length source.media == length source.media) ≡ true = ground arith in
      rw (advance-copied p inside) (
        rw total (
          rw finished (
            rw (there, take_all source.media)
              (rw
                (get_bucket-found rewrite.dst_bucket_name b (record s { rewrites = ended })
                  is_bucket)
                (rw made (
                  rw
                    (insert_object-rewrites rewrite.dst_bucket_name blob
                      rewrite.origin.preconditions ended s s' inserted)
                    refl))))))

  -- The calls behind the first one, when `p` bytes are copied.
  poll-copied :
      (fuel p : ℕ) (blob : Blob) (s' : Database) (b : Bucket)
      → p ≤ length source.media
      → length source.media ≤ p + rewrite.max_bytes * suc fuel
      → lookup rewrite.dst_bucket_name s.buckets ≡ some b
      → init_object lib clock rewrite.origin
          (destination_of destination rewrite.dst_object_name source)
          source.media
          grpc
        ≡ ok blob
      → insert_object rewrite.dst_bucket_name blob grpc rewrite.origin.preconditions s ≡ (ok tt, s')
      → poll lib size clock destination rewrite (suc fuel) (some rewrite.token) (at p)
        ≡ (ok (some blob), record s' { rewrites = ended })
  unfolding poll rewrite_object get_rewrite
  poll-copied zero p blob s' b inside enough is_bucket made inserted =
      let one : rewrite.max_bytes * 1 ≡ rewrite.max_bytes = omega arith in
      rw (lookup-inserted rewrite.token (copied source.media p rewrite) s.rewrites)
        (rw (continue_grpc-done p blob s' b inside (omega arith) is_bucket made inserted) refl)
  poll-copied (suc fuel) p blob s' b inside enough is_bucket made inserted =
      let rest_of : rewrite.max_bytes * suc (suc fuel)
          ≡ rewrite.max_bytes + rewrite.max_bytes * suc fuel =
        omega arith in
      rw (lookup-inserted rewrite.token (copied source.media p rewrite) s.rewrites)
        (elim (Bool-cases (ltb (p + rewrite.max_bytes) (length source.media))) [
          | inr last ↦
              rw (continue_grpc-done p blob s' b inside (ground arith) is_bucket made inserted) refl
          | inl short ↦ rw (continue_grpc-more p (ground arith)) (
              poll-copied fuel (p + rewrite.max_bytes) blob s' b (ground arith) (omega arith)
                is_bucket made inserted)
        ])

  -- A new rewrite over gRPC comes to its end, whatever the size of the source, of the windows and of the
  -- (positive) chunks: a client that calls with the token of the last answer gets an object within as many
  -- calls as there are windows in the source, and at least one. The object is the one that `Object.init`
  -- makes of all bytes of the source, and it is inserted; if the source is found and its key passes, the
  -- destination is a bucket, and `Object.init` and the insertion raise nothing.
  pub poll-ends :
      (fuel : ℕ) (blob : Blob) (s' : Database) (b : Bucket)
      → rewrite.media ≡ []
      → length source.media ≤ rewrite.max_bytes * suc fuel
      → lookup rewrite.dst_bucket_name s.buckets ≡ some b
      → init_object lib clock rewrite.origin
          (destination_of destination rewrite.dst_object_name source)
          source.media
          grpc
        ≡ ok blob
      → insert_object rewrite.dst_bucket_name blob grpc rewrite.origin.preconditions s ≡ (ok tt, s')
      → poll lib size clock destination rewrite (suc fuel) none s
        ≡ (ok (some blob), record s' { rewrites = ended })
  poll-ends fuel blob s' b fresh enough is_bucket made inserted =
      let started : rewrite ≡ copied source.media 0 rewrite =
        ap (λ m. record rewrite { media = m }) (fresh ∙ sym (take-zero source.media)) in
      poll-first lib size clock destination rewrite fuel s
      ∙ ap
          (λ r.
            poll lib size clock destination rewrite (suc fuel) (some rewrite.token) (holding r s))
          started
      ∙ poll-copied fuel 0 blob s' b (omega arith) (omega arith) is_bucket made inserted
