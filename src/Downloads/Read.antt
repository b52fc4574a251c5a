-- ===== src/Downloads/Read.antt =====
-- `ReadObject` of testbench/grpc_server.py. The responses are the list of what is yielded; an abort in the
-- middle of the stream stands behind them.
pub mod Streams
use storage_testbench.Base.{
  ℕ, zero, suc, ◌+◌, ◌-◌, ◌%◌, min, Bool, true, false, not, ◌&&◌, ◌||◌, ◌==◌, leb, ltb, Option,
  none, some, List, [], ◌∷◌, ◌++◌, Text, codes, slice, length, ℤ, pos, negsuc, if◌then◌else◌,
}
use storage_testbench.Errors.{
  grpc, Error, py, type_error, grpc_abort, StatusCode, range_not_satisfiable, Result, ok, err, pure,
  raise, raise_if, ◌>>=◌, ◌>>◌,
}
use storage_testbench.Database.State.{Database, Blob, ObjectPrecondition}
use storage_testbench.Database.Access.{Action}
use storage_testbench.Database.Buckets.{or_none_type}
use storage_testbench.Database.Objects.{get_object}
use storage_testbench.Database.RetryTests.{
  has_instructions_retry_test, peek_next_instruction, dequeue_next_instruction,
}
use storage_testbench.Instructions.Tokens.{get_broken_stream_after_bytes}
use storage_testbench.Media.{Bytes, chunks}

pub record ReadRequest : Type 0 where
  pub bucket : Text
  pub object : Text
  pub generation : ℕ
  pub preconditions : List ObjectPrecondition
  pub read_offset : ℤ
  pub read_limit : ℤ
  pub test_id : Option Text

-- `start`, `end` and `complete_length`
pub record ContentRange : Type 0 where
  pub start : ℕ
  pub end : ℕ
  pub complete_length : ℕ

pub record ReadResponse : Type 0 where
  pub content : Bytes
  pub crc32c : ℕ
  pub metadata : Option Blob
  pub content_range : Option ContentRange

-- `start`: a negative offset counts from the end.
unfoldable pub read_start : ℤ → ℕ → ℕ
read_start (pos n) size = n
read_start (negsuc n) size = size - suc n

-- `read_end`: the end, or the limit if it is positive.
unfoldable pub read_end : ℤ → ℕ → ℕ → ℕ
read_end (pos zero) start size = size
read_end (pos (suc n)) start size = min size (start + suc n)
read_end (negsuc n) start size = size

abbrev is_positive : ℤ → Bool
is_positive (pos (suc n)) = true
is_positive _ = false

unfoldable pub read_range : ReadRequest → ℕ → ℕ → ℕ → Option ContentRange
read_range r start end size =
    if is_positive r.read_offset || is_positive r.read_limit
    then some (record { start = start; end = end; complete_length = size })
    else none

abbrev pub read_method : Text
read_method = codes "storage.objects.get"

abbrev instructed : Option Text → Action ℕ
instructed none = raise (py type_error)
instructed (some instruction) = pure (get_broken_stream_after_bytes instruction)

-- `broken_stream_after_bytes`
unfoldable pub broken_stream_after : Option Text → Action ℕ
broken_stream_after none = pure 0
broken_stream_after (some []) = pure 0
broken_stream_after (some (c ∷ test_id)) = do
  has ← has_instructions_retry_test (c ∷ test_id) read_method (codes "GRPC")
  (if has then (peek_next_instruction (c ∷ test_id) read_method >>= instructed) else pure 0)

-- Behind the first response there is no metadata and no range any more.
pub record Head : Type 0 where
  pub metadata : Option Blob
  pub content_range : Option ContentRange

abbrev pub no_head : Head
no_head = record { metadata = none; content_range = none }

module _ (crc32c : Bytes → ℕ) (broken : ℕ) (media : Bytes) where
  abbrev pub respond : Head → Bytes → ReadResponse
  respond head content = record {
    content = content;
    crc32c = crc32c content;
    metadata = head.metadata;
    content_range = head.content_range;
  }

  -- `broken_stream_after_bytes and end >= broken_stream_after_bytes`
  abbrev pub is_due : ℕ → Bool
  is_due end = not (broken == 0) && leb broken end

  -- The loop over the chunks, and what `behind` gives once it is at its end; `true` if the stream is broken.
  unfoldable pub stream :
      List Bytes → ℕ → Head → (Head → List ReadResponse × Bool) → List ReadResponse × Bool
  stream [] position head behind = behind head
  stream (chunk ∷ rest_of) position head behind =
      let end = position + length chunk in
      let (responses, is_broken) = stream rest_of end no_head behind in
      if is_due end
      then (respond head (slice position broken media) ∷ [], true)
      else (respond head chunk ∷ responses, is_broken)

  -- The empty response behind a range of whole chunks.
  unfoldable pub stream_end : ℕ → ℕ → ℕ → Head → List ReadResponse × Bool
  stream_end size start end head =
      if (end - start) % size == 0
      then if is_due end
        then (respond head (slice end broken media) ∷ [], true)
        else (respond head [] ∷ [], false)
      else ([], false)

  unfoldable pub stream_range : ℕ → ℕ → ℕ → Head → List ReadResponse × Bool
  unfolding stream stream_end chunks
  stream_range size start end head =
      stream (chunks (end - start) media start end size) start head (stream_end size start end)

-- The abort of a broken stream, behind its responses.
unfoldable pub break_stream :
    Option Text → List ReadResponse × Bool → Action (List ReadResponse × Option Error)
break_stream test_id (responses, false) = pure (responses, none)
break_stream none (responses, true) =
    pure (responses, some (grpc_abort (some StatusCode.unavailable)))
break_stream (some test_id) (responses, true) = λ s.
    let (r, s') = dequeue_next_instruction test_id read_method s in
    (
      elim r [
        | err e ↦ ok (responses, some e)
        | ok _ ↦ ok (responses, some (grpc_abort (some StatusCode.unavailable)))
      ],
      s',
    )

-- `ReadObject`
unfoldable pub read_object :
    (Bytes → ℕ) → ℕ → ReadRequest → Action (List ReadResponse × Option Error)
read_object crc32c size r = do
  blob ← or_none_type (← get_object r.bucket r.object grpc (some r.generation) r.preconditions)
  let start = read_start r.read_offset (length blob.media)
  raise_if (ltb (length blob.media) start) (range_not_satisfiable grpc)
  let end = read_end r.read_limit start (length blob.media)
  broken ← broken_stream_after r.test_id
  break_stream r.test_id (
      stream_range crc32c broken blob.media size start end (record {
        metadata = some blob;
        content_range = read_range r start end (length blob.media);
      }))
