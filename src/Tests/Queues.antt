-- ===== src/Tests/Queues.antt =====
-- The theorems on retry tests at a concrete input.
use storage_testbench.Base.{
  false, some, none, List, [], ◌∷◌, ◌≡◌, refl, Text, codes, map, lookup, text_eq,
}
use storage_testbench.Errors.{ok}
use storage_testbench.Database.State.{Database, RetryTest, init}
use storage_testbench.Database.RetryTests.{
  has_instructions_retry_test, upper, peek_next_instruction, dequeue_next_instruction,
}
use storage_testbench.Instructions.{insert_method, to_int, get_retry_uploads_error_after_bytes}
use storage_testbench.Instructions.Rendered.{
  render, all_in, get_retry_uploads_error_after_bytes-render,
}
use storage_testbench.Tests.{album, photos, photos_bucket}
use storage_testbench.Database.RetryTests.Queues.{HasQueue, drain, drain_in_order}

abbrev m : Text
m = codes "storage.objects.get"

abbrev queue : List Text
queue = codes "return-503" ∷ codes "return-reset-connection" ∷ []

abbrev retry_test : RetryTest
retry_test = record {
  id = codes "t";
  instructions = (m, queue) ∷ [];
  completed = false;
  transport = codes "HTTP";
}

abbrev state : Database
state = record init { retry_tests = (codes "t", retry_test) ∷ [] }

state-HasQueue : HasQueue (codes "t") m queue retry_test state
unfolding lookup text_eq
state-HasQueue = record { registered = refl; queued = refl }

drain_in_order_example :
    ((drain 2 (codes "t") m state).0 ≡ ok (map some queue))
    × ((dequeue_next_instruction (codes "t") m (drain 2 (codes "t") m state).1).0 ≡ ok none)
drain_in_order_example = drain_in_order (codes "t") m queue retry_test state state-HasQueue

-- An instruction to fail with 503 behind 256 KiB of an upload.
abbrev faulty : Database
faulty = record init {
  retry_tests =
      (
        codes "t",
        record {
          id = codes "t";
          instructions = (insert_method, render (codes "503") (codes "256") ∷ []) ∷ [];
          completed = false;
          transport = codes "HTTP";
        },
      )
      ∷ [];
}

get_retry_uploads_error_after_bytes-render_example :
    get_retry_uploads_error_after_bytes (some (codes "t")) (codes "HTTP") faulty
    ≡ (ok (503, 262144, codes "t"), faulty)
unfolding to_int lookup text_eq has_instructions_retry_test peek_next_instruction all_in upper
get_retry_uploads_error_after_bytes-render_example =
    get_retry_uploads_error_after_bytes-render 116 [] (codes "HTTP") 53 50 (codes "03") (codes "56")
      faulty refl refl refl refl

-- One bucket says that it is unreachable.
abbrev two_buckets : Database
two_buckets = record album {
  buckets =
      (photos, photos_bucket)
      ∷ (
        codes "projects/_/buckets/unreachable-b",
        record photos_bucket { name = codes "projects/_/buckets/unreachable-b" },
      )
      ∷ [];
}
