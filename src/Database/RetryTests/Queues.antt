-- ===== src/Database/RetryTests/Queues.antt =====
-- The queues of a retry test: first in, first out, and complete when nothing is left.
use storage_testbench.Base.{
  ℕ, zero, suc, ◌+◌, true, Option, none, some, List, [], ◌∷◌, ◌≡◌, refl, Text, Dict, lookup, insert,
  map, arith, if◌then◌else◌, ◌==◌, length, text_eq_refl, lookup-insert,
}
use storage_testbench.Errors.{ok, pure, ◌>>=◌}
use storage_testbench.Database.State.{Database, RetryTest}
use storage_testbench.Database.Access.{Action}
use storage_testbench.Database.RetryTests.{
  dequeue_next_instruction, peek_next_instruction, instructions_left,
}

-- A new queue changes the number of instructions by the difference of the lengths.
pub instructions_left-insert :
    (m : Text) (old queue : List Text) (d : Dict (List Text))
    → lookup m d ≡ some old
    → instructions_left (insert m queue d) + length old ≡ instructions_left d + length queue
unfolding instructions_left insert lookup
instructions_left-insert m old queue [] e = ground arith
instructions_left-insert m old queue ((k, q) ∷ d) e =
    ground (arith, instructions_left-insert m old queue d)

-- The next instruction is what `peek` shows, and `dequeue` takes.
pub peek-dequeue :
    (id m : Text) (s : Database)
    → (peek_next_instruction id m s).0 ≡ (dequeue_next_instruction id m s).0
unfolding peek_next_instruction dequeue_next_instruction
peek-dequeue id m s = ground arith

-- A retry test of the database, with the queue of one of its methods.
pub record HasQueue (id m : Text) (queue : List Text) (t : RetryTest) (s : Database) : Type 0 where
  pub registered : lookup id s.retry_tests ≡ some t
  pub queued : lookup m t.instructions ≡ some queue

-- The retry test behind a call that takes an instruction.
unfoldable pub advance : Text → List Text → RetryTest → RetryTest
advance m queue t = record t {
  instructions = insert m queue t.instructions;
  completed = if instructions_left (insert m queue t.instructions) == 0 then true else t.completed;
}

pub dequeue_next_instruction_lem :
    (id m x : Text) (queue : List Text) (t : RetryTest) (s : Database)
    → HasQueue id m (x ∷ queue) t s
    → ((dequeue_next_instruction id m s).0 ≡ ok (some x))
      × HasQueue id m queue (advance m queue t) (dequeue_next_instruction id m s).1
unfolding dequeue_next_instruction advance
dequeue_next_instruction_lem id m x queue t s h = (
  ground (arith, h.registered, h.queued),
  record {
    registered = ground (
      arith,
      h.registered,
      h.queued,
      lookup-insert id id (advance m queue t) s.retry_tests,
      text_eq_refl id,
    );
    queued = ground (arith, lookup-insert m m queue t.instructions, text_eq_refl m);
  },
)

-- A client that takes instructions a number of times.
unfoldable pub drain : ℕ → Text → Text → Action (List (Option Text))
drain zero id m = pure []
drain (suc k) id m = do x ← dequeue_next_instruction id m; xs ← drain k id m; pure (x ∷ xs)

unfoldable pub drained : Text → List Text → RetryTest → RetryTest
drained m [] t = t
drained m (x ∷ queue) t = drained m queue (advance m queue t)

drain_lem :
    (id m : Text) (queue : List Text) (t : RetryTest) (s : Database)
    → HasQueue id m queue t s
    → ((drain (length queue) id m s).0 ≡ ok (map some queue))
      × HasQueue id m [] (drained m queue t) (drain (length queue) id m s).1
unfolding drain drained
drain_lem id m [] t s h = (refl, h)
drain_lem id m (x ∷ queue) t s h =
    let (taken, left) = dequeue_next_instruction_lem id m x queue t s h in
    let (rest_taken, rest_left) =
      drain_lem id m queue (advance m queue t) (dequeue_next_instruction id m s).1 left in
    rw taken (rw rest_taken (refl, rest_left))

drained-completed :
    (m x : Text) (queue : List Text) (t : RetryTest)
    → lookup m t.instructions ≡ some (x ∷ queue)
    → instructions_left t.instructions ≡ length (x ∷ queue)
    → (drained m (x ∷ queue) t).completed ≡ true
unfolding drained advance
drained-completed m x [] t queued left =
    ground (arith, instructions_left-insert m (x ∷ []) [] t.instructions queued)
drained-completed m x (y ∷ queue) t queued left =
    drained-completed m y queue (advance m (y ∷ queue) t)
      (ground (arith, lookup-insert m m (y ∷ queue) t.instructions, text_eq_refl m))
      (omega (arith, instructions_left-insert m (x ∷ y ∷ queue) (y ∷ queue) t.instructions queued))

-- A client that takes as many instructions as the queue of a method has is handed all of them, in the
-- order of the queue, and the queue is empty then.
pub drain_in_order :
    (id m : Text) (queue : List Text) (t : RetryTest) (s : Database)
    → HasQueue id m queue t s
    → ((drain (length queue) id m s).0 ≡ ok (map some queue))
      × ((dequeue_next_instruction id m (drain (length queue) id m s).1).0 ≡ ok none)
unfolding dequeue_next_instruction
drain_in_order id m queue t s h =
    let (taken, left) = drain_lem id m queue t s h in
    (taken, ground (arith, left.registered, left.queued))

-- A client that takes all instructions of the only queue of a retry test that has any left, leaves the
-- retry test completed.
pub drain-completed :
    (id m x : Text) (queue : List Text) (t : RetryTest) (s : Database)
    → HasQueue id m (x ∷ queue) t s
    → instructions_left t.instructions ≡ length (x ∷ queue)
    → (t' : RetryTest) × (lookup id (drain (length (x ∷ queue)) id m s).1.retry_tests ≡ some t')
      × (t'.completed ≡ true)
drain-completed id m x queue t s h left = (
  drained m (x ∷ queue) t,
  (drain_lem id m (x ∷ queue) t s h).1.registered,
  drained-completed m x queue t h.queued left,
)
