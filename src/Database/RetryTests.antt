-- ===== src/Database/RetryTests.antt =====
-- testbench/database.py: the retry tests, queues of faults that clients ask the testbench to inject.
pub mod Queues
use storage_testbench.Base.{
  ℕ, zero, suc, ◌+◌, ◌-◌, Bool, true, false, not, ◌&&◌, Option, none, some, List, [], ◌∷◌, ◌++◌,
  Text, Dict, lookup, contains, insert, erase, codes, text_eq, leb, ◌==◌, length, if◌then◌else◌,
  ◌||◌,
}
use storage_testbench.Errors.{
  Context, rest, Error, Result, ok, err, pure, raise, gets, lift, modify, raise_if, or_raise, ◌>>=◌,
  ◌>>◌, notfound, invalid, unimplemented,
}
use storage_testbench.Database.State.{Database, RetryTest}
use storage_testbench.Database.Access.{Action}
use storage_testbench.Database.Buckets.{nonempty}

-- `c.upper()` on ASCII. (No other character turns into a letter of `HTTP` or `GRPC`.)
unfoldable pub upper_char : ℕ → ℕ
upper_char c = if leb b'a' c && leb c b'z' then c - 32 else c

unfoldable pub upper : Text → Text
unfolding upper_char
upper [] = []
upper (c ∷ s) = upper_char c ∷ upper s

-- `x in xs`
unfoldable pub member : Text → List Text → Bool
member t [] = false
member t (x ∷ xs) = text_eq x t || member t xs

-- `insert_supported_methods`
unfoldable pub insert_supported_methods : List Text → Action Unit
insert_supported_methods methods =
    modify (λ s. record s { supported_methods = s.supported_methods ++ methods })

-- `get_retry_test`. The copy that it returns has the transport in capitals.
unfoldable pub get_retry_test : Text → Action RetryTest
unfolding upper
get_retry_test retry_test_id = do
  retry_test ← or_raise (← gets (λ s. lookup retry_test_id s.retry_tests)) (notfound rest)
  pure (record retry_test { transport = upper retry_test.transport })

-- `__validate_transport`
unfoldable pub validate_transport : Text → Result (Unit {0})
unfolding upper
validate_transport transport =
    if text_eq (upper transport) (codes "HTTP") || text_eq (upper transport) (codes "GRPC")
    then ok tt
    else err (invalid rest)

-- The methods that gRPC supports no retry tests for.
abbrev pub not_supported_grpc_w_retry : List Text
not_supported_grpc_w_retry =
    codes "storage.bucket_acl.get"
    ∷ codes "storage.bucket_acl.list"
    ∷ codes "storage.bucket_acl.delete"
    ∷ codes "storage.bucket_acl.insert"
    ∷ codes "storage.bucket_acl.patch"
    ∷ codes "storage.bucket_acl.update"
    ∷ codes "storage.default_object_acl.get"
    ∷ codes "storage.default_object_acl.list"
    ∷ codes "storage.default_object_acl.delete"
    ∷ codes "storage.default_object_acl.insert"
    ∷ codes "storage.default_object_acl.patch"
    ∷ codes "storage.default_object_acl.update"
    ∷ codes "storage.hmacKey.create"
    ∷ codes "storage.hmacKey.delete"
    ∷ codes "storage.hmacKey.get"
    ∷ codes "storage.hmacKey.list"
    ∷ codes "storage.hmacKey.update"
    ∷ codes "storage.object_acl.get"
    ∷ codes "storage.object_acl.list"
    ∷ codes "storage.object_acl.delete"
    ∷ codes "storage.object_acl.insert"
    ∷ codes "storage.object_acl.patch"
    ∷ codes "storage.object_acl.update"
    ∷ codes "storage.notifications.delete"
    ∷ codes "storage.notifications.get"
    ∷ codes "storage.notifications.insert"
    ∷ codes "storage.notifications.list"
    ∷ codes "storage.serviceaccount.get"
    ∷ []

-- `__validate_grpc_method_implemented_retry`
unfoldable pub validate_grpc_method : Text → Result (Unit {0})
unfolding member
validate_grpc_method method =
    if member method not_supported_grpc_w_retry then err (unimplemented rest) else ok tt

-- The methods below take `is_failure`, which says whether a text matches one of the regular
-- expressions of `__validate_injected_failure_description`.
module _ (is_failure : Text → Bool) where
  unfoldable pub validate_failures : List Text → Result (Unit {0})
  validate_failures [] = ok tt
  validate_failures (failure ∷ failures) =
      let rest_of = validate_failures failures in
      if is_failure failure then rest_of else err (invalid rest)

  -- `__validate_instructions`
  unfoldable pub validate_instructions : List Text → Dict (List Text) → Text → Result (Unit {0})
  unfolding validate_failures validate_grpc_method upper member
  validate_instructions supported [] transport = ok tt
  validate_instructions supported ((method, failures) ∷ d) transport =
      let rest_of = validate_instructions supported d transport in
      if not (member method supported)
      then err (invalid rest)
      else elim (if text_eq (upper transport) (codes "GRPC")
          then validate_grpc_method method
          else ok tt) [
            | err e ↦ err e
            | ok _ ↦ elim (validate_failures failures) [ err e ↦ err e | ok _ ↦ rest_of ]
          ]

  -- `insert_retry_test`, with the identifier that `uuid.uuid4().hex` gives.
  unfoldable pub insert_retry_test : Text → Dict (List Text) → Text → Action RetryTest
  unfolding validate_transport validate_instructions get_retry_test
  insert_retry_test retry_test_id instructions transport = do
    lift (validate_transport transport)
    lift (validate_instructions (← gets (λ s. s.supported_methods)) instructions transport)
    let retry_test : RetryTest = record {
      id = retry_test_id;
      instructions = instructions;
      completed = false;
      transport = upper transport;
    }
    modify (λ s. record s { retry_tests = insert retry_test_id retry_test s.retry_tests })
    get_retry_test retry_test_id

-- `has_instructions_retry_test`
unfoldable pub has_instructions_retry_test : Text → Text → Text → Action Bool
unfolding get_retry_test
has_instructions_retry_test retry_test_id method transport = do
  retry_test ← get_retry_test retry_test_id
  pure (elim (lookup method retry_test.instructions) [
    | none ↦ false
    | some queue ↦ nonempty queue && text_eq (upper retry_test.transport) (upper transport)
  ])

-- The first entry of a queue.
abbrev pub head {ℓ} : {A : Type ℓ} → List A → Option A
head [] = none
head (x ∷ xs) = some x

-- `peek_next_instruction`
unfoldable pub peek_next_instruction : Text → Text → Action (Option Text)
unfolding get_retry_test
peek_next_instruction retry_test_id method = do
  retry_test ← get_retry_test retry_test_id
  pure (elim (lookup method retry_test.instructions) [ none ↦ none | some queue ↦ head queue ])

-- The sum of the lengths of the queues.
unfoldable pub instructions_left : Dict (List Text) → ℕ
instructions_left [] = 0
instructions_left ((method, queue) ∷ d) = length queue + instructions_left d

-- `dequeue_next_instruction` behind the lookup of the queue.
unfoldable pub dequeue : Text → Text → RetryTest → List Text → Action (Option Text)
unfolding instructions_left
dequeue retry_test_id method retry_test [] = pure none
dequeue retry_test_id method retry_test (next_instruction ∷ queue) =
    let instructions = insert method queue retry_test.instructions in
    do
      modify (λ s. record s {
        retry_tests =
            insert retry_test_id
              (record retry_test {
                instructions = instructions;
                completed =
                    if instructions_left instructions == 0 then true else retry_test.completed;
              })
              s.retry_tests;
      })
      pure (some next_instruction)

unfoldable pub dequeue_next_instruction : Text → Text → Action (Option Text)
unfolding dequeue
dequeue_next_instruction retry_test_id method = do
  retry_test ← or_raise (← gets (λ s. lookup retry_test_id s.retry_tests)) (notfound rest)
  dequeue retry_test_id method retry_test
      (elim (lookup method retry_test.instructions) [ none ↦ [] | some queue ↦ queue ])

unfoldable pub delete_retry_test : Text → Action Unit
unfolding get_retry_test
delete_retry_test retry_test_id = do
  get_retry_test retry_test_id
  modify (λ s. record s { retry_tests = erase retry_test_id s.retry_tests })
