-- ===== src/Tests/Formats.antt =====
-- The theorems on names, media, uploads and preconditions at concrete inputs.
use storage_testbench.Base.{
  slice, take, drop, ℕ, suc, ap, if◌then◌else◌, false, not, ◌&&◌, none, some, Option, [], ◌∷◌, ◌++◌,
  ◌≡◌, refl, Text, codes, text_eq, starts_with, arith, ℤ, pos, List, true,
}
use storage_testbench.Errors.{rest, grpc}
use storage_testbench.Database.State.{RetryTest, init}
use storage_testbench.Database.Access.{check_object}
use storage_testbench.Pathing.{
  escape, unescape, classify, needs_overflow, ends_with, has_char, split, is_dots, utf8_length,
  has_bad_segment, validate_bucket_name, matches_all, is_reserved,
}
use storage_testbench.Pathing.Escape.{unescape-escape}
use storage_testbench.Pathing.Segments.{IsSafe, classify-IsSafe}
use storage_testbench.Pathing.BucketNames.{validate_bucket_name_lem}
use storage_testbench.Media.{
  Bytes, concat, run_chunks, each_at_most, run_chunks-ends, append_all, new_media,
  append_all-new_media,
}
use storage_testbench.Uploads.{Session, commit_partial, method}
use storage_testbench.Uploads.Partial.{commit_partial_lem}
use storage_testbench.Preconditions.Values.{Arg, absent, integer}
use storage_testbench.Preconditions.Json.{make_json_preconditions}
use storage_testbench.Preconditions.Grpc.{make_grpc_preconditions}
use storage_testbench.Preconditions.Spec.{Conditions, outcome, json_outcome, grpc_outcome}
use storage_testbench.Tests.{cat, upload}

unescape-escape_example : unescape (escape (codes "100%25")) ≡ codes "100%25"
unescape-escape_example = unescape-escape (codes "100%25")

-- Stands for SHA-256.
abbrev token : Text → Text
token name = codes "token"

classify-IsSafe_example : IsSafe (codes "a/b%25")
unfolding classify escape needs_overflow ends_with starts_with text_eq has_char split is_dots
    utf8_length has_bad_segment
classify-IsSafe_example = classify-IsSafe token (codes "a/b%") (codes "a/b%25") refl

validate_bucket_name_lem_example :
    validate_bucket_name (codes "my-bucket")
    ≡ (matches_all (codes "my-bucket") && not (is_reserved (codes "my-bucket")))
unfolding has_char
validate_bucket_name_lem_example = validate_bucket_name_lem (codes "my-bucket") refl

abbrev buffer : Bytes
buffer = 1 ∷ 2 ∷ 3 ∷ 4 ∷ 5 ∷ 6 ∷ 7 ∷ []

run_chunks-ends_example :
    (cs : List Bytes) × (run_chunks 7 buffer 1 7 4 ≡ some cs)
    × (concat cs ≡ slice 1 7 buffer)
    × (each_at_most 4 cs ≡ true)
run_chunks-ends_example = run_chunks-ends 7 buffer 1 7 4 (omega arith) (omega arith)

-- Stands for the CRC: the number of bytes. Stands for the MD5 state: the bytes.
abbrev count : Bytes → ℕ → ℕ
count [] seed = seed
count (b ∷ bs) seed = count bs (suc seed)

count-chains : (a b : Bytes) (seed : ℕ) → count (a ++ b) seed ≡ count b (count a seed)
count-chains [] b seed = refl
count-chains (x ∷ a) b seed = count-chains a b (suc seed)

abbrev md5_feed : Bytes → Bytes → Bytes
md5_feed s b = s ++ b

md5_feed-chains : (s a b : Bytes) → md5_feed (md5_feed s a) b ≡ md5_feed s (a ++ b)
md5_feed-chains [] a b = refl
md5_feed-chains (x ∷ s) a b = ap (λ r. x ∷ r) (md5_feed-chains s a b)

append_all-new_media_example :
    append_all count [] md5_feed
      ((3 ∷ []) ∷ (4 ∷ 5 ∷ []) ∷ [])
      (new_media count [] md5_feed (1 ∷ 2 ∷ []))
    ≡ new_media count [] md5_feed ((1 ∷ 2 ∷ []) ++ concat ((3 ∷ []) ∷ (4 ∷ 5 ∷ []) ∷ []))
append_all-new_media_example =
    append_all-new_media count [] md5_feed count-chains md5_feed-chains (1 ∷ 2 ∷ [])
      ((3 ∷ []) ∷ (4 ∷ 5 ∷ []) ∷ [])

-- The first three bytes have arrived.
abbrev session : Session
session = record { upload = upload (1 ∷ 2 ∷ 3 ∷ []); database = init }

-- The upload is to fail behind its fifth byte.
abbrev failing : RetryTest
failing = record {
  id = codes "t";
  instructions = (method, codes "return-503-after-5" ∷ []) ∷ [];
  completed = false;
  transport = codes "GRPC";
}

abbrev to_fail : Session
to_fail = record session { database = record init { retry_tests = (codes "t", failing) ∷ [] } }

commit_partial_lem_example :
    commit_partial (slice 2 7 buffer) 5 2 2 6 session
    ≡ record session { upload = record session.upload { media = take 5 buffer; complete = false } }
unfolding take drop
commit_partial_lem_example =
    commit_partial_lem buffer 2 6 5 2 (omega arith) (omega arith) (omega arith) (omega arith)
      session refl (λ _. omega arith) (λ e. ground arith)

-- A request that asks for generation 12, and for a metageneration other than 9.
abbrev conditions : Conditions
conditions = record {
  metageneration_match = none;
  metageneration_not_match = some (pos 9);
  generation_match = some (pos 12);
  generation_not_match = none;
}

abbrev args : Text → Arg
args name =
    if text_eq name (codes "ifGenerationMatch")
    then integer (pos 12)
    else if text_eq name (codes "ifMetagenerationNotMatch")
    then integer (pos 9)
    else absent

abbrev field : Text → Option ℤ
field name =
    if text_eq name (codes "if_generation_match")
    then some (pos 12)
    else if text_eq name (codes "if_metageneration_not_match")
    then some (pos 9)
    else none

json_outcome_example :
    check_object (make_json_preconditions args (codes "if")) (some (cat 12)) (some 12) rest
    ≡ outcome conditions 1 12 rest
unfolding text_eq
json_outcome_example =
    json_outcome (cat 12) 11 rest conditions (omega arith) args (codes "if")
      (record { m = refl; mn = refl; g = refl; gn = refl })

grpc_outcome_example :
    check_object (make_grpc_preconditions field (codes "if_")) (some (cat 12)) (some 12) grpc
    ≡ outcome conditions 1 12 grpc
unfolding text_eq
grpc_outcome_example =
    grpc_outcome (cat 12) 11 grpc conditions (omega arith) field (codes "if_")
      (record { m = refl; mn = refl; g = refl; gn = refl })
