-- ===== src/Tests/Transfers.antt =====
-- The theorems on the transfer of bytes at a concrete input.
use storage_testbench.Base.{
  ℕ, suc, ◌+◌, true, false, none, some, List, [], ◌∷◌, ◌≡◌, refl, codes, text_eq, starts_with,
  length, lookup, insert, alter, take, drop, slice, inl, arith, pos, negsuc,
}
use storage_testbench.Errors.{rest, grpc, ok, grpc_abort, StatusCode}
use storage_testbench.Database.State.{Database, Blob, Rewrite}
use storage_testbench.Database.Access.{
  bucket_key, check_object, check_bucket, get_bucket_for_object, get_live_generation,
}
use storage_testbench.Database.Objects.{
  get_object, get_object_entry, fetch_object, lookup_generation, insert_object, commit_object,
  current_object,
}
use storage_testbench.Database.Buckets.{insert_bucket}
use storage_testbench.Database.Requests.{serve, handle}
use storage_testbench.Database.RetryTests.{
  dequeue_next_instruction, has_instructions_retry_test, peek_next_instruction, upper,
}
use storage_testbench.Instructions.Tokens.{get_broken_stream_after_bytes}
use storage_testbench.Blobs.Keys.{validation, check}
use storage_testbench.Database.Key.{bucket_name_to_proto, object_key, digits_rev}
use storage_testbench.Media.{Bytes}
use storage_testbench.Blobs.{Codecs}
use storage_testbench.Blobs.Create.{
  Clock, init_object, new_blob, received, check_checksums, check_md5, check_crc32c,
  check_rest_crc32c, check_rest_md5, new_key, IsChecked, init_object-IsChecked,
}
use storage_testbench.Uploads.Write.{
  Spec, Message, no_first, write_object_spec, init_first_write, note_checksums, write_object,
  resource,
}
use storage_testbench.Uploads.Write.Chunks.{
  message, Sends, sent, send, finishes, write_object-Sends,
}
use storage_testbench.Uploads.Resumable.{
  from_to, content_range_split, ChunkRequest, note_request, apply_final_checksums,
}
use storage_testbench.Uploads.Resumable.Chunks.{
  Brings, Delivers, ends, goes_on, send_chunks, send_chunks-Delivers,
}
use storage_testbench.Uploads.Resumable.Ranges.{content_range, content_range_split-content_range}
use storage_testbench.Rewrites.{resource_of, destination_of}
use storage_testbench.Rewrites.Progress.{poll, poll-ends}
use storage_testbench.Downloads.Read.{
  ReadRequest, ReadResponse, read_object, read_start, read_end, broken_stream_after,
}
use storage_testbench.Downloads.Read.Streams.{
  contents, first_metadata, last_bytes, read_object-intact, read_object-broken,
}
use mathlib.Core.Option
use storage_testbench.Tests.{album, photos, photos_bucket, plain, cat, cat_resource, upload}

abbrev sum : List ℕ → ℕ
sum [] = 0
sum (b ∷ bs) = b + sum bs

-- A sum in place of the CRC, and no other hash or encoding.
abbrev codecs : Codecs
codecs = record {
  crc32c = sum;
  md5 = λ b. b;
  sha256 = λ b. b;
  encode64 = λ b. b;
  decode64 = λ t. some t;
}

abbrev noon : Clock
noon = record { now = 40; generation = 30; letter = 120 }

abbrev bytes : Bytes
bytes = 7 ∷ 8 ∷ 9 ∷ []

abbrev spec : Spec
spec = record { bucket_name = photos; resource = cat_resource; origin = plain }

abbrev written : Blob
written =
    new_blob codecs noon (note_checksums codecs none (init_first_write (codes "n") spec)).metadata
      bytes []

-- The first two bytes, and then the last two.
abbrev second_messages : List Message
second_messages = message codecs.crc32c bytes no_first 1 3 false true ∷ []

abbrev second_messages-Sends : Sends codecs.crc32c bytes 2 second_messages 3
second_messages-Sends = send 1 3 false true (omega arith) (omega arith) sent

write_object-Sends_example :
    write_object codecs noon none
      (codes "n")
      (message codecs.crc32c bytes (write_object_spec spec) 0 2 true false ∷ second_messages)
      album
    ≡ (ok (resource written), (insert_object photos written grpc [] album).1)
unfolding init_object received check_checksums check_md5 check_crc32c check_rest_crc32c
    check_rest_md5 new_key note_checksums init_first_write insert lookup text_eq insert_object
    get_bucket_for_object get_live_generation commit_object check_object bucket_key alter finishes
    starts_with serve insert_bucket bucket_name_to_proto
write_object-Sends_example =
    write_object-Sends codecs noon (codes "n") spec bytes 2 true false second_messages photos_bucket
      album refl (omega arith) second_messages-Sends refl written
      (insert_object photos written grpc [] album).1 refl refl

init_object-IsChecked_example :
    IsChecked codecs cat_resource (new_blob codecs noon cat_resource bytes [])
unfolding init_object received check_checksums check_md5 check_crc32c check_rest_crc32c
    check_rest_md5 new_key lookup
init_object-IsChecked_example =
    init_object-IsChecked codecs noon plain cat_resource bytes rest
      (new_blob codecs noon cat_resource bytes []) refl

-- A copy of the cat, two bytes a call.
abbrev copying : Rewrite
copying = record {
  token = codes "t";
  src_bucket_name = photos;
  src_object_name = codes "cat";
  dst_bucket_name = photos;
  dst_object_name = codes "copy";
  origin = plain;
  max_bytes = 2;
  media = [];
}

abbrev copy : Blob
copy = new_blob codecs noon (resource_of (codes "copy") (cat 15)) bytes []

abbrev with_copy : Database
with_copy = (insert_object photos copy grpc [] album).1

poll-ends_example : poll codecs 1 noon none copying 2 none album ≡ (
  ok (some copy),
  record with_copy {
    rewrites = insert (codes "t") (record copying { media = bytes }) album.rewrites;
  },
)
unfolding bucket_key bucket_name_to_proto serve handle insert_bucket insert_object lookup insert
    alter text_eq check_object get_object get_object_entry check_bucket lookup_generation object_key
    digits_rev fetch_object init_object received check_checksums check_md5 check_crc32c
    check_rest_crc32c check_rest_md5 new_key commit_object get_bucket_for_object get_live_generation
    current_object destination_of resource_of validation check
poll-ends_example =
    poll-ends codecs 1 noon none copying (cat 15) album (omega arith) refl refl 1 copy with_copy
      photos_bucket refl (omega arith) refl refl refl

-- Two bytes of an upload over REST, and then the last two.
abbrev request : ℕ → ℕ → ChunkRequest
request first last = record {
  content = slice first (suc last) bytes;
  content_length = some (length (slice first (suc last) bytes));
  content_range = some (content_range first last 3);
  hash = [];
  custom_header = codes "None";
  transfer_encodings = [];
  test_id = none;
  instruction = none;
  no_308 = false;
}

request-Brings : (first last : ℕ) → Brings bytes first last (request first last)
request-Brings first last = record {
  brought = refl;
  length_stated = refl;
  header = content_range first last 3;
  ranged = refl;
  split = content_range_split-content_range first last 3;
  no_test = refl;
  no_instruction = refl;
}

abbrev requests : List ChunkRequest
requests = request 0 1 ∷ request 1 2 ∷ []

abbrev requests-Delivers : Delivers bytes 0 requests (request 1 2)
requests-Delivers =
    goes_on 0 1 (request 0 1) (omega arith) (λ e. ground arith) (omega arith) (request-Brings 0 1)
      (ends 1 2 (request 1 2) (omega arith) (λ e. refl) refl (request-Brings 1 2))

abbrev uploaded : Blob
uploaded = note_request (request 1 2) (new_blob codecs noon cat_resource bytes [])

abbrev with_uploaded : Database
with_uploaded = (insert_object (codes "photos") uploaded rest [] album).1

send_chunks-Delivers_example :
    send_chunks codecs noon
      (codes "photos")
      (codes "u")
      requests
      (record album { uploads = insert (codes "u") (upload []) album.uploads })
    ≡ (
      ok (some uploaded),
      record with_uploaded {
        uploads = insert (codes "u") (record (upload bytes) { complete = true }) album.uploads;
      },
    )
unfolding insert note_request apply_final_checksums send_chunks init_object lookup insert_object
    serve insert_bucket text_eq bucket_key bucket_name_to_proto check_object alter take drop
    received check_checksums check_md5 check_crc32c check_rest_crc32c check_rest_md5 new_key
    commit_object get_bucket_for_object get_live_generation current_object
send_chunks-Delivers_example =
    send_chunks-Delivers codecs noon (codes "photos") (codes "u") bytes (upload []) album (inl refl)
      (new_blob codecs noon cat_resource bytes []) with_uploaded (omega arith) requests-Delivers
      refl refl

content_range_split-content_range_example :
    content_range_split (content_range 0 1 3) ≡ some (from_to 0 (some 1), some 3)
content_range_split-content_range_example = content_range_split-content_range 0 1 3

-- A read of the last two bytes.
abbrev reading : ReadRequest
reading = record {
  bucket = photos;
  object = codes "cat";
  generation = 0;
  preconditions = [];
  read_offset = negsuc 1;
  read_limit = pos 0;
  test_id = none;
}

read_object-intact_example :
    (responses : List ReadResponse) × (read_object sum 1
        (record reading { read_limit = pos 1 })
        album
      ≡ (ok (responses, none), album))
    × (contents responses ≡ 8 ∷ [])
    × (first_metadata responses ≡ some (cat 15))
unfolding bucket_key bucket_name_to_proto serve handle insert_bucket insert_object lookup insert
    alter text_eq check_object get_object get_object_entry check_bucket lookup_generation object_key
    digits_rev fetch_object last_bytes take drop
read_object-intact_example =
    read_object-intact sum 1 (record reading { read_limit = pos 1 }) (cat 15) album (omega arith)
      refl refl (λ n e. ground arith)

-- An object of five bytes, and a stream that breaks behind the fourth.
abbrev dog : Blob
dog = record (cat 20) { name = codes "dog"; size = 5; media = 1 ∷ 2 ∷ 3 ∷ 4 ∷ 5 ∷ [] }

abbrev breaking : Database
breaking = record (insert_object photos dog grpc [] album).1 {
  retry_tests =
      (
        codes "t",
        record {
          id = codes "t";
          instructions = (codes "storage.objects.get", codes "return-broken-stream" ∷ []) ∷ [];
          completed = false;
          transport = codes "GRPC";
        },
      )
      ∷ [];
}

abbrev broken_off : Database
broken_off = (dequeue_next_instruction (codes "t") (codes "storage.objects.get") breaking).1

read_object-broken_example :
    (responses : List ReadResponse) × (read_object sum 3
        (record reading { object = codes "dog"; read_offset = pos 1; test_id = some (codes "t") })
        breaking
      ≡ (ok (responses, some (grpc_abort (some StatusCode.unavailable))), broken_off))
    × (contents responses ≡ 2 ∷ 3 ∷ 4 ∷ [])
unfolding bucket_key bucket_name_to_proto serve handle insert_bucket insert_object lookup insert
    alter text_eq check_object get_object get_object_entry check_bucket lookup_generation object_key
    digits_rev fetch_object get_bucket_for_object get_live_generation commit_object current_object
    read_start read_end take drop broken_stream_after has_instructions_retry_test
    peek_next_instruction dequeue_next_instruction upper get_broken_stream_after_bytes
read_object-broken_example =
    read_object-broken sum 3
      (record reading { object = codes "dog"; read_offset = pos 1; test_id = some (codes "t") }) dog
      breaking (omega arith) refl (codes "t") 4 (some (codes "return-broken-stream")) broken_off
      refl refl refl (omega arith) (omega arith) (omega arith) (omega arith)
