-- ===== src/Blobs/Create.antt =====
-- gcs/object.py: `Object.init`. The access control list, the retention and the contexts of the new object
-- are not modelled.
use storage_testbench.Base.{
  ℕ, Bool, not, ◌==◌, Option, none, some, List, [], ◌∷◌, Text, codes, text_eq, length, lookup,
  if◌then◌else◌, ◌≡◌, ◌≢◌, refl, sym, subst, arith, text_eq_iff, Option-cases, inl, inr,
}
use storage_testbench.Errors.{
  Context, Error, PyError, py, value_error, struct_error, mismatch, Result, ok, err, Result-cases,
}
use storage_testbench.Database.State.{Blob, Resource, Encryption, Origin}
use storage_testbench.Blobs.{Codecs}
use storage_testbench.Blobs.Checksums.{rest_crc32c_to_proto, rest_md5_to_proto}
use storage_testbench.Blobs.Keys.{check}

-- The time of a call, the generation that `make_generation` gives, and the letter of
-- `random.sample`.
pub record Clock : Type 0 where
  pub now : ℕ
  pub generation : ℕ
  pub letter : ℕ

-- `corrupt_media`
unfoldable pub corrupt_media : ℕ → List ℕ → List ℕ
corrupt_media letter [] = letter ∷ []
corrupt_media letter (b ∷ media) = if b == 65 then 66 ∷ media else 65 ∷ media

-- The first statements of `init`.
unfoldable pub received : Clock → Option Text → List ℕ → List ℕ
unfolding corrupt_media
received clock none media = media
received clock (some instruction) media =
    if text_eq instruction (codes "inject-upload-data-error")
    then corrupt_media clock.letter media
    else media

-- `if b: return self.mismatch(...)`, before the rest
abbrev unless : Bool → Error → Result (Unit {0}) → Result (Unit {0})
unless b e rest_of = if b then err e else rest_of

-- What the source raises for a CRC-32C that it cannot read: of base64, or of the four bytes.
abbrev undecoded : Option (List ℕ) → PyError
undecoded none = value_error
undecoded (some b) = struct_error

module _ (lib : Codecs) where
  -- A checksum of the custom metadata, where a failure to decode it raises.
  unfoldable pub check_rest_crc32c :
      Option Text → ℕ → Context → Result (Unit {0}) → Result (Unit {0})
  unfolding rest_crc32c_to_proto
  check_rest_crc32c none actual context rest_of = rest_of
  check_rest_crc32c (some []) actual context rest_of = rest_of
  check_rest_crc32c (some (c ∷ t)) actual context rest_of =
      elim (rest_crc32c_to_proto lib (c ∷ t)) [
        | none ↦ err (py (undecoded (lib.decode64 (c ∷ t))))
        | some got ↦ unless (not (actual == got)) (mismatch context) rest_of
      ]

  unfoldable pub check_rest_md5 :
      Option Text → List ℕ → Context → Result (Unit {0}) → Result (Unit {0})
  unfolding rest_md5_to_proto
  check_rest_md5 none actual context rest_of = rest_of
  check_rest_md5 (some []) actual context rest_of = rest_of
  check_rest_md5 (some (c ∷ t)) actual context rest_of = elim (rest_md5_to_proto lib (c ∷ t)) [
    | none ↦ err (py value_error)
    | some got ↦ unless (not (text_eq actual got)) (mismatch context) rest_of
  ]

  unfoldable pub check_md5 : List ℕ → List ℕ → Context → Result (Unit {0}) → Result (Unit {0})
  check_md5 [] actual context rest_of = rest_of
  check_md5 (b ∷ md5) actual context rest_of =
      unless (not (text_eq actual (b ∷ md5))) (mismatch context) rest_of

  unfoldable pub check_crc32c : Option ℕ → ℕ → Context → Result (Unit {0}) → Result (Unit {0})
  check_crc32c none actual context rest_of = rest_of
  check_crc32c (some c) actual context rest_of =
      unless (not (actual == c)) (mismatch context) rest_of

  unfoldable pub check_checksums : Resource → List ℕ → Context → Result (Unit {0})
  unfolding check_md5 check_crc32c check_rest_crc32c check_rest_md5
  check_checksums r media context = check_md5 r.md5_hash (lib.md5 media) context (
      check_crc32c r.crc32c (lib.crc32c media) context (
        check_rest_crc32c (lookup (codes "x_emulator_crc32c") r.metadata) (lib.crc32c media) context
          (check_rest_md5 (lookup (codes "x_emulator_md5") r.metadata) (lib.md5 media) context
            (ok tt))))

  -- The SHA-256 of the customer's key of a new object: that of the request, or if the request names no
  -- algorithm what the metadata has.
  unfoldable pub new_key : Encryption → List ℕ → Context → Result (List ℕ)
  unfolding check
  new_key e kept context = elim e.algorithm [
    | [] ↦ ok kept
    | c ∷ algorithm ↦ elim (lib.decode64 e.key_sha256_b64) [
      | none ↦ err (py value_error)
      | some key_sha256 ↦ elim (check lib (c ∷ algorithm) e.key_b64 key_sha256 context) [
        | err x ↦ err x
        | ok _ ↦ ok key_sha256
      ]
    ]
  ]

  abbrev pub new_blob : Clock → Resource → List ℕ → List ℕ → Blob
  new_blob clock r media key_sha256 = record {
    name = r.name;
    generation = clock.generation;
    metageneration = 1;
    storage_class = r.storage_class;
    create_time = clock.now;
    soft_delete_time = none;
    hard_delete_time = 0;
    size = length media;
    md5_hash = lib.md5 media;
    crc32c = lib.crc32c media;
    update_time = clock.now;
    finalize_time = some clock.now;
    content_encoding = r.content_encoding;
    key_sha256 = key_sha256;
    metadata = r.metadata;
    details = r.details;
    media = media;
  }

  -- `Object.init` of an object that is not appendable
  unfoldable pub init_object : Clock → Origin → Resource → List ℕ → Context → Result Blob
  unfolding received check_checksums new_key
  init_object clock origin r media context =
      let media' = received clock origin.instruction media in
      elim (check_checksums r media' context) [
        | err e ↦ err e
        | ok _ ↦ elim (new_key origin.encryption r.key_sha256 context) [
          | err e ↦ err e
          | ok key_sha256 ↦ ok (new_blob clock r media' key_sha256)
        ]
      ]

-- The checksums that come with an object are those of its bytes: where they are set, and not empty.
pub record IsChecked (lib : Codecs) (r : Resource) (o : Blob) : Type 0 where
  pub measured : o.size ≡ length o.media
  pub md5_hash : r.md5_hash ≢ [] → r.md5_hash ≡ lib.md5 o.media
  pub crc32c : (c : ℕ) → r.crc32c ≡ some c → c ≡ lib.crc32c o.media
  pub rest_crc32c :
      (a : ℕ) (t : Text)
      → lookup (codes "x_emulator_crc32c") r.metadata ≡ some (a ∷ t)
      → rest_crc32c_to_proto lib (a ∷ t) ≡ some (lib.crc32c o.media)
  pub rest_md5 :
      (a : ℕ) (t : Text)
      → lookup (codes "x_emulator_md5") r.metadata ≡ some (a ∷ t)
      → rest_md5_to_proto lib (a ∷ t) ≡ some (lib.md5 o.media)

check_md5-ok :
    (lib : Codecs) (md5 actual : List ℕ) (context : Context) (rest_of : Result (Unit {0}))
    → check_md5 lib md5 actual context rest_of ≡ ok tt
    → (md5 ≢ [] → md5 ≡ actual) × (rest_of ≡ ok tt)
unfolding check_md5
check_md5-ok lib [] actual context rest_of e = (λ set. absurd (set refl), e)
check_md5-ok lib (b ∷ md5) actual context rest_of e =
    let same : actual ≡ b ∷ md5 = ground (arith, text_eq_iff actual (b ∷ md5)) in
    (λ set. sym same, ground arith)

check_crc32c-ok :
    (lib : Codecs) (stated : Option ℕ) (actual : ℕ) (context : Context)
    (rest_of : Result (Unit {0}))
    → check_crc32c lib stated actual context rest_of ≡ ok tt
    → ((c : ℕ) → stated ≡ some c → c ≡ actual) × (rest_of ≡ ok tt)
unfolding check_crc32c
check_crc32c-ok lib none actual context rest_of e = (λ c set. ground arith, e)
check_crc32c-ok lib (some d) actual context rest_of e = (λ c set. ground arith, ground arith)

check_rest_crc32c-ok :
    (lib : Codecs) (stated : Option Text) (actual : ℕ) (context : Context)
    (rest_of : Result (Unit {0}))
    → check_rest_crc32c lib stated actual context rest_of ≡ ok tt
    → ((a : ℕ) (t : Text) → stated ≡ some (a ∷ t) → rest_crc32c_to_proto lib (a ∷ t) ≡ some actual)
      × (rest_of ≡ ok tt)
unfolding check_rest_crc32c
check_rest_crc32c-ok lib none actual context rest_of e = (λ a t set. ground arith, e)
check_rest_crc32c-ok lib (some []) actual context rest_of e = (λ a t set. ground arith, e)
check_rest_crc32c-ok lib (some (c ∷ u)) actual context rest_of e =
    elim (Option-cases (rest_crc32c_to_proto lib (c ∷ u))) [
      | inl broken ↦ absurd (ground arith)
      | inr (got, decoded) ↦ (λ a t set. ground arith, ground arith)
    ]

check_rest_md5-ok :
    (lib : Codecs) (stated : Option Text) (actual : List ℕ) (context : Context)
    (rest_of : Result (Unit {0}))
    → check_rest_md5 lib stated actual context rest_of ≡ ok tt
    → ((a : ℕ) (t : Text) → stated ≡ some (a ∷ t) → rest_md5_to_proto lib (a ∷ t) ≡ some actual)
      × (rest_of ≡ ok tt)
unfolding check_rest_md5
check_rest_md5-ok lib none actual context rest_of e = (λ a t set. ground arith, e)
check_rest_md5-ok lib (some []) actual context rest_of e = (λ a t set. ground arith, e)
check_rest_md5-ok lib (some (c ∷ u)) actual context rest_of e =
    elim (Option-cases (rest_md5_to_proto lib (c ∷ u))) [
      | inl broken ↦ absurd (ground arith)
      | inr (got, decoded) ↦ (
        λ a t set. ground (arith, text_eq_iff actual got),
        ground (arith, text_eq_iff actual got),
      )
    ]

new_blob-IsChecked :
    (lib : Codecs) (clock : Clock) (r : Resource) (media key : List ℕ) (context : Context)
    → check_checksums lib r media context ≡ ok tt
    → IsChecked lib r (new_blob lib clock r media key)
unfolding check_checksums
new_blob-IsChecked lib clock r media key context e =
    let (md5, e₁) = check_md5-ok lib r.md5_hash (lib.md5 media) context _ e in
    let (crc, e₂) = check_crc32c-ok lib r.crc32c (lib.crc32c media) context _ e₁ in
    let (rest_crc, e₃) = check_rest_crc32c-ok lib _ (lib.crc32c media) context _ e₂ in
    let (rest_md, _) = check_rest_md5-ok lib _ (lib.md5 media) context _ e₃ in
    record {
      measured = refl;
      md5_hash = md5;
      crc32c = crc;
      rest_crc32c = rest_crc;
      rest_md5 = rest_md;
    }

-- No object is created whose bytes differ from a checksum that came with it: what `Object.init` returns is
-- measured and checked, as the bytes were received.
pub init_object-IsChecked :
    (lib : Codecs) (clock : Clock) (origin : Origin) (r : Resource) (media : List ℕ)
    (context : Context) (o : Blob)
    → init_object lib clock origin r media context ≡ ok o
    → IsChecked lib r o
unfolding init_object
init_object-IsChecked lib clock origin r media context o e =
    let media' = received clock origin.instruction media in
    elim (Result-cases (check_checksums lib r media' context)) [
      | inr (x, refused) ↦ absurd (ground arith)
      | inl (u, passed) ↦ elim (Result-cases (new_key lib origin.encryption r.key_sha256 context)) [
        | inr (x, refused) ↦ absurd (ground arith)
        | inl (key, given) ↦
            let same : new_blob lib clock r media' key ≡ o = ground arith in
            subst (IsChecked lib r) same (new_blob-IsChecked lib clock r media' key context passed)
      ]
    ]
