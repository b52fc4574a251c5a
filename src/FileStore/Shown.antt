-- ===== src/FileStore/Shown.antt =====
-- testbench/filestore.py: when the files of a bucket show its live objects, and what keeps it so.
use storage_testbench.Base.{
  Bool, true, false, ◌&&◌, Option, none, some, [], ◌≡◌, refl, sym, ap, ◌∙◌, arith, Text, codes,
  text_eq, text_eq_iff, length, if◌then◌else◌, Bool-cases, Option-cases, inl, inr,
}
use mathlib.Core.Option
use mathlib.Core.List.{append_cancel_right}
use storage_testbench.Errors.{ok}
use storage_testbench.Database.State.{Blob}
use storage_testbench.Pathing.{has_char}
use storage_testbench.FileStore.{Content, media, object_sidecar, bucket_sidecar, folder_envelope}
use storage_testbench.FileStore.Methods.{dump, load_name}
use storage_testbench.FileStore.Places.{
  Role, live, soft, folder, skip, role_of, is_internal, live_path, side_path, live_path-suffix,
  is_internal-live_path, is_internal-meta_of, role_of-meta_of, role_of-media, ends_with-meta_of,
}

-- The metadata of the object, if the sidecar has its name
unfoldable pub named : Text → Option Content → Option Blob
named name none = none
named name (some (object_sidecar true_name blob)) =
    if text_eq true_name name then some blob else none
named name (some (bucket_sidecar true_name bucket)) = none
named name (some (media bytes)) = none
named name (some (folder_envelope f)) = none

abbrev pub strip : Blob → Blob
strip blob = record blob { media = [] }

module _ (sha256_hex : Text → Text) where
  -- A file holds what the scan takes it for; the sidecar of a live object has its name, and its place.
  unfoldable pub fits : Role → Text → Content → Bool
  fits live path (object_sidecar true_name blob) =
      text_eq true_name blob.name && text_eq path (side_path sha256_hex true_name)
  fits live path (bucket_sidecar true_name bucket) = false
  fits live path (media bytes) = false
  fits live path (folder_envelope f) = false
  fits soft path (object_sidecar true_name blob) = true
  fits soft path (bucket_sidecar true_name bucket) = false
  fits soft path (media bytes) = false
  fits soft path (folder_envelope f) = false
  fits folder path (folder_envelope f) = true
  fits folder path (object_sidecar true_name blob) = false
  fits folder path (bucket_sidecar true_name bucket) = false
  fits folder path (media bytes) = false
  fits skip path content = true

  -- The files of a bucket show the live objects: the sidecar and the bytes of each are there, and
  -- no other.
  pub record Shows (files : Text → Option Content) (objects : Text → Option Blob) : Type 0 where
    pub sidecars :
        (n : Text) → named n (files (side_path sha256_hex n)) ≡ Option.map strip (objects n)
    pub bytes :
        (n : Text) (o : Blob)
        → objects n ≡ some o
        → files (live_path sha256_hex n) ≡ some (media o.media)
    pub whole : (n : Text) (o : Blob) → objects n ≡ some o → o.size ≡ length o.media
    pub fitting : (p : Text) (c : Content) → files p ≡ some c → fits (role_of p) p c ≡ true

  abbrev side : Text → Text
  side n = side_path sha256_hex n

  abbrev path : Text → Text
  path n = live_path sha256_hex n

  text_eq-side : (m n : Text) → text_eq (side m) (side n) ≡ text_eq (path m) (path n)
  text_eq-side m n = ground (
    arith,
    text_eq_iff (side m) (side n),
    text_eq_iff (path m) (path n),
    append_cancel_right (path m) (path n) (codes ".gcsmeta"),
  )

  named-other :
      (c : Content) (t n : Text)
      → load_name c ≡ ok t
      → text_eq t n ≡ false
      → named n (some c) ≡ none
  unfolding load_name named
  named-other (object_sidecar true_name b) t n e other = ground arith
  named-other (bucket_sidecar true_name b) t n e other = refl
  named-other (media bytes) t n e other = refl
  named-other (folder_envelope f) t n e other = refl

  load_name-sidecar : (t : Text) (b : Blob) → load_name (object_sidecar t b) ≡ ok t
  unfolding load_name
  load_name-sidecar t b = refl

  pub named-loads :
      (c : Option Content) (n : Text) (b : Blob)
      → named n c ≡ some b
      → c ≡ some (object_sidecar n b)
  unfolding named
  named-loads none n b e = ground arith
  named-loads (some (object_sidecar true_name b')) n b e = ground (arith, text_eq_iff true_name n)
  named-loads (some (bucket_sidecar true_name b')) n b e = ground arith
  named-loads (some (media bytes)) n b e = ground arith
  named-loads (some (folder_envelope f)) n b e = ground arith

  module _ (no_dot : (name : Text) → has_char 46 (sha256_hex name) ≡ false) where
    side-path : (m n : Text) → text_eq (side m) (path n) ≡ false
    side-path m n = ground (
      arith,
      text_eq_iff (side m) (path n),
      ends_with-meta_of (path m),
      live_path-suffix sha256_hex no_dot n,
    )

    path-side : (m n : Text) → text_eq (path m) (side n) ≡ false
    path-side m n =
        ground (arith, text_eq_iff (path m) (side n), text_eq_iff (side n) (path m), side-path n m)

    is_internal-side : (n : Text) → is_internal (side n) ≡ false
    is_internal-side n = is_internal-meta_of (path n) (is_internal-live_path sha256_hex n)

    module _ (v v' : Text → Option Content) (L L' : Text → Option Blob) (o : Blob)
        (shown : Shows v L) (sized : o.size ≡ length o.media)
        (free : (c : Content) → v (side o.name) ≡ some c → load_name c ≡ ok o.name)
        (write : (q : Text)
          → v' q ≡ (
              if text_eq (side o.name) q
              then some (dump o o.name)
              else if text_eq (path o.name) q
              then some (media o.media)
              else v q))
        (change : (n : Text) → L' n ≡ (if text_eq o.name n then some o else L n)) where
      -- No other object has the place.
      taken :
          (n : Text) → text_eq o.name n ≡ false → text_eq (path o.name) (path n) ≡ true → L n ≡ none
      unfolding named
      taken n other same =
          let one : side o.name ≡ side n =
            ground (arith, text_eq-side o.name n, text_eq_iff (side o.name) (side n)) in
          elim (Option-cases (v (side n))) [
            | inl e ↦ ground (arith, shown.sidecars n)
            | inr (c, e) ↦
                ground
                  (arith, shown.sidecars n, named-other c o.name n (free c (ap v one ∙ e)) other)
          ]

      insert-sidecars : (n : Text) → named n (v' (side n)) ≡ Option.map strip (L' n)
      unfolding named
      insert-sidecars n = elim (Bool-cases (text_eq o.name n)) [
        | inl same ↦ ground (
          arith,
          text_eq_iff o.name n,
          write (side n),
          change n,
          text_eq_iff (side o.name) (side n),
        )
        | inr other ↦ elim (Bool-cases (text_eq (path o.name) (path n))) [
          | inl one ↦
              ground (arith, write (side n), change n, text_eq-side o.name n, taken n other one)
          | inr two ↦ ground (
            arith,
            write (side n),
            change n,
            text_eq-side o.name n,
            path-side o.name n,
            shown.sidecars n,
          )
        ]
      ]

      insert-bytes : (n : Text) (b : Blob) → L' n ≡ some b → v' (path n) ≡ some (media b.media)
      insert-bytes n b e = elim (Bool-cases (text_eq o.name n)) [
        | inl same ↦ ground (
          arith,
          text_eq_iff o.name n,
          write (path n),
          change n,
          side-path o.name n,
          text_eq_iff (path o.name) (path n),
        )
        | inr other ↦
            ground
              (arith, write (path n), change n, side-path o.name n, taken n other, shown.bytes n b)
      ]

      insert-fitting : (p : Text) (c : Content) → v' p ≡ some c → fits (role_of p) p c ≡ true
      unfolding fits
      insert-fitting p c e = elim (Bool-cases (text_eq (side o.name) p)) [
        | inl at_side ↦ ground (
          arith,
          write p,
          text_eq_iff (side o.name) p,
          role_of-meta_of (path o.name) (is_internal-live_path sha256_hex o.name),
          text_eq_iff o.name o.name,
          text_eq_iff p (side o.name),
        )
        | inr not_side ↦ elim (Bool-cases (text_eq (path o.name) p)) [
          | inl at_path ↦ ground (
            arith,
            write p,
            text_eq_iff (path o.name) p,
            role_of-media (path o.name) (is_internal-live_path sha256_hex o.name)
                (live_path-suffix sha256_hex no_dot o.name),
          )
          | inr elsewhere ↦ ground (arith, write p, shown.fitting p c)
        ]
      ]

      -- An object is written, in whose place is no other.
      pub Shows-insert : Shows v' L'
      Shows-insert = record {
        sidecars = insert-sidecars;
        bytes = insert-bytes;
        whole = λ n b e. ground (arith, change n, shown.whole n b, sized);
        fitting = insert-fitting;
      }

    -- The metadata of an object that is there is written again.
    pub Shows-update :
        (v v' : Text → Option Content) (L L' : Text → Option Blob) (o old : Blob)
        → Shows v L
        → L o.name ≡ some old
        → o.media ≡ old.media
        → o.size ≡ length o.media
        → ((q : Text) → v' q ≡ (if text_eq (side o.name) q then some (dump o o.name) else v q))
        → ((n : Text) → L' n ≡ (if text_eq o.name n then some o else L n))
        → Shows v' L'
    Shows-update v v' L L' o old shown there same sized write change =
        let loaded : v (side o.name) ≡ some (object_sidecar o.name (strip old)) =
          named-loads (v (side o.name)) o.name (strip old)
            (shown.sidecars o.name ∙ ap (Option.map strip) there) in
        Shows-insert v v' L L' o shown sized
          (λ c e. ground (arith, loaded, e, load_name-sidecar o.name (strip old)))
          (λ q. ground (
            arith,
            write q,
            text_eq_iff (path o.name) q,
            shown.bytes o.name old there,
            ap media same,
          ))
          change

    -- The files of a live object go, and nothing that a scan would take for one comes.
    module _ (v v' : Text → Option Content) (L L' : Text → Option Blob) (name : Text) (old : Blob)
        (shown : Shows v L) (there : L name ≡ some old)
        (gone : (q : Text)
          → is_internal q ≡ false
          → v' q
            ≡ (if text_eq (side name) q then none else if text_eq (path name) q then none else v q))
        (internal : (p : Text) (c : Content)
          → is_internal p ≡ true
          → v' p ≡ some c
          → fits (role_of p) p c ≡ true)
        (change : (n : Text) → L' n ≡ (if text_eq name n then none else L n)) where
      only : (n : Text) → text_eq name n ≡ false → text_eq (path name) (path n) ≡ true → L n ≡ none
      unfolding named
      only n other same =
          let one : side name ≡ side n =
            ground (arith, text_eq-side name n, text_eq_iff (side name) (side n)) in
          let loaded : v (side name) ≡ some (object_sidecar name (strip old)) =
            named-loads (v (side name)) name (strip old)
              (shown.sidecars name ∙ ap (Option.map strip) there) in
          ground (arith, shown.sidecars n, ap v one)

      pub Shows-remove : Shows v' L'
      unfolding named
      Shows-remove = record {
        sidecars = λ n. elim (Bool-cases (text_eq name n)) [
          | inl same ↦ ground (
            arith,
            text_eq_iff name n,
            text_eq_iff (side name) (side n),
            gone (side n) (is_internal-side n),
            change n,
          )
          | inr other ↦ ground (
            arith,
            gone (side n) (is_internal-side n),
            change n,
            text_eq-side name n,
            path-side name n,
            only n other,
            shown.sidecars n,
          )
        ];
        bytes = λ n b e. ground (
          arith,
          gone (path n) (is_internal-live_path sha256_hex n),
          change n,
          side-path name n,
          only n,
          shown.bytes n b,
        );
        whole = λ n b e. ground (arith, change n, shown.whole n b);
        fitting = λ p c e. elim (Bool-cases (is_internal p)) [
          | inl inside ↦ internal p c inside e
          | inr outside ↦ ground (arith, gone p outside, shown.fitting p c)
        ];
      }

    -- Nothing changes but what no live object has.
    pub Shows-frame :
        (v v' : Text → Option Content) (L L' : Text → Option Blob)
        → Shows v L
        → ((q : Text) → is_internal q ≡ false → v' q ≡ v q)
        → ((p : Text) (c : Content)
            → is_internal p ≡ true
            → v' p ≡ some c
            → fits (role_of p) p c ≡ true)
        → ((n : Text) → L' n ≡ L n)
        → Shows v' L'
    Shows-frame v v' L L' shown same internal change = record {
      sidecars =
          λ n. ground (arith, same (side n) (is_internal-side n), change n, shown.sidecars n);
      bytes = λ n b e.
          ground
            (arith, same (path n) (is_internal-live_path sha256_hex n), change n, shown.bytes n b);
      whole = λ n b e. ground (arith, change n, shown.whole n b);
      fitting = λ p c e. elim (Bool-cases (is_internal p)) [
        | inl inside ↦ internal p c inside e
        | inr outside ↦ shown.fitting p c (sym (same p outside) ∙ e)
      ];
    }
