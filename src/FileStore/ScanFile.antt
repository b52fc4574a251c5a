-- ===== src/FileStore/ScanFile.antt =====
-- `_scan_bucket` of testbench/filestore.py: what the scan of one file puts into the index.
use storage_testbench.Base.{
  ℕ, ◌+◌, ◌-◌, Bool, true, Option, none, some, is_some, [], ◌∷◌, ◌++◌, ◌≡◌, refl, sym, ap, ◌∙◌,
  arith, Text, codes, text_eq, text_eq_iff, length, lookup2, insert, contains, take, take_all,
  lookup2-put, contains-alter, Bool-cases, Option-cases, inl, inr, subst,
}
use mathlib.Core.Option
use storage_testbench.Errors.{ok, Exec}
use storage_testbench.Database.Key.{object_key, text_eq-object_key}
use storage_testbench.Database.State.{Database, Blob}
use storage_testbench.Database.Objects.{key_of}
use storage_testbench.Media.{Bytes}
use storage_testbench.FileStore.{
  Content, media, object_sidecar, bucket_sidecar, folder_envelope, Tree,
}
use storage_testbench.FileStore.Disk.{file_at}
use storage_testbench.FileStore.Places.{
  Role, live, soft, folder, skip, role_of, live_path, side_path, is_internal-live_path,
  role_of-meta_of,
}
use storage_testbench.FileStore.Shown.{named, fits, strip, Shows, named-loads}
use storage_testbench.FileStore.Rebuild.{
  without, read_object_sidecar, envelope_name, bytes_of, hydrate_media, put_live, hydrate_live,
  hydrate_soft_deleted, hydrate_folder, scan_file,
}

take-front : (t s : Text) → take (length t) (t ++ s) ≡ t
unfolding take
take-front [] s = refl
take-front (c ∷ t) s = ap (λ r. c ∷ r) (take-front t s)

length-++ : (t s : Text) → length (t ++ s) ≡ length t + length s
length-++ [] s = omega arith
length-++ (c ∷ t) s = ground (arith, length-++ t s)

length-back : (t s : Text) → length (t ++ s) - length s ≡ length t
length-back t s = ground (arith, length-++ t s)

-- A path without the suffix that was put behind it
without-suffix : (t s : Text) → without s (t ++ s) ≡ t
without-suffix t s = ap (λ k. take k (t ++ s)) (length-back t s) ∙ take-front t s

module _ (md5_of_empty : Bytes) (text_of : Content → Bytes) where
  -- The bytes of an object are read as they were written.
  hydrate_media-whole :
      (o b : Blob)
      → o.size ≡ length b.media
      → hydrate_media md5_of_empty text_of (some (media b.media)) o ≡ b.media
  unfolding hydrate_media bytes_of
  hydrate_media-whole o b e = ground (arith, ap (λ k. take k b.media) e, take_all b.media)

module _ (sha256_hex : Text → Text) (tree : Tree) (L : Text → Option Blob)
    (shown : Shows sha256_hex (file_at tree) L) where
  -- A file that the scan takes for the sidecar of a live object is one.
  found_named :
      (p t : Text) (b0 : Blob)
      → file_at tree p ≡ some (object_sidecar t b0)
      → fits sha256_hex live p (object_sidecar t b0) ≡ true
      → (b : Blob) × (p ≡ side_path sha256_hex t) × (t ≡ b.name) × (strip b ≡ b0) × (L t ≡ some b)
  unfolding fits named
  found_named p t b0 there fitting =
      let at : p ≡ side_path sha256_hex t =
        ground (arith, text_eq_iff t b0.name, text_eq_iff p (side_path sha256_hex t)) in
      let holds : file_at tree (side_path sha256_hex t) ≡ some (object_sidecar t b0) =
        ap (file_at tree) (sym at) ∙ there in
      elim (Option-cases (L t)) [
        | inl gone ↦ ground (arith, shown.sidecars t, text_eq_iff t t)
        | inr (b, is) ↦
            let same : strip b ≡ b0 = ground (arith, shown.sidecars t, text_eq_iff t t) in
            (b, at, ground (arith, text_eq_iff t b0.name, ap (λ (r : Blob). r.name) same), same, is)
      ]

  found :
      (p : Text) (c : Content)
      → file_at tree p ≡ some c
      → role_of p ≡ live
      → (b : Blob) × (p ≡ side_path sha256_hex b.name)
        × (c ≡ object_sidecar b.name (strip b))
        × (L b.name ≡ some b)
  unfolding fits
  found p (object_sidecar t b0) there is =
      let (b, at, name, same, has) = found_named p t b0 there (
        subst (λ r. fits sha256_hex r p (object_sidecar t b0) ≡ true) is
          (shown.fitting p (object_sidecar t b0) there)) in
      (b, at ∙ ap (side_path sha256_hex) name, ground arith, ap L (sym name) ∙ has)
  found p (bucket_sidecar t b0) there is =
      ground (arith, shown.fitting p (bucket_sidecar t b0) there)
  found p (media bytes) there is = ground (arith, shown.fitting p (media bytes) there)
  found p (folder_envelope n) there is = ground (arith, shown.fitting p (folder_envelope n) there)

  module _ (md5_of_empty : Bytes) (text_of : Content → Bytes) (bk : Text) where
    -- What the scan has put into the index so far are live objects.
    pub record Scanned (s : Database) : Type 0 where
      pub has_objects : contains bk s.objects ≡ true
      pub has_live : contains bk s.live_generations ≡ true
      pub sound :
          (n : Text) (g : ℕ)
          → lookup2 bk n s.live_generations ≡ some g
          → (b : Blob) × (L n ≡ some b)
            × (g ≡ b.generation)
            × (lookup2 bk (object_key n g) s.objects ≡ some b)

    abbrev pub is_there : Text → Database → Bool
    is_there n s = is_some (lookup2 bk n s.live_generations)

    -- A part of the scan, which returns, and takes nothing back
    pub record Scans (m : Exec Database (Unit {0})) (s : Database) : Type 0 where
      pub returns : (m s).0 ≡ ok tt
      pub scanned : Scanned (m s).1
      pub keeps : (n : Text) → is_there n s ≡ true → is_there n (m s).1 ≡ true

    put_live-Scanned :
        (b : Blob) (s : Database) → L b.name ≡ some b → Scanned s → Scanned (put_live bk b s)
    put_live-Scanned b s is scanned = record {
      has_objects =
          ground (arith, contains-alter bk bk (insert (key_of b) b) s.objects, scanned.has_objects);
      has_live = ground (
        arith,
        contains-alter bk bk (insert b.name b.generation) s.live_generations,
        scanned.has_live,
      );
      sound = λ n g e. elim (Bool-cases (text_eq b.name n)) [
        | inl same ↦
            let name : b.name ≡ n = ground (arith, text_eq_iff b.name n) in
            let gen : g ≡ b.generation = ground (
              arith,
              lookup2-put bk n bk b.name b.generation s.live_generations,
              scanned.has_live,
              text_eq_iff bk bk,
            ) in
            (
              b,
              ap L (sym name) ∙ is,
              gen,
              ground (
                arith,
                lookup2-put bk (object_key n g) bk (key_of b) b s.objects,
                scanned.has_objects,
                text_eq_iff bk bk,
                text_eq_iff (key_of b) (object_key n g),
                name,
              ),
            )
        | inr other ↦
            let old : lookup2 bk n s.live_generations ≡ some g =
              ground (arith, lookup2-put bk n bk b.name b.generation s.live_generations) in
            let (b', is', gen, there) = scanned.sound n g old in
            (
              b',
              is',
              gen,
              ground (
                arith,
                lookup2-put bk (object_key n g) bk (key_of b) b s.objects,
                text_eq-object_key b.name n b.generation g,
                there,
              ),
            )
      ];
    }

    put_keeps :
        (n : Text) (b : Blob) (s : Database)
        → Scanned s
        → is_there n s ≡ true
        → is_there n (put_live bk b s) ≡ true
    put_keeps n b s scanned e =
        ground (arith, lookup2-put bk n bk b.name b.generation s.live_generations)

    put_there :
        (n : Text) (b : Blob) (s : Database)
        → Scanned s
        → b.name ≡ n
        → is_there n (put_live bk b s) ≡ true
    put_there n b s scanned e = ground (
      arith,
      lookup2-put bk n bk b.name b.generation s.live_generations,
      text_eq_iff b.name n,
      text_eq_iff bk bk,
      scanned.has_live,
    )

    -- The scan of one file
    pub record ScansFile (p : Text) (m : Exec Database (Unit {0})) (s : Database) : Type 0 where
      pub scans : Scans m s
      pub covers :
          (n : Text) (b : Blob)
          → L n ≡ some b
          → p ≡ side_path sha256_hex n
          → is_there n (m s).1 ≡ true

    not_covered :
        (p n : Text) (b : Blob)
        → L n ≡ some b
        → p ≡ side_path sha256_hex n
        → (is_some (file_at tree p) ≡ true) × (role_of p ≡ live)
    unfolding named
    not_covered p n b is at = (
      ground (arith, shown.sidecars n, ap (file_at tree) at),
      ap role_of at ∙ role_of-meta_of (live_path sha256_hex n) (is_internal-live_path sha256_hex n),
    )

    -- The sidecar of a live object, and its media, give the object.
    hydrate_live_lem :
        (b : Blob) (p : Text) (s : Database)
        → L b.name ≡ some b
        → p ≡ side_path sha256_hex b.name
        → hydrate_live md5_of_empty text_of bk tree p (object_sidecar b.name (strip b)) s
          ≡ (ok tt, put_live bk b s)
    unfolding hydrate_live read_object_sidecar
    hydrate_live_lem b p s has at =
        let media_at : without (codes ".gcsmeta") p ≡ live_path sha256_hex b.name =
          ap (without (codes ".gcsmeta")) at
          ∙ without-suffix (live_path sha256_hex b.name) (codes ".gcsmeta") in
        let read : hydrate_media md5_of_empty text_of (file_at tree (without (codes ".gcsmeta") p))
              (strip b)
            ≡ b.media =
          ap (λ q. hydrate_media md5_of_empty text_of (file_at tree q) (strip b)) media_at
          ∙ ap (λ c. hydrate_media md5_of_empty text_of c (strip b)) (shown.bytes b.name b has)
          ∙ hydrate_media-whole md5_of_empty text_of (strip b) b (shown.whole b.name b has) in
        ap (λ bytes. (ok tt, put_live bk (record b { media = bytes }) s)) read

    ScansFile-live :
        (p : Text) (c : Content) (s : Database)
        → role_of p ≡ live
        → file_at tree p ≡ some c
        → Scanned s
        → ScansFile p (hydrate_live md5_of_empty text_of bk tree p c) s
    ScansFile-live p c s is there scanned =
        let (b, at, holds, has) = found p c there is in
        let left : hydrate_live md5_of_empty text_of bk tree p c s ≡ (ok tt, put_live bk b s) =
          ap (λ c'. hydrate_live md5_of_empty text_of bk tree p c' s) holds
          ∙ hydrate_live_lem b p s has at in
        record {
          scans = record {
            returns = ap (λ r. r.0) left;
            scanned = subst Scanned (sym (ap (λ r. r.1) left)) (put_live-Scanned b s has scanned);
            keeps = λ n e. ap (λ r. is_there n r.1) left ∙ put_keeps n b s scanned e;
          };
          covers = λ n b' has' at'.
              let held : file_at tree (side_path sha256_hex n)
                  ≡ some (object_sidecar n (strip b')) =
                named-loads sha256_hex (file_at tree (side_path sha256_hex n)) n (strip b')
                  (shown.sidecars n ∙ ap (Option.map strip) has') in
              let one : some (object_sidecar b.name (strip b))
                  ≡ some (object_sidecar n (strip b')) =
                sym (there ∙ ap some holds) ∙ ap (file_at tree) at' ∙ held in
              let name : b.name ≡ n = ground arith in
              ap (λ r. is_there n r.1) left ∙ put_there n b s scanned name;
        }

    ScansFile-soft :
        (p : Text) (c : Content) (s : Database)
        → role_of p ≡ soft
        → file_at tree p ≡ some c
        → Scanned s
        → ScansFile p (hydrate_soft_deleted md5_of_empty text_of bk tree p c) s
    unfolding hydrate_soft_deleted read_object_sidecar fits
    ScansFile-soft p (object_sidecar t b0) s is there scanned = record {
      scans = record {
        returns = refl;
        scanned = record {
          has_objects = scanned.has_objects;
          has_live = scanned.has_live;
          sound = scanned.sound;
        };
        keeps = λ n e. e;
      };
      covers = λ n b has at. ground (arith, not_covered p n b has at);
    }
    ScansFile-soft p (bucket_sidecar t b0) s is there scanned =
        ground (arith, shown.fitting p (bucket_sidecar t b0) there)
    ScansFile-soft p (media bytes) s is there scanned =
        ground (arith, shown.fitting p (media bytes) there)
    ScansFile-soft p (folder_envelope name) s is there scanned =
        ground (arith, shown.fitting p (folder_envelope name) there)

    ScansFile-folder :
        (p : Text) (c : Content) (s : Database)
        → role_of p ≡ folder
        → file_at tree p ≡ some c
        → Scanned s
        → ScansFile p (hydrate_folder md5_of_empty text_of bk tree c) s
    unfolding hydrate_folder envelope_name fits
    ScansFile-folder p (folder_envelope name) s is there scanned = record {
      scans = record {
        returns = refl;
        scanned = record {
          has_objects = scanned.has_objects;
          has_live = scanned.has_live;
          sound = scanned.sound;
        };
        keeps = λ n e. e;
      };
      covers = λ n b has at. ground (arith, not_covered p n b has at);
    }
    ScansFile-folder p (object_sidecar t b0) s is there scanned =
        ground (arith, shown.fitting p (object_sidecar t b0) there)
    ScansFile-folder p (bucket_sidecar t b0) s is there scanned =
        ground (arith, shown.fitting p (bucket_sidecar t b0) there)
    ScansFile-folder p (media bytes) s is there scanned =
        ground (arith, shown.fitting p (media bytes) there)

    pub scan_file-ScansFile :
        (p : Text) (s : Database)
        → Scanned s
        → ScansFile p (scan_file md5_of_empty text_of bk tree (role_of p) p (file_at tree p)) s
    unfolding scan_file
    scan_file-ScansFile p s scanned = go (role_of p) (file_at tree p) refl refl
      where
        go :
            (r : Role) (o : Option Content)
            → role_of p ≡ r
            → file_at tree p ≡ o
            → ScansFile p (scan_file md5_of_empty text_of bk tree r p o) s
        go r none is gone = record {
          scans = record { returns = refl; scanned = scanned; keeps = λ n e. e };
          covers = λ n b has at. ground (arith, not_covered p n b has at);
        }
        go live (some c) is there = ScansFile-live p c s is there scanned
        go soft (some c) is there = ScansFile-soft p c s is there scanned
        go folder (some c) is there = ScansFile-folder p c s is there scanned
        go skip (some c) is there = record {
          scans = record { returns = refl; scanned = scanned; keeps = λ n e. e };
          covers = λ n b has at. ground (arith, not_covered p n b has at);
        }
