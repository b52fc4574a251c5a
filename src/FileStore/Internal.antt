-- ===== src/FileStore/Internal.antt =====
-- testbench/filestore.py: what lies in `.gcs`, apart from the live objects in `overflow`.
use storage_testbench.Base.{
  ℕ, true, false, ◌||◌, Option, none, some, [], ◌∷◌, ◌++◌, ◌≡◌, refl, ap, arith, Text, codes,
  text_eq, text_eq_iff, text_eq_refl, starts_with, if◌then◌else◌, Bool-cases, inl, inr,
}
use storage_testbench.Database.State.{Blob}
use storage_testbench.Pathing.{ends_with, has_char}
use storage_testbench.Uploads.Resumable.Ranges.{decimal}
use storage_testbench.FileStore.{Content, object_sidecar, folder_envelope}
use storage_testbench.FileStore.Disk.{is_under}
use storage_testbench.FileStore.Places.{role_of, is_internal, starts_with-comparable}
use storage_testbench.FileStore.SoftDeletion.{soft_dir}
use storage_testbench.FileStore.Shown.{fits, Shows, Shows-frame}

-- The paths of the files
abbrev pub soft_meta : ℕ → Text
soft_meta g = soft_dir g ++ codes "meta.gcsmeta"

abbrev pub soft_media : ℕ → Text
soft_media g = soft_dir g ++ codes "media"

abbrev pub folder_path : Text → Text
folder_path token = codes ".gcs/folders/" ++ (token ++ codes ".json")

abbrev pub staging_path : Text → Text
staging_path name = codes ".gcs/uploads/" ++ name

pub is_internal-soft : (g : ℕ) (t : Text) → is_internal (soft_dir g ++ t) ≡ true
unfolding is_internal starts_with
is_internal-soft g t = refl

pub is_internal-folder : (token : Text) → is_internal (folder_path token) ≡ true
unfolding is_internal starts_with
is_internal-folder token = refl

pub is_internal-staging : (name : Text) → is_internal (staging_path name) ≡ true
unfolding is_internal starts_with
is_internal-staging name = refl

-- Of two ends of a text, one is an end of the other.
ends_with-++ : (t s : Text) → ends_with (t ++ s) s ≡ true
unfolding ends_with text_eq
ends_with-++ [] [] = refl
ends_with-++ [] (d ∷ s) = ground (arith, text_eq_refl s)
ends_with-++ (c ∷ t) s = ground (arith, ends_with-++ t s)

ends_with-comparable :
    (t s p : Text) → ends_with (t ++ s) p ≡ true → (ends_with s p || ends_with p s) ≡ true
unfolding ends_with
ends_with-comparable [] s p e = ground arith
ends_with-comparable (c ∷ t) s p e = elim (Bool-cases (text_eq (c ∷ (t ++ s)) p)) [
  | inl same ↦
      let whole : (c ∷ t) ++ s ≡ p = ground (arith, text_eq_iff (c ∷ (t ++ s)) p) in
      ground (arith, ap (λ r. ends_with r s) whole, ends_with-++ (c ∷ t) s)
  | inr other ↦ ground (arith, ends_with-comparable t s p)
]

media-meta :
    (ends_with (codes "media") (codes "/meta.gcsmeta")
      || ends_with (codes "/meta.gcsmeta") (codes "media"))
    ≡ false
unfolding ends_with text_eq
media-meta = refl

soft_media-suffix : (g : ℕ) → ends_with (soft_media g) (codes "/meta.gcsmeta") ≡ false
soft_media-suffix g = elim (Bool-cases (ends_with (soft_media g) (codes "/meta.gcsmeta"))) [
  | inl ends ↦ ground (
    arith,
    ends_with-comparable (soft_dir g) (codes "media") (codes "/meta.gcsmeta") ends,
    media-meta,
  )
  | inr other ↦ other
]

soft-prefixes :
    (g : ℕ) (t : Text)
    → (starts_with (soft_dir g ++ t) (codes ".gcs/overflow/")
        || starts_with (soft_dir g ++ t) (codes ".gcs/folders/"))
      ≡ false
unfolding starts_with
soft-prefixes g t = refl

folder-prefixes :
    (t : Text)
    → (starts_with (codes ".gcs/folders/" ++ t) (codes ".gcs/overflow/")
        || starts_with (codes ".gcs/folders/" ++ t) (codes ".gcs/soft_deleted/"))
      ≡ false
unfolding starts_with
folder-prefixes t = refl

starts_with_trans :
    (t p r : Text) → starts_with t p ≡ true → starts_with p r ≡ true → starts_with t r ≡ true
unfolding starts_with
starts_with_trans t p [] e e' = refl
starts_with_trans t [] (c ∷ r) e e' = ground arith
starts_with_trans [] (d ∷ p) (c ∷ r) e e' = ground arith
starts_with_trans (a ∷ t) (d ∷ p) (c ∷ r) e e' = ground (arith, starts_with_trans t p r)

purged_prefixes :
    (t : Text)
    → (starts_with (codes ".gcs/soft_deleted/" ++ t) (codes ".gcs/overflow/")
        || starts_with (codes ".gcs/overflow/") (codes ".gcs/soft_deleted/" ++ t))
      ≡ false
unfolding starts_with
purged_prefixes t = refl

purged_prefix : (t : Text) → starts_with (codes ".gcs/soft_deleted/" ++ t) (codes ".gcs/") ≡ true
unfolding starts_with
purged_prefix t = refl

is_internal-under :
    (g : ℕ) (q : Text)
    → is_under (codes ".gcs/soft_deleted/" ++ decimal g) q ≡ true
    → is_internal q ≡ true
unfolding is_under is_internal
is_internal-under g q e =
    let root : Text = codes ".gcs/soft_deleted/" ++ decimal g in
    elim (Bool-cases (text_eq q root)) [
      | inl at ↦
          ground (arith, text_eq_iff q root, purged_prefix (decimal g), purged_prefixes (decimal g))
      | inr not_at ↦
          let below : starts_with q (root ++ codes "/") ≡ true = ground arith in
          ground (
            arith,
            starts_with_trans q (root ++ codes "/") (codes ".gcs/") below
                (purged_prefix (decimal g ++ codes "/")),
            starts_with-comparable q (root ++ codes "/") (codes ".gcs/overflow/") below,
            purged_prefixes (decimal g ++ codes "/"),
          )
    ]

module _ (sha256_hex : Text → Text) where
  -- Each is what the scan takes it for.
  pub fits-soft_meta :
      (g : ℕ) (t : Text) (b : Blob)
      → fits sha256_hex (role_of (soft_meta g)) (soft_meta g) (object_sidecar t b) ≡ true
  unfolding role_of fits is_internal
  fits-soft_meta g t b =
      ground
        (arith, soft-prefixes g (codes "meta.gcsmeta"), is_internal-soft g (codes "meta.gcsmeta"))

  pub fits-soft_media :
      (g : ℕ) (c : Content) → fits sha256_hex (role_of (soft_media g)) (soft_media g) c ≡ true
  unfolding role_of fits is_internal
  fits-soft_media g c = ground (
    arith,
    soft-prefixes g (codes "media"),
    is_internal-soft g (codes "media"),
    soft_media-suffix g,
  )

  pub fits-folder :
      (token name : Text)
      → fits sha256_hex (role_of (folder_path token)) (folder_path token) (folder_envelope name)
        ≡ true
  unfolding role_of fits is_internal
  fits-folder token name =
      ground (arith, folder-prefixes (token ++ codes ".json"), is_internal-folder token)

  pub fits-bucket :
      (c : Content)
      → fits sha256_hex (role_of (codes ".gcs/bucket.json")) (codes ".gcs/bucket.json") c ≡ true
  unfolding role_of fits starts_with ends_with text_eq
  fits-bucket c = refl

  module _ (no_dot : (name : Text) → has_char 46 (sha256_hex name) ≡ false)
      (v v' : Text → Option Content) (L : Text → Option Blob) where
    pub Shows-write :
        (p : Text) (c : Content)
        → Shows sha256_hex v L
        → is_internal p ≡ true
        → fits sha256_hex (role_of p) p c ≡ true
        → ((q : Text) → v' q ≡ (if text_eq p q then some c else v q))
        → Shows sha256_hex v' L
    Shows-write p c shown inside fitting write =
        Shows-frame sha256_hex no_dot v v' L L shown
          (λ q outside. ground (arith, write q, text_eq_iff p q))
          (λ q c' at e. ground (arith, write q, text_eq_iff p q, shown.fitting q c')) (λ n. refl)

    pub Shows-unlink :
        (p : Text)
        → Shows sha256_hex v L
        → is_internal p ≡ true
        → ((q : Text) → v' q ≡ (if text_eq p q then none else v q))
        → Shows sha256_hex v' L
    Shows-unlink p shown inside gone =
        Shows-frame sha256_hex no_dot v v' L L shown
          (λ q outside. ground (arith, gone q, text_eq_iff p q))
          (λ q c' at e. ground (arith, gone q, shown.fitting q c')) (λ n. refl)

    -- A directory of a soft deleted generation goes, with all that is in it.
    pub Shows-remove_tree :
        (g : ℕ)
        → Shows sha256_hex v L
        → ((q : Text)
            → v' q ≡ (if is_under (codes ".gcs/soft_deleted/" ++ decimal g) q then none else v q))
        → Shows sha256_hex v' L
    Shows-remove_tree g shown gone =
        Shows-frame sha256_hex no_dot v v' L L shown
          (λ q outside. ground (arith, gone q, is_internal-under g q))
          (λ q c' at e. ground (arith, gone q, shown.fitting q c')) (λ n. refl)
