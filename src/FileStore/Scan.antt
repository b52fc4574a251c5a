-- ===== src/FileStore/Scan.antt =====
-- `_scan_bucket` of testbench/filestore.py: what a scan reads of files that show the live objects.
use storage_testbench.Base.{
  ℕ, Bool, true, false, ◌||◌, Option, some, List, [], ◌∷◌, map, ◌≡◌, refl, sym, ap, ◌∙◌, arith,
  Text, text_eq, text_eq_iff, lookup, lookup2, lookup-insert, lookup-nil, Bool-cases, Option-cases,
  inl, inr, subst,
}
use mathlib.Core.Option
use storage_testbench.Errors.{ok, then_returned}
use storage_testbench.Database.State.{Database, Bucket, Blob}
use storage_testbench.Database.Mirror.{index_of}
use storage_testbench.Media.{Bytes}
use storage_testbench.FileStore.{Content, object_sidecar, Node, Tree}
use storage_testbench.FileStore.Disk.{file_at}
use storage_testbench.FileStore.Places.{role_of, side_path}
use storage_testbench.FileStore.Shown.{strip, Shows, named-loads}
use storage_testbench.FileStore.Current.{live_object}
use storage_testbench.FileStore.Rebuild.{
  scan_file, scan_files, scan_bucket, rebuild_bucket, reset_bucket,
}
use storage_testbench.FileStore.ScanFile.{Scanned, is_there, Scans, scan_file-ScansFile}

module _ (sha256_hex : Text → Text) (tree : Tree) (L : Text → Option Blob)
    (shown : Shows sha256_hex (file_at tree) L) where
  module _ (md5_of_empty : Bytes) (text_of : Content → Bytes) (bk : Text) where
    -- The scan of the files at some paths
    scan_files-Scans :
        (paths : List Text) (s : Database)
        → Scanned sha256_hex tree L shown md5_of_empty text_of bk s
        → Scans sha256_hex tree L shown md5_of_empty text_of bk
            (scan_files md5_of_empty text_of bk tree paths)
            s
    unfolding scan_files
    scan_files-Scans [] s scanned = record { returns = refl; scanned = scanned; keeps = λ n e. e }
    scan_files-Scans (p ∷ paths) s scanned =
        let first =
          scan_file-ScansFile sha256_hex tree L shown md5_of_empty text_of bk p s scanned in
        let after : Database =
          (scan_file md5_of_empty text_of bk tree (role_of p) p (file_at tree p) s).1 in
        let rest = scan_files-Scans paths after first.scans.scanned in
        let left =
          then_returned (scan_file md5_of_empty text_of bk tree (role_of p) p (file_at tree p))
            (scan_files md5_of_empty text_of bk tree paths) s tt first.scans.returns in
        record {
          returns = ap (λ r. r.0) left ∙ rest.returns;
          scanned =
              subst (Scanned sha256_hex tree L shown md5_of_empty text_of bk)
                (sym (ap (λ r. r.1) left)) rest.scanned;
          keeps = λ n e.
              ap (λ r. is_there sha256_hex tree L shown md5_of_empty text_of bk n r.1) left
              ∙ rest.keeps n (first.scans.keeps n e);
        }

    -- A path is among others.
    unfoldable has_path : Text → List Text → Bool
    has_path p [] = false
    has_path p (q ∷ paths) = text_eq q p || has_path p paths

    scan_files-covers :
        (paths : List Text) (s : Database) (n : Text) (b : Blob)
        → Scanned sha256_hex tree L shown md5_of_empty text_of bk s
        → L n ≡ some b
        → has_path (side_path sha256_hex n) paths ≡ true
        → is_there sha256_hex tree L shown md5_of_empty text_of bk n
            (scan_files md5_of_empty text_of bk tree paths s).1
          ≡ true
    unfolding scan_files has_path
    scan_files-covers [] s n b scanned has among = ground arith
    scan_files-covers (p ∷ paths) s n b scanned has among =
        let first =
          scan_file-ScansFile sha256_hex tree L shown md5_of_empty text_of bk p s scanned in
        let after : Database =
          (scan_file md5_of_empty text_of bk tree (role_of p) p (file_at tree p) s).1 in
        let rest = scan_files-Scans paths after first.scans.scanned in
        let left =
          then_returned (scan_file md5_of_empty text_of bk tree (role_of p) p (file_at tree p))
            (scan_files md5_of_empty text_of bk tree paths) s tt first.scans.returns in
        ap (λ r. is_there sha256_hex tree L shown md5_of_empty text_of bk n r.1) left
        ∙ elim (Bool-cases (text_eq p (side_path sha256_hex n))) [
          | inl here ↦
              rest.keeps n
                (first.covers n b has (ground (arith, text_eq_iff p (side_path sha256_hex n))))
          | inr later ↦ scan_files-covers paths after n b first.scans.scanned has (ground arith)
        ]

    has_path-keys :
        (p : Text) (fs : Tree) (c : Content)
        → file_at fs p ≡ some c
        → has_path p (map (λ (e : Text × Node). e.0) fs) ≡ true
    unfolding has_path file_at lookup
    has_path-keys p [] c e = ground arith
    has_path-keys p ((q, n) ∷ fs) c e = ground (arith, has_path-keys p fs c)

    live_object-found :
        (s : Database) (n : Text)
        → Scanned sha256_hex tree L shown md5_of_empty text_of bk s
        → ((b : Blob)
            → L n ≡ some b
            → is_there sha256_hex tree L shown md5_of_empty text_of bk n s ≡ true)
        → live_object bk n (index_of s) ≡ L n
    unfolding live_object
    live_object-found s n scanned covers = elim (Option-cases (lookup2 bk n s.live_generations)) [
      | inl gone ↦ elim (Option-cases (L n)) [
        | inl none_here ↦ ground arith
        | inr (b, has) ↦ ground (arith, covers b has)
      ]
      | inr (g, there) ↦ let (b, has, gen, held) = scanned.sound n g there in ground arith
    ]

  -- What the scan of a bucket reads: it returns, and the live objects are those that the files show.
  pub rebuild_bucket-live :
      (md5_of_empty : Bytes) (text_of : Content → Bytes) (bucket : Bucket) (s : Database)
      → ((rebuild_bucket md5_of_empty text_of bucket tree s).0 ≡ ok tt)
        × ((n : Text)
            → live_object bucket.name n
                (index_of (rebuild_bucket md5_of_empty text_of bucket tree s).1)
              ≡ L n)
  unfolding rebuild_bucket scan_bucket
  rebuild_bucket-live md5_of_empty text_of bucket s =
      let scans = scan_files-Scans md5_of_empty text_of bucket.name paths start fresh in
      (
        scans.returns,
        λ n. live_object-found md5_of_empty text_of bucket.name after n scans.scanned (λ b has.
            scan_files-covers md5_of_empty text_of bucket.name paths start n b fresh has (
              has_path-keys md5_of_empty text_of bucket.name (side_path sha256_hex n) tree
                (object_sidecar n (strip b))
                (named-loads sha256_hex (file_at tree (side_path sha256_hex n)) n (strip b)
                  (shown.sidecars n ∙ ap (Option.map strip) has)))),
      )
    where
      paths : List Text
      paths = map (λ (e : Text × Node). e.0) tree

      start : Database
      start = reset_bucket bucket s

      after : Database
      after = (scan_files md5_of_empty text_of bucket.name tree paths start).1

      fresh : Scanned sha256_hex tree L shown md5_of_empty text_of bucket.name start
      fresh = record {
        has_objects = ground (
          arith,
          lookup-insert bucket.name bucket.name [] s.objects,
          text_eq_iff bucket.name bucket.name,
        );
        has_live = ground (
          arith,
          lookup-insert bucket.name bucket.name [] s.live_generations,
          text_eq_iff bucket.name bucket.name,
        );
        sound = λ n g e. ground (
          arith,
          lookup-insert bucket.name bucket.name [] s.live_generations,
          text_eq_iff bucket.name bucket.name,
          lookup-nil {V = ℕ} n,
        );
      }
