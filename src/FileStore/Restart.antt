-- ===== src/FileStore/Restart.antt =====
-- testbench/filestore.py with testbench/database.py: a program that starts again on the disk that it left.
use storage_testbench.Base.{true, false, List, [], ◌≡◌, ap, ◌∙◌, Text}
use storage_testbench.Errors.{Context, Result, ok}
use storage_testbench.Database.State.{Database, Bucket, init}
use storage_testbench.Database.Requests.{Request, EachKeepsNames, serve}
use storage_testbench.Database.Mirror.{index_of}
use storage_testbench.Database.Mirror.Serve.{EachClean, serve-replays}
use storage_testbench.Pathing.{has_char}
use storage_testbench.Media.{Bytes}
use storage_testbench.FileStore.Disk.{Process}
use storage_testbench.FileStore.{Content}
use storage_testbench.FileStore.Methods.{bucket_name_from_proto, run}
use storage_testbench.FileStore.Current.{live_object, is_proto}
use storage_testbench.FileStore.Buckets.{tree_of}
use storage_testbench.FileStore.Mirrored.{are_current, run-OnDisk}
use storage_testbench.FileStore.Rebuild.{rebuild_bucket}
use storage_testbench.FileStore.Scan.{rebuild_bucket-live}

module _ (sha256_hex : Text → Text) (no_dot : (name : Text) → has_char 46 (sha256_hex name) ≡ false)
    (process : Process) (md5_of_empty : Bytes) (text_of : Content → Bytes)
    (validate : Text → Context → Result (Unit {0})) where
  -- A restart of the program keeps the live objects of a bucket, with their metadata and their bytes: behind
  -- any sequence of requests to a new database over an empty root, the scan of what the file backend has
  -- written for the bucket returns, and each name has the live object that it had. The conditions: the
  -- tokens that stand for names have no dot; each update keeps the names of what it changes and changes
  -- nothing when it raises, and each precondition of a deletion returns `True` or raises; no method of
  -- the backend has raised; the bucket's name is `projects/_/buckets/<name>`; and each notification was
  -- current (`is_current`): about a bucket of such a name, a new one where it is inserted, about the live
  -- generation of an object, with media of the size that its metadata say, and with the same media
  -- where it is updated.
  pub restart-serve :
      (rs : List Request)
      → EachKeepsNames rs
      → EachClean rs
      → are_current (serve validate rs init).events ≡ true
      → (run sha256_hex process (serve validate rs init).events []).0 ≡ ok tt
      → (bucket : Bucket) (s : Database) → is_proto bucket.name ≡ true
      → ((rebuild_bucket md5_of_empty text_of bucket
            (tree_of
              (bucket_name_from_proto bucket.name)
              (run sha256_hex process (serve validate rs init).events []).1)
            s).0
          ≡ ok tt)
        × ((n : Text)
            → live_object bucket.name n (
                index_of
                  (rebuild_bucket md5_of_empty text_of bucket
                    (tree_of
                      (bucket_name_from_proto bucket.name)
                      (run sha256_hex process (serve validate rs init).events []).1)
                    s).1)
              ≡ live_object bucket.name n (index_of (serve validate rs init)))
  restart-serve rs names clean current ran bucket s proto =
      let on = run-OnDisk sha256_hex no_dot process (serve validate rs init).events current ran in
      let (returned, same) =
        rebuild_bucket-live sha256_hex _ _ (on.shows bucket.name proto) md5_of_empty text_of bucket
          s in
      (
        returned,
        λ n. same n ∙ ap (live_object bucket.name n) (serve-replays validate rs names clean),
      )
