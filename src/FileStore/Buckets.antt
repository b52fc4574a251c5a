-- ===== src/FileStore/Buckets.antt =====
-- testbench/filestore.py: the trees of the buckets on the disk, behind an action in the directory of one.
use storage_testbench.Base.{
  Bool, true, Option, none, some, [], ◌∷◌, ◌++◌, ◌≡◌, refl, sym, ap, ◌∙◌, arith, Text, text_eq,
  text_eq_iff, starts_with, length, drop, lookup, lookup-insert, lookup-erase, if◌then◌else◌,
}
use storage_testbench.Errors.{ok}
use storage_testbench.FileStore.{Content, Tree, Disk}
use storage_testbench.FileStore.Disk.{Action, file_at}
use storage_testbench.FileStore.Methods.{
  proto_prefix, bucket_name_from_proto, in_bucket, remove_bucket_tree,
}
use storage_testbench.FileStore.Current.{is_proto}

abbrev or_empty : Option Tree → Tree
or_empty none = []
or_empty (some fs) = fs

-- What is in the directory of a bucket; nothing if it is not there
unfoldable pub tree_of : Text → Disk → Tree
tree_of short disk = or_empty (lookup short disk)

-- The files of a bucket
abbrev pub files_of : Text → Disk → Text → Option Content
files_of short disk path = file_at (tree_of short disk) path

starts_with-drop : (t p : Text) → starts_with t p ≡ true → t ≡ p ++ drop (length p) t
unfolding starts_with drop
starts_with-drop t [] e = refl
starts_with-drop [] (d ∷ p) e = ground arith
starts_with-drop (c ∷ t) (d ∷ p) e = ground (arith, starts_with-drop t p)

-- Two buckets have two directories.
pub bucket_name_from_proto-injective :
    (s t : Text)
    → is_proto s ≡ true
    → is_proto t ≡ true
    → bucket_name_from_proto s ≡ bucket_name_from_proto t
    → s ≡ t
unfolding bucket_name_from_proto
bucket_name_from_proto-injective s t p q e =
    let one : drop (length proto_prefix) s ≡ drop (length proto_prefix) t = ground arith in
    starts_with-drop s proto_prefix p
    ∙ ap (λ r. proto_prefix ++ r) one
    ∙ sym (starts_with-drop t proto_prefix q)

pub text_eq-bucket_name_from_proto :
    (s t : Text)
    → is_proto s ≡ true
    → is_proto t ≡ true
    → text_eq (bucket_name_from_proto s) (bucket_name_from_proto t) ≡ text_eq s t
text_eq-bucket_name_from_proto s t p q = ground (
  arith,
  text_eq_iff (bucket_name_from_proto s) (bucket_name_from_proto t),
  text_eq_iff s t,
  bucket_name_from_proto-injective s t p q,
)

module _ (create : Bool) (short : Text) (action : Action (Unit {0})) (disk : Disk) where
  -- If the whole returns, so has the action, on the tree of the bucket,
  pub in_bucket-returns :
      (in_bucket create short action disk).0 ≡ ok tt → (action (tree_of short disk)).0 ≡ ok tt
  unfolding in_bucket tree_of
  in_bucket-returns e = ground arith

  -- and its tree is the one that is left; the other buckets have theirs.
  pub in_bucket-tree :
      (s : Text)
      → (in_bucket create short action disk).0 ≡ ok tt
      → tree_of s (in_bucket create short action disk).1
        ≡ (if text_eq short s then (action (tree_of short disk)).1 else tree_of s disk)
  unfolding in_bucket tree_of
  in_bucket-tree s e = ground (arith, lookup-insert s short (action (tree_of short disk)).1 disk)

pub remove_bucket_tree-tree :
    (short s : Text) (disk : Disk)
    → tree_of s (remove_bucket_tree short disk).1 ≡ (if text_eq short s then [] else tree_of s disk)
unfolding tree_of
remove_bucket_tree-tree short s disk = ground (arith, lookup-erase s short disk)
