-- ===== src/FileStore/Steps.antt =====
-- testbench/filestore.py: the disk shows the live objects of the index, behind each current notification.
use storage_testbench.Base.{
  Bool, true, false, ◌&&◌, Option, none, [], ◌≡◌, refl, sym, arith, Text, text_eq, text_eq_iff,
  subst, lookup, if◌then◌else◌, Bool-cases, inl, inr,
}
use storage_testbench.Errors.{ok}
use storage_testbench.Database.State.{Blob, bucket_deleted}
use storage_testbench.Database.Mirror.{Index, apply, empty}
use storage_testbench.Pathing.{has_char}
use storage_testbench.FileStore.{Tree, Disk}
use storage_testbench.FileStore.Disk.{Action, file_at}
use storage_testbench.FileStore.Methods.{bucket_name_from_proto, in_bucket, remove_bucket_tree}
use storage_testbench.FileStore.Shown.{named, Shows, Shows-frame}
use storage_testbench.FileStore.Current.{live_object, is_proto, live-bucket_deleted}
use storage_testbench.FileStore.Buckets.{
  tree_of, files_of, text_eq-bucket_name_from_proto, in_bucket-returns, in_bucket-tree,
  remove_bucket_tree-tree,
}

-- What is nowhere is shown by no files.
Shows-none :
    (sha256_hex : Text → Text) (L : Text → Option Blob)
    → ((n : Text) → L n ≡ none)
    → Shows sha256_hex (file_at []) L
unfolding file_at lookup named
Shows-none sha256_hex L nowhere = record {
  sidecars = λ n. ground (arith, nowhere n);
  bytes = λ n b e. ground (arith, nowhere n);
  whole = λ n b e. ground (arith, nowhere n);
  fitting = λ p c e. ground arith;
}

-- Each bucket's files show its live objects.
pub record OnDisk (sha256_hex : Text → Text) (x : Index) (disk : Disk) : Type 0 where
  pub shows :
      (bk : Text)
      → is_proto bk ≡ true
      → Shows sha256_hex (files_of (bucket_name_from_proto bk) disk) (λ n. live_object bk n x)

module _ (sha256_hex : Text → Text)
    (no_dot : (name : Text) → has_char 46 (sha256_hex name) ≡ false) where
  -- The same objects, under another name of the index
  Shows-same :
      (fs : Tree) (L L' : Text → Option Blob)
      → Shows sha256_hex (file_at fs) L
      → ((n : Text) → L' n ≡ L n)
      → Shows sha256_hex (file_at fs) L'
  Shows-same fs L L' shown same =
      Shows-frame sha256_hex no_dot (file_at fs) (file_at fs) L L' shown (λ q _. refl)
        (λ p c _ e. shown.fitting p c e) same

  -- An action in the directory of one bucket
  module _ (x x' : Index) (disk : Disk) (on : OnDisk sha256_hex x disk) where
    OnDisk-in_bucket :
        (create : Bool) (short : Text) (action : Action (Unit {0}))
        → (in_bucket create short action disk).0 ≡ ok tt
        → ((bk n : Text)
            → is_proto bk ≡ true
            → text_eq short (bucket_name_from_proto bk) ≡ false
            → live_object bk n x' ≡ live_object bk n x)
        → ((bk : Text) (fs : Tree)
            → is_proto bk ≡ true
            → text_eq short (bucket_name_from_proto bk) ≡ true
            → (action fs).0 ≡ ok tt
            → Shows sha256_hex (file_at fs) (λ n. live_object bk n x)
            → Shows sha256_hex (file_at (action fs).1) (λ n. live_object bk n x'))
        → OnDisk sha256_hex x' (in_bucket create short action disk).1
    OnDisk-in_bucket create short action e others here = record {
      shows = λ bk proto.
          let s : Text = bucket_name_from_proto bk in
          let left : tree_of s (in_bucket create short action disk).1
              ≡ (if text_eq short s then (action (tree_of short disk)).1 else tree_of s disk) =
            in_bucket-tree create short action disk s e in
          elim (Bool-cases (text_eq short s)) [
            | inl same ↦
                let one : tree_of s disk ≡ tree_of short disk =
                  ground (arith, text_eq_iff short s) in
                let it : tree_of s (in_bucket create short action disk).1
                    ≡ (action (tree_of short disk)).1 =
                  ground arith in
                subst (λ fs. Shows sha256_hex (file_at fs) (λ n. live_object bk n x')) (sym it)
                  (here bk (tree_of short disk) proto same
                    (in_bucket-returns create short action disk e)
                    (subst (λ fs. Shows sha256_hex (file_at fs) (λ n. live_object bk n x)) one
                      (on.shows bk proto)))
            | inr other ↦
                let it : tree_of s (in_bucket create short action disk).1 ≡ tree_of s disk =
                  ground arith in
                subst (λ fs. Shows sha256_hex (file_at fs) (λ n. live_object bk n x')) (sym it)
                  (Shows-same (tree_of s disk) (λ n. live_object bk n x) (λ n. live_object bk n x')
                    (on.shows bk proto) (λ n. others bk n proto other))
          ];
    }

    -- A method that changes no live object
    pub OnDisk-internal :
        (create : Bool) (short : Text) (action : Action (Unit {0}))
        → (in_bucket create short action disk).0 ≡ ok tt
        → ((bk n : Text) → live_object bk n x' ≡ live_object bk n x)
        → ((fs : Tree) (L : Text → Option Blob)
            → (action fs).0 ≡ ok tt
            → Shows sha256_hex (file_at fs) L
            → Shows sha256_hex (file_at (action fs).1) L)
        → OnDisk sha256_hex x' (in_bucket create short action disk).1
    OnDisk-internal create short action e same keeps =
        OnDisk-in_bucket create short action e (λ bk n _ _. same bk n)
          (λ bk fs _ _ e' shown.
            Shows-same (action fs).1 (λ n. live_object bk n x) (λ n. live_object bk n x')
              (keeps fs (λ n. live_object bk n x) e' shown) (same bk))

    -- A method that changes the live object of one name
    module _ (i name : Text) (proto : is_proto i ≡ true) (now : Option Blob)
        (change : (bk n : Text)
          → live_object bk n x'
            ≡ (if text_eq i bk && text_eq name n then now else live_object bk n x)) where
      pub OnDisk-object :
          (action : Action (Unit {0}))
          → (in_bucket false (bucket_name_from_proto i) action disk).0 ≡ ok tt
          → ((fs : Tree)
              → (action fs).0 ≡ ok tt
              → Shows sha256_hex (file_at fs) (λ n. live_object i n x)
              → ((n : Text)
                  → live_object i n x' ≡ (if text_eq name n then now else live_object i n x))
              → Shows sha256_hex (file_at (action fs).1) (λ n. live_object i n x'))
          → OnDisk sha256_hex x' (in_bucket false (bucket_name_from_proto i) action disk).1
      OnDisk-object action e here =
          OnDisk-in_bucket false (bucket_name_from_proto i) action e
            (λ bk n p other.
              ground (arith, change bk n, text_eq-bucket_name_from_proto i bk proto p))
            (λ bk fs p same e'.
              let one : i ≡ bk =
                ground (arith, text_eq-bucket_name_from_proto i bk proto p, text_eq_iff i bk) in
              subst
                (λ j.
                  Shows sha256_hex (file_at fs) (λ n. live_object j n x)
                  → Shows sha256_hex (file_at (action fs).1) (λ n. live_object j n x'))
                one (λ shown. here fs e' shown (λ n. ground (arith, change i n, text_eq_iff i i))))

  -- A bucket's directory goes.
  pub OnDisk-remove :
      (x : Index) (disk : Disk) (i : Text)
      → OnDisk sha256_hex x disk
      → is_proto i ≡ true
      → OnDisk sha256_hex
          (apply (bucket_deleted i) x)
          (remove_bucket_tree (bucket_name_from_proto i) disk).1
  OnDisk-remove x disk i on proto = record {
    shows = λ bk p.
        let s : Text = bucket_name_from_proto bk in
        let short : Text = bucket_name_from_proto i in
        let L' : Text → Option Blob = λ n. live_object bk n (apply (bucket_deleted i) x) in
        let left = remove_bucket_tree-tree short s disk in
        elim (Bool-cases (text_eq i bk)) [
          | inl same ↦
              let it : tree_of s (remove_bucket_tree short disk).1 ≡ [] =
                ground (arith, left, text_eq-bucket_name_from_proto i bk proto p) in
              subst (λ fs. Shows sha256_hex (file_at fs) L') (sym it)
                (Shows-none sha256_hex L' (λ n. ground (arith, live-bucket_deleted x bk i n)))
          | inr other ↦
              let it : tree_of s (remove_bucket_tree short disk).1 ≡ tree_of s disk =
                ground (arith, left, text_eq-bucket_name_from_proto i bk proto p) in
              subst (λ fs. Shows sha256_hex (file_at fs) L') (sym it)
                (Shows-same (tree_of s disk) (λ n. live_object bk n x) L' (on.shows bk p)
                  (λ n. ground (arith, live-bucket_deleted x bk i n)))
        ];
  }

  pub OnDisk-empty : OnDisk sha256_hex empty []
  unfolding tree_of lookup live_object
  OnDisk-empty = record { shows = λ bk p. Shows-none sha256_hex _ (λ n. refl) }
