-- ===== src/Database/ListBuckets/Contents.antt =====
-- What `list_bucket` answers, without a retry test.
use storage_testbench.Base.{
  Bool, true, false, ◌&&◌, Option, none, some, List, [], ◌∷◌, ◌++◌, ◌≡◌, Text, codes, text_eq,
  starts_with, if◌then◌else◌,
}
use storage_testbench.Database.State.{Database, Bucket}
use storage_testbench.Database.RetryTests.{member}
use storage_testbench.Database.ListBuckets.{lower, has_text}

-- The buckets that pass a test, in their order.
unfoldable pub those : (Bucket → Bool) → List Bucket → List Bucket
those p [] = []
those p (b ∷ buckets) = let rest = those p buckets in if p b then b ∷ rest else rest

unfoldable pub names_of : List Bucket → List Text
names_of [] = []
names_of (b ∷ buckets) = b.name ∷ names_of buckets

-- Whether the name of a bucket begins with the prefix asked for, behind `projects/_/buckets/`.
abbrev pub is_selected : Text → Bucket → Bool
is_selected [] b = true
is_selected (c ∷ prefix) b = starts_with b.name (codes "projects/_/buckets/" ++ c ∷ prefix)

-- Whether a bucket is not to be reached: if its name says so, and partial success is asked for.
abbrev pub is_unreachable : Option Text → Bucket → Bool
is_unreachable none b = false
is_unreachable (some t) b =
    text_eq (lower t) (codes "true") && has_text (codes "unreachable") b.name

-- The names of a list are those of the buckets, among these, that pass a test.
data Agree (u : Bucket → Bool) (names : List Text) : List Bucket → Type 0 where
  no_bucket : Agree u names []
  and_bucket :
      {b : Bucket} {buckets : List Bucket}
      → member b.name names ≡ u b
      → Agree u names buckets
      → Agree u names (b ∷ buckets)

abbrev says_so : Bucket → Bool
says_so b = has_text (codes "unreachable") b.name
