-- ===== src/Acl.antt =====
-- testbench/acl.py: the access controls of buckets and objects. The project's number and the entities of the
-- owner and of a reader, which come from the environment, are in the record `Env`, with `str.lower` and the
-- hexadecimal MD5 of a text. `md5_hex` has the text for its UTF-8 bytes.
pub mod Predefined
pub mod Public
use storage_testbench.Base.{
  ℕ, Bool, true, false, not, ◌&&◌, ◌||◌, leb, Option, none, some, List, [], ◌∷◌, ◌++◌, Text, codes,
  text_eq, starts_with, length, drop, if◌then◌else◌,
}
use storage_testbench.Errors.{Context, rest, grpc, Error, py, index_error, Result, ok, err, invalid}
use storage_testbench.Pathing.{has_char}
use storage_testbench.Uploads.Resumable.Ranges.{decimal}

pub record Env : Type 0 where
  pub project_number : Text
  pub object_owner_entity : Text
  pub object_reader_entity : Text
  pub lower : Text → Text
  pub md5_hex : Text → Text

-- `BucketAccessControl`, `ObjectAccessControl`
pub record Acl : Type 0 where
  pub role : Text
  pub id : Text
  pub etag : Text
  pub entity : Text
  pub entity_alt : Option Text
  pub entity_id : Text
  pub email : Text
  pub domain : Text
  pub project_number : Text
  pub team : Text

-- `__extract_email`, `__extract_domain`, `__extract_team`
unfoldable pub extract_email : Text → Text
extract_email entity =
    if starts_with entity (codes "user-")
    then drop 5 entity
    else if starts_with entity (codes "group-") && has_char 64 entity
    then drop 6 entity
    else []

unfoldable pub extract_domain : Text → Text
extract_domain entity = if starts_with entity (codes "domain-") then drop 7 entity else []

-- `t.partition("-")[0]`
unfoldable pub before_dash : Text → Text
before_dash [] = []
before_dash (c ∷ t) =
    let later = before_dash t in if text_eq (c ∷ []) (codes "-") then [] else c ∷ later

-- `entity.split("-")[1]`, of what starts with `project-`
unfoldable pub extract_team : Text → Text
extract_team entity =
    if starts_with entity (codes "project-") then before_dash (drop 8 entity) else []

-- `value in [...]`
unfoldable pub is_one_of : Text → List Text → Bool
is_one_of value [] = false
is_one_of value (t ∷ ts) = text_eq value t || is_one_of value ts

-- `re_snake_case.sub("_", string)`: behind the start, before each of `[A-Z]`
unfoldable pub put_underscores : Bool → Text → Text
put_underscores started [] = []
put_underscores started (c ∷ t) =
    let later = put_underscores true t in
    if started && leb 65 c && leb c 90 then 95 ∷ c ∷ later else c ∷ later

-- `t.replace("-", "_")`
unfoldable pub replace_dashes : Text → Text
replace_dashes [] = []
replace_dashes (c ∷ t) =
    let later = replace_dashes t in if text_eq (c ∷ []) (codes "-") then 95 ∷ later else c ∷ later

abbrev pub map_acl : (Acl → Acl) → Result Acl → Result Acl
map_acl f (ok acl) = ok (f acl)
map_acl f (err e) = err e

module _ (env : Env) where
  unfoldable pub to_snake_case : Text → Text
  to_snake_case string = env.lower (put_underscores false string)

  abbrev pub owners : Text
  owners = codes "project-owners-" ++ env.project_number

  -- The second and third tests are of what the one before has left.
  abbrev pub of_project : Text → Text → Text
  of_project team entity = if starts_with entity team then team ++ env.project_number else entity

  unfoldable pub get_canonical_entity : Text → Text
  get_canonical_entity entity =
      if text_eq entity (codes "allUsers") || text_eq entity (codes "allAuthenticatedUsers")
      then entity
      else env.lower (
          of_project (codes "project-viewers-")
            (of_project (codes "project-editors-") (of_project (codes "project-owners-") entity)))

  unfoldable pub get_project_entity : Text → Context → Result Text
  get_project_entity team context =
      if is_one_of team (codes "editors" ∷ codes "owners" ∷ codes "viewers" ∷ [])
      then ok (codes "project-" ++ team ++ codes "-" ++ env.project_number)
      else err (invalid context)

  unfoldable pub get_object_entity : Text → Context → Result Text
  get_object_entity role context =
      if text_eq role (codes "OWNER")
      then ok env.object_owner_entity
      else if text_eq role (codes "READER")
      then ok env.object_reader_entity
      else err (invalid context)

  -- What the three functions that create access controls share; the bucket's name is in the id.
  abbrev pub new_acl : Text → Text → Text → Acl
  new_acl bucket_name entity role =
      let canonical = get_canonical_entity entity in
      record {
        role = role;
        id = env.md5_hex (bucket_name ++ codes "#" ++ canonical ++ codes "#" ++ role);
        etag = env.md5_hex (canonical ++ codes "#" ++ role);
        entity = canonical;
        entity_alt = if text_eq canonical entity then none else some entity;
        entity_id = env.md5_hex canonical;
        email = extract_email canonical;
        domain = extract_domain canonical;
        project_number = env.project_number;
        team = extract_team canonical;
      }

  unfoldable pub create_bucket_acl : Text → Text → Text → Context → Result Acl
  create_bucket_acl bucket_name entity role context =
      if is_one_of role (codes "OWNER" ∷ codes "WRITER" ∷ codes "READER" ∷ [])
      then ok (new_acl bucket_name entity role)
      else err (invalid context)

  unfoldable pub create_default_object_acl : Text → Text → Text → Context → Result Acl
  create_default_object_acl bucket_name entity role context =
      if is_one_of role (codes "OWNER" ∷ codes "READER" ∷ [])
      then ok (new_acl bucket_name entity role)
      else err (invalid context)

  unfoldable pub create_object_acl_from_default_object_acl : Text → ℕ → Acl → Acl
  create_object_acl_from_default_object_acl object_name generation acl = record acl {
    id = env.md5_hex (object_name ++ decimal generation ++ acl.entity ++ acl.role);
  }

  unfoldable pub create_object_acl : Text → Text → ℕ → Text → Text → Context → Result Acl
  create_object_acl bucket_name object_name generation entity role context =
      map_acl (create_object_acl_from_default_object_acl object_name generation)
        (create_default_object_acl bucket_name entity role context)
