-- ===== src/Acl/Public.antt =====
-- testbench/acl.py: what the predefined access controls allow to everyone.
use storage_testbench.Base.{
  Bool, false, ◌&&◌, ◌||◌, none, some, List, [], ◌∷◌, ◌≡◌, Text, codes, text_eq, Option,
}
use storage_testbench.Errors.{ok, err}
use storage_testbench.Acl.{Env, Acl}
use storage_testbench.Acl.Predefined.{Grant}

-- Whether access controls give an entity a role.
unfoldable pub allows : Text → Text → List Acl → Bool
allows entity role [] = false
allows entity role (acl ∷ acls) =
    (text_eq acl.entity entity && text_eq acl.role role) || allows entity role acls

-- The groups that anyone is in, and anyone who is signed in.
pub data Group : Type 0 where
  all_users all_authenticated_users : Group

abbrev pub entity_of : Group → Text
entity_of all_users = codes "allUsers"
entity_of all_authenticated_users = codes "allAuthenticatedUsers"

-- The names of predefined access controls, in snake case; a bucket has the first five, an object all but
-- `public_read_write`.
pub data Predefined : Type 0 where
  authenticated_read private project_private public_read public_read_write : Predefined
  bucket_owner_full_control bucket_owner_read : Predefined

abbrev pub spelling : Predefined → Text
spelling authenticated_read = codes "authenticated_read"
spelling private = codes "private"
spelling project_private = codes "project_private"
spelling public_read = codes "public_read"
spelling public_read_write = codes "public_read_write"
spelling bucket_owner_full_control = codes "bucket_owner_full_control"
spelling bucket_owner_read = codes "bucket_owner_read"

-- The role that they give to a group, if any.
abbrev pub bucket_role : Predefined → Group → Option Text
bucket_role public_read all_users = some (codes "READER")
bucket_role public_read_write all_users = some (codes "WRITER")
bucket_role authenticated_read all_authenticated_users = some (codes "READER")
bucket_role _ _ = none

abbrev pub object_role : Predefined → Group → Option Text
object_role public_read all_users = some (codes "READER")
object_role authenticated_read all_authenticated_users = some (codes "READER")
object_role _ _ = none

abbrev pub is_role : Option Text → Text → Bool
is_role none role = false
is_role (some r) role = text_eq r role

-- Whether grants give an entity a role.
unfoldable grants_allow : Text → Text → List Grant → Bool
grants_allow entity role [] = false
grants_allow entity role ((ok e, r) ∷ gs) =
    (text_eq e entity && text_eq r role) || grants_allow entity role gs
grants_allow entity role ((err x, r) ∷ gs) = grants_allow entity role gs

-- `str.lower` leaves no capital letter, and the owner of objects is no group.
pub record IsPrivate (env : Env) : Type 0 where
  pub lowered : (g : Group) (t : Text) → text_eq (env.lower t) (entity_of g) ≡ false
  pub owned : (g : Group) → text_eq env.object_owner_entity (entity_of g) ≡ false
