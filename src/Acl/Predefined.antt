-- ===== src/Acl/Predefined.antt =====
-- testbench/acl.py: the predefined access controls of buckets and objects.
use storage_testbench.Base.{
  ℕ, Bool, true, false, Option, none, some, List, [], ◌∷◌, map, ◌≡◌, refl, ap, ◌∙◌, arith, Text,
  codes, text_eq, if◌then◌else◌,
}
use storage_testbench.Errors.{Context, Result, ok, err}
use storage_testbench.Acl.{
  Env, Acl, is_one_of, replace_dashes, to_snake_case, get_project_entity, get_object_entity,
  create_bucket_acl, create_default_object_acl, create_object_acl_from_default_object_acl, map_acl,
  create_object_acl,
}

-- An entity, which may raise, and its role
abbrev pub Grant : Type 0
Grant = Result Text × Text

-- `acls.append(acl_factory(..., entity, role, ...))`, one after the other
abbrev append_acl : Result Acl → Result (List Acl) → Result (List Acl)
append_acl (err e) acls = err e
append_acl (ok acl) (err e) = err e
append_acl (ok acl) (ok acls) = ok (acl ∷ acls)

abbrev grant_one : (Text → Text → Result Acl) → Grant → Result Acl
grant_one factory (err e, role) = err e
grant_one factory (ok entity, role) = factory entity role

unfoldable pub grant_all : (Text → Text → Result Acl) → List Grant → Result (List Acl)
grant_all factory [] = ok []
grant_all factory (g ∷ gs) = append_acl (grant_one factory g) (grant_all factory gs)

-- The access controls, each changed
abbrev pub map_acls : (Acl → Acl) → Result (List Acl) → Result (List Acl)
map_acls f (err e) = err e
map_acls f (ok acls) = ok (map f acls)

abbrev pub is_ok : Result (List Acl) → Bool
is_ok (ok acls) = true
is_ok (err e) = false

append_acl-map :
    (f : Acl → Acl) (a : Result Acl) (r : Result (List Acl))
    → append_acl (map_acl f a) (map_acls f r) ≡ map_acls f (append_acl a r)
append_acl-map f (err e) r = refl
append_acl-map f (ok a) (err e) = refl
append_acl-map f (ok a) (ok acls) = refl

module _ (env : Env) (context : Context) where
  abbrev team : Text → Text → Grant
  team name role = (get_project_entity env name context, role)

  abbrev everyone : Text → Text → Grant
  everyone entity role = (ok entity, role)

  abbrev object_owner : Grant
  object_owner = (get_object_entity env (codes "OWNER") context, codes "OWNER")

  -- The branches of `compute_predefined_bucket_acl`
  unfoldable pub bucket_grants : Text → List Grant
  bucket_grants predefined_acl =
      if text_eq predefined_acl (codes "authenticated_read")
      then team (codes "owners") (codes "OWNER")
        ∷ everyone (codes "allAuthenticatedUsers") (codes "READER")
        ∷ []
      else if text_eq predefined_acl (codes "private")
      then team (codes "owners") (codes "OWNER") ∷ []
      else if text_eq predefined_acl (codes "project_private")
      then team (codes "owners") (codes "OWNER")
        ∷ team (codes "editors") (codes "WRITER")
        ∷ team (codes "viewers") (codes "READER")
        ∷ []
      else if text_eq predefined_acl (codes "public_read")
      then team (codes "owners") (codes "OWNER") ∷ everyone (codes "allUsers") (codes "READER") ∷ []
      else if text_eq predefined_acl (codes "public_read_write")
      then team (codes "owners") (codes "OWNER") ∷ everyone (codes "allUsers") (codes "WRITER") ∷ []
      else []

  -- The branches of `__compute_predefined_object_acl`
  unfoldable pub object_grants : Text → List Grant
  object_grants predefined_acl =
      if text_eq predefined_acl (codes "authenticated_read")
      then object_owner ∷ everyone (codes "allAuthenticatedUsers") (codes "READER") ∷ []
      else if text_eq predefined_acl (codes "bucket_owner_full_control")
      then object_owner ∷ team (codes "owners") (codes "OWNER") ∷ []
      else if text_eq predefined_acl (codes "bucket_owner_read")
      then object_owner ∷ team (codes "owners") (codes "READER") ∷ []
      else if text_eq predefined_acl (codes "private")
      then object_owner ∷ []
      else if text_eq predefined_acl (codes "project_private")
      then object_owner
        ∷ team (codes "owners") (codes "OWNER")
        ∷ team (codes "editors") (codes "OWNER")
        ∷ team (codes "viewers") (codes "READER")
        ∷ []
      else if text_eq predefined_acl (codes "public_read")
      then object_owner ∷ everyone (codes "allUsers") (codes "READER") ∷ []
      else []

  unfoldable pub compute_predefined_bucket_acl : Text → Option Text → Result (List Acl)
  compute_predefined_bucket_acl bucket_name none = ok []
  compute_predefined_bucket_acl bucket_name (some predefined_acl) =
      grant_all (λ entity role. create_bucket_acl env bucket_name entity role context)
        (bucket_grants (replace_dashes (to_snake_case env predefined_acl)))

  unfoldable pub compute_predefined_acl :
      (Text → Text → Result Acl) → Option Text → Result (List Acl)
  compute_predefined_acl acl_factory none = ok []
  compute_predefined_acl acl_factory (some predefined_acl) =
      grant_all acl_factory (object_grants (replace_dashes (to_snake_case env predefined_acl)))

  unfoldable pub compute_predefined_default_object_acl : Text → Option Text → Result (List Acl)
  compute_predefined_default_object_acl bucket_name predefined =
      compute_predefined_acl
        (λ entity role. create_default_object_acl env bucket_name entity role context) predefined

  unfoldable pub compute_predefined_object_acl : Text → Text → ℕ → Option Text → Result (List Acl)
  compute_predefined_object_acl bucket_name object_name generation predefined =
      compute_predefined_acl
        (λ entity role.
          create_object_acl env bucket_name object_name generation entity role context)
        predefined

  grant_all-map :
      (f : Acl → Acl) (factory : Text → Text → Result Acl) (gs : List Grant)
      → grant_all (λ entity role. map_acl f (factory entity role)) gs
        ≡ map_acls f (grant_all factory gs)
  unfolding grant_all
  grant_all-map f factory [] = refl
  grant_all-map f factory ((err e, role) ∷ gs) = refl
  grant_all-map f factory ((ok entity, role) ∷ gs) =
      ap (append_acl (map_acl f (factory entity role))) (grant_all-map f factory gs)
      ∙ append_acl-map f (factory entity role) (grant_all factory gs)

  -- The predefined access controls of an object are the predefined default object access controls of its
  -- bucket, each with an id of its own.
  pub compute_predefined_object_acl_lem :
      (bucket_name object_name : Text) (generation : ℕ) (predefined : Option Text)
      → compute_predefined_object_acl bucket_name object_name generation predefined
        ≡ map_acls
            (create_object_acl_from_default_object_acl env object_name generation)
            (compute_predefined_default_object_acl bucket_name predefined)
  unfolding compute_predefined_object_acl compute_predefined_default_object_acl
      compute_predefined_acl create_object_acl
  compute_predefined_object_acl_lem bucket_name object_name generation none = refl
  compute_predefined_object_acl_lem bucket_name object_name generation (some p) =
      grant_all-map (create_object_acl_from_default_object_acl env object_name generation)
        (λ entity role. create_default_object_acl env bucket_name entity role context)
        (object_grants (replace_dashes (to_snake_case env p)))

  bucket_grants-granted :
      (bucket_name name : Text)
      → is_ok (
          grant_all
            (λ entity role. create_bucket_acl env bucket_name entity role context)
            (bucket_grants name))
        ≡ true
  unfolding grant_all bucket_grants create_bucket_acl get_project_entity is_one_of text_eq
  bucket_grants-granted bucket_name name = ground arith

  object_grants-granted :
      (bucket_name name : Text)
      → is_ok (
          grant_all
            (λ entity role. create_default_object_acl env bucket_name entity role context)
            (object_grants name))
        ≡ true
  unfolding grant_all object_grants create_default_object_acl get_project_entity get_object_entity
      is_one_of text_eq
  object_grants-granted bucket_name name = ground arith

  granted : (r : Result (List Acl)) → is_ok r ≡ true → (acls : List Acl) × (r ≡ ok acls)
  granted (ok acls) e = (acls, refl)
  granted (err x) e = ground arith

  -- The three functions raise for no predefined access controls, whatever they are called. (Their callers
  -- refuse them all for a bucket with uniform bucket-level access.)
  pub compute_predefined-returns :
      (bucket_name object_name : Text) (generation : ℕ) (predefined : Option Text)
      → ((acls : List Acl) × (compute_predefined_bucket_acl bucket_name predefined ≡ ok acls))
        × ((acls : List Acl) × (compute_predefined_default_object_acl bucket_name predefined
              ≡ ok acls))
        × ((acls : List Acl) × (compute_predefined_object_acl bucket_name object_name generation
                predefined
              ≡ ok acls))
  unfolding compute_predefined_bucket_acl compute_predefined_default_object_acl
      compute_predefined_acl
  compute_predefined-returns bucket_name object_name generation predefined =
      let (acls, is) = default predefined in
      let f = create_object_acl_from_default_object_acl env object_name generation in
      (
        bucket predefined,
        (acls, is),
        (
          map f acls,
          compute_predefined_object_acl_lem bucket_name object_name generation predefined
              ∙ ap (map_acls f) is,
        ),
      )
    where
      bucket :
          (p : Option Text)
          → (acls : List Acl) × (compute_predefined_bucket_acl bucket_name p ≡ ok acls)
      bucket none = ([], refl)
      bucket (some p) =
          granted _ (bucket_grants-granted bucket_name (replace_dashes (to_snake_case env p)))

      default :
          (p : Option Text)
          → (acls : List Acl) × (compute_predefined_default_object_acl bucket_name p ≡ ok acls)
      default none = ([], refl)
      default (some p) =
          granted _ (object_grants-granted bucket_name (replace_dashes (to_snake_case env p)))
