-- ===== src/Tests/Accounts.antt =====
-- The theorems on HMAC keys and access controls at a concrete input.
use storage_testbench.Base.{
  suc, some, List, [], ◌∷◌, ◌≡◌, refl, Text, codes, text_eq, lookup, insert, alter,
}
use storage_testbench.Errors.{rest, ok, err, invalid, notfound}
use storage_testbench.Pathing.{has_char}
use storage_testbench.Database.Key.{digits_rev}
use storage_testbench.Projects.{
  inactive, deleted, HmacKey, Project, KeyRequest, hmac_keys_insert, hmac_keys_delete,
  hmac_keys_update, key_id, access_id_of, split_access_id, get_hmac_key, delete_hmac_key,
  insert_hmac_key, updated_key, update_hmac_key, serve_keys,
}
use storage_testbench.Projects.Keys.{IsNumbered, next_key}
use storage_testbench.Projects.Lifecycle.{
  new_project, deactivate, serve_keys-IsNumbered, get_hmac_key-insert_hmac_key,
  delete_hmac_key-deactivate,
}
use storage_testbench.Database.ListBuckets.{lower}
use storage_testbench.Acl.{Env, Acl}

abbrev bot : Text
bot = codes "bot@example.com"

abbrev plain64 : Text → Text
plain64 t = t

-- A key is made, its deletion is refused, it is made inactive, and another is made.
abbrev requests : List KeyRequest
requests =
    hmac_keys_insert (some bot) (codes "s") (codes "now")
    ∷ hmac_keys_delete (access_id_of bot (key_id 20001))
    ∷ hmac_keys_update (access_id_of bot (key_id 20001)) deactivate (codes "later")
    ∷ hmac_keys_insert (some bot) (codes "t") (codes "later")
    ∷ []

abbrev keys : Project
keys = serve_keys plain64 requests (new_project (codes "p"))

serve_keys-IsNumbered_example :
    IsNumbered plain64 (serve_keys plain64 requests (new_project (codes "p")))
serve_keys-IsNumbered_example = serve_keys-IsNumbered plain64 requests (codes "p")

get_hmac_key-insert_hmac_key_example :
    (get_hmac_key
      (access_id_of bot (key_id (suc keys.key_id_generator)))
      rest
      (insert_hmac_key plain64 bot (codes "u") (codes "now") keys).1).0
    ≡ (insert_hmac_key plain64 bot (codes "u") (codes "now") keys).0
unfolding has_char
get_hmac_key-insert_hmac_key_example =
    (get_hmac_key-insert_hmac_key plain64 bot (codes "u") (codes "now") rest keys
      (serve_keys-IsNumbered plain64 requests (codes "p")) refl).0

-- The first key of a project
abbrev made : Project
made = (insert_hmac_key plain64 bot (codes "s") (codes "now") (new_project (codes "p"))).1

abbrev first_key : HmacKey
first_key = next_key plain64 bot (codes "s") (codes "now") (new_project (codes "p"))

delete_hmac_key-deactivate_example :
    (delete_hmac_key (access_id_of bot (key_id 20001)) rest made ≡ (err (invalid rest), made))
    × ((update_hmac_key plain64
          (access_id_of bot (key_id 20001))
          deactivate
          (codes "later")
          rest
          made).0
        ≡ ok (updated_key plain64 inactive (codes "later") first_key))
    × ((delete_hmac_key
          (access_id_of bot (key_id 20001))
          rest
          (update_hmac_key plain64
            (access_id_of bot (key_id 20001))
            deactivate
            (codes "later")
            rest
            made).1).0
        ≡ ok (record (updated_key plain64 inactive (codes "later") first_key) { state = deleted }))
    × ((get_hmac_key
          (access_id_of bot (key_id 20001))
          rest
          (delete_hmac_key
            (access_id_of bot (key_id 20001))
            rest
            (update_hmac_key plain64
              (access_id_of bot (key_id 20001))
              deactivate
              (codes "later")
              rest
              made).1).1).0
        ≡ err (notfound rest))
unfolding split_access_id access_id_of key_id has_char insert_hmac_key lookup insert alter text_eq
    digits_rev
delete_hmac_key-deactivate_example =
    delete_hmac_key-deactivate plain64 (access_id_of bot (key_id 20001)) bot (key_id 20001)
      (codes "later") rest made first_key refl refl refl

abbrev env : Env
env = record {
  project_number = codes "123456789";
  object_owner_entity = codes "user-object.owners@example.com";
  object_reader_entity = codes "user-object.viewers@example.com";
  lower = lower;
  md5_hex = λ t. t;
}
