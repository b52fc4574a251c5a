-- ===== src/Projects.antt =====
-- gcs/project.py, with testbench/servers/projects_rest_server.py: HMAC keys of service accounts. The secret
-- and the time of a request are arguments; the class attribute that counts the keys is in the state. An account
-- is the dictionary of its keys, under its email.
pub mod Keys
pub mod Lifecycle
use storage_testbench.Base.{
  ℕ, zero, suc, ◌+◌, Bool, true, false, not, ◌&&◌, ◌||◌, ◌==◌, Option, none, some, List, [], ◌∷◌,
  ◌++◌, map, Text, codes, text_eq, Dict, lookup, insert, erase, alter, values, lookup2,
  if◌then◌else◌,
}
use mathlib.Core.Option
use storage_testbench.Errors.{
  Context, rest, grpc, py, value_error, Result, ok, err, Exec, pure, raise, raise_if, gets, modify,
  or_raise, ◌>>=◌, ◌>>◌, notfound, invalid, mismatch, missing,
}
use storage_testbench.Pathing.{has_char}
use storage_testbench.Uploads.Resumable.Ranges.{decimal}

pub data KeyState : Type 0 where
  active inactive deleted : KeyState

-- A key, with its metadata
pub record HmacKey : Type 0 where
  pub secret : Text
  pub generator : ℕ
  pub access_id : Text
  pub etag : Text
  pub id : Text
  pub project_id : Text
  pub service_account_email : Text
  pub state : KeyState
  pub time_created : Text
  pub updated : Text

pub record Project : Type 0 where
  pub project_id : Text
  pub key_id_generator : ℕ
  pub service_accounts : Dict (Dict HmacKey)

-- What a request to update a key brings: the payload, and the header `if-match-etag`
pub record KeyUpdate : Type 0 where
  pub etag : Option Text
  pub state : Option Text
  pub if_match_etag : Option Text

abbrev pub Action : Type 0 → Type 0
Action A = Exec Project A

-- `"key-id-%d"`
unfoldable pub key_id : ℕ → Text
key_id n = codes "key-id-" ++ decimal n

-- `"%s:%s" % (email, key_id)`
unfoldable pub access_id_of : Text → Text → Text
access_id_of email key = email ++ 58 ∷ key

-- `(service_account, key_id) = access_id.split(":", 2)`, which raises unless there is one colon
unfoldable pub split_access_id : Text → Option (Text × Text)
split_access_id [] = none
split_access_id (c ∷ t) =
    let later = split_access_id t in
    if c == 58
    then if has_char 58 t then none else some ([], t)
    else Option.map (λ (p : Text × Text). (c ∷ p.0, p.1)) later

-- `setdefault(service_account, ServiceAccount(service_account))`
abbrev pub set_default : Text → Dict (Dict HmacKey) → Dict (Dict HmacKey)
set_default email d = elim (lookup email d) [ none ↦ insert email [] d | some keys ↦ d ]

-- `self.service_accounts.get(service_account)`, and `self.keys.get(key_id)` there
unfoldable pub find_key : Text → Context → Action (Text × Text × HmacKey)
find_key access_id context = do
  parts ← or_raise (split_access_id access_id) (py value_error)
  keys ← or_raise (← gets (λ p. lookup parts.0 p.service_accounts)) (notfound context)
  key ← or_raise (lookup parts.1 keys) (notfound context)
  pure (parts.0, parts.1, key)

unfoldable pub get_hmac_key : Text → Context → Action HmacKey
get_hmac_key access_id context = do found ← find_key access_id context; pure found.2

abbrev pub is_active : KeyState → Bool
is_active active = true
is_active inactive = false
is_active deleted = false

unfoldable pub delete_hmac_key : Text → Context → Action HmacKey
delete_hmac_key access_id context = do
  found ← find_key access_id context
  raise_if (is_active found.2.state) (invalid context)
  modify (λ p. record p { service_accounts = alter found.0 (erase found.1) p.service_accounts })
  pure (record found.2 { state = deleted })

-- `_check_etag`
unfoldable pub check_etag : HmacKey → Option Text → Context → Action (Unit {0})
check_etag key none context = pure tt
check_etag key (some etag) context = raise_if (not (text_eq etag key.etag)) (mismatch context)

-- `state not in ("ACTIVE", "INACTIVE")`
unfoldable pub read_state : Option Text → Option KeyState
read_state none = none
read_state (some t) =
    if text_eq t (codes "ACTIVE")
    then some active
    else if text_eq t (codes "INACTIVE")
    then some inactive
    else none

-- The header is read of a REST request only.
abbrev pub header_etag : KeyUpdate → Context → Option Text
header_etag u rest = u.if_match_etag
header_etag u grpc = none

module _ (encode64 : Text → Text) where
  -- `base64.b64encode(bytearray("%d" % generator, "utf-8"))`
  unfoldable pub etag_of : ℕ → Text
  etag_of n = encode64 (decimal n)

  -- `insert_hmac_key`, with `ServiceAccount.insert_key`
  abbrev pub new_hmac_key : Text → Text → Text → Text → Text → HmacKey
  new_hmac_key project_id email id secret now = record {
    secret = encode64 secret;
    generator = 1;
    access_id = access_id_of email id;
    etag = etag_of 1;
    id = id;
    project_id = project_id;
    service_account_email = email;
    state = active;
    time_created = now;
    updated = now;
  }

  -- `self.keys.setdefault(key_id, ...)`
  abbrev pub set_default_key : Text → HmacKey → Option HmacKey → Action HmacKey
  set_default_key email key (some old) = pure old
  set_default_key email key none = do
    modify (λ p. record p { service_accounts = alter email (insert key.id key) p.service_accounts })
    pure key

  unfoldable pub insert_hmac_key : Text → Text → Text → Action HmacKey
  insert_hmac_key email secret now = do
    modify (λ p. record p { service_accounts = set_default email p.service_accounts })
    modify (λ p. record p { key_id_generator = suc p.key_id_generator })
    key ← gets (λ p. new_hmac_key p.project_id email (key_id p.key_id_generator) secret now)
    old ← gets (λ p. lookup2 email key.id p.service_accounts)
    set_default_key email key old

  -- `update_hmac_key`, with `ServiceAccount.update_key`
  abbrev pub updated_key : KeyState → Text → HmacKey → HmacKey
  updated_key state now key = record key {
    generator = suc key.generator;
    state = state;
    etag = etag_of (suc key.generator);
    updated = now;
  }

  unfoldable pub update_hmac_key : Text → KeyUpdate → Text → Context → Action HmacKey
  update_hmac_key access_id payload now context = do
    found ← find_key access_id context
    check_etag found.2 payload.etag context
    check_etag found.2 (header_etag payload context) context
    state ← or_raise (read_state payload.state) (invalid context)
    modify (λ p. record p {
      service_accounts =
          alter found.0 (insert found.1 (updated_key state now found.2)) p.service_accounts;
    })
    pure (updated_key state now found.2)

-- `hmac_keys_list`: the keys of an account, or of all
unfoldable pub all_keys : Dict (Dict HmacKey) → List HmacKey
all_keys [] = []
all_keys ((email, keys) ∷ d) = values keys ++ all_keys d

unfoldable pub keys_of : Option Text → Dict (Dict HmacKey) → List HmacKey
keys_of none d = all_keys d
keys_of (some []) d = all_keys d
keys_of (some (c ∷ t)) d = elim (lookup (c ∷ t) d) [ none ↦ [] | some keys ↦ values keys ]

unfoldable pub not_deleted : List HmacKey → List HmacKey
not_deleted [] = []
not_deleted (key ∷ keys) =
    let others = not_deleted keys in elim key.state [ deleted ↦ others | _ ↦ key ∷ others ]

unfoldable pub hmac_keys_list : Option Text → Bool → Action (List HmacKey)
hmac_keys_list service_account_email with_deleted p =
    let keys = keys_of service_account_email p.service_accounts in
    (ok (if with_deleted then keys else not_deleted keys), p)

-- The requests that change keys, over REST
pub data KeyRequest : Type 0 where
  hmac_keys_insert : Option Text → Text → Text → KeyRequest
  hmac_keys_delete : Text → KeyRequest
  hmac_keys_update : Text → KeyUpdate → Text → KeyRequest

module _ (encode64 : Text → Text) where
  unfoldable pub handle_key : KeyRequest → Action HmacKey
  handle_key (hmac_keys_insert none secret now) = raise (missing rest)
  handle_key (hmac_keys_insert (some email) secret now) = insert_hmac_key encode64 email secret now
  handle_key (hmac_keys_delete access_id) = delete_hmac_key access_id rest
  handle_key (hmac_keys_update access_id payload now) =
      update_hmac_key encode64 access_id payload now rest

  -- A sequence of requests, whether they are refused or not
  unfoldable pub serve_keys : List KeyRequest → Project → Project
  serve_keys [] p = p
  serve_keys (r ∷ rs) p = serve_keys rs (handle_key r p).1
