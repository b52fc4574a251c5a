-- ===== src/Projects/Keys.antt =====
-- gcs/project.py: the life of an HMAC key.
use storage_testbench.Base.{
  ℕ, suc, ◌≤◌, true, false, ◌&&◌, Option, none, some, [], ◌∷◌, ◌≡◌, ◌≢◌, refl, sym, ap, ◌∙◌, arith,
  Text, text_eq, text_eq_iff, Dict, lookup, lookup2, insert, alter, contains, lookup-insert,
  lookup-nil, lookup2-put, lookup2-pop, if◌then◌else◌, Option-cases, ◌⊎◌, inl, inr,
}
use storage_testbench.Errors.{Context, ok, err, Result-cases, notfound}
use storage_testbench.Pathing.{has_char}
use storage_testbench.Uploads.Resumable.Ranges.{decimal, to_int-decimal, all_in-decimal}
use storage_testbench.Instructions.{to_int, is_digit}
use storage_testbench.Instructions.Rendered.{all_in}
use storage_testbench.Projects.{
  KeyState, deleted, HmacKey, Project, KeyUpdate, key_id, access_id_of, split_access_id,
  set_default, find_key, delete_hmac_key, check_etag, read_state, header_etag, etag_of,
  new_hmac_key, insert_hmac_key, updated_key, update_hmac_key,
}

-- The key of an account
abbrev pub key_at : Text → Text → Project → Option HmacKey
key_at email id p = lookup2 email id p.service_accounts

has_char-digits : (t : Text) → all_in is_digit t ≡ true → has_char 58 t ≡ false
unfolding has_char all_in
has_char-digits [] e = refl
has_char-digits (c ∷ t) e = ground (arith, has_char-digits t)

pub has_char-key_id : (n : ℕ) → has_char 58 (key_id n) ≡ false
unfolding has_char key_id
has_char-key_id n = has_char-digits (decimal n) (all_in-decimal n)

-- An access id is read as what it is written with.
pub split_access_id-access_id_of :
    (email id : Text)
    → has_char 58 email ≡ false
    → has_char 58 id ≡ false
    → split_access_id (access_id_of email id) ≡ some (email, id)
unfolding split_access_id access_id_of has_char
split_access_id-access_id_of [] id e e' = ground arith
split_access_id-access_id_of (c ∷ t) id e e' = ground (arith, split_access_id-access_id_of t id)

key_id-injective : (m n : ℕ) → key_id m ≡ key_id n → m ≡ n
unfolding key_id
key_id-injective m n e =
    let one : decimal m ≡ decimal n = ground arith in
    sym (to_int-decimal m) ∙ ap (to_int 0) one ∙ to_int-decimal n

pub find_key-key_at :
    (access_id : Text) (c : Context) (p : Project) (email id : Text) (key : HmacKey)
    → (find_key access_id c p).0 ≡ ok (email, id, key)
    → key_at email id p ≡ some key
unfolding find_key
find_key-key_at access_id c p email id key e = elim (Option-cases (split_access_id access_id)) [
  | inl bad ↦ ground arith
  | inr (parts, good) ↦ ground arith
]

pub find_key_lem :
    (access_id : Text) (c : Context) (p : Project) (email id : Text)
    → split_access_id access_id ≡ some (email, id)
    → find_key access_id c p ≡ (elim (key_at email id p) [
      | none ↦ (err (notfound c), p)
      | some key ↦ (ok (email, id, key), p)
    ])
unfolding find_key
find_key_lem access_id c p email id e = ground arith

set_default-key :
    (email e i : Text) (d : Dict (Dict HmacKey)) → lookup2 e i (set_default email d) ≡ lookup2 e i d
set_default-key email e i d = elim (Option-cases (lookup email d)) [
  | inl gone ↦
      ground (arith, lookup-insert e email [] d, text_eq_iff email e, lookup-nil {V = HmacKey} i)
  | inr (keys, there) ↦ ground arith
]

set_default-contains :
    (email : Text) (d : Dict (Dict HmacKey)) → contains email (set_default email d) ≡ true
set_default-contains email d =
    ground (arith, lookup-insert email email [] d, text_eq_iff email email)

module _ (encode64 : Text → Text) where
  -- The keys have the ids that were counted, and etags of their generators; none is deleted.
  pub record IsNumbered (p : Project) : Type 0 where
    pub numbered :
        (email id : Text) (key : HmacKey)
        → key_at email id p ≡ some key
        → (key.etag ≡ etag_of encode64 key.generator)
          × (key.access_id ≡ access_id_of email id)
          × (key.state ≢ deleted)
          × (m : ℕ) × (id ≡ key_id m)
          × (m ≤ p.key_id_generator)

  -- The key that the next request makes
  abbrev pub next_key : Text → Text → Text → Project → HmacKey
  next_key email secret now p =
      new_hmac_key encode64 p.project_id email (key_id (suc p.key_id_generator)) secret now

  unused :
      (email e : Text) (p : Project)
      → IsNumbered p
      → key_at e (key_id (suc p.key_id_generator)) p ≡ none
  unused email e p w = elim (Option-cases (key_at e (key_id (suc p.key_id_generator)) p)) [
    | inl none_yet ↦ none_yet
    | inr (key, there) ↦
        let (_, _, _, m, is, low) = w.numbered e (key_id (suc p.key_id_generator)) key there in
        let one : suc p.key_id_generator ≡ m = key_id-injective (suc p.key_id_generator) m is in
        ground arith
  ]

  pub insert_hmac_key-result :
      (email secret now : Text) (p : Project)
      → IsNumbered p
      → (insert_hmac_key encode64 email secret now p).0 ≡ ok (next_key email secret now p)
  unfolding insert_hmac_key
  insert_hmac_key-result email secret now p w = ground (
    arith,
    set_default-key email email (key_id (suc p.key_id_generator)) p.service_accounts,
    unused email email p w,
  )

  pub insert_hmac_key-keys :
      (email secret now : Text) (p : Project) (e i : Text)
      → IsNumbered p
      → key_at e i (insert_hmac_key encode64 email secret now p).1 ≡ (
          if text_eq email e && text_eq (key_id (suc p.key_id_generator)) i
          then some (next_key email secret now p)
          else key_at e i p)
  unfolding insert_hmac_key
  insert_hmac_key-keys email secret now p e i w = ground (
    arith,
    set_default-key email email (key_id (suc p.key_id_generator)) p.service_accounts,
    unused email email p w,
    lookup2-put e i email (key_id (suc p.key_id_generator)) (next_key email secret now p)
        (set_default email p.service_accounts),
    set_default-key email e i p.service_accounts,
    set_default-contains email p.service_accounts,
  )

  pub insert_hmac_key-counts :
      (email secret now : Text) (p : Project)
      → (insert_hmac_key encode64 email secret now p).1.key_id_generator ≡ suc p.key_id_generator
  unfolding insert_hmac_key
  insert_hmac_key-counts email secret now p = ground arith

  pub find_key-state :
      (access_id : Text) (c : Context) (p : Project) → (find_key access_id c p).1 ≡ p
  unfolding find_key
  find_key-state access_id c p = ground arith

  -- A deletion leaves no key that was not there.
  pub delete_hmac_key-keys :
      (access_id : Text) (c : Context) (p : Project) (e i : Text) (key : HmacKey)
      → key_at e i (delete_hmac_key access_id c p).1 ≡ some key
      → key_at e i p ≡ some key
  unfolding delete_hmac_key
  delete_hmac_key-keys access_id c p e i key h = elim (Result-cases (find_key access_id c p).0) [
    | inl ((email, id, old), found) ↦
        ground (arith, find_key-state access_id c p, lookup2-pop e i email id p.service_accounts)
    | inr (x, refused) ↦ ground (arith, find_key-state access_id c p)
  ]

  read_state-deleted : (t : Option Text) (s : KeyState) → read_state t ≡ some s → s ≢ deleted
  unfolding read_state
  read_state-deleted none s e = ground arith
  read_state-deleted (some t) s e = ground arith

  pub check_etag-state :
      (key : HmacKey) (etag : Option Text) (c : Context) (p : Project)
      → (check_etag key etag c p).1 ≡ p
  unfolding check_etag
  check_etag-state key none c p = refl
  check_etag-state key (some etag) c p = refl

  -- An update changes nothing, or one key that is there.
  pub update_hmac_key-state :
      (access_id : Text) (u : KeyUpdate) (now : Text) (c : Context) (p : Project)
      → ((update_hmac_key encode64 access_id u now c p).1 ≡ p)
        ⊎ ((email : Text) × (id : Text) × (old : HmacKey) × (state : KeyState) × (key_at email id p
              ≡ some old)
            × (state ≢ deleted)
            × ((update_hmac_key encode64 access_id u now c p).1 ≡ record p {
              service_accounts =
                  alter email (insert id (updated_key encode64 state now old)) p.service_accounts;
            }))
  unfolding update_hmac_key
  update_hmac_key-state access_id u now c p = elim (Result-cases (find_key access_id c p).0) [
    | inr (x, refused) ↦ inl (ground (arith, find_key-state access_id c p))
    | inl ((email, id, old), found) ↦ elim (Option-cases (read_state u.state)) [
      | inl bad ↦ inl (
          ground (
            arith,
            find_key-state access_id c p,
            check_etag-state old u.etag c p,
            check_etag-state old (header_etag u c) c p,
          ))
      | inr (state, good) ↦ elim (Result-cases (check_etag old u.etag c p).0) [
        | inr (x, differs) ↦
            inl (ground (arith, find_key-state access_id c p, check_etag-state old u.etag c p))
        | inl (_, same) ↦ elim (Result-cases (check_etag old (header_etag u c) c p).0) [
          | inr (x, differs) ↦ inl (
              ground (
                arith,
                find_key-state access_id c p,
                check_etag-state old u.etag c p,
                check_etag-state old (header_etag u c) c p,
              ))
          | inl (_, same') ↦ inr (
            email,
            id,
            old,
            state,
            find_key-key_at access_id c p email id old found,
            read_state-deleted u.state state good,
            ground (
              arith,
              find_key-state access_id c p,
              check_etag-state old u.etag c p,
              check_etag-state old (header_etag u c) c p,
            ),
          )
        ]
      ]
    ]
  ]
