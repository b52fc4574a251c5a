-- ===== src/Projects/Lifecycle.antt =====
-- gcs/project.py: the keys of a project behind its requests.
use storage_testbench.Base.{
  suc, false, ◌&&◌, none, some, List, [], ◌∷◌, ◌≡◌, refl, sym, ap, ◌∙◌, arith, Text, codes, Dict,
  text_eq, text_eq_iff, insert, erase, alter, lookup-nil, lookup2-put, lookup2-pop, if◌then◌else◌,
  Bool-cases, inl, inr, subst,
}
use storage_testbench.Errors.{Context, rest, grpc, Result, ok, err, notfound, invalid}
use storage_testbench.Pathing.{has_char}
use storage_testbench.Projects.{
  active, inactive, deleted, HmacKey, Project, KeyUpdate, key_id, access_id_of, split_access_id,
  get_hmac_key, is_active, delete_hmac_key, check_etag, read_state, header_etag, etag_of,
  insert_hmac_key, updated_key, update_hmac_key, KeyRequest, hmac_keys_insert, hmac_keys_delete,
  hmac_keys_update, handle_key, serve_keys,
}
use storage_testbench.Projects.Keys.{
  key_at, IsNumbered, next_key, insert_hmac_key-result, insert_hmac_key-keys,
  insert_hmac_key-counts, delete_hmac_key-keys, update_hmac_key-state, find_key_lem, find_key-state,
  split_access_id-access_id_of, has_char-key_id,
}

-- `GcsProject(project_id)`
abbrev pub new_project : Text → Project
new_project project_id = record {
  project_id = project_id;
  key_id_generator = 20000;
  service_accounts = [];
}

-- A request to make a key inactive, which names no etag
abbrev pub deactivate : KeyUpdate
deactivate = record { etag = none; state = some (codes "INACTIVE"); if_match_etag = none }

module _ (encode64 : Text → Text) where
  insert_hmac_key-IsNumbered :
      (email secret now : Text) (p : Project)
      → IsNumbered encode64 p
      → IsNumbered encode64 (insert_hmac_key encode64 email secret now p).1
  insert_hmac_key-IsNumbered email secret now p w = record {
    numbered = λ e i key h.
        let changed = insert_hmac_key-keys encode64 email secret now p e i w in
        let counted = insert_hmac_key-counts encode64 email secret now p in
        elim (Bool-cases (text_eq email e && text_eq (key_id (suc p.key_id_generator)) i)) [
          | inl this ↦
              let is : key ≡ next_key encode64 email secret now p = ground arith in
              let at : (email ≡ e) × (key_id (suc p.key_id_generator) ≡ i) =
                ground
                  (arith, text_eq_iff email e, text_eq_iff (key_id (suc p.key_id_generator)) i) in
              (
                ap (λ (k : HmacKey). k.etag) is
                    ∙ sym (ap (λ (k : HmacKey). etag_of encode64 k.generator) is),
                ap (λ (k : HmacKey). k.access_id) is
                    ∙ ap (λ a. access_id_of a (key_id (suc p.key_id_generator))) at.0
                    ∙ ap (access_id_of e) at.1,
                λ gone. ground (arith, ap (λ (k : HmacKey). k.state) is),
                suc p.key_id_generator,
                sym at.1,
                ground arith,
              )
          | inr other ↦
              let (tag, access, there, m, is, low) = w.numbered e i key (ground arith) in
              (tag, access, there, m, is, ground arith)
        ];
  }

  delete_hmac_key-counts :
      (access_id : Text) (c : Context) (p : Project)
      → (delete_hmac_key access_id c p).1.key_id_generator ≡ p.key_id_generator
  unfolding delete_hmac_key
  delete_hmac_key-counts access_id c p = ground (arith, find_key-state encode64 access_id c p)

  delete_hmac_key-IsNumbered :
      (access_id : Text) (c : Context) (p : Project)
      → IsNumbered encode64 p
      → IsNumbered encode64 (delete_hmac_key access_id c p).1
  delete_hmac_key-IsNumbered access_id c p w = record {
    numbered = λ e i key h.
        let (tag, access, there, m, is, low) =
          w.numbered e i key (delete_hmac_key-keys encode64 access_id c p e i key h) in
        (tag, access, there, m, is, ground (arith, delete_hmac_key-counts access_id c p));
  }

  update_hmac_key-IsNumbered :
      (access_id : Text) (u : KeyUpdate) (now : Text) (c : Context) (p : Project)
      → IsNumbered encode64 p
      → IsNumbered encode64 (update_hmac_key encode64 access_id u now c p).1
  update_hmac_key-IsNumbered access_id u now c p w =
      elim (update_hmac_key-state encode64 access_id u now c p) [
        | inl same ↦ subst (IsNumbered encode64) (sym same) w
        | inr (email, id, old, state, there, kept, changed) ↦
            subst (IsNumbered encode64) (sym changed) (record {
              numbered = λ e i key h. elim (Bool-cases (text_eq email e && text_eq id i)) [
                | inl this ↦
                    let put =
                      lookup2-put e i email id (updated_key encode64 state now old)
                        p.service_accounts in
                    let is : key ≡ updated_key encode64 state now old = ground arith in
                    let at : (email ≡ e) × (id ≡ i) =
                      ground (arith, text_eq_iff email e, text_eq_iff id i) in
                    let (tag, access, _, m, counted, low) = w.numbered email id old there in
                    (
                      ap (λ (k : HmacKey). k.etag) is
                          ∙ sym (ap (λ (k : HmacKey). etag_of encode64 k.generator) is),
                      ap (λ (k : HmacKey). k.access_id) is
                          ∙ access
                          ∙ ap (λ a. access_id_of a id) at.0
                          ∙ ap (access_id_of e) at.1,
                      λ gone. kept (sym (ap (λ (k : HmacKey). k.state) is) ∙ gone),
                      m,
                      sym at.1 ∙ counted,
                      low,
                    )
                | inr other ↦
                    let put =
                      lookup2-put e i email id (updated_key encode64 state now old)
                        p.service_accounts in
                    w.numbered e i key (ground arith)
              ];
            })
      ]

  handle_key-IsNumbered :
      (r : KeyRequest) (p : Project)
      → IsNumbered encode64 p
      → IsNumbered encode64 (handle_key encode64 r p).1
  unfolding handle_key
  handle_key-IsNumbered (hmac_keys_insert none secret now) p w = w
  handle_key-IsNumbered (hmac_keys_insert (some email) secret now) p w =
      insert_hmac_key-IsNumbered email secret now p w
  handle_key-IsNumbered (hmac_keys_delete access_id) p w =
      delete_hmac_key-IsNumbered access_id rest p w
  handle_key-IsNumbered (hmac_keys_update access_id u now) p w =
      update_hmac_key-IsNumbered access_id u now rest p w

  -- Behind any sequence of requests to a new project, whether they are refused or not, each key is kept
  -- under its own access id, with an id that was counted and the etag of its generator, and no key is
  -- in the state `DELETED`.
  pub serve_keys-IsNumbered :
      (rs : List KeyRequest) (project_id : Text)
      → IsNumbered encode64 (serve_keys encode64 rs (new_project project_id))
  unfolding serve_keys
  serve_keys-IsNumbered rs project_id =
      go rs (new_project project_id)
        (record { numbered = λ e i key h. ground (arith, lookup-nil {V = Dict HmacKey} e) })
    where
      go :
          (rs : List KeyRequest) (p : Project)
          → IsNumbered encode64 p
          → IsNumbered encode64 (serve_keys encode64 rs p)
      go [] p w = w
      go (r ∷ rs) p w = go rs (handle_key encode64 r p).1 (handle_key-IsNumbered r p w)

  -- A new key of an account whose email has no colon is active, and found by its access id; all other
  -- keys are found as before.
  pub get_hmac_key-insert_hmac_key :
      (email secret now : Text) (c : Context) (p : Project)
      → IsNumbered encode64 p
      → has_char 58 email ≡ false
      → let after = (insert_hmac_key encode64 email secret now p).1 in
        ((get_hmac_key (access_id_of email (key_id (suc p.key_id_generator))) c after).0
          ≡ (insert_hmac_key encode64 email secret now p).0)
        × ((insert_hmac_key encode64 email secret now p).0
            ≡ ok (next_key encode64 email secret now p))
        × ((e i : Text)
            → has_char 58 e ≡ false
            → has_char 58 i ≡ false
            → (text_eq email e && text_eq (key_id (suc p.key_id_generator)) i) ≡ false
            → (get_hmac_key (access_id_of e i) c after).0 ≡ (get_hmac_key (access_id_of e i) c p).0)
  unfolding get_hmac_key
  get_hmac_key-insert_hmac_key email secret now c p w plain =
      let id = key_id (suc p.key_id_generator) in
      let after = (insert_hmac_key encode64 email secret now p).1 in
      (
        ground (
          arith,
          find_key_lem (access_id_of email id) c after email id (
              split_access_id-access_id_of email id plain
                (has_char-key_id (suc p.key_id_generator))),
          insert_hmac_key-keys encode64 email secret now p email id w,
          insert_hmac_key-result encode64 email secret now p w,
          text_eq_iff email email,
          text_eq_iff id id,
        ),
        insert_hmac_key-result encode64 email secret now p w,
        λ e i pe pi other. ground (
          arith,
          find_key_lem (access_id_of e i) c after e i (split_access_id-access_id_of e i pe pi),
          find_key_lem (access_id_of e i) c p e i (split_access_id-access_id_of e i pe pi),
          insert_hmac_key-keys encode64 email secret now p e i w,
        ),
      )

  no_etag : (c : Context) → header_etag deactivate c ≡ none
  no_etag rest = refl
  no_etag grpc = refl

  module _ (access_id email id : Text) (c : Context)
      (good : split_access_id access_id ≡ some (email, id)) where
    delete-found :
        (p : Project) (key : HmacKey)
        → key_at email id p ≡ some key
        → delete_hmac_key access_id c p ≡ (
            if is_active key.state then (err (invalid c), p) else (
              ok (record key { state = deleted }),
              record p { service_accounts = alter email (erase id) p.service_accounts },
            ))
    unfolding delete_hmac_key
    delete-found p key there = ground (arith, find_key_lem access_id c p email id good)

    not_found :
        (p : Project) → key_at email id p ≡ none → (get_hmac_key access_id c p).0 ≡ err (notfound c)
    unfolding get_hmac_key
    not_found p gone = ground (arith, find_key_lem access_id c p email id good)

    deactivate-found :
        (now : Text) (p : Project) (key : HmacKey)
        → key_at email id p ≡ some key
        → update_hmac_key encode64 access_id deactivate now c p ≡ (
          ok (updated_key encode64 inactive now key),
          record p {
            service_accounts =
                alter email (insert id (updated_key encode64 inactive now key)) p.service_accounts;
          },
        )
    unfolding update_hmac_key check_etag read_state text_eq
    deactivate-found now p key there =
        ground (arith, find_key_lem access_id c p email id good, no_etag c)

  -- A key that is active cannot be deleted: the request is refused, and nothing changes. Once an update has
  -- made it inactive, it can be, and then it is not found.
  pub delete_hmac_key-deactivate :
      (access_id email id now : Text) (c : Context) (p : Project) (key : HmacKey)
      → split_access_id access_id ≡ some (email, id)
      → key_at email id p ≡ some key
      → key.state ≡ active
      → let made = update_hmac_key encode64 access_id deactivate now c p in
        (delete_hmac_key access_id c p ≡ (err (invalid c), p))
        × (made.0 ≡ ok (updated_key encode64 inactive now key))
        × ((delete_hmac_key access_id c made.1).0
            ≡ ok (record (updated_key encode64 inactive now key) { state = deleted }))
        × ((get_hmac_key access_id c (delete_hmac_key access_id c made.1).1).0 ≡ err (notfound c))
  delete_hmac_key-deactivate access_id email id now c p key is there on =
      let k = updated_key encode64 inactive now key in
      let q : Project = record p {
        service_accounts = alter email (insert id k) p.service_accounts;
      } in
      let r : Project = record q { service_accounts = alter email (erase id) q.service_accounts } in
      let made : update_hmac_key encode64 access_id deactivate now c p ≡ (ok k, q) =
        deactivate-found access_id email id c is now p key there in
      let held : key_at email id q ≡ some k = ground (
        arith,
        lookup2-put email id email id k p.service_accounts,
        text_eq_iff email email,
        text_eq_iff id id,
      ) in
      let gone : delete_hmac_key access_id c q ≡ (ok (record k { state = deleted }), r) =
        delete-found access_id email id c is q k held in
      let after : (delete_hmac_key access_id c
            (update_hmac_key encode64 access_id deactivate now c p).1).1
          ≡ r =
        ap (λ (m : Result HmacKey × Project). (delete_hmac_key access_id c m.1).1) made
        ∙ ap (λ (m : Result HmacKey × Project). m.1) gone in
      (
        ground (arith, delete-found access_id email id c is p key there),
        ap (λ (m : Result HmacKey × Project). m.0) made,
        ap (λ (m : Result HmacKey × Project). (delete_hmac_key access_id c m.1).0) made
            ∙ ap (λ (m : Result HmacKey × Project). m.0) gone,
        ap (λ s. (get_hmac_key access_id c s).0) after
            ∙ not_found access_id email id c is r (
                ground (
                  arith,
                  lookup2-pop email id email id q.service_accounts,
                  text_eq_iff email email,
                  text_eq_iff id id,
                )),
      )
