-- ===== src/DataSources/Config.antt =====
-- About the configurations that src/app/integration/service.py writes.
use smart_procurement_backen.Prelude.{
  ℕ, ◌≡◌, refl, String, false, Option, none, some, [], ◌∷◌, str_eq, Bool-cases, Option-cases, inl,
  inr, All-append,
}
use smart_procurement_backen.Errors.{Result, ok, err}
use smart_procurement_backen.Table.{select}
use smart_procurement_backen.Table.Select.{All-select}
use smart_procurement_backen.Table.Update.{All-update}
use smart_procurement_backen.Models.Basic.{RowId, text, Payload}
use smart_procurement_backen.Models.Integration.{DataSource}
use smart_procurement_backen.Session.{Db, Session, Exec, after, require_one-cases}
use smart_procurement_backen.Mappings.{text_in, is_owned_source}
use smart_procurement_backen.DataSources.{
  source_kinds, connector_types, secret_keys, get_data_source, has_source_id, save_source,
  put_secret, store_credential, add_data_source, create_data_source, update_data_source,
  upload_file_content,
}
use smart_procurement_backen.DataSources.Safe.{
  HasNoSecret, IsClean, safe_config-HasNoSecret, set_key-HasNoSecret, merged-HasNoSecret,
}

saved-IsClean :
    (ds : DataSource) (db : Db) → HasNoSecret ds.config → IsClean db → IsClean (save_source ds db)
saved-IsClean ds db own h =
    All-update (has_source_id ds.id) (λ _. ds) (λ x. HasNoSecret x.config)
      (λ x. HasNoSecret x.config) (λ x k hit. own) (λ x k miss. k) db.data_sources h

-- A call followed by another.
after-IsClean :
    {A B : Type 0} (f : A → Exec B) (r : Result A × Session)
    → IsClean r.1.db
    → ((a : A) (s : Session) → IsClean s.db → IsClean (f a s).1.db)
    → IsClean (after f r).1.db
after-IsClean f (ok a, s) h keeps = keeps a s h
after-IsClean f (err e, s) h keeps = h

-- A call that begins by loading a source.
loaded-IsClean :
    {B : Type 0} (enterprise_id data_source_id : RowId) (f : DataSource → Exec B) (s : Session)
    → IsClean s.db
    → ((ds : DataSource) → HasNoSecret ds.config → IsClean (f ds s).1.db)
    → IsClean (after f (get_data_source enterprise_id data_source_id s)).1.db
unfolding get_data_source
loaded-IsClean enterprise_id data_source_id f s h keeps =
    elim (require_one-cases (select (is_owned_source enterprise_id data_source_id) s.data_sources)
      s) [
        | inr (e, bad) ↦ rw (bad, after) h
        | inl (ds, one, good) ↦
            rw (good, after)
              (keeps ds
                (rw one at (
                  All-select (is_owned_source enterprise_id data_source_id)
                    (λ x. HasNoSecret x.config) s.data_sources h)).0)
      ]

module _ (encrypt : Option (String → String)) (dumps : Payload → String) where
  put_secret-IsClean :
      (enterprise_id : RowId) (purpose plaintext : String) (created_by : Option RowId) (s : Session)
      → IsClean s.db
      → IsClean (put_secret encrypt dumps enterprise_id purpose plaintext created_by s).1.db
  unfolding put_secret
  put_secret-IsClean enterprise_id purpose plaintext created_by s h = elim (Option-cases encrypt) [
    | inl missing ↦ rw missing h
    | inr (cipher, found) ↦ rw found h
  ]

  store_credential-IsClean :
      (enterprise_id : RowId) (credential : Option Payload) (created_by old : Option RowId)
      (s : Session)
      → IsClean s.db
      → IsClean (store_credential encrypt dumps enterprise_id credential created_by old s).1.db
  unfolding store_credential
  store_credential-IsClean enterprise_id none created_by old s h = h
  store_credential-IsClean enterprise_id (some []) created_by old s h = h
  store_credential-IsClean enterprise_id (some (x ∷ xs)) created_by old s h =
      after-IsClean (λ id t. (ok (some id), t))
        (put_secret encrypt dumps enterprise_id "source_credential" (dumps (x ∷ xs)) created_by s)
        (put_secret-IsClean enterprise_id "source_credential" (dumps (x ∷ xs)) created_by s h)
        (λ id t k. k)

  pub create_data_source-IsClean :
      (enterprise_id : RowId) (name kind connector_type : String) (config : Payload)
      (credential : Option Payload) (created_by : Option RowId) (interval : Option ℕ) (s : Session)
      → IsClean s.db
      → IsClean
          (create_data_source encrypt dumps enterprise_id name kind connector_type config credential
            created_by interval s).1.db
  unfolding create_data_source add_data_source
  create_data_source-IsClean enterprise_id name kind connector_type config credential created_by
        interval s h =
      elim (Bool-cases (text_in kind source_kinds)) [
        | inr bad ↦ rw bad h
        | inl known ↦ rw known (elim (Bool-cases (text_in connector_type connector_types)) [
          | inr bad ↦ rw bad h
          | inl fine ↦ rw fine (
              after-IsClean _
                (store_credential encrypt dumps enterprise_id credential created_by none s)
                (store_credential-IsClean enterprise_id credential created_by none s h)
                (λ ref t k.
                  All-append (λ x. HasNoSecret x.config) t.data_sources _ k
                    (safe_config-HasNoSecret config, tt)))
        ])
      ]

  pub update_data_source-IsClean :
      (enterprise_id data_source_id : RowId) (name : Option String) (config : Option Payload)
      (interval : Option ℕ) (credential : Option Payload) (created_by : Option RowId) (s : Session)
      → IsClean s.db
      → IsClean
          (update_data_source encrypt dumps enterprise_id data_source_id name config interval
            credential created_by s).1.db
  unfolding update_data_source
  update_data_source-IsClean enterprise_id data_source_id name config interval credential created_by
        s h =
      loaded-IsClean enterprise_id data_source_id _ s h (λ ds own.
        after-IsClean _
          (store_credential encrypt dumps enterprise_id credential created_by ds.credential_ref s)
          (store_credential-IsClean enterprise_id credential created_by ds.credential_ref s h)
          (λ ref t k. saved-IsClean _ t.db (merged-HasNoSecret config ds.config own) k))

content-safe : text_in "content" secret_keys ≡ false
unfolding text_in
content-safe = refl

pub upload_file_content-IsClean :
    (enterprise_id data_source_id : RowId) (content : String) (s : Session)
    → IsClean s.db
    → IsClean (upload_file_content enterprise_id data_source_id content s).1.db
unfolding upload_file_content
upload_file_content-IsClean enterprise_id data_source_id content s h =
    loaded-IsClean enterprise_id data_source_id _ s h (λ ds own.
      elim (Bool-cases (str_eq ds.connector_type "file")) [
        | inr other ↦ rw other h
        | inl fine ↦ rw fine (
            saved-IsClean _ s.db
              (set_key-HasNoSecret "content" (text content) ds.config content-safe own) h)
      ])

-- The calls that write configurations.
module _ (encrypt : Option (String → String)) (dumps : Payload → String) where
  pub data Step (s : Session) : Session → Type 0 where
    create :
        (enterprise_id : RowId) (name kind connector_type : String) (config : Payload)
        (credential : Option Payload) (created_by : Option RowId) (interval : Option ℕ)
        → Step s
            (create_data_source encrypt dumps enterprise_id name kind connector_type config
              credential created_by interval s).1
    change :
        (enterprise_id data_source_id : RowId) (name : Option String) (config : Option Payload)
        (interval : Option ℕ) (credential : Option Payload) (created_by : Option RowId)
        → Step s
            (update_data_source encrypt dumps enterprise_id data_source_id name config interval
              credential created_by s).1
    upload :
        (enterprise_id data_source_id : RowId) (content : String)
        → Step s (upload_file_content enterprise_id data_source_id content s).1

  pub data Reach (s : Session) : Session → Type 0 where
    here : Reach s s
    next : {t u : Session} → Reach s t → Step t u → Reach s u

  Step-IsClean : {s t : Session} → Step s t → IsClean s.db → IsClean t.db
  Step-IsClean {s} (create e n k c cfg cred by i) h =
      create_data_source-IsClean encrypt dumps e n k c cfg cred by i s h
  Step-IsClean {s} (change e d n cfg i cred by) h =
      update_data_source-IsClean encrypt dumps e d n cfg i cred by s h
  Step-IsClean {s} (upload e d content) h = upload_file_content-IsClean e d content s h

  -- If no configuration has one of the secret keys, none has one after any sequence of calls, whatever
  -- configurations the callers send.
  pub Reach-IsClean : {s t : Session} → Reach s t → IsClean s.db → IsClean t.db
  Reach-IsClean here h = h
  Reach-IsClean (next r st) h = Step-IsClean st (Reach-IsClean r h)
