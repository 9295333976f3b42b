-- ===== src/Storage/Update.antt =====
-- storage.go: a user configuration is updated and loaded again.
use go_mihome.Common.{
  ◌≡◌, refl, sym, ap, ◌∙◌, subst, [], ◌∷◌, ◌++◌, Option, none, some, Bool, true, false, map, arith,
  if◌then◌else◌,
}
use go_mihome.Common.Result.{ok, or_fail, >>=-eq-ok}
use go_mihome.Common.Bytes.{Bytes, bytes_eq}
use go_mihome.Common.Dict.{Dict, lookup, insert, lookup-insert_self}
use go_mihome.Storage.{
  Backend, Failures, json_format, UserConfigEntry, Document, check, validate_target, write_hashed,
  user_config_location, load_user_config, save_document, update_user_config, merge_documents,
}
use go_mihome.Storage.Hashed.{open-sealed}
use go_mihome.Storage.Positions.{last_entry, or_else}
use go_mihome.Storage.Config.{merge-entry}

-- An entry with its value as encoding/json writes a RawMessage.
abbrev pub tidied : (Bytes → Bytes) → UserConfigEntry → UserConfigEntry
tidied compact e = record e { value = compact e.value }

abbrev pub tidied_found : (Bytes → Bytes) → Option UserConfigEntry → Option UserConfigEntry
tidied_found compact none = none
tidied_found compact (some e) = some (tidied compact e)

last_entry-tidied :
    (compact : Bytes → Bytes) (k : Bytes) (doc : Document)
    → last_entry k (map (tidied compact) doc) ≡ tidied_found compact (last_entry k doc)
unfolding last_entry
last_entry-tidied compact k [] = refl
last_entry-tidied compact k (e ∷ es) =
    ap (λ o. or_else o (if bytes_eq e.key k then some (tidied compact e) else none))
      (last_entry-tidied compact k es)
    ∙ split (last_entry k es) (bytes_eq e.key k)
  where
    split :
        (o : Option UserConfigEntry) (b : Bool)
        → or_else (tidied_found compact o) (if b then some (tidied compact e) else none)
          ≡ tidied_found compact (or_else o (if b then some e else none))
    split none true = refl
    split none false = refl
    split (some x) b = refl

module _ (backend : Backend) (compact : Bytes → Bytes) where
  -- What a document that was saved loads as.
  load-save :
      (uid server domain name : Bytes) (doc : Document) (fails : Failures)
      (files after : Dict Bytes)
      → ((p : Bytes)
          → backend.marshal doc ≡ some p
          → backend.unmarshal p ≡ some (map (tidied compact) doc))
      → fails.read ≡ none
      → user_config_location uid server ≡ ok (domain, name)
      → save_document backend domain name doc fails files ≡ ok after
      → load_user_config backend uid server [] fails after ≡ ok (map (tidied compact) doc)
  unfolding save_document write_hashed load_user_config
  load-save uid server domain name doc fails files after json clear at h =
      let (p, coded, h0) = >>=-eq-ok (or_fail (backend.marshal doc) _) _ h in
      let (_, _, h1) = >>=-eq-ok (validate_target domain name json_format) _ h0 in
      let (_, _, h2) = >>=-eq-ok (check fails.mkdir) _ h1 in
      let (_, _, h3) = >>=-eq-ok (check fails.write) _ h2 in
      let sealed = p ++ backend.sha256 p in
      let is : insert (backend.path domain name json_format) sealed files ≡ after = ground arith in
      let found =
        ap (lookup (backend.path domain name json_format)) (sym is)
        ∙ lookup-insert_self (backend.path domain name json_format) sealed files in
      let marshalled : backend.marshal doc ≡ some p = ground arith in
      rw (at, load_user_config, clear, found, open-sealed backend p, json p marshalled) refl

  -- After a configuration has been merged with a patch, loading it gives under every key the last entry of
  -- the patch, and where the patch has none what was loaded before, with its value as encoding/json writes a
  -- RawMessage, that is compacted and escaped. The patch is not empty, the reads do not fail, and encoding/json
  -- decodes what it has encoded of the merged entries to the same keys in the same order with their values
  -- written so, as it does where the keys are valid UTF-8.
  pub load-update :
      (uid server k : Bytes) (e : UserConfigEntry) (es current : Document) (fails : Failures)
      (files after : Dict Bytes)
      → ((p : Bytes)
          → backend.marshal (merge_documents current (e ∷ es)) ≡ some p
          → backend.unmarshal p ≡ some (map (tidied compact) (merge_documents current (e ∷ es))))
      → fails.read ≡ none
      → load_user_config backend uid server [] fails files ≡ ok current
      → update_user_config backend uid server (some (e ∷ es)) false fails files ≡ ok after
      → (doc : Document) × (load_user_config backend uid server [] fails after ≡ ok doc)
        × (last_entry k doc
            ≡ tidied_found compact (or_else (last_entry k (e ∷ es)) (last_entry k current)))
  unfolding update_user_config
  load-update uid server k e es current fails files after json clear before h =
      let ((domain, name), at, h1) = >>=-eq-ok (user_config_location uid server) _ h in
      let (doc, loaded, h2) = >>=-eq-ok (load_user_config backend uid server [] fails files) _ h1 in
      let both : ok doc ≡ ok current = sym loaded ∙ before in
      let same : doc ≡ current = ground arith in
      let merged = merge_documents current (e ∷ es) in
      let saved =
        subst
          (λ d.
            save_document backend domain name (merge_documents d (e ∷ es)) fails files ≡ ok after)
          same h2 in
      (
        map (tidied compact) merged,
        load-save uid server domain name merged fails files after json clear at saved,
        last_entry-tidied compact k merged
            ∙ ap (tidied_found compact) (merge-entry k current (e ∷ es)),
      )
