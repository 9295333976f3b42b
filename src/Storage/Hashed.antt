-- ===== src/Storage/Hashed.antt =====
-- storage.go: reading what was written, and the test of the hash.
use go_mihome.Common.{
  ◌-◌, ◌≡◌, ◌≢◌, sym, ap, ◌∙◌, ◌++◌, none, some, false, arith, length, take, drop, length-append,
  take-length, drop-length, take-append-drop, ltb-false, inl, inr, Bool-cases,
}
use go_mihome.Common.Result.{ok, or_fail, ◌>>=◌, ◌>>◌, >>=-eq-ok}
use go_mihome.Common.Bytes.{Bytes, bytes_eq, bytes_eq_iff, bytes_eq_refl}
use go_mihome.Common.Dict.{Dict, lookup, insert, lookup-insert, lookup-insert_self}
use go_mihome.Storage.{
  Backend, Failures, StorageFormat, not_exist, check, validate_target, write_hashed, open_hashed,
  read_hashed,
}

bytes_eq-false : (x y : Bytes) → y ≢ x → bytes_eq x y ≡ false
bytes_eq-false x y h = elim (Bool-cases (bytes_eq x y)) [
  | inl e ↦ absurd (h (sym ((bytes_eq_iff x y).0 e)))
  | inr e ↦ e
]

module _ (backend : Backend) where
  pub open-sealed : (p : Bytes) → open_hashed backend (p ++ backend.sha256 p) ≡ ok p
  unfolding open_hashed
  open-sealed p =
      let hash = backend.sha256 p in
      let size = length-append p hash in
      let hash_size = backend.length-sha256 p in
      let cut : length (p ++ hash) - 32 ≡ length p = omega arith in
      let front : take (length (p ++ hash) - 32) (p ++ hash) ≡ p =
        ap (λ n. take n (p ++ hash)) cut ∙ take-length p hash in
      let back : drop (length (p ++ hash) - 32) (p ++ hash) ≡ hash =
        ap (λ n. drop n (p ++ hash)) cut ∙ drop-length p hash in
      rw (ltb-false (length (p ++ hash)) 32 (omega arith), front, back, bytes_eq_refl hash)

  -- Only a payload followed by its own hash is accepted.
  pub open_sound : (d p : Bytes) → open_hashed backend d ≡ ok p → d ≡ p ++ backend.sha256 p
  unfolding open_hashed
  open_sound d p h =
      let (same, _) =
        bytes_eq_iff (backend.sha256 (take (length d - 32) d)) (drop (length d - 32) d) in
      let payload : take (length d - 32) d ≡ p = ground arith in
      let hash : backend.sha256 (take (length d - 32) d) ≡ drop (length d - 32) d =
        same (ground arith) in
      sym (take-append-drop (length d - 32) d)
      ∙ ap (λ x. take (length d - 32) d ++ x) (sym hash)
      ∙ ap (λ x. x ++ backend.sha256 x) payload

  -- Reading depends on the file at the path alone.
  read-lookup :
      (d n : Bytes) (f : StorageFormat) (fails : Failures) (files after : Dict Bytes)
      → lookup (backend.path d n f) after ≡ lookup (backend.path d n f) files
      → read_hashed backend d n f fails after ≡ read_hashed backend d n f fails files
  unfolding read_hashed
  read-lookup d n f fails files after e =
      ap
        (λ o.
          validate_target d n f
          >> (check fails.read >> (or_fail o not_exist >>= open_hashed backend)))
        e

  read-found :
      (d n : Bytes) (f : StorageFormat) (fails : Failures) (files : Dict Bytes) (c : Bytes)
      → validate_target d n f ≡ ok tt
      → fails.read ≡ none
      → lookup (backend.path d n f) files ≡ some c
      → read_hashed backend d n f fails files ≡ open_hashed backend c
  unfolding read_hashed
  read-found d n f fails files c valid clear e = rw (valid, clear, e)

  -- A payload that was written is read back, and a payload at another path is read as it would have been
  -- without the write.
  pub read-write :
      (domain name : Bytes) (format : StorageFormat) (payload : Bytes) (fails : Failures)
      (files after : Dict Bytes)
      → fails.read ≡ none
      → write_hashed backend domain name format payload fails files ≡ ok after
      → (read_hashed backend domain name format fails after ≡ ok payload)
        × ((d n : Bytes) (f : StorageFormat)
            → backend.path d n f ≢ backend.path domain name format
            → read_hashed backend d n f fails after ≡ read_hashed backend d n f fails files)
  unfolding write_hashed
  read-write domain name format payload fails files after clear h =
      let (_, valid, h1) = >>=-eq-ok (validate_target domain name format) _ h in
      let (_, _, h2) = >>=-eq-ok (check fails.mkdir) _ h1 in
      let (_, _, h3) = >>=-eq-ok (check fails.write) _ h2 in
      let sealed = payload ++ backend.sha256 payload in
      let is : insert (backend.path domain name format) sealed files ≡ after = ground arith in
      let at =
        ap (lookup (backend.path domain name format)) (sym is)
        ∙ lookup-insert_self (backend.path domain name format) sealed files in
      (
        read-found domain name format fails after sealed valid clear at ∙ open-sealed payload,
        λ d n f other.
            let apart : bytes_eq (backend.path domain name format) (backend.path d n f) ≡ false =
              bytes_eq-false (backend.path domain name format) (backend.path d n f) other in
            read-lookup d n f fails files after (
              ap (lookup (backend.path d n f)) (sym is)
              ∙ lookup-insert (backend.path domain name format) (backend.path d n f) sealed files
              ∙ rw apart),
      )
