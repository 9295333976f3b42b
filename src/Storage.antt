-- ===== src/Storage.antt =====
-- storage.go: payloads with their hash, and the user configuration. The files are a table from paths to
-- contents; sha256, encoding/json, the join of path/filepath and the errors of the file store are
-- parameters. A context that is done is refused before anything else by every operation, and left out.
pub mod Hashed
pub mod Positions
pub mod Config
pub mod Update
use go_mihome.Common.{
  ℕ, zero, suc, ◌+◌, ◌-◌, ◌≡◌, List, [], ◌∷◌, ◌++◌, Option, none, some, Bool, true, false, ◌&&◌,
  not, ltb, if◌then◌else◌, length, take, drop,
}
use go_mihome.Common.Result.{
  Result, ok, err, Fault, fault, opaque, wrapped, invalid_argument, invalid_response, fail_if,
  or_fail, ◌>>=◌, ◌>>◌,
}
use go_mihome.Common.Bytes.{Bytes, codes, bytes_eq}
use go_mihome.Common.Dict.{Dict, lookup, insert, delete}
use go_mihome.Mips.Message.{is_empty}

-- `unknown_format` is any text that is none of the three formats.
pub data StorageFormat : Type 0 where
  bytes_format text_format json_format unknown_format : StorageFormat

pub record UserConfigEntry : Type 0 where
  pub key : Bytes
  pub value : Bytes

abbrev pub Document : Type 0
Document = List UserConfigEntry

-- crypto/sha256, encoding/json for documents, and the path of a payload in the root directory.
pub record Backend : Type 0 where
  pub sha256 : Bytes → Bytes
  pub length-sha256 : (p : Bytes) → length (sha256 p) ≡ 32
  pub marshal : Document → Option Bytes
  pub unmarshal : Bytes → Option Document
  pub path : Bytes → Bytes → StorageFormat → Bytes

abbrev pub not_exist : Fault
not_exist = opaque "file does not exist"

unfoldable pub validate_domain : Bytes → Result (Unit {0})
validate_domain domain =
    fail_if (is_empty domain) (fault invalid_argument "validate storage domain" "domain is empty")

unfoldable pub validate_format : StorageFormat → Result (Unit {0})
validate_format unknown_format =
    err (fault invalid_argument "validate storage format" "invalid storage format")
validate_format f = ok tt

unfoldable pub validate_target : Bytes → Bytes → StorageFormat → Result (Unit {0})
unfolding validate_domain validate_format
validate_target domain name format = do
  validate_domain domain
  fail_if (is_empty name) (fault invalid_argument "validate storage target" "name is empty")
  validate_format format

-- The errors that the calls of the file store return, if they do, apart from that for a file that does not
-- exist. A WriteFile that fails is taken to leave the file as it was.
pub record Failures : Type 0 where
  pub mkdir : Option Fault
  pub write : Option Fault
  pub read : Option Fault
  pub removal : Option Fault
  pub stat : Option Fault

-- The error of a call of the file store, if it has one.
abbrev pub check : Option Fault → Result (Unit {0})
check none = ok tt
check (some e) = err e

-- `indexByKey` of the entries from a position on.
unfoldable pub index_from : ℕ → Document → Dict ℕ → Dict ℕ
index_from i [] index = index
index_from i (e ∷ es) index = index_from (i + 1) es (insert e.key i index)

unfoldable pub set_at : ℕ → UserConfigEntry → Document → Document
set_at i e [] = []
set_at zero e (x ∷ xs) = e ∷ xs
set_at (suc i) e (x ∷ xs) = x ∷ set_at i e xs

-- The loop over the entries of the patch.
unfoldable pub merge_loop : Document → Document → Dict ℕ → Document
unfolding set_at
merge_loop [] entries index = entries
merge_loop (e ∷ es) entries index = elim (lookup e.key index) [
  | some i ↦ merge_loop es (set_at i e entries) index
  | none ↦ merge_loop es (entries ++ e ∷ []) (insert e.key (length entries) index)
]

unfoldable pub merge_documents : Document → Document → Document
unfolding merge_loop index_from
merge_documents [] patch = patch
merge_documents (x ∷ xs) patch = merge_loop patch (x ∷ xs) (index_from 0 (x ∷ xs) [])

unfoldable pub is_allowed : Bytes → List Bytes → Bool
is_allowed k [] = false
is_allowed k (a ∷ allowed) = let rest = is_allowed k allowed in if bytes_eq a k then true else rest

unfoldable pub filter_document : Document → List Bytes → Document
unfolding is_allowed
filter_document [] keys = []
filter_document (e ∷ es) keys =
    let rest = filter_document es keys in if is_allowed e.key keys then e ∷ rest else rest

-- The domain is a constant; the name is the user and the server.
unfoldable pub user_config_location : Bytes → Bytes → Result (Bytes × Bytes)
user_config_location uid server = do
  fail_if (is_empty uid) (fault invalid_argument "user config path" "uid is empty")
  fail_if (is_empty server) (fault invalid_argument "user config path" "cloud server is empty")
  ok (codes "miot_config", uid ++ codes "_" ++ server)

abbrev is_empty_list : List Bytes → Bool
is_empty_list [] = true
is_empty_list (k ∷ ks) = false

module _ (backend : Backend) where
  -- writeHashed.
  unfoldable pub write_hashed :
      Bytes → Bytes → StorageFormat → Bytes → Failures → Dict Bytes → Result (Dict Bytes)
  unfolding validate_target
  write_hashed domain name format payload fails files = do
    validate_target domain name format
    check fails.mkdir
    check fails.write
    ok (insert (backend.path domain name format) (payload ++ backend.sha256 payload) files)

  -- The test of what was read.
  unfoldable pub open_hashed : Bytes → Result Bytes
  open_hashed d =
      let n = length d - 32 in
      do
        fail_if (ltb (length d) 32)
            (fault invalid_response "load storage payload" "payload is too short")
        fail_if (not (bytes_eq (backend.sha256 (take n d)) (drop n d)))
            (fault invalid_response "load storage payload" "payload hash mismatch")
        ok (take n d)

  unfoldable pub read_hashed : Bytes → Bytes → StorageFormat → Failures → Dict Bytes → Result Bytes
  unfolding validate_target open_hashed
  read_hashed domain name format fails files = do
    validate_target domain name format
    check fails.read
    d ← or_fail (lookup (backend.path domain name format) files) not_exist
    open_hashed d

  -- Remove: a file that does not exist is no error.
  unfoldable pub remove :
      Bytes → Bytes → StorageFormat → Failures → Dict Bytes → Result (Dict Bytes)
  unfolding validate_target
  remove domain name format fails files = do
    validate_target domain name format
    check fails.removal
    ok (delete (backend.path domain name format) files)

  unfoldable pub exists : Bytes → Bytes → StorageFormat → Failures → Dict Bytes → Result Bool
  unfolding validate_target
  exists domain name format fails files = do
    validate_target domain name format
    check fails.stat
    ok (elim (lookup (backend.path domain name format) files) [ none ↦ false | some d ↦ true ])

  abbrev decoded : Option Bytes → Result Document
  decoded none = ok []
  decoded (some d) = do
    payload ← open_hashed d
    or_fail (backend.unmarshal payload)
        (wrapped invalid_response "decode json" (opaque "encoding/json"))

  -- LoadUserConfig: a file that does not exist is an empty document.
  unfoldable pub load_user_config :
      Bytes → Bytes → List Bytes → Failures → Dict Bytes → Result Document
  unfolding user_config_location filter_document open_hashed
  load_user_config uid server keys fails files = do
    (domain, name) ← user_config_location uid server
    check fails.read
    doc ← decoded (lookup (backend.path domain name json_format) files)
    ok (if is_empty_list keys then doc else filter_document doc keys)

  save_document : Bytes → Bytes → Document → Failures → Dict Bytes → Result (Dict Bytes)
  unfolding write_hashed
  save_document domain name doc fails files = do
    payload ←
        or_fail (backend.marshal doc)
          (wrapped invalid_argument "marshal json" (opaque "encoding/json"))
    write_hashed domain name json_format payload fails files

  -- UpdateUserConfig; `none` is a nil patch, which removes the document.
  unfoldable pub update_user_config :
      Bytes → Bytes → Option Document → Bool → Failures → Dict Bytes → Result (Dict Bytes)
  unfolding user_config_location remove save_document load_user_config merge_documents
  update_user_config uid server none replace fails files = do
    (domain, name) ← user_config_location uid server
    remove domain name json_format fails files
  update_user_config uid server (some patch) true fails files = do
    (domain, name) ← user_config_location uid server
    save_document domain name patch fails files
  update_user_config uid server (some []) false fails files = do
    (domain, name) ← user_config_location uid server
    ok files
  update_user_config uid server (some (e ∷ es)) false fails files = do
    (domain, name) ← user_config_location uid server
    current ← load_user_config uid server [] fails files
    save_document domain name (merge_documents current (e ∷ es)) fails files
