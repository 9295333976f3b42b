-- ===== src/Tests/Stores.antt =====
-- The network monitor and the storage on concrete inputs.
use go_mihome.Common.{
  ℕ, zero, suc, ◌+◌, ◌==◌, if◌then◌else◌, get_or, map, ◌≡◌, ◌≢◌, refl, List, [], ◌∷◌, ◌++◌, Option,
  none, some, false, replicate, arith, length, length-replicate, take, drop, ap, sym,
}
use go_mihome.Common.Result.{ok}
use go_mihome.Common.Bytes.{Bytes, codes, bytes_eq}
use go_mihome.Common.Dict.{Dict, lookup, insert}
use go_mihome.Network.{NetworkInfo, events, table_from}
use go_mihome.Network.Arrivals.{replay, pick, Distinct, IsKeyed}
use go_mihome.Network.Replay.{replay-events}
use go_mihome.Storage.{
  Backend, Failures, StorageFormat, bytes_format, text_format, json_format, unknown_format,
  UserConfigEntry, Document, write_hashed, read_hashed, open_hashed, merge_documents,
  load_user_config, update_user_config,
}
use go_mihome.Storage.Hashed.{read-write}
use go_mihome.Storage.Positions.{or_else, last_entry}
use go_mihome.Storage.Update.{tidied, tidied_found, load-update}

abbrev interface_at : Bytes → Bytes → NetworkInfo
interface_at name ip = record {
  name = name;
  ip = ip;
  netmask = codes "255.255.255.0";
  network_segment = [];
}

abbrev old_table : Dict NetworkInfo
old_table =
    (codes "eth0", interface_at (codes "eth0") (codes "10.0.0.1"))
    ∷ (codes "wlan0", interface_at (codes "wlan0") (codes "10.0.0.2"))
    ∷ []

abbrev found : List NetworkInfo
found =
    interface_at (codes "eth0") (codes "10.0.0.9")
    ∷ interface_at (codes "usb0") (codes "10.0.0.3")
    ∷ []

found-Distinct : Distinct found
unfolding pick bytes_eq
found-Distinct = (refl, (refl, tt))

old_table-IsKeyed : IsKeyed old_table
old_table-IsKeyed = (refl, (refl, tt))

replay-events_example :
    lookup (codes "eth0") (replay (events old_table found) old_table)
    ≡ lookup (codes "eth0") (table_from [] found)
replay-events_example =
    replay-events (codes "eth0") old_table found found-Distinct old_table-IsKeyed

-- A document of one entry is encoded as the length of its key, its key and its value.
-- A value without its spaces.
abbrev squeeze : Bytes → Bytes
squeeze [] = []
squeeze (c ∷ cs) = let rest = squeeze cs in if c == 32 then rest else c ∷ rest

-- Each key and each value behind its length.
abbrev encode_all : Document → Bytes
encode_all [] = []
encode_all (e ∷ es) =
    length e.key ∷ e.key ++ (length (squeeze e.value) ∷ squeeze e.value ++ encode_all es)

abbrev decode_all : ℕ → Bytes → Document
decode_all zero r = []
decode_all (suc f) [] = []
decode_all (suc f) (n ∷ r) =
    record { key = take n r; value = take (get_or r n 0) (drop (n + 1) r) }
    ∷ decode_all f (drop (get_or r n 0) (drop (n + 1) r))

abbrev encode : Document → Option Bytes
encode doc = some (encode_all doc)

abbrev decode : Bytes → Option Document
decode p = some (decode_all (length p) p)

abbrev suffix : StorageFormat → Bytes
suffix bytes_format = codes ".bytes"
suffix text_format = codes ".text"
suffix json_format = codes ".json"
suffix unknown_format = []

abbrev backend : Backend
backend = record {
  sha256 = λ p. replicate 32 (length p);
  length-sha256 = λ p. length-replicate 32 (length p);
  marshal = encode;
  unmarshal = decode;
  path = λ d n f. d ++ codes "/" ++ n ++ suffix f;
}

abbrev no_failures : Failures
no_failures = record { mkdir = none; write = none; read = none; removal = none; stat = none }

abbrev written : Dict Bytes
written = (codes "auth/token.bytes", codes "abc" ++ replicate 32 3) ∷ []

token_written :
    write_hashed backend (codes "auth") (codes "token") bytes_format (codes "abc") no_failures []
    ≡ ok written
unfolding write_hashed insert
token_written = refl

read-write_example :
    (read_hashed backend (codes "auth") (codes "token") bytes_format no_failures written
      ≡ ok (codes "abc"))
    × ((d n : Bytes) (f : StorageFormat)
        → backend.path d n f ≢ backend.path (codes "auth") (codes "token") bytes_format
        → read_hashed backend d n f no_failures written ≡ read_hashed backend d n f no_failures [])
read-write_example =
    read-write backend (codes "auth") (codes "token") bytes_format (codes "abc") no_failures []
      written refl token_written

token_opened : open_hashed backend (codes "abc" ++ replicate 32 3) ≡ ok (codes "abc")
unfolding open_hashed bytes_eq
token_opened = refl

abbrev entry : Bytes → Bytes → UserConfigEntry
entry k v = record { key = k; value = v }

abbrev current : Document
current = entry (codes "a") (codes "1") ∷ entry (codes "b") (codes "2") ∷ []

-- The second value has a space.
abbrev patch : Document
patch = entry (codes "b") (codes " 3") ∷ entry (codes "c") (codes "4") ∷ []

abbrev config_name : Bytes
config_name = codes "miot_config/u_cn.json"

abbrev stored : Bytes → Dict Bytes
stored p = (config_name, p ++ replicate 32 (length p)) ∷ []

abbrev config_file : Dict Bytes
config_file = stored (encode_all current)

abbrev updated_file : Dict Bytes
updated_file = stored (
    encode_all (
      entry (codes "a") (codes "1")
      ∷ entry (codes "b") (codes " 3")
      ∷ entry (codes "c") (codes "4")
      ∷ []))

config_loaded :
    load_user_config backend (codes "u") (codes "cn") [] no_failures config_file ≡ ok current
unfolding load_user_config lookup bytes_eq
config_loaded = refl

config_updated :
    update_user_config backend (codes "u") (codes "cn") (some patch) false no_failures config_file
    ≡ ok updated_file
unfolding update_user_config load_user_config merge_documents write_hashed lookup insert bytes_eq
config_updated = refl

config_decoded :
    (p : Bytes)
    → encode (merge_documents current patch) ≡ some p
    → decode p ≡ some (map (tidied squeeze) (merge_documents current patch))
unfolding merge_documents lookup insert bytes_eq
config_decoded p h =
    let is : encode_all (merge_documents current patch) ≡ p = ground arith in ap decode (sym is)

load-update_example :
    (doc : Document) × (load_user_config backend
        (codes "u")
        (codes "cn")
        []
        no_failures
        updated_file
      ≡ ok doc)
    × (last_entry (codes "b") doc
        ≡ tidied_found squeeze
            (or_else (last_entry (codes "b") patch) (last_entry (codes "b") current)))
load-update_example =
    load-update backend squeeze (codes "u") (codes "cn") (codes "b")
      (entry (codes "b") (codes " 3")) (entry (codes "c") (codes "4") ∷ []) current no_failures
      config_file updated_file config_decoded refl config_loaded config_updated
