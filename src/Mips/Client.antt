-- ===== src/Mips/Client.antt =====
-- mips_client.go: requests that wait for their replies. A method that holds the lock is one step; a
-- waiting request is known by a ticket, which stands for its reply channel. What the MQTT connection
-- answers to Subscribe is an argument.
pub mod Waits
pub mod Replies
use go_mihome.Common.{
  ℕ, ◌+◌, ◌%◌, ◌^◌, List, [], ◌∷◌, ◌++◌, Option, none, some, Bool, true, false, ◌&&◌, not, ◌==◌,
  if◌then◌else◌, length, take, drop,
}
use go_mihome.Common.Result.{Result, ok, err, Fault, fault, invalid_argument}
use go_mihome.Common.Bytes.{Bytes, bytes_eq}
use go_mihome.Mips.Message.{Message, pack, unpack, is_empty}

pub record MipsBaseConfig : Type 0 where
  pub reply_topic : Bytes
  pub strip_prefix : Bytes
  pub decode_envelope : Bool

-- `has_mqtt` says that the connection is not nil, `reply_sub` that there is a reply subscription; `subs`
-- counts the subscriptions of broadcasts.
pub record MipsClient : Type 0 where
  pub config : MipsBaseConfig
  pub has_mqtt : Bool
  pub next_id : ℕ
  pub pending : List (ℕ × ℕ)
  pub reply_sub : Bool
  pub subs : ℕ

unfoldable pub new_mips_client : Bool → MipsBaseConfig → MipsClient
new_mips_client has_mqtt cfg = record {
  config = cfg;
  has_mqtt = has_mqtt;
  next_id = 1;
  pending = [];
  reply_sub = false;
  subs = 0;
}

-- The map of the waiting requests.
unfoldable pub find_pending : ℕ → List (ℕ × ℕ) → Option ℕ
find_pending id [] = none
find_pending id ((j, t) ∷ m) = if j == id then some t else find_pending id m

unfoldable pub remove_pending : ℕ → List (ℕ × ℕ) → List (ℕ × ℕ)
remove_pending id [] = []
remove_pending id ((j, t) ∷ m) =
    let rest = remove_pending id m in if j == id then rest else (j, t) ∷ rest

abbrev put_pending : ℕ → ℕ → List (ℕ × ℕ) → List (ℕ × ℕ)
put_pending id ticket m = (id, ticket) ∷ remove_pending id m

-- A message without an envelope is its payload, with the identifier 0.
unfoldable pub decode_message : MipsBaseConfig → Bytes → Option (Result Message)
decode_message cfg payload =
    if cfg.decode_envelope
    then unpack payload
    else some (ok (record { id = 0; from = []; reply_topic = []; payload = payload }))

abbrev starts_with : Bytes → Bytes → Bool
starts_with prefix topic = bytes_eq (take (length prefix) topic) prefix

unfoldable pub normalize_topic : MipsBaseConfig → Bytes → Bytes
normalize_topic cfg topic =
    if not (is_empty cfg.strip_prefix) && starts_with cfg.strip_prefix topic
    then drop (length cfg.strip_prefix) topic
    else topic

-- dispatchBroadcast: what the handler is called with, if it is called.
unfoldable pub dispatch_broadcast : MipsBaseConfig → Bytes → Bytes → Option (Bytes × Bytes)
unfolding decode_message normalize_topic
dispatch_broadcast cfg topic payload = elim (decode_message cfg payload) [
  | some (ok m) ↦ some (normalize_topic cfg topic, m.payload)
  | some (err e) ↦ none
  | none ↦ none
]

-- ensureReplySubscription; `refused` is the error of Subscribe, if it has one.
unfoldable pub ensure_reply_subscription : Option Fault → MipsClient → MipsClient × Option Fault
ensure_reply_subscription refused c = if c.reply_sub then (c, none) else subscribed refused
  where
    subscribed : Option Fault → MipsClient × Option Fault
    subscribed (some e) = (c, some e)
    subscribed none = (record c { reply_sub = true }, none)

-- The message that Request sends for a ticket, with what goes over the wire, and the waiting entry.
unfoldable pub send_request : ℕ → Message → MipsClient → MipsClient × Message × Bytes
send_request ticket msg c =
    let id = c.next_id in
    let reply_topic = if is_empty msg.reply_topic then c.config.reply_topic else msg.reply_topic in
    let sent = record msg { id = id; reply_topic = reply_topic } in
    (
      record c { next_id = (id + 1) % 4294967296; pending = put_pending id ticket c.pending },
      sent,
      if c.config.decode_envelope then pack sent else msg.payload,
    )

-- Request, up to Publish.
abbrev proceed : ℕ → Message → MipsClient → Option Fault → MipsClient × Result (Message × Bytes)
proceed ticket msg d (some e) = (d, err e)
proceed ticket msg d none = let t = send_request ticket msg d in (t.0, ok (t.1, t.2))

unfoldable pub request :
    ℕ → Message → Option Fault → MipsClient → MipsClient × Result (Message × Bytes)
unfolding ensure_reply_subscription send_request
request ticket msg refused c =
    if not c.has_mqtt
    then (c, err (fault invalid_argument "mips request" "mqtt is nil"))
    else if is_empty c.config.reply_topic
    then (c, err (fault invalid_argument "mips request" "reply topic is empty"))
    else proceed ticket msg (ensure_reply_subscription refused c).0
        (ensure_reply_subscription refused c).1

-- deletePending, for a request that could not be published or whose context is done.
unfoldable pub delete_pending : ℕ → MipsClient → MipsClient
delete_pending id c = record c { pending = remove_pending id c.pending }

-- The reply goes to the request that waits for its identifier, if one does.
abbrev pub answered : Option ℕ → Message → Option (ℕ × Message)
answered none m = none
answered (some ticket) m = some (ticket, m)

unfoldable pub handle_reply : Bytes → MipsClient → MipsClient × Option (ℕ × Message)
unfolding decode_message find_pending delete_pending
handle_reply payload c = elim (decode_message c.config payload) [
  | some (ok m) ↦ (delete_pending m.id c, answered (find_pending m.id c.pending) m)
  | some (err e) ↦ (c, none)
  | none ↦ (c, none)
]

-- SubscribeBroadcast, once Subscribe has answered.
unfoldable pub subscribe_broadcast : Option Fault → MipsClient → MipsClient × Option Fault
subscribe_broadcast refused c =
    if c.has_mqtt
    then subscribed refused
    else (c, some (fault invalid_argument "mips subscribe" "mqtt is nil"))
  where
    subscribed : Option Fault → MipsClient × Option Fault
    subscribed (some e) = (c, some e)
    subscribed none = (record c { subs = c.subs + 1 }, none)

unfoldable pub close : MipsClient → MipsClient
close c = record c { reply_sub = false; subs = 0; pending = [] }

-- What happens to a client while a request waits.
pub data Event : Type 0 where
  requested : (ticket : ℕ) → (msg : Message) → (refused : Option Fault) → Event
  replied : (payload : Bytes) → Event
  abandoned : (id : ℕ) → Event

unfoldable pub happen : Event → MipsClient → MipsClient
unfolding request handle_reply delete_pending
happen (requested ticket msg refused) c = (request ticket msg refused c).0
happen (replied payload) c = (handle_reply payload c).0
happen (abandoned id) c = delete_pending id c

unfoldable pub history : List Event → MipsClient → MipsClient
unfolding happen
history [] c = c
history (e ∷ es) c = history es (happen e c)
