-- ===== src/Camera/Command.antt =====
-- camera/native_cs2.go: commands and packets on the wire, and the worker that reads them.
-- The conversation with the device is a list of reads; what the worker writes and calls is a list of
-- effects. A slice or an index out of range ends the program, which is an outcome of its own.
pub mod Tcp
pub mod Safety
pub mod Delivery
pub mod Runs
use go_mihome.Common.{
  ℕ, ◌+◌, ◌*◌, ◌%◌, List, [], ◌∷◌, ◌++◌, Option, none, some, Bool, true, false, ◌||◌, ◌==◌, ltb,
  leb, if◌then◌else◌, length, get_or, take, drop, replicate,
}
use go_mihome.Common.Result.{Fault, context, opaque, Result, ok, err}
use go_mihome.Common.Bytes.{Bytes, be16, be32, read_le32}
use go_mihome.Camera.Channel.{DataChannel, new_data_channel, push, push_seq, pop}

-- miHomeCS2MarshalCommand.
unfoldable pub marshal_command : ℕ → ℕ → ℕ → Bytes → Bytes
marshal_command channel sequence command payload =
    241 ∷ 208 ∷ be16 (12 + length payload)
    ++ (209 ∷ channel ∷ be16 sequence)
    ++ be32 (4 + length payload)
    ++ be32 command
    ++ payload

-- The fields of the connection. Channels 1 and 3 are nil and never set. `buffer` is the 1200 bytes that
-- the worker reads into again and again, `cmd_ack` tells whether the callback is set.
pub record Connection : Type 0 where
  pub is_tcp : Bool
  pub fault : Option Fault
  pub seq_ch0 : ℕ
  pub control : DataChannel
  pub media : DataChannel
  pub cmd_ack : Bool
  pub buffer : Bytes
  pub keepalive_at : ℕ

pub data Effect : Type 0 where
  written : Bytes → Effect
  acked : Effect

pub data Outcome : Type 0 where
  continued : Connection → List Effect → Outcome
  stopped : Connection → List Effect → Outcome
  panicked : Outcome

-- `c.channels[channelID]`.
pub data Selected : Type 0 where
  control media unused beyond : Selected

unfoldable pub select_channel : ℕ → Selected
select_channel id =
    if id == 0
    then Selected.control
    else if id == 2
    then Selected.media
    else if ltb id 4
    then Selected.unused
    else Selected.beyond

abbrev pub second : ℕ
second = 1000000000

-- newMiHomeCS2Conn after the handshake, with the buffer that the worker makes.
unfoldable pub new_connection : Bool → Connection
unfolding new_data_channel
new_connection is_tcp = record {
  is_tcp = is_tcp;
  fault = none;
  seq_ch0 = 0;
  control = new_data_channel 0 10;
  media = new_data_channel 250 100;
  cmd_ack = false;
  buffer = replicate 1200 0;
  keepalive_at = 0;
}

-- A read fills the front of the buffer and leaves the bytes behind it as they were.
unfoldable pub fill : Bytes → Bytes → Bytes
fill d buffer = d ++ drop (length d) buffer

-- After a push, the worker goes on or leaves with the error.
abbrev pub conclude : Option Fault → Connection → List Effect → Outcome
conclude none c w = continued c w
conclude (some e) c w = stopped (record c { fault = some (context "cs2" e) }) w

-- Over TCP a ping is written when the time has come.
abbrev pub keepalive : ℕ → Connection → Connection × List Effect
keepalive now c =
    if ltb c.keepalive_at now
    then (record c { keepalive_at = now + second }, written (241 ∷ 224 ∷ 0 ∷ 0 ∷ []) ∷ [])
    else (c, [])

-- Over UDP a packet that was taken is acknowledged, with its channel and its number.
abbrev pub acknowledge : Option ℕ → ℕ → ℕ → ℕ → List Effect
acknowledge none id hi lo = []
acknowledge (some n) id hi lo = written (241 ∷ 209 ∷ 0 ∷ 6 ∷ 209 ∷ id ∷ 0 ∷ 1 ∷ hi ∷ lo ∷ []) ∷ []

-- What a DRW message does to its channel; `none` means that the fuel ran out.
unfoldable pub receive :
    Bool → ℕ → ℕ → ℕ → DataChannel → Bytes → Option (DataChannel × List Effect × Option Fault)
receive true id hi lo channel d = elim (push channel d) [
  | none ↦ none
  | some (e, x) ↦ some (e, [], x)
]
receive false id hi lo channel d = elim (push_seq channel (hi * 256 + lo) d) [
  | none ↦ none
  | some (e, pushed, x) ↦ some (e, acknowledge pushed id hi lo, x)
]

-- The channel goes back to its place.
abbrev pub put :
    Option (DataChannel × List Effect × Option Fault)
    → (DataChannel → Connection)
    → List Effect
    → Option Outcome
put none place pings = none
put (some (e, w, x)) place pings = some (conclude x (place e) (pings ++ w))

-- The case of a DRW message, `buffer[8:n]` being a slice that must not end before it starts.
unfoldable pub drw : ℕ → Connection → ℕ → Option Outcome
unfolding select_channel receive
drw now c n =
    let id = get_or c.buffer 5 0 in
    let hi = get_or c.buffer 6 0 in
    let lo = get_or c.buffer 7 0 in
    let d = drop 8 (take n c.buffer) in
    let (c1, pings) = if c.is_tcp then keepalive now c else (c, []) in
    elim (select_channel id) [
      | beyond ↦ some panicked
      | unused ↦ some (continued c [])
      | control ↦
          if ltb n 8
          then some panicked
          else put (receive c.is_tcp id hi lo c.control d) (λ e. record c1 { control = e }) pings
      | media ↦
          if ltb n 8
          then some panicked
          else put (receive c.is_tcp id hi lo c.media d) (λ e. record c1 { media = e }) pings
    ]

-- The switch of the worker on `buffer[1]`, after a read of n bytes.
unfoldable pub dispatch : ℕ → Connection → ℕ → Option Outcome
unfolding drw
dispatch now c n =
    let kind = get_or c.buffer 1 0 in
    let data_case = drw now c n in
    if kind == 208
    then data_case
    else if kind == 224
    then some (continued c (written (241 ∷ 225 ∷ 0 ∷ 0 ∷ []) ∷ []))
    else if kind == 209
    then some (continued c (if c.cmd_ack then acked ∷ [] else []))
    else some (continued c [])

-- One turn of the worker: a read that failed, or one that gave bytes.
unfoldable pub turn : ℕ → Connection → Result Bytes → Option Outcome
unfolding dispatch fill
turn now c (err e) = some (stopped (record c { fault = some (context "cs2" e) }) [])
turn now c (ok d) = dispatch now (record c { buffer = fill d c.buffer }) (length d)

-- ReadCommand once its channel has a frame: the number, and the rest of the payload.
unfoldable pub read_command : Bytes → Option (ℕ × Bytes)
read_command p = if ltb (length p) 4 then none else some (read_le32 p, drop 4 p)

unfoldable pub read_packet : Bytes → Result (Bytes × Bytes)
read_packet p =
    if ltb (length p) 32
    then err (opaque "cs2: media packet too small")
    else ok (take 32 p, drop 32 p)

-- WriteCommand: what is written, and the connection behind it.
unfoldable pub write_command : ℕ → Bytes → Connection → Connection × Bytes
unfolding marshal_command
write_command command payload c = (
  record c { seq_ch0 = (c.seq_ch0 + 1) % 65536; cmd_ack = false },
  marshal_command 0 c.seq_ch0 command payload,
)
