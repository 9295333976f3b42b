-- ===== src/Camera/Command/Delivery.antt =====
-- camera/native_cs2.go: a command from WriteCommand to ReadCommand, over TCP.
use go_mihome.Common.{
  ℕ, suc, ◌+◌, ◌*◌, ◌/◌, ◌%◌, ◌≤◌, ◌<◌, ◌≡◌, refl, ap, ◌∙◌, List, [], ◌∷◌, ◌++◌, Option, none, some,
  Bool, true, false, ltb, if◌then◌else◌, length, get_or, take, drop, arith, take-length, ltb-false,
}
use go_mihome.Common.Result.{Fault, ok}
use go_mihome.Common.Bytes.{Bytes, be16, be32, read_le32}
use go_mihome.Camera.Channel.{DataChannel, push}
use go_mihome.Camera.Channel.Frames.{frame}
use go_mihome.Camera.Channel.Whole.{IsIdle, delivering, push_whole}
use go_mihome.Camera.Command.Safety.{dispatch_data}
use go_mihome.Camera.Command.{
  Connection, Effect, continued, control, select_channel, fill, receive, keepalive, drw, turn,
  marshal_command, write_command, read_command,
}

abbrev pub body : ℕ → Bytes → Bytes
body command payload = be32 command ++ payload

-- Behind the eight bytes of its header, a command is one frame.
marshal_lem :
    (channel sequence command : ℕ) (payload : Bytes)
    → marshal_command channel sequence command payload
      ≡ (241 ∷ 208 ∷ be16 (12 + length payload))
        ++ (209 ∷ channel ∷ be16 sequence)
        ++ frame (body command payload)
unfolding marshal_command frame be16 be32
marshal_lem channel sequence command payload =
    let size : 4 + length payload ≡ length (body command payload) = omega arith in
    ap
      (λ n.
        (241 ∷ 208 ∷ be16 (12 + length payload))
        ++ (209 ∷ channel ∷ be16 sequence)
        ++ (be32 n ++ body command payload))
      size

take-fill : (d buffer : Bytes) → take (length d) (fill d buffer) ≡ d
unfolding fill
take-fill d buffer = take-length d (drop (length d) buffer)

read_command-body :
    (command : ℕ) (payload : Bytes)
    → command < 4294967296
    → read_command (body command payload)
      ≡ some (
        command % 256 * 16777216
            + command / 256 % 256 * 65536
            + command / 65536 % 256 * 256
            + command / 16777216,
        payload,
      )
unfolding read_command read_le32 be32
read_command-body command payload h =
    let small : ltb (suc (suc (suc (suc (length payload))))) 4 ≡ false = ground arith in
    let swapped : command / 16777216 % 256
          + command / 65536 % 256 * 256
          + command / 256 % 256 * 65536
          + command % 256 * 16777216
        ≡ command % 256 * 16777216
          + command / 256 % 256 * 65536
          + command / 65536 % 256 * 256
          + command / 16777216 =
      omega arith in
    rw (small, swapped)

drw_control :
    (now : ℕ) (c : Connection) (n : ℕ) (e : DataChannel) (w : List Effect)
    → get_or c.buffer 5 0 ≡ 0
    → 8 ≤ n
    → receive c.is_tcp
        (get_or c.buffer 5 0)
        (get_or c.buffer 6 0)
        (get_or c.buffer 7 0)
        c.control
        (drop 8 (take n c.buffer))
      ≡ some (e, w, none)
    → (v : List Effect) × (c1 : Connection) × (c1.media ≡ c.media)
      × (drw now c n ≡ some (continued (record c1 { control = e }) v))
unfolding drw select_channel
drw_control now c n e w h l r =
    let p = if c.is_tcp then keepalive now c else (c, []) in
    let kept : p.0.media ≡ c.media = ground arith in
    let open_channel : select_channel (get_or c.buffer 5 0) ≡ control = ap select_channel h in
    (p.1 ++ w, p.0, kept, rw (open_channel, drw, ltb-false n 8 l, r))

-- What the worker reads off a command in its buffer.
command_in_buffer :
    (sequence command : ℕ) (payload buffer : Bytes)
    → (get_or (fill (marshal_command 0 sequence command payload) buffer) 1 0 ≡ 208)
      × (get_or (fill (marshal_command 0 sequence command payload) buffer) 5 0 ≡ 0)
      × (8 ≤ length (marshal_command 0 sequence command payload))
unfolding marshal_command fill be16
command_in_buffer sequence command payload buffer = (refl, refl, omega arith)

command_behind_header :
    (sequence command : ℕ) (payload : Bytes)
    → drop 8 (marshal_command 0 sequence command payload) ≡ frame (body command payload)
unfolding be16
command_behind_header sequence command payload =
    ap (drop 8) (marshal_lem 0 sequence command payload)

receive_tcp :
    (tcp : Bool) (id hi lo : ℕ) (c e : DataChannel) (d : Bytes) (x : Option Fault)
    → tcp ≡ true
    → push c d ≡ some (e, x)
    → receive tcp id hi lo c d ≡ some (e, [], x)
unfolding receive
receive_tcp tcp id hi lo c e d x h r = rw (h, receive, r)

length-body : (command : ℕ) (payload : Bytes) → length (body command payload) ≡ 4 + length payload
unfolding be32
length-body command payload = omega arith

-- A command that WriteCommand wrote reaches the other side of a TCP connection whole: when its control
-- channel is between two frames, with room, and the packet fits the read buffer, one turn of the worker
-- delivers it as one frame and leaves the media channel alone. ReadCommand then gives the payload, with
-- the four bytes of the command's number in the opposite order.
pub command_delivered :
    (now command : ℕ) (payload : Bytes) (sender c : Connection)
    → command < 4294967296
    → sender.seq_ch0 < 65536
    → 16 + length payload ≤ 1200
    → c.is_tcp ≡ true
    → IsIdle c.control
    → ((c1 : Connection) × (v : List Effect) × (turn now c
            (ok (write_command command payload sender).1)
          ≡ some (continued c1 v))
        × (c1.control ≡ delivering c.control (body command payload))
        × (c1.media ≡ c.media))
      × (read_command (body command payload)
          ≡ some (
            command % 256 * 16777216
                + command / 256 % 256 * 65536
                + command / 65536 % 256 * 256
                + command / 16777216,
            payload,
          ))
unfolding turn write_command
command_delivered now command payload sender c small seq fits tcp idle =
    let packet = marshal_command 0 sender.seq_ch0 command payload in
    let filled = record c { buffer = fill packet c.buffer } in
    let (kind, id, long) = command_in_buffer sender.seq_ch0 command payload c.buffer in
    let n = length-body command payload in
    let arriving : drop 8 (take (length packet) filled.buffer) ≡ frame (body command payload) =
      ap (drop 8) (take-fill packet c.buffer)
      ∙ command_behind_header sender.seq_ch0 command payload in
    let pushed = push_whole c.control (body command payload) idle (omega arith) (omega arith) in
    let arrived = ap (push c.control) arriving ∙ pushed in
    let (v, c1, same, run) =
      drw_control now filled (length packet) (delivering c.control (body command payload)) [] id
        long
        (receive_tcp c.is_tcp (get_or filled.buffer 5 0) (get_or filled.buffer 6 0)
          (get_or filled.buffer 7 0) c.control (delivering c.control (body command payload))
          (drop 8 (take (length packet) filled.buffer)) none tcp arrived) in
    (
      (
        record c1 { control = delivering c.control (body command payload) },
        v,
        dispatch_data now filled (length packet) (ground arith) ∙ run,
        refl,
        same,
      ),
      read_command-body command payload small,
    )
