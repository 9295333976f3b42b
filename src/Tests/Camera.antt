-- ===== src/Tests/Camera.antt =====
-- The transport of the camera on concrete packets.
use go_mihome.Common.{
  ℕ, zero, suc, All, ◌+◌, ◌*◌, ◌/◌, ◌%◌, ◌≤◌, ◌<◌, ◌≡◌, ◌↔◌, refl, List, [], ◌∷◌, ◌++◌, none, some,
  arith, length, replicate, inl, true, false, if◌then◌else◌, subst,
}
use go_mihome.Common.Result.{Fault, opaque, ok}
use go_mihome.Common.Bytes.{Bytes, codes, read_be32, bytes_eq}
use go_mihome.Camera.Channel.{DataChannel, new_data_channel, push, push_seq, lookup_seq}
use go_mihome.Camera.Channel.Frames.{frames, pending, IsWired}
use go_mihome.Camera.Channel.Stream.{IsStalled, push_stream}
use go_mihome.Camera.Channel.Ahead.{IsOrdered}
use go_mihome.Camera.Channel.Order.{push_seq-IsOrdered}
use go_mihome.Camera.Channel.Sequence.{Chain, IsReady, joined, push_seq_in_order}
use go_mihome.Camera.Channel.Whole.{IsIdle, delivering}
use go_mihome.Camera.Command.{
  Connection, Effect, Outcome, continued, panicked, turn, fill, written, new_connection,
  write_command, read_command,
}
use go_mihome.Camera.Command.Safety.{Fatal, turn_panics}
use go_mihome.Camera.Command.Runs.{here, next, turned, turn_total}
use go_mihome.Camera.Command.Delivery.{body, command_delivered}
use go_mihome.Camera.Snapshot.{JpegFrame, Attempt, timed_out, arrived, new_worker, get_snapshot}
use go_mihome.Camera.Snapshot.Pipeline.{Steady, get_snapshot-Steady}
use go_mihome.Camera.Snapshot.Manager.{Descriptor, ensure_worker, ensure_worker_once}
use go_mihome.Common.Int.{pos}
use go_mihome.Common.Text.{trim_space}
use go_mihome.Common.Dict.{lookup}
use go_mihome.Camera.Payload.{encode_payload, decode_payload}
use go_mihome.Camera.Payload.RoundTrip.{decode-encode_aes}
use go_mihome.Tests.Data.{channel, quiet_channel, connection, ciphers}

quiet-IsWired : IsWired quiet_channel
quiet-IsWired = record { bytes = tt; size = omega arith }

channel-IsReady : IsReady channel
channel-IsReady = record {
  wired = record { bytes = tt; size = omega arith };
  stored = ((omega arith, tt), ((omega arith, tt), ((omega arith, tt), tt)));
}

channel-IsOrdered : IsOrdered channel
channel-IsOrdered = record {
  range = omega arith;
  ahead = (
    (omega arith, omega arith, omega arith),
    ((omega arith, omega arith, omega arith), ((omega arith, omega arith, omega arith), tt)),
  );
  few = omega arith;
}

-- A whole frame and the first byte of the next.
abbrev bytes_in : Bytes
bytes_in = 0 ∷ 0 ∷ 0 ∷ 2 ∷ 104 ∷ 105 ∷ 0 ∷ []

abbrev after_push : DataChannel
after_push = record quiet_channel { pop_buf = codes "hi" ∷ []; wait_data = 0 ∷ [] }

pushed : push quiet_channel bytes_in ≡ some (after_push, none)
unfolding push read_be32
pushed = refl

push_stream_example :
    (ps : List Bytes) × (after_push.pop_buf ≡ quiet_channel.pop_buf ++ ps)
    × (frames ps ++ pending after_push ≡ pending quiet_channel ++ bytes_in)
    × IsWired after_push
    × IsStalled after_push
push_stream_example =
    push_stream quiet_channel after_push bytes_in quiet-IsWired
      (
        omega arith,
        (
          omega arith,
          (omega arith, (omega arith, (omega arith, (omega arith, (omega arith, tt))))),
        ),
      )
      pushed

-- Packet 5 is followed by those kept under 6 and 7; 8 is missing.
abbrev after_seq : DataChannel
after_seq = record channel { wait_seq = 8; push_buf = (9, codes "e") ∷ []; wait_data = codes "abc" }

sequenced : push_seq channel 5 (codes "a") ≡ some (after_seq, some 3, none)
unfolding push_seq push
sequenced = refl

push_seq-IsOrdered_example : IsOrdered after_seq
push_seq-IsOrdered_example =
    push_seq-IsOrdered channel after_seq 5 (codes "a") (some 3) none channel-IsOrdered (omega arith)
      sequenced

push_seq_in_order_example :
    (qs : List Bytes) × Chain 5 channel.push_buf qs
    × (some 3 ≡ some (1 + length qs))
    × (after_seq.wait_seq ≡ (5 + length qs + 1) % 65536)
    × (lookup_seq after_seq.wait_seq after_seq.push_buf ≡ none)
    × ((ps : List Bytes) × (after_seq.pop_buf ≡ channel.pop_buf ++ ps)
        × (frames ps ++ pending after_seq ≡ pending channel ++ (codes "a" ++ joined qs)))
push_seq_in_order_example =
    push_seq_in_order channel after_seq (codes "a") (some 3) channel-IsReady (omega arith, tt)
      (omega arith) sequenced

quiet-IsIdle : IsIdle quiet_channel
quiet-IsIdle = record { no_data = refl; no_size = refl; room = omega arith }

quiet-IsReady : IsReady quiet_channel
quiet-IsReady = record { wired = quiet-IsWired; stored = tt }

zeros-IsBytes : (n : ℕ) → All (λ b. b < 256) (replicate n 0)
zeros-IsBytes zero = tt
zeros-IsBytes (suc n) = (omega arith, zeros-IsBytes n)

-- The second packet of the media channel, before the first.
abbrev early_packet : Bytes
early_packet = 241 ∷ 208 ∷ 0 ∷ 5 ∷ 209 ∷ 2 ∷ 0 ∷ 1 ∷ 7 ∷ []

abbrev first_packet : Bytes
first_packet = 241 ∷ 208 ∷ 0 ∷ 8 ∷ 209 ∷ 2 ∷ 0 ∷ 0 ∷ 0 ∷ 0 ∷ 0 ∷ 1 ∷ []

abbrev fresh : Connection
fresh = new_connection false

-- The packet is kept and acknowledged.
abbrev kept : Connection
kept = record fresh {
  media = record fresh.media { push_buf = (1, 7 ∷ []) ∷ [] };
  buffer = early_packet ++ replicate 1191 0;
}

early_turn :
    turn 5 fresh (ok early_packet)
    ≡ some (continued kept (written (241 ∷ 209 ∷ 0 ∷ 6 ∷ 209 ∷ 2 ∷ 0 ∷ 1 ∷ 0 ∷ 1 ∷ []) ∷ []))
unfolding turn new_connection fill new_data_channel push_seq
early_turn = refl

early-IsBytes : All (λ b. b < 256) early_packet
early-IsBytes = (
  omega arith,
  (
    omega arith,
    (
      omega arith,
      (omega arith, (omega arith, (omega arith, (omega arith, (omega arith, (omega arith, tt)))))),
    ),
  ),
)

first-IsBytes : All (λ b. b < 256) first_packet
first-IsBytes = (
  omega arith,
  (
    omega arith,
    (
      omega arith,
      (
        omega arith,
        (
          omega arith,
          (
            omega arith,
            (
              omega arith,
              (omega arith, (omega arith, (omega arith, (omega arith, (omega arith, tt))))),
            ),
          ),
        ),
      ),
    ),
  ),
)

turn_total_example : (o : Outcome) × (turn 6 kept (ok first_packet) ≡ some o)
turn_total_example =
    turn_total false 6 kept (ok first_packet)
      (next here (turned 5 early_packet kept _ early-IsBytes early_turn))
      (λ d e.
        let is : first_packet ≡ d = ground arith in subst (All (λ b. b < 256)) is first-IsBytes)

-- A DRW message for channel 9.
abbrev bad_packet : Bytes
bad_packet = 241 ∷ 208 ∷ 0 ∷ 4 ∷ 209 ∷ 9 ∷ 0 ∷ 0 ∷ []

turn_panics_example :
    (turn 0 connection (ok bad_packet) ≡ some panicked)
    ↔ Fatal (fill bad_packet connection.buffer) (length bad_packet)
turn_panics_example = turn_panics 0 connection bad_packet

command_delivered_example :
    ((c1 : Connection) × (v : List Effect) × (turn 0 connection
          (ok (write_command 256 (codes "{}") connection).1)
        ≡ some (continued c1 v))
      × (c1.control ≡ delivering connection.control (body 256 (codes "{}")))
      × (c1.media ≡ connection.media))
    × (read_command (body 256 (codes "{}"))
        ≡ some (
          256 % 256 * 16777216 + 256 / 256 % 256 * 65536 + 256 / 65536 % 256 * 256 + 256 / 16777216,
          codes "{}",
        ))
command_delivered_example =
    command_delivered 0 256 (codes "{}") connection connection (omega arith) (omega arith)
      (omega arith) refl quiet-IsIdle

abbrev shared_key : Bytes
shared_key = replicate 32 1

decode-encode_aes_example :
    (w : Bytes) × (encode_payload ciphers (codes "{}") shared_key 1 (λ n. ok (replicate n 3))
      ≡ ok w)
    × (decode_payload ciphers w shared_key 1 ≡ ok (codes "{}"))
    × (length (codes "{}") + 36 ≤ length w)
decode-encode_aes_example =
    decode-encode_aes ciphers (codes "{}") shared_key (replicate 16 3) 1 (λ n. ok (replicate n 3))
      (inl refl) (omega arith) refl refl

abbrev gone : Fault
gone = opaque "miot camera frame unavailable"

abbrev picture : JpegFrame
picture = record { payload = codes "jpeg"; captured_at = 0 }

abbrev first_try : Attempt
first_try = record { outcome = none; now = 100; how = timed_out }

abbrev second_try : Attempt
second_try = record { outcome = none; now = 200; how = arrived 300 picture }

get_snapshot-Steady_example :
    Steady 2 new_worker (get_snapshot gone (λ e. false) (λ e. true) first_try second_try new_worker)
unfolding new_worker
get_snapshot-Steady_example =
    get_snapshot-Steady gone (λ e. false) (λ e. true) first_try second_try new_worker tt

abbrev descriptor : Descriptor
descriptor = record {
  camera_id = codes " cam ";
  model = codes "m";
  region = codes "cn";
  access_token = codes "old";
  channel_count = pos 0;
  video_quality = [];
}

abbrev renewed : Descriptor
renewed = record descriptor { access_token = codes "new" }

ensure_worker_once_example :
    let (after, m) = ensure_worker descriptor [] in
    (ensure_worker renewed after ≡ (after, m))
    × (lookup (trim_space (codes " cam ")) after ≡ some m)
    × (lookup (codes "cam") after ≡ (
        if bytes_eq (trim_space (codes " cam ")) (codes "cam")
        then some m
        else lookup (codes "cam") []))
ensure_worker_once_example = ensure_worker_once descriptor renewed (codes "cam") [] refl
