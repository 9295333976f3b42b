-- ===== src/Camera/Channel.antt =====
-- camera/native_cs2.go: one data channel, which puts packets in order and cuts their bytes into frames.
-- A Go channel with a buffer is the list of what it holds, oldest first, with its capacity.
pub mod Frames
pub mod Stream
pub mod Ahead
pub mod Order
pub mod Sequence
pub mod Whole
pub mod Kept
use go_mihome.Common.{
  ℕ, zero, suc, ◌+◌, ◌-◌, ◌%◌, List, [], ◌∷◌, ◌++◌, Option, none, some, Bool, true, false, ◌==◌,
  ltb, if◌then◌else◌, length, take, drop,
}
use go_mihome.Common.Result.{Fault, opaque}
use go_mihome.Common.Bytes.{Bytes, read_be32}

pub record DataChannel : Type 0 where
  pub wait_seq : ℕ
  pub push_buf : List (ℕ × Bytes)
  pub push_size : ℕ
  pub wait_data : Bytes
  pub wait_size : ℕ
  pub pop_buf : List Bytes
  pub pop_size : ℕ

unfoldable pub new_data_channel : ℕ → ℕ → DataChannel
new_data_channel push_size pop_size = record {
  wait_seq = 0;
  push_buf = [];
  push_size = push_size;
  wait_data = [];
  wait_size = 0;
  pop_buf = [];
  pop_size = pop_size;
}

-- How a round of the loop in Push ends: the loop goes on, or it is left with or without an error.
pub data Round : Type 0 where
  again : DataChannel → Round
  done : DataChannel → Round
  full : DataChannel → Round

-- The size of the next frame is read once, when it is not known yet.
pub read_size : DataChannel → DataChannel
read_size c =
    if c.wait_size == 0
    then record c { wait_size = read_be32 c.wait_data; wait_data = drop 4 c.wait_data }
    else c

-- A frame that is complete goes to the reader, if the buffer has room.
pub pop_frame : DataChannel → Round
pop_frame c =
    if ltb (length c.wait_data) c.wait_size
    then done c
    else if ltb (length c.pop_buf) c.pop_size
    then again (record c {
      pop_buf = c.pop_buf ++ take c.wait_size c.wait_data ∷ [];
      wait_data = drop c.wait_size c.wait_data;
      wait_size = 0;
    })
    else full c

pub push_round : DataChannel → Round
unfolding read_size pop_frame
push_round c = if ltb 4 (length c.wait_data) then pop_frame (read_size c) else done c

abbrev pub pop_full : Fault
pop_full = opaque "cs2 pop buffer is full"

-- The loop; `none` means that the fuel ran out.
pub push_loop : ℕ → DataChannel → Option (DataChannel × Option Fault)
unfolding push_round
push_loop zero c = none
push_loop (suc f) c = elim (push_round c) [
  | again d ↦ push_loop f d
  | done d ↦ some (d, none)
  | full d ↦ some (d, some pop_full)
]

-- A round that goes on takes a byte at least.
unfoldable pub push : DataChannel → Bytes → Option (DataChannel × Option Fault)
unfolding push_loop
push c buffer =
    push_loop (suc (length (c.wait_data ++ buffer)))
      (record c { wait_data = c.wait_data ++ buffer })

-- The packets that came too early, by sequence number.
pub lookup_seq : ℕ → List (ℕ × Bytes) → Option Bytes
lookup_seq k [] = none
lookup_seq k ((j, p) ∷ m) = if j == k then some p else lookup_seq k m

pub delete_seq : ℕ → List (ℕ × Bytes) → List (ℕ × Bytes)
delete_seq k [] = []
delete_seq k ((j, p) ∷ m) = let rest = delete_seq k m in if j == k then rest else (j, p) ∷ rest

-- `int16(sequence - c.waitSeq)` as a number: 0, positive below 32768, and negative from there on.
abbrev pub distance : ℕ → ℕ → ℕ
distance sequence wait = (sequence + 65536 - wait) % 65536

-- The loop of PushSeq over the packets that are next: how many were pushed, and the error.
abbrev Pushed : Type 0
Pushed = DataChannel × ℕ × Option Fault

pub drain : ℕ → ℕ → Bytes → DataChannel → Option Pushed
unfolding push lookup_seq delete_seq
drain zero count payload c = none
drain (suc f) count payload c = elim (push c payload) [
  | none ↦ none
  | some (d, some e) ↦ some (d, count, some e)
  | some (d, none) ↦
      let seq = (d.wait_seq + 1) % 65536 in
      elim (lookup_seq seq d.push_buf) [
        | none ↦ some (record d { wait_seq = seq }, count, none)
        | some next ↦
            drain f (count + 1) next
              (record d { wait_seq = seq; push_buf = delete_seq seq d.push_buf })
      ]
]

-- A packet ahead of its turn is kept; `none` for the count stands for -1, which is not acknowledged.
pub keep_early : ℕ → Bytes → DataChannel → DataChannel × Option ℕ
unfolding lookup_seq
keep_early sequence payload c =
    if c.push_size == 0 then (c, none) else elim (lookup_seq sequence c.push_buf) [
      | some p ↦ (c, some 0)
      | none ↦
          if length c.push_buf == c.push_size
          then (c, none)
          else (record c { push_buf = c.push_buf ++ (sequence, payload) ∷ [] }, some 0)
    ]

abbrev with_count : Option Pushed → Option (DataChannel × Option ℕ × Option Fault)
with_count none = none
with_count (some (d, n, e)) = some (d, some n, e)

unfoldable pub push_seq : DataChannel → ℕ → Bytes → Option (DataChannel × Option ℕ × Option Fault)
unfolding drain keep_early
push_seq c sequence payload =
    if distance sequence c.wait_seq == 0
    then with_count (drain (suc (length c.push_buf)) 1 payload c)
    else if ltb (distance sequence c.wait_seq) 32768
    then (let (d, n) = keep_early sequence payload c in some (d, n, none))
    else some (c, some 0, none)

-- Pop takes the oldest frame; `none` where it would wait.
unfoldable pub pop : DataChannel → Option (Bytes × DataChannel)
pop c = elim c.pop_buf [ [] ↦ none | frame ∷ rest ↦ some (frame, record c { pop_buf = rest }) ]
