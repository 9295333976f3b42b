-- ===== src/Camera/Command/Tcp.antt =====
-- camera/native_cs2.go: the frames of the TCP transport, miHomeCS2TCPConn.
use go_mihome.Common.{
  ℕ, ◌%◌, ◌≤◌, ◌<◌, ◌≡◌, [], ◌∷◌, ◌++◌, ◌==◌, ltb, if◌then◌else◌, length, take, drop, arith,
  length-append, ltb-false, take-length, drop-length,
}
use go_mihome.Common.Result.{opaque, Result, ok, err, fail_if, ◌>>=◌, ◌>>◌}
use go_mihome.Common.Bytes.{Bytes, be16, read_be16}

unfoldable pub tcp_write : Bytes → Bytes
tcp_write d = be16 (length d % 65536) ++ (104 ∷ 0 ∷ 0 ∷ 0 ∷ 0 ∷ 0 ∷ []) ++ d

-- `io.ReadFull` of n bytes from what the peer has sent before it closed.
pub read_full : ℕ → Bytes → Result (Bytes × Bytes)
read_full n stream =
    if ltb (length stream) n
    then err (opaque (if length stream == 0 then "EOF" else "unexpected EOF"))
    else ok (take n stream, drop n stream)

-- Read into a buffer of the given size: the bytes, and the rest of the stream.
unfoldable pub tcp_read : ℕ → Bytes → Result (Bytes × Bytes)
unfolding read_full
tcp_read size stream = do
  (header, rest) ← read_full 8 stream
  let n = read_be16 header
  fail_if (ltb size n) (opaque "cs2 tcp: buffer too small")
  read_full n rest

read_full-append : (d r : Bytes) → read_full (length d) (d ++ r) ≡ ok (d, r)
unfolding read_full
read_full-append d r =
    let long = length-append d r in
    rw (ltb-false (length (d ++ r)) (length d) (omega arith), take-length d r, drop-length d r)

-- What one side writes with Write, the other side reads with Read, and the stream goes on behind it:
-- for every message that fits the reader's buffer, which is of less than 65536 bytes.
pub tcp_read-tcp_write :
    (size : ℕ) (d r : Bytes)
    → length d ≤ size
    → size < 65536
    → tcp_read size (tcp_write d ++ r) ≡ ok (d, r)
unfolding tcp_read tcp_write be16 read_be16
tcp_read-tcp_write size d r h s =
    let header = be16 (length d % 65536) ++ (104 ∷ 0 ∷ 0 ∷ 0 ∷ 0 ∷ 0 ∷ []) in
    let n : read_be16 header ≡ length d = omega arith in
    rw (read_full-append header (d ++ r), n, ltb-false size (length d) h) (read_full-append d r)
