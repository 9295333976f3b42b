-- ===== src/Lan/Padding.antt =====
-- lan_types.go: the PKCS#7 padding of the encrypted payload. The block size is not 0.
pub mod RoundTrip
use go_mihome.Common.{
  ℕ, zero, suc, ◌+◌, ◌-◌, ◌%◌, List, [], ◌∷◌, ◌++◌, Bool, true, false, ◌&&◌, ◌||◌, ◌==◌, ltb, not,
  if◌then◌else◌, length, get_or, take, drop, replicate,
}
use go_mihome.Common.Result.{Result, ok, err, Fault, fault, invalid_response, fail_if, ◌>>=◌, ◌>>◌}
use go_mihome.Common.Bytes.{Bytes}

pad_length : ℕ → ℕ → ℕ
pad_length n block_size =
    let pad_len = block_size - n % block_size in if pad_len == 0 then block_size else pad_len

unfoldable pub pkcs7_pad : Bytes → ℕ → Bytes
unfolding pad_length
pkcs7_pad d block_size =
    let pad_len = pad_length (length d) block_size in d ++ replicate pad_len (pad_len % 256)

-- The loop over the padding bytes.
all_equal : ℕ → Bytes → Bool
all_equal v [] = true
all_equal v (b ∷ bs) = b == v && all_equal v bs

abbrev pub bad_padding : Fault
bad_padding = fault invalid_response "unpad lan packet" "invalid padding"

unfoldable pub pkcs7_unpad : Bytes → ℕ → Result Bytes
unfolding all_equal
pkcs7_unpad d block_size =
    let pad_len = get_or d (length d - 1) 0 in
    do
      fail_if (length d == 0 || not (length d % block_size == 0))
          (fault invalid_response "unpad lan packet" "invalid padded payload length")
      fail_if (pad_len == 0 || (ltb block_size pad_len || ltb (length d) pad_len)) bad_padding
      fail_if (not (all_equal pad_len (drop (length d - pad_len) d))) bad_padding
      ok (take (length d - pad_len) d)
