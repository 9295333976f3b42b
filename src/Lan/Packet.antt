-- ===== src/Lan/Packet.antt =====
-- lan_types.go: the device codec. MD5, the block cipher of AES and encoding/json are parameters; the
-- padding, CBC, the header and all tests are modelled.
pub mod RoundTrip
pub mod Integrity
use Prim.Native.String.{String}
use go_mihome.Common.{
  ℕ, zero, suc, ◌+◌, ◌-◌, ◌%◌, ◌/◌, ◌≡◌, List, [], ◌∷◌, ◌++◌, Option, none, some, Bool, true, false,
  ◌||◌, not, ◌==◌, ltb, if◌then◌else◌, length, take, drop,
}
use go_mihome.Common.Result.{
  Result, ok, err, Fault, fault, wrapped, opaque, invalid_argument, invalid_response, fail_if,
  or_fail, ◌>>=◌, ◌>>◌,
}
use go_mihome.Common.Bytes.{Bytes, be16, be32, be64, read_be16, bytes_eq}
use go_mihome.Common.Decimal.{parse_uint}
use go_mihome.Common.Hex.{hex_decode}
use go_mihome.Common.Cipher.{BlockCipher, cbc_encrypt, cbc_decrypt}
use go_mihome.Mips.Message.{trim}
use go_mihome.Lan.Padding.{pkcs7_pad, pkcs7_unpad}

-- A decoded message; params and result are raw JSON.
pub record LanMessage : Type 0 where
  pub id : ℕ
  pub method : Bytes
  pub params : Bytes
  pub result : Bytes
  pub code : ℕ
  pub error : Bytes

pub record LanRequest : Type 0 where
  pub id : ℕ
  pub method : Bytes
  pub params : Bytes

pub record LanResponse : Type 0 where
  pub id : ℕ
  pub result : Bytes
  pub code : ℕ
  pub error : Bytes

-- crypto/md5, crypto/aes and encoding/json. A digest has 16 bytes.
pub record Primitives : Type 0 where
  pub md5 : Bytes → Bytes
  pub length-md5 : (p : Bytes) → length (md5 p) ≡ 16
  pub aes : BlockCipher
  pub marshal : LanMessage → Option Bytes
  pub unmarshal : Bytes → Option LanMessage

pub record LanDeviceConfig : Type 0 where
  pub did : Bytes
  pub token : Bytes
  pub ip : Bytes
  pub interface : Bytes
  pub offset : ℕ

-- `key` stands for the cipher.Block that NewLANDevice makes of it.
pub record LanDevice : Type 0 where
  pub did : Bytes
  pub token : Bytes
  pub ip : Bytes
  pub if_name : Bytes
  pub offset : ℕ
  pub key : Bytes
  pub iv : Bytes

abbrev pub lan_packet_magic : ℕ
lan_packet_magic = 0x2131

abbrev pub lan_header_length : ℕ
lan_header_length = 32

abbrev pub block_size : ℕ
block_size = 16

abbrev parse_fault : String → Fault
parse_fault msg = fault invalid_response "parse lan packet" msg

-- UpdateRoute: an empty text leaves the field as it was.
unfoldable pub update_route : LanDevice → Bytes → Bytes → LanDevice
update_route d ip if_name =
    let d = (if bytes_eq ip [] then d else record d { ip = ip }) in
    if bytes_eq if_name [] then d else record d { if_name = if_name }

-- The packet with the token in the place of the checksum. The token has 16 bytes, since
-- new_lan_device checks it, so that it fills the place.
unfoldable pub raw_packet : LanDevice → ℕ → Bytes → Bytes
raw_packet d did encrypted =
    be16 lan_packet_magic
    ++ (be16 ((lan_header_length + length encrypted) % 65536)
        ++ (be64 did ++ (be32 d.offset ++ (d.token ++ encrypted))))

-- The bytes that the checksum is taken over: the packet with the token in the checksum's place.
unfoldable pub check_buffer : LanDevice → Bytes → Bytes
check_buffer d packet = take 16 packet ++ (d.token ++ drop 32 packet)

module _ (prim : Primitives) where
  -- aes.NewCipher cannot fail: the key is a digest, of 16 bytes.
  unfoldable pub new_lan_device : LanDeviceConfig → Result LanDevice
  new_lan_device cfg = do
    token ←
        or_fail (hex_decode cfg.token)
          (wrapped invalid_argument "new lan device" (opaque "encoding/hex"))
    fail_if (not (length token == 16))
        (fault invalid_argument "new lan device" "token must decode to 16 bytes")
    ok (record {
      did = cfg.did;
      token = token;
      ip = cfg.ip;
      if_name = cfg.interface;
      offset = cfg.offset;
      key = prim.md5 token;
      iv = prim.md5 (prim.md5 token ++ token);
    })

  -- CryptBlocks on the whole blocks of a text.
  unfoldable pub encrypt_payload : LanDevice → Bytes → Bytes
  encrypt_payload d clear = cbc_encrypt prim.aes d.key (length clear / block_size) d.iv clear

  unfoldable pub decrypt_payload : LanDevice → Bytes → Bytes
  decrypt_payload d encrypted =
      cbc_decrypt prim.aes d.key (length encrypted / block_size) d.iv encrypted

  unfoldable pub build_packet_message : LanDevice → LanMessage → Result Bytes
  unfolding encrypt_payload raw_packet
  build_packet_message d msg = do
    payload ← or_fail (prim.marshal msg) (opaque "encoding/json")
    let encrypted = encrypt_payload d (pkcs7_pad payload block_size)
    did ←
        or_fail (parse_uint d.did) (wrapped invalid_argument "build lan packet" (opaque "strconv"))
    let packet = raw_packet d did encrypted
    ok (take 16 packet ++ (prim.md5 packet ++ drop 32 packet))

  unfoldable pub build_packet : LanDevice → LanRequest → Result Bytes
  unfolding build_packet_message
  build_packet d req = build_packet_message d (record {
    id = req.id;
    method = req.method;
    params = req.params;
    result = [];
    code = 0;
    error = [];
  })

  unfoldable pub build_response_packet : LanDevice → LanResponse → Result Bytes
  unfolding build_packet_message
  build_response_packet d resp = build_packet_message d (record {
    id = resp.id;
    method = [];
    params = [];
    result = resp.result;
    code = resp.code;
    error = resp.error;
  })

  -- The payload once the checksum has been accepted.
  unfoldable pub open_payload : LanDevice → Bytes → Result LanMessage
  unfolding decrypt_payload
  open_payload d encrypted = do
    fail_if (not (length encrypted % block_size == 0))
        (parse_fault "encrypted payload is not block aligned")
    clear ← pkcs7_unpad (decrypt_payload d encrypted) block_size
    or_fail (prim.unmarshal (trim clear))
        (wrapped invalid_response "decode lan packet" (opaque "encoding/json"))

  unfoldable pub parse_packet : LanDevice → Bytes → Result LanMessage
  unfolding check_buffer open_payload
  parse_packet d packet =
      let packet_len = read_be16 (drop 2 packet) in
      do
        fail_if (ltb (length packet) lan_header_length) (parse_fault "packet too short")
        fail_if (not (read_be16 packet == lan_packet_magic)) (parse_fault "invalid packet magic")
        fail_if (ltb (length packet) packet_len || ltb packet_len lan_header_length)
            (parse_fault "invalid packet length")
        fail_if
            (not (
              bytes_eq (take 16 (drop 16 packet))
                (prim.md5 (check_buffer d (take packet_len packet)))))
            (parse_fault "invalid packet checksum")
        open_payload d (drop 32 (take packet_len packet))
