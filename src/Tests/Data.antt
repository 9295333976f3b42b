-- ===== src/Tests/Data.antt =====
-- Test data: ciphers, digests and an encoder that stand for the libraries', devices, clients, channels.
use go_mihome.Common.{
  ◌%◌, refl, [], ◌∷◌, none, some, true, false, length, replicate, length-replicate,
}
use go_mihome.Common.Bytes.{Bytes, codes}
use go_mihome.Common.Cipher.{BlockCipher}
use go_mihome.Lan.Packet.{LanMessage, Primitives, LanDevice, LanDeviceConfig}
use go_mihome.Mips.Message.{Message}
use go_mihome.Camera.Channel.{DataChannel}
use go_mihome.Camera.Command.{Connection}
use go_mihome.Camera.Payload.{Ciphers}

-- A block cipher that leaves its blocks as they are.
abbrev pub plain_cipher : BlockCipher
plain_cipher = record {
  encrypt = λ k b. b;
  decrypt = λ k b. b;
  length-encrypt = λ k b h. h;
  decrypt-encrypt = λ k b h. refl;
}

abbrev pub message_of : Bytes → LanMessage
message_of p = record { id = 0; method = p; params = []; result = []; code = 0; error = [] }

-- A message is encoded as its method; the digest of a text is its length, sixteen times.
abbrev pub primitives : Primitives
primitives = record {
  md5 = λ p. replicate 16 (length p % 256);
  length-md5 = λ p. length-replicate 16 (length p % 256);
  aes = plain_cipher;
  marshal = λ m. some m.method;
  unmarshal = λ p. some (message_of p);
}

abbrev pub ciphers : Ciphers
ciphers = record {
  aes = plain_cipher;
  chacha = λ k n d. d;
  length-chacha = λ k n d. refl;
  chacha_twice = λ k n d. refl;
}

abbrev pub lamp : LanDevice
lamp = record {
  did = codes "42";
  token = replicate 16 7;
  ip = codes "192.168.1.9";
  if_name = codes "eth0";
  offset = 100;
  key = replicate 16 16;
  iv = replicate 16 32;
}

abbrev pub lamp_config : LanDeviceConfig
lamp_config = record {
  did = codes "42";
  token = codes "07070707070707070707070707070707";
  ip = codes "192.168.1.9";
  interface = codes "eth0";
  offset = 100;
}

abbrev pub greeting : LanMessage
greeting = message_of (codes "hello")

abbrev pub request : Message
request = record { id = 7; from = codes "ha"; reply_topic = codes "ha/reply"; payload = codes "{}" }

abbrev pub channel : DataChannel
channel = record {
  wait_seq = 5;
  push_buf = (6, codes "b") ∷ (7, codes "c") ∷ (9, codes "e") ∷ [];
  push_size = 4;
  wait_data = [];
  wait_size = 0;
  pop_buf = [];
  pop_size = 10;
}

abbrev pub quiet_channel : DataChannel
quiet_channel = record channel { push_buf = [] }

abbrev pub connection : Connection
connection = record {
  is_tcp = true;
  fault = none;
  seq_ch0 = 3;
  control = quiet_channel;
  media = quiet_channel;
  cmd_ack = false;
  buffer = replicate 16 0;
  keepalive_at = 0;
}
