-- ===== src/Tests/Mips.antt =====
-- MIPS messages and decimal numbers on concrete inputs.
use go_mihome.Common.{true, ◌≡◌, refl, List, [], ◌∷◌, none, some, arith}
use go_mihome.Common.Result.{ok}
use go_mihome.Common.Bytes.{Bytes, codes, bytes_eq}
use go_mihome.Mips.Message.{Message, pack, unpack}
use go_mihome.Mips.Message.Fields.{IsPackable, trimmed}
use go_mihome.Mips.Message.Framing.{unpack-pack}
use go_mihome.Mips.Client.{
  MipsBaseConfig, MipsClient, new_mips_client, handle_reply, Event, requested, abandoned, history,
}
use go_mihome.Mips.Client.{request as send}
use go_mihome.Mips.Client.Replies.{reply_reaches}
use go_mihome.Mips.Topic.{split}
use go_mihome.Mips.Topic.Literal.{IsLiteral}
use go_mihome.Tests.Data.{request}

request-IsPackable : IsPackable request
request-IsPackable = record {
  id_fits = omega arith;
  from_fits = omega arith;
  reply_topic_fits = omega arith;
  payload_fits = omega arith;
}

unpack-pack_example : unpack (pack request) ≡ some (ok (trimmed request))
unpack-pack_example = unpack-pack request request-IsPackable

abbrev mips_config : MipsBaseConfig
mips_config = record {
  reply_topic = codes "ha/reply";
  strip_prefix = codes "master/";
  decode_envelope = true;
}

abbrev mips_client : MipsClient
mips_client = new_mips_client true mips_config

abbrev sent : Message
sent = record { id = 1; from = codes "ha"; reply_topic = codes "ha/reply"; payload = codes "{}" }

abbrev reply : Message
reply = record { id = 1; from = codes "hub"; reply_topic = []; payload = codes "ok" }

reply-IsPackable : IsPackable reply
reply-IsPackable = record {
  id_fits = omega arith;
  from_fits = omega arith;
  reply_topic_fits = omega arith;
  payload_fits = omega arith;
}

abbrev meanwhile : List Event
meanwhile = requested 10 request none ∷ abandoned 2 ∷ []

requested_first : (send 9 request none mips_client).1 ≡ ok (sent, pack sent)
unfolding send new_mips_client
requested_first = refl

reply_reaches_example :
    let d = history meanwhile (send 9 request none mips_client).0 in
    ((handle_reply (pack reply) d).1 ≡ some (9, trimmed reply))
    × ((handle_reply (pack reply) (handle_reply (pack reply) d).0).1 ≡ none)
unfolding new_mips_client
reply_reaches_example =
    reply_reaches 9 request sent reply (pack sent) none mips_client meanwhile refl (omega arith)
      requested_first (omega arith) (tt, ((λ e. omega arith), tt)) refl reply-IsPackable

abbrev topic : Bytes
topic = codes "a/b"

topic-IsLiteral : IsLiteral (split topic)
unfolding split bytes_eq
topic-IsLiteral = ((refl, refl), ((refl, refl), tt))
