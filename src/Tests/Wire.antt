-- ===== src/Tests/Wire.antt =====
-- Concrete runs for the wire formats, the relay connection, the backoff and the addresses.
use mathlib.Core.List.{flatten}
use polymorph_iroh.Base.{
  ℕ, ◌+◌, ◌*◌, ◌≡◌, ◌↔◌, refl, true, none, some, List, [], ◌∷◌, ◌++◌, map, length, take, drop,
  replicate, All, Bytes, codes, bytes_beq, arith,
}
use polymorph_iroh.Frames.{
  Datagram, datagram_from, ClientAuth, split_tag, encode_client_auth, decode_relay_datagrams,
}
use polymorph_iroh.Frames.Varint.{varint, split_tag-varint}
use polymorph_iroh.Frames.Datagrams.{Cut, IsSegment, decode_batch_segments}
use polymorph_iroh.Relay.{
  ok, Received, binary, Turn, RelayConn, relay_url, until_slash, split_scheme, ws_scheme,
  probe_step, healthy, ping, dead,
}
use polymorph_iroh.Relay.Receive.{
  Takes, inbound, owed, recv_datagram, recv_datagram-Takes, relayed, delivered,
}
use polymorph_iroh.Relay.Send.{send_datagram, sent_delivers}
use polymorph_iroh.Frames.Tag
use polymorph_iroh.Relay.Handshake.{Env, done, handshake}
use polymorph_iroh.Relay.Handshake.Runs.{Authenticates, handshake_iff}
use polymorph_iroh.Relay.Probe.{silent_wire_dies}
use polymorph_iroh.Net.{SocketAddr, v6}

-- A key of 32 bytes and a signature of 64.
abbrev key : Bytes
key = replicate 32 7

abbrev signature : Bytes
signature = replicate 64 9

abbrev key_sized : length key ≡ 32
key_sized = refl

split_tag-varint_example : split_tag (varint 300 ++ (7 ∷ [])) ≡ some (300, 7 ∷ [])
split_tag-varint_example = split_tag-varint 300 (7 ∷ []) (omega arith)

decode_batch_segments_example :
    (ds : List Datagram) × (decode_relay_datagrams (key ++ (1 ∷ 0 ∷ 2 ∷ (5 ∷ 6 ∷ 7 ∷ []))) true
      ≡ some ds)
    × (flatten (map Datagram.payload ds) ≡ 5 ∷ 6 ∷ 7 ∷ [])
    × Cut (0 * 256 + 2) (map Datagram.payload ds)
    × All (IsSegment key (0 * 256 + 2)) ds
decode_batch_segments_example =
    decode_batch_segments key key_sized 1 0 2 (5 ∷ 6 ∷ 7 ∷ []) (omega arith)

-- postcard's bytes for the struct.
abbrev to_extend : ClientAuth → Bytes → Bytes
to_extend c buffer = buffer ++ (c.public_key ++ (length c.signature ∷ c.signature))

abbrev idle : RelayConn
idle = record { pending = []; last_inbound = 100; probe = none; probe_seq = 0 }

abbrev turn : ℕ → Received → Turn
turn now received = record { now = now; received = received; sent = none }

-- A ping, then a datagram, then one more that stays on the wire.
abbrev script : List Turn
script =
    turn 10 (binary (9 ∷ replicate 8 1))
    ∷ turn 20 (binary (6 ∷ (key ++ (0 ∷ 5 ∷ []))))
    ∷ turn 30 (binary (6 ∷ (key ++ (0 ∷ 6 ∷ []))))
    ∷ []

recv_datagram-Takes_example :
    Takes (idle.pending ++ inbound script) (owed script) (recv_datagram idle script)
recv_datagram-Takes_example = recv_datagram-Takes idle script

sent_delivers_example :
    (body : Bytes) × (split_tag (send_datagram key (5 ∷ 6 ∷ []) none).0
      ≡ some (Tag.client_to_relay_datagram, body))
    × (take 32 body ≡ key)
    × (recv_datagram idle (relayed 140 (replicate 32 3) (drop 32 body) ∷ script)
        ≡ delivered
            (datagram_from (replicate 32 3) (5 ∷ 6 ∷ []))
            (record idle { pending = []; last_inbound = 140 })
            script
            [])
sent_delivers_example =
    sent_delivers key (replicate 32 3) (5 ∷ 6 ∷ []) none 140 idle script key_sized refl refl

-- A key's owner who signs anything, with a hash that forgets its input.
abbrev env : Env
env = record {
  endpoint_id = key;
  sign = λ message. some signature;
  sign_error = [];
  derive_key = λ domain message. key;
  to_extend = to_extend;
  from_bytes = λ payload. some payload;
  from_utf8_lossy = λ payload. payload;
}

abbrev challenge : Bytes
challenge = replicate 16 3

abbrev greeting : List Turn
greeting = turn 5 (binary (0 ∷ challenge)) ∷ turn 6 (binary (2 ∷ [])) ∷ []

handshake_iff_example :
    (handshake env greeting ≡ done 6 [] (encode_client_auth to_extend key signature ∷ []))
    ↔ Authenticates env greeting 6 [] (encode_client_auth to_extend key signature ∷ [])
handshake_iff_example =
    handshake_iff env greeting [] 6 (encode_client_auth to_extend key signature ∷ [])

silent_wire_dies_example :
    (payload : Bytes) × (pinged : RelayConn) × (probe_step idle 120 10 40 ≡ (ping payload, pinged))
    × (probe_step pinged 130 10 40 ≡ (healthy, pinged))
    × (probe_step pinged 170 10 40 ≡ (dead, pinged))
silent_wire_dies_example =
    silent_wire_dies idle 120 130 170 10 40 refl (omega arith) (omega arith) (omega arith)
      (omega arith)

url_made : relay_url (codes "https://r.example/x") ≡ ok (codes "wss://r.example/relay")
unfolding relay_url split_scheme until_slash ws_scheme bytes_beq
url_made = refl

abbrev scoped : SocketAddr
scoped = v6 (replicate 8 1) 80 0 2
