-- ===== src/Relay/Send.antt =====
-- `send_datagram` and `send_ping` of core/src/relay.rs: the frame that each sends, and its result by
-- the error of the websocket's send, if that fails.
use polymorph_iroh.Base.{
  ℕ, ◌≡◌, Option, none, some, List, [], ◌∷◌, ◌++◌, length, take, drop, take-append, drop-append,
  Bytes, arith,
}
use polymorph_iroh.Frames.{datagram_from, split_tag, encode_client_datagram, encode_ping}
use polymorph_iroh.Frames.Tag
use polymorph_iroh.Relay.{Fault, relay_send, relay_ping, Result, ok, err, Turn, RelayConn}
use polymorph_iroh.Relay.Receive.{delivered, recv_datagram, relayed, recv_datagram-relayed}
use polymorph_iroh.Frames.Varint.{one_byte}

abbrev sent_as : (Bytes → Fault) → Option Bytes → Result (Unit {0})
sent_as fault none = ok tt
sent_as fault (some e) = err (fault e)

unfoldable pub send_datagram : Bytes → Bytes → Option Bytes → Bytes × Result (Unit {0})
send_datagram dst payload failure = (encode_client_datagram dst payload, sent_as relay_send failure)

unfoldable pub send_ping : Bytes → Option Bytes → Bytes × Result (Unit {0})
send_ping payload failure = (encode_ping payload, sent_as relay_ping failure)

-- The frame of `send_datagram` carries the client's tag, the destination and a rest. When a relay
-- hands that rest on with a sender's key in the destination's place and its own tag, the peer's
-- `recv_datagram` delivers the payload that was sent, whole, from that sender, if nothing was
-- pending; it sends nothing and stamps the connection.
pub sent_delivers :
    (dst source payload : Bytes) (failure : Option Bytes) (now : ℕ) (conn : RelayConn)
    (ts : List Turn)
    → length dst ≡ 32
    → length source ≡ 32
    → conn.pending ≡ []
    → (body : Bytes) × (split_tag (send_datagram dst payload failure).0
        ≡ some (Tag.client_to_relay_datagram, body))
      × (take 32 body ≡ dst)
      × (recv_datagram conn (relayed now source (drop 32 body) ∷ ts)
          ≡ delivered
              (datagram_from source payload)
              (record conn { pending = []; last_inbound = now })
              ts
              [])
unfolding send_datagram encode_client_datagram
sent_delivers dst source payload failure now conn ts hd hs idle =
    let body = dst ++ (0 ∷ payload) in
    (
      body,
      one_byte Tag.client_to_relay_datagram body (omega arith),
      take-append 32 dst (0 ∷ payload) hd,
      rw (drop-append 32 dst (0 ∷ payload) hd)
          (recv_datagram-relayed source payload now conn ts hs idle),
    )
