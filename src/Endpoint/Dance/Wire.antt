-- ===== src/Endpoint/Dance/Wire.antt =====
-- `ChannelWire` of endpoint/src/webrtc.rs: a negotiated channel as a carrier of datagrams. The data
-- channels are parameters.
use polymorph_iroh.Base.{
  ℕ, ◌≡◌, refl, ap, ◌∙◌, Option, none, some, ◌++◌, Bytes, codes, ◌⊎◌, inl, inr,
}

-- `Message` of a channel.
pub data ChannelMessage : Type 0 where
  binary string : Bytes → ChannelMessage

-- The data channels and the peer connections, by their handles. A call that fails gives its text.
pub record Channels : Type 1 where
  pub Net : Type 0
  pub send : (channel : ℕ) → ChannelMessage → Net → Net × (Bytes ⊎ Unit {0})
  pub receive : (channel : ℕ) → Net → Net × (Bytes ⊎ ChannelMessage)
  pub close_channel : (channel : ℕ) → Net → Net
  pub close_peer : (peer_conn : ℕ) → Net → Net

pub record ChannelWire : Type 0 where
  pub peer_conn : ℕ
  pub channel : ℕ

unfoldable channel_error : Bytes → Bytes
channel_error text = codes "data channel: " ++ text

-- A text message is skipped.
unfoldable of_message : Bytes ⊎ ChannelMessage → Bytes ⊎ Option Bytes
of_message (inr (binary datagram)) = inr (some datagram)
of_message (inr (string text)) = inr none
of_message (inl text) = inl (channel_error text)

unfoldable of_sent : Bytes ⊎ Unit {0} → Bytes ⊎ Unit {0}
of_sent (inl text) = inl (channel_error text)
of_sent (inr u) = inr u

module _ (c : Channels) where
  unfoldable receive : ChannelWire → c.Net → c.Net × (Bytes ⊎ Option Bytes)
  receive wire net = let (next, message) = c.receive wire.channel net in (next, of_message message)

  unfoldable send : ChannelWire → Bytes → c.Net → c.Net × (Bytes ⊎ Unit {0})
  send wire payload net =
      let (next, result) = c.send wire.channel (binary payload) net in (next, of_sent result)

  unfoldable close : ChannelWire → c.Net → c.Net
  close wire net = c.close_peer wire.peer_conn (c.close_channel wire.channel net)

  -- What one channel has taken is what the other receives next.
  abbrev Delivers : (near far : ℕ) → Type 0
  Delivers near far =
      (message : ChannelMessage) (net : c.Net)
      → (c.send near message net).1 ≡ inr tt
      → (c.receive far (c.send near message net).0).1 ≡ inr message

  of_sent-inr : (r : Bytes ⊎ Unit {0}) → of_sent r ≡ inr tt → r ≡ inr tt
  unfolding of_sent
  of_sent-inr (inl text) h = absurd cc
  of_sent-inr (inr u) h = refl

  -- Over channels that deliver what they take, a datagram that one wire has sent is the next that
  -- the wire at the other side receives, whole and not skipped.
  receive-send :
      (near far : ChannelWire) (payload : Bytes) (net : c.Net)
      → Delivers near.channel far.channel
      → (send near payload net).1 ≡ inr tt
      → (receive far (send near payload net).0).1 ≡ inr (some payload)
  unfolding send receive of_message
  receive-send near far payload net delivers sent = ap of_message (
      delivers (binary payload) net (of_sent-inr (c.send near.channel (binary payload) net).1 sent))

  -- Closing a wire again changes nothing, where that holds of a channel and of a connection and
  -- the order of the two does not matter.
  close-close :
      (wire : ChannelWire) (net : c.Net)
      → ((n : c.Net)
          → c.close_channel wire.channel (c.close_peer wire.peer_conn n)
            ≡ c.close_peer wire.peer_conn (c.close_channel wire.channel n))
      → ((n : c.Net)
          → c.close_channel wire.channel (c.close_channel wire.channel n)
            ≡ c.close_channel wire.channel n)
      → ((n : c.Net)
          → c.close_peer wire.peer_conn (c.close_peer wire.peer_conn n)
            ≡ c.close_peer wire.peer_conn n)
      → close wire (close wire net) ≡ close wire net
  unfolding close
  close-close wire net swap channel peer =
      let shut = c.close_channel wire.channel net in
      ap (c.close_peer wire.peer_conn) (swap shut ∙ ap (c.close_peer wire.peer_conn) (channel net))
      ∙ peer shut
