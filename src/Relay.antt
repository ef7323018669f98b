-- ===== src/Relay.antt =====
-- core/src/relay.rs: the relay client. The websocket is a script: each turn of it is what one
-- `receive` gives, the moment at which it does, and the outcome of the send that may follow it.
-- Instants and durations are nanoseconds.
pub mod Url
pub mod Handshake
pub mod Probe
pub mod Receive
pub mod Send
use polymorph_iroh.Base.{
  ℕ, zero, suc, ◌+◌, ◌-◌, ◌/◌, ◌%◌, ◌^◌, ◌≡◌, Bool, true, false, not, ◌&&◌, ◌||◌, Option, none,
  some, List, [], ◌∷◌, ◌++◌, ltb, leb, eqb, if◌then◌else◌, length, take, drop, Bytes, bytes_beq,
  codes,
}
use polymorph_iroh.Frames.{
  Datagram, ClientAuth, split_tag, encode_client_auth, encode_client_datagram, encode_ping,
  encode_pong, decode_relay_datagrams, decode_denial_reason,
}
use polymorph_iroh.Frames.Tag

-- The texts of the failures, a constructor for each format; `Bytes` are the parts that it quotes.
pub data Fault : Type 0 where
  no_scheme no_host relay_connect handshake_receive handshake_send : Bytes → Fault
  empty_frame malformed_challenge short_signature : Fault
  sign_failed denied_auth relay_receive relay_pong relay_send relay_ping : Bytes → Fault
  unexpected_frame : ℕ → Fault

pub data Result {ℓ} (A : Type ℓ) : Type ℓ where
  ok : A → Result A
  err : Fault → Result A

-- `Message`, and the error that `receive` may give in its place.
pub data Received : Type 0 where
  binary : Bytes → Received
  text : Bytes → Received
  broken : Bytes → Received

-- `sent` is the error of the send that the turn leads to, if that send fails.
pub record Turn : Type 0 where
  pub now : ℕ
  pub received : Received
  pub sent : Option Bytes

pub record RelayConn : Type 0 where
  pub pending : List Datagram
  pub last_inbound : ℕ
  pub probe : Option ℕ
  pub probe_seq : ℕ

-- The text before the first "://" and the text after it.
unfoldable pub split_scheme : Bytes → Option (Bytes × Bytes)
split_scheme [] = none
split_scheme (c ∷ cs) =
    if bytes_beq (take 3 (c ∷ cs)) (codes "://")
    then some ([], drop 3 (c ∷ cs))
    else elim (split_scheme cs) [ none ↦ none | some (scheme, rest) ↦ some (c ∷ scheme, rest) ]

-- `rest.split('/').next()`
unfoldable pub until_slash : Bytes → Bytes
until_slash [] = []
until_slash (c ∷ cs) = if eqb c b'/' then [] else c ∷ until_slash cs

abbrev pub relay_path : Bytes
relay_path = codes "/relay"

unfoldable pub ws_scheme : Bytes → Bytes
ws_scheme scheme =
    if bytes_beq scheme (codes "http") || bytes_beq scheme (codes "ws")
    then codes "ws"
    else codes "wss"

abbrev pub is_empty : Bytes → Bool
is_empty [] = true
is_empty (c ∷ cs) = false

unfoldable pub relay_url : Bytes → Result Bytes
unfolding split_scheme until_slash ws_scheme
relay_url server = elim (split_scheme server) [
  | none ↦ err (no_scheme server)
  | some (scheme, rest) ↦
      if is_empty (until_slash rest)
      then err (no_host server)
      else ok (ws_scheme scheme ++ (codes "://" ++ (until_slash rest ++ relay_path)))
]

-- `to_le_bytes` of a u64, by the number of bytes left.
pub le_bytes : ℕ → ℕ → Bytes
le_bytes zero n = []
le_bytes (suc k) n = n % 256 ∷ le_bytes k (n / 256)

pub data ProbeStep : Type 0 where
  healthy : ProbeStep
  ping : Bytes → ProbeStep
  dead : ProbeStep

-- The second half of `probe_step`, with no unanswered probe.
pub probe_quiet : RelayConn → ℕ → ℕ → ProbeStep × RelayConn
probe_quiet conn now quiet_after =
    let seq = (conn.probe_seq + 1) % 2 ^ 64 in
    if leb quiet_after (now - conn.last_inbound)
    then (ping (le_bytes 8 seq), record conn { probe = some now; probe_seq = seq })
    else (healthy, conn)

pub probe_step : RelayConn → ℕ → ℕ → ℕ → ProbeStep × RelayConn
unfolding probe_quiet
probe_step conn now quiet_after deadline = elim conn.probe [
  | none ↦ probe_quiet conn now quiet_after
  | some sent ↦
      if ltb sent conn.last_inbound
      then probe_quiet (record conn { probe = none }) now quiet_after
      else if leb deadline (now - sent)
      then (dead, conn)
      else (healthy, conn)
]
