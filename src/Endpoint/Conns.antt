-- ===== src/Endpoint/Conns.antt =====
-- Connections: `entry_for`, `on_event`, `handle_datagram` and its three entrances,
-- `accept_backlog`, `handle_timeouts`, `close_all`, `accept` and `close`, from
-- endpoint/src/endpoint_impl.rs.
pub mod Backlog
pub mod Gone
pub mod Slots
pub mod Epochs
pub mod Frame
pub mod Events
pub mod Identity
use polymorph_iroh.Base.{
  ℕ, zero, suc, ◌+◌, ◌%◌, ◌^◌, ◌≡◌, Bool, true, false, not, ◌&&◌, ◌||◌, Option, none, some, List,
  [], ◌∷◌, ◌++◌, Bytes, eqb, ltb, leb, length, count, is_some, is_none, if◌then◌else◌, codes,
  nat_key, bytes_beq,
}
use polymorph_iroh.Base.Maps.{Map, lookup, insert}
use polymorph_iroh.Net.{SocketAddr, addr_key}
use polymorph_iroh.Noq.{
  Noq, DatagramEvent, connection_event, new_connection, response, Acceptance, accepted, rejected,
  Reason, application_closed, locally_closed, timed_out, other_reason, Event, connected,
  stream_opened, quiet, connection_lost,
}
use polymorph_iroh.Endpoint.{
  State, ConnEntry, CloseInfo, Error, closed, connect_failed, other_error, RouteWire, relay,
  channel, new_entry, kick_pump, wake_waiters,
}
use polymorph_iroh.Endpoint.Routes.{addr_for_peer, push_response}

abbrev pub accept_backlog_max : ℕ
accept_backlog_max = 16

abbrev pub one_if : Bool → ℕ
one_if true = 1
one_if false = 0

-- The key that the peer proved, if the handshake gives one.
unfoldable pub tls_peer : (noq : Noq) → noq.Conn → Option Bytes
tls_peer noq conn = elim (noq.peer_certificate conn) [
  | none ↦ none
  | some certificate ↦ noq.endpoint_id_from_spki certificate
]

abbrev pub expects : Option Bytes → Bytes → Bool
expects none id = true
expects (some peer) id = bytes_beq peer id

abbrev pub new_alpn : Option (Option Bytes) → Bytes → Bytes
new_alpn none old = old
new_alpn (some none) old = []
new_alpn (some (some protocol)) old = protocol

abbrev pub is_due : ℕ → Option ℕ → Bool
is_due now none = false
is_due now (some deadline) = leb deadline now

module _ {noq : Noq} where
  -- The entry of a handle while it is the connection that the caller was minted for.
  abbrev of_epoch : ℕ → Option (ConnEntry noq) → Option (ConnEntry noq)
  of_epoch epoch none = none
  of_epoch epoch (some e) = if eqb e.epoch epoch then some e else none

  unfoldable pub entry_for : State noq → ℕ → ℕ → Option (ConnEntry noq)
  entry_for st handle epoch = of_epoch epoch (lookup handle st.conns)

  -- A connection handshaking toward `accept`.
  pub is_handshaking : ConnEntry noq → Bool
  is_handshaking e = e.accepted_side && (not e.is_connected && (is_none e.error && not e.drained))

  unfoldable pub handshaking : Map ℕ (ConnEntry noq) → ℕ
  handshaking [] = 0
  handshaking ((h, e) ∷ m) = one_if (is_handshaking e) + handshaking m

  unfoldable pub accept_backlog : State noq → ℕ
  accept_backlog st = length st.accept_queue + handshaking st.conns

  pub authenticated : ConnEntry noq → Bytes → ConnEntry noq
  authenticated entry id = record entry { peer = some id; is_connected = true }

  pub mismatched : ConnEntry noq → ℕ → ConnEntry noq
  mismatched entry now = record entry {
    error = some (connect_failed (codes "authenticated key differs from the addressed peer"));
    conn = noq.close entry.conn now 1 (codes "identity mismatch");
  }

  pub by_key : ConnEntry noq → ℕ → ℕ → Option Bytes → ConnEntry noq × List (ℕ × ℕ)
  unfolding authenticated mismatched
  by_key entry handle now none = (mismatched entry now, [])
  by_key entry handle now (some id) =
      if expects entry.expected_peer id
      then (authenticated entry id, if entry.accepted_side then (handle, entry.epoch) ∷ [] else [])
      else (mismatched entry now, [])

  pub on_connected : ConnEntry noq → ℕ → ℕ → ConnEntry noq × List (ℕ × ℕ)
  unfolding by_key
  on_connected entry handle now =
      by_key (record entry { alpn = new_alpn (noq.handshake_data entry.conn) entry.alpn }) handle
        now (tls_peer noq entry.conn)

  pub on_lost : ConnEntry noq → Reason → ConnEntry noq
  on_lost entry (application_closed code reason) = record entry {
    peer_close = some (record { code = code; reason = noq.from_utf8_lossy reason });
    error = some closed;
  }
  on_lost entry locally_closed = record entry { error = some closed }
  on_lost entry timed_out = record entry {
    error = some (Error.timed_out (codes "the connection timed out"));
  }
  on_lost entry (other_reason text) = record entry {
    error = some (other_error (codes "connection lost: " ++ text));
  }

  -- Both directions' openings; `accept_bi` and `accept_uni` stand for the loops that drain them.
  pub on_opened : ConnEntry noq → ConnEntry noq
  on_opened entry =
      let (bi, after_bi) = noq.accept_bi entry.conn in
      let (uni, after_uni) = noq.accept_uni after_bi in
      record entry {
        conn = after_uni;
        bi_queue = entry.bi_queue ++ bi;
        uni_queue = entry.uni_queue ++ uni;
      }

  pub on_event : ConnEntry noq → ℕ → ℕ → Event → ConnEntry noq × List (ℕ × ℕ)
  unfolding on_connected on_lost on_opened
  on_event entry handle now connected = on_connected entry handle now
  on_event entry handle now stream_opened = (on_opened entry, [])
  on_event entry handle now quiet = (entry, [])
  on_event entry handle now (connection_lost reason) = (on_lost entry reason, [])

  -- The arm for an event of a known connection.
  pub on_conn_event : State noq → ℕ → noq.ConnEvent → State noq
  on_conn_event st handle event = elim (lookup handle st.conns) [
    | none ↦ st
    | some e ↦ record st {
      conns = insert handle (record e { conn = noq.conn_event e.conn event }) st.conns;
    }
  ]

  pub on_accepted : State noq → SocketAddr → Option Bytes → Acceptance noq.Conn → State noq
  on_accepted st addr source (accepted handle conn) = record st {
    next_conn_epoch = (st.next_conn_epoch + 1) % 2 ^ 64;
    conns = insert handle (new_entry conn source true st.next_conn_epoch) st.conns;
  }
  on_accepted st addr source (rejected none) = st
  on_accepted st addr source (rejected (some reply)) = push_response st addr source reply

  -- An incoming attempt: ignored once closed, refused at the bound, else accepted.
  pub on_incoming : State noq → ℕ → SocketAddr → Option Bytes → noq.Incoming → State noq
  unfolding on_accepted accept_backlog
  on_incoming st now addr source incoming =
      if st.is_closed
      then st
      else if leb accept_backlog_max (accept_backlog st)
      then (let (engine, reply) = noq.refuse st.engine incoming in
          push_response (record st { engine = engine }) addr source reply)
      else (let (engine, result) = noq.accept st.engine incoming now in
          on_accepted (record st { engine = engine }) addr source result)

  pub on_datagram_event :
      State noq
      → ℕ
      → SocketAddr
      → Option Bytes
      → Option (DatagramEvent noq.ConnEvent noq.Incoming)
      → State noq
  unfolding on_conn_event on_incoming
  on_datagram_event st now addr source none = st
  on_datagram_event st now addr source (some (connection_event handle event)) =
      on_conn_event st handle event
  on_datagram_event st now addr source (some (new_connection incoming)) =
      on_incoming st now addr source incoming
  on_datagram_event st now addr source (some (response reply)) = push_response st addr source reply

  pub handle_datagram : State noq → ℕ → SocketAddr → Option Bytes → Bytes → State noq
  unfolding on_datagram_event
  handle_datagram st now addr source payload =
      let (engine, event) = noq.handle st.engine now addr payload in
      on_datagram_event (record st { engine = engine }) now addr source event

  pub handle_relay_datagram : State noq → ℕ → ℕ → Bytes → Bytes → State noq
  unfolding handle_datagram
  handle_relay_datagram st now via source payload =
      let (seen, addr) = addr_for_peer st source via in
      handle_datagram seen now addr (some source) payload

  pub handle_udp_datagram : State noq → ℕ → SocketAddr → Bytes → State noq
  unfolding handle_datagram
  handle_udp_datagram st now remote payload = handle_datagram st now remote none payload

  pub handle_channel_datagram : State noq → ℕ → ℕ → Bytes → State noq
  unfolding handle_datagram
  handle_channel_datagram st now id payload = elim (lookup id st.channels) [
    | none ↦ st
    | some entry ↦
        let (seen, synthetic) = addr_for_peer st entry.peer entry.fallback_relay in
        handle_datagram seen now synthetic (some entry.peer) payload
  ]

  -- One application event in `drain`.
  pub drain_event : State noq → ℕ → ℕ → Event → State noq
  unfolding on_event
  drain_event st handle now event = elim (lookup handle st.conns) [
    | none ↦ st
    | some e ↦
        let (next, claims) = on_event e handle now event in
        record st { conns = insert handle next st.conns; accept_queue = st.accept_queue ++ claims }
  ]

  -- The loop of `accept`: the first queued connection that is still itself, and the queue behind.
  pub next_claim : State noq → List (ℕ × ℕ) → List (ℕ × ℕ) × Option (ℕ × ℕ)
  unfolding entry_for
  next_claim st [] = ([], none)
  next_claim st ((handle, epoch) ∷ queue) =
      let rest = next_claim st queue in
      if is_some (entry_for st handle epoch) then (queue, some (handle, epoch)) else rest

  pub settle : State noq → List (ℕ × ℕ) → Option (ℕ × ℕ) → State noq × Option (Option (ℕ × ℕ))
  settle st queue (some c) = (record st { accept_queue = queue }, some (some c))
  settle st queue none =
      (record st { accept_queue = queue }, if st.is_closed then some none else none)

  -- One check of `accept`: a connection, an error, or `none` to go on waiting.
  pub accept_check : State noq → State noq × Option (Option (ℕ × ℕ))
  unfolding next_claim settle
  accept_check st = let (queue, claim) = next_claim st st.accept_queue in settle st queue claim

  pub fire_timeouts : ℕ → Map ℕ (ConnEntry noq) → Map ℕ (ConnEntry noq)
  fire_timeouts now [] = []
  fire_timeouts now ((h, e) ∷ m) =
      (
        h,
        if is_due now (noq.poll_timeout e.conn)
            then record e { conn = noq.handle_timeout e.conn now }
            else e,
      )
      ∷ fire_timeouts now m

  pub handle_timeouts : State noq → ℕ → State noq
  unfolding fire_timeouts
  handle_timeouts st now = record st { conns = fire_timeouts now st.conns }

  -- `close_all`.
  pub close_entries : ℕ → Bytes → Map ℕ (ConnEntry noq) → Map ℕ (ConnEntry noq)
  close_entries now reason [] = []
  close_entries now reason ((h, e) ∷ m) =
      (
        h,
        if is_none e.error && not e.drained
            then record e { conn = noq.close e.conn now 0 reason }
            else e,
      )
      ∷ close_entries now reason m

  -- `close` of the endpoint, and its drop with another reason.
  pub close_endpoint : State noq → ℕ → Bytes → State noq
  unfolding close_entries
  close_endpoint st now reason =
      if st.is_closed
      then st
      else wake_waiters (
          kick_pump (record st {
            is_closed = true;
            closed_at = some now;
            conns = close_entries now reason st.conns;
          }))
