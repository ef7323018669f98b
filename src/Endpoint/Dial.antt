-- ===== src/Endpoint/Dial.antt =====
-- `connect`, from endpoint/src/endpoint_impl.rs: the choice of the path, the dial itself, the wait
-- for the handshake, and `DialGuard`. Opening a relay on the way is in Endpoint/Relays.antt.
pub mod Stale
use polymorph_iroh.Base.{
  ℕ, ◌+◌, ◌%◌, ◌^◌, ◌≡◌, ◌⊎◌, inl, inr, Bool, true, false, not, ◌&&◌, Option, none, some, List, [],
  ◌∷◌, ◌++◌, Bytes, eqb, is_none, is_some, if◌then◌else◌, codes, nat_key, bytes_key,
}
use polymorph_iroh.Base.Maps.{Map, lookup, insert}
use polymorph_iroh.Net.{SocketAddr, addr_key}
use polymorph_iroh.Noq.{Noq}
use polymorph_iroh.Endpoint.{
  State, ConnEntry, Error, closed, connect_failed, timed_out, other_error, invalid_argument, in_use,
  not_supported, reset, RouteWire, relay, channel, new_entry, kick_pump, home_relay,
}
use polymorph_iroh.Endpoint.Routes.{addr_for_peer}
use polymorph_iroh.Endpoint.Conns.{entry_for}

-- `TransportAddr`; the texts are URLs and a socket address.
pub data TransportAddr : Type 0 where
  relay_addr ip webrtc : Bytes → TransportAddr
  custom : TransportAddr

pub record DialPath : Type 0 where
  pub direct : Option SocketAddr
  pub dial_relay : Option Bytes
  pub webrtc_hint : Option Bytes

abbrev first_of {ℓ} : {A : Type ℓ} → Option A → A → Option A
first_of none y = some y
first_of (some x) y = some x

-- One turn of the loop over the entries of an address. `parse` reads a socket address.
pub add_entry :
    (Bytes → Option SocketAddr)
    → (has_udp webrtc_enabled : Bool) → DialPath
    → TransportAddr
    → DialPath
add_entry parse has_udp webrtc_enabled path (relay_addr url) = record path {
  dial_relay = first_of path.dial_relay url;
}
add_entry parse has_udp webrtc_enabled path (ip text) =
    if is_none path.direct && has_udp then record path { direct = parse text } else path
add_entry parse has_udp webrtc_enabled path (webrtc url) =
    if webrtc_enabled then record path { webrtc_hint = first_of path.webrtc_hint url } else path
add_entry parse has_udp webrtc_enabled path custom = path

pub path_of :
    (Bytes → Option SocketAddr)
    → (has_udp webrtc_enabled : Bool) → DialPath
    → List TransportAddr
    → DialPath
unfolding add_entry
path_of parse has_udp webrtc_enabled path [] = path
path_of parse has_udp webrtc_enabled path (entry ∷ entries) =
    path_of parse has_udp webrtc_enabled (add_entry parse has_udp webrtc_enabled path entry) entries

-- The relays to open before the dial: the one to dial through and the one to signal through.
pub relays_of : DialPath → Option Bytes × Option Bytes
relays_of path = elim path.direct [
  | some real ↦ (none, none)
  | none ↦ (path.dial_relay, path.webrtc_hint)
]

-- What the wait in `connect` makes of the error of its connection.
pub dial_error : Error → Error
dial_error (other_error text) = connect_failed text
dial_error closed = closed
dial_error (connect_failed text) = connect_failed text
dial_error (timed_out text) = timed_out text
dial_error (invalid_argument text) = invalid_argument text
dial_error (in_use text) = in_use text
dial_error (not_supported text) = not_supported text
dial_error (reset code) = reset code

abbrev upgrade_of : Bytes → Option ℕ → List (Bytes × ℕ)
upgrade_of peer none = []
upgrade_of peer (some key) = (peer, key) ∷ []

module _ {noq : Noq} where
  -- A standin that is routed to some relay follows the dial to `key`; a channel stays.
  unfoldable pub follow_dial : State noq → SocketAddr → ℕ → State noq
  follow_dial st standin key = elim (lookup standin st.routes) [
    | none ↦ st
    | some (relay old) ↦ record st { routes = insert standin (relay key) st.routes }
    | some (channel id) ↦ st
  ]

  unfoldable pub remote_of : State noq → Bytes → Option SocketAddr → ℕ → State noq × SocketAddr
  unfolding follow_dial
  remote_of st peer (some real) key = (st, real)
  remote_of st peer none key =
      let (seen, standin) = addr_for_peer st peer key in (follow_dial seen standin key, standin)

  unfoldable pub on_dialled :
      State noq → Bytes → Option ℕ → Bytes ⊎ (ℕ × noq.Conn) → State noq × (Error ⊎ (ℕ × ℕ))
  on_dialled st peer upgrade_key (inl text) = (st, inl (connect_failed text))
  on_dialled st peer upgrade_key (inr (handle, conn)) = (
    kick_pump (record st {
      next_conn_epoch = (st.next_conn_epoch + 1) % 2 ^ 64;
      conns = insert handle (new_entry conn (some peer) false st.next_conn_epoch) st.conns;
      pending_upgrades = st.pending_upgrades ++ upgrade_of peer upgrade_key;
    }),
    inr (handle, st.next_conn_epoch),
  )

  -- The dial: the state behind it, and the handle with its epoch.
  unfoldable pub dial :
      State noq
      → (now : ℕ) → noq.Config
      → (peer : Bytes) → (direct : Option SocketAddr) → (dial_key : ℕ) → (upgrade_key : Option ℕ)
      → State noq × (Error ⊎ (ℕ × ℕ))
  unfolding remote_of on_dialled
  dial st now config peer direct dial_key upgrade_key =
      if st.is_closed
      then (st, inl closed)
      else (let (seen, remote) = remote_of st peer direct dial_key in
          let (engine, result) = noq.connect seen.engine now config remote in
          on_dialled (record seen { engine = engine }) peer upgrade_key result)

  -- What the wait for the handshake sees of an entry: an error, success, or nothing yet.
  pub dial_outcome : Option (ConnEntry noq) → Option (Option Error)
  unfolding dial_error
  dial_outcome none = some (some closed)
  dial_outcome (some e) = elim e.error [
    | some err ↦ some (some (dial_error err))
    | none ↦ if e.is_connected then some none else none
  ]

  -- The drop of a `DialGuard` that is still armed.
  pub cancel_dial : State noq → (handle epoch now : ℕ) → State noq
  cancel_dial st handle epoch now = elim (entry_for st handle epoch) [
    | none ↦ st
    | some e ↦
        if is_none e.error && not e.drained
        then kick_pump (record st {
          conns =
              insert handle (record e { conn = noq.close e.conn now 0 (codes "connect cancelled") })
                st.conns;
        })
        else st
  ]
