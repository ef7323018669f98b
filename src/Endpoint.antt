-- ===== src/Endpoint.antt =====
-- The state of an endpoint, from endpoint/src/endpoint_impl.rs. Relay connections and channel wires
-- are shared objects: a number is the pointer to one. Instants are nanoseconds, and each operation
-- takes the clock's reading as an argument.
pub mod Wires
pub mod Routes
pub mod Signaling
pub mod Conns
pub mod Dial
pub mod Streams
pub mod Drain
pub mod Pump
pub mod Relays
pub mod Connection
pub mod Dance
pub mod Bind
use polymorph_iroh.Base.{
  ℕ, ◌+◌, ◌%◌, ◌^◌, ◌≡◌, Bool, true, false, Option, none, some, List, [], ◌∷◌, ◌++◌, map, Bytes,
}
use polymorph_iroh.Base.Maps.{Map, lookup, insert, remove}
use polymorph_iroh.Net.{SocketAddr, addr_key, doc_prefix_addr}
use polymorph_iroh.Noq.{Noq}

-- The `error` variant of the component's interface.
pub data Error : Type 0 where
  closed : Error
  connect_failed timed_out invalid_argument in_use not_supported other_error : Bytes → Error
  reset : ℕ → Error

pub record CloseInfo : Type 0 where
  pub code : ℕ
  pub reason : Bytes

-- The wire behind one standin address.
pub data RouteWire : Type 0 where
  relay channel : ℕ → RouteWire

abbrev pub home_relay : ℕ
home_relay = 0

pub record ChannelEntry : Type 0 where
  pub wire : ℕ
  pub peer : Bytes
  pub fallback_relay : ℕ

pub record ConnEntry (noq : Noq) : Type 0 where
  pub conn : noq.Conn
  pub epoch : ℕ
  pub expected_peer : Option Bytes
  pub peer : Option Bytes
  pub accepted_side : Bool
  pub is_connected : Bool
  pub alpn : Bytes
  pub error : Option Error
  pub peer_close : Option CloseInfo
  pub drained : Bool
  pub bi_queue : List ℕ
  pub uni_queue : List ℕ

-- What the operations ask of the world around the state: wakers to fire, objects to close, tasks to
-- spawn, datagrams to send.
pub data Effect : Type 0 where
  wake wake_pump close_relay close_channel : ℕ → Effect
  spawn_answer : Bytes → Effect
  spawn_upgrade : Bytes → ℕ → Effect
  spawn_ping : (conn : ℕ) → Bytes → Effect
  send_relay : (conn : ℕ) → (peer payload : Bytes) → Effect
  send_udp : SocketAddr → Bytes → Effect
  send_channel : (wire : ℕ) → Bytes → Effect
  wake_udp : Effect

pub record State (noq : Noq) : Type 0 where
  pub engine : noq.Engine
  pub conns : Map ℕ (ConnEntry noq)
  pub next_conn_epoch : ℕ
  pub peer_to_addr : Map Bytes SocketAddr
  pub addr_to_peer : Map SocketAddr Bytes
  pub next_host : ℕ
  pub accept_queue : List (ℕ × ℕ)
  pub relay_outbound : List (ℕ × Bytes × Bytes)
  pub udp_outbound : List (SocketAddr × Bytes)
  pub channel_outbound : List (ℕ × Bytes)
  pub routes : Map SocketAddr RouteWire
  pub relay_pool : Map ℕ ℕ
  pub relay_keys : Map Bytes ℕ
  pub relay_opening : Map Bytes (Unit {0})
  pub new_relays : List (ℕ × ℕ)
  pub next_relay_key : ℕ
  pub pending_upgrades : List (Bytes × ℕ)
  pub webrtc_enabled : Bool
  pub signaling : Map Bytes ℕ
  pub signal_inboxes : Map Bytes (List Bytes)
  pub channels : Map ℕ ChannelEntry
  pub new_channels : List (ℕ × ℕ)
  pub next_channel_id : ℕ
  pub is_closed : Bool
  pub closed_at : Option ℕ
  pub waiters : List ℕ
  pub pump_waker : Option ℕ
  pub pump_kicked : Bool
  -- The effects so far, the oldest first.
  pub effects : List Effect

abbrev woken_pump : Option ℕ → List Effect
woken_pump none = []
woken_pump (some waker) = wake_pump waker ∷ []

module _ {noq : Noq} where
  unfoldable pub new_entry : noq.Conn → Option Bytes → Bool → ℕ → ConnEntry noq
  new_entry conn expected_peer accepted_side epoch = record {
    conn = conn;
    epoch = epoch;
    expected_peer = expected_peer;
    peer = none;
    accepted_side = accepted_side;
    is_connected = false;
    alpn = [];
    error = none;
    peer_close = none;
    drained = false;
    bi_queue = [];
    uni_queue = [];
  }

  pub wake_waiters : State noq → State noq
  wake_waiters st = record st { waiters = []; effects = st.effects ++ map wake st.waiters }

  unfoldable pub kick_pump : State noq → State noq
  kick_pump st = record st {
    pump_kicked = true;
    pump_waker = none;
    effects = st.effects ++ woken_pump st.pump_waker;
  }

  abbrev pub ask : Effect → State noq → State noq
  ask e st = record st { effects = st.effects ++ (e ∷ []) }

abbrev pub new_state : (noq : Noq) → noq.Engine → Bool → State noq
new_state noq engine webrtc_enabled = record {
  engine = engine;
  conns = [];
  next_conn_epoch = 0;
  peer_to_addr = [];
  addr_to_peer = [];
  next_host = 0;
  accept_queue = [];
  relay_outbound = [];
  udp_outbound = [];
  channel_outbound = [];
  routes = [];
  relay_pool = [];
  relay_keys = [];
  relay_opening = [];
  new_relays = [];
  next_relay_key = 0;
  pending_upgrades = [];
  webrtc_enabled = webrtc_enabled;
  signaling = [];
  signal_inboxes = [];
  channels = [];
  new_channels = [];
  next_channel_id = 0;
  is_closed = false;
  closed_at = none;
  waiters = [];
  pump_waker = none;
  pump_kicked = false;
  effects = [];
}
