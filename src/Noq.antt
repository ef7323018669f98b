-- ===== src/Noq.antt =====
-- The QUIC engine `noq_proto`, which the endpoint drives: an interface that the model takes as a
-- parameter. A call gives the engine's new value with what it returns.
use polymorph_iroh.Base.{ℕ, ◌⊎◌, List, Bool, Option, Bytes}
use polymorph_iroh.Net.{SocketAddr}

-- `DatagramEvent`: what the engine makes of an inbound datagram.
pub data DatagramEvent (ConnEvent Incoming : Type 0) : Type 0 where
  connection_event : (handle : ℕ) → ConnEvent → DatagramEvent ConnEvent Incoming
  new_connection : Incoming → DatagramEvent ConnEvent Incoming
  response : Bytes → DatagramEvent ConnEvent Incoming

-- The outcome of accepting an incoming attempt; a refusal may come with a response to send.
pub data Acceptance (Conn : Type 0) : Type 0 where
  accepted : (handle : ℕ) → Conn → Acceptance Conn
  rejected : Option Bytes → Acceptance Conn

-- `ConnectionError`, as far as the endpoint tells its cases apart.
pub data Reason : Type 0 where
  application_closed : (code : ℕ) (reason : Bytes) → Reason
  locally_closed timed_out : Reason
  other_reason : Bytes → Reason

-- `Event`: `quiet` is each of those that the endpoint ignores.
pub data Event : Type 0 where
  connected stream_opened quiet : Event
  connection_lost : Reason → Event

-- `Dir`: which kind of stream.
pub data Dir : Type 0 where
  bi uni : Dir

-- What one `write`, `finish` or `send` of the engine gives.
pub data WriteOutcome : Type 0 where
  written : ℕ → WriteOutcome
  blocked : WriteOutcome
  stopped : ℕ → WriteOutcome
  closed_stream : WriteOutcome

pub data FinishOutcome : Type 0 where
  finished : FinishOutcome
  stopped : ℕ → FinishOutcome
  closed_stream : FinishOutcome

pub data SendOutcome : Type 0 where
  queued too_large unsupported_by_peer : SendOutcome
  other_send : Bytes → SendOutcome

-- What `read(true)`, one `next` of its chunks and their `finalize` give together.
pub data ReadOutcome : Type 0 where
  chunk : Bytes → ReadOutcome
  fin blocked closed_stream illegal_ordered_read : ReadOutcome
  was_reset : ℕ → ReadOutcome

pub record Noq : Type 1 where
  pub Engine : Type 0
  pub Conn : Type 0
  pub ConnEvent : Type 0
  pub EngineEvent : Type 0
  pub Incoming : Type 0
  pub Config : Type 0
  -- The engine.
  pub handle : Engine → ℕ → SocketAddr → Bytes → Engine × Option (DatagramEvent ConnEvent Incoming)
  pub refuse : Engine → Incoming → Engine × Bytes
  pub accept : Engine → Incoming → ℕ → Engine × Acceptance Conn
  pub connect : Engine → ℕ → Config → SocketAddr → Engine × (Bytes ⊎ (ℕ × Conn))
  pub handle_event : Engine → ℕ → EngineEvent → Engine × Option ConnEvent
  -- A connection.
  pub conn_event : Conn → ConnEvent → Conn
  pub poll_endpoint_events : Conn → Option (EngineEvent × Conn)
  pub poll : Conn → Option (Event × Conn)
  pub poll_transmit : Conn → ℕ → Option ((SocketAddr × Bytes) × Conn)
  pub is_drained : Conn → Bool
  pub poll_timeout : Conn → Option ℕ
  pub handle_timeout : Conn → ℕ → Conn
  pub close : Conn → (now code : ℕ) → Bytes → Conn
  pub network_path : Conn → Option SocketAddr
  pub handshake_data : Conn → Option (Option Bytes)
  pub peer_certificate : Conn → Option Bytes
  -- Its streams, by their numbers, and its datagrams.
  pub open_stream : Conn → Dir → Conn × Option ℕ
  pub write : Conn → (id : ℕ) → Bytes → Conn × WriteOutcome
  pub finish : Conn → (id : ℕ) → Conn × FinishOutcome
  pub reset : Conn → (id code : ℕ) → Conn
  pub read : Conn → (id max : ℕ) → Conn × ReadOutcome
  pub stop : Conn → (id code : ℕ) → Conn
  pub max_datagram_size : Conn → Option ℕ
  pub send_datagram : Conn → Bytes → Conn × SendOutcome
  pub recv_datagram : Conn → Conn × Option Bytes
  pub accept_bi : Conn → List ℕ × Conn
  pub accept_uni : Conn → List ℕ × Conn
  -- `polymorph_tls_profile`: the identity inside a raw-public-key certificate.
  pub endpoint_id_from_spki : Bytes → Option Bytes
  pub from_utf8_lossy : Bytes → Bytes
