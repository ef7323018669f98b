-- ===== src/Endpoint/Connection.antt =====
-- `ConnectionRes` of endpoint/src/endpoint_impl.rs: its streams, its datagrams, its path and its end.
-- A call that waits is one check of its condition, which answers or gives no result and waits on.
pub mod Paths
pub mod Apart
pub mod Isolated
use polymorph_iroh.Base.{
  ℕ, Bool, true, false, not, ◌&&◌, ◌||◌, Option, none, some, List, [], ◌∷◌, ◌++◌, Bytes, is_some,
  is_none, if◌then◌else◌, ◌⊎◌, inl, inr, codes, nat_key,
}
use polymorph_iroh.Base.Maps.{lookup, insert}
use polymorph_iroh.Net.{SocketAddr, addr_key}
use polymorph_iroh.Noq.{
  Noq, Dir, bi, uni, SendOutcome, queued, too_large, unsupported_by_peer, other_send,
}
use polymorph_iroh.Endpoint.{
  State, ConnEntry, Error, CloseInfo, closed, invalid_argument, other_error, RouteWire, relay,
  channel, kick_pump,
}
use polymorph_iroh.Endpoint.Conns.{entry_for}
use polymorph_iroh.Endpoint.Streams.{SendStreamRes, new_send, put_conn, app_code}
use polymorph_iroh.Endpoint.Streams.Reads.{RecvStreamRes, new_recv}

pub record ConnectionRes : Type 0 where
  pub handle : ℕ
  pub epoch : ℕ
  pub watching : Bool

pub data PathKind : Type 0 where
  relay_path webrtc_path ip_path : PathKind

pub data ConnectionState : Type 0 where
  connecting open_connection closed_connection : ConnectionState

-- By the route of an address; a real address has none.
abbrev pub kind_of : Option RouteWire → PathKind
kind_of none = ip_path
kind_of (some (relay key)) = relay_path
kind_of (some (channel id)) = webrtc_path

abbrev pub same_kind : PathKind → PathKind → Bool
same_kind relay_path relay_path = true
same_kind webrtc_path webrtc_path = true
same_kind ip_path ip_path = true
same_kind relay_path webrtc_path = false
same_kind relay_path ip_path = false
same_kind webrtc_path relay_path = false
same_kind webrtc_path ip_path = false
same_kind ip_path relay_path = false
same_kind ip_path webrtc_path = false

abbrev pub is_news : Option PathKind → PathKind → Bool
is_news none kind = true
is_news (some last) kind = not (same_kind last kind)

-- A check of `path-changes`: it waits, its stream ends, or it writes a kind.
pub data Watch : Type 0 where
  no_news over : Watch
  news : PathKind → Watch

unfoldable pub stream_pair : ConnectionRes → ℕ → SendStreamRes × RecvStreamRes
stream_pair c id = (new_send c.handle c.epoch id, new_recv c.handle c.epoch id)

-- The claim of `path-changes`: whether this caller gets the stream.
unfoldable pub path_changes : ConnectionRes → ConnectionRes × Bool
path_changes c = (record c { watching = true }, not c.watching)

abbrev failure : Option Error → Option (Error ⊎ ℕ)
failure none = none
failure (some e) = some (inl e)

-- After a write: a kind that the watcher does not take, having dropped the stream, ends the watch.
abbrev pub after_write : Bool → PathKind → List PathKind → List PathKind
after_write true kind rest = kind ∷ rest
after_write false kind rest = []

module _ {noq : Noq} where
  unfoldable pub path_kind : State noq → ConnEntry noq → PathKind
  path_kind st e = elim (noq.network_path e.conn) [
    | none ↦ relay_path
    | some remote ↦ kind_of (lookup remote st.routes)
  ]

  pub current_path : State noq → ℕ → ℕ → PathKind
  current_path st handle epoch = elim (entry_for st handle epoch) [
    | none ↦ relay_path
    | some e ↦ path_kind st e
  ]

  unfoldable pub is_over : ConnEntry noq → Bool
  is_over e = e.drained || is_some e.error

  unfoldable pub state : State noq → ConnectionRes → ConnectionState
  state st c = elim (entry_for st c.handle c.epoch) [
    | none ↦ closed_connection
    | some e ↦
        if is_over e
        then closed_connection
        else if e.is_connected
        then open_connection
        else connecting
  ]

  unfoldable pub peer : State noq → ConnectionRes → Bytes
  peer st c = elim (entry_for st c.handle c.epoch) [
    | none ↦ []
    | some e ↦ elim e.peer [ none ↦ [] | some id ↦ id ]
  ]

  unfoldable pub alpn : State noq → ConnectionRes → Bytes
  alpn st c = elim (entry_for st c.handle c.epoch) [ none ↦ [] | some e ↦ e.alpn ]

  pub watch_check : State noq → ℕ → ℕ → Option PathKind → Watch
  watch_check st handle epoch last = elim (entry_for st handle epoch) [
    | none ↦ over
    | some e ↦
        if is_over e
        then over
        else if is_news last (path_kind st e)
        then news (path_kind st e)
        else no_news
  ]

  -- What the watcher takes of `path-changes` while it sees these states, one at each check, each with
  -- whether the watcher takes what is written then.
  pub watch : ℕ → ℕ → Option PathKind → List (State noq × Bool) → List PathKind
  watch handle epoch last [] = []
  watch handle epoch last ((st, taken) ∷ checks) = elim (watch_check st handle epoch last) [
    | no_news ↦ watch handle epoch last checks
    | over ↦ []
    | news kind ↦ after_write taken kind (watch handle epoch (some kind) checks)
  ]

  pub on_opening : State noq → Bool → Option ℕ → State noq × Bool × Option (Error ⊎ ℕ)
  on_opening st kicked (some id) = (st, kicked, some (inr id))
  on_opening st true none = (st, true, none)
  on_opening st false none = (kick_pump st, true, none)

  -- A check of `open-bi` and `open-uni`; the flag says that an earlier check has kicked the pump.
  pub open_check : State noq → ℕ → ℕ → Dir → Bool → State noq × Bool × Option (Error ⊎ ℕ)
  open_check st handle epoch dir kicked = elim (entry_for st handle epoch) [
    | none ↦ (st, kicked, some (inl closed))
    | some e ↦ elim e.error [
      | some error ↦ (st, kicked, some (inl error))
      | none ↦
          let (conn, opened) = noq.open_stream e.conn dir in
          on_opening (put_conn st handle e conn) kicked opened
    ]
  ]

  abbrev pub queue_of : Dir → ConnEntry noq → List ℕ
  queue_of bi e = e.bi_queue
  queue_of uni e = e.uni_queue

  abbrev set_queue : Dir → List ℕ → ConnEntry noq → ConnEntry noq
  set_queue bi ids e = record e { bi_queue = ids }
  set_queue uni ids e = record e { uni_queue = ids }

  pub from_queue : State noq → ℕ → Dir → ConnEntry noq → List ℕ → State noq × Option (Error ⊎ ℕ)
  from_queue st handle dir e (id ∷ ids) =
      (record st { conns = insert handle (set_queue dir ids e) st.conns }, some (inr id))
  from_queue st handle dir e [] = (st, failure e.error)

  pub accept_stream_check : State noq → ℕ → ℕ → Dir → State noq × Option (Error ⊎ ℕ)
  accept_stream_check st handle epoch dir = elim (entry_for st handle epoch) [
    | none ↦ (st, some (inl closed))
    | some e ↦ from_queue st handle dir e (queue_of dir e)
  ]

  unfoldable pub max_datagram_size : State noq → ConnectionRes → Option ℕ
  max_datagram_size st c = elim (entry_for st c.handle c.epoch) [
    | none ↦ none
    | some e ↦ noq.max_datagram_size e.conn
  ]

  pub on_sent : State noq → SendOutcome → State noq × (Error ⊎ Unit {0})
  on_sent st queued = (kick_pump st, inr tt)
  on_sent st too_large = (st, inl (invalid_argument (codes "datagram exceeds max-datagram-size")))
  on_sent st unsupported_by_peer =
      (st, inl (invalid_argument (codes "peer does not accept datagrams")))
  on_sent st (other_send text) = (st, inl (other_error (codes "send-datagram: " ++ text)))

  unfoldable pub send_datagram : State noq → ConnectionRes → Bytes → State noq × (Error ⊎ Unit {0})
  send_datagram st c payload = elim (entry_for st c.handle c.epoch) [
    | none ↦ (st, inl closed)
    | some e ↦ elim e.error [
      | some error ↦ (st, inl error)
      | none ↦
          let (conn, outcome) = noq.send_datagram e.conn payload in
          on_sent (put_conn st c.handle e conn) outcome
    ]
  ]

  pub on_datagram_read :
      State noq → Option Error → Option Bytes → State noq × Option (Error ⊎ Bytes)
  on_datagram_read st error (some payload) = (st, some (inr payload))
  on_datagram_read st (some e) none = (st, some (inl e))
  on_datagram_read st none none = (st, none)

  pub recv_datagram_check : State noq → ℕ → ℕ → State noq × Option (Error ⊎ Bytes)
  recv_datagram_check st handle epoch = elim (entry_for st handle epoch) [
    | none ↦ (st, some (inl closed))
    | some e ↦
        let (conn, payload) = noq.recv_datagram e.conn in
        on_datagram_read (put_conn st handle e conn) e.error payload
  ]

  unfoldable pub close : State noq → ConnectionRes → ℕ → ℕ → Bytes → State noq
  close st c now code reason = elim (entry_for st c.handle c.epoch) [
    | none ↦ st
    | some e ↦
        if is_none e.error && not e.drained
        then kick_pump (put_conn st c.handle e (noq.close e.conn now (app_code code) reason))
        else st
  ]

  -- A check of `wait-closed`: it waits, or gives the peer's close if there was one.
  unfoldable pub wait_closed_check : State noq → ℕ → ℕ → Option (Option CloseInfo)
  wait_closed_check st handle epoch = elim (entry_for st handle epoch) [
    | none ↦ some none
    | some e ↦ if is_over e then some e.peer_close else none
  ]
