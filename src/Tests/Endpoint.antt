-- ===== src/Tests/Endpoint.antt =====
-- Concrete runs for the endpoint.
use polymorph_iroh.Base.{
  ◌≤◌, ◌≡◌, ◌↔◌, inr, refl, true, false, none, some, [], ◌∷◌, replicate, Bytes, nat_key, bytes_key,
  bytes_beq, arith,
}
use polymorph_iroh.Tests.Toy.{toy}
use polymorph_iroh.Base.Maps.{lookup, insert}
use polymorph_iroh.Net.{SocketAddr, v4, addr_key}
use polymorph_iroh.Noq.{Noq, connected}
use polymorph_iroh.Endpoint.{State, ConnEntry, new_state, home_relay, kick_pump}
use polymorph_iroh.Endpoint.Routes.{addr_for_peer, fresh_standin, register_channel, retire_channel}
use polymorph_iroh.Endpoint.Routes.Invariant.{IsRouted, book}
use polymorph_iroh.Endpoint.Routes.Reach as Reach
use polymorph_iroh.Endpoint.Routes.Reach.{
  begun, sees, registers, retires, new_state-IsRouted, routes_sound,
}
use polymorph_iroh.Endpoint.Signaling.{finish_answer, finish_upgrade}
use polymorph_iroh.Endpoint.Signaling.Fallback.{next_id, fallback_of_sides}
use polymorph_iroh.Endpoint.Conns.{
  tls_peer, on_event, accept_backlog, accept_backlog_max, handshaking, handle_datagram,
  accept_check, entry_for,
}
use polymorph_iroh.Endpoint.Conns.Backlog.{handle_datagram-backlog}
use polymorph_iroh.Endpoint.Conns.Identity.{IsExpected, connected_iff}
use polymorph_iroh.Endpoint.Conns.Epochs.{Claims, accept-Claims_iff}
use polymorph_iroh.Endpoint.Dial.{dial, on_dialled, remote_of, follow_dial}
use polymorph_iroh.Endpoint.Dial.Stale.{start, step, dials, stale_forever}

abbrev key : Bytes
key = replicate 32 7

abbrev somewhere : SocketAddr
somewhere = v4 (10 ∷ 0 ∷ 0 ∷ 1 ∷ []) 4433

abbrev noq : Noq
noq = toy (some key)

abbrev fresh : State noq
fresh = new_state noq tt true

abbrev dialled : ConnEntry noq
dialled = record {
  conn = [];
  epoch = 0;
  expected_peer = some key;
  peer = none;
  accepted_side = false;
  is_connected = false;
  alpn = [];
  error = none;
  peer_close = none;
  drained = false;
  bi_queue = [];
  uni_queue = [];
}

abbrev arrived : ConnEntry noq
arrived = record dialled { expected_peer = none; accepted_side = true }

-- One connection at handle 3 under epoch 1, and the queue that still names epoch 0 before it.
abbrev busy : State noq
busy = record fresh {
  conns = (3, record arrived { epoch = 1 }) ∷ [];
  next_conn_epoch = 2;
  accept_queue = (3, 0) ∷ (3, 1) ∷ [];
}

-- The peer is met, dialled through another relay, its channel opens, and the channel is lost.
abbrev met : State noq
met = (addr_for_peer fresh key 0).0

abbrev again : State noq
again = (dial met 5 tt key none 2 none).0

abbrev upgraded : State noq
upgraded = (register_channel again key 5).0

abbrev downgraded : State noq
downgraded = retire_channel upgraded 1

routes_sound_example : IsRouted (book downgraded)
unfolding addr_for_peer fresh_standin register_channel lookup insert dial remote_of follow_dial
    on_dialled kick_pump bytes_beq polymorph_iroh.Net.addr_beq polymorph_iroh.Net.doc_prefix_addr
routes_sound_example = routes_sound downgraded (
    Reach.step upgraded downgraded
      (Reach.step again upgraded
        (Reach.step met again
          (Reach.step fresh met (begun fresh tt true refl) (sees key 0 (omega arith)))
          (Reach.dials 5 tt key none 2 none (omega arith)))
        (registers key 5 (omega arith) (omega arith)))
      (retires 1))

-- A session with the peer through relay 2.
abbrev in_session : State noq
in_session = record fresh { signaling = (key, 2) ∷ [] }

session_found : lookup key in_session.signaling ≡ some 2
unfolding lookup bytes_beq
session_found = refl

fallback_of_sides_example :
    (lookup (next_id in_session) (finish_answer in_session key (some 5)).channels
      ≡ some (record { wire = 5; peer = key; fallback_relay = 2 }))
    × (lookup (next_id in_session) (finish_upgrade in_session key (some 5)).channels
        ≡ some (record { wire = 5; peer = key; fallback_relay = home_relay }))
fallback_of_sides_example = fallback_of_sides in_session key 2 5 refl session_found

connected_iff_example :
    (((on_event dialled 3 10 connected).0.is_connected ≡ true)
      × ((on_event dialled 3 10 connected).0.peer ≡ some key)
      × ((on_event dialled 3 10 connected).1 ≡ []))
    ↔ ((tls_peer noq dialled.conn ≡ some key) × IsExpected dialled.expected_peer key)
connected_iff_example = connected_iff dialled 3 10 key refl

abbrev nameless : ConnEntry (toy none)
nameless = record {
  conn = [];
  epoch = 0;
  expected_peer = none;
  peer = none;
  accepted_side = true;
  is_connected = false;
  alpn = [];
  error = none;
  peer_close = none;
  drained = false;
  bi_queue = [];
  uni_queue = [];
}

fresh_backlog : accept_backlog fresh ≤ accept_backlog_max
unfolding accept_backlog handshaking
fresh_backlog = omega arith

handle_datagram-backlog_example :
    accept_backlog (handle_datagram fresh 10 somewhere none (5 ∷ [])) ≤ accept_backlog_max
handle_datagram-backlog_example =
    handle_datagram-backlog fresh 10 somewhere none (5 ∷ []) fresh_backlog

busy_slot : lookup 3 busy.conns ≡ some (record arrived { epoch = 1 })
unfolding lookup
busy_slot = refl

accept-Claims_iff_example :
    ((accept_check busy).1 ≡ some (some (3, 1)))
    ↔ Claims busy busy.accept_queue (accept_check busy).0.accept_queue (some (3, 1))
accept-Claims_iff_example = accept-Claims_iff busy (3, 1)

busy_stale : entry_for busy 3 0 ≡ none
unfolding entry_for lookup
busy_stale = refl

stale_forever_example : entry_for (dial busy 10 tt key (some somewhere) 0 none).0 3 0 ≡ none
stale_forever_example =
    stale_forever 3 0 busy (dial busy 10 tt key (some somewhere) 0 none).0
      (step start (omega arith) (dials 10 tt key (some somewhere) 0 none)) (omega arith) busy_stale

dials_out : (dial fresh 10 tt key (some somewhere) 0 none).1 ≡ inr (3, 0)
unfolding dial remote_of on_dialled
dials_out = refl
