-- ===== src/Tests/Emitter.antt =====
-- A concrete turn of the pump, on an engine that has something to send.
use polymorph_iroh.Base.{
  ℕ, ◌≡◌, ◌<◌, Bool, length, arith, refl, true, false, ◌||◌, Option, none, some, List, [], ◌∷◌,
  ◌++◌, inr, Bytes, nat_key, bytes_beq,
}
use polymorph_iroh.Base.Maps.{lookup}
use polymorph_iroh.Net.{SocketAddr, v4, addr_key, addr_beq}
use polymorph_iroh.Noq.{WriteOutcome, finished, fin, queued, Noq, new_connection, accepted}
use polymorph_iroh.Endpoint.{State, new_state, new_entry, relay}
use polymorph_iroh.Endpoint.Routes.{route_transmit, push_relay, push_channel, push_udp}
use polymorph_iroh.Endpoint.Drain.{
  drain, drain_conns, drain_turns, drain_turn, drain_transmits, drain_events, drain_endpoint_events,
}
use polymorph_iroh.Endpoint.Drain.Rest.{WorkLaw}
use polymorph_iroh.Endpoint.Drain.Quiescent.{weight, AllAtRest, drain_rests}
use polymorph_iroh.Endpoint.Routes.Invariant.{book}
use polymorph_iroh.Endpoint.Routes.Reach.{new_state-IsRouted}
use polymorph_iroh.Endpoint.Drain.Emits.{TransmitLaw}
use polymorph_iroh.Endpoint.Pump.{new_pump}
use polymorph_iroh.Endpoint.Pump.Loop.{Moment, kicked}
use polymorph_iroh.Endpoint.Pump.Loop.Flush.{Sends, awake}
use polymorph_iroh.Endpoint.Pump.Loop.Turn.{full_turn-Sends}

abbrev hand_out :
    List (SocketAddr × Bytes) × List (SocketAddr × Bytes)
    → Option ((SocketAddr × Bytes) × (List (SocketAddr × Bytes) × List (SocketAddr × Bytes)))
hand_out (out, []) = none
hand_out (out, t ∷ rest) = some (t, (out ++ (t ∷ []), rest))

-- A connection is what it has handed out, and what it will.
abbrev emitter : Noq
emitter = record {
  Engine = Unit {0};
  Conn = List (SocketAddr × Bytes) × List (SocketAddr × Bytes);
  ConnEvent = Unit {0};
  EngineEvent = Unit {0};
  Incoming = Unit {0};
  Config = Unit {0};
  handle = λ engine now addr payload. (tt, some (new_connection tt));
  refuse = λ engine incoming. (tt, []);
  accept = λ engine incoming now. (tt, accepted 3 ([], []));
  connect = λ engine now config addr. (tt, inr (3, ([], [])));
  handle_event = λ engine handle event. (tt, none);
  conn_event = λ conn event. conn;
  poll_endpoint_events = λ conn. none;
  poll = λ conn. none;
  poll_transmit = λ conn now. hand_out conn;
  is_drained = λ conn. false;
  poll_timeout = λ conn. none;
  handle_timeout = λ conn now. conn;
  close = λ conn now code reason. conn;
  network_path = λ conn. none;
  handshake_data = λ conn. none;
  peer_certificate = λ conn. none;
  open_stream = λ conn dir. (conn, some 4);
  write = λ conn id bytes. (conn, WriteOutcome.blocked);
  finish = λ conn id. (conn, finished);
  reset = λ conn id code. conn;
  read = λ conn id max. (conn, fin);
  stop = λ conn id code. conn;
  max_datagram_size = λ conn. some 1200;
  send_datagram = λ conn bytes. (conn, queued);
  recv_datagram = λ conn. (conn, none);
  accept_bi = λ conn. ([], conn);
  accept_uni = λ conn. ([], conn);
  endpoint_id_from_spki = λ spki. none;
  from_utf8_lossy = λ bytes. bytes;
}

law : TransmitLaw emitter
law = record {
  emitted = λ conn. conn.0;
  transmits = handed;
  polls = λ conn next event e. absurd cc;
  polls_endpoint = λ conn next event e. absurd cc;
  hears = λ conn event. refl;
  closes = λ conn now code reason. refl;
  opens_bi = λ conn. refl;
  opens_uni = λ conn. refl;
}
  where
    handed :
        (conn next : List (SocketAddr × Bytes) × List (SocketAddr × Bytes)) (now : ℕ)
        (t : SocketAddr × Bytes)
        → hand_out conn ≡ some (t, next)
        → next.0 ≡ conn.0 ++ (t ∷ [])
    handed (out, []) next now t e = absurd cc
    handed (out, u ∷ rest) next now t e = cc e

abbrev here : SocketAddr
here = v4 (127 ∷ 0 ∷ 0 ∷ 1 ∷ []) 7

abbrev there : SocketAddr
there = v4 (127 ∷ 0 ∷ 0 ∷ 1 ∷ []) 8

-- Two connections, whose destinations have a relay and no route.
abbrev busy : State emitter
busy = record (new_state emitter tt false) {
  conns =
      (3, new_entry ([], (here, 1 ∷ []) ∷ (there, 2 ∷ []) ∷ []) none false 0)
      ∷ (4, new_entry ([], (here, 3 ∷ []) ∷ []) none false 1)
      ∷ [];
  routes = (here, relay 0) ∷ [];
  addr_to_peer = (here, 9 ∷ []) ∷ [];
  relay_pool = (0, 77) ∷ [];
  udp_outbound = (there, 5 ∷ []) ∷ [];
}

abbrev moment : Moment
moment = record { now = 0; draw = none; failed = false; turns = 5; fuel = 5; event = kicked }

abbrev drained : State emitter
drained = record busy {
  conns =
      (3, new_entry ((here, 1 ∷ []) ∷ (there, 2 ∷ []) ∷ [], []) none false 0)
      ∷ (4, new_entry ((here, 3 ∷ []) ∷ [], []) none false 1)
      ∷ [];
  relay_outbound = (0, 9 ∷ [], 1 ∷ []) ∷ (0, 9 ∷ [], 3 ∷ []) ∷ [];
  udp_outbound = (there, 5 ∷ []) ∷ (there, 2 ∷ []) ∷ [];
}

drains : drain 5 5 busy 0 ≡ some (drained, true)
unfolding drain drain_conns drain_turns drain_turn drain_transmits drain_events
    drain_endpoint_events route_transmit push_relay push_channel push_udp lookup new_entry addr_beq
    bytes_beq
drains = refl

-- A connection has left to say what it will hand out.
work_law : WorkLaw emitter
work_law = record {
  work = λ conn. length conn.1;
  polls_endpoint = λ engine handle conn next event e. absurd cc;
  polls = λ conn next event e. absurd cc;
  connects = λ conn next now code reason e. absurd cc;
  transmits = shorter;
  opens_bi = λ conn. omega arith;
  opens_uni = λ conn. omega arith;
}
  where
    shorter :
        (conn next : List (SocketAddr × Bytes) × List (SocketAddr × Bytes)) (now : ℕ)
        (t : SocketAddr × Bytes)
        → hand_out conn ≡ some (t, next)
        → length next.1 < length conn.1
    shorter (out, []) next now t e = absurd cc
    shorter (out, u ∷ rest) next now t e =
        let same : ◌≡◌ {A = List (SocketAddr × Bytes)} next.1 rest = cc e in rw same (omega arith)

-- Two connections on an empty book.
abbrev talking : State emitter
talking = record (new_state emitter tt false) { conns = busy.conns }

weighs : weight work_law talking.conns ≡ 3
unfolding weight work_law new_entry
weighs = refl

drain_rests_example :
    (next : State emitter) × (progress : Bool) × (drain 4 4 talking 0 ≡ some (next, progress))
    × (book next ≡ book talking)
    × AllAtRest work_law 0 next.conns
drain_rests_example =
    drain_rests work_law 4 4 talking 0 (new_state-IsRouted emitter tt false)
      (rw weighs (omega arith)) (rw weighs (omega arith))

full_turn-Sends_example :
    (next : State emitter) × (progress : Bool) × AllAtRest work_law 0 next.conns
    × Sends law moment talking next (new_pump true 0) (awake (progress || false) next)
full_turn-Sends_example =
    full_turn-Sends law work_law moment talking (new_pump true 0)
      (new_state-IsRouted emitter tt false) (rw weighs (omega arith)) (rw weighs (omega arith))
