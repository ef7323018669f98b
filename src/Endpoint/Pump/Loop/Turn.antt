-- ===== src/Endpoint/Pump/Loop/Turn.antt =====
-- A whole turn of the pump of endpoint/src/endpoint_impl.rs, from the top of its loop to the arming.
use polymorph_iroh.Base.{◌<◌, Bool, ◌||◌, nat_key}
use polymorph_iroh.Net.{addr_key}
use polymorph_iroh.Noq.{Noq}
use polymorph_iroh.Endpoint.{State}
use polymorph_iroh.Endpoint.Routes.Invariant.{IsRouted, book}
use polymorph_iroh.Endpoint.Drain.Rest.{WorkLaw}
use polymorph_iroh.Endpoint.Drain.Quiescent.{weight, AllAtRest, drain_rests}
use polymorph_iroh.Endpoint.Drain.Emits.{TransmitLaw}
use polymorph_iroh.Endpoint.Pump.{Pump}
use polymorph_iroh.Endpoint.Pump.Loop.{Moment}
use polymorph_iroh.Endpoint.Pump.Loop.Flush.{Sends, awake, turn-Sends}

module _ {noq : Noq} (law : TransmitLaw noq) (finite : WorkLaw noq) where
  -- With an engine whose `poll_transmit` alone hands out transmits, and whose connections have
  -- finitely much to say, on a consistent book and with one round more for each loop of the drain
  -- than the connections have left: if no send fails and no other task runs meanwhile, the pump comes
  -- from the top of its loop to the arming, in finitely many steps. By then no connection has
  -- anything left to say, and the pump has sent, in order, what was queued before and behind that
  -- what the connections have handed out in the drain: on the connection that the pool has for a
  -- relay, on the wire that a channel has, or on the UDP socket, and nothing where these are gone.
  -- The queues are empty.
  pub full_turn-Sends :
      (m : Moment) (st : State noq) (p : Pump)
      → IsRouted (book st)
      → weight finite st.conns < m.turns
      → weight finite st.conns < m.fuel
      → (next : State noq) × (progress : Bool) × AllAtRest finite m.now next.conns
        × Sends law m st next p (awake (progress || p.force_wake) next)
  full_turn-Sends m st p v long enough =
      let (next, progress, ended, same, rest) =
        drain_rests finite m.turns m.fuel st m.now v long enough in
      (next, progress, rest, turn-Sends law m st next p progress ended)
