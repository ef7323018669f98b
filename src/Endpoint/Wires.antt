-- ===== src/Endpoint/Wires.antt =====
-- Views of the state of endpoint/src/endpoint_impl.rs: its wires, with those whose receives wait to be
-- armed.
use polymorph_iroh.Base.{ℕ, ◌≡◌, ap, Bool, List, Option}
use polymorph_iroh.Base.Maps.{Map}
use polymorph_iroh.Noq.{Noq}
use polymorph_iroh.Endpoint.{State, ChannelEntry}

abbrev pub Pool : Type 0
Pool = Map ℕ ℕ × Bool × List (ℕ × ℕ)

abbrev pub Wires : Type 0
Wires = Map ℕ ℕ × Bool × List (ℕ × ℕ) × Map ℕ ChannelEntry × List (ℕ × ℕ) × Bool × Option ℕ

module _ {noq : Noq} where
  -- The relay pool, the flag of a closed endpoint and the relays to arm.
  abbrev pub pool_of : State noq → Pool
  pool_of st = (st.relay_pool, st.is_closed, st.new_relays)

  -- The same, the channels and those to arm, and the kick and the waker of the pump.
  abbrev pub wires_of : State noq → Wires
  wires_of st = (
    st.relay_pool, st.is_closed, st.new_relays, st.channels, st.new_channels, st.pump_kicked,
    st.pump_waker,
  )

  pub pool-wires : (st next : State noq) → wires_of next ≡ wires_of st → pool_of next ≡ pool_of st
  pool-wires st next e = ap (λ (w : Wires). (w.0, w.1, w.2)) e
