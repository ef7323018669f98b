-- ===== src/Endpoint/Drain.antt =====
-- `drain` of endpoint/src/endpoint_impl.rs: each connection's events for the engine, its events for
-- the application and its transmits, until a turn finds nothing. How often the engine has more to
-- say is up to it, so each of the loops has a fuel. No result is the panic of a transmit's routing.
pub mod Frame
pub mod Total
pub mod Rest
pub mod Quiescent
pub mod Queued
pub mod Emits
use polymorph_iroh.Base.{
  ℕ, zero, suc, Bool, true, false, not, ◌&&◌, ◌||◌, Option, none, some, [], ◌∷◌, ◌++◌,
  if◌then◌else◌,
}
use polymorph_iroh.Base.Maps.{Map}
use polymorph_iroh.Noq.{Noq}
use polymorph_iroh.Endpoint.{State, ConnEntry}
use polymorph_iroh.Endpoint.Routes.{route_transmit}
use polymorph_iroh.Endpoint.Conns.{on_event}

-- The result of a loop that has made progress before.
abbrev pub progressed {ℓ κ} :
    {A : Type ℓ} {B : Type κ} → Option (A × B × Bool) → Option (A × B × Bool)
progressed none = none
progressed (some (a, b, more)) = some (a, b, true)

abbrev answer_conn : (noq : Noq) → noq.Conn → Option noq.ConnEvent → noq.Conn
answer_conn noq conn none = conn
answer_conn noq conn (some event) = noq.conn_event conn event

module _ {noq : Noq} where
  unfoldable pub drain_endpoint_events :
      ℕ → State noq → ℕ → ConnEntry noq → State noq × ConnEntry noq × Bool
  drain_endpoint_events zero st handle e = (st, e, false)
  drain_endpoint_events (suc fuel) st handle e = elim (noq.poll_endpoint_events e.conn) [
    | none ↦ (st, e, false)
    | some (event, conn) ↦
        let (engine, back) = noq.handle_event st.engine handle event in
        let r =
          drain_endpoint_events fuel (record st { engine = engine }) handle
            (record e { conn = answer_conn noq conn back }) in
        (r.0, r.1, true)
  ]

  unfoldable pub drain_events :
      ℕ → State noq → ℕ → ℕ → ConnEntry noq → State noq × ConnEntry noq × Bool
  drain_events zero st handle now e = (st, e, false)
  drain_events (suc fuel) st handle now e = elim (noq.poll e.conn) [
    | none ↦ (st, e, false)
    | some (event, conn) ↦
        let (next, claims) = on_event (record e { conn = conn }) handle now event in
        let r =
          drain_events fuel (record st { accept_queue = st.accept_queue ++ claims }) handle now
            next in
        (r.0, r.1, true)
  ]

  unfoldable pub drain_transmits :
      ℕ → State noq → ℕ → noq.Conn → Option (State noq × noq.Conn × Bool)
  drain_transmits zero st now conn = some (st, conn, false)
  drain_transmits (suc fuel) st now conn = elim (noq.poll_transmit conn now) [
    | none ↦ some (st, conn, false)
    | some ((destination, payload), next) ↦ elim (route_transmit st destination payload) [
      | none ↦ none
      | some sent ↦ progressed (drain_transmits fuel sent now next)
    ]
  ]

  abbrev pub end_turn :
      ConnEntry noq
      → Bool
      → Option (State noq × noq.Conn × Bool)
      → Option (State noq × ConnEntry noq × Bool)
  end_turn e before none = none
  end_turn e before (some (sent, conn, more)) =
      some (sent, record e { conn = conn }, before || more)

  -- One turn of the loop over a connection.
  unfoldable pub drain_turn :
      ℕ → State noq → ℕ → ℕ → ConnEntry noq → Option (State noq × ConnEntry noq × Bool)
  drain_turn fuel st handle now e =
      let r = drain_endpoint_events fuel st handle e in
      let q = drain_events fuel r.0 handle now r.1 in
      end_turn q.1 (r.2 || q.2) (drain_transmits fuel q.0 now q.1.conn)

  unfoldable pub drain_turns :
      ℕ → ℕ → State noq → ℕ → ℕ → ConnEntry noq → Option (State noq × ConnEntry noq × Bool)
  drain_turns zero fuel st handle now e = some (st, e, false)
  drain_turns (suc turns) fuel st handle now e = elim (drain_turn fuel st handle now e) [
    | none ↦ none
    | some (next, f, false) ↦ some (next, f, false)
    | some (next, f, true) ↦ progressed (drain_turns turns fuel next handle now f)
  ]

  -- The mark of a connection that the engine is done with.
  abbrev mark_drained : ConnEntry noq → Bool → ConnEntry noq × Bool
  mark_drained e progress =
      if not e.drained && noq.is_drained e.conn
      then (record e { drained = true }, true)
      else (e, progress)

  abbrev pub with_rest :
      ℕ
      → ConnEntry noq
      → Bool
      → Option (State noq × Map ℕ (ConnEntry noq) × Bool)
      → Option (State noq × Map ℕ (ConnEntry noq) × Bool)
  with_rest handle e progress none = none
  with_rest handle e progress (some (last, rest, later)) =
      let marked = mark_drained e progress in
      some (last, (handle, marked.0) ∷ rest, marked.1 || later)

  unfoldable pub drain_conns :
      ℕ
      → ℕ
      → State noq
      → ℕ
      → Map ℕ (ConnEntry noq)
      → Option (State noq × Map ℕ (ConnEntry noq) × Bool)
  drain_conns turns fuel st now [] = some (st, [], false)
  drain_conns turns fuel st now ((handle, e) ∷ conns) =
      elim (drain_turns turns fuel st handle now e) [
        | none ↦ none
        | some (next, f, progress) ↦
            with_rest handle f progress (drain_conns turns fuel next now conns)
      ]

  abbrev pub put_conns :
      Option (State noq × Map ℕ (ConnEntry noq) × Bool) → Option (State noq × Bool)
  put_conns none = none
  put_conns (some (next, conns, progress)) = some (record next { conns = conns }, progress)

  -- The whole of `drain`, with whether it made progress.
  unfoldable pub drain : ℕ → ℕ → State noq → ℕ → Option (State noq × Bool)
  drain turns fuel st now = put_conns (drain_conns turns fuel st now st.conns)
