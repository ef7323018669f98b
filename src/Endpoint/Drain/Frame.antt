-- ===== src/Endpoint/Drain/Frame.antt =====
-- What `drain` leaves alone.
use polymorph_iroh.Base.{
  ℕ, zero, suc, ◌≡◌, refl, sym, ap, subst, ◌∙◌, inl, inr, Bool, true, false, ◌||◌, Option, none,
  some, List, [], ◌∷◌, Bytes, Option-cases,
}
use polymorph_iroh.Base.Maps.{Map, lookup}
use polymorph_iroh.Net.{SocketAddr, addr_key}
use polymorph_iroh.Noq.{Noq}
use polymorph_iroh.Endpoint.{State, ConnEntry, Effect, relay, channel}
use polymorph_iroh.Endpoint.Routes.{route_transmit, push_relay, push_channel, push_udp}
use polymorph_iroh.Endpoint.Routes.Invariant.{Book, book}
use polymorph_iroh.Endpoint.Drain.{
  progressed, drain_endpoint_events, drain_events, drain_transmits, drain_turn, drain_turns,
  drain_conns, drain, end_turn, with_rest, put_conns,
}

-- The book, the relay pool, whether all is closed, the wires with their receives to be armed, the
-- waiters and the effects.
abbrev pub Kept : Type 0
Kept = Book × Map ℕ ℕ × Bool × List (ℕ × ℕ) × List (ℕ × ℕ) × List ℕ × List Effect × Bool × Option ℕ

module _ {noq : Noq} where
  -- What `drain` leaves alone.
  abbrev pub kept : State noq → Kept
  kept st = (
    book st,
    st.relay_pool,
    st.is_closed,
    st.new_relays,
    st.new_channels,
    st.waiters,
    st.effects,
    st.pump_kicked,
    st.pump_waker,
  )

  -- A state that has kept all that, or a panic, of which `N` holds.
  abbrev pub Keeps : {A : Type 0} → Type 0 → Kept → Option (State noq × A × Bool) → Type 0
  Keeps N b none = N
  Keeps N b (some (st, a, more)) = kept st ≡ b

  Keeps-progressed :
      {A : Type 0} (N : Type 0) (b : Kept) (r : Option (State noq × A × Bool))
      → Keeps N b r
      → Keeps N b (progressed r)
  Keeps-progressed N b none k = k
  Keeps-progressed N b (some (st, a, more)) k = k

  pub route_transmit-kept :
      (st next : State noq) (destination : SocketAddr) (payload : Bytes)
      → route_transmit st destination payload ≡ some next
      → kept next ≡ kept st
  unfolding route_transmit push_relay push_channel push_udp
  route_transmit-kept st next destination payload h =
      elim (Option-cases (lookup destination st.routes)) [
        | inl e ↦
            let to : push_udp st destination payload ≡ next = cc (rw (e, route_transmit) at h) in
            sym (ap kept to)
        | inr (channel id, e) ↦
            let to : push_channel st id payload ≡ next = cc (rw (e, route_transmit) at h) in
            sym (ap kept to)
        | inr (relay key, e) ↦ elim (Option-cases (lookup destination st.addr_to_peer)) [
          | inl n ↦ absurd (cc (rw (e, route_transmit, n) at h))
          | inr (p, n) ↦
              let to : push_relay st key p payload ≡ next = cc (rw (e, route_transmit, n) at h) in
              sym (ap kept to)
        ]
      ]

  pub endpoint_events-kept :
      (fuel : ℕ) (st : State noq) (handle : ℕ) (e : ConnEntry noq)
      → kept (drain_endpoint_events fuel st handle e).0 ≡ kept st
  unfolding drain_endpoint_events
  endpoint_events-kept zero st handle e = refl
  endpoint_events-kept (suc fuel) st handle e =
      elim (Option-cases (noq.poll_endpoint_events e.conn)) [
        | inl n ↦ rw (drain_endpoint_events, n) refl
        | inr ((event, conn), h) ↦
            rw (drain_endpoint_events, h) (endpoint_events-kept fuel _ handle _)
      ]

  pub events-kept :
      (fuel : ℕ) (st : State noq) (handle now : ℕ) (e : ConnEntry noq)
      → kept (drain_events fuel st handle now e).0 ≡ kept st
  unfolding drain_events
  events-kept zero st handle now e = refl
  events-kept (suc fuel) st handle now e = elim (Option-cases (noq.poll e.conn)) [
    | inl n ↦ rw (drain_events, n) refl
    | inr ((event, conn), h) ↦ rw (drain_events, h) (events-kept fuel _ handle now _)
  ]

module _ {noq : Noq} (N : Type 0) (b : Kept)
    (panic : (st : State noq) (destination : SocketAddr) (payload : Bytes)
      → kept st ≡ b
      → route_transmit st destination payload ≡ none
      → N) where
  transmits-Keeps :
      (fuel : ℕ) (st : State noq) (now : ℕ) (conn : noq.Conn)
      → kept st ≡ b
      → Keeps N b (drain_transmits fuel st now conn)
  unfolding drain_transmits
  transmits-Keeps zero st now conn k = k
  transmits-Keeps (suc fuel) st now conn k = elim (Option-cases (noq.poll_transmit conn now)) [
    | inl n ↦ rw (drain_transmits, n) k
    | inr (((destination, payload), next), h) ↦
        elim (Option-cases (route_transmit st destination payload)) [
          | inl n ↦ rw (drain_transmits, h, n) (panic st destination payload k n)
          | inr (sent, routed) ↦
              rw (drain_transmits, h, routed)
                (Keeps-progressed N b (drain_transmits fuel sent now next) (
                  transmits-Keeps fuel sent now next
                    (route_transmit-kept st sent destination payload routed ∙ k)))
        ]
  ]

  end_turn-Keeps :
      (e : ConnEntry noq) (before : Bool) (s : Option (State noq × noq.Conn × Bool))
      → Keeps N b s
      → Keeps N b (end_turn e before s)
  end_turn-Keeps e before none c = c
  end_turn-Keeps e before (some (sent, conn, more)) c = c

  turn-Keeps :
      (fuel : ℕ) (st : State noq) (handle now : ℕ) (e : ConnEntry noq)
      → kept st ≡ b
      → Keeps N b (drain_turn fuel st handle now e)
  unfolding drain_turn
  turn-Keeps fuel st handle now e k =
      let r = drain_endpoint_events fuel st handle e in
      let q = drain_events fuel r.0 handle now r.1 in
      let same : kept q.0 ≡ b =
        events-kept fuel r.0 handle now r.1 ∙ endpoint_events-kept fuel st handle e ∙ k in
      end_turn-Keeps q.1 (r.2 || q.2) (drain_transmits fuel q.0 now q.1.conn)
        (transmits-Keeps fuel q.0 now q.1.conn same)

  turns-Keeps :
      (turns fuel : ℕ) (st : State noq) (handle now : ℕ) (e : ConnEntry noq)
      → kept st ≡ b
      → Keeps N b (drain_turns turns fuel st handle now e)
  unfolding drain_turns
  turns-Keeps zero fuel st handle now e k = k
  turns-Keeps (suc turns) fuel st handle now e k =
      goes (λ next f c. turns-Keeps turns fuel next handle now f c)
        (drain_turn fuel st handle now e) (turn-Keeps fuel st handle now e k)
    where
      goes :
          ((next : State noq) (f : ConnEntry noq)
            → kept next ≡ b
            → Keeps N b (drain_turns turns fuel next handle now f))
          → (s : Option (State noq × ConnEntry noq × Bool)) → Keeps N b s
          → Keeps N b (elim s [
            | none ↦ none
            | some (next, f, false) ↦ some (next, f, false)
            | some (next, f, true) ↦ progressed (drain_turns turns fuel next handle now f)
          ])
      goes more none c = c
      goes more (some (next, f, false)) c = c
      goes more (some (next, f, true)) c =
          Keeps-progressed N b (drain_turns turns fuel next handle now f) (more next f c)

  with_rest-Keeps :
      (handle : ℕ) (e : ConnEntry noq) (progress : Bool)
      (s : Option (State noq × Map ℕ (ConnEntry noq) × Bool))
      → Keeps N b s
      → Keeps N b (with_rest handle e progress s)
  with_rest-Keeps handle e progress none c = c
  with_rest-Keeps handle e progress (some (last, rest, later)) c = c

  pub conns-Keeps :
      (turns fuel : ℕ) (st : State noq) (now : ℕ) (conns : Map ℕ (ConnEntry noq))
      → kept st ≡ b
      → Keeps N b (drain_conns turns fuel st now conns)
  unfolding drain_conns
  conns-Keeps turns fuel st now [] k = k
  conns-Keeps turns fuel st now ((handle, e) ∷ conns) k =
      goes (λ next c. conns-Keeps turns fuel next now conns c)
        (drain_turns turns fuel st handle now e) (turns-Keeps turns fuel st handle now e k)
    where
      goes :
          ((next : State noq) → kept next ≡ b → Keeps N b (drain_conns turns fuel next now conns))
          → (s : Option (State noq × ConnEntry noq × Bool)) → Keeps N b s
          → Keeps N b (elim s [
            | none ↦ none
            | some (next, f, progress) ↦
                with_rest handle f progress (drain_conns turns fuel next now conns)
          ])
      goes rest none c = c
      goes rest (some (next, f, progress)) c =
          with_rest-Keeps handle f progress (drain_conns turns fuel next now conns) (rest next c)

module _ {noq : Noq} where
  put_conns-kept :
      (b : Kept) (s : Option (State noq × Map ℕ (ConnEntry noq) × Bool)) (next : State noq)
      (progress : Bool)
      → Keeps Unit b s
      → put_conns s ≡ some (next, progress)
      → kept next ≡ b
  put_conns-kept b none next progress k e = absurd cc
  put_conns-kept b (some (last, conns, more)) next progress k e =
      let same : record last { conns = conns } ≡ next = cc e in subst (λ st. kept st ≡ b) same k

  pub drain-kept :
      (turns fuel : ℕ) (st next : State noq) (now : ℕ) (progress : Bool)
      → drain turns fuel st now ≡ some (next, progress)
      → kept next ≡ kept st
  unfolding drain
  drain-kept turns fuel st next now progress e =
      put_conns-kept (kept st) (drain_conns turns fuel st now st.conns) next progress
        (conns-Keeps Unit (kept st) (λ at destination payload k n. tt) turns fuel st now st.conns
          refl)
        e
