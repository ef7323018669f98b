-- ===== src/Endpoint/Drain/Rest.antt =====
-- That the loops of a turn of `drain` in endpoint/src/endpoint_impl.rs end, and how they leave a
-- connection.
use polymorph_iroh.Base.{
  ℕ, zero, suc, ◌<◌, ◌≤◌, ◌≡◌, refl, sym, ap, subst, ◌∙◌, inl, inr, Bool, true, false, ◌||◌, Option,
  none, some, ◌++◌, Bytes, Option-cases, arith, nat_key,
}
use polymorph_iroh.Net.{SocketAddr, addr_key}
use polymorph_iroh.Noq.{Noq, Event, connected}
use polymorph_iroh.Endpoint.{State, ConnEntry}
use polymorph_iroh.Endpoint.Routes.{route_transmit}
use polymorph_iroh.Endpoint.Conns.{on_event}
use polymorph_iroh.Endpoint.Conns.Events.{on_event-fact}
use polymorph_iroh.Endpoint.Drain.{
  progressed, answer_conn, drain_endpoint_events, drain_events, drain_transmits, drain_turn,
  end_turn,
}

-- The engine's promise: a connection has finitely much to say. What it has left shrinks with each
-- poll that gives something, also where the engine answers the event of a connection, and where a
-- handshake that is reported is answered by a close; reading off its streams adds nothing.
pub record WorkLaw (noq : Noq) : Type 0 where
  pub work : noq.Conn → ℕ
  pub polls_endpoint :
      (engine : noq.Engine) (handle : ℕ) (conn next : noq.Conn) (event : noq.EngineEvent)
      → noq.poll_endpoint_events conn ≡ some (event, next)
      → work (answer_conn noq next (noq.handle_event engine handle event).1) < work conn
  pub polls :
      (conn next : noq.Conn) (event : Event)
      → noq.poll conn ≡ some (event, next)
      → work next < work conn
  pub connects :
      (conn next : noq.Conn) (now code : ℕ) (reason : Bytes)
      → noq.poll conn ≡ some (connected, next)
      → work (noq.close next now code reason) < work conn
  pub transmits :
      (conn next : noq.Conn) (now : ℕ) (t : SocketAddr × Bytes)
      → noq.poll_transmit conn now ≡ some (t, next)
      → work next < work conn
  pub opens_bi : (conn : noq.Conn) → work (noq.accept_bi conn).1 ≤ work conn
  pub opens_uni : (conn : noq.Conn) → work (noq.accept_uni conn).1 ≤ work conn

-- A connection that has nothing to say at an instant.
abbrev pub IsAtRest : (noq : Noq) → ℕ → noq.Conn → Type 0
IsAtRest noq now conn =
    (noq.poll_endpoint_events conn ≡ none)
    × (noq.poll conn ≡ none)
    × (noq.poll_transmit conn now ≡ none)

module _ {noq : Noq} (law : WorkLaw noq) where
  -- Handling what a poll gave leaves less to do than there was before the poll.
  on_event-work :
      (e : ConnEntry noq) (handle now : ℕ) (event : Event) (before : noq.Conn)
      → noq.poll before ≡ some (event, e.conn)
      → law.work (on_event e handle now event).0.conn < law.work before
  on_event-work e handle now event before h =
      let less = law.polls before e.conn event h in
      on_event-fact (λ conn. law.work conn < law.work before) e handle now event less
        (omega (arith, less, law.opens_bi e.conn, law.opens_uni (noq.accept_bi e.conn).1))
        (λ is_connected now code reason.
          law.connects before e.conn now code reason (h ∙ ap (λ x. some (x, e.conn)) is_connected))

  -- What a loop does to a connection, by whether it made progress: it is as it was, or has less left.
  abbrev Lighter : noq.Conn → noq.Conn → Bool → Type 0
  Lighter conn after false = after ≡ conn
  Lighter conn after true = law.work after < law.work conn

  Lighter-le :
      (conn after : noq.Conn) (more : Bool)
      → Lighter conn after more
      → law.work after ≤ law.work conn
  Lighter-le conn after false h = rw h (omega arith)
  Lighter-le conn after true h = omega (arith, h)

  Lighter-trans :
      (a b c : noq.Conn) (first later : Bool)
      → Lighter a b first
      → Lighter b c later
      → Lighter a c (first || later)
  Lighter-trans a b c false later h k = subst (λ x. Lighter x c later) h k
  Lighter-trans a b c true later h k = omega (arith, h, Lighter-le b c later k)

  endpoint_events-rest :
      (fuel : ℕ) (st : State noq) (handle : ℕ) (e : ConnEntry noq)
      → law.work e.conn < fuel
      → let r = drain_endpoint_events fuel st handle e in
        Lighter e.conn r.1.conn r.2 × (noq.poll_endpoint_events r.1.conn ≡ none)
  unfolding drain_endpoint_events
  endpoint_events-rest zero st handle e enough = absurd (omega (arith, enough))
  endpoint_events-rest (suc fuel) st handle e enough =
      elim (Option-cases (noq.poll_endpoint_events e.conn)) [
        | inl n ↦ rw (drain_endpoint_events, n) (refl, n)
        | inr ((event, conn), h) ↦
            let (engine, back) = noq.handle_event st.engine handle event in
            let less = law.polls_endpoint st.engine handle e.conn conn event h in
            let mid = record e { conn = answer_conn noq conn back } in
            let r = drain_endpoint_events fuel (record st { engine = engine }) handle mid in
            let (k, n) =
              endpoint_events-rest fuel (record st { engine = engine }) handle mid
                (omega (arith, less, enough)) in
            rw (drain_endpoint_events, h)
              (omega (arith, less, Lighter-le mid.conn r.1.conn r.2 k), n)
      ]

  events-rest :
      (fuel : ℕ) (st : State noq) (handle now : ℕ) (e : ConnEntry noq)
      → law.work e.conn < fuel
      → let r = drain_events fuel st handle now e in
        Lighter e.conn r.1.conn r.2 × (noq.poll r.1.conn ≡ none)
  unfolding drain_events
  events-rest zero st handle now e enough = absurd (omega (arith, enough))
  events-rest (suc fuel) st handle now e enough = elim (Option-cases (noq.poll e.conn)) [
    | inl n ↦ rw (drain_events, n) (refl, n)
    | inr ((event, conn), h) ↦
        let (mid, claims) = on_event (record e { conn = conn }) handle now event in
        let less = on_event-work (record e { conn = conn }) handle now event e.conn h in
        let later = record st { accept_queue = st.accept_queue ++ claims } in
        let r = drain_events fuel later handle now mid in
        let (k, n) = events-rest fuel later handle now mid (omega (arith, less, enough)) in
        rw (drain_events, h) (omega (arith, less, Lighter-le mid.conn r.1.conn r.2 k), n)
  ]

  OnConn : ℕ → noq.Conn → Option (State noq × noq.Conn × Bool) → Type 0
  OnConn now conn none = Unit {0}
  OnConn now conn (some (next, after, more)) =
      Lighter conn after more × (noq.poll_transmit after now ≡ none)

  OnConn-progressed :
      (now : ℕ) (conn mid : noq.Conn) (r : Option (State noq × noq.Conn × Bool))
      → law.work mid < law.work conn
      → OnConn now mid r
      → OnConn now conn (progressed r)
  unfolding OnConn
  OnConn-progressed now conn mid none less k = tt
  OnConn-progressed now conn mid (some (next, after, more)) less (k, n) =
      (omega (arith, less, Lighter-le mid after more k), n)

  transmits-rest :
      (fuel : ℕ) (st : State noq) (now : ℕ) (conn : noq.Conn)
      → law.work conn < fuel
      → OnConn now conn (drain_transmits fuel st now conn)
  unfolding drain_transmits OnConn
  transmits-rest zero st now conn enough = absurd (omega (arith, enough))
  transmits-rest (suc fuel) st now conn enough = elim (Option-cases (noq.poll_transmit conn now)) [
    | inl n ↦ rw (drain_transmits, n) (refl, n)
    | inr (((to, payload), next), h) ↦
        let less = law.transmits conn next now (to, payload) h in
        elim (Option-cases (route_transmit st to payload)) [
          | inl n ↦ rw (drain_transmits, h, n) tt
          | inr (sent, routed) ↦
              rw (drain_transmits, h, routed)
                (OnConn-progressed now conn next (drain_transmits fuel sent now next) less
                  (transmits-rest fuel sent now next (omega (arith, less, enough))))
        ]
  ]

  -- What a turn does: the last one finds the connection at rest, and each other leaves it less.
  unfoldable pub Settles : ℕ → noq.Conn → noq.Conn → Bool → Type 0
  Settles now conn after false = IsAtRest noq now after
  Settles now conn after true = law.work after < law.work conn

  unfoldable pub OnTurn : ℕ → noq.Conn → Option (State noq × ConnEntry noq × Bool) → Type 0
  OnTurn now conn none = Unit {0}
  OnTurn now conn (some (next, f, more)) = Settles now conn f.conn more

  settled :
      (now : ℕ) (conn a b after : noq.Conn) (x y z : Bool)
      → Lighter conn a x
      → noq.poll_endpoint_events a ≡ none
      → Lighter a b y
      → noq.poll b ≡ none
      → Lighter b after z
      → noq.poll_transmit after now ≡ none
      → Settles now conn after ((x || y) || z)
  unfolding Settles
  settled now conn a b after true y z ha na hb nb hc nc =
      omega (arith, ha, Lighter-le a b y hb, Lighter-le b after z hc)
  settled now conn a b after false true z ha na hb nb hc nc =
      subst (λ c. law.work after < law.work c) ha (omega (arith, hb, Lighter-le b after z hc))
  settled now conn a b after false false true ha na hb nb hc nc =
      subst (λ c. law.work after < law.work c) (hb ∙ ha) hc
  settled now conn a b after false false false ha na hb nb hc nc = (
    subst (λ c. noq.poll_endpoint_events c ≡ none) (sym (hc ∙ hb)) na,
    subst (λ c. noq.poll c ≡ none) (sym hc) nb,
    nc,
  )

  end_turn-rest :
      (now : ℕ) (conn a : noq.Conn) (q : ConnEntry noq) (x y : Bool)
      (r : Option (State noq × noq.Conn × Bool))
      → Lighter conn a x
      → noq.poll_endpoint_events a ≡ none
      → Lighter a q.conn y
      → noq.poll q.conn ≡ none
      → OnConn now q.conn r
      → OnTurn now conn (end_turn q (x || y) r)
  unfolding OnConn OnTurn
  end_turn-rest now conn a q x y none ha na hb nb k = tt
  end_turn-rest now conn a q x y (some (sent, after, z)) ha na hb nb (k, n) =
      settled now conn a q.conn after x y z ha na hb nb k n

  pub turn-rest :
      (fuel : ℕ) (st : State noq) (handle now : ℕ) (e : ConnEntry noq)
      → law.work e.conn < fuel
      → OnTurn now e.conn (drain_turn fuel st handle now e)
  unfolding drain_turn
  turn-rest fuel st handle now e enough =
      let r = drain_endpoint_events fuel st handle e in
      let (a, na) = endpoint_events-rest fuel st handle e enough in
      let small : law.work r.1.conn < fuel =
        omega (arith, enough, Lighter-le e.conn r.1.conn r.2 a) in
      let q = drain_events fuel r.0 handle now r.1 in
      let (b, nb) = events-rest fuel r.0 handle now r.1 small in
      end_turn-rest now e.conn r.1.conn q.1 r.2 q.2 (drain_transmits fuel q.0 now q.1.conn) a na b
        nb
        (transmits-rest fuel q.0 now q.1.conn (
          omega
            (arith, enough, Lighter-le e.conn r.1.conn r.2 a, Lighter-le r.1.conn q.1.conn q.2 b)))
