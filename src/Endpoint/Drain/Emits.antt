-- ===== src/Endpoint/Drain/Emits.antt =====
-- What becomes of the transmits of the engine in `drain` of endpoint/src/endpoint_impl.rs.
use mathlib.Core.List.{append-nil, append_assoc}
use polymorph_iroh.Base.{
  ℕ, zero, suc, ◌≡◌, refl, sym, ap, subst, ◌∙◌, inl, inr, Bool, true, false, ◌||◌, Option, none,
  not, ◌&&◌, if_cases, some, List, [], ◌∷◌, ◌++◌, Bytes, Option-cases,
}
use polymorph_iroh.Base.Maps.{Map}
use polymorph_iroh.Net.{SocketAddr, addr_key}
use polymorph_iroh.Noq.{Noq, Event}
use polymorph_iroh.Endpoint.{State, ConnEntry}
use polymorph_iroh.Endpoint.Routes.{route_transmit}
use polymorph_iroh.Endpoint.Conns.{on_event}
use polymorph_iroh.Endpoint.Conns.Events.{on_event-view}
use polymorph_iroh.Endpoint.Drain.{
  progressed, answer_conn, drain_endpoint_events, drain_events, drain_transmits, drain_turn,
  drain_turns, drain_conns, drain, end_turn, with_rest, put_conns,
}
use polymorph_iroh.Endpoint.Drain.Queued.{Transmits, Queued, unchanged, Queued-trans, one-Queued}

-- The engine's promise: what a connection has handed out to be sent, in order. A `poll_transmit`
-- extends it by what it returns, and the other calls of `drain` do not change it.
pub record TransmitLaw (noq : Noq) : Type 0 where
  pub emitted : noq.Conn → List (SocketAddr × Bytes)
  pub transmits :
      (conn next : noq.Conn) (now : ℕ) (t : SocketAddr × Bytes)
      → noq.poll_transmit conn now ≡ some (t, next)
      → emitted next ≡ emitted conn ++ (t ∷ [])
  pub polls :
      (conn next : noq.Conn) (event : Event)
      → noq.poll conn ≡ some (event, next)
      → emitted next ≡ emitted conn
  pub polls_endpoint :
      (conn next : noq.Conn) (event : noq.EngineEvent)
      → noq.poll_endpoint_events conn ≡ some (event, next)
      → emitted next ≡ emitted conn
  pub hears :
      (conn : noq.Conn) (event : noq.ConnEvent) → emitted (noq.conn_event conn event) ≡ emitted conn
  pub closes :
      (conn : noq.Conn) (now code : ℕ) (reason : Bytes)
      → emitted (noq.close conn now code reason) ≡ emitted conn
  pub opens_bi : (conn : noq.Conn) → emitted (noq.accept_bi conn).1 ≡ emitted conn
  pub opens_uni : (conn : noq.Conn) → emitted (noq.accept_uni conn).1 ≡ emitted conn

module _ {noq : Noq} (law : TransmitLaw noq) where
  -- What a connection has handed out since is queued.
  abbrev Sent : State noq → noq.Conn → State noq → noq.Conn → Type 0
  Sent st conn next after =
      (ts : Transmits) × Queued st next ts × (law.emitted after ≡ law.emitted conn ++ ts)

  abbrev OnConn : State noq → noq.Conn → Option (State noq × noq.Conn × Bool) → Type 0
  OnConn st conn none = Unit {0}
  OnConn st conn (some (next, after, more)) = Sent st conn next after

  abbrev OnEntry : State noq → noq.Conn → Option (State noq × ConnEntry noq × Bool) → Type 0
  OnEntry st conn none = Unit {0}
  OnEntry st conn (some (next, after, more)) = Sent st conn next after.conn

  Sent-trans :
      (st mid next : State noq) (conn between after : noq.Conn)
      → Sent st conn mid between
      → Sent mid between next after
      → Sent st conn next after
  Sent-trans st mid next conn between after (ts, a, f) (us, b, g) = (
    ts ++ us,
    Queued-trans st mid next ts us a b,
    g ∙ ap (λ x. x ++ us) f ∙ append_assoc (law.emitted conn) ts us,
  )

  quietly :
      (st next : State noq) (conn after : noq.Conn)
      → Queued st next []
      → law.emitted after ≡ law.emitted conn
      → Sent st conn next after
  quietly st next conn after q e = ([], q, e ∙ sym (append-nil (law.emitted conn)))

  answer_conn-emitted :
      (conn : noq.Conn) (back : Option noq.ConnEvent)
      → law.emitted (answer_conn noq conn back) ≡ law.emitted conn
  answer_conn-emitted conn none = refl
  answer_conn-emitted conn (some event) = law.hears conn event

  endpoint_events-quiet :
      (fuel : ℕ) (st : State noq) (handle : ℕ) (e : ConnEntry noq)
      → let r = drain_endpoint_events fuel st handle e in
        Queued st r.0 [] × (law.emitted r.1.conn ≡ law.emitted e.conn)
  unfolding drain_endpoint_events
  endpoint_events-quiet zero st handle e = (unchanged st st refl refl refl refl, refl)
  endpoint_events-quiet (suc fuel) st handle e =
      elim (Option-cases (noq.poll_endpoint_events e.conn)) [
        | inl n ↦ rw (drain_endpoint_events, n) (unchanged st st refl refl refl refl, refl)
        | inr ((event, conn), h) ↦
            let (engine, back) = noq.handle_event st.engine handle event in
            let (q, same) =
              endpoint_events-quiet fuel (record st { engine = engine }) handle
                (record e { conn = answer_conn noq conn back }) in
            rw (drain_endpoint_events, h)
              (
                Queued-trans st (record st { engine = engine }) _ [] []
                    (unchanged st (record st { engine = engine }) refl refl refl refl) q,
                same ∙ answer_conn-emitted conn back ∙ law.polls_endpoint e.conn conn event h,
              )
      ]

  events-quiet :
      (fuel : ℕ) (st : State noq) (handle now : ℕ) (e : ConnEntry noq)
      → let r = drain_events fuel st handle now e in
        Queued st r.0 [] × (law.emitted r.1.conn ≡ law.emitted e.conn)
  unfolding drain_events
  events-quiet zero st handle now e = (unchanged st st refl refl refl refl, refl)
  events-quiet (suc fuel) st handle now e = elim (Option-cases (noq.poll e.conn)) [
    | inl n ↦ rw (drain_events, n) (unchanged st st refl refl refl refl, refl)
    | inr ((event, conn), h) ↦
        let f = record e { conn = conn } in
        let (next, claims) = on_event f handle now event in
        let mid = record st { accept_queue = st.accept_queue ++ claims } in
        let (q, same) = events-quiet fuel mid handle now next in
        rw (drain_events, h)
          (
            Queued-trans st mid _ [] [] (unchanged st mid refl refl refl refl) q,
            same
                ∙ on_event-view law.emitted law.closes law.opens_bi law.opens_uni f handle now event
                ∙ law.polls e.conn conn event h,
          )
  ]

  OnConn-progressed :
      (st : State noq) (conn : noq.Conn) (r : Option (State noq × noq.Conn × Bool))
      → OnConn st conn r
      → OnConn st conn (progressed r)
  OnConn-progressed st conn none k = k
  OnConn-progressed st conn (some (next, after, more)) k = k

  OnConn-trans :
      (st mid : State noq) (conn between : noq.Conn) (r : Option (State noq × noq.Conn × Bool))
      → Sent st conn mid between
      → OnConn mid between r
      → OnConn st conn r
  OnConn-trans st mid conn between none a k = k
  OnConn-trans st mid conn between (some (next, after, more)) a k =
      Sent-trans st mid next conn between after a k

  transmits-OnConn :
      (fuel : ℕ) (st : State noq) (now : ℕ) (conn : noq.Conn)
      → OnConn st conn (drain_transmits fuel st now conn)
  unfolding drain_transmits
  transmits-OnConn zero st now conn =
      quietly st st conn conn (unchanged st st refl refl refl refl) refl
  transmits-OnConn (suc fuel) st now conn = elim (Option-cases (noq.poll_transmit conn now)) [
    | inl n ↦
        rw (drain_transmits, n) (quietly st st conn conn (unchanged st st refl refl refl refl) refl)
    | inr (((to, payload), next), h) ↦ elim (Option-cases (route_transmit st to payload)) [
      | inl n ↦ rw (drain_transmits, h, n) tt
      | inr (sent, routed) ↦
          rw (drain_transmits, h, routed)
            (OnConn-progressed st conn (drain_transmits fuel sent now next) (
              OnConn-trans st sent conn next (drain_transmits fuel sent now next)
                (
                  (to, payload) ∷ [],
                  one-Queued st sent to payload routed,
                  law.transmits conn next now (to, payload) h,
                )
                (transmits-OnConn fuel sent now next)))
    ]
  ]

  end_turn-OnEntry :
      (st : State noq) (conn : noq.Conn) (e : ConnEntry noq) (before : Bool)
      (r : Option (State noq × noq.Conn × Bool))
      → OnConn st conn r
      → OnEntry st conn (end_turn e before r)
  end_turn-OnEntry st conn e before none k = tt
  end_turn-OnEntry st conn e before (some (sent, after, more)) k = k

  turn-OnEntry :
      (fuel : ℕ) (st : State noq) (handle now : ℕ) (e : ConnEntry noq)
      → OnEntry st e.conn (drain_turn fuel st handle now e)
  unfolding drain_turn
  turn-OnEntry fuel st handle now e =
      let r = drain_endpoint_events fuel st handle e in
      let q = drain_events fuel r.0 handle now r.1 in
      let (a, f) = endpoint_events-quiet fuel st handle e in
      let (b, g) = events-quiet fuel r.0 handle now r.1 in
      end_turn-OnEntry st e.conn q.1 (r.2 || q.2) (drain_transmits fuel q.0 now q.1.conn) (
        OnConn-trans st q.0 e.conn q.1.conn (drain_transmits fuel q.0 now q.1.conn)
          (quietly st q.0 e.conn q.1.conn (Queued-trans st r.0 q.0 [] [] a b) (g ∙ f))
          (transmits-OnConn fuel q.0 now q.1.conn))

  OnEntry-progressed :
      (st mid : State noq) (conn between : noq.Conn) (r : Option (State noq × ConnEntry noq × Bool))
      → Sent st conn mid between
      → OnEntry mid between r
      → OnEntry st conn (progressed r)
  OnEntry-progressed st mid conn between none a k = tt
  OnEntry-progressed st mid conn between (some (next, after, more)) a k =
      Sent-trans st mid next conn between after.conn a k

  turns-OnEntry :
      (turns fuel : ℕ) (st : State noq) (handle now : ℕ) (e : ConnEntry noq)
      → OnEntry st e.conn (drain_turns turns fuel st handle now e)
  unfolding drain_turns
  turns-OnEntry zero fuel st handle now e =
      quietly st st e.conn e.conn (unchanged st st refl refl refl refl) refl
  turns-OnEntry (suc turns) fuel st handle now e =
      goes (λ next f. turns-OnEntry turns fuel next handle now f) (drain_turn fuel st handle now e)
        (turn-OnEntry fuel st handle now e)
    where
      goes :
          ((next : State noq) (f : ConnEntry noq)
            → OnEntry next f.conn (drain_turns turns fuel next handle now f))
          → (r : Option (State noq × ConnEntry noq × Bool)) → OnEntry st e.conn r
          → OnEntry st e.conn (elim r [
            | none ↦ none
            | some (next, f, false) ↦ some (next, f, false)
            | some (next, f, true) ↦ progressed (drain_turns turns fuel next handle now f)
          ])
      goes more none k = tt
      goes more (some (next, f, false)) k = k
      goes more (some (next, f, true)) k =
          OnEntry-progressed st next e.conn f.conn (drain_turns turns fuel next handle now f) k
            (more next f)

  -- The connections have handed out these transmits since, one after the other.
  abbrev pub HandedOut : Map ℕ (ConnEntry noq) → Map ℕ (ConnEntry noq) → Transmits → Type 0
  HandedOut [] [] ts = ts ≡ []
  HandedOut ((h, e) ∷ before) ((k, f) ∷ after) ts =
      (h ≡ k)
      × ((now : Transmits) × (later : Transmits) × (ts ≡ now ++ later)
          × (law.emitted f.conn ≡ law.emitted e.conn ++ now)
          × HandedOut before after later)
  HandedOut _ _ ts = ⊥

  abbrev OnConns :
      State noq → Map ℕ (ConnEntry noq) → Option (State noq × Map ℕ (ConnEntry noq) × Bool) → Type 0
  OnConns st conns none = Unit {0}
  OnConns st conns (some (next, after, more)) =
      (ts : Transmits) × Queued st next ts × HandedOut conns after ts

  with_rest-OnConns :
      (st mid : State noq) (handle : ℕ) (e f : ConnEntry noq) (conns : Map ℕ (ConnEntry noq))
      (progress : Bool) (r : Option (State noq × Map ℕ (ConnEntry noq) × Bool))
      → Sent st e.conn mid f.conn
      → OnConns mid conns r
      → OnConns st ((handle, e) ∷ conns) (with_rest handle f progress r)
  with_rest-OnConns st mid handle e f conns progress none a k = tt
  with_rest-OnConns st mid handle e f conns progress (some (last, rest, later)) (ts, a, g)
        (us, b, k) =
      (
        ts ++ us,
        Queued-trans st mid last ts us a b,
        (
          refl,
          (
            ts,
            us,
            refl,
            if_cases (λ (m : ConnEntry noq × Bool). law.emitted m.0.conn ≡ law.emitted e.conn ++ ts)
                (not f.drained && noq.is_drained f.conn) _ _ (λ t. g) (λ t. g),
            k,
          ),
        ),
      )

  conns-OnConns :
      (turns fuel : ℕ) (st : State noq) (now : ℕ) (conns : Map ℕ (ConnEntry noq))
      → OnConns st conns (drain_conns turns fuel st now conns)
  unfolding drain_conns
  conns-OnConns turns fuel st now [] = ([], unchanged st st refl refl refl refl, refl)
  conns-OnConns turns fuel st now ((handle, e) ∷ conns) =
      goes (λ next. conns-OnConns turns fuel next now conns)
        (drain_turns turns fuel st handle now e) (turns-OnEntry turns fuel st handle now e)
    where
      goes :
          ((next : State noq) → OnConns next conns (drain_conns turns fuel next now conns))
          → (r : Option (State noq × ConnEntry noq × Bool)) → OnEntry st e.conn r
          → OnConns st ((handle, e) ∷ conns) (elim r [
            | none ↦ none
            | some (next, f, progress) ↦
                with_rest handle f progress (drain_conns turns fuel next now conns)
          ])
      goes more none k = tt
      goes more (some (next, f, progress)) k =
          with_rest-OnConns st next handle e f conns progress
            (drain_conns turns fuel next now conns) k (more next)

  put_conns-Queued :
      (st next : State noq) (progress : Bool) (conns : Map ℕ (ConnEntry noq))
      (r : Option (State noq × Map ℕ (ConnEntry noq) × Bool))
      → OnConns st conns r
      → put_conns r ≡ some (next, progress)
      → (ts : Transmits) × Queued st next ts × HandedOut conns next.conns ts
  put_conns-Queued st next progress conns none k e = absurd cc
  put_conns-Queued st next progress conns (some (last, after, more)) (ts, q, k) e =
      let same : record last { conns = after } ≡ next = cc e in
      subst (λ (x : State noq). (us : Transmits) × Queued st x us × HandedOut conns x.conns us) same
        (ts, record { frame = q.frame; relays = q.relays; channels = q.channels; udp = q.udp }, k)

  -- With an engine whose `poll_transmit` alone hands out transmits, `drain` puts all that the
  -- connections hand out, one connection after the other and each in its order, at the ends of the
  -- queues: that of a relay, a channel or UDP by the route of the destination, and nothing else.
  -- The book, the pool and the effects stay as they are.
  pub drain_queues :
      (turns fuel : ℕ) (st next : State noq) (now : ℕ) (progress : Bool)
      → drain turns fuel st now ≡ some (next, progress)
      → (ts : Transmits) × Queued st next ts × HandedOut st.conns next.conns ts
  unfolding drain
  drain_queues turns fuel st next now progress e =
      put_conns-Queued st next progress st.conns (drain_conns turns fuel st now st.conns)
        (conns-OnConns turns fuel st now st.conns) e
