-- ===== src/Endpoint/Pump/Loop/Facts.antt =====
-- What each step of the pump's loop keeps of the wires, in endpoint/src/endpoint_impl.rs.
use polymorph_iroh.Base.{
  ℕ, zero, suc, ◌≡◌, sym, ap, subst, ◌∙◌, inl, inr, Option, some, List, [], ◌∷◌, ◌++◌, Bytes,
  Option-cases, nat_key, bytes_key,
}
use polymorph_iroh.Noq.{Noq}
use polymorph_iroh.Endpoint.Wires.{pool-wires}
use polymorph_iroh.Endpoint.{State}
use polymorph_iroh.Endpoint.Pump.{
  Pump, RelayEvent, datagram, relay_failed, on_relay_event, on_relay_sent, sweep,
}
use polymorph_iroh.Endpoint.Pump.Guards.{
  Guards, same_pool, on_relay_sent-Guards, arm-Guards, on_relay_event-Guards,
  on_channel_event-Guards, on_redial-Guards, sweep-Guards, IsGuarded,
}
use polymorph_iroh.Endpoint.Pump.Losses.{
  Listened, IsHeard, Loses-IsHeard, on_relay_sent-Loses, sweep-Loses,
}
use polymorph_iroh.Endpoint.Pump.Receives.{
  same-IsHeard, datagram-IsHeard, failed-IsHeard, redial-IsHeard, channel-IsHeard, armed-IsHeard,
}
use polymorph_iroh.Endpoint.Pump.Loop.{pick}
use polymorph_iroh.Endpoint.Pump.Loop.Stable.{IsStable}
use polymorph_iroh.Endpoint.Wires.{Wires}
use polymorph_iroh.Endpoint.Pump.{on_channel_event, on_redial}
use polymorph_iroh.Endpoint.Pump.Channels.{
  IsTuned, same-IsTuned, carried-IsTuned, on_relay_sent-carriage, on_relay_event-carriage,
  on_redial-carriage, sweep-carriage, armed-IsTuned,
}
use polymorph_iroh.Endpoint.Pump.Tuned.{channel-IsTuned}

pick-splits {ℓ} :
    {A : Type ℓ} (n : ℕ) (xs : List A) (y : A) (rest : List A)
    → pick n xs ≡ some (y, rest)
    → (before : List A) × (after : List A) × (xs ≡ before ++ (y ∷ after)) × (rest ≡ before ++ after)
unfolding pick
pick-splits zero [] y rest e = absurd cc
pick-splits (suc n) [] y rest e = absurd cc
pick-splits zero (x ∷ xs) y rest e = ([], xs, cc e, cc e)
pick-splits (suc n) (x ∷ xs) y rest e = elim (Option-cases (pick n xs)) [
  | inl none_there ↦ absurd (cc (rw (pick, none_there) at e))
  | inr ((z, others), there) ↦
      let found : ◌≡◌ {A = Option (_ × List _)} (some (z, x ∷ others)) (some (y, rest)) =
        rw (pick, there) at e in
      let (before, after, split, left) = pick-splits n xs z others there in
      (x ∷ before, after, cc (found, split), cc (found, left))
]

module _ {noq : Noq} where
  pub Guards-IsStable : IsStable {noq = noq} Guards
  Guards-IsStable = record {
    same = λ st next p q e f g.
        subst (λ r. IsGuarded (next.relay_pool, next.is_closed, next.new_relays) r)
          (sym (ap (λ (x : List (ℕ × ℕ) × Option ℕ × List (ℕ × ℕ)). x.1) f))
          (same_pool st next p (pool-wires st next e) g);
    sent = λ st p failed now draw key conn g. on_relay_sent-Guards st p failed now draw key conn g;
    armed = arm-Guards;
    relayed = λ st p n key conn now rest draw event e g.
        on_relay_event-Guards st (record p { relay_recvs = rest }) key conn now draw event g;
    channelled = λ st p n id wire now rest event e g.
        on_channel_event-Guards st (record p { channel_recvs = rest }) id now event g;
    redialled = on_redial-Guards;
    swept = sweep-Guards;
    parked = λ st p waker still g. g;
  }

  relayed-IsHeard :
      (st : State noq) (p : Pump) (n key conn now : ℕ) (rest : List (ℕ × ℕ)) (draw : Option ℕ)
      (event : RelayEvent)
      → pick n p.relay_recvs ≡ some ((key, conn), rest)
      → IsHeard (st, p)
      → IsHeard (on_relay_event st (record p { relay_recvs = rest }) key conn now draw event)
  unfolding on_relay_event
  relayed-IsHeard st p n key conn now rest draw event e h =
      let (before, after, split, left) = pick-splits n p.relay_recvs (key, conn) rest e in
      subst
        (λ r. IsHeard (on_relay_event st (record p { relay_recvs = r }) key conn now draw event))
        (sym left) (by_event before after split event)
    where
      by_event :
          (before after : List (ℕ × ℕ))
          → p.relay_recvs ≡ before ++ ((key, conn) ∷ after)
          → (event : RelayEvent)
          → IsHeard (
              on_relay_event st
                (record p { relay_recvs = before ++ after })
                key
                conn
                now
                draw
                event)
      by_event before after split (datagram source payload) =
          datagram-IsHeard st p before after key conn now draw source payload split h
      by_event before after split relay_failed =
          failed-IsHeard st p before after key conn now draw split h

  pub IsHeard-IsStable : IsStable {noq = noq} IsHeard
  IsHeard-IsStable = record {
    same = λ st next p q e f h.
        subst (λ (recvs : List (ℕ × ℕ)). Listened next.relay_pool (recvs ++ next.new_relays))
          (sym (ap (λ (x : List (ℕ × ℕ) × Option ℕ × List (ℕ × ℕ)). x.0) f))
          (same-IsHeard st next p (pool-wires st next e) h);
    sent = λ st p failed now draw key conn h.
        Loses-IsHeard st p (on_relay_sent st p failed now draw key conn)
          (on_relay_sent-Loses st p failed now draw key conn) h;
    armed = armed-IsHeard;
    relayed = relayed-IsHeard;
    channelled = λ st p n id wire now rest event e h.
        channel-IsHeard st (record p { channel_recvs = rest }) id now event h;
    redialled = λ st p now draw result armed h. redial-IsHeard st p now draw result h;
    swept = λ verdict pool st p now draw h.
        Loses-IsHeard st p (sweep verdict pool st p now draw)
          (sweep-Loses verdict pool st p now draw) h;
    parked = λ st p waker still h. h;
  }

  IsTuned-channelled :
      (st : State noq) (p : Pump) (n id wire now : ℕ) (rest : List (ℕ × ℕ))
      (event : Option (Option Bytes))
      → pick n p.channel_recvs ≡ some ((id, wire), rest)
      → IsTuned (st, p)
      → IsTuned (on_channel_event st (record p { channel_recvs = rest }) id now event)
  IsTuned-channelled st p n id wire now rest event e h =
      let (before, after, split, left) = pick-splits n p.channel_recvs (id, wire) rest e in
      subst (λ r. IsTuned (on_channel_event st (record p { channel_recvs = r }) id now event))
        (sym left) (channel-IsTuned st p before after id wire split h now event)

  pub IsTuned-IsStable : IsStable {noq = noq} IsTuned
  IsTuned-IsStable = record {
    same = λ st next p q e f h.
        same-IsTuned (st, p) (next, q)
          (ap (λ (w : Wires). (w.3, w.4, q.channel_recvs)) e
            ∙ ap
                (λ (x : List (ℕ × ℕ) × Option ℕ × List (ℕ × ℕ)).
                  (st.channels, st.new_channels, x.2))
                f)
          h;
    sent = λ st p failed now draw key conn h.
        carried-IsTuned (st, p) (on_relay_sent st p failed now draw key conn)
          (on_relay_sent-carriage st p failed now draw key conn) h;
    armed = armed-IsTuned;
    relayed = λ st p n key conn now rest draw event e h.
        carried-IsTuned (st, p)
          (on_relay_event st (record p { relay_recvs = rest }) key conn now draw event)
          (on_relay_event-carriage st (record p { relay_recvs = rest }) key conn now draw event) h;
    channelled = IsTuned-channelled;
    redialled = λ st p now draw result armed h.
        carried-IsTuned (st, p) (on_redial st p now draw result)
          (on_redial-carriage st p now draw result) h;
    swept = λ verdict pool st p now draw h.
        carried-IsTuned (st, p) (sweep verdict pool st p now draw)
          (sweep-carriage verdict pool st p now draw) h;
    parked = λ st p waker still h. h;
  }
