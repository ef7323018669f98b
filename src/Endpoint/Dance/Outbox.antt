-- ===== src/Endpoint/Dance/Outbox.antt =====
-- The signals on their way to a peer: those that the pump of endpoint/src/endpoint_impl.rs has sent on
-- a relay, and behind them those that `publish` of endpoint/src/webrtc.rs has queued.
use polymorph_iroh.Base.{
  ℕ, ◌+◌, ◌%◌, ◌^◌, ◌≡◌, refl, ap, sym, ◌∙◌, inl, inr, ◌⊎◌, Option, none, some, List, [], ◌∷◌, ◌++◌,
  Bytes, codes, bytes_beq, bytes_beq_iff, eqb, if◌then◌else◌, if_cases, Option-cases, bytes_key,
  nat_key,
}
use mathlib.Core.List.{append-nil, append_assoc}
use polymorph_iroh.Base.Maps.{lookup, insert, contains}
use polymorph_iroh.Net.{addr_key}
use polymorph_iroh.Noq.{Noq}
use polymorph_iroh.Endpoint.{
  State, Error, Effect, wake, wake_pump, close_relay, close_channel, spawn_answer, spawn_upgrade,
  spawn_ping, send_relay, send_udp, send_channel, wake_udp, other_error, woken_pump, kick_pump,
  ChannelEntry, channel,
}
use polymorph_iroh.Endpoint.Routes.{
  addr_for_peer, fresh_standin, flip_route, add_channel, register_channel, signaling_relay,
  push_relay, with_channel, or_home,
}
use polymorph_iroh.Endpoint.Signaling.{
  push_signal_outbound, publish, pop_signal_inbox, pop_front, begin_signaling, session_active,
}

-- The text of a payload that is a signal.
abbrev of_signal : Bytes → List Bytes
of_signal [] = []
of_signal (first ∷ text) = if eqb first 0 then text ∷ [] else []

abbrev addressed : (peer to payload : Bytes) → List Bytes
addressed peer to payload = if bytes_beq peer to then of_signal payload else []

abbrev sent_in : Bytes → List Effect → List Bytes
sent_in peer [] = []
sent_in peer (send_relay conn to payload ∷ es) = addressed peer to payload ++ sent_in peer es
sent_in peer (_ ∷ es) = sent_in peer es

abbrev queued_in : Bytes → List (ℕ × Bytes × Bytes) → List Bytes
queued_in peer [] = []
queued_in peer ((key, to, payload) ∷ items) = addressed peer to payload ++ queued_in peer items

sent_in-append :
    (peer : Bytes) (es more : List Effect)
    → sent_in peer (es ++ more) ≡ sent_in peer es ++ sent_in peer more
sent_in-append peer [] more = refl
sent_in-append peer (send_relay conn to payload ∷ es) more =
    ap (◌++◌ (addressed peer to payload)) (sent_in-append peer es more)
    ∙ sym (append_assoc (addressed peer to payload) (sent_in peer es) (sent_in peer more))
sent_in-append peer (wake n ∷ es) more = sent_in-append peer es more
sent_in-append peer (wake_pump n ∷ es) more = sent_in-append peer es more
sent_in-append peer (close_relay n ∷ es) more = sent_in-append peer es more
sent_in-append peer (close_channel n ∷ es) more = sent_in-append peer es more
sent_in-append peer (spawn_answer id ∷ es) more = sent_in-append peer es more
sent_in-append peer (spawn_upgrade id n ∷ es) more = sent_in-append peer es more
sent_in-append peer (spawn_ping n bytes ∷ es) more = sent_in-append peer es more
sent_in-append peer (send_udp a bytes ∷ es) more = sent_in-append peer es more
sent_in-append peer (send_channel n bytes ∷ es) more = sent_in-append peer es more
sent_in-append peer (wake_udp ∷ es) more = sent_in-append peer es more

queued_in-append :
    (peer : Bytes) (items more : List (ℕ × Bytes × Bytes))
    → queued_in peer (items ++ more) ≡ queued_in peer items ++ queued_in peer more
queued_in-append peer [] more = refl
queued_in-append peer ((key, to, payload) ∷ items) more =
    ap (◌++◌ (addressed peer to payload)) (queued_in-append peer items more)
    ∙ sym (append_assoc (addressed peer to payload) (queued_in peer items) (queued_in peer more))

sent_in-quiet :
    (peer : Bytes) (es more : List Effect)
    → sent_in peer more ≡ []
    → sent_in peer (es ++ more) ≡ sent_in peer es
sent_in-quiet peer es more quiet =
    sent_in-append peer es more ∙ ap (◌++◌ (sent_in peer es)) quiet ∙ append-nil (sent_in peer es)

woken-quiet : (peer : Bytes) (waker : Option ℕ) → sent_in peer (woken_pump waker) ≡ []
woken-quiet peer none = refl
woken-quiet peer (some waker) = refl

module _ {noq : Noq} where
  -- The texts of the signals to a peer, sent and queued, in order.
  abbrev pub signals_to : Bytes → State noq → List Bytes
  signals_to peer st = sent_in peer st.effects ++ queued_in peer st.relay_outbound

  -- Besides, both lists are the same.
  abbrev SameOut : State noq → State noq → Type 0
  SameOut st next = (next.effects ≡ st.effects) × (next.relay_outbound ≡ st.relay_outbound)

  kick_pump-signals :
      (peer : Bytes) (st : State noq) → signals_to peer (kick_pump st) ≡ signals_to peer st
  unfolding kick_pump
  kick_pump-signals peer st =
      ap (λ x. x ++ queued_in peer st.relay_outbound)
        (sent_in-quiet peer st.effects (woken_pump st.pump_waker) (woken-quiet peer st.pump_waker))

  addr_for_peer-SameOut :
      (st : State noq) (id : Bytes) (via : ℕ) → SameOut st (addr_for_peer st id via).0
  unfolding addr_for_peer fresh_standin
  addr_for_peer-SameOut st id via = elim (Option-cases (lookup id st.peer_to_addr)) [
    | inl e ↦ rw (e, addr_for_peer) (refl, refl)
    | inr (a, e) ↦ rw (e, addr_for_peer) (refl, refl)
  ]

  flip_route-signals :
      (peer : Bytes) (st : State noq) (id : Bytes) (fallback channel_id : ℕ)
      → signals_to peer (flip_route st id fallback channel_id) ≡ signals_to peer st
  unfolding flip_route
  flip_route-signals peer st id fallback channel_id =
      let (seen, synthetic) = addr_for_peer st id fallback in
      let (effects, outbound) = addr_for_peer-SameOut st id fallback in
      kick_pump-signals peer
        (record seen { routes = insert synthetic (channel channel_id) seen.routes })
      ∙ ap (λ x. sent_in peer x ++ queued_in peer seen.relay_outbound) effects
      ∙ ap (λ x. sent_in peer st.effects ++ queued_in peer x) outbound

  pub register_channel-signals :
      (peer : Bytes) (st : State noq) (id : Bytes) (wire : ℕ)
      → signals_to peer (register_channel st id wire).0 ≡ signals_to peer st
  unfolding register_channel add_channel
  register_channel-signals peer st id wire =
      let fallback = or_home (signaling_relay st id) in
      let new = (st.next_channel_id + 1) % 2 ^ 32 in
      let entry : ChannelEntry = record { wire = wire; peer = id; fallback_relay = fallback } in
      if_cases (λ (r : State noq × Option Error). signals_to peer r.0 ≡ signals_to peer st)
        st.is_closed _ _
        (λ t.
          ap (λ x. x ++ queued_in peer st.relay_outbound)
            (sent_in-quiet peer st.effects (close_channel wire ∷ []) refl))
        (λ t. flip_route-signals peer (with_channel st new entry) id fallback new)

  pub pop_signal_inbox-signals :
      (peer : Bytes) (st : State noq) (id : Bytes)
      → signals_to peer (pop_signal_inbox st id).0 ≡ signals_to peer st
  unfolding pop_signal_inbox pop_front
  pop_signal_inbox-signals peer st id = elim (Option-cases (lookup id st.signal_inboxes)) [
    | inl e ↦ rw (pop_signal_inbox, e) refl
    | inr (inbox, e) ↦ rw (pop_signal_inbox, e) (front inbox)
  ]
    where
      front : (inbox : List Bytes) → signals_to peer (pop_front st id inbox).0 ≡ signals_to peer st
      front [] = refl
      front (payload ∷ rest) = refl

  pub begin_signaling-signals :
      (peer : Bytes) (st : State noq) (id : Bytes) (via : ℕ)
      → signals_to peer (begin_signaling st id via).0 ≡ signals_to peer st
  unfolding begin_signaling
  begin_signaling-signals peer st id via =
      if_cases (λ (r : State noq × Option Error). signals_to peer r.0 ≡ signals_to peer st)
        (contains id st.signaling) (st, some session_active)
        (record st { signaling = insert id via st.signaling }, none) (λ t. refl) (λ t. refl)

  pushed-signals :
      (st : State noq) (key : ℕ) (peer text : Bytes)
      → signals_to peer (push_signal_outbound st key peer (0 ∷ text))
        ≡ signals_to peer st ++ (text ∷ [])
  unfolding push_signal_outbound push_relay
  pushed-signals st key peer text =
      let mine : addressed peer peer (0 ∷ text) ≡ text ∷ [] =
        rw ((bytes_beq_iff peer peer).1 refl) refl in
      kick_pump-signals peer (push_relay st key peer (0 ∷ text))
      ∙ ap (◌++◌ (sent_in peer st.effects)) (
          queued_in-append peer st.relay_outbound ((key, peer, 0 ∷ text) ∷ [])
          ∙ ap (λ x. queued_in peer st.relay_outbound ++ (x ++ [])) mine)
      ∙ sym (append_assoc (sent_in peer st.effects) (queued_in peer st.relay_outbound) (text ∷ []))

  -- `publish` puts one signal behind the others, or it fails and leaves the state.
  pub publish-signals :
      (st : State noq) (peer text : Bytes)
      → ((next : State noq) × (publish st peer text ≡ (next, none))
          × (signals_to peer next ≡ signals_to peer st ++ (text ∷ [])))
        ⊎ ((e : Error) × (publish st peer text ≡ (st, some e)))
  unfolding publish
  publish-signals st peer text = elim (Option-cases (signaling_relay st peer)) [
    | inl e ↦ inr (other_error (codes "signal outside a session"), rw (publish, e) refl)
    | inr (key, e) ↦ inl (
      push_signal_outbound st key peer (0 ∷ text),
      rw (publish, e) refl,
      pushed-signals st key peer text,
    )
  ]
