-- ===== src/Endpoint/Dance/Session.antt =====
-- The session of a dance of endpoint/src/webrtc.rs: what `begin_signaling` and the guard of the
-- session leave in the endpoint's state.
use polymorph_iroh.Base.{
  ℕ, ◌≡◌, ◌≢◌, refl, ap, ◌∙◌, true, false, Option, none, some, List, Bytes, inl, inr, ◌⊎◌,
  Bool-cases, if_cases, Option-cases, bytes_key,
}
use polymorph_iroh.Base.Maps.{Map, lookup, contains, lookup-remove_self}
use polymorph_iroh.Noq.{Noq}
use polymorph_iroh.Endpoint.{State, Error, kick_pump}
use polymorph_iroh.Endpoint.Routes.{
  register_channel, add_channel, flip_route, addr_for_peer, fresh_standin,
}
use polymorph_iroh.Endpoint.Signaling.{begin_signaling, end_signaling, session_active}
use polymorph_iroh.Endpoint.Dance.{World, Scene, Result, ok, err, parked}
use polymorph_iroh.Endpoint.Dance.Sides.{
  end_session, on_begun, offerer, dial, after_dial, upgrade, answerer, answer_task,
}

-- A peer without a session or unread signals.
abbrev pub IsReleased : {noq : Noq} → Bytes → State noq → Type 0
IsReleased peer st = (lookup peer st.signaling ≡ none) × (lookup peer st.signal_inboxes ≡ none)

parked-cases : {A : Type 0} (r : Result A) → (r ≡ parked) ⊎ (r ≢ parked)
parked-cases (ok a) = inr (λ e. cc)
parked-cases (err f) = inr (λ e. cc)
parked-cases parked = inl refl

module _ {noq : Noq} where
  abbrev sessions : State noq → Map Bytes ℕ × Map Bytes (List Bytes)
  sessions st = (st.signaling, st.signal_inboxes)

  addr_for_peer-sessions :
      (st : State noq) (peer : Bytes) (via : ℕ)
      → sessions (addr_for_peer st peer via).0 ≡ sessions st
  unfolding addr_for_peer fresh_standin
  addr_for_peer-sessions st peer via = elim (Option-cases (lookup peer st.peer_to_addr)) [
    | inl e ↦ rw (e, addr_for_peer) refl
    | inr (a, e) ↦ rw (e, addr_for_peer) refl
  ]

  register_channel-sessions :
      (st : State noq) (peer : Bytes) (wire : ℕ)
      → sessions (register_channel st peer wire).0 ≡ sessions st
  unfolding register_channel add_channel flip_route kick_pump
  register_channel-sessions st peer wire =
      if_cases (λ (r : State noq × Option Error). sessions r.0 ≡ sessions st) st.is_closed _ _
        (λ t. refl) (λ t. addr_for_peer-sessions _ peer _)

  end_signaling-IsReleased :
      (st : State noq) (peer : Bytes) → IsReleased peer (end_signaling st peer)
  unfolding end_signaling
  end_signaling-IsReleased st peer =
      (lookup-remove_self peer st.signaling, lookup-remove_self peer st.signal_inboxes)

  register_channel-IsReleased :
      (st : State noq) (peer : Bytes) (wire : ℕ)
      → IsReleased peer st
      → IsReleased peer (register_channel st peer wire).0
  register_channel-IsReleased st peer wire h = (
    ap (λ x. lookup peer x.0) (register_channel-sessions st peer wire) ∙ h.0,
    ap (λ x. lookup peer x.1) (register_channel-sessions st peer wire) ∙ h.1,
  )

  begun_held :
      (st : State noq) (peer : Bytes) (via : ℕ)
      → contains peer st.signaling ≡ true
      → begin_signaling st peer via ≡ (st, some session_active)
  unfolding begin_signaling
  begun_held st peer via e = rw e refl

  begun_free :
      (st : State noq) (peer : Bytes) (via : ℕ)
      → contains peer st.signaling ≡ false
      → (begin_signaling st peer via).1 ≡ none
  unfolding begin_signaling
  begun_free st peer via e = rw e refl

module _ {noq : Noq} {w : World noq} where
  end_session-IsReleased :
      {A : Type 0} (peer : Bytes) (x : Scene w × Result A)
      → (end_session peer x).1 ≢ parked
      → IsReleased peer (end_session peer x).0.st
  unfolding end_session
  end_session-IsReleased peer (s, ok a) h = end_signaling-IsReleased s.st peer
  end_session-IsReleased peer (s, err e) h = end_signaling-IsReleased s.st peer
  end_session-IsReleased peer (s, parked) h = absurd (h refl)

  after_dial-IsReleased :
      (peer : Bytes) (x : Scene w × Result ℕ)
      → IsReleased peer x.0.st
      → IsReleased peer (after_dial peer x).st
  after_dial-IsReleased peer (s, ok wire) h = register_channel-IsReleased s.st peer wire h
  after_dial-IsReleased peer (s, err e) h = h
  after_dial-IsReleased peer (s, parked) h = h

  dial_held :
      (fuel : ℕ) (peer : Bytes) (via : ℕ) (s : Scene w)
      → contains peer s.st.signaling ≡ true
      → dial fuel peer via s ≡ (s, err session_active)
  unfolding dial on_begun
  dial_held fuel peer via s e =
      ap (on_begun peer (offerer fuel peer) s) (begun_held s.st peer via e)

  dial_free :
      (fuel : ℕ) (peer : Bytes) (via : ℕ) (s : Scene w)
      → contains peer s.st.signaling ≡ false
      → (dial fuel peer via s).1 ≢ parked
      → IsReleased peer (dial fuel peer via s).0.st
  unfolding dial
  dial_free fuel peer via s e = begun (begin_signaling s.st peer via) (begun_free s.st peer via e)
    where
      begun :
          (x : State noq × Option Error)
          → x.1 ≡ none
          → (on_begun peer (offerer fuel peer) s x).1 ≢ parked
          → IsReleased peer (on_begun peer (offerer fuel peer) s x).0.st
      begun (st, none) e = end_session-IsReleased peer (offerer fuel peer (record s { st = st }))
      begun (st, some f) e = absurd cc

  upgrade_free :
      (fuel : ℕ) (peer : Bytes) (via : ℕ) (s : Scene w)
      → contains peer s.st.signaling ≡ false
      → ((dial fuel peer via s).1 ≡ parked) ⊎ IsReleased peer (upgrade fuel peer via s).st
  unfolding upgrade
  upgrade_free fuel peer via s e = elim (parked-cases (dial fuel peer via s).1) [
    | inl waits ↦ inl waits
    | inr over ↦
        inr (after_dial-IsReleased peer (dial fuel peer via s) (dial_free fuel peer via s e over))
  ]

  answer_free :
      (peer : Bytes) (x : Scene w × Result (Unit {0}))
      → (x.1 ≡ parked) ⊎ IsReleased peer (end_session peer x).0.st
  unfolding end_session
  answer_free peer (s, ok u) = inr (end_signaling-IsReleased s.st peer)
  answer_free peer (s, err e) = inr (end_signaling-IsReleased s.st peer)
  answer_free peer (s, parked) = inl refl

  -- A second upgrade of a peer with a session is refused and changes nothing. A dance that begins
  -- frees the peer's session and drops its unread signals when it ends, however it ends and whatever
  -- the other tasks did meanwhile, also when the wire is registered after it.
  pub dances_release :
      (fuel : ℕ) (peer : Bytes) (via : ℕ) (s : Scene w)
      → ((contains peer s.st.signaling ≡ true)
            × (dial fuel peer via s ≡ (s, err session_active))
            × (upgrade fuel peer via s ≡ s)
          ⊎ (contains peer s.st.signaling ≡ false)
            × (((dial fuel peer via s).1 ≡ parked) ⊎ IsReleased peer (upgrade fuel peer via s).st))
        × (((answerer fuel peer s).1 ≡ parked) ⊎ IsReleased peer (answer_task fuel peer s).st)
  unfolding upgrade answer_task
  dances_release fuel peer via s = (
    elim (Bool-cases (contains peer s.st.signaling)) [
      | inl e ↦
          inl (e, dial_held fuel peer via s e, ap (after_dial peer) (dial_held fuel peer via s e))
      | inr e ↦ inr (e, upgrade_free fuel peer via s e)
    ],
    answer_free peer (answerer fuel peer s),
  )
