-- ===== src/Endpoint/Dial/Stale.antt =====
-- A resource whose connection lost its slot, along every sequence of the operations on connections.
use polymorph_iroh.Base.{
  ℕ, ◌+◌, ◌^◌, ◌<◌, ◌≡◌, ◌⊎◌, inl, inr, sym, subst, refl, ◌∙◌, ap, false, not, ◌&&◌, is_none,
  Option, none, some, Bytes, nat_key, Option-cases, if_cases,
}
use polymorph_iroh.Base.Maps.{lookup, insert, lookup-insert_self}
use polymorph_iroh.Net.{SocketAddr, addr_key}
use polymorph_iroh.Noq.{Noq, Event}
use polymorph_iroh.Endpoint.{
  State, ConnEntry, Error, RouteWire, relay, channel, new_entry, kick_pump,
}
use polymorph_iroh.Endpoint.Routes.{addr_for_peer}
use polymorph_iroh.Endpoint.Conns.{
  entry_for, handle_relay_datagram, handle_udp_datagram, handle_channel_datagram, drain_event,
  accept_check, close_endpoint, handle_timeouts,
}
use polymorph_iroh.Endpoint.Conns.Gone.{
  IsGone, IsGoneRoomy, roomy, is_gone, slots, keep, mint, addr_for_peer-slots,
  relay_datagram-IsGone, udp_datagram-IsGone, channel_datagram-IsGone, drain_event-IsGone,
}
use polymorph_iroh.Endpoint.Conns.Slots.{
  timeouts-IsGone, close-IsGone, entry_for_iff, entry_for-IsGone, IsGone-entry_for,
}
use polymorph_iroh.Endpoint.Conns.Epochs.{accept_check-IsGone}
use polymorph_iroh.Endpoint.Dial.{dial, on_dialled, remote_of, follow_dial, cancel_dial}

module _ {noq : Noq} where
  follow_dial-slots :
      (st : State noq) (standin : SocketAddr) (key : ℕ)
      → slots (follow_dial st standin key) ≡ slots st
  unfolding follow_dial
  follow_dial-slots st standin key = go (lookup standin st.routes)
    where
      go :
          (wire : Option RouteWire)
          → slots (elim wire [
            | none ↦ st
            | some (relay old) ↦ record st { routes = insert standin (relay key) st.routes }
            | some (channel id) ↦ st
          ])
            ≡ slots st
      go none = refl
      go (some (relay old)) = refl
      go (some (channel id)) = refl

  remote_of-slots :
      (st : State noq) (peer : Bytes) (direct : Option SocketAddr) (key : ℕ)
      → slots (remote_of st peer direct key).0 ≡ slots st
  unfolding remote_of
  remote_of-slots st peer (some real) key = refl
  remote_of-slots st peer none key =
      let seen = addr_for_peer st peer key in
      follow_dial-slots seen.0 seen.1 key ∙ addr_for_peer-slots st peer key

  on_dialled-IsGone :
      {handle epoch : ℕ} (st : State noq) (peer : Bytes) (upgrade_key : Option ℕ)
      (result : Bytes ⊎ (ℕ × noq.Conn))
      → IsGoneRoomy handle epoch (slots st)
      → IsGone handle epoch (slots (on_dialled st peer upgrade_key result).0)
  unfolding on_dialled kick_pump new_entry
  on_dialled-IsGone st peer upgrade_key (inl text) g = is_gone g
  on_dialled-IsGone st peer upgrade_key (inr (h, conn)) g =
      mint h (new_entry conn (some peer) false st.next_conn_epoch) st refl g

  dial-IsGone :
      {handle epoch : ℕ} (st : State noq) (now : ℕ) (config : noq.Config) (peer : Bytes)
      (direct : Option SocketAddr) (dial_key : ℕ) (upgrade_key : Option ℕ)
      → IsGoneRoomy handle epoch (slots st)
      → IsGone handle epoch (slots (dial st now config peer direct dial_key upgrade_key).0)
  unfolding dial
  dial-IsGone {handle} {epoch} st now config peer direct dial_key upgrade_key g =
      if_cases (λ (r : State noq × (Error ⊎ (ℕ × ℕ))). IsGone handle epoch (slots r.0)) st.is_closed
        _ _ (λ _. is_gone g)
        (λ _.
          let seen = remote_of st peer direct dial_key in
          on_dialled-IsGone
            (record (seen.0) { engine = (noq.connect seen.0.engine now config seen.1).0 }) peer
            upgrade_key (noq.connect seen.0.engine now config seen.1).1
            (subst (IsGoneRoomy handle epoch) (sym (remote_of-slots st peer direct dial_key)) g))

  cancel_dial-IsGone :
      {handle epoch : ℕ} (st : State noq) (h ep now : ℕ)
      → IsGone handle epoch (slots st)
      → IsGone handle epoch (slots (cancel_dial st h ep now))
  unfolding cancel_dial kick_pump
  cancel_dial-IsGone {handle} {epoch} st h ep now g = elim (Option-cases (entry_for st h ep)) [
    | inl e ↦ rw (e, cancel_dial) g
    | inr (old, e) ↦
        rw (e, cancel_dial)
          (if_cases (λ (s : State noq). IsGone handle epoch (slots s))
            (is_none old.error && not old.drained) _ _
            (λ _. keep h old _ st ((entry_for_iff st h ep old).0 e).0 refl g) (λ _. g))
  ]

  -- What may happen to the connections of an endpoint.
  pub data Step (st : State noq) : State noq → Type 0 where
    relay_datagram :
        (now via : ℕ) (source payload : Bytes)
        → Step st (handle_relay_datagram st now via source payload)
    udp_datagram :
        (now : ℕ) (remote : SocketAddr) (payload : Bytes)
        → Step st (handle_udp_datagram st now remote payload)
    channel_datagram :
        (now id : ℕ) (payload : Bytes) → Step st (handle_channel_datagram st now id payload)
    event : (h now : ℕ) (e : Event) → Step st (drain_event st h now e)
    timeouts : (now : ℕ) → Step st (handle_timeouts st now)
    claim : Step st (accept_check st).0
    dials :
        (now : ℕ) (config : noq.Config) (peer : Bytes) (direct : Option SocketAddr) (dial_key : ℕ)
        (upgrade_key : Option ℕ)
        → Step st (dial st now config peer direct dial_key upgrade_key).0
    cancel : (h ep now : ℕ) → Step st (cancel_dial st h ep now)
    closes : (now : ℕ) (reason : Bytes) → Step st (close_endpoint st now reason)

  pub data Steps (st : State noq) : State noq → Type 0 where
    start : Steps st st
    step :
        {mid last : State noq}
        → Steps st mid
        → mid.next_conn_epoch + 1 < 2 ^ 64
        → Step mid last
        → Steps st last

  Step-IsGone :
      {handle epoch : ℕ} (st : State noq) {next : State noq}
      → Step st next
      → IsGoneRoomy handle epoch (slots st)
      → IsGone handle epoch (slots next)
  Step-IsGone st (relay_datagram now via source payload) g =
      relay_datagram-IsGone st now via source payload g
  Step-IsGone st (udp_datagram now remote payload) g = udp_datagram-IsGone st now remote payload g
  Step-IsGone st (channel_datagram now id payload) g = channel_datagram-IsGone st now id payload g
  Step-IsGone st (event h now e) g = drain_event-IsGone st h now e (is_gone g)
  Step-IsGone st (timeouts now) g = timeouts-IsGone st now (is_gone g)
  Step-IsGone st claim g = accept_check-IsGone st (is_gone g)
  Step-IsGone st (dials now config peer direct dial_key upgrade_key) g =
      dial-IsGone st now config peer direct dial_key upgrade_key g
  Step-IsGone st (cancel h ep now) g = cancel_dial-IsGone st h ep now (is_gone g)
  Step-IsGone st (closes now reason) g = close-IsGone st now reason (is_gone g)

  Steps-IsGone :
      {handle epoch : ℕ} {st last : State noq}
      → Steps st last
      → IsGone handle epoch (slots st)
      → IsGone handle epoch (slots last)
  Steps-IsGone start g = g
  Steps-IsGone (step {mid} steps room s) g = Step-IsGone mid s (roomy room (Steps-IsGone steps g))

  -- A handle and an epoch that was given out, and that find no connection, find none after any
  -- sequence of datagrams, events, timeouts, accepts, dials, cancelled dials and closes, even if the
  -- engine uses the handle again, as long as the 64-bit counter of epochs does not wrap.
  pub stale_forever :
      (handle epoch : ℕ) (st last : State noq)
      → Steps st last
      → epoch < st.next_conn_epoch
      → entry_for st handle epoch ≡ none
      → entry_for last handle epoch ≡ none
  stale_forever handle epoch st last steps lt e =
      IsGone-entry_for last (Steps-IsGone steps (entry_for-IsGone st handle epoch lt e))

  on_dialled-entry :
      (st : State noq) (peer : Bytes) (upgrade_key : Option ℕ) (result : Bytes ⊎ (ℕ × noq.Conn))
      (handle epoch : ℕ)
      → (on_dialled st peer upgrade_key result).1 ≡ inr (handle, epoch)
      → (e : ConnEntry noq) × (entry_for (on_dialled st peer upgrade_key result).0 handle epoch
          ≡ some e)
        × (e.expected_peer ≡ some peer)
        × (e.is_connected ≡ false)
        × (epoch ≡ st.next_conn_epoch)
  unfolding on_dialled new_entry kick_pump
  on_dialled-entry st peer upgrade_key (inl text) handle epoch h = cc h
  on_dialled-entry st peer upgrade_key (inr (slot, conn)) handle epoch h =
      let e : ConnEntry noq = new_entry conn (some peer) false st.next_conn_epoch in
      let at : slot ≡ handle = cc h in
      let minted : st.next_conn_epoch ≡ epoch = cc h in
      let next : State noq = (on_dialled st peer upgrade_key (inr (slot, conn))).0 in
      (
        e,
        (entry_for_iff next handle epoch e).1 (
          subst (λ k. lookup k next.conns ≡ some e) at (lookup-insert_self slot e st.conns),
          minted,
        ),
        refl,
        refl,
        sym minted,
      )

  -- A dial that succeeds gives a handle and a fresh epoch under which the endpoint holds an entry
  -- that expects the dialled peer and is not connected yet.
  dial_entry :
      (st : State noq) (now : ℕ) (config : noq.Config) (peer : Bytes) (direct : Option SocketAddr)
      (dial_key : ℕ) (upgrade_key : Option ℕ) (handle epoch : ℕ)
      → (dial st now config peer direct dial_key upgrade_key).1 ≡ inr (handle, epoch)
      → (e : ConnEntry noq) × (entry_for
            (dial st now config peer direct dial_key upgrade_key).0
            handle
            epoch
          ≡ some e)
        × (e.expected_peer ≡ some peer)
        × (e.is_connected ≡ false)
        × (epoch ≡ st.next_conn_epoch)
  unfolding dial
  dial_entry st now config peer direct dial_key upgrade_key handle epoch =
      if_cases
        (λ (r : State noq × (Error ⊎ (ℕ × ℕ))).
          r.1 ≡ inr (handle, epoch)
          → (e : ConnEntry noq) × (entry_for r.0 handle epoch ≡ some e)
            × (e.expected_peer ≡ some peer)
            × (e.is_connected ≡ false)
            × (epoch ≡ st.next_conn_epoch))
        st.is_closed _ _ (λ _ h. cc h)
        (λ _ h.
          let seen = remote_of st peer direct dial_key in
          let (e, at, expected, fresh, minted) =
            on_dialled-entry
              (record (seen.0) { engine = (noq.connect seen.0.engine now config seen.1).0 }) peer
              upgrade_key (noq.connect seen.0.engine now config seen.1).1 handle epoch h in
          (
            e,
            at,
            expected,
            fresh,
            minted ∙ ap (λ s. s.1) (remote_of-slots st peer direct dial_key),
          ))
