-- ===== src/Endpoint/Conns/Gone.antt =====
-- Connections that have lost their slot, under the datagrams and events of
-- endpoint/src/endpoint_impl.rs.
use polymorph_iroh.Base.{
  ℕ, ◌+◌, ◌%◌, ◌^◌, ◌<◌, ◌≡◌, ◌≢◌, inl, inr, ap, sym, subst, refl, ◌∙◌, true, Option, none, some,
  List, Bytes, leb, nat_key, bytes_key, arith, Option-cases, if_cases,
}
use polymorph_iroh.Base.Maps.{Map, lookup, insert, lookup-insert_cases}
use polymorph_iroh.Net.{SocketAddr, addr_key}
use polymorph_iroh.Noq.{
  Noq, DatagramEvent, connection_event, new_connection, response, Acceptance, accepted, rejected,
  Event, connected, stream_opened, quiet, connection_lost, application_closed, locally_closed,
  timed_out, other_reason,
}
use polymorph_iroh.Endpoint.{State, ConnEntry, new_entry}
use polymorph_iroh.Endpoint.Routes.{
  addr_for_peer, fresh_standin, push_response, push_by_route, push_relay, push_channel, push_udp,
}
use polymorph_iroh.Endpoint.Conns.{
  by_key, authenticated, mismatched, on_connected, on_lost, on_opened, new_alpn, tls_peer, expects,
  on_event, on_conn_event, on_accepted, on_incoming, on_datagram_event, handle_datagram,
  handle_relay_datagram, handle_udp_datagram, handle_channel_datagram, drain_event, accept_backlog,
  accept_backlog_max,
}

module _ {noq : Noq} where
  -- The part of the state that epochs are about.
  abbrev pub slots : State noq → Map ℕ (ConnEntry noq) × ℕ
  slots st = (st.conns, st.next_conn_epoch)

  -- A connection that was minted under this epoch and whose slot it no longer holds.
  pub data IsGone (handle epoch : ℕ) : Map ℕ (ConnEntry noq) × ℕ → Type 0 where
    gone :
        {m : Map ℕ (ConnEntry noq)} {next : ℕ}
        → epoch < next
        → ((e : ConnEntry noq) → lookup handle m ≡ some e → e.epoch ≢ epoch)
        → IsGone handle epoch (m, next)

  -- A step that writes an entry in the slot of one with the same epoch, or a new one.
  pub keep :
      {handle epoch : ℕ} (h : ℕ) (old new : ConnEntry noq) (st : State noq)
      → lookup h st.conns ≡ some old
      → new.epoch ≡ old.epoch
      → IsGone handle epoch (slots st)
      → IsGone handle epoch (insert h new st.conns, st.next_conn_epoch)
  keep {handle} {epoch} h old new st at same (gone lt no_slot) = gone lt (λ e found.
      elim (lookup-insert_cases h handle new e st.conns found) [
        | inl (p, q) ↦ λ r.
            no_slot old (subst (λ k. lookup k st.conns ≡ some old) p at)
              (sym same ∙ ap (λ (x : ConnEntry noq). x.epoch) q ∙ r)
        | inr (n, before) ↦ no_slot e before
      ])

  -- The same, while the 64-bit counter of epochs has room for one more.
  pub data IsGoneRoomy (handle epoch : ℕ) (s : Map ℕ (ConnEntry noq) × ℕ) : Type 0 where
    roomy : s.1 + 1 < 2 ^ 64 → IsGone handle epoch s → IsGoneRoomy handle epoch s

  pub is_gone :
      {handle epoch : ℕ} {s : Map ℕ (ConnEntry noq) × ℕ}
      → IsGoneRoomy handle epoch s
      → IsGone handle epoch s
  is_gone (roomy room g) = g

  pub mint :
      {handle epoch : ℕ} (h : ℕ) (new : ConnEntry noq) (st : State noq)
      → new.epoch ≡ st.next_conn_epoch
      → IsGoneRoomy handle epoch (slots st)
      → IsGone handle epoch (insert h new st.conns, (st.next_conn_epoch + 1) % 2 ^ 64)
  mint {handle} {epoch} h new st same (roomy room (gone lt no_slot)) =
      gone (omega arith) (λ e found. elim (lookup-insert_cases h handle new e st.conns found) [
        | inl (p, q) ↦ λ r. omega (arith, ap (λ (x : ConnEntry noq). x.epoch) q)
        | inr (n, before) ↦ no_slot e before
      ])

  pub addr_for_peer-slots :
      (st : State noq) (peer : Bytes) (via : ℕ) → slots (addr_for_peer st peer via).0 ≡ slots st
  unfolding addr_for_peer fresh_standin
  addr_for_peer-slots st peer via = elim (Option-cases (lookup peer st.peer_to_addr)) [
    | inl e ↦ rw (e, addr_for_peer) refl
    | inr (a, e) ↦ rw (e, addr_for_peer) refl
  ]

  push_response-slots :
      (st : State noq) (addr : SocketAddr) (source : Option Bytes) (reply : Bytes)
      → slots (push_response st addr source reply) ≡ slots st
  unfolding push_response push_by_route push_relay push_channel push_udp
  push_response-slots st addr source reply = ground arith

  on_conn_event-IsGone :
      {handle epoch : ℕ} (st : State noq) (h : ℕ) (event : noq.ConnEvent)
      → IsGone handle epoch (slots st)
      → IsGone handle epoch (slots (on_conn_event st h event))
  unfolding on_conn_event
  on_conn_event-IsGone st h event g = elim (Option-cases (lookup h st.conns)) [
    | inl e ↦ rw (e, on_conn_event) g
    | inr (old, e) ↦
        rw (e, on_conn_event)
          (keep h old (record old { conn = noq.conn_event old.conn event }) st e refl g)
  ]

  on_accepted-IsGone :
      {handle epoch : ℕ} (st : State noq) (addr : SocketAddr) (source : Option Bytes)
      (result : Acceptance noq.Conn)
      → IsGoneRoomy handle epoch (slots st)
      → IsGone handle epoch (slots (on_accepted st addr source result))
  unfolding on_accepted new_entry
  on_accepted-IsGone st addr source (accepted h conn) g =
      mint h (new_entry conn source true st.next_conn_epoch) st refl g
  on_accepted-IsGone st addr source (rejected none) g = is_gone g
  on_accepted-IsGone {handle} {epoch} st addr source (rejected (some reply)) g =
      subst (IsGone handle epoch) (sym (push_response-slots st addr source reply)) (is_gone g)

  on_incoming-IsGone :
      {handle epoch : ℕ} (st : State noq) (now : ℕ) (addr : SocketAddr) (source : Option Bytes)
      (incoming : noq.Incoming)
      → IsGoneRoomy handle epoch (slots st)
      → IsGone handle epoch (slots (on_incoming st now addr source incoming))
  unfolding on_incoming
  on_incoming-IsGone {handle} {epoch} st now addr source incoming g =
      if_cases (λ (s : State noq). IsGone handle epoch (slots s)) st.is_closed _ _ (λ _. is_gone g)
        (λ _.
          if_cases (λ (s : State noq). IsGone handle epoch (slots s))
            (leb accept_backlog_max (accept_backlog st)) _ _
            (λ _.
              subst (IsGone handle epoch)
                (sym (
                  push_response-slots (record st { engine = (noq.refuse st.engine incoming).0 })
                    addr source (noq.refuse st.engine incoming).1))
                (is_gone g))
            (λ _.
              on_accepted-IsGone (record st { engine = (noq.accept st.engine incoming now).0 }) addr
                source (noq.accept st.engine incoming now).1 g))

  on_datagram_event-IsGone :
      {handle epoch : ℕ} (st : State noq) (now : ℕ) (addr : SocketAddr) (source : Option Bytes)
      (event : Option (DatagramEvent noq.ConnEvent noq.Incoming))
      → IsGoneRoomy handle epoch (slots st)
      → IsGone handle epoch (slots (on_datagram_event st now addr source event))
  unfolding on_datagram_event
  on_datagram_event-IsGone st now addr source none g = is_gone g
  on_datagram_event-IsGone st now addr source (some (connection_event h event)) g =
      on_conn_event-IsGone st h event (is_gone g)
  on_datagram_event-IsGone st now addr source (some (new_connection incoming)) g =
      on_incoming-IsGone st now addr source incoming g
  on_datagram_event-IsGone {handle} {epoch} st now addr source (some (response reply)) g =
      subst (IsGone handle epoch) (sym (push_response-slots st addr source reply)) (is_gone g)

  handle_datagram-IsGone :
      {handle epoch : ℕ} (st : State noq) (now : ℕ) (addr : SocketAddr) (source : Option Bytes)
      (payload : Bytes)
      → IsGoneRoomy handle epoch (slots st)
      → IsGone handle epoch (slots (handle_datagram st now addr source payload))
  unfolding handle_datagram
  handle_datagram-IsGone st now addr source payload g =
      on_datagram_event-IsGone (record st { engine = (noq.handle st.engine now addr payload).0 })
        now addr source (noq.handle st.engine now addr payload).1 g

  -- A datagram from any wire leaves a connection that is gone gone.
  pub relay_datagram-IsGone :
      {handle epoch : ℕ} (st : State noq) (now via : ℕ) (source payload : Bytes)
      → IsGoneRoomy handle epoch (slots st)
      → IsGone handle epoch (slots (handle_relay_datagram st now via source payload))
  unfolding handle_relay_datagram
  relay_datagram-IsGone {handle} {epoch} st now via source payload g =
      handle_datagram-IsGone (addr_for_peer st source via).0 now (addr_for_peer st source via).1
        (some source) payload
        (subst (IsGoneRoomy handle epoch) (sym (addr_for_peer-slots st source via)) g)

  pub udp_datagram-IsGone :
      {handle epoch : ℕ} (st : State noq) (now : ℕ) (remote : SocketAddr) (payload : Bytes)
      → IsGoneRoomy handle epoch (slots st)
      → IsGone handle epoch (slots (handle_udp_datagram st now remote payload))
  unfolding handle_udp_datagram
  udp_datagram-IsGone st now remote payload g = handle_datagram-IsGone st now remote none payload g

  pub channel_datagram-IsGone :
      {handle epoch : ℕ} (st : State noq) (now id : ℕ) (payload : Bytes)
      → IsGoneRoomy handle epoch (slots st)
      → IsGone handle epoch (slots (handle_channel_datagram st now id payload))
  unfolding handle_channel_datagram
  channel_datagram-IsGone {handle} {epoch} st now id payload g =
      elim (Option-cases (lookup id st.channels)) [
        | inl e ↦ rw (e, handle_channel_datagram) (is_gone g)
        | inr (entry, e) ↦
            let at = addr_for_peer st entry.peer entry.fallback_relay in
            rw (e, handle_channel_datagram)
              (handle_datagram-IsGone at.0 now at.1 (some entry.peer) payload (
                subst (IsGoneRoomy handle epoch)
                  (sym (addr_for_peer-slots st entry.peer entry.fallback_relay)) g))
      ]

  by_key-epoch :
      (e : ConnEntry noq) (handle now : ℕ) (key : Option Bytes)
      → (by_key e handle now key).0.epoch ≡ e.epoch
  unfolding by_key authenticated mismatched
  by_key-epoch e handle now none = refl
  by_key-epoch e handle now (some id) =
      if_cases (λ (r : ConnEntry noq × List (ℕ × ℕ)). r.0.epoch ≡ e.epoch)
        (expects e.expected_peer id) _ _ (λ _. refl) (λ _. refl)

  on_event-epoch :
      (e : ConnEntry noq) (handle now : ℕ) (event : Event)
      → (on_event e handle now event).0.epoch ≡ e.epoch
  unfolding on_event on_connected on_lost on_opened
  on_event-epoch e handle now connected =
      by_key-epoch (record e { alpn = new_alpn (noq.handshake_data e.conn) e.alpn }) handle now
        (tls_peer noq e.conn)
  on_event-epoch e handle now stream_opened = refl
  on_event-epoch e handle now quiet = refl
  on_event-epoch e handle now (connection_lost (application_closed code reason)) = refl
  on_event-epoch e handle now (connection_lost locally_closed) = refl
  on_event-epoch e handle now (connection_lost timed_out) = refl
  on_event-epoch e handle now (connection_lost (other_reason text)) = refl

  pub drain_event-IsGone :
      {handle epoch : ℕ} (st : State noq) (h now : ℕ) (event : Event)
      → IsGone handle epoch (slots st)
      → IsGone handle epoch (slots (drain_event st h now event))
  unfolding drain_event
  drain_event-IsGone st h now event g = elim (Option-cases (lookup h st.conns)) [
    | inl e ↦ rw (e, drain_event) g
    | inr (old, e) ↦
        rw (e, drain_event)
          (keep h old (on_event old h now event).0 st e (on_event-epoch old h now event) g)
  ]
