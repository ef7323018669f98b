-- ===== src/Endpoint/Pump/Tuned.antt =====
-- The ends of receives on channels, and new channels, in the pump of endpoint/src/endpoint_impl.rs.
use mathlib.Core.List.{Memᴰ}
use mathlib.Core.List.Memᴰ as Mem
use polymorph_iroh.Base.{
  ℕ, ◌≡◌, refl, ap, sym, subst, ◌∙◌, ◌⊎◌, inl, inr, Bool, Option, none, some, List, [], ◌∷◌, ◌++◌,
  ◌+◌, ◌%◌, ◌^◌, Bytes, if_cases, Option-cases, nat_key, bytes_key,
}
use polymorph_iroh.Base.Maps.{Map, lookup, lookup-insert_cases}
use polymorph_iroh.Noq.{Noq}
use polymorph_iroh.Endpoint.{State, ChannelEntry, kick_pump}
use polymorph_iroh.Endpoint.Wires.{Wires, pool_of}
use polymorph_iroh.Endpoint.Conns.{handle_channel_datagram}
use polymorph_iroh.Endpoint.Conns.Frame.{handle_channel_datagram-wires, addr_for_peer-wires}
use polymorph_iroh.Endpoint.Routes.{
  register_channel, add_channel, with_channel, flip_route, signaling_relay, or_home,
}
use polymorph_iroh.Endpoint.Pump.{Pump, rearm_channel, on_channel_event}
use polymorph_iroh.Endpoint.Pump.Losses.{Mem-split, Mem-add, Mem-added, Mem-later}
use polymorph_iroh.Endpoint.Pump.Channels.{IsTuned, same-IsTuned, retired}

abbrev Carried : Type 0
Carried = Map ℕ ℕ × Bool × List (ℕ × ℕ) × Map ℕ ChannelEntry × List (ℕ × ℕ)

module _ {noq : Noq} where
  module _ (st : State noq) (p : Pump) (before after : List (ℕ × ℕ)) (id wire : ℕ)
      (split : p.channel_recvs ≡ before ++ ((id, wire) ∷ after)) (h : IsTuned (st, p)) where
    ended :
        (other : ℕ) (entry : ChannelEntry)
        → lookup other st.channels ≡ some entry
        → ◌≡◌ {A = ℕ × ℕ} (other, entry.wire) (id, wire)
          ⊎ Memᴰ (other, entry.wire) ((before ++ after) ++ st.new_channels)
    ended other entry there =
        Mem-split (other, entry.wire) (id, wire) before after st.new_channels
          (subst (λ (r : List (ℕ × ℕ)). Memᴰ (other, entry.wire) (r ++ st.new_channels)) split
            (h other entry there))

    -- The receive is armed again where its channel is still there.
    rearmed : IsTuned (st, rearm_channel st (record p { channel_recvs = before ++ after }) id)
    unfolding rearm_channel
    rearmed = elim (Option-cases (lookup id st.channels)) [
      | inl n ↦
          rw (rearm_channel, n)
            λ other entry there. elim (ended other entry there) [
              | inl same ↦ absurd (
                  cc (
                    subst (λ k. lookup k st.channels ≡ some entry) (ap (λ (x : ℕ × ℕ). x.0) same)
                        there,
                    n,
                  ))
              | inr m ↦ m
            ]
      | inr (live, found) ↦
          rw (rearm_channel, found)
            λ other entry there. elim (ended other entry there) [
              | inl same ↦
                  let at_id = ap (λ (x : ℕ × ℕ). x.0) same in
                  let one : some live ≡ some entry =
                    sym found ∙ subst (λ k. lookup k st.channels ≡ some entry) at_id there in
                  let same_entry : live ≡ entry = cc one in
                  let wires : live.wire ≡ entry.wire = ap ChannelEntry.wire same_entry in
                  subst
                    (λ k.
                      Memᴰ (k, entry.wire)
                        (((before ++ after) ++ ((id, live.wire) ∷ [])) ++ st.new_channels))
                    (sym at_id)
                    (subst
                      (λ w.
                        Memᴰ (id, w)
                          (((before ++ after) ++ ((id, live.wire) ∷ [])) ++ st.new_channels))
                      wires (Mem-added (id, live.wire) (before ++ after) st.new_channels))
              | inr m ↦
                  Mem-add (other, entry.wire) (id, live.wire) (before ++ after) st.new_channels m
            ]
    ]

    pub channel-IsTuned :
        (now : ℕ) (event : Option (Option Bytes))
        → IsTuned (on_channel_event st (record p { channel_recvs = before ++ after }) id now event)
    unfolding on_channel_event
    channel-IsTuned now none = λ other entry there.
        let (same, left) = retired st id in
        let (apart, was) = left other entry there in
        elim (ended other entry was) [
          | inl e ↦ absurd (apart (sym (ap (λ (x : ℕ × ℕ). x.0) e)))
          | inr m ↦
              subst (λ (new : List (ℕ × ℕ)). Memᴰ (other, entry.wire) ((before ++ after) ++ new))
                (sym same) m
        ]
    channel-IsTuned now (some none) = rearmed
    channel-IsTuned now (some (some bytes)) =
        let armed = rearm_channel st (record p { channel_recvs = before ++ after }) id in
        same-IsTuned (st, armed) (handle_channel_datagram st now id bytes, armed)
          (ap (λ (w : Wires). (w.3, w.4, armed.channel_recvs))
            (handle_channel_datagram-wires st now id bytes))
          rearmed

  -- The wires alone.
  abbrev carried_of : State noq → Carried
  carried_of st = (st.relay_pool, st.is_closed, st.new_relays, st.channels, st.new_channels)

  -- A new channel waits to be armed.
  flip_route-carried :
      (st : State noq) (peer : Bytes) (fallback id : ℕ)
      → carried_of (flip_route st peer fallback id) ≡ carried_of st
  unfolding flip_route kick_pump
  flip_route-carried st peer fallback id =
      ap (λ (w : Wires). (w.0, w.1, w.2, w.3, w.4)) (addr_for_peer-wires st peer fallback)

  joins :
      (st : State noq) (p : Pump) (id : ℕ) (new : ChannelEntry)
      → IsTuned (st, p)
      → IsTuned (with_channel st id new, p)
  joins st p id new h other entry there =
      elim (lookup-insert_cases id other new entry st.channels there) [
        | inl (same, value) ↦
            subst
              (λ k.
                Memᴰ (k, entry.wire)
                  (p.channel_recvs ++ (st.new_channels ++ ((id, new.wire) ∷ []))))
              same
              (subst
                (λ w. Memᴰ (id, w) (p.channel_recvs ++ (st.new_channels ++ ((id, new.wire) ∷ []))))
                (ap ChannelEntry.wire value)
                (Mem.append_right p.channel_recvs
                  (Mem.append_right st.new_channels (Memᴰ.head refl))))
        | inr (_, old) ↦
            Mem-later (other, entry.wire) p.channel_recvs st.new_channels ((id, new.wire) ∷ [])
              (h other entry old)
      ]

  pub registered-IsTuned :
      (st : State noq) (p : Pump) (peer : Bytes) (wire : ℕ)
      → IsTuned (st, p)
      → IsTuned ((register_channel st peer wire).0, p)
  unfolding register_channel add_channel
  registered-IsTuned st p peer wire h =
      let fallback = or_home (signaling_relay st peer) in
      let id = (st.next_channel_id + 1) % 2 ^ 32 in
      let new : ChannelEntry = record { wire = wire; peer = peer; fallback_relay = fallback } in
      if_cases (λ (r : State noq × _). IsTuned (r.0, p)) st.is_closed _ _ (λ t. h)
        (λ t.
          same-IsTuned (with_channel st id new, p)
            (flip_route (with_channel st id new) peer fallback id, p)
            (ap (λ (w : Carried). (w.3, w.4, p.channel_recvs))
              (flip_route-carried (with_channel st id new) peer fallback id))
            (joins st p id new h))

  pub registered-pool :
      (st : State noq) (peer : Bytes) (wire : ℕ)
      → pool_of (register_channel st peer wire).0 ≡ pool_of st
  unfolding register_channel add_channel
  registered-pool st peer wire =
      let fallback = or_home (signaling_relay st peer) in
      let id = (st.next_channel_id + 1) % 2 ^ 32 in
      let new : ChannelEntry = record { wire = wire; peer = peer; fallback_relay = fallback } in
      if_cases (λ (r : State noq × _). pool_of r.0 ≡ pool_of st) st.is_closed _ _ (λ t. refl)
        (λ t.
          ap (λ (w : Carried). (w.0, w.1, w.2))
            (flip_route-carried (with_channel st id new) peer fallback id))
