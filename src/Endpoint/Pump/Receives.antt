-- ===== src/Endpoint/Pump/Receives.antt =====
-- What each event of the pump of endpoint/src/endpoint_impl.rs leaves of the receives of the pool.
use mathlib.Core.List.{Memᴰ}
use mathlib.Core.List.Memᴰ as Mem
use polymorph_iroh.Base.{
  ℕ, ◌≡◌, refl, ap, sym, subst, ◌⊎◌, inl, inr, Bool, true, false, not, Option, none, some, List, [],
  ◌∷◌, ◌++◌, Bytes, eqb, eqb_iff, if_cases, if◌then◌else◌, Option-cases, nat_key,
}
use polymorph_iroh.Base.Maps.{Map, lookup, insert, remove, lookup-insert_cases, lookup-remove_self}
use polymorph_iroh.Noq.{Noq}
use polymorph_iroh.Endpoint.{State, home_relay, kick_pump, wake_waiters}
use polymorph_iroh.Endpoint.Relays.{
  is_pool_current, retire_home, retire_relay, home_redialed, register_relay,
}
use polymorph_iroh.Endpoint.Pump.{
  Pump, datagram, arm_redial, lose_home, arm, on_payload, on_relay_failed, on_relay_event,
  rearm_channel, on_channel_event, on_redial,
}
use polymorph_iroh.Endpoint.Conns.Frame.{handle_channel_datagram-wires}
use polymorph_iroh.Endpoint.Conns.{handle_channel_datagram}
use polymorph_iroh.Endpoint.Routes.{retire_channel}
use polymorph_iroh.Endpoint.Pump.Guards.{on_payload-wires, retire_channel-pool}
use polymorph_iroh.Endpoint.Wires.{pool_of, pool-wires}
use polymorph_iroh.Endpoint.Pump.Losses.{
  Listened, remove-Shrinks, Mem-split, Mem-add, Mem-added, Mem-later, IsHeard,
}

-- A relay that joins the pool, with its receive.
joined :
    (pool : Map ℕ ℕ) (recvs more : List (ℕ × ℕ)) (key conn : ℕ)
    → Listened pool recvs
    → ((x : ℕ × ℕ) → Memᴰ x recvs → Memᴰ x more)
    → Memᴰ (key, conn) more
    → Listened (insert key conn pool) more
joined pool recvs more key conn h wider new at c there =
    elim (lookup-insert_cases key at conn c pool there) [
      | inl (same, value) ↦
          subst (λ k. Memᴰ (k, c) more) same (subst (λ v. Memᴰ (key, v) more) value new)
      | inr (_, old) ↦ wider (at, c) (h at c old)
    ]

module _ {noq : Noq} where
  -- A state that others left with the same pool and the same relays to arm.
  pub same-IsHeard :
      (st next : State noq) (p : Pump)
      → pool_of next ≡ pool_of st
      → IsHeard (st, p)
      → IsHeard (next, p)
  same-IsHeard st next p e h =
      subst (λ (at : Map ℕ ℕ × Bool × List (ℕ × ℕ)). Listened at.0 (p.relay_recvs ++ at.2)) (sym e)
        h

  -- Once a receive is over, the relays of the pool are still heard, but for its own.
  ended :
      (st : State noq) (p : Pump) (before after : List (ℕ × ℕ)) (key conn : ℕ)
      → p.relay_recvs ≡ before ++ ((key, conn) ∷ after)
      → IsHeard (st, p)
      → (at c : ℕ) → lookup at st.relay_pool ≡ some c
      → ◌≡◌ {A = ℕ × ℕ} (at, c) (key, conn) ⊎ Memᴰ (at, c) ((before ++ after) ++ st.new_relays)
  ended st p before after key conn e h at c there =
      Mem-split (at, c) (key, conn) before after st.new_relays
        (subst (λ (r : List (ℕ × ℕ)). Memᴰ (at, c) (r ++ st.new_relays)) e (h at c there))

  pool_current :
      (st : State noq) (key conn at c : ℕ)
      → lookup at st.relay_pool ≡ some c
      → ◌≡◌ {A = ℕ × ℕ} (at, c) (key, conn)
      → is_pool_current st key conn ≡ true
  unfolding is_pool_current
  pool_current st key conn at c there same =
      let here : lookup key st.relay_pool ≡ some c =
        subst (λ k. lookup k st.relay_pool ≡ some c) (ap (λ (x : ℕ × ℕ). x.0) same) there in
      rw (is_pool_current, here) ((eqb_iff c conn).1 (ap (λ (x : ℕ × ℕ). x.1) same))

  pub datagram-IsHeard :
      (st : State noq) (p : Pump) (before after : List (ℕ × ℕ)) (key conn now : ℕ) (draw : Option ℕ)
      (source payload : Bytes)
      → p.relay_recvs ≡ before ++ ((key, conn) ∷ after)
      → IsHeard (st, p)
      → IsHeard (
          on_relay_event st
            (record p { relay_recvs = before ++ after })
            key
            conn
            now
            draw
            (datagram source payload))
  unfolding on_relay_event
  datagram-IsHeard st p before after key conn now draw source payload e h =
      same-IsHeard st (on_payload st now key source payload)
        ((on_relay_event st (record p { relay_recvs = before ++ after }) key conn now draw
          (datagram source payload)).1)
        (pool-wires st (on_payload st now key source payload)
          (on_payload-wires st now key source payload))
        (λ at c there.
          if_cases (λ (r : List (ℕ × ℕ)). Memᴰ (at, c) (r ++ st.new_relays))
            (is_pool_current st key conn) _ _
            (λ t. elim (ended st p before after key conn e h at c there) [
              | inl same ↦
                  subst
                    (λ (y : ℕ × ℕ). Memᴰ (at, c) (((before ++ after) ++ (y ∷ [])) ++ st.new_relays))
                    same (Mem-added (at, c) (before ++ after) st.new_relays)
              | inr rest ↦ Mem-add (at, c) (key, conn) (before ++ after) st.new_relays rest
            ])
            (λ t. elim (ended st p before after key conn e h at c there) [
              | inl same ↦ absurd (cc (t, pool_current st key conn at c there same))
              | inr rest ↦ rest
            ]))

  removed :
      (st : State noq) (p : Pump) (before after : List (ℕ × ℕ)) (key conn : ℕ)
      → p.relay_recvs ≡ before ++ ((key, conn) ∷ after)
      → IsHeard (st, p)
      → Listened (remove key st.relay_pool) ((before ++ after) ++ st.new_relays)
  removed st p before after key conn e h at c there =
      elim (ended st p before after key conn e h at c
        (remove-Shrinks key st.relay_pool at c there)) [
          | inl same ↦
              let gone : lookup at (remove key st.relay_pool) ≡ none =
                subst (λ k. lookup k (remove key st.relay_pool) ≡ none)
                  (sym (ap (λ (x : ℕ × ℕ). x.0) same)) (lookup-remove_self key st.relay_pool) in
              absurd (cc (gone, there))
          | inr rest ↦ rest
        ]

  -- A relay whose receive has failed is out of the pool, or it was out of it before.
  pub failed-IsHeard :
      (st : State noq) (p : Pump) (before after : List (ℕ × ℕ)) (key conn now : ℕ) (draw : Option ℕ)
      → p.relay_recvs ≡ before ++ ((key, conn) ∷ after)
      → IsHeard (st, p)
      → IsHeard (on_relay_failed st (record p { relay_recvs = before ++ after }) key conn now draw)
  unfolding on_relay_failed lose_home retire_home retire_relay arm_redial
  failed-IsHeard st p before after key conn now draw e h =
      let rest = record p { relay_recvs = before ++ after } in
      if_cases IsHeard (not (is_pool_current st key conn)) _ _
        (λ t at c there. elim (ended st p before after key conn e h at c there) [
          | inl same ↦ absurd (cc (t, pool_current st key conn at c there same))
          | inr m ↦ m
        ])
        (λ t.
          if_cases IsHeard (eqb key home_relay) _ _
            (λ v.
              let home : key ≡ home_relay = (eqb_iff key home_relay).0 v in
              if_cases
                (λ (r : State noq × Bool).
                  IsHeard (r.0, if r.1 then arm_redial rest now draw else rest))
                (is_pool_current st home_relay conn) _ _
                (λ u.
                  subst
                    (λ k. Listened (remove k st.relay_pool) ((before ++ after) ++ st.new_relays))
                    home (removed st p before after key conn e h))
                (λ u. absurd (cc (t, subst (λ k. is_pool_current st k conn ≡ false) (sym home) u))))
            (λ v. removed st p before after key conn e h))

  pub redial-IsHeard :
      (st : State noq) (p : Pump) (now : ℕ) (draw result : Option ℕ)
      → IsHeard (st, p)
      → IsHeard (on_redial st p now draw result)
  unfolding on_redial home_redialed arm_redial wake_waiters
  redial-IsHeard st p now draw none h =
      if_cases (λ (q : Pump). IsHeard (st, q)) st.is_closed _ _ (λ t. h) (λ t. h)
  redial-IsHeard st p now draw (some conn) h =
      if_cases
        (λ (r : State noq × Bool).
          IsHeard (r.0, if r.1 then installed else record p { redial = none }))
        st.is_closed _ _ (λ t. h)
        (λ t.
          joined st.relay_pool (p.relay_recvs ++ st.new_relays)
            ((p.relay_recvs ++ ((home_relay, conn) ∷ [])) ++ st.new_relays) home_relay conn h
            (λ x m. Mem-add x (home_relay, conn) p.relay_recvs st.new_relays m)
            (Mem-added (home_relay, conn) p.relay_recvs st.new_relays))
    where
      installed : Pump
      installed = record p {
        relay_recvs = p.relay_recvs ++ ((home_relay, conn) ∷ []);
        redial = none;
        backoff = record { attempt = 0; home_since = some now };
      }

  pub registered-IsHeard :
      (st : State noq) (p : Pump) (url : Bytes) (conn : ℕ)
      → IsHeard (st, p)
      → IsHeard ((register_relay st url conn).0, p)
  unfolding register_relay kick_pump
  registered-IsHeard st p url conn h =
      let new : ℕ × ℕ = (st.next_relay_key, conn) in
      joined st.relay_pool (p.relay_recvs ++ st.new_relays)
        (p.relay_recvs ++ (st.new_relays ++ (new ∷ []))) st.next_relay_key conn h
        (λ x m. Mem-later x p.relay_recvs st.new_relays (new ∷ []) m)
        (Mem.append_right p.relay_recvs (Mem.append_right st.new_relays (Memᴰ.head refl)))

  pub armed-IsHeard : (st : State noq) (p : Pump) → IsHeard (st, p) → IsHeard (arm st p)
  unfolding arm
  armed-IsHeard st p h key conn there = Mem.append_left [] (h key conn there)

  rearm_channel-recvs :
      (st : State noq) (p : Pump) (id : ℕ) → (rearm_channel st p id).relay_recvs ≡ p.relay_recvs
  unfolding rearm_channel
  rearm_channel-recvs st p id = elim (Option-cases (lookup id st.channels)) [
    | inl n ↦ rw (rearm_channel, n) refl
    | inr (entry, h) ↦ rw (rearm_channel, h) refl
  ]

  pub channel-IsHeard :
      (st : State noq) (p : Pump) (id now : ℕ) (event : Option (Option Bytes))
      → IsHeard (st, p)
      → IsHeard (on_channel_event st p id now event)
  unfolding on_channel_event
  channel-IsHeard st p id now none h =
      same-IsHeard st (retire_channel st id) p (retire_channel-pool st id) h
  channel-IsHeard st p id now (some none) h =
      subst (λ recvs. Listened st.relay_pool (recvs ++ st.new_relays))
        (sym (rearm_channel-recvs st p id)) h
  channel-IsHeard st p id now (some (some bytes)) h =
      let next = handle_channel_datagram st now id bytes in
      subst (λ recvs. Listened next.relay_pool (recvs ++ next.new_relays))
        (sym (rearm_channel-recvs st p id))
        (same-IsHeard st next p (pool-wires st next (handle_channel_datagram-wires st now id bytes))
          h)
