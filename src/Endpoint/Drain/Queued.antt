-- ===== src/Endpoint/Drain/Queued.antt =====
-- The queues that the transmits of `drain` in endpoint/src/endpoint_impl.rs belong to.
use mathlib.Core.List.{append-nil, append_assoc}
use polymorph_iroh.Base.{
  ℕ, ◌≡◌, refl, sym, ap, subst, ◌∙◌, inl, inr, Option, none, some, List, [], ◌∷◌, ◌++◌, Bytes,
  Option-cases,
}
use polymorph_iroh.Base.Maps.{lookup}
use polymorph_iroh.Net.{SocketAddr, addr_key}
use polymorph_iroh.Noq.{Noq}
use polymorph_iroh.Endpoint.{State, RouteWire, relay, channel}
use polymorph_iroh.Endpoint.Routes.{route_transmit, push_relay, push_channel, push_udp}
use polymorph_iroh.Endpoint.Routes.Invariant.{Book, book}
use polymorph_iroh.Endpoint.Drain.Frame.{Kept, kept}

abbrev pub Transmits : Type 0
Transmits = List (SocketAddr × Bytes)

-- The queue that a transmit belongs to, by the wire behind its destination.
abbrev relay_item : Option RouteWire → Option Bytes → Bytes → List (ℕ × Bytes × Bytes)
relay_item (some (relay key)) (some peer) payload = (key, peer, payload) ∷ []
relay_item _ _ payload = []

abbrev channel_item : Option RouteWire → Bytes → List (ℕ × Bytes)
channel_item (some (channel id)) payload = (id, payload) ∷ []
channel_item _ payload = []

abbrev udp_item : Option RouteWire → SocketAddr → Bytes → List (SocketAddr × Bytes)
udp_item none remote payload = (remote, payload) ∷ []
udp_item (some wire) remote payload = []

abbrev each : {B : Type 0} → (SocketAddr → Bytes → List B) → Transmits → List B
each f [] = []
each f ((to, payload) ∷ ts) = f to payload ++ each f ts

each-append :
    {B : Type 0} (f : SocketAddr → Bytes → List B) (ts us : Transmits)
    → each f (ts ++ us) ≡ each f ts ++ each f us
each-append f [] us = refl
each-append f ((to, payload) ∷ ts) us =
    ap (◌++◌ (f to payload)) (each-append f ts us)
    ∙ sym (append_assoc (f to payload) (each f ts) (each f us))

-- What the transmits add to each queue, on a book.
abbrev pub to_relays : Book → Transmits → List (ℕ × Bytes × Bytes)
to_relays b =
    each (λ to payload. relay_item (lookup to b.routes) (lookup to b.addr_to_peer) payload)

abbrev pub to_channels : Book → Transmits → List (ℕ × Bytes)
to_channels b = each (λ to payload. channel_item (lookup to b.routes) payload)

abbrev pub to_udp : Book → Transmits → List (SocketAddr × Bytes)
to_udp b = each (λ to payload. udp_item (lookup to b.routes) to payload)

appended :
    {B : Type 0} (f : SocketAddr → Bytes → List B) (before mid after : List B) (ts us : Transmits)
    → mid ≡ before ++ each f ts
    → after ≡ mid ++ each f us
    → after ≡ before ++ each f (ts ++ us)
appended f before mid after ts us h k =
    k
    ∙ ap (λ m. m ++ each f us) h
    ∙ append_assoc before (each f ts) (each f us)
    ∙ ap (◌++◌ before) (sym (each-append f ts us))

module _ {noq : Noq} where
  -- The transmits have gone to the ends of their queues, and nothing else is in them.
  pub record Queued (st next : State noq) (ts : Transmits) : Type 0 where
    pub frame : kept next ≡ kept st
    pub relays : next.relay_outbound ≡ st.relay_outbound ++ to_relays (book st) ts
    pub channels : next.channel_outbound ≡ st.channel_outbound ++ to_channels (book st) ts
    pub udp : next.udp_outbound ≡ st.udp_outbound ++ to_udp (book st) ts

  pub unchanged :
      (st next : State noq)
      → kept next ≡ kept st
      → next.relay_outbound ≡ st.relay_outbound
      → next.channel_outbound ≡ st.channel_outbound
      → next.udp_outbound ≡ st.udp_outbound
      → Queued st next []
  unchanged st next k r c u = record {
    frame = k;
    relays = r ∙ sym (append-nil st.relay_outbound);
    channels = c ∙ sym (append-nil st.channel_outbound);
    udp = u ∙ sym (append-nil st.udp_outbound);
  }

  pub Queued-trans :
      (st mid next : State noq) (ts us : Transmits)
      → Queued st mid ts
      → Queued mid next us
      → Queued st next (ts ++ us)
  Queued-trans st mid next ts us a b =
      let same : book mid ≡ book st = ap (λ (k : Kept). k.0) a.frame in
      record {
        frame = b.frame ∙ a.frame;
        relays =
            appended _ st.relay_outbound mid.relay_outbound next.relay_outbound ts us a.relays
              (b.relays ∙ ap (λ k. mid.relay_outbound ++ to_relays k us) same);
        channels =
            appended _ st.channel_outbound mid.channel_outbound next.channel_outbound ts us
              a.channels (b.channels ∙ ap (λ k. mid.channel_outbound ++ to_channels k us) same);
        udp =
            appended _ st.udp_outbound mid.udp_outbound next.udp_outbound ts us a.udp
              (b.udp ∙ ap (λ k. mid.udp_outbound ++ to_udp k us) same);
      }

  -- One transmit goes to the end of its queue.
  pub one-Queued :
      (st next : State noq) (to : SocketAddr) (payload : Bytes)
      → route_transmit st to payload ≡ some next
      → Queued st next ((to, payload) ∷ [])
  unfolding route_transmit push_relay push_channel push_udp
  one-Queued st next to payload h = elim (Option-cases (lookup to st.routes)) [
    | inl e ↦
        let at : push_udp st to payload ≡ next = cc (rw (e, route_transmit) at h) in
        subst (λ x. Queued st x ((to, payload) ∷ [])) at
          (record {
            frame = refl;
            relays = rw e (sym (append-nil st.relay_outbound));
            channels = rw e (sym (append-nil st.channel_outbound));
            udp = rw e refl;
          })
    | inr (channel id, e) ↦
        let at : push_channel st id payload ≡ next = cc (rw (e, route_transmit) at h) in
        subst (λ x. Queued st x ((to, payload) ∷ [])) at
          (record {
            frame = refl;
            relays = rw e (sym (append-nil st.relay_outbound));
            channels = rw e refl;
            udp = rw e (sym (append-nil st.udp_outbound));
          })
    | inr (relay key, e) ↦ elim (Option-cases (lookup to st.addr_to_peer)) [
      | inl n ↦ absurd (cc (rw (e, route_transmit, n) at h))
      | inr (p, n) ↦
          let at : push_relay st key p payload ≡ next = cc (rw (e, route_transmit, n) at h) in
          subst (λ x. Queued st x ((to, payload) ∷ [])) at
            (record {
              frame = refl;
              relays = rw (e, n) refl;
              channels = rw e (sym (append-nil st.channel_outbound));
              udp = rw e (sym (append-nil st.udp_outbound));
            })
    ]
  ]
