-- ===== src/Endpoint/Routes/Invariant.antt =====
-- The address book and the routes: what it is for them to be consistent.
use polymorph_iroh.Base.{
  ℕ, ◌+◌, ◌^◌, ◌≤◌, ◌<◌, ◌≡◌, sym, ap, ◌∙◌, subst, inl, inr, none, some, Bytes, nat_key, bytes_key,
  arith, Option-cases,
}
use polymorph_iroh.Base.Maps.{
  Map, lookup, insert, lookup-insert_self, lookup-insert_ne, lookup-insert_cases,
}
use polymorph_iroh.Net.{SocketAddr, addr_key, doc_prefix_addr, doc_prefix_addr_injective}
use polymorph_iroh.Noq.{Noq}
use polymorph_iroh.Endpoint.{State, RouteWire, relay, channel, ChannelEntry}

abbrev pub standin_addr : ℕ → SocketAddr
standin_addr host = doc_prefix_addr 0x77 host

-- A route that may stand at the standin of `peer`: a channel must be open, and to that peer.
abbrev pub IsRouteTo : Map ℕ ChannelEntry → Bytes → RouteWire → Type 0
IsRouteTo channels peer (relay key) = Unit {0}
IsRouteTo channels peer (channel id) =
    (e : ChannelEntry) × (lookup id channels ≡ some e) × (e.peer ≡ peer)

-- The part of the state that this is about.
pub record Book : Type 0 where
  pub next_host : ℕ
  pub peer_to_addr : Map Bytes SocketAddr
  pub addr_to_peer : Map SocketAddr Bytes
  pub routes : Map SocketAddr RouteWire
  pub channels : Map ℕ ChannelEntry
  pub next_channel_id : ℕ

abbrev pub book : {noq : Noq} → State noq → Book
book st = record {
  next_host = st.next_host;
  peer_to_addr = st.peer_to_addr;
  addr_to_peer = st.addr_to_peer;
  routes = st.routes;
  channels = st.channels;
  next_channel_id = st.next_channel_id;
}

-- The two maps of the address book are inverse; every address in it is a numbered standin; the
-- routes are those of its addresses; a channel route leads to an open channel to that peer.
pub record IsRouted (st : Book) : Type 0 where
  pub hosts : st.next_host < 2 ^ 32
  pub ids : st.next_channel_id < 2 ^ 32
  pub standin :
      (a : SocketAddr) (p : Bytes)
      → lookup a st.addr_to_peer ≡ some p
      → (h : ℕ) × (h ≤ st.next_host) × (a ≡ standin_addr h)
  pub backward :
      (a : SocketAddr) (p : Bytes)
      → lookup a st.addr_to_peer ≡ some p
      → lookup p st.peer_to_addr ≡ some a
  pub forward :
      (p : Bytes) (a : SocketAddr)
      → lookup p st.peer_to_addr ≡ some a
      → lookup a st.addr_to_peer ≡ some p
  pub routed :
      (a : SocketAddr) (p : Bytes)
      → lookup a st.addr_to_peer ≡ some p
      → (r : RouteWire) × (lookup a st.routes ≡ some r)
  pub known :
      (a : SocketAddr) (r : RouteWire)
      → lookup a st.routes ≡ some r
      → (p : Bytes) × (lookup a st.addr_to_peer ≡ some p) × IsRouteTo st.channels p r
  pub numbered :
      (id : ℕ) (e : ChannelEntry) → lookup id st.channels ≡ some e → id ≤ st.next_channel_id

-- The next standin is in no entry of the book.
fresh_addr :
    {st : Book}
    → IsRouted st
    → st.next_host + 1 < 2 ^ 32
    → lookup (standin_addr (st.next_host + 1)) st.addr_to_peer ≡ none
fresh_addr {st} v room =
    elim (Option-cases (lookup (standin_addr (st.next_host + 1)) st.addr_to_peer)) [
      | inl e ↦ e
      | inr (p, e) ↦
          let (h, le, same) = v.standin _ p e in
          absurd (
            omega
              (arith, doc_prefix_addr_injective 0x77 (st.next_host + 1) h room (omega arith) same))
    ]

-- The standin that a new peer gets joins the book.
pub joined-IsRouted :
    {st : Book} (peer : Bytes) (via : ℕ)
    → IsRouted st
    → st.next_host + 1 < 2 ^ 32
    → lookup peer st.peer_to_addr ≡ none
    → let addr = standin_addr (st.next_host + 1) in
      IsRouted (record st {
        next_host = st.next_host + 1;
        peer_to_addr = insert peer addr st.peer_to_addr;
        addr_to_peer = insert addr peer st.addr_to_peer;
        routes = insert addr (relay via) st.routes;
      })
joined-IsRouted {st} peer via v room new =
    let addr = standin_addr (st.next_host + 1) in
    let free = fresh_addr v room in
    record {
      hosts = room;
      ids = v.ids;
      standin = λ a p h. elim (lookup-insert_cases addr a peer p st.addr_to_peer h) [
        | inl (here, _) ↦ (st.next_host + 1, omega arith, sym here)
        | inr (_, old) ↦ let (n, le, same) = v.standin a p old in (n, omega arith, same)
      ];
      backward = λ a p h. elim (lookup-insert_cases addr a peer p st.addr_to_peer h) [
        | inl (here, same) ↦ rw (← here, ← same) (lookup-insert_self peer addr st.peer_to_addr)
        | inr (_, old) ↦
            let before = v.backward a p old in
            lookup-insert_ne peer p addr st.peer_to_addr
              (λ (q : peer ≡ p). cc (new, ap (λ (k : Bytes). lookup k st.peer_to_addr) q, before))
            ∙ before
      ];
      forward = λ p a h. elim (lookup-insert_cases peer p addr a st.peer_to_addr h) [
        | inl (here, same) ↦ rw (← here, ← same) (lookup-insert_self addr peer st.addr_to_peer)
        | inr (_, old) ↦
            let before = v.forward p a old in
            lookup-insert_ne addr a peer st.addr_to_peer (λ (q : addr ≡ a).
              cc (free, ap (λ (k : SocketAddr). lookup k st.addr_to_peer) q, before))
            ∙ before
      ];
      routed = λ a p h. elim (lookup-insert_cases addr a peer p st.addr_to_peer h) [
        | inl (here, same) ↦
            (relay via, rw (← here) (lookup-insert_self addr (relay via) st.routes))
        | inr (other, old) ↦
            let (r, e) = v.routed a p old in
            (r, lookup-insert_ne addr a (relay via) st.routes other ∙ e)
      ];
      known = λ a r h. elim (lookup-insert_cases addr a (relay via) r st.routes h) [
        | inl (here, same) ↦ (
          peer,
          rw (← here) (lookup-insert_self addr peer st.addr_to_peer),
          subst (IsRouteTo st.channels peer) same tt,
        )
        | inr (other, old) ↦
            let (p, e, good) = v.known a r old in
            (p, lookup-insert_ne addr a peer st.addr_to_peer other ∙ e, good)
      ];
      numbered = v.numbered;
    }
