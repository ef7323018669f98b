-- ===== src/Endpoint/Drain/Total.antt =====
-- `drain` on a consistent book.
use polymorph_iroh.Base.{ℕ, ◌≡◌, refl, sym, ap, subst, Bool, Option, none, some, Bytes}
use polymorph_iroh.Base.Maps.{Map}
use polymorph_iroh.Net.{SocketAddr, addr_key}
use polymorph_iroh.Noq.{Noq}
use polymorph_iroh.Endpoint.{State, ConnEntry}
use polymorph_iroh.Endpoint.Routes.{route_transmit}
use polymorph_iroh.Endpoint.Routes.Invariant.{IsRouted, book}
use polymorph_iroh.Endpoint.Routes.Steps.{route_transmit_total}
use polymorph_iroh.Endpoint.Drain.{drain_conns, drain, put_conns}
use polymorph_iroh.Endpoint.Drain.Frame.{Kept, kept, Keeps, conns-Keeps}

module _ {noq : Noq} where
  -- A drain that ended, and kept all that.
  abbrev Drained : Kept → Option (State noq × Bool) → Type 0
  Drained b r =
      (next : State noq) × (progress : Bool) × (r ≡ some (next, progress)) × (kept next ≡ b)

  put_conns-Drained :
      (b : Kept) (s : Option (State noq × Map ℕ (ConnEntry noq) × Bool))
      → Keeps ⊥ b s
      → Drained b (put_conns s)
  put_conns-Drained b none c = absurd c
  put_conns-Drained b (some (last, conns, more)) c = (record last { conns = conns }, more, refl, c)

  routed_anyway :
      (b : Kept)
      → IsRouted b.0
      → (st : State noq) (destination : SocketAddr) (payload : Bytes) → kept st ≡ b
      → route_transmit st destination payload ≡ none
      → ⊥
  routed_anyway b v st destination payload k n =
      let (sent, routed, grows) =
        route_transmit_total st destination payload
          (subst (λ (x : Kept). IsRouted x.0) (sym k) v) in
      cc (n, routed)

  -- On a consistent book `drain` never indexes an address that has no peer, so it does not panic,
  -- however often it goes on and whatever the engine wants to send; and it leaves the book as it is.
  pub drain_total :
      (turns fuel : ℕ) (st : State noq) (now : ℕ)
      → IsRouted (book st)
      → (next : State noq) × (progress : Bool) × (drain turns fuel st now ≡ some (next, progress))
        × (book next ≡ book st)
  unfolding drain
  drain_total turns fuel st now v =
      let (next, progress, ended, same) =
        put_conns-Drained (kept st) (drain_conns turns fuel st now st.conns)
          (conns-Keeps ⊥ (kept st) (routed_anyway (kept st) v) turns fuel st now st.conns refl) in
      (next, progress, ended, ap (λ (x : Kept). x.0) same)
