-- ===== src/Endpoint/Signaling/Fallback.antt =====
-- Where a dead channel's route returns to, on the two sides of a dance.
use polymorph_iroh.Base.{
  ℕ, ◌+◌, ◌%◌, ◌^◌, ◌≡◌, refl, ap, ◌∙◌, Bool, false, Option, none, some, Bytes, bytes_key, nat_key,
  if◌then◌else◌,
}
use polymorph_iroh.Base.Maps.{lookup, lookup-insert_self, lookup-remove_self}
use polymorph_iroh.Noq.{Noq}
use polymorph_iroh.Endpoint.{
  State, ChannelEntry, home_relay, kick_pump, Error, closed, close_channel, ask,
}
use polymorph_iroh.Endpoint.Routes.{
  register_channel, add_channel, flip_route, signaling_relay, with_channel, or_home,
}
use polymorph_iroh.Endpoint.Routes.Steps.{addr_for_peer-channels}
use polymorph_iroh.Endpoint.Signaling.{end_signaling, finish_upgrade, finish_answer}

module _ {noq : Noq} where
  -- The number that the next channel gets.
  abbrev pub next_id : State noq → ℕ
  next_id st = (st.next_channel_id + 1) % 2 ^ 32

  flip_route-channels :
      (st : State noq) (peer : Bytes) (fallback id : ℕ)
      → (flip_route st peer fallback id).channels ≡ st.channels
  unfolding flip_route kick_pump
  flip_route-channels st peer fallback id = (addr_for_peer-channels st peer fallback).0

  register_open :
      (st : State noq) (peer : Bytes) (wire : ℕ)
      → st.is_closed ≡ false
      → register_channel st peer wire ≡ (add_channel st peer wire, none)
  unfolding register_channel
  register_open st peer wire e =
      ap
        (λ (b : Bool).
          if b
          then (ask (close_channel wire) st, some closed)
          else (add_channel st peer wire, none))
        e

  -- A registered channel falls back on the relay of the peer's session, and without one on the home
  -- relay.
  registered :
      (st : State noq) (peer : Bytes) (wire : ℕ)
      → st.is_closed ≡ false
      → lookup (next_id st) (register_channel st peer wire).0.channels
        ≡ some (record {
          wire = wire;
          peer = peer;
          fallback_relay = or_home (lookup peer st.signaling);
        })
  unfolding add_channel
  registered st peer wire e =
      let fallback = or_home (signaling_relay st peer) in
      let entry : ChannelEntry = record { wire = wire; peer = peer; fallback_relay = fallback } in
      ap (λ (r : State noq × Option Error). lookup (next_id st) r.0.channels)
        (register_open st peer wire e)
      ∙ ap (lookup (next_id st))
          (flip_route-channels (with_channel st (next_id st) entry) peer fallback (next_id st))
      ∙ lookup-insert_self (next_id st) entry st.channels

  -- The answerer's channel falls back on the relay that the session signals through. The offerer's
  -- falls back on the home relay, whatever relay its session signalled through: its guard has
  -- dropped, and with it the session, before the channel is registered.
  pub fallback_of_sides :
      (st : State noq) (peer : Bytes) (via wire : ℕ)
      → st.is_closed ≡ false
      → lookup peer st.signaling ≡ some via
      → (lookup (next_id st) (finish_answer st peer (some wire)).channels
          ≡ some (record { wire = wire; peer = peer; fallback_relay = via }))
        × (lookup (next_id st) (finish_upgrade st peer (some wire)).channels
            ≡ some (record { wire = wire; peer = peer; fallback_relay = home_relay }))
  unfolding finish_answer finish_upgrade
  fallback_of_sides st peer via wire e session = (
    registered st peer wire e ∙ rw session refl,
    registered (end_signaling st peer) peer wire e ∙ rw (lookup-remove_self peer st.signaling) refl,
  )
