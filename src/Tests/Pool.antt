-- ===== src/Tests/Pool.antt =====
-- Concrete runs for the relay pool and the pump.
use mathlib.Core.List.{Memᴰ}
use polymorph_iroh.Endpoint.Relays.Race.{Poll, redial_home, redial_ends}
use polymorph_iroh.Base.{
  ◌≢◌, ◌*◌, ◌^◌, ℕ, arith, ◌∷◌, ◌≡◌, refl, true, false, none, some, [], Bytes, codes, is_some,
  nat_key, bytes_key,
}
use polymorph_iroh.Base.Maps.{lookup}
use polymorph_iroh.Tests.Toy.{toy}
use polymorph_iroh.Noq.{Noq}
use polymorph_iroh.Endpoint.{State, new_state}
use polymorph_iroh.Endpoint.Relays.{
  dial_timed_out, claim_open, normalize_relay_url, register_relay, begin_ensure, end_open,
  ensure_check, dials, waits,
}
use polymorph_iroh.Endpoint.Relays.Book.{IsPooled, book}
use polymorph_iroh.Endpoint.Relays.Reach.{bound, step, ensures, pool_sound}
use polymorph_iroh.Endpoint.Relays.Shared.{Dialled, shared, shared_open}

abbrev noq : Noq
noq = toy none

abbrev home_url : Bytes
home_url = codes "https://a.example//"

abbrev other_url : Bytes
other_url = codes "https://b.example"

abbrev at_home : State noq
at_home = (register_relay (new_state noq tt true) home_url 7).0

pool_sound_example : IsPooled (book (begin_ensure at_home other_url).0)
pool_sound_example =
    pool_sound (begin_ensure at_home other_url).0 (
      step at_home (begin_ensure at_home other_url).0 (bound tt true home_url 7)
        (ensures other_url))

normalizes : normalize_relay_url (codes "https://b.example//") ≡ normalize_relay_url other_url
unfolding normalize_relay_url
normalizes = refl

abbrev bare : State noq
bare = new_state noq tt true

none_keyed : lookup (normalize_relay_url other_url) bare.relay_keys ≡ none
unfolding lookup
none_keyed = refl

none_opening : is_some (lookup (normalize_relay_url other_url) bare.relay_opening) ≡ false
unfolding lookup
none_opening = refl

abbrev spelled : Bytes
spelled = codes "https://b.example//"

-- The relay while it is dialled, and after the dial timed out.
abbrev dialling : State noq
dialling = (begin_ensure bare other_url).0

abbrev timed : State noq
timed = (end_open dialling other_url dial_timed_out).0

still_open : dialling.is_closed ≡ false
unfolding begin_ensure claim_open lookup
still_open = refl

shared_open_example :
    ((begin_ensure bare other_url).1 ≡ dials)
    × (begin_ensure dialling spelled ≡ (dialling, waits))
    × Dialled dialling dial_timed_out (end_open dialling other_url dial_timed_out).1
    × (ensure_check timed spelled 0 10
        ≡ some (shared (end_open dialling other_url dial_timed_out).1))
shared_open_example =
    shared_open bare dialling timed other_url spelled dial_timed_out 0 10 normalizes none_keyed refl
      none_opening (refl, refl) still_open (refl, refl)

-- A relay that stalls: nothing of the dial by thirteen seconds.
abbrev stalls : ℕ → Poll
stalls n = record { now = n * 10 ^ 9; dialled = none }

redial_ends_example :
    redial_home 0 (10 ^ 9) (stalls 0 ∷ stalls 2 ∷ stalls 3 ∷ stalls 13 ∷ []) ≢ none
redial_ends_example =
    redial_ends 0 (10 ^ 9) (stalls 0 ∷ []) (stalls 2) (stalls 13) (stalls 3 ∷ stalls 13 ∷ [])
      (omega arith, tt) (omega arith) (Memᴰ.tail (Memᴰ.tail (Memᴰ.head refl))) (omega arith)
