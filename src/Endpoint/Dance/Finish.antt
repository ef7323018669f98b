-- ===== src/Endpoint/Dance/Finish.antt =====
-- The ends of the two dances of endpoint/src/webrtc.rs, against what `Signaling` says of them.
use polymorph_iroh.Base.{ℕ, ◌≡◌, ◌⊎◌, Option, none, some, List, ◌∷◌, Bytes, bytes_key}
use polymorph_iroh.Noq.{Noq}
use polymorph_iroh.Endpoint.{State, Error}
use polymorph_iroh.Endpoint.Signaling.{finish_upgrade, finish_answer}
use polymorph_iroh.Endpoint.Dance.{World, Scene, Result, ok, err, parked}
use polymorph_iroh.Endpoint.Dance.Sides.{offerer, upgrade, end_session, adopt_channel}

-- The wire of a dance that succeeded.
abbrev pub wire_of_end : Result ℕ → Option ℕ
wire_of_end (ok wire) = some wire
wire_of_end _ = none

module _ {noq : Noq} {w : World noq} where
  -- An upgrade whose session began in the state `begun` waits on, or it leaves the state as
  -- `finish_upgrade` makes it of the offerer's.
  abbrev pub UpgradeEnds : ℕ → Bytes → ℕ → Scene w → State noq → Type 0
  UpgradeEnds fuel peer via s begun =
      let r = offerer fuel peer (record s { st = begun }) in
      (r.1 ≡ parked) ⊎ ((upgrade fuel peer via s).st ≡ finish_upgrade r.0.st peer (wire_of_end r.1))

  -- The answerer that adopts a channel, or fails at any point, leaves the state as `finish_answer`
  -- makes it.
  abbrev pub AnswerEnds : Bytes → ℕ → List ℕ → Scene w → Type 0
  AnswerEnds peer channel batch s =
      ((end_session peer (adopt_channel peer (channel ∷ batch) s)).0.st
        ≡ finish_answer s.st peer (some (w.wire_of s.conn channel)))
      × ((e : Error)
          → (end_session {A = Unit {0}} peer (s, err e)).0.st ≡ finish_answer s.st peer none)
