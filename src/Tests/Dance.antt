-- ===== src/Tests/Dance.antt =====
-- Concrete runs of the signaling dances.
use polymorph_iroh.Base.{
  ◌⊎◌, ◌*◌, ◌^◌, ◌≡◌, ◌≢◌, refl, true, false, Option, none, some, List, [], ◌∷◌, inr, replicate,
  Bytes, eqb, if◌then◌else◌, bytes_beq, ap, sym, ◌∙◌, arith, bytes_key,
}
use mathlib.Core.List.{append-nil}
use polymorph_iroh.Base.Maps.{lookup, contains}
use polymorph_iroh.Noq.{Noq}
use polymorph_iroh.Endpoint.{State, new_state}
use polymorph_iroh.Endpoint.Signaling.{session_active}
use polymorph_iroh.Endpoint.Dance.{
  World, Scene, Result, ok, err, parked, Signal, offer, answer, candidate, end_of_candidates, done,
  Candidate, dropped, complete, open_state, offer_sdp, answer_sdp, consume_signaling, wait_signal,
}
use polymorph_iroh.Endpoint.Dance.Sides.{dial, upgrade, answerer, answer_task}
use polymorph_iroh.Endpoint.Dance.Phases.{offering, answering}
use polymorph_iroh.Endpoint.Dance.Outbox.{signals_to}
use polymorph_iroh.Endpoint.Dance.Protocol.{IsSpoken, sides_speak}
use polymorph_iroh.Endpoint.Dance.Hearing.{consume_hears}
use polymorph_iroh.Endpoint.Dance.Session.{IsReleased, dances_release}
use polymorph_iroh.Endpoint.Dance.Deadline.{wait_signal_ends}
use polymorph_iroh.Tests.Toy.{toy}

abbrev peer : Bytes
peer = replicate 32 7

abbrev pub noq : Noq
noq = toy (some peer)

abbrev pub mid : Bytes → Candidate
mid text = record { candidate = text; sdp_mid = none; sdp_mline_index = none }

abbrev encoded : Signal → Bytes
encoded (offer sdp) = 1 ∷ sdp
encoded (answer sdp) = 2 ∷ sdp
encoded (candidate c) = 3 ∷ c.candidate
encoded end_of_candidates = 4 ∷ []
encoded done = 5 ∷ []

abbrev pub decoded : Bytes → Option Signal
decoded [] = none
decoded (tag ∷ text) =
    if eqb tag 1
    then some (offer text)
    else if eqb tag 2
    then some (answer text)
    else if eqb tag 3
    then some (candidate (mid text))
    else if eqb tag 4
    then some end_of_candidates
    else if eqb tag 5
    then some done
    else none

-- A peer connection that remembers the candidates it was given. The clock gains forty seconds at each
-- wait, and the other tasks do nothing.
abbrev pub world : World noq
world = record {
  Conn = List Bytes;
  new_conn = [];
  create_data_channel = λ options conn. (conn, inr 2);
  create_offer = λ conn. (conn, inr (record { kind = offer_sdp; sdp = 10 ∷ [] }));
  create_answer = λ conn. (conn, inr (record { kind = answer_sdp; sdp = 11 ∷ [] }));
  set_local_description = λ description conn. (conn, inr tt);
  set_remote_description = λ description conn. (description.sdp ∷ conn, inr tt);
  add_ice_candidate = λ c conn. (c.candidate ∷ conn, inr tt);
  wait_connected = λ conn. (conn, inr tt);
  local_ice_candidates = λ conn. (complete, mid (8 ∷ []) ∷ []) ∷ (dropped, mid (9 ∷ []) ∷ []) ∷ [];
  state_changes = λ conn. (complete, open_state ∷ []) ∷ [];
  incoming_data_channels = λ conn. 6 ∷ [];
  wire_of = λ conn channel. channel;
  encode = λ signal. inr (encoded signal);
  decode = decoded;
  others = λ n st. st;
  time = λ n. n * (40 * 10 ^ 9);
}

-- The peer's answer, a candidate, a payload that is no signal, and the sentinel are unread.
abbrev told : State noq
told = record (new_state noq tt true) {
  signaling = (peer, 0) ∷ [];
  signal_inboxes =
      (peer, ((2 ∷ 20 ∷ []) ∷ (3 ∷ 30 ∷ []) ∷ (77 ∷ []) ∷ (5 ∷ []) ∷ (9 ∷ []) ∷ [])) ∷ [];
}

abbrev scene : State noq → Scene world
scene st = record { st = st; conn = []; turn = 0 }

-- An endpoint that has the peer's answer unread before it dials.
abbrev fresh : State noq
fresh = record (new_state noq tt true) {
  signal_inboxes = (peer, ((2 ∷ 20 ∷ []) ∷ (5 ∷ []) ∷ [])) ∷ [];
}

sides_speak_example :
    IsSpoken {w = world} peer (signals_to peer fresh) offering offer (dial 9 peer 0 (scene fresh))
    × IsSpoken {w = world} peer
        (signals_to peer fresh)
        answering
        answer
        (answerer 9 peer (scene fresh))
sides_speak_example = sides_speak 9 peer 0 (scene fresh) (λ n st. refl)

consume_hears_example :
    let (s, r) = consume_signaling 9 peer 0 (scene told) in
    ◌≡◌ {A = List Bytes × Result (Unit {0})} (s.conn, r) (((30 ∷ []) ∷ (20 ∷ []) ∷ []), ok tt)
unfolding lookup bytes_beq
consume_hears_example =
    consume_hears world ((2 ∷ 20 ∷ []) ∷ (3 ∷ 30 ∷ []) ∷ (77 ∷ []) ∷ []) 9 peer (5 ∷ [])
      ((9 ∷ []) ∷ []) 0 (scene told)
      (λ n st inbox opened e. (opened, ([], e ∙ ap some (sym (append-nil inbox)))))
      (((λ e. cc), ((λ e. cc), ((λ e. cc), tt))), refl) (refl, refl) (omega arith)

dances_release_example :
    ((contains peer told.signaling ≡ true)
        × (dial 9 peer 0 (scene told) ≡ (scene told, err session_active))
        × (upgrade 9 peer 0 (scene told) ≡ scene told)
      ⊎ (contains peer told.signaling ≡ false)
        × (((dial 9 peer 0 (scene told)).1 ≡ parked)
            ⊎ IsReleased peer (upgrade 9 peer 0 (scene told)).st))
    × (((answerer 9 peer (scene told)).1 ≡ parked)
        ⊎ IsReleased peer (answer_task 9 peer (scene told)).st)
dances_release_example = dances_release 9 peer 0 (scene told)

wait_signal_ends_example : (wait_signal 3 peer 0 (scene (new_state noq tt true))).1 ≢ parked
wait_signal_ends_example =
    wait_signal_ends world 3 peer 0 1 (scene (new_state noq tt true)) (λ t h. omega arith)
      (omega arith)
