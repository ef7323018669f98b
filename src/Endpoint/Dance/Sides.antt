-- ===== src/Endpoint/Dance/Sides.antt =====
-- The two dances of endpoint/src/webrtc.rs: the offerer's (`dial`, inside `upgrade`) and the
-- answerer's (`answer_inner`, inside `answer`), each with the guard of its session.
use polymorph_iroh.Base.{
  ℕ, ◌||◌, Bool, true, false, Option, none, some, List, [], ◌∷◌, Bytes, codes, ltb, if◌then◌else◌,
}
use polymorph_iroh.Noq.{Noq}
use polymorph_iroh.Endpoint.{State, Error, connect_failed, other_error}
use polymorph_iroh.Endpoint.Routes.{register_channel}
use polymorph_iroh.Endpoint.Signaling.{begin_signaling, end_signaling}
use polymorph_iroh.Endpoint.Dance.{
  quic_channel_options, World, Scene, Result, ok, err, parked, Play, ◌>>=◌, ◌>>◌, ret, fail, pause,
  call, call_now, elapsed, publish, publish_candidates, consume_signaling, next_signal,
  signal_deadline, Signal, offer, answer, done, SessionDescription, offer_sdp, StreamResult,
  complete, DataChannelState, open_state, closed_state,
}

-- `batch.contains(..)`
pub has_open : List DataChannelState → Bool
has_open [] = false
has_open (open_state ∷ batch) = true
has_open (_ ∷ batch) = has_open batch

pub has_closed : List DataChannelState → Bool
has_closed [] = false
has_closed (closed_state ∷ batch) = true
has_closed (_ ∷ batch) = has_closed batch

abbrev pub is_over : StreamResult → Bool
is_over complete = false
is_over _ = true

module _ {noq : Noq} {w : World noq} where
  -- The wait for the channel's `open`, over the reads of its states.
  unfoldable pub wait_open : ℕ → List (StreamResult × List DataChannelState) → Play w (Unit {0})
  unfolding has_open has_closed
  wait_open started [] s = (s, parked)
  wait_open started ((status, batch) ∷ reads) s =
      let now = pause s in
      let rest = wait_open started reads now in
      if has_open batch
      then (now, ok tt)
      else if has_closed batch || is_over status
      then (now, err (connect_failed (codes "webrtc channel closed before opening")))
      else if ltb signal_deadline (elapsed started now)
      then (now, err (connect_failed (codes "webrtc channel open timed out")))
      else rest

  -- The signals of one side: its description, its candidates and the sentinel.
  unfoldable pub announce : Bytes → Signal → Play w (Unit {0})
  announce peer description = do
    publish peer description
    publish_candidates peer
    publish peer done

  unfoldable pub open_channel : ℕ → ℕ → Play w ℕ
  unfolding wait_open
  open_channel started channel s =
      (do wait_open started (w.state_changes s.conn); λ s'. (s', ok (w.wire_of s'.conn channel))) s

  -- The offerer once its own signals are out.
  unfoldable pub settle_offer : ℕ → Bytes → ℕ → ℕ → Play w ℕ
  unfolding open_channel
  settle_offer fuel peer started channel = do
    consume_signaling fuel peer started
    call w.wait_connected
    open_channel started channel

  unfoldable pub make_offer : ℕ → Bytes → ℕ → ℕ → SessionDescription → Play w ℕ
  unfolding announce settle_offer
  make_offer fuel peer started channel description = do
    call (w.set_local_description description)
    announce peer (offer description.sdp)
    settle_offer fuel peer started channel

  unfoldable pub open_offer : ℕ → Bytes → ℕ → ℕ → Play w ℕ
  unfolding make_offer
  open_offer fuel peer started channel = do
    description ← call w.create_offer
    make_offer fuel peer started channel description

  -- `dial` inside its session: the wire's number.
  unfoldable pub offerer : ℕ → Bytes → Play w ℕ
  unfolding open_offer
  offerer fuel peer s =
      (do
        channel ← call_now (w.create_data_channel quic_channel_options)
        open_offer fuel peer (w.time s.turn) channel)
        (record s { conn = w.new_conn })

  -- The drop of the session's guard, at every end of a dance.
  unfoldable pub end_session : {A : Type 0} → Bytes → Scene w × Result A → Scene w × Result A
  end_session peer (s, parked) = (s, parked)
  end_session peer (s, r) = (record s { st = end_signaling s.st peer }, r)

  unfoldable pub on_begun :
      {A : Type 0} → Bytes → Play w A → Scene w → State noq × Option Error → Scene w × Result A
  unfolding end_session
  on_begun peer play s (st, some e) = (s, err e)
  on_begun peer play s (st, none) = end_session peer (play (record s { st = st }))

  unfoldable pub dial : ℕ → Bytes → ℕ → Play w ℕ
  unfolding offerer on_begun
  dial fuel peer via s = on_begun peer (offerer fuel peer) s (begin_signaling s.st peer via)

  -- A failure of the dial or of the registration leaves the route as it is.
  abbrev pub after_dial : Bytes → Scene w × Result ℕ → Scene w
  after_dial peer (s, ok wire) = record s { st = (register_channel s.st peer wire).0 }
  after_dial peer (s, _) = s

  unfoldable pub upgrade : ℕ → Bytes → ℕ → Scene w → Scene w
  unfolding dial
  upgrade fuel peer via s = after_dial peer (dial fuel peer via s)

  -- The offer that an answerer begins with.
  unfoldable pub expect_offer : Option Signal → Play w Bytes
  expect_offer (some (offer sdp)) = ret sdp
  expect_offer _ = fail (other_error (codes "expected an offer"))

  unfoldable pub on_registered : Scene w → State noq × Option Error → Scene w × Result (Unit {0})
  on_registered s (st, none) = (record s { st = st }, ok tt)
  on_registered s (st, some e) = (record s { st = st }, err e)

  -- The first incoming channel becomes the wire.
  unfoldable pub adopt_channel : Bytes → List ℕ → Play w (Unit {0})
  unfolding on_registered
  adopt_channel peer [] s = (s, err (other_error (codes "no incoming data channel")))
  adopt_channel peer (channel ∷ _) s =
      on_registered s (register_channel s.st peer (w.wire_of s.conn channel))

  unfoldable pub first_channel : Bytes → Play w (Unit {0})
  unfolding adopt_channel
  first_channel peer s = adopt_channel peer (w.incoming_data_channels s.conn) (pause s)

  -- The answerer once its own signals are out.
  unfoldable pub settle_answer : ℕ → Bytes → ℕ → Play w (Unit {0})
  unfolding first_channel
  settle_answer fuel peer started = do
    consume_signaling fuel peer started
    call w.wait_connected
    first_channel peer

  unfoldable pub make_answer : ℕ → Bytes → ℕ → SessionDescription → Play w (Unit {0})
  unfolding announce settle_answer
  make_answer fuel peer started description = do
    call (w.set_local_description description)
    announce peer (answer description.sdp)
    settle_answer fuel peer started

  unfoldable pub accept_offer : ℕ → Bytes → ℕ → Bytes → Play w (Unit {0})
  unfolding make_answer
  accept_offer fuel peer started sdp = do
    call (w.set_remote_description (record { kind = offer_sdp; sdp = sdp }))
    description ← call w.create_answer
    make_answer fuel peer started description

  unfoldable pub on_first : ℕ → Bytes → ℕ → Option Signal → Play w (Unit {0})
  unfolding expect_offer accept_offer
  on_first fuel peer started first = do sdp ← expect_offer first; accept_offer fuel peer started sdp

  -- `answer_inner`
  unfoldable pub answerer : ℕ → Bytes → Play w (Unit {0})
  unfolding on_first
  answerer fuel peer s =
      (do first ← next_signal fuel peer (w.time s.turn); on_first fuel peer (w.time s.turn) first)
        (record s { conn = w.new_conn })

  -- The answerer's task: a failure ends the session silently.
  unfoldable pub answer_task : ℕ → Bytes → Scene w → Scene w
  unfolding answerer end_session
  answer_task fuel peer s = (end_session peer (answerer fuel peer s)).0
