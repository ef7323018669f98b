-- ===== src/Endpoint/Dance/Protocol.antt =====
-- What each side of a dance of endpoint/src/webrtc.rs sends to its peer, over its whole run.
use polymorph_iroh.Base.{ℕ, ◌≡◌, refl, sym, subst, ◌∙◌, ◌++◌, Option, none, some, List, [], Bytes}
use polymorph_iroh.Noq.{Noq}
use polymorph_iroh.Endpoint.{State, Error}
use polymorph_iroh.Endpoint.Signaling as Signaling
use polymorph_iroh.Endpoint.Signaling.{begin_signaling}
use polymorph_iroh.Endpoint.Dance.{
  World, Scene, Result, ok, err, parked, ◌>>=◌, ◌>>◌, call, call_now, pause, next_signal,
  consume_signaling, quic_channel_options, Signal, offer, answer, SessionDescription, offer_sdp,
  Candidate,
}
use mathlib.Core.List.{append-nil}
use polymorph_iroh.Endpoint.Dance.Outbox.{signals_to, begin_signaling-signals}
use polymorph_iroh.Endpoint.Dance.Quiet.{
  IsDiscreet, IsQuiet, bind-IsQuiet, call-IsQuiet, call_now-IsQuiet, next_signal-IsQuiet,
  consume_signaling-IsQuiet, wait_open-IsQuiet, expect_offer-IsQuiet, adopt_channel-IsQuiet,
}
use polymorph_iroh.Endpoint.Dance.Sides.{
  announce, wait_open, open_channel, settle_offer, make_offer, open_offer, first_channel,
  settle_answer, make_answer, accept_offer, on_first, offerer, end_session, on_begun, dial,
  expect_offer, answerer,
}
use polymorph_iroh.Endpoint.Dance.Order.{
  Encodes, Told, Ends, Leads, bind-Leads, quiet-Leads, after_quiet, announce-Leads,
}
use polymorph_iroh.Endpoint.Dance.Phases.{
  Phase, offering, answering, trickling, over, follows, phase_after, whole, offering-over,
  answering-over,
}

module _ {noq : Noq} {w : World noq} (peer : Bytes) (discreet : IsDiscreet w peer)
    (base : List Bytes) (start : Phase) where
  settle_offer-IsQuiet :
      (fuel : ℕ) (started channel : ℕ)
      → IsQuiet peer (settle_offer {w = w} fuel peer started channel)
  unfolding settle_offer open_channel
  settle_offer-IsQuiet fuel started channel =
      bind-IsQuiet peer (consume_signaling fuel peer started)
        (λ u. do call w.wait_connected; open_channel started channel)
        (consume_signaling-IsQuiet peer discreet fuel peer started)
        (λ u.
          bind-IsQuiet peer (call w.wait_connected) (λ v. open_channel started channel)
            (call-IsQuiet peer discreet w.wait_connected)
            (λ v s.
              bind-IsQuiet peer (wait_open started (w.state_changes s.conn))
                (λ t s'. (s', ok (w.wire_of s'.conn channel)))
                (wait_open-IsQuiet peer discreet started (w.state_changes s.conn)) (λ t s'. refl)
                s))

  settle_answer-IsQuiet :
      (fuel : ℕ) (started : ℕ) → IsQuiet peer (settle_answer {w = w} fuel peer started)
  unfolding settle_answer first_channel pause
  settle_answer-IsQuiet fuel started =
      bind-IsQuiet peer (consume_signaling fuel peer started)
        (λ u. do call w.wait_connected; first_channel peer)
        (consume_signaling-IsQuiet peer discreet fuel peer started)
        (λ u.
          bind-IsQuiet peer (call w.wait_connected) (λ v. first_channel peer)
            (call-IsQuiet peer discreet w.wait_connected)
            (λ v s.
              adopt_channel-IsQuiet peer discreet peer (w.incoming_data_channels s.conn) (pause s)
              ∙ discreet s.turn s.st))

  make_offer-Leads :
      (fuel : ℕ) (started channel : ℕ) (description : SessionDescription)
      → follows start (offer description.sdp) ≡ some trickling
      → Leads peer base start start over (make_offer {w = w} fuel peer started channel description)
  unfolding make_offer
  make_offer-Leads fuel started channel description step =
      after_quiet peer base start start over (call (w.set_local_description description))
        (λ u. do announce peer (offer description.sdp); settle_offer fuel peer started channel)
        (call-IsQuiet peer discreet (w.set_local_description description))
        (λ u.
          bind-Leads peer base start start over over (announce peer (offer description.sdp))
            (λ v. settle_offer fuel peer started channel)
            (announce-Leads peer base start start (offer description.sdp) discreet step)
            (λ v.
              quiet-Leads peer base start over (settle_offer fuel peer started channel)
                (settle_offer-IsQuiet fuel started channel)))

  make_answer-Leads :
      (fuel : ℕ) (started : ℕ) (description : SessionDescription)
      → follows start (answer description.sdp) ≡ some trickling
      → Leads peer base start start over (make_answer {w = w} fuel peer started description)
  unfolding make_answer
  make_answer-Leads fuel started description step =
      after_quiet peer base start start over (call (w.set_local_description description))
        (λ u. do announce peer (answer description.sdp); settle_answer fuel peer started)
        (call-IsQuiet peer discreet (w.set_local_description description))
        (λ u.
          bind-Leads peer base start start over over (announce peer (answer description.sdp))
            (λ v. settle_answer fuel peer started)
            (announce-Leads peer base start start (answer description.sdp) discreet step)
            (λ v.
              quiet-Leads peer base start over (settle_answer fuel peer started)
                (settle_answer-IsQuiet fuel started)))

  open_offer-Leads :
      (fuel : ℕ) (started channel : ℕ)
      → ((sdp : Bytes) → follows start (offer sdp) ≡ some trickling)
      → Leads peer base start start over (open_offer {w = w} fuel peer started channel)
  unfolding open_offer
  open_offer-Leads fuel started channel step =
      after_quiet peer base start start over (call w.create_offer)
        (make_offer fuel peer started channel) (call-IsQuiet peer discreet w.create_offer)
        (λ description. make_offer-Leads fuel started channel description (step description.sdp))

  offerer-Leads :
      (fuel : ℕ)
      → ((sdp : Bytes) → follows start (offer sdp) ≡ some trickling)
      → Leads peer base start start over (offerer {w = w} fuel peer)
  unfolding offerer
  offerer-Leads fuel step s =
      after_quiet peer base start start over (call_now (w.create_data_channel quic_channel_options))
        (open_offer fuel peer (w.time s.turn))
        (call_now-IsQuiet peer discreet (w.create_data_channel quic_channel_options))
        (λ channel. open_offer-Leads fuel (w.time s.turn) channel step)
        (record s { conn = w.new_conn })

  accept_offer-Leads :
      (fuel : ℕ) (started : ℕ) (sdp : Bytes)
      → ((sdp : Bytes) → follows start (answer sdp) ≡ some trickling)
      → Leads peer base start start over (accept_offer {w = w} fuel peer started sdp)
  unfolding accept_offer
  accept_offer-Leads fuel started sdp step =
      let remote = w.set_remote_description (record { kind = offer_sdp; sdp = sdp }) in
      after_quiet peer base start start over (call remote)
        (λ u. do description ← call w.create_answer; make_answer fuel peer started description)
        (call-IsQuiet peer discreet remote)
        (λ u.
          after_quiet peer base start start over (call w.create_answer)
            (make_answer fuel peer started) (call-IsQuiet peer discreet w.create_answer)
            (λ description. make_answer-Leads fuel started description (step description.sdp)))

  answerer-Leads :
      (fuel : ℕ)
      → ((sdp : Bytes) → follows start (answer sdp) ≡ some trickling)
      → Leads peer base start start over (answerer {w = w} fuel peer)
  unfolding answerer on_first
  answerer-Leads fuel step s =
      let started = w.time s.turn in
      after_quiet peer base start start over (next_signal fuel peer started)
        (on_first fuel peer started) (next_signal-IsQuiet peer discreet fuel peer started)
        (λ first.
          after_quiet peer base start start over (expect_offer first)
            (accept_offer fuel peer started) (expect_offer-IsQuiet peer discreet first)
            (λ sdp. accept_offer-Leads fuel started sdp step))
        (record s { conn = w.new_conn })

  end_session-Ends :
      {A : Type 0} (q : Phase) (x : Scene w × Result A)
      → Ends peer base start q x
      → Ends peer base start q (end_session peer x)
  unfolding end_session Signaling.end_signaling
  end_session-Ends q (s, ok a) h = h
  end_session-Ends q (s, err e) h = h
  end_session-Ends q (s, parked) h = h

  dial-Leads :
      (fuel : ℕ) (via : ℕ)
      → ((sdp : Bytes) → follows start (offer sdp) ≡ some trickling)
      → Leads peer base start start over (dial {w = w} fuel peer via)
  unfolding dial on_begun
  dial-Leads fuel via step s told =
      begun (Signaling.begin_signaling s.st peer via) (begin_signaling-signals peer s.st peer via)
    where
      begun :
          (x : State noq × Option Error)
          → signals_to peer x.0 ≡ signals_to peer s.st
          → Ends peer base start over (on_begun peer (offerer fuel peer) s x)
      begun (st, some f) same = (start, told)
      begun (st, none) same = end_session-Ends over (offerer fuel peer (record s { st = st })) (
          offerer-Leads fuel step (record s { st = st })
            (told.0, told.1, same ∙ told.2, told.3, told.4))

-- The end of a side before which `base` had gone out to the peer: behind it the encodings of all the
-- side's signals are out if it succeeded, and if not, the encodings of some signals that are allowed
-- in their order.
abbrev pub IsSpoken :
    {noq : Noq} {w : World noq} {A : Type 0}
    → Bytes
    → List Bytes
    → Phase
    → (Bytes → Signal)
    → Scene w × Result A
    → Type 0
IsSpoken {w = w} peer base start description (s, ok a) =
    (sdp : Bytes) × (cs : List Candidate) × (texts : List Bytes) × (signals_to peer s.st
      ≡ base ++ texts)
    × Encodes w (whole (description sdp) cs) texts
IsSpoken peer base start description (s, _) = (p : Phase) × Told peer base start p s

Ends-IsSpoken :
    {noq : Noq} {w : World noq} {A : Type 0} (peer : Bytes) (base : List Bytes) (start : Phase)
    (description : Bytes → Signal)
    → ((signals : List Signal)
        → phase_after start signals ≡ some over
        → (sdp : Bytes) × (cs : List Candidate) × (signals ≡ whole (description sdp) cs))
    → (x : Scene w × Result A) → Ends peer base start over x
    → IsSpoken peer base start description x
Ends-IsSpoken {w = w} peer base start description shape (s, ok a)
      (signals, texts, out, encodes, phase) =
    let (sdp, cs, same) = shape signals phase in
    (sdp, cs, texts, out, subst (λ x. Encodes w x texts) same encodes)
Ends-IsSpoken peer base start description shape (s, err f) h = h
Ends-IsSpoken peer base start description shape (s, parked) h = h

module _ {noq : Noq} {w : World noq} where
  fresh-Told :
      (peer : Bytes) (start : Phase) (s : Scene w) → Told peer (signals_to peer s.st) start start s
  fresh-Told peer start s = ([], [], sym (append-nil (signals_to peer s.st)), tt, refl)

  -- Whatever the peer connection does, and whatever the other tasks do as long as they send the peer
  -- no signal of their own and none that is queued is lost: the texts of the signals that an offerer
  -- has sent or queued to its peer, behind those from before, are the encodings of one offer, then
  -- candidates, the end of the candidates and the sentinel, in this order and with nothing between
  -- or behind; an answerer's are the same with an answer. A dance that fails or waits has sent or
  -- queued a front of that, and one that succeeds all of it.
  pub sides_speak :
      (fuel : ℕ) (peer : Bytes) (via : ℕ) (s : Scene w)
      → IsDiscreet w peer
      → IsSpoken peer (signals_to peer s.st) offering offer (dial fuel peer via s)
        × IsSpoken peer (signals_to peer s.st) answering answer (answerer fuel peer s)
  sides_speak fuel peer via s discreet =
      let base = signals_to peer s.st in
      (
        Ends-IsSpoken peer base offering offer offering-over (dial fuel peer via s) (
            dial-Leads peer discreet base offering fuel via (λ sdp. refl) s
              (fresh-Told peer offering s)),
        Ends-IsSpoken peer base answering answer answering-over (answerer fuel peer s) (
            answerer-Leads peer discreet base answering fuel (λ sdp. refl) s
              (fresh-Told peer answering s)),
      )
