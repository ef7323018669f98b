-- ===== src/Endpoint/Dance/Quiet.antt =====
-- The pieces of the dances of endpoint/src/webrtc.rs that send their peer no signal.
use polymorph_iroh.Base.{
  ℕ, zero, suc, ◌≡◌, refl, Option, none, some, List, [], ◌∷◌, ◌++◌, Bytes, ◌⊎◌, if_cases, ◌∙◌, ◌||◌,
  ltb,
}
use polymorph_iroh.Noq.{Noq}
use polymorph_iroh.Endpoint.{State, Error}
use polymorph_iroh.Endpoint.Signaling as Signaling
use polymorph_iroh.Endpoint.Signaling.{pop_signal_inbox}
use polymorph_iroh.Endpoint.Dance.{
  World, Scene, Result, ok, err, parked, Play, and_then, ◌>>=◌, call, call_now, pause, gather,
  park_waiter, signal_check, on_pop, on_check, wait_signal, next_signal, apply_signal, on_payload,
  on_next, consume_signaling, Signal, offer, answer, candidate, end_of_candidates, done, Candidate,
  StreamResult, complete, dropped, cancelled, DataChannelState, elapsed, signal_deadline,
}
use polymorph_iroh.Endpoint.Routes.{register_channel}
use polymorph_iroh.Endpoint.Dance.Outbox.{
  signals_to, pop_signal_inbox-signals, register_channel-signals,
}
use polymorph_iroh.Endpoint.Dance.Sides.{
  wait_open, on_registered, has_open, has_closed, is_over, expect_offer, adopt_channel,
}

-- The other tasks send no signal to the peer, and the pump loses none.
abbrev pub IsDiscreet : {noq : Noq} → World noq → Bytes → Type 0
IsDiscreet {noq} w to = (n : ℕ) (st : State noq) → signals_to to (w.others n st) ≡ signals_to to st

module _ {noq : Noq} {w : World noq} (to : Bytes) where
  -- No signal goes out to the peer.
  abbrev pub IsQuiet : {A : Type 0} → Play w A → Type 0
  IsQuiet m = (s : Scene w) → signals_to to (m s).0.st ≡ signals_to to s.st

  and_then-quiet :
      {A B : Type 0} (before : List Bytes) (k : A → Play w B) (x : Scene w × Result A)
      → signals_to to x.0.st ≡ before
      → ((a : A) → IsQuiet (k a))
      → signals_to to (and_then k x.0 x.1).0.st ≡ before
  and_then-quiet before k (s, ok a) e quiet = quiet a s ∙ e
  and_then-quiet before k (s, err f) e quiet = e
  and_then-quiet before k (s, parked) e quiet = e

  pub bind-IsQuiet :
      {A B : Type 0} (m : Play w A) (k : A → Play w B)
      → IsQuiet m
      → ((a : A) → IsQuiet (k a))
      → IsQuiet (m >>= k)
  bind-IsQuiet m k hm hk s = and_then-quiet (signals_to to s.st) k (m s) (hm s) hk

module _ {noq : Noq} {w : World noq} (to : Bytes) (discreet : IsDiscreet w to) where
  pub call-IsQuiet :
      {A : Type 0} (f : w.Conn → w.Conn × (Bytes ⊎ A)) → IsQuiet {w = w} to (call {w = w} f)
  unfolding call call_now pause
  call-IsQuiet f s = discreet s.turn s.st

  on_pop-IsQuiet :
      (started : ℕ) (s : Scene w) (x : State noq × Option Bytes)
      → signals_to to x.0 ≡ signals_to to s.st
      → signals_to to (on_pop started s x).0.st ≡ signals_to to s.st
  unfolding on_pop
  on_pop-IsQuiet started s (st, some payload) e = e
  on_pop-IsQuiet started s (st, none) e = e

  signal_check-IsQuiet :
      (peer : Bytes) (started : ℕ) (s : Scene w)
      → signals_to to (signal_check peer started s).0.st ≡ signals_to to s.st
  unfolding signal_check
  signal_check-IsQuiet peer started s =
      if_cases (λ (r : Scene w × Option (Result Bytes)). signals_to to r.0.st ≡ signals_to to s.st)
        s.st.is_closed _ _ (λ t. refl)
        (λ t.
          on_pop-IsQuiet started s (Signaling.pop_signal_inbox s.st peer)
            (pop_signal_inbox-signals to s.st peer))

  on_check-IsQuiet :
      (again : Play w Bytes) (before : List Bytes) (x : Scene w × Option (Result Bytes))
      → IsQuiet {w = w} to again
      → signals_to to x.0.st ≡ before
      → signals_to to (on_check again x).0.st ≡ before
  unfolding park_waiter pause
  on_check-IsQuiet again before (s, some result) quiet e = e
  on_check-IsQuiet again before (s, none) quiet e =
      quiet (park_waiter s)
      ∙ discreet s.turn (record s.st { waiters = s.st.waiters ++ (s.turn ∷ []) })
      ∙ e

  wait_signal-IsQuiet :
      (n : ℕ) (peer : Bytes) (started : ℕ)
      → IsQuiet {w = w} to {A = Bytes} (wait_signal n peer started)
  unfolding wait_signal
  wait_signal-IsQuiet zero peer started s = refl
  wait_signal-IsQuiet (suc n) peer started s =
      on_check-IsQuiet (wait_signal n peer started) (signals_to to s.st)
        (signal_check peer started s) (wait_signal-IsQuiet n peer started)
        (signal_check-IsQuiet peer started s)

  on_payload-IsQuiet :
      (again : Play w (Option Signal)) (o : Option Signal)
      → IsQuiet {w = w} to again
      → IsQuiet {w = w} to {A = Option Signal} (on_payload again o)
  on_payload-IsQuiet again none h = h
  on_payload-IsQuiet again (some signal) h = λ s. refl

  pub next_signal-IsQuiet :
      (n : ℕ) (peer : Bytes) (started : ℕ)
      → IsQuiet {w = w} to {A = Option Signal} (next_signal n peer started)
  unfolding next_signal
  next_signal-IsQuiet zero peer started = λ s. refl
  next_signal-IsQuiet (suc n) peer started =
      bind-IsQuiet to (wait_signal (suc n) peer started)
        (λ payload. on_payload (next_signal n peer started) (w.decode payload))
        (wait_signal-IsQuiet (suc n) peer started)
        (λ payload.
          on_payload-IsQuiet (next_signal n peer started) (w.decode payload)
            (next_signal-IsQuiet n peer started))

  apply_signal-IsQuiet : (signal : Signal) → IsQuiet {w = w} to {A = Unit {0}} (apply_signal signal)
  unfolding apply_signal
  apply_signal-IsQuiet (answer sdp) = call-IsQuiet _
  apply_signal-IsQuiet (candidate c) = call-IsQuiet _
  apply_signal-IsQuiet (offer sdp) = λ s. refl
  apply_signal-IsQuiet end_of_candidates = λ s. refl
  apply_signal-IsQuiet done = λ s. refl

  on_next-IsQuiet :
      (again : Play w (Unit {0})) (next : Option Signal)
      → IsQuiet {w = w} to again
      → IsQuiet {w = w} to {A = Unit {0}} (on_next again next)
  unfolding on_next
  on_next-IsQuiet again none h = λ s. refl
  on_next-IsQuiet again (some signal) h =
      bind-IsQuiet to (apply_signal signal) (λ u. again) (apply_signal-IsQuiet signal) (λ u. h)

  pub consume_signaling-IsQuiet :
      (n : ℕ) (peer : Bytes) (started : ℕ)
      → IsQuiet {w = w} to {A = Unit {0}} (consume_signaling n peer started)
  unfolding consume_signaling
  consume_signaling-IsQuiet zero peer started = λ s. refl
  consume_signaling-IsQuiet (suc n) peer started =
      bind-IsQuiet to (next_signal (suc n) peer started)
        (on_next (consume_signaling n peer started)) (next_signal-IsQuiet (suc n) peer started)
        (λ next.
          on_next-IsQuiet (consume_signaling n peer started) next
            (consume_signaling-IsQuiet n peer started))

  pub gather-IsQuiet :
      (reads : List (StreamResult × List Candidate)) (seen : List Candidate)
      → IsQuiet {w = w} to {A = List Candidate} (gather reads seen)
  unfolding gather pause
  gather-IsQuiet [] seen s = refl
  gather-IsQuiet ((complete, batch) ∷ reads) seen s =
      gather-IsQuiet reads (seen ++ batch) (pause s) ∙ discreet s.turn s.st
  gather-IsQuiet ((dropped, batch) ∷ reads) seen s = discreet s.turn s.st
  gather-IsQuiet ((cancelled, batch) ∷ reads) seen s = discreet s.turn s.st

  pub call_now-IsQuiet :
      {A : Type 0} (f : w.Conn → w.Conn × (Bytes ⊎ A)) → IsQuiet {w = w} to (call_now {w = w} f)
  unfolding call_now
  call_now-IsQuiet f s = refl

  pub wait_open-IsQuiet :
      (started : ℕ) (reads : List (StreamResult × List DataChannelState))
      → IsQuiet {w = w} to {A = Unit {0}} (wait_open started reads)
  unfolding wait_open pause
  wait_open-IsQuiet started [] s = refl
  wait_open-IsQuiet started ((status, batch) ∷ reads) s =
      let P = λ (r : Scene w × Result (Unit {0})). signals_to to r.0.st ≡ signals_to to s.st in
      if_cases P (has_open batch) _ _ (λ t. discreet s.turn s.st)
        (λ t.
          if_cases P (has_closed batch || is_over status) _ _ (λ u. discreet s.turn s.st)
            (λ u.
              if_cases P (ltb signal_deadline (elapsed started (pause s))) _ _
                (λ v. discreet s.turn s.st)
                (λ v. wait_open-IsQuiet started reads (pause s) ∙ discreet s.turn s.st)))

  pub expect_offer-IsQuiet :
      (next : Option Signal) → IsQuiet {w = w} to {A = Bytes} (expect_offer {w = w} next)
  unfolding expect_offer
  expect_offer-IsQuiet none s = refl
  expect_offer-IsQuiet (some (offer sdp)) s = refl
  expect_offer-IsQuiet (some (answer sdp)) s = refl
  expect_offer-IsQuiet (some (candidate c)) s = refl
  expect_offer-IsQuiet (some end_of_candidates) s = refl
  expect_offer-IsQuiet (some done) s = refl

  on_registered-IsQuiet :
      (s : Scene w) (x : State noq × Option Error)
      → signals_to to x.0 ≡ signals_to to s.st
      → signals_to to (on_registered s x).0.st ≡ signals_to to s.st
  unfolding on_registered
  on_registered-IsQuiet s (st, none) e = e
  on_registered-IsQuiet s (st, some f) e = e

  pub adopt_channel-IsQuiet :
      (peer : Bytes) (batch : List ℕ)
      → IsQuiet {w = w} to {A = Unit {0}} (adopt_channel {w = w} peer batch)
  unfolding adopt_channel
  adopt_channel-IsQuiet peer [] s = refl
  adopt_channel-IsQuiet peer (channel ∷ batch) s =
      on_registered-IsQuiet s (register_channel s.st peer (w.wire_of s.conn channel))
        (register_channel-signals to s.st peer (w.wire_of s.conn channel))
