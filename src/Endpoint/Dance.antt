-- ===== src/Endpoint/Dance.antt =====
-- The signaling of endpoint/src/webrtc.rs that both dances share: `publish`, `next_signal`,
-- `publish_candidates` and `consume_signaling`. A dance runs over a scene: the endpoint's state, the
-- peer connection and the number of waits so far. At each wait the other tasks may change the state.
-- The peer connection, the JSON codec, the clock and the other tasks are parameters. A loop has
-- fuel, and one whose fuel ends is parked: it has not ended by then.
pub mod Types
pub mod Wire
pub mod Sides
pub mod Finish
pub mod Outbox
pub mod Quiet
pub mod Phases
pub mod Order
pub mod Protocol
pub mod Fold
pub mod Hearing
pub mod Session
pub mod Deadline
use polymorph_iroh.Base.{
  ℕ, zero, suc, ◌+◌, ◌-◌, ◌*◌, ◌^◌, Bool, true, false, Option, none, some, List, [], ◌∷◌, ◌++◌,
  Bytes, codes, ltb, if◌then◌else◌, ◌⊎◌, inl, inr,
}
use polymorph_iroh.Noq.{Noq}
use polymorph_iroh.Endpoint.{State, Error, closed, connect_failed, other_error}
use polymorph_iroh.Endpoint.Signaling as Signaling
pub use polymorph_iroh.Endpoint.Dance.Types.*

module _ {noq : Noq} {w : World noq} where
  abbrev pub and_then : {A B : Type 0} → (A → Play w B) → Scene w → Result A → Scene w × Result B
  and_then f s (ok a) = f a s
  and_then f s (err e) = (s, err e)
  and_then f s parked = (s, parked)

  infixl 5 ◌>>=◌ ◌>>◌
  abbrev pub ◌>>=◌ : {A B : Type 0} → Play w A → (A → Play w B) → Play w B
  ◌>>=◌ m f s = let (s', r) = m s in and_then f s' r

  abbrev pub ◌>>◌ : {A B : Type 0} → Play w A → Play w B → Play w B
  m >> k = m >>= λ _. k

  abbrev pub ret : {A : Type 0} → A → Play w A
  ret a s = (s, ok a)

  abbrev pub fail : {A : Type 0} → Error → Play w A
  fail e s = (s, err e)

  abbrev pub park : {A : Type 0} → Play w A
  park s = (s, parked)

  -- A wait: the other tasks run.
  pub pause : Scene w → Scene w
  pause s = record s { st = w.others s.turn s.st; turn = s.turn + 1 }

  -- A call of the peer connection, without a wait and with one.
  pub call_now : {A : Type 0} → (w.Conn → w.Conn × (Bytes ⊎ A)) → Play w A
  call_now f s = let (conn, r) = f s.conn in (record s { conn = conn }, of_call r)

  pub call : {A : Type 0} → (w.Conn → w.Conn × (Bytes ⊎ A)) → Play w A
  unfolding call_now pause
  call f s = let (s', r) = call_now f s in (pause s', r)

  -- `started.elapsed()`
  abbrev pub elapsed : ℕ → Scene w → ℕ
  elapsed started s = w.time s.turn - started

  pub on_published : Scene w → State noq × Option Error → Scene w × Result (Unit {0})
  on_published s (st, none) = (record s { st = st }, ok tt)
  on_published s (st, some e) = (record s { st = st }, err e)

  pub on_encoded : Bytes → Signal → Bytes ⊎ Bytes → Play w (Unit {0})
  unfolding on_published
  on_encoded peer signal (inl text) s = (s, err (other_error (codes "encode signal: " ++ text)))
  on_encoded peer signal (inr payload) s = on_published s (Signaling.publish s.st peer payload)

  pub publish : Bytes → Signal → Play w (Unit {0})
  unfolding on_encoded
  publish peer signal = on_encoded peer signal (w.encode signal)

  pub on_pop : ℕ → Scene w → State noq × Option Bytes → Scene w × Option (Result Bytes)
  on_pop started s (st, some payload) = (record s { st = st }, some (ok payload))
  on_pop started s (st, none) = (
    record s { st = st },
    if ltb signal_deadline (elapsed started s)
        then some (err (connect_failed (codes "webrtc signaling timed out")))
        else none,
  )

  -- One check of `next_signal`'s wait.
  pub signal_check : Bytes → ℕ → Scene w → Scene w × Option (Result Bytes)
  unfolding on_pop
  signal_check peer started s =
      if s.st.is_closed
      then (s, some (err closed))
      else on_pop started s (Signaling.pop_signal_inbox s.st peer)

  -- A waiter is parked, by the number of its wait, until it is woken.
  pub park_waiter : Scene w → Scene w
  unfolding pause
  park_waiter s = pause (record s { st = record s.st { waiters = s.st.waiters ++ (s.turn ∷ []) } })

  abbrev pub on_check : Play w Bytes → Scene w × Option (Result Bytes) → Scene w × Result Bytes
  on_check again (s, some result) = (s, result)
  on_check again (s, none) = again (park_waiter s)

  pub wait_signal : ℕ → Bytes → ℕ → Play w Bytes
  unfolding signal_check park_waiter
  wait_signal zero peer started s = (s, parked)
  wait_signal (suc n) peer started s =
      on_check (wait_signal n peer started) (signal_check peer started s)

  -- A malformed signal is skipped: the wait begins again.
  abbrev pub on_payload : Play w (Option Signal) → Option Signal → Play w (Option Signal)
  on_payload again none = again
  on_payload again (some signal) = ret (sentinel signal)

  pub next_signal : ℕ → Bytes → ℕ → Play w (Option Signal)
  unfolding wait_signal
  next_signal zero peer started = park
  next_signal (suc n) peer started = do
    payload ← wait_signal (suc n) peer started
    on_payload (next_signal n peer started) (w.decode payload)

  pub gather : List (StreamResult × List Candidate) → List Candidate → Play w (List Candidate)
  gather [] seen s = (s, parked)
  gather ((complete, batch) ∷ reads) seen s = gather reads (seen ++ batch) (pause s)
  gather ((_, batch) ∷ reads) seen s = (pause s, ok (seen ++ batch))

  pub publish_each : Bytes → List Candidate → Play w (Unit {0})
  publish_each peer [] = ret tt
  publish_each peer (c ∷ cs) = do publish peer (candidate c); publish_each peer cs

  pub publish_candidates : Bytes → Play w (Unit {0})
  publish_candidates peer s =
      (do
        candidates ← gather (w.local_ice_candidates s.conn) []
        publish_each peer candidates
        publish peer end_of_candidates)
        s

  -- What `consume_signaling` does at one signal; its last case is unreachable there.
  pub apply_signal : Signal → Play w (Unit {0})
  apply_signal (answer sdp) =
      call (w.set_remote_description (record { kind = answer_sdp; sdp = sdp }))
  apply_signal (offer sdp) = fail (connect_failed (codes "unexpected second offer"))
  apply_signal (candidate c) = call (w.add_ice_candidate c)
  apply_signal end_of_candidates = ret tt
  apply_signal done = ret tt

  pub on_next : Play w (Unit {0}) → Option Signal → Play w (Unit {0})
  unfolding apply_signal
  on_next again none = ret tt
  on_next again (some signal) = do apply_signal signal; again

  pub consume_signaling : ℕ → Bytes → ℕ → Play w (Unit {0})
  unfolding next_signal on_next
  consume_signaling zero peer started = park
  consume_signaling (suc n) peer started = do
    next ← next_signal (suc n) peer started
    on_next (consume_signaling n peer started) next
