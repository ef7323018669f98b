-- ===== src/Endpoint/Signaling.antt =====
-- WebRTC signaling sessions: the state's side in endpoint/src/endpoint_impl.rs (`begin_signaling`,
-- `end_signaling`, `pop_signal_inbox`, `push_signal_outbound`, `handle_signal`), and the ends of the
-- two dances of endpoint/src/webrtc.rs, where the session's guard drops.
pub mod Inbox
pub mod Fallback
pub mod Frame
use polymorph_iroh.Base.{
  ℕ, ◌+◌, ◌≡◌, Bool, true, false, not, ◌||◌, Option, none, some, List, [], ◌∷◌, ◌++◌, Bytes, ltb,
  length, if◌then◌else◌, codes, bytes_key,
}
use polymorph_iroh.Base.Maps.{Map, lookup, insert, remove, contains}
use polymorph_iroh.Noq.{Noq}
use polymorph_iroh.Endpoint.{
  State, Error, connect_failed, closed, other_error, spawn_answer, kick_pump, wake_waiters, ask,
}
use polymorph_iroh.Endpoint.Routes.{register_channel, signaling_relay, push_relay}

abbrev pub inbox_cap : ℕ
inbox_cap = 64

abbrev pub session_active : Error
session_active =
    connect_failed (codes "a webrtc signaling session with this peer is already active")

abbrev pub or_empty : Option (List Bytes) → List Bytes
or_empty none = []
or_empty (some inbox) = inbox

module _ {noq : Noq} where
  unfoldable pub begin_signaling : State noq → Bytes → ℕ → State noq × Option Error
  begin_signaling st peer via =
      if contains peer st.signaling
      then (st, some session_active)
      else (record st { signaling = insert peer via st.signaling }, none)

  unfoldable pub end_signaling : State noq → Bytes → State noq
  end_signaling st peer = record st {
    signaling = remove peer st.signaling;
    signal_inboxes = remove peer st.signal_inboxes;
  }

  unfoldable pub push_signal_outbound : State noq → ℕ → Bytes → Bytes → State noq
  unfolding push_relay
  push_signal_outbound st key peer payload = kick_pump (push_relay st key peer payload)

  unfoldable pub pop_front : State noq → Bytes → List Bytes → State noq × Option Bytes
  pop_front st peer [] = (st, none)
  pop_front st peer (payload ∷ rest) =
      (record st { signal_inboxes = insert peer rest st.signal_inboxes }, some payload)

  unfoldable pub pop_signal_inbox : State noq → Bytes → State noq × Option Bytes
  unfolding pop_front
  pop_signal_inbox st peer = elim (lookup peer st.signal_inboxes) [
    | none ↦ (st, none)
    | some inbox ↦ pop_front st peer inbox
  ]

  -- Files a signal in its sender's inbox, as far as there is room.
  pub file_signal : State noq → Bytes → Bytes → State noq
  file_signal st source payload =
      let inbox = or_empty (lookup source st.signal_inboxes) in
      record st {
        signal_inboxes =
            insert source (if ltb (length inbox) inbox_cap then inbox ++ (payload ∷ []) else inbox)
              st.signal_inboxes;
      }

  -- Claims the slot of a peer without a session.
  pub claim_slot : State noq → ℕ → Bytes → State noq
  claim_slot st via source =
      if contains source st.signaling
      then st
      else record st { signaling = insert source via st.signaling }

  abbrev spawn_unless : Bool → Bytes → State noq → State noq
  spawn_unless true source st = st
  spawn_unless false source st = ask (spawn_answer source) st

  pub handle_signal : State noq → ℕ → Bytes → Bytes → State noq
  unfolding file_signal claim_slot
  handle_signal st via source payload =
      if not st.webrtc_enabled || st.is_closed
      then st
      else spawn_unless (contains source st.signaling) source
          (wake_waiters (file_signal (claim_slot st via source) source payload))

  -- The end of an `upgrade` whose session began: `dial` returns, with a wire or without, which drops
  -- its guard, and the wire is registered then.
  unfoldable pub finish_upgrade : State noq → Bytes → Option ℕ → State noq
  unfolding end_signaling
  finish_upgrade st peer none = end_signaling st peer
  finish_upgrade st peer (some wire) = (register_channel (end_signaling st peer) peer wire).0

  -- The end of `answer`: the wire is registered inside the session, and then the guard drops.
  unfoldable pub finish_answer : State noq → Bytes → Option ℕ → State noq
  unfolding end_signaling
  finish_answer st peer none = end_signaling st peer
  finish_answer st peer (some wire) = end_signaling (register_channel st peer wire).0 peer

  -- `publish`: one signal through the relay of the peer's session.
  unfoldable pub publish : State noq → Bytes → Bytes → State noq × Option Error
  unfolding push_signal_outbound signaling_relay
  publish st peer signal = elim (signaling_relay st peer) [
    | none ↦ (st, some (other_error (codes "signal outside a session")))
    | some key ↦ (push_signal_outbound st key peer (0x00 ∷ signal), none)
  ]
