-- ===== src/Endpoint/Signaling/Frame.antt =====
-- `handle_signal`, on the wires.
use polymorph_iroh.Base.{
  ℕ, ◌≡◌, refl, ◌∙◌, Bool, true, false, not, ◌||◌, Bytes, if_cases, bytes_key,
}
use polymorph_iroh.Base.Maps.{contains}
use polymorph_iroh.Noq.{Noq}
use polymorph_iroh.Endpoint.Wires.{wires_of}
use polymorph_iroh.Endpoint.{State, wake_waiters}
use polymorph_iroh.Endpoint.Signaling.{claim_slot, file_signal, spawn_unless, handle_signal}

module _ {noq : Noq} where
  claim_slot-wires :
      (st : State noq) (via : ℕ) (source : Bytes)
      → wires_of (claim_slot st via source) ≡ wires_of st
  unfolding claim_slot
  claim_slot-wires st via source =
      if_cases (λ (r : State noq). wires_of r ≡ wires_of st) (contains source st.signaling) _ _
        (λ t. refl) (λ t. refl)

  spawn_unless-wires :
      (b : Bool) (source : Bytes) (st : State noq)
      → wires_of (spawn_unless b source st) ≡ wires_of st
  spawn_unless-wires true source st = refl
  spawn_unless-wires false source st = refl

  pub handle_signal-wires :
      (st : State noq) (via : ℕ) (source payload : Bytes)
      → wires_of (handle_signal st via source payload) ≡ wires_of st
  unfolding handle_signal file_signal wake_waiters
  handle_signal-wires st via source payload =
      let filed = wake_waiters (file_signal (claim_slot st via source) source payload) in
      if_cases (λ (r : State noq). wires_of r ≡ wires_of st) (not st.webrtc_enabled || st.is_closed)
        _ _ (λ t. refl)
        (λ t.
          spawn_unless-wires (contains source st.signaling) source filed
          ∙ claim_slot-wires st via source)
