-- ===== src/Relay/Handshake/Runs.antt =====
-- The runs of the relay's handshake that authenticate, told by what is on the wire.
use polymorph_iroh.Base.{
  ℕ, ◌≡◌, refl, ap, sym, ◌∙◌, ◌↔◌, ◌⊎◌, inl, inr, Option, none, some, List, [], ◌∷◌, eqb, eqb_iff,
  length, Bytes, arith, Option-cases, Bool-cases,
}
use polymorph_iroh.Frames.{split_tag, encode_client_auth, decode_denial_reason}
use polymorph_iroh.Frames.Tag
use polymorph_iroh.Relay.{
  Fault, Result, ok, err, Received, binary, text, broken, Turn, denied_auth, unexpected_frame,
}
use polymorph_iroh.Relay.Handshake.{
  Env, challenge_domain, answer_challenge, Pass, skip, send, confirmed, fail, send_auth, on_frame,
  on_message, Shake, done, failed, waiting, after_send, handshake,
}

-- The runs of the protocol that authenticate: any number of text messages and answered challenges,
-- and then the confirmation. A challenge has 16 bytes, and its answer, which is sent without failure,
-- carries a signature of 64 bytes of the key derived from it.
pub data Authenticates (env : Env) : List Turn → ℕ → List Turn → List Bytes → Type 0 where
  confirms :
      (t : Turn) (ts : List Turn) (frame payload : Bytes)
      → t.received ≡ binary frame
      → split_tag frame ≡ some (Tag.server_confirms_auth, payload)
      → Authenticates env (t ∷ ts) t.now ts []
  skips :
      (t : Turn) {ts rest : List Turn} {now : ℕ} {sent : List Bytes} (words : Bytes)
      → t.received ≡ text words
      → Authenticates env ts now rest sent
      → Authenticates env (t ∷ ts) now rest sent
  answers :
      (t : Turn) {ts rest : List Turn} {now : ℕ} {sent : List Bytes}
      (frame challenge signature : Bytes)
      → t.received ≡ binary frame
      → split_tag frame ≡ some (Tag.server_challenge, challenge)
      → length challenge ≡ 16
      → env.sign (env.derive_key challenge_domain challenge) ≡ some signature
      → length signature ≡ 64
      → t.sent ≡ none
      → Authenticates env ts now rest sent
      → Authenticates env
          (t ∷ ts)
          now
          rest
          (encode_client_auth env.to_extend env.endpoint_id signature ∷ sent)

Pass-cases :
    (p : Pass)
    → (p ≡ skip)
      ⊎ ((frame : Bytes) × (p ≡ send frame))
      ⊎ (p ≡ confirmed)
      ⊎ ((e : Fault) × (p ≡ fail e))
Pass-cases skip = inl refl
Pass-cases (send frame) = inr (inl (frame, refl))
Pass-cases confirmed = inr (inr (inl refl))
Pass-cases (fail e) = inr (inr (inr (e, refl)))

after_send-done :
    (frame : Bytes) (r : Shake) (now : ℕ) (rest : List Turn) (sent : List Bytes)
    → after_send frame r ≡ done now rest sent
    → (later : List Bytes) × (r ≡ done now rest later) × (sent ≡ frame ∷ later)
unfolding after_send
after_send-done frame (done n r later) now rest sent h = (later, cc, cc)
after_send-done frame (failed e later) now rest sent h = cc
after_send-done frame (waiting later) now rest sent h = cc

confirms-done :
    {env : Env} (t : Turn) (ts : List Turn) {now : ℕ} {rest : List Turn} {sent : List Bytes}
    (frame payload : Bytes)
    → t.received ≡ binary frame
    → split_tag frame ≡ some (Tag.server_confirms_auth, payload)
    → done t.now ts [] ≡ done now rest sent
    → Authenticates env (t ∷ ts) now rest sent
confirms-done t ts {now} {rest} {sent} frame payload b s h =
    let at_now : t.now ≡ now = cc h in
    let at_rest : ts ≡ rest = cc h in
    let at_sent : ◌≡◌ {A = List Bytes} [] sent = cc h in
    rw (← at_now, ← at_rest, ← at_sent) (confirms t ts frame payload b s)

-- What the three passes that do not fail come from.
abbrev Confirms : Received → Type 0
Confirms r =
    (frame : Bytes) × (payload : Bytes) × (r ≡ binary frame)
    × (split_tag frame ≡ some (Tag.server_confirms_auth, payload))

answer_challenge_signs :
    (env : Env) (challenge frame : Bytes)
    → answer_challenge env challenge ≡ ok frame
    → (signature : Bytes) × (length challenge ≡ 16)
      × (env.sign (env.derive_key challenge_domain challenge) ≡ some signature)
      × (length signature ≡ 64)
      × (frame ≡ encode_client_auth env.to_extend env.endpoint_id signature)
unfolding answer_challenge
answer_challenge_signs env challenge frame h =
    elim (Option-cases (env.sign (env.derive_key challenge_domain challenge))) [
      | inl e ↦ ground arith
      | inr (signature, e) ↦ (signature, ground arith, e, ground arith, ground arith)
    ]

send_auth-confirmed : (o : Option Bytes) (r : Result Bytes) → send_auth o r ≡ confirmed → ⊥
unfolding send_auth
send_auth-confirmed none (ok frame) h = cc h
send_auth-confirmed (some e) (ok frame) h = cc h
send_auth-confirmed none (err e) h = cc h
send_auth-confirmed (some x) (err e) h = cc h

send_auth-send :
    (o : Option Bytes) (r : Result Bytes) (frame : Bytes)
    → send_auth o r ≡ send frame
    → (o ≡ none) × (r ≡ ok frame)
unfolding send_auth
send_auth-send none (ok f) frame h = (refl, cc h)
send_auth-send (some e) (ok f) frame h = cc h
send_auth-send none (err e) frame h = cc h
send_auth-send (some x) (err e) frame h = cc h

send_auth-skip : (o : Option Bytes) (r : Result Bytes) → send_auth o r ≡ skip → ⊥
unfolding send_auth
send_auth-skip none (ok frame) h = cc h
send_auth-skip (some e) (ok frame) h = cc h
send_auth-skip none (err e) h = cc h
send_auth-skip (some x) (err e) h = cc h

-- What a frame's tag says, by the pass that it leads to.
on_frame_cases :
    (env : Env) (t : Turn) (tag : ℕ) (payload : Bytes)
    → (tag ≡ Tag.server_challenge)
        × (on_frame env t tag payload ≡ send_auth t.sent (answer_challenge env payload))
      ⊎ ((tag ≡ Tag.server_confirms_auth) × (on_frame env t tag payload ≡ confirmed)
          ⊎ ((e : Fault) × (on_frame env t tag payload ≡ fail e)))
unfolding on_frame
on_frame_cases env t tag payload = elim (Bool-cases (eqb tag Tag.server_challenge)) [
  | inl c ↦ inl ((eqb_iff tag Tag.server_challenge).0 c, rw (on_frame, c) refl)
  | inr c ↦ elim (Bool-cases (eqb tag Tag.server_confirms_auth)) [
    | inl d ↦ inr (inl ((eqb_iff tag Tag.server_confirms_auth).0 d, rw (on_frame, c, d) refl))
    | inr d ↦ elim (Bool-cases (eqb tag Tag.server_denies_auth)) [
      | inl f ↦ inr (
          inr (
            denied_auth (decode_denial_reason env.from_bytes env.from_utf8_lossy payload),
            rw (on_frame, c, d, f) refl,
          ))
      | inr f ↦ inr (inr (unexpected_frame tag, rw (on_frame, c, d, f) refl))
    ]
  ]
]

message-skip :
    (env : Env) (t : Turn) (r : Received)
    → on_message env t r ≡ skip
    → (words : Bytes) × (r ≡ text words)
unfolding on_message
message-skip env t (text words) h = (words, refl)
message-skip env t (broken e) h = cc h
message-skip env t (binary frame) h = elim (Option-cases (split_tag frame)) [
  | inl n ↦ absurd (cc (rw (n, on_message) at h))
  | inr ((tag, payload), s) ↦
      let h2 : on_frame env t tag payload ≡ skip = rw (s, on_message) at h in
      elim (on_frame_cases env t tag payload) [
        | inl (c, e) ↦ absurd (send_auth-skip t.sent (answer_challenge env payload) (sym e ∙ h2))
        | inr (inl (c, e)) ↦ absurd (cc (e, h2))
        | inr (inr (f, e)) ↦ absurd (cc (e, h2))
      ]
]

message-confirmed :
    (env : Env) (t : Turn) (r : Received) → on_message env t r ≡ confirmed → Confirms r
unfolding on_message
message-confirmed env t (text words) h = cc h
message-confirmed env t (broken e) h = cc h
message-confirmed env t (binary frame) h = elim (Option-cases (split_tag frame)) [
  | inl n ↦ absurd (cc (rw (n, on_message) at h))
  | inr ((tag, payload), s) ↦
      let h2 : on_frame env t tag payload ≡ confirmed = rw (s, on_message) at h in
      elim (on_frame_cases env t tag payload) [
        | inl (c, e) ↦
            absurd (send_auth-confirmed t.sent (answer_challenge env payload) (sym e ∙ h2))
        | inr (inl (c, e)) ↦ (frame, payload, refl, rw (← c) s)
        | inr (inr (f, e)) ↦ absurd (cc (e, h2))
      ]
]

message-send :
    (env : Env) (t : Turn) (r : Received) (answer : Bytes)
    → on_message env t r ≡ send answer
    → (frame : Bytes) × (challenge : Bytes) × (r ≡ binary frame)
      × (split_tag frame ≡ some (Tag.server_challenge, challenge))
      × (t.sent ≡ none)
      × (answer_challenge env challenge ≡ ok answer)
unfolding on_message
message-send env t (text words) answer h = cc h
message-send env t (broken e) answer h = cc h
message-send env t (binary frame) answer h = elim (Option-cases (split_tag frame)) [
  | inl n ↦ absurd (cc (rw (n, on_message) at h))
  | inr ((tag, payload), s) ↦
      let h2 : on_frame env t tag payload ≡ send answer = rw (s, on_message) at h in
      elim (on_frame_cases env t tag payload) [
        | inl (c, e) ↦
            let (o, made) =
              send_auth-send t.sent (answer_challenge env payload) answer (sym e ∙ h2) in
            (frame, payload, refl, rw (← c) s, o, made)
        | inr (inl (c, e)) ↦ absurd (cc (e, h2))
        | inr (inr (f, e)) ↦ absurd (cc (e, h2))
      ]
]

handshake_sound :
    (env : Env) (ts : List Turn) {now : ℕ} {rest : List Turn} {sent : List Bytes}
    → handshake env ts ≡ done now rest sent
    → Authenticates env ts now rest sent
unfolding handshake
handshake_sound env [] h = cc
handshake_sound env (t ∷ ts) {now} {rest} {sent} h =
    elim (Pass-cases (on_message env t t.received)) [
      | inl e ↦
          let (words, r) = message-skip env t t.received e in
          skips t words r (handshake_sound env ts (rw (e, handshake) at h))
      | inr (inl (answer, e)) ↦
          let (later, r, q) =
            after_send-done answer (handshake env ts) now rest sent (rw (e, handshake) at h) in
          let (frame, challenge, b, s, o, made) = message-send env t t.received answer e in
          let (signature, sized, signed, whole, is) =
            answer_challenge_signs env challenge answer made in
          rw (q, is)
            (answers t frame challenge signature b s sized signed whole o
              (handshake_sound env ts r))
      | inr (inr (inl e)) ↦
          let (frame, payload, b, s) = message-confirmed env t t.received e in
          confirms-done t ts frame payload b s (rw (e, handshake) at h)
      | inr (inr (inr (x, e))) ↦ cc (e, h)
    ]

message_confirms :
    (env : Env) (t : Turn) (frame payload : Bytes)
    → t.received ≡ binary frame
    → split_tag frame ≡ some (Tag.server_confirms_auth, payload)
    → on_message env t t.received ≡ confirmed
unfolding on_message on_frame
message_confirms env t frame payload b s = rw (b, on_message, s) refl

message_answers :
    (env : Env) (t : Turn) (frame challenge signature : Bytes)
    → t.received ≡ binary frame
    → split_tag frame ≡ some (Tag.server_challenge, challenge)
    → length challenge ≡ 16
    → env.sign (env.derive_key challenge_domain challenge) ≡ some signature
    → length signature ≡ 64
    → t.sent ≡ none
    → on_message env t t.received
      ≡ send (encode_client_auth env.to_extend env.endpoint_id signature)
unfolding on_message on_frame answer_challenge send_auth
message_answers env t frame challenge signature b s sized signed whole unbroken =
    rw (b, on_message, s, on_frame, answer_challenge, sized, signed, whole, unbroken) refl

handshake_complete :
    (env : Env) {ts rest : List Turn} {now : ℕ} {sent : List Bytes}
    → Authenticates env ts now rest sent
    → handshake env ts ≡ done now rest sent
unfolding handshake on_message
handshake_complete env (confirms t ts frame payload b s) =
    rw (message_confirms env t frame payload b s, handshake) refl
handshake_complete env (skips t words b a) =
    let e : on_message env t t.received ≡ skip = rw (b, on_message) refl in
    rw (e, handshake) (handshake_complete env a)
handshake_complete env (answers t frame challenge signature b s sized signed whole unbroken a) =
    rw (message_answers env t frame challenge signature b s sized signed whole unbroken, handshake)
      (ap (after_send (encode_client_auth env.to_extend env.endpoint_id signature))
        (handshake_complete env a))

-- The handshake authenticates exactly on the runs that the protocol allows: any number of text
-- messages, which it ignores, and of challenges of 16 bytes, each answered with a signature of 64
-- bytes of the key derived from it, and then the relay's confirmation. It leaves what is behind the
-- confirmation unread, and has sent those answers, in order, and nothing else.
pub handshake_iff :
    (env : Env) (ts rest : List Turn) (now : ℕ) (sent : List Bytes)
    → (handshake env ts ≡ done now rest sent) ↔ Authenticates env ts now rest sent
handshake_iff env ts rest now sent = (handshake_sound env ts, handshake_complete env)
