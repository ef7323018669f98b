-- ===== src/Relay/Handshake.antt =====
-- `RelayConn::connect` of core/src/relay.rs: the challenge handshake. The identity's `sign`, blake3's
-- `derive_key` and postcard are parameters.
pub mod Runs
use polymorph_iroh.Base.{
  ℕ, ◌≡◌, refl, ap, ◌↔◌, ◌⊎◌, inl, inr, Option, none, some, List, [], ◌∷◌, eqb, if◌then◌else◌,
  length, Bytes, arith, codes, Option-cases,
}
use polymorph_iroh.Frames.{ClientAuth, split_tag, encode_client_auth, decode_denial_reason}
use polymorph_iroh.Frames.Tag
use polymorph_iroh.Relay.{
  Fault, relay_connect, handshake_receive, handshake_send, empty_frame, malformed_challenge,
  sign_failed, short_signature, denied_auth, unexpected_frame, Result, ok, err, Received, binary,
  text, broken, Turn, RelayConn, relay_url,
}

-- What the handshake calls: `sign` gives a signature or the error of the key's owner.
pub record Env : Type 0 where
  pub endpoint_id : Bytes
  pub sign : Bytes → Option Bytes
  pub sign_error : Bytes
  pub derive_key : Bytes → Bytes → Bytes
  pub to_extend : ClientAuth → Bytes → Bytes
  pub from_bytes : Bytes → Option Bytes
  pub from_utf8_lossy : Bytes → Bytes

abbrev pub challenge_domain : Bytes
challenge_domain = codes "iroh-relay handshake v1 challenge signature"

-- The authentication frame that answers a challenge.
pub answer_challenge : Env → Bytes → Result Bytes
answer_challenge env challenge =
    if eqb (length challenge) 16
    then elim (env.sign (env.derive_key challenge_domain challenge)) [
      | none ↦ err (sign_failed env.sign_error)
      | some signature ↦
          if eqb (length signature) 64
          then ok (encode_client_auth env.to_extend env.endpoint_id signature)
          else err short_signature
    ]
    else err malformed_challenge

-- One pass of the loop: skip the message, send a frame and go on, succeed, or fail.
pub data Pass : Type 0 where
  skip : Pass
  send : Bytes → Pass
  confirmed : Pass
  fail : Fault → Pass

pub send_auth : Option Bytes → Result Bytes → Pass
send_auth none (ok frame) = send frame
send_auth (some e) (ok frame) = fail (handshake_send e)
send_auth sent (err e) = fail e

pub on_frame : Env → Turn → ℕ → Bytes → Pass
unfolding send_auth
on_frame env t tag payload =
    if eqb tag Tag.server_challenge
    then send_auth t.sent (answer_challenge env payload)
    else if eqb tag Tag.server_confirms_auth
    then confirmed
    else if eqb tag Tag.server_denies_auth
    then fail (denied_auth (decode_denial_reason env.from_bytes env.from_utf8_lossy payload))
    else fail (unexpected_frame tag)

pub on_message : Env → Turn → Received → Pass
unfolding on_frame
on_message env t (binary frame) = elim (split_tag frame) [
  | none ↦ fail empty_frame
  | some (tag, payload) ↦ on_frame env t tag payload
]
on_message env t (text s) = skip
on_message env t (broken e) = fail (handshake_receive e)

-- How the handshake ends on a script, with the frames that it sent: authenticated (with the moment
-- of the confirmation and the turns left), failed, or still waiting.
pub data Shake : Type 0 where
  done : ℕ → List Turn → List Bytes → Shake
  failed : Fault → List Bytes → Shake
  waiting : List Bytes → Shake

pub after_send : Bytes → Shake → Shake
after_send f (done now rest sent) = done now rest (f ∷ sent)
after_send f (failed e sent) = failed e (f ∷ sent)
after_send f (waiting sent) = waiting (f ∷ sent)

pub handshake : Env → List Turn → Shake
unfolding on_message after_send
handshake env [] = waiting []
handshake env (t ∷ ts) =
    let rest = handshake env ts in
    elim (on_message env t t.received) [
      | skip ↦ rest
      | send frame ↦ after_send frame rest
      | confirmed ↦ done t.now ts []
      | fail e ↦ failed e []
    ]

-- The connection that a confirmed handshake makes.
pub connected_at : ℕ → RelayConn
connected_at now = record { pending = []; last_inbound = now; probe = none; probe_seq = 0 }

-- `opened` is the error of the websocket's connect to a URL, if it fails.
pub connect : Env → Bytes → (Bytes → Option Bytes) → List Turn → Shake
unfolding handshake
connect env server opened ts = elim (relay_url server) [
  | err e ↦ failed e []
  | ok url ↦ elim (opened url) [ some e ↦ failed (relay_connect e) [] | none ↦ handshake env ts ]
]
