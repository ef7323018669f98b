-- ===== src/Endpoint/Dance/Types.antt =====
-- The data of the dances of endpoint/src/webrtc.rs: the signals, what the dances call, and the scene
-- that a dance runs over.
use polymorph_iroh.Base.{
  ℕ, Bool, false, ◌*◌, ◌^◌, Option, none, some, List, ◌++◌, Bytes, codes, ◌⊎◌, inl, inr,
}
use polymorph_iroh.Noq.{Noq}
use polymorph_iroh.Endpoint.{State, Error, connect_failed}

pub record Candidate : Type 0 where
  pub candidate : Bytes
  pub sdp_mid : Option Bytes
  pub sdp_mline_index : Option ℕ

pub data Signal : Type 0 where
  offer answer : Bytes → Signal
  candidate : Candidate → Signal
  end_of_candidates done : Signal

pub data SdpType : Type 0 where
  offer_sdp answer_sdp : SdpType

pub record SessionDescription : Type 0 where
  pub kind : SdpType
  pub sdp : Bytes

-- How a read of a stream ends.
pub data StreamResult : Type 0 where
  complete dropped cancelled : StreamResult

pub data DataChannelState : Type 0 where
  connecting open_state closing closed_state : DataChannelState

pub record DataChannelOptions : Type 0 where
  pub label : Bytes
  pub ordered : Bool
  pub max_retransmits : Option ℕ

-- A datagram carrier: the losses and the order are QUIC's.
abbrev pub quic_channel_options : DataChannelOptions
quic_channel_options = record { label = codes "quic"; ordered = false; max_retransmits = some 0 }

-- What the dances call. A failing call gives its error's text; a stream is the list of its reads.
-- `others` is what the other tasks do to the state during a wait, and `time` the clock after it.
pub record World (noq : Noq) : Type 1 where
  pub Conn : Type 0
  pub new_conn : Conn
  pub create_data_channel : DataChannelOptions → Conn → Conn × (Bytes ⊎ ℕ)
  pub create_offer : Conn → Conn × (Bytes ⊎ SessionDescription)
  pub create_answer : Conn → Conn × (Bytes ⊎ SessionDescription)
  pub set_local_description : SessionDescription → Conn → Conn × (Bytes ⊎ Unit {0})
  pub set_remote_description : SessionDescription → Conn → Conn × (Bytes ⊎ Unit {0})
  pub add_ice_candidate : Candidate → Conn → Conn × (Bytes ⊎ Unit {0})
  pub wait_connected : Conn → Conn × (Bytes ⊎ Unit {0})
  pub local_ice_candidates : Conn → List (StreamResult × List Candidate)
  pub state_changes : Conn → List (StreamResult × List DataChannelState)
  pub incoming_data_channels : Conn → List ℕ
  pub wire_of : Conn → (channel : ℕ) → ℕ
  pub encode : Signal → Bytes ⊎ Bytes
  pub decode : Bytes → Option Signal
  pub others : ℕ → State noq → State noq
  pub time : ℕ → ℕ

pub record Scene {noq : Noq} (w : World noq) : Type 0 where
  pub st : State noq
  pub conn : w.Conn
  pub turn : ℕ

pub data Result (A : Type 0) : Type 0 where
  ok : A → Result A
  err : Error → Result A
  parked : Result A

abbrev pub signal_deadline : ℕ
signal_deadline = 30 * 10 ^ 9

-- `rtc`
abbrev pub rtc : Bytes → Error
rtc text = connect_failed (codes "webrtc: " ++ text)

abbrev pub of_call : {A : Type 0} → Bytes ⊎ A → Result A
of_call (inl text) = err (rtc text)
of_call (inr a) = ok a

-- What is left of a signal: none at the sentinel.
abbrev pub sentinel : Signal → Option Signal
sentinel done = none
sentinel signal = some signal

-- A piece of a dance.
abbrev pub Play : {noq : Noq} → World noq → Type 0 → Type 0
Play w A = Scene w → Scene w × Result A
