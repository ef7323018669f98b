-- ===== src/Endpoint/Dance/Fold.antt =====
-- A fold of the peer connection over the signals of an inbox, beside which `consume_signaling` of
-- endpoint/src/webrtc.rs is put.
use polymorph_iroh.Base.{
  ℕ, ◌≡◌, ◌≢◌, refl, false, Option, none, some, List, [], ◌∷◌, ◌++◌, Bytes, codes, bytes_key,
}
use polymorph_iroh.Base.Maps.{lookup, insert, lookup-insert_self}
use polymorph_iroh.Noq.{Noq}
use polymorph_iroh.Endpoint.{State, connect_failed}
use polymorph_iroh.Endpoint.Dance.{
  World, Scene, Result, ok, err, sentinel, Signal, offer, answer, candidate, end_of_candidates,
  done, of_call, answer_sdp,
}

abbrev pub with_decoded : Option Signal → List Signal → List Signal
with_decoded none signals = signals
with_decoded (some signal) signals = signal ∷ signals

pub sentinel-some : (signal : Signal) → signal ≢ done → sentinel signal ≡ some signal
sentinel-some (offer sdp) h = refl
sentinel-some (answer sdp) h = refl
sentinel-some (candidate c) h = refl
sentinel-some end_of_candidates h = refl
sentinel-some done h = absurd (h refl)

module _ {noq : Noq} (w : World noq) where
  -- The well-formed signals among some payloads.
  abbrev pub heard : List Bytes → List Signal
  heard [] = []
  heard (payload ∷ payloads) = with_decoded (w.decode payload) (heard payloads)

  abbrev pub apply_one : w.Conn → Signal → w.Conn × Result (Unit {0})
  apply_one conn (answer sdp) =
      let (next, r) = w.set_remote_description (record { kind = answer_sdp; sdp = sdp }) conn in
      (next, of_call r)
  apply_one conn (offer sdp) = (conn, err (connect_failed (codes "unexpected second offer")))
  apply_one conn (candidate c) = let (next, r) = w.add_ice_candidate c conn in (next, of_call r)
  apply_one conn end_of_candidates = (conn, ok tt)
  apply_one conn done = (conn, ok tt)

  abbrev pub go_on :
      w.Conn × Result (Unit {0})
      → (w.Conn → w.Conn × Result (Unit {0}))
      → w.Conn × Result (Unit {0})
  go_on (conn, ok u) go = go conn
  go_on (conn, r) go = (conn, r)

  -- The peer connection after some signals, up to the first failure.
  abbrev pub apply_all : w.Conn → List Signal → w.Conn × Result (Unit {0})
  apply_all conn [] = (conn, ok tt)
  apply_all conn (signal ∷ signals) = go_on (apply_one conn signal) (λ next. apply_all next signals)

  -- The other tasks leave the endpoint open and a peer's unread signals in place; more may come.
  abbrev pub IsSteady : Bytes → Type 0
  IsSteady peer =
      (n : ℕ) (st : State noq) (inbox : List Bytes)
      → st.is_closed ≡ false
      → lookup peer st.signal_inboxes ≡ some inbox
      → ((w.others n st).is_closed ≡ false)
        × ((more : List Bytes) × (lookup peer (w.others n st).signal_inboxes
              ≡ some (inbox ++ more)))

  -- The endpoint is open and the peer has these unread signals.
  abbrev pub IsReady : Bytes → List Bytes → Scene w → Type 0
  IsReady peer inbox s = (s.st.is_closed ≡ false) × (lookup peer s.st.signal_inboxes ≡ some inbox)

  abbrev pub unread : Bytes → List Bytes → Scene w → Scene w
  unread peer rest s = record s {
    st = record s.st { signal_inboxes = insert peer rest s.st.signal_inboxes };
  }

  pub unread-IsReady :
      (peer : Bytes) (inbox rest : List Bytes) (s : Scene w)
      → IsReady peer inbox s
      → IsReady peer rest (unread peer rest s)
  unread-IsReady peer inbox rest s h = (h.0, lookup-insert_self peer rest s.st.signal_inboxes)
