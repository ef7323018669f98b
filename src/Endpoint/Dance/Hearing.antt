-- ===== src/Endpoint/Dance/Hearing.antt =====
-- What `consume_signaling` of endpoint/src/webrtc.rs makes of an inbox, against a fold of the peer
-- connection over the signals in it.
use polymorph_iroh.Base.{
  ℕ, zero, suc, ◌<◌, ◌≤◌, ◌≡◌, ◌≢◌, refl, ap, sym, ◌∙◌, Bool, if◌then◌else◌, Option, some, List, [],
  ◌∷◌, ◌++◌, Bytes, length, All, arith, inl, inr, Option-cases, bytes_key,
}
use mathlib.Core.List.{append-nil, append_assoc}
use polymorph_iroh.Noq.{Noq}
use polymorph_iroh.Endpoint.{closed}
use polymorph_iroh.Endpoint.Signaling as Signaling
use polymorph_iroh.Endpoint.Signaling.Inbox.{pop_first}
use polymorph_iroh.Endpoint.Dance.{
  World, Scene, Result, ok, err, parked, Play, and_then, ◌>>=◌, call, call_now, pause, signal_check,
  on_pop, on_check, wait_signal, on_payload, next_signal, apply_signal, on_next, consume_signaling,
  Signal, offer, answer, candidate, end_of_candidates, done,
}
use polymorph_iroh.Endpoint.Dance.Fold.{
  with_decoded, sentinel-some, heard, apply_one, go_on, apply_all, IsSteady, IsReady, unread,
  unread-IsReady,
}

module _ {noq : Noq} (w : World noq) where
  check_first :
      (peer first : Bytes) (rest : List Bytes) (started : ℕ) (s : Scene w)
      → IsReady w peer (first ∷ rest) s
      → signal_check peer started s ≡ (unread w peer rest s, some (ok first))
  unfolding signal_check on_pop
  check_first peer first rest started s h =
      ap
        (λ (b : Bool).
          if b
          then (s, some (err closed))
          else on_pop started s (Signaling.pop_signal_inbox s.st peer))
        h.0
      ∙ ap (on_pop started s) (pop_first s.st peer first rest h.1)

  wait_first :
      (n : ℕ) (peer first : Bytes) (rest : List Bytes) (started : ℕ) (s : Scene w)
      → IsReady w peer (first ∷ rest) s
      → wait_signal (suc n) peer started s ≡ (unread w peer rest s, ok first)
  unfolding wait_signal
  wait_first n peer first rest started s h =
      ap (on_check (wait_signal n peer started)) (check_first peer first rest started s h)

  pub next_first :
      (n : ℕ) (peer first : Bytes) (rest : List Bytes) (started : ℕ) (s : Scene w)
      → IsReady w peer (first ∷ rest) s
      → next_signal (suc n) peer started s
        ≡ on_payload (next_signal n peer started) (w.decode first) (unread w peer rest s)
  unfolding next_signal
  next_first n peer first rest started s h =
      ap
        (λ (x : Scene w × Result Bytes).
          and_then (λ payload. on_payload (next_signal n peer started) (w.decode payload)) x.0 x.1)
        (wait_first n peer first rest started s h)

  -- What a signal does to a scene with unread signals, against the peer connection alone.
  pub apply_signal-IsReady :
      (peer : Bytes) (signal : Signal) (inbox : List Bytes) (s : Scene w)
      → IsSteady w peer
      → IsReady w peer inbox s
      → (((apply_signal signal s).0.conn, (apply_signal signal s).1) ≡ apply_one w s.conn signal)
        × ((more : List Bytes) × IsReady w peer (inbox ++ more) (apply_signal signal s).0)
  unfolding apply_signal call call_now pause
  apply_signal-IsReady peer (answer sdp) inbox s steady h =
      let (opened, (more, e)) = steady s.turn s.st inbox h.0 h.1 in (refl, (more, (opened, e)))
  apply_signal-IsReady peer (candidate c) inbox s steady h =
      let (opened, (more, e)) = steady s.turn s.st inbox h.0 h.1 in (refl, (more, (opened, e)))
  apply_signal-IsReady peer (offer sdp) inbox s steady h =
      (refl, ([], (h.0, h.1 ∙ ap some (sym (append-nil inbox)))))
  apply_signal-IsReady peer end_of_candidates inbox s steady h =
      (refl, ([], (h.0, h.1 ∙ ap some (sym (append-nil inbox)))))
  apply_signal-IsReady peer done inbox s steady h =
      (refl, ([], (h.0, h.1 ∙ ap some (sym (append-nil inbox)))))

  abbrev outcome : Scene w × Result (Unit {0}) → w.Conn × Result (Unit {0})
  outcome (s, r) = (s.conn, r)

  -- The loop with the fuel of its next read apart from that of its later passes.
  abbrev listen : ℕ → ℕ → Bytes → ℕ → Play w (Unit {0})
  listen a b peer started =
      next_signal a peer started >>= on_next (consume_signaling b peer started)

  -- The payloads before the sentinel, the sentinel, and what follows it.
  abbrev pub IsEnded : List Bytes → Bytes → Type 0
  IsEnded front last =
      All (λ payload. w.decode payload ≢ some done) front × (w.decode last ≡ some done)

  after_next : ℕ → Bytes → ℕ → Scene w → Option Signal → w.Conn × Result (Unit {0})
  after_next b peer started s next = outcome (on_next (consume_signaling b peer started) next s)

  after_decode :
      ℕ → ℕ → Bytes → List Bytes → ℕ → Scene w → Option Signal → w.Conn × Result (Unit {0})
  after_decode a b peer rest started s o =
      let x = on_payload (next_signal a peer started) o (unread w peer rest s) in
      outcome (and_then (on_next (consume_signaling b peer started)) x.0 x.1)

  listen_first :
      (a b : ℕ) (peer first : Bytes) (rest : List Bytes) (started : ℕ) (s : Scene w)
      → IsReady w peer (first ∷ rest) s
      → listen (suc a) b peer started s ≡ (
          let x = on_payload (next_signal a peer started) (w.decode first) (unread w peer rest s) in
          and_then (on_next (consume_signaling b peer started)) x.0 x.1)
  listen_first a b peer first rest started s h =
      ap
        (λ (x : Scene w × Result (Option Signal)).
          and_then (on_next (consume_signaling b peer started)) x.0 x.1)
        (next_first a peer first rest started s h)

  go_lem :
      (x : Scene w × Result (Unit {0})) (again : Play w (Unit {0}))
      (go : w.Conn → w.Conn × Result (Unit {0}))
      → outcome (again x.0) ≡ go x.0.conn
      → outcome (and_then (λ u. again) x.0 x.1) ≡ go_on w (x.0.conn, x.1) go
  go_lem (s, ok u) again go h = h
  go_lem (s, err e) again go h = refl
  go_lem (s, parked) again go h = refl

  pub listen_hears :
      (front : List Bytes) (a b : ℕ) (peer last : Bytes) (rest : List Bytes) (started : ℕ)
      (s : Scene w)
      → IsSteady w peer
      → IsEnded front last
      → IsReady w peer (front ++ (last ∷ rest)) s
      → length front < a
      → length front ≤ b
      → outcome (listen a b peer started s) ≡ apply_all w s.conn (heard w front)
  unfolding consume_signaling on_next after_next after_decode
  listen_hears front zero b peer last rest started s steady ended h fuel fuel' =
      absurd (omega arith)
  listen_hears [] (suc a) b peer last rest started s steady ended h fuel fuel' =
      ap outcome (listen_first a b peer last rest started s h)
      ∙ ap (after_decode a b peer rest started s) ended.1
  listen_hears (first ∷ front) (suc a) zero peer last rest started s steady ended h fuel fuel' =
      absurd (omega arith)
  listen_hears (first ∷ front) (suc a) (suc b) peer last rest started s steady ended h fuel fuel' =
      let back = front ++ (last ∷ rest) in
      let now = unread w peer back s in
      let ready = unread-IsReady w peer (first ∷ back) back s h in
      let begun = ap outcome (listen_first a (suc b) peer first back started s h) in
      elim (Option-cases (w.decode first)) [
        | inl e ↦
            begun
            ∙ ap (after_decode a (suc b) peer back started s) e
            ∙ listen_hears front a (suc b) peer last rest started now steady (ended.0.1, ended.1)
                ready (omega arith) (omega arith)
            ∙ sym
                (ap (λ (o : Option Signal). apply_all w s.conn (with_decoded o (heard w front))) e)
        | inr (signal, e) ↦
            let (applied, (more, kept)) = apply_signal-IsReady peer signal back now steady ready in
            let later = (apply_signal signal now).0 in
            begun
            ∙ ap (after_decode a (suc b) peer back started s) e
            ∙ ap (after_next (suc b) peer started now)
                (sentinel-some signal (λ same. ended.0.0 (e ∙ ap some same)))
            ∙ go_lem (apply_signal signal now) (consume_signaling (suc b) peer started)
                (λ next. apply_all w next (heard w front))
                (listen_hears front (suc b) b peer last (rest ++ more) started later steady
                  (ended.0.1, ended.1)
                  (kept.0, kept.1 ∙ ap some (append_assoc front (last ∷ rest) more)) (omega arith)
                  (omega arith))
            ∙ ap (λ x. go_on w x (λ next. apply_all w next (heard w front))) applied
            ∙ sym
                (ap (λ (o : Option Signal). apply_all w s.conn (with_decoded o (heard w front))) e)
      ]

  -- With the sentinel in its inbox, and enough fuel to reach it, `consume_signaling` does to the peer
  -- connection what the well-formed signals before the sentinel do one after another, up to the
  -- first that fails, an offer among them, and it ends as they do: no signal is lost, repeated or
  -- reordered, malformed payloads are skipped, and what comes behind the sentinel, or arrives
  -- meanwhile, changes nothing.
  pub consume_hears :
      (front : List Bytes) (fuel : ℕ) (peer last : Bytes) (rest : List Bytes) (started : ℕ)
      (s : Scene w)
      → IsSteady w peer
      → IsEnded front last
      → IsReady w peer (front ++ (last ∷ rest)) s
      → length front < fuel
      → let (s', r) = consume_signaling fuel peer started s in
        (s'.conn, r) ≡ apply_all w s.conn (heard w front)
  unfolding consume_signaling
  consume_hears front zero peer last rest started s steady ended h fuel = absurd (omega arith)
  consume_hears front (suc n) peer last rest started s steady ended h fuel =
      listen_hears front (suc n) n peer last rest started s steady ended h fuel (omega arith)
