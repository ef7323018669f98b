-- ===== src/Endpoint/Streams/Received.antt =====
-- What `read-via-stream` gives its consumer, for an engine that hands out a stream in order.
use mathlib.Core.List.{append-nil, append_assoc}
use polymorph_iroh.Base.{
  ℕ, ◌*◌, ◌≡◌, ◌≢◌, refl, sym, ap, ◌∙◌, inl, inr, ◌⊎◌, Option, none, some, List, [], ◌∷◌, ◌++◌,
  Bytes, ltb, length, take, drop, take-append-drop, if_cases, All, nat_key,
}
use polymorph_iroh.Noq.{Noq}
use polymorph_iroh.Endpoint.{State, Error}
use polymorph_iroh.Endpoint.Streams.Reads.{
  RecvStreamRes, abandoned, read_some, after_piece, pump_read,
}
use polymorph_iroh.Endpoint.Streams.Seen.{Spares}
use polymorph_iroh.Endpoint.Streams.Answered.{
  RecvLaw, piece_of, handed_by, Gives, read_some-Answers,
}

-- What was handed out reached the consumer, but for the rest of a piece that it abandoned.
abbrev pub Reached : Bytes → Bytes → Bytes → Option (Error ⊎ Unit {0}) → Type 0
Reached before after got outcome =
    (lost : Bytes) × (after ≡ before ++ (got ++ lost))
    × (outcome ≢ some (inl abandoned) → lost ≡ [])

module _ {noq : Noq} (law : RecvLaw noq) where
  -- Others take no bytes from the stream, at each wait of each turn.
  abbrev pub AllSpare :
      RecvStreamRes → List (List (State noq → State noq) × ℕ × (State noq → State noq)) → Type 0
  AllSpare s turns =
      All
        (λ t.
          All (Spares law.handed s.handle s.epoch s.id) t.0
          × Spares law.handed s.handle s.epoch s.id t.2)
        turns

  -- What the rest of the turns brings to the consumer.
  abbrev Feeds : RecvStreamRes → State noq → State noq × Bytes × Option (Error ⊎ Unit {0}) → Type 0
  Feeds s st (last, got, outcome) =
      (after : Bytes)
      → handed_by law last s.handle s.epoch s.id ≡ some after
      → (before : Bytes) × (handed_by law st s.handle s.epoch s.id ≡ some before)
        × Reached before after got outcome

  nothing-Feeds :
      (s : RecvStreamRes) (st next : State noq) (outcome : Option (Error ⊎ Unit {0}))
      → Gives law s.handle s.epoch s.id st next []
      → Feeds s st (next, [], outcome)
  nothing-Feeds s st next outcome gives after e =
      let (before, had, same) = gives after e in (before, had, ([], same, λ h. refl))

  after_piece-Feeds :
      (s : RecvStreamRes) (st next : State noq) (idle : State noq → State noq) (taken : ℕ)
      (rest : State noq × Bytes × Option (Error ⊎ Unit {0}))
      (answer : Option (Error ⊎ Option Bytes))
      → Spares law.handed s.handle s.epoch s.id idle
      → Gives law s.handle s.epoch s.id st next (piece_of answer)
      → Feeds s (idle next) rest
      → Feeds s st (after_piece next idle taken rest answer)
  unfolding after_piece
  after_piece-Feeds s st next idle taken rest none spares gives later =
      nothing-Feeds s st next none gives
  after_piece-Feeds s st next idle taken rest (some (inl e)) spares gives later =
      nothing-Feeds s st next (some (inl e)) gives
  after_piece-Feeds s st next idle taken rest (some (inr none)) spares gives later =
      nothing-Feeds s st next (some (inr tt)) gives
  after_piece-Feeds s st next idle taken (last, more, outcome) (some (inr (some bytes))) spares
        gives later =
      if_cases (Feeds s st) (ltb taken (length bytes))
        (idle next, take taken bytes, some (inl abandoned)) (last, bytes ++ more, outcome)
        (λ t after e.
          let (before, had, same) = gives after (spares next after e) in
          (
            before,
            had,
            (
              drop taken bytes,
              same ∙ ap (◌++◌ before) (sym (take-append-drop taken bytes)),
              λ h. absurd (h refl),
            ),
          ))
        (λ t after e.
          let (mid, at_mid, (lost, same, whole)) = later after e in
          let (before, had, start) = gives mid (spares next mid at_mid) in
          (
            before,
            had,
            (
              lost,
              same
                  ∙ ap (λ (x : Bytes). x ++ (more ++ lost)) start
                  ∙ append_assoc before bytes (more ++ lost)
                  ∙ ap (◌++◌ before) (sym (append_assoc bytes more lost)),
              whole,
            ),
          ))

  -- With an engine that hands out a stream in order, the bytes that the consumer of a
  -- `read-via-stream` has taken are exactly those that the engine has handed out of the stream
  -- since, once and in order, whether the loop waits still, has failed or has ended; only a consumer
  -- that drops the byte stream misses something, a rest of what was handed out. This is for a
  -- connection that is still there, however often the loop waits, and whatever others do meanwhile
  -- except reading this stream.
  pub pump_read_delivers :
      (turns : List (List (State noq → State noq) × ℕ × (State noq → State noq))) (st : State noq)
      (s : RecvStreamRes) (after : Bytes)
      → AllSpare s turns
      → handed_by law (pump_read turns st s).0 s.handle s.epoch s.id ≡ some after
      → (before : Bytes) × (handed_by law st s.handle s.epoch s.id ≡ some before)
        × Reached before after (pump_read turns st s).1 (pump_read turns st s).2
  unfolding pump_read
  pump_read_delivers [] st s after spare e =
      nothing-Feeds s st st none (λ x h. (x, h, sym (append-nil x))) after e
  pump_read_delivers ((others, taken, idle) ∷ turns) st s after spare e =
      let r = read_some others st s.handle s.epoch s.id (16 * 1024) in
      after_piece-Feeds s st r.0 idle taken (pump_read turns (idle r.0) s) r.1 spare.0.1
        (read_some-Answers law others st s.handle s.epoch s.id (16 * 1024) spare.0.0)
        (λ x h. pump_read_delivers turns (idle r.0) s x spare.1 h) after e
