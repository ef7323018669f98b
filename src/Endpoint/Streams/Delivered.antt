-- ===== src/Endpoint/Streams/Delivered.antt =====
-- What `write-via-stream` puts on the wire, over all the turns of its reader.
use mathlib.Core.List.{append-nil, append_assoc}
use polymorph_iroh.Base.{
  ℕ, ◌≡◌, refl, sym, ap, subst, ◌∙◌, inl, inr, ◌⊎◌, Bool, true, false, Option, none, some, List, [],
  ◌∷◌, ◌++◌, Bytes, Option-cases, All, if◌then◌else◌, nat_key,
}
use polymorph_iroh.Noq.{Noq, FinishOutcome, finished}
use polymorph_iroh.Endpoint.{State, ConnEntry, Error, closed}
use polymorph_iroh.Endpoint.Conns.{entry_for}
use polymorph_iroh.Endpoint.Streams.{
  SendStreamRes, StreamTurn, Pass, again, over, parked, write_turn, on_finished, finish_entry,
  do_finish, after_turn, pump_stream, put_conn,
}
use polymorph_iroh.Endpoint.Streams.Moved.{SendLaw}
use polymorph_iroh.Endpoint.Streams.Seen.{entry-seen_by, put_conn-seen_by, kick_pump-seen_by}
use polymorph_iroh.Endpoint.Streams.Sent.{sent_by, Leaves, write_all_delivers}

-- The bytes of the turns up to the last one.
abbrev pub bytes_of :
    {noq : Noq} → List (StreamTurn × (State noq → State noq) × List (State noq → State noq)) → Bytes
bytes_of [] = []
bytes_of ((turn, idle, others) ∷ turns) = turn.buf ++ (if turn.is_last then [] else bytes_of turns)

some_inj : {A : Type 0} {a b : A} → ◌≡◌ {A = Option A} (some a) (some b) → a ≡ b
some_inj h = cc

module _ {noq : Noq} (law : SendLaw noq) where
  -- The engine's `finish` puts no bytes on a stream.
  abbrev pub Finishes : Type 0
  Finishes = (conn : noq.Conn) (id : ℕ) → law.sent (noq.finish conn id).0 id ≡ law.sent conn id

  abbrev sent_of : State noq → SendStreamRes → Option Bytes
  sent_of st s = sent_by law st s.handle s.epoch s.id

  -- Others put nothing on the stream, at each wait of each turn.
  abbrev pub AllLeave :
      SendStreamRes
      → List (StreamTurn × (State noq → State noq) × List (State noq → State noq))
      → Type 0
  AllLeave s turns =
      All (λ t. Leaves law s.handle s.epoch s.id t.1 × All (Leaves law s.handle s.epoch s.id) t.2)
        turns

  write_turn_sent :
      (others : List (State noq → State noq)) (st : State noq) (s : SendStreamRes)
      (buf after : Bytes)
      → All (Leaves law s.handle s.epoch s.id) others
      → (write_turn others st s buf).1 ≡ over (inr tt)
      → sent_of (write_turn others st s buf).0 s ≡ some after
      → (before : Bytes) × (sent_of st s ≡ some before) × (after ≡ before ++ buf)
  unfolding write_turn
  write_turn_sent others st s [] after leave won e = (after, e, sym (append-nil after))
  write_turn_sent others st s (b ∷ buf) after leave won e =
      let (before, had, has) =
        write_all_delivers law others st s.handle s.epoch s.id (b ∷ buf) leave won in
      (before, had, some_inj (sym e ∙ has))

  on_finished_sent :
      (st : State noq) (s : SendStreamRes) (outcome : FinishOutcome) (before : Bytes)
      → sent_of st s ≡ some before
      → (on_finished st outcome).1 ≡ inr tt
      → sent_of (on_finished st outcome).0 s ≡ some before
  unfolding on_finished
  on_finished_sent st s finished before e won =
      kick_pump-seen_by law.sent st s.handle s.epoch s.id ∙ e
  on_finished_sent st s (FinishOutcome.stopped code) before e won = absurd cc
  on_finished_sent st s FinishOutcome.closed_stream before e won = absurd cc

  finish_entry_sent :
      (st : State noq) (s : SendStreamRes) (e : ConnEntry noq) (failure : Option Error)
      → Finishes
      → entry_for st s.handle s.epoch ≡ some e
      → (finish_entry st s e failure).1 ≡ inr tt
      → (before : Bytes) × (sent_of st s ≡ some before)
        × (sent_of (finish_entry st s e failure).0 s ≡ some before)
  unfolding finish_entry
  finish_entry_sent st s e (some error) law2 at won = absurd cc
  finish_entry_sent st s e none law2 at won =
      let conn = (noq.finish e.conn s.id).0 in
      let kept = put_conn st s.handle e conn in
      let now : sent_of kept s ≡ some (law.sent e.conn s.id) =
        put_conn-seen_by law.sent st s.handle s.epoch s.id e conn at ∙ ap some (law2 e.conn s.id) in
      (
        law.sent e.conn s.id,
        entry-seen_by law.sent st s.handle s.epoch s.id e at,
        on_finished_sent kept s (noq.finish e.conn s.id).1 (law.sent e.conn s.id) now won,
      )

  -- A result that is a success has left what the stream had sent.
  abbrev Keeps : State noq → SendStreamRes → State noq × SendStreamRes × (Error ⊎ Unit {0}) → Type 0
  Keeps st s (last, ended, result) =
      result ≡ inr tt
      → (before : Bytes) × (sent_of st s ≡ some before) × (sent_of last s ≡ some before)

  do_finish_sent : (st : State noq) (s : SendStreamRes) → Finishes → Keeps st s (do_finish st s)
  unfolding do_finish
  do_finish_sent st s law2 = elim (Option-cases (entry_for st s.handle s.epoch)) [
    | inl gone ↦
        let shape : do_finish st s ≡ (st, record s { ended = true }, inl closed) =
          rw (do_finish, gone) refl in
        subst (Keeps st s) (sym shape) (λ won. absurd cc)
    | inr (e, at) ↦
        let ended = finish_entry st s e e.error in
        let shape : do_finish st s ≡ (ended.0, record s { ended = true }, ended.1) =
          rw (do_finish, at) refl in
        subst (Keeps st s) (sym shape) (λ won. finish_entry_sent st s e e.error law2 at won)
  ]

  -- What the rest of the turns appends.
  abbrev Appends :
      State noq
      → SendStreamRes
      → Bytes
      → State noq × SendStreamRes × Option (Error ⊎ Unit {0})
      → Type 0
  Appends st s bytes (last, ended, result) =
      result ≡ some (inr tt)
      → (before : Bytes) × (sent_of st s ≡ some before) × (sent_of last s ≡ some (before ++ bytes))

  after_turn_sent :
      (before_turn next : State noq) (s : SendStreamRes) (is_last : Bool) (buf rest_bytes : Bytes)
      (rest : State noq × SendStreamRes × Option (Error ⊎ Unit {0})) (pass : Pass)
      → Finishes
      → Appends next s rest_bytes rest
      → ((after : Bytes)
          → pass ≡ over (inr tt)
          → sent_of next s ≡ some after
          → (before : Bytes) × (sent_of before_turn s ≡ some before) × (after ≡ before ++ buf))
      → Appends before_turn s
          (buf ++ (if is_last then [] else rest_bytes))
          (after_turn next s is_last rest pass)
  unfolding after_turn
  after_turn_sent st next s is_last buf more rest again law2 later wrote = λ won. absurd cc
  after_turn_sent st next s is_last buf more rest parked law2 later wrote = λ won. absurd cc
  after_turn_sent st next s is_last buf more rest (over (inl e)) law2 later wrote = λ won. absurd cc
  after_turn_sent st next s true buf more rest (over (inr u)) law2 later wrote = λ won.
      let (mid, now, last) = do_finish_sent next s law2 (some_inj won) in
      let (before, had, same) = wrote mid refl now in
      (before, had, last ∙ ap some (same ∙ ap (◌++◌ before) (sym (append-nil buf))))
  after_turn_sent st next s false buf more rest (over (inr u)) law2 later wrote = λ won.
      let (mid, now, last) = later won in
      let (before, had, same) = wrote mid refl now in
      (
        before,
        had,
        last ∙ ap some (ap (λ (x : Bytes). x ++ more) same ∙ append_assoc before buf more),
      )

  pump_stream-Appends :
      (turns : List (StreamTurn × (State noq → State noq) × List (State noq → State noq)))
      (st : State noq) (s : SendStreamRes)
      → Finishes
      → AllLeave s turns
      → Appends st s (bytes_of turns) (pump_stream turns st s)
  unfolding pump_stream
  pump_stream-Appends [] st s law2 leave = λ won. absurd cc
  pump_stream-Appends ((turn, idle, others) ∷ turns) st s law2 leave =
      let write = write_turn others (idle st) s turn.buf in
      let later = pump_stream-Appends turns write.0 s law2 leave.1 in
      λ won.
        let (before, had, has) =
          after_turn_sent (idle st) write.0 s turn.is_last turn.buf (bytes_of turns)
            (pump_stream turns write.0 s) write.1 law2 later
            (λ after over_now e.
              write_turn_sent others (idle st) s turn.buf after leave.0.1 over_now e)
            won in
        (before, leave.0.0 st before had, has)

  -- With an engine whose `write` takes the prefix that it reports and whose `finish` writes nothing,
  -- a `write-via-stream` that succeeds has put on the stream exactly the bytes of its reader's turns
  -- up to the last one, once and in order, however the reader cuts them, however often a turn waits
  -- and whatever others do meanwhile except sending on this stream.
  pub pump_stream_delivers :
      (turns : List (StreamTurn × (State noq → State noq) × List (State noq → State noq)))
      (st : State noq) (s : SendStreamRes)
      → Finishes
      → AllLeave s turns
      → (pump_stream turns st s).2 ≡ some (inr tt)
      → (before : Bytes) × (sent_by law st s.handle s.epoch s.id ≡ some before)
        × (sent_by law (pump_stream turns st s).0 s.handle s.epoch s.id
            ≡ some (before ++ bytes_of turns))
  pump_stream_delivers turns st s law2 leave won = pump_stream-Appends turns st s law2 leave won
