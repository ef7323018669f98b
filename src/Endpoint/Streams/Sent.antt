-- ===== src/Endpoint/Streams/Sent.antt =====
-- What `write_all` puts on the wire, for an engine whose `write` takes a prefix of what it is given.
use mathlib.Core.List.{append-nil}
use polymorph_iroh.Base.{
  ℕ, suc, ◌≤◌, ◌≡◌, ◌≢◌, sym, ap, subst, ◌∙◌, inl, inr, Option, none, some, List, [], ◌∷◌, ◌++◌,
  Bytes, ltb, length, drop, if◌then◌else◌, if_cases, Option-cases, All, nat_key, arith,
}
use polymorph_iroh.Noq.{Noq}
use polymorph_iroh.Endpoint.{State, ConnEntry, Error, closed, kick_pump}
use polymorph_iroh.Endpoint.Conns.{entry_for}
use polymorph_iroh.Endpoint.Streams.{
  Pass, again, over, is_parked, write_pass, write_entry, write_check, write_all, put_conn,
}
use polymorph_iroh.Endpoint.Streams.Seen.{
  seen_by, Spares, entry-seen_by, put_conn-seen_by, kick_pump-seen_by,
}
use polymorph_iroh.Endpoint.Streams.Moved.{
  drop_all, SendLaw, Moved, Moved-refl, Moved-trans, EndsAt, write_pass-Moved, write_pass-EndsAt,
}

module _ {noq : Noq} (law : SendLaw noq) where
  -- What a stream has sent, while the connection under its handle is the one that it was minted for.
  abbrev pub sent_by : State noq → ℕ → ℕ → ℕ → Option Bytes
  sent_by st handle epoch id = seen_by law.sent st handle epoch id

  -- Other tasks may do anything but put bytes on the stream: drop its connection, too.
  abbrev pub Leaves : ℕ → ℕ → ℕ → (State noq → State noq) → Type 0
  Leaves handle epoch id f = Spares law.sent handle epoch id f

  -- What one or more checks of `write_all` come to.
  record Checked (st : State noq) (handle epoch id : ℕ) (bytes : Bytes) (start : ℕ)
      (result : State noq × ℕ × Pass) : Type 0 where
    bounded : result.1 ≤ length bytes
    ends : EndsAt (length bytes) result.1 result.2
    moved :
        (after : Bytes)
        → sent_by result.0 handle epoch id ≡ some after
        → (before : Bytes) × (sent_by st handle epoch id ≡ some before)
          × Moved bytes before after start result.1
    present :
        result.2 ≡ over (inr tt) → (after : Bytes) × (sent_by result.0 handle epoch id ≡ some after)

  failed-Checked :
      (st : State noq) (handle epoch id : ℕ) (bytes : Bytes) (start : ℕ) (error : Error)
      → start ≤ length bytes
      → Checked st handle epoch id bytes start (st, start, over (inl error))
  failed-Checked st handle epoch id bytes start error h = record {
    bounded = h;
    ends = tt;
    moved = λ after e. (after, e, Moved-refl bytes after start h);
    present = λ e. cc e;
  }

  write_entry-Checked :
      (st : State noq) (handle epoch id : ℕ) (bytes : Bytes) (start : ℕ) (e : ConnEntry noq)
      (failure : Option Error)
      → entry_for st handle epoch ≡ some e
      → start ≤ length bytes
      → Checked st handle epoch id bytes start (write_entry st handle id bytes start e failure)
  unfolding write_entry
  write_entry-Checked st handle epoch id bytes start e (some error) h fits =
      failed-Checked st handle epoch id bytes start error fits
  write_entry-Checked st handle epoch id bytes start e none h fits =
      let r = write_pass noq (suc (length bytes)) e.conn id bytes start in
      let m = write_pass-Moved law (suc (length bytes)) e.conn id bytes start fits in
      let kept = put_conn st handle e r.0 in
      let sent_now = put_conn-seen_by law.sent st handle epoch id e r.0 h in
      let now : sent_by (if ltb start r.1 then kick_pump kept else kept) handle epoch id
          ≡ some (law.sent r.0 id) =
        if_cases (λ st2. sent_by st2 handle epoch id ≡ some (law.sent r.0 id)) (ltb start r.1)
          (kick_pump kept) kept (λ t. kick_pump-seen_by law.sent kept handle epoch id ∙ sent_now)
          (λ t. sent_now) in
      record {
        bounded = m.bounded;
        ends = write_pass-EndsAt law (suc (length bytes)) e.conn id bytes start fits (omega arith);
        moved = λ after p.
            let same : law.sent r.0 id ≡ after = cc (now, p) in
            (
              law.sent e.conn id,
              entry-seen_by law.sent st handle epoch id e h,
              subst (λ a. Moved bytes (law.sent e.conn id) a start r.1) same m,
            );
        present = λ p. (law.sent r.0 id, now);
      }

  write_check-Checked :
      (st : State noq) (handle epoch id : ℕ) (bytes : Bytes) (start : ℕ)
      → start ≤ length bytes
      → Checked st handle epoch id bytes start (write_check st handle epoch id bytes start)
  unfolding write_check
  write_check-Checked st handle epoch id bytes start fits =
      elim (Option-cases (entry_for st handle epoch)) [
        | inl n ↦ rw (write_check, n) (failed-Checked st handle epoch id bytes start closed fits)
        | inr (e, h) ↦
            rw (write_check, h)
              (write_entry-Checked st handle epoch id bytes start e e.error h fits)
      ]

  -- A check that waits, what others do, and the rest of the call.
  Checked-trans :
      (st : State noq) (handle epoch id : ℕ) (bytes : Bytes) (start : ℕ)
      (w r : State noq × ℕ × Pass) (other : State noq → State noq)
      → Leaves handle epoch id other
      → Checked st handle epoch id bytes start w
      → Checked (other w.0) handle epoch id bytes w.1 r
      → Checked st handle epoch id bytes start r
  Checked-trans st handle epoch id bytes start w r other leaves c d = record {
    bounded = d.bounded;
    ends = d.ends;
    moved = λ after p.
        let (mid, q, m) = d.moved after p in
        let (before, b, n) = c.moved mid (leaves w.0 mid q) in (before, b, Moved-trans n m);
    present = d.present;
  }

  write_all-Checked :
      (others : List (State noq → State noq)) (st : State noq) (handle epoch id : ℕ) (bytes : Bytes)
      (start : ℕ)
      → All (Leaves handle epoch id) others
      → start ≤ length bytes
      → Checked st handle epoch id bytes start (write_all others st handle epoch id bytes start)
  unfolding write_all
  write_all-Checked [] st handle epoch id bytes start leave fits =
      write_check-Checked st handle epoch id bytes start fits
  write_all-Checked (other ∷ others) st handle epoch id bytes start leave fits =
      let w = write_check st handle epoch id bytes start in
      let c = write_check-Checked st handle epoch id bytes start fits in
      if_cases (Checked st handle epoch id bytes start) (is_parked w.2)
        (write_all others (other w.0) handle epoch id bytes w.1) w
        (λ t.
          Checked-trans st handle epoch id bytes start w
            (write_all others (other w.0) handle epoch id bytes w.1) other leave.0 c
            (write_all-Checked others (other w.0) handle epoch id bytes w.1 leave.1 c.bounded))
        (λ t. c)

  -- With an engine whose `write` takes the prefix that it reports, a call of `write` that succeeds,
  -- however often it waits and whatever others do to the endpoint meanwhile except sending on this
  -- stream, has appended to the stream exactly its bytes, once and in order.
  pub write_all_delivers :
      (others : List (State noq → State noq)) (st : State noq) (handle epoch id : ℕ) (bytes : Bytes)
      → All (Leaves handle epoch id) others
      → (write_all others st handle epoch id bytes 0).2 ≡ over (inr tt)
      → (before : Bytes) × (sent_by st handle epoch id ≡ some before)
        × (sent_by (write_all others st handle epoch id bytes 0).0 handle epoch id
            ≡ some (before ++ bytes))
  write_all_delivers others st handle epoch id bytes leave won =
      let r = write_all others st handle epoch id bytes 0 in
      let c = write_all-Checked others st handle epoch id bytes 0 leave (omega arith) in
      let (after, p) = c.present won in
      let (before, b, m) = c.moved after p in
      let whole : r.1 ≡ length bytes = subst (EndsAt (length bytes) r.1) won c.ends in
      let none_left : drop r.1 bytes ≡ [] = ap (λ n. drop n bytes) whole ∙ drop_all bytes in
      let all_sent : after ≡ before ++ bytes =
        sym (append-nil after) ∙ ap (◌++◌ after) (sym none_left) ∙ m.same_bytes in
      (before, b, p ∙ ap some all_sent)

  -- With such an engine and such others, a call of `write` after which the connection is still there,
  -- whether it waits, fails or succeeds, has left its loop within its fuel, and what the stream has
  -- sent since is the part of its bytes before the offset that it reached.
  pub write_all_partial :
      (others : List (State noq → State noq)) (st : State noq) (handle epoch id : ℕ)
      (bytes after : Bytes)
      → All (Leaves handle epoch id) others
      → sent_by (write_all others st handle epoch id bytes 0).0 handle epoch id ≡ some after
      → ((write_all others st handle epoch id bytes 0).2 ≢ again)
        × ((write_all others st handle epoch id bytes 0).1 ≤ length bytes)
        × ((before : Bytes) × (sent_by st handle epoch id ≡ some before)
            × (after ++ drop (write_all others st handle epoch id bytes 0).1 bytes
                ≡ before ++ bytes))
  write_all_partial others st handle epoch id bytes after leave p =
      let r = write_all others st handle epoch id bytes 0 in
      let c = write_all-Checked others st handle epoch id bytes 0 leave (omega arith) in
      let (before, b, m) = c.moved after p in
      (
        λ stuck. subst (EndsAt (length bytes) r.1) stuck c.ends,
        c.bounded,
        (before, b, m.same_bytes),
      )
