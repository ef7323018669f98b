-- ===== src/Endpoint/Streams/Latch.antt =====
-- The latch of a receive stream on its first end.
use polymorph_iroh.Base.{
  ℕ, zero, suc, ◌≡◌, refl, ap, ◌∙◌, ◌⊎◌, inl, inr, true, false, Option, none, some, List, [], ◌∷◌,
  eqb, if_cases, Bytes, arith,
}
use polymorph_iroh.Endpoint.{Error}
use polymorph_iroh.Endpoint.Streams.Reads.{
  RecvStreamRes, new_recv, begin_read, end_read, cancel_read, read_by, begin_read_stream,
}

-- What happens to a receive stream: `read` and `read-via-stream` are called, a `read` in flight is
-- answered, or it is cancelled.
pub data Call : Type 0 where
  read_call : ℕ → Call
  stream_call cancelled : Call
  answered : Error ⊎ Option Bytes → Call

abbrev admit : RecvStreamRes × Option (Error ⊎ Option Bytes) → ℕ → RecvStreamRes × ℕ
admit (s, none) n = (s, suc n)
admit (s, some answer) n = (s, n)

-- A call that waits is there to be answered or cancelled.
abbrev one_less : RecvStreamRes → RecvStreamRes → ℕ → RecvStreamRes × ℕ
one_less s next zero = (s, zero)
one_less s next (suc n) = (next, n)

-- The stream and the number of its reads in flight.
unfoldable pub play : Call → RecvStreamRes × ℕ → RecvStreamRes × ℕ
play (read_call max) (s, n) = admit (begin_read s max) n
play stream_call (s, n) = ((begin_read_stream s).0, n)
play cancelled (s, n) = one_less s (cancel_read s) n
play (answered answer) (s, n) = one_less s (end_read s answer) n

unfoldable pub play_all : List Call → RecvStreamRes × ℕ → RecvStreamRes × ℕ
play_all [] p = p
play_all (c ∷ cs) p = play_all cs (play c p)

-- A read in flight holds the claim of a stream that has not ended.
record IsOpenRead (s : RecvStreamRes) (n : ℕ) : Type 0 where
  one : n ≡ 1
  claimed : s.reading ≡ true
  unended : s.terminal ≡ none

record IsIdle (s : RecvStreamRes) (n : ℕ) : Type 0 where
  idle : n ≡ 0
  unclaimed : s.reading ≡ false

abbrev IsSound : RecvStreamRes × ℕ → Type 0
IsSound p = IsOpenRead p.0 p.1 ⊎ IsIdle p.0 p.1

fresh_read :
    (s : RecvStreamRes) (n : ℕ)
    → s.terminal ≡ none
    → s.reading ≡ false
    → IsSound (s, n)
    → IsSound (record s { reading = true }, suc n)
fresh_read s n e r (inl o) = cc (o.claimed, r)
fresh_read s n e r (inr i) =
    inl (record { one = omega (arith, i.idle); claimed = refl; unended = e })

read_by-IsSound :
    (s : RecvStreamRes) (n max : ℕ) (t : Option (Error ⊎ Unit {0}))
    → s.terminal ≡ t
    → IsSound (s, n)
    → IsSound (admit (read_by s max t) n)
unfolding read_by
read_by-IsSound s n max none e h =
    if_cases (λ r. IsSound (admit r n)) (eqb max 0) _ _ (λ t. h)
      (λ t. if_cases (λ r. IsSound (admit r n)) s.reading _ _ (λ v. h) (λ v. fresh_read s n e v h))
read_by-IsSound s n max (some (inl error)) e h = h
read_by-IsSound s n max (some (inr u)) e h = h

stream_call-fields :
    (s : RecvStreamRes)
    → ((begin_read_stream s).0.reading ≡ s.reading)
      × ((begin_read_stream s).0.terminal ≡ s.terminal)
unfolding begin_read_stream
stream_call-fields s =
    if_cases
      (λ (r : RecvStreamRes × Option Error).
        (r.0.reading ≡ s.reading) × (r.0.terminal ≡ s.terminal))
      s.streaming _ _ (λ t. (refl, refl)) (λ t. (refl, refl))

end_read-reading : (s : RecvStreamRes) (a : Error ⊎ Option Bytes) → (end_read s a).reading ≡ false
unfolding end_read
end_read-reading s (inl e) = refl
end_read-reading s (inr none) = refl
end_read-reading s (inr (some bytes)) = refl

one_less-IsSound :
    (s next : RecvStreamRes) (n : ℕ)
    → next.reading ≡ false
    → IsSound (s, n)
    → IsSound (one_less s next n)
one_less-IsSound s next zero r h = h
one_less-IsSound s next (suc n) r (inl o) =
    inr (record { idle = omega (arith, o.one); unclaimed = r })
one_less-IsSound s next (suc n) r (inr i) = absurd (omega (arith, i.idle))

play-IsSound : (c : Call) (s : RecvStreamRes) (n : ℕ) → IsSound (s, n) → IsSound (play c (s, n))
unfolding play begin_read cancel_read
play-IsSound (read_call max) s n h =
    if_cases (λ r. IsSound (admit r n)) s.streaming _ (read_by s max s.terminal) (λ t. h)
      (λ t. read_by-IsSound s n max s.terminal refl h)
play-IsSound stream_call s n (inl o) =
    let (r, e) = stream_call-fields s in
    inl (record { one = o.one; claimed = r ∙ o.claimed; unended = e ∙ o.unended })
play-IsSound stream_call s n (inr i) =
    let (r, e) = stream_call-fields s in inr (record { idle = i.idle; unclaimed = r ∙ i.unclaimed })
play-IsSound cancelled s n h = one_less-IsSound s (cancel_read s) n refl h
play-IsSound (answered a) s n h = one_less-IsSound s (end_read s a) n (end_read-reading s a) h

play_all-IsSound : (cs : List Call) (p : RecvStreamRes × ℕ) → IsSound p → IsSound (play_all cs p)
unfolding play_all
play_all-IsSound [] p h = h
play_all-IsSound (c ∷ cs) (s, n) h = play_all-IsSound cs (play c (s, n)) (play-IsSound c s n h)

-- No read is in flight on a stream that has ended.
ended_idle :
    (s : RecvStreamRes) (n : ℕ) (t : Error ⊎ Unit {0})
    → s.terminal ≡ some t
    → IsSound (s, n)
    → n ≡ 0
ended_idle s n t e (inl o) = cc (e, o.unended)
ended_idle s n t e (inr i) = i.idle

one_less-terminal :
    (s next : RecvStreamRes) (n : ℕ) → n ≡ 0 → (one_less s next n).0.terminal ≡ s.terminal
one_less-terminal s next zero z = refl
one_less-terminal s next (suc n) z = absurd (omega arith)

read_by-terminal :
    (s : RecvStreamRes) (n max : ℕ) (t : Error ⊎ Unit {0})
    → (admit (read_by s max (some t)) n).0.terminal ≡ s.terminal
unfolding read_by
read_by-terminal s n max (inl e) = refl
read_by-terminal s n max (inr u) = refl

play-terminal :
    (c : Call) (s : RecvStreamRes) (n : ℕ) (t : Error ⊎ Unit {0})
    → s.terminal ≡ some t
    → IsSound (s, n)
    → (play c (s, n)).0.terminal ≡ some t
unfolding play begin_read
play-terminal (read_call max) s n t e h =
    if_cases
      (λ (r : RecvStreamRes × Option (Error ⊎ Option Bytes)). (admit r n).0.terminal ≡ some t)
      s.streaming _ (read_by s max s.terminal) (λ v. e)
      (λ v. ap (λ k. (admit (read_by s max k) n).0.terminal) e ∙ read_by-terminal s n max t ∙ e)
play-terminal stream_call s n t e h = (stream_call-fields s).1 ∙ e
play-terminal cancelled s n t e h = one_less-terminal s (cancel_read s) n (ended_idle s n t e h) ∙ e
play-terminal (answered a) s n t e h =
    one_less-terminal s (end_read s a) n (ended_idle s n t e h) ∙ e

play_all-terminal :
    (cs : List Call) (p : RecvStreamRes × ℕ) (t : Error ⊎ Unit {0})
    → p.0.terminal ≡ some t
    → IsSound p
    → (play_all cs p).0.terminal ≡ some t
unfolding play_all
play_all-terminal [] p t e h = e
play_all-terminal (c ∷ cs) (s, n) t e h =
    play_all-terminal cs (play c (s, n)) t (play-terminal c s n t e h) (play-IsSound c s n h)

-- What every later `read` answers once the stream has ended.
abbrev pub repeated : Error ⊎ Unit {0} → Error ⊎ Option Bytes
repeated (inl e) = inl e
repeated (inr u) = inr none

read_by-repeated :
    (s : RecvStreamRes) (max : ℕ) (t : Error ⊎ Unit {0})
    → read_by s max (some t) ≡ (s, some (repeated t))
unfolding read_by
read_by-repeated s max (inl e) = refl
read_by-repeated s max (inr u) = refl

answered-terminal :
    (s : RecvStreamRes) (n : ℕ) (t : Error ⊎ Unit {0})
    → n ≡ 1
    → (play (answered (repeated t)) (s, n)).0.terminal ≡ some t
unfolding play end_read
answered-terminal s zero t one = absurd (omega arith)
answered-terminal s (suc n) (inl e) one = refl
answered-terminal s (suc n) (inr u) one = refl

-- Once a `read` in flight is answered with a stream's end, a clean one or a failure, whatever was
-- called before it and whatever is called, answered or cancelled after it, each `read` answers that
-- end again and changes nothing, as long as the stream is not taken by `read-via-stream`.
pub end_latched :
    (before later : List Call) (handle epoch id max : ℕ) (t : Error ⊎ Unit {0})
    → (play_all before (new_recv handle epoch id, 0)).1 ≡ 1
    → (play_all later
        (play (answered (repeated t)) (play_all before (new_recv handle epoch id, 0)))).0.streaming
      ≡ false
    → begin_read
        (play_all later
          (play (answered (repeated t)) (play_all before (new_recv handle epoch id, 0)))).0
        max
      ≡ (
        (play_all later
            (play (answered (repeated t)) (play_all before (new_recv handle epoch id, 0)))).0,
        some (repeated t),
      )
unfolding begin_read
end_latched before later handle epoch id max t waiting free =
    let start : IsSound (new_recv handle epoch id, 0) =
      inr (record { idle = refl; unclaimed = refl }) in
    let p = play_all before (new_recv handle epoch id, 0) in
    let sound = play_all-IsSound before (new_recv handle epoch id, 0) start in
    let ended = play (answered (repeated t)) p in
    let q = play_all later ended in
    let kept =
      play_all-terminal later ended t (answered-terminal p.0 p.1 t waiting)
        (play-IsSound (answered (repeated t)) p.0 p.1 sound) in
    if_cases (λ r. r ≡ (q.0, some (repeated t))) q.0.streaming _ (read_by q.0 max q.0.terminal)
      (λ v. cc (v, free)) (λ v. ap (read_by q.0 max) kept ∙ read_by-repeated q.0 max t)
