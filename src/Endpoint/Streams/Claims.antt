-- ===== src/Endpoint/Streams/Claims.antt =====
-- The claims of a send stream: which of its calls may run together.
use polymorph_iroh.Base.{
  ℕ, zero, suc, ◌≤◌, ◌≡◌, refl, ◌∙◌, ◌⊎◌, if_cases, inl, inr, true, false, Option, none, some, List,
  [], ◌∷◌, Option-cases, arith,
}
use polymorph_iroh.Noq.{Noq}
use polymorph_iroh.Endpoint.{State, Error}
use polymorph_iroh.Endpoint.Conns.{entry_for}
use polymorph_iroh.Endpoint.Streams.{
  SendStreamRes, new_send, begin_write, begin_stream, unclaim, finish, do_finish, reset_stream,
}

-- What happens to a send stream: the two kinds of writing calls begin, one of those in flight is
-- over or cancelled, and `finish` and `reset` run on some state of the endpoint.
pub data Call (noq : Noq) : Type 0 where
  write_call stream_call end_call : Call noq
  finish_call : State noq → Call noq
  reset_call : State noq → ℕ → Call noq

abbrev admit : SendStreamRes × Option Error → ℕ → SendStreamRes × ℕ
admit (s, none) n = (s, suc n)
admit (s, some e) n = (s, n)

abbrev one_less : SendStreamRes → ℕ → SendStreamRes × ℕ
one_less s zero = (s, zero)
one_less s (suc n) = (unclaim s, n)

-- A claim stands exactly while one call is in flight.
abbrev pub IsClaimed : SendStreamRes × ℕ → Type 0
IsClaimed p = (p.0.writing ≡ true) × (p.1 ≡ 1) ⊎ (p.0.writing ≡ false) × (p.1 ≡ 0)

keep-IsClaimed :
    (s t : SendStreamRes) (n : ℕ) → t.writing ≡ s.writing → IsClaimed (s, n) → IsClaimed (t, n)
keep-IsClaimed s t n e (inl (w, one)) = inl (e ∙ w, one)
keep-IsClaimed s t n e (inr (w, idle)) = inr (e ∙ w, idle)

none_claimed : (s : SendStreamRes) (n : ℕ) → s.writing ≡ false → IsClaimed (s, n) → n ≡ 0
none_claimed s n w (inl (v, one)) = cc (v, w)
none_claimed s n w (inr (v, idle)) = idle

begin_write-IsClaimed :
    (s : SendStreamRes) (n : ℕ) → IsClaimed (s, n) → IsClaimed (admit (begin_write s) n)
unfolding begin_write
begin_write-IsClaimed s n h =
    if_cases (λ r. IsClaimed (admit r n)) s.streaming _ _ (λ t. h)
      (λ t.
        if_cases (λ r. IsClaimed (admit r n)) s.writing _ _ (λ w. h)
          (λ w. (let idle = none_claimed s n w h in inl (refl, omega arith))))

begin_stream-IsClaimed :
    (s : SendStreamRes) (n : ℕ) → IsClaimed (s, n) → IsClaimed (admit (begin_stream s) n)
unfolding begin_stream
begin_stream-IsClaimed s n h =
    if_cases (λ r. IsClaimed (admit r n)) s.streaming _ _ (λ t. h)
      (λ t.
        if_cases (λ r. IsClaimed (admit r n)) s.writing _ _ (λ w. h)
          (λ w. (let idle = none_claimed s n w h in inl (refl, omega arith))))

end-IsClaimed : (s : SendStreamRes) (n : ℕ) → IsClaimed (s, n) → IsClaimed (one_less s n)
unfolding unclaim
end-IsClaimed s zero h = h
end-IsClaimed s (suc n) (inl (w, one)) = inr (refl, omega arith)
end-IsClaimed s (suc n) (inr (w, idle)) = absurd (omega arith)

module _ {noq : Noq} where
  -- The stream and the number of its writing calls in flight.
  unfoldable pub play : Call noq → SendStreamRes × ℕ → SendStreamRes × ℕ
  play write_call (s, n) = admit (begin_write s) n
  play stream_call (s, n) = admit (begin_stream s) n
  play end_call (s, n) = one_less s n
  play (finish_call st) (s, n) = ((finish st s).1, n)
  play (reset_call st code) (s, n) = ((reset_stream st s code).1, n)

  unfoldable pub play_all : List (Call noq) → SendStreamRes × ℕ → SendStreamRes × ℕ
  play_all [] p = p
  play_all (c ∷ cs) p = play_all cs (play c p)

  do_finish_writing : (st : State noq) (s : SendStreamRes) → (do_finish st s).1.writing ≡ s.writing
  unfolding do_finish
  do_finish_writing st s = elim (Option-cases (entry_for st s.handle s.epoch)) [
    | inl n ↦ rw (do_finish, n) refl
    | inr (e, h) ↦ rw (do_finish, h) refl
  ]

  finish_writing : (st : State noq) (s : SendStreamRes) → (finish st s).1.writing ≡ s.writing
  unfolding finish do_finish
  finish_writing st s =
      if_cases (λ (r : State noq × SendStreamRes × (Error ⊎ Unit {0})). r.1.writing ≡ s.writing)
        s.streaming _ _ (λ t. refl)
        (λ t.
          if_cases (λ (r : State noq × SendStreamRes × (Error ⊎ Unit {0})). r.1.writing ≡ s.writing)
            s.writing _ (do_finish st s) (λ w. refl) (λ w. do_finish_writing st s))

  reset_writing :
      (st : State noq) (s : SendStreamRes) (code : ℕ)
      → (reset_stream st s code).1.writing ≡ s.writing
  unfolding reset_stream
  reset_writing st s code = elim (Option-cases (entry_for st s.handle s.epoch)) [
    | inl n ↦ rw (reset_stream, n) refl
    | inr (e, h) ↦ rw (reset_stream, h) refl
  ]

  play-IsClaimed :
      (c : Call noq) (s : SendStreamRes) (n : ℕ) → IsClaimed (s, n) → IsClaimed (play c (s, n))
  unfolding play
  play-IsClaimed write_call s n h = begin_write-IsClaimed s n h
  play-IsClaimed stream_call s n h = begin_stream-IsClaimed s n h
  play-IsClaimed end_call s n h = end-IsClaimed s n h
  play-IsClaimed (finish_call st) s n h = keep-IsClaimed s (finish st s).1 n (finish_writing st s) h
  play-IsClaimed (reset_call st code) s n h =
      keep-IsClaimed s (reset_stream st s code).1 n (reset_writing st s code) h

  play_all-IsClaimed :
      (cs : List (Call noq)) (p : SendStreamRes × ℕ) → IsClaimed p → IsClaimed (play_all cs p)
  unfolding play_all
  play_all-IsClaimed [] p h = h
  play_all-IsClaimed (c ∷ cs) (s, n) h =
      play_all-IsClaimed cs (play c (s, n)) (play-IsClaimed c s n h)

  finish_claimed :
      (st : State noq) (s : SendStreamRes)
      → s.writing ≡ true
      → ((finish st s).0 ≡ st) × ((finish st s).1 ≡ s)
  unfolding finish
  finish_claimed st s w =
      if_cases (λ (r : State noq × SendStreamRes × (Error ⊎ Unit {0})). (r.0 ≡ st) × (r.1 ≡ s))
        s.streaming _ _ (λ t. (refl, refl))
        (λ t.
          if_cases (λ (r : State noq × SendStreamRes × (Error ⊎ Unit {0})). (r.0 ≡ st) × (r.1 ≡ s))
            s.writing _ (do_finish st s) (λ v. (refl, refl)) (λ v. cc (v, w)))

  -- After any sequence of calls on a new send stream, in whatever order they begin and end, at most
  -- one writing call is in flight, and while one is, `finish` changes nothing.
  pub one_writer :
      (cs : List (Call noq)) (handle epoch id : ℕ) (st : State noq)
      → ((play_all cs (new_send handle epoch id, 0)).1 ≤ 1)
        × ((play_all cs (new_send handle epoch id, 0)).1 ≡ 1
            → ((finish st (play_all cs (new_send handle epoch id, 0)).0).0 ≡ st)
              × ((finish st (play_all cs (new_send handle epoch id, 0)).0).1
                  ≡ (play_all cs (new_send handle epoch id, 0)).0))
  one_writer cs handle epoch id st =
      let p = play_all cs (new_send handle epoch id, 0) in
      elim (play_all-IsClaimed cs (new_send handle epoch id, 0) (inr (refl, refl))) [
        | inl (w, one) ↦ (omega arith, λ _. finish_claimed st p.0 w)
        | inr (w, idle) ↦ (omega arith, λ one. absurd (omega arith))
      ]
