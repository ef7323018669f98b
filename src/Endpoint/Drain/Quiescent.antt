-- ===== src/Endpoint/Drain/Quiescent.antt =====
-- That `drain` of endpoint/src/endpoint_impl.rs ends, with nothing left to say.
use polymorph_iroh.Base.{
  ℕ, zero, suc, ◌+◌, ◌<◌, ◌≡◌, subst, inl, inr, Bool, true, false, not, ◌&&◌, Option, none, some,
  [], ◌∷◌, Option-cases, All, if_cases, arith, nat_key,
}
use polymorph_iroh.Base.Maps.{Map}
use polymorph_iroh.Net.{addr_key}
use polymorph_iroh.Noq.{Noq}
use polymorph_iroh.Endpoint.{State, ConnEntry}
use polymorph_iroh.Endpoint.Routes.Invariant.{IsRouted, book}
use polymorph_iroh.Endpoint.Drain.{
  progressed, drain_turn, drain_turns, drain_conns, drain, with_rest, put_conns,
}
use polymorph_iroh.Endpoint.Drain.Total.{drain_total}
use polymorph_iroh.Endpoint.Drain.Rest.{WorkLaw, IsAtRest, OnTurn, Settles, turn-rest}

module _ {noq : Noq} (law : WorkLaw noq) where
  abbrev OnEntry : ℕ → Option (State noq × ConnEntry noq × Bool) → Type 0
  OnEntry now none = Unit {0}
  OnEntry now (some (next, f, more)) = IsAtRest noq now f.conn

  progressed-OnEntry :
      (now : ℕ) (r : Option (State noq × ConnEntry noq × Bool))
      → OnEntry now r
      → OnEntry now (progressed r)
  progressed-OnEntry now none h = tt
  progressed-OnEntry now (some (next, f, more)) h = h

  turns-rest :
      (turns fuel : ℕ) (st : State noq) (handle now : ℕ) (e : ConnEntry noq)
      → law.work e.conn < turns
      → law.work e.conn < fuel
      → OnEntry now (drain_turns turns fuel st handle now e)
  unfolding drain_turns OnTurn Settles
  turns-rest zero fuel st handle now e long enough = absurd (omega (arith, long))
  turns-rest (suc turns) fuel st handle now e long enough =
      let turn = turn-rest law fuel st handle now e enough in
      elim (Option-cases (drain_turn fuel st handle now e)) [
        | inl n ↦ rw (drain_turns, n) tt
        | inr ((next, f, false), h) ↦ rw (drain_turns, h) (subst (OnTurn law now e.conn) h turn)
        | inr ((next, f, true), h) ↦
            let less : law.work f.conn < law.work e.conn = subst (OnTurn law now e.conn) h turn in
            rw (drain_turns, h)
              (progressed-OnEntry now (drain_turns turns fuel next handle now f) (
                turns-rest turns fuel next handle now f (omega (arith, less, long))
                  (omega (arith, less, enough))))
      ]

  -- What all the connections have left to say.
  unfoldable pub weight : Map ℕ (ConnEntry noq) → ℕ
  weight [] = 0
  weight ((handle, e) ∷ conns) = law.work e.conn + weight conns

  abbrev pub AllAtRest : ℕ → Map ℕ (ConnEntry noq) → Type 0
  AllAtRest now conns = All (λ (c : ℕ × ConnEntry noq). IsAtRest noq now c.1.conn) conns

  abbrev OnConns : ℕ → Option (State noq × Map ℕ (ConnEntry noq) × Bool) → Type 0
  OnConns now none = Unit {0}
  OnConns now (some (last, conns, more)) = AllAtRest now conns

  with_rest-OnConns :
      (now handle : ℕ) (f : ConnEntry noq) (progress : Bool)
      (r : Option (State noq × Map ℕ (ConnEntry noq) × Bool))
      → IsAtRest noq now f.conn
      → OnConns now r
      → OnConns now (with_rest handle f progress r)
  with_rest-OnConns now handle f progress none h k = tt
  with_rest-OnConns now handle f progress (some (last, conns, more)) h k = (
    if_cases (λ (m : ConnEntry noq × Bool). IsAtRest noq now m.0.conn)
        (not f.drained && noq.is_drained f.conn) _ _ (λ t. h) (λ t. h),
    k,
  )

  conns-rest :
      (turns fuel : ℕ) (st : State noq) (now : ℕ) (conns : Map ℕ (ConnEntry noq))
      → weight conns < turns
      → weight conns < fuel
      → OnConns now (drain_conns turns fuel st now conns)
  unfolding drain_conns weight
  conns-rest turns fuel st now [] long enough = tt
  conns-rest turns fuel st now ((handle, e) ∷ conns) long enough =
      let here =
        turns-rest turns fuel st handle now e (omega (arith, long)) (omega (arith, enough)) in
      elim (Option-cases (drain_turns turns fuel st handle now e)) [
        | inl n ↦ rw (drain_conns, n) tt
        | inr ((next, f, progress), h) ↦
            rw (drain_conns, h)
              (with_rest-OnConns now handle f progress (drain_conns turns fuel next now conns)
                (subst (OnEntry now) h here)
                (conns-rest turns fuel next now conns (omega (arith, long))
                  (omega (arith, enough))))
      ]

  put_conns-rest :
      (now : ℕ) (next : State noq) (progress : Bool)
      (r : Option (State noq × Map ℕ (ConnEntry noq) × Bool))
      → put_conns r ≡ some (next, progress)
      → OnConns now r
      → AllAtRest now next.conns
  put_conns-rest now next progress none e k = absurd cc
  put_conns-rest now next progress (some (last, conns, more)) e k =
      let same : ◌≡◌ {A = State noq} (record last { conns = conns }) next = cc e in
      subst (λ (x : State noq). AllAtRest now x.conns) same k

  -- `drain` ends, and drains: with an engine whose connections have finitely much to say, and each
  -- loop allowed one more round than they all have left, on a consistent book, it does not panic, it
  -- keeps the book, and it leaves every connection with no event for the engine, no event for the
  -- application and no transmit, so that none of its loops stopped for want of fuel.
  pub drain_rests :
      (turns fuel : ℕ) (st : State noq) (now : ℕ)
      → IsRouted (book st)
      → weight st.conns < turns
      → weight st.conns < fuel
      → (next : State noq) × (progress : Bool) × (drain turns fuel st now ≡ some (next, progress))
        × (book next ≡ book st)
        × AllAtRest now next.conns
  unfolding drain
  drain_rests turns fuel st now v long enough =
      let (next, progress, ended, same) = drain_total turns fuel st now v in
      (
        next,
        progress,
        ended,
        same,
        put_conns-rest now next progress (drain_conns turns fuel st now st.conns) ended
            (conns-rest turns fuel st now st.conns long enough),
      )
