-- ===== src/Endpoint/Signaling/Inbox.antt =====
-- Sessions and inboxes, under `handle_signal` of endpoint/src/endpoint_impl.rs.
use polymorph_iroh.Base.{
  ℕ, ◌≤◌, ◌<◌, ◌≡◌, refl, ap, ◌∙◌, ◌≢◌, ◌⊎◌, inl, inr, false, not, ◌||◌, none, some, List, [], ◌∷◌,
  ◌++◌, Bytes, bytes_key, ltb, length, length-append, if◌then◌else◌, arith, lt→ltb, Bool-cases,
  Option,
}
use polymorph_iroh.Base.Maps.{Map, lookup, insert, contains, lookup-insert_self}
use mathlib.Core.List.{map, append-nil}
use polymorph_iroh.Noq.{Noq}
use polymorph_iroh.Endpoint.{State, spawn_answer, wake, wake_waiters}
use polymorph_iroh.Endpoint.Signaling.{
  inbox_cap, or_empty, pop_front, pop_signal_inbox, handle_signal,
}

-- No peer has more unread signals than the cap.
abbrev pub IsBounded : Map Bytes (List Bytes) → Type 0
IsBounded inboxes =
    (peer : Bytes) (inbox : List Bytes)
    → lookup peer inboxes ≡ some inbox
    → length inbox ≤ inbox_cap

pushed :
    (inbox : List Bytes) (payload first : Bytes) (unread : List Bytes)
    → inbox ++ (payload ∷ []) ≡ first ∷ unread
    → length unread < inbox_cap
    → (if ltb (length inbox) inbox_cap then inbox ++ (payload ∷ []) else inbox) ≡ first ∷ unread
pushed inbox payload first unread e room =
    let sizes : length (inbox ++ (payload ∷ [])) ≡ length (first ∷ unread) = ap length e in
    let fits : length inbox < inbox_cap =
      omega (arith, sizes, length-append inbox (payload ∷ [])) in
    rw (lt→ltb (length inbox) inbox_cap fits) e

room :
    (inbox : List Bytes) (payload : Bytes) (found : Option (List Bytes))
    → found ≡ some (if ltb (length inbox) inbox_cap then inbox ++ (payload ∷ []) else inbox)
    → (length inbox < inbox_cap) × (found ≡ some (inbox ++ (payload ∷ [])))
      ⊎ (inbox_cap ≤ length inbox) × (found ≡ some inbox)
room inbox payload found e = elim (Bool-cases (ltb (length inbox) inbox_cap)) [
  | inl t ↦ inl (ground arith, e ∙ rw t refl)
  | inr t ↦ inr (ground arith, e ∙ rw t refl)
]

module _ {noq : Noq} where
  handle_signal_filed :
      (st : State noq) (via : ℕ) (source payload : Bytes)
      → (not st.webrtc_enabled || st.is_closed) ≡ false
      → let next = handle_signal st via source payload in
        let inbox = or_empty (lookup source st.signal_inboxes) in
        (next.signal_inboxes
          ≡ insert source
              (if ltb (length inbox) inbox_cap then inbox ++ (payload ∷ []) else inbox)
              st.signal_inboxes)
        × (next.signaling ≡ (
            if contains source st.signaling then st.signaling else insert source via st.signaling))
        × (next.effects
            ≡ (st.effects ++ map wake st.waiters)
              ++ (if contains source st.signaling then [] else (spawn_answer source ∷ [])))
        × (next.waiters ≡ [])
  unfolding handle_signal wake_waiters
  handle_signal_filed st via source payload h = elim (Bool-cases (contains source st.signaling)) [
    | inl e ↦ (
      ground arith,
      ground arith,
      ground (arith, append-nil (st.effects ++ map wake st.waiters)),
      ground arith,
    )
    | inr e ↦ (ground arith, ground arith, ground arith, ground arith)
  ]

  -- Everything but the inboxes, the sessions, the waiters and the effects is as it was.
  abbrev pub Spares : State noq → State noq → Type 0
  Spares st next = next ≡ record st {
    signal_inboxes = next.signal_inboxes;
    signaling = next.signaling;
    waiters = next.waiters;
    effects = next.effects;
  }

  -- What a signal does to its sender's inbox and session, where signals are taken: it is filed
  -- behind the unread ones if there is room and dropped if not, every waiter is woken, and a sender
  -- without a session gets one through the relay that brought the signal, and an answerer.
  abbrev pub Filed : State noq → ℕ → Bytes → Bytes → State noq → Type 0
  Filed st via source payload next =
      let inbox = or_empty (lookup source st.signal_inboxes) in
      let woken = st.effects ++ map wake st.waiters in
      ((length inbox < inbox_cap)
          × (lookup source next.signal_inboxes ≡ some (inbox ++ (payload ∷ [])))
        ⊎ (inbox_cap ≤ length inbox) × (lookup source next.signal_inboxes ≡ some inbox))
      × ((lookup source st.signaling ≡ none)
            × (lookup source next.signaling ≡ some via)
            × (next.effects ≡ woken ++ (spawn_answer source ∷ []))
          ⊎ (lookup source next.signaling ≡ lookup source st.signaling) × (next.effects ≡ woken))
      × (next.waiters ≡ [])

  -- What it leaves alone.
  abbrev pub Apart : State noq → Bytes → State noq → Type 0
  Apart st source next =
      Spares st next
      × ((other : Bytes)
          → source ≢ other
          → (lookup other next.signal_inboxes ≡ lookup other st.signal_inboxes)
            × (lookup other next.signaling ≡ lookup other st.signaling))

  pub pop_first :
      (st : State noq) (peer first : Bytes) (unread : List Bytes)
      → lookup peer st.signal_inboxes ≡ some (first ∷ unread)
      → pop_signal_inbox st peer
        ≡ (record st { signal_inboxes = insert peer unread st.signal_inboxes }, some first)
  unfolding pop_signal_inbox pop_front
  pop_first st peer first unread e = rw (pop_signal_inbox, e) refl

  pop_lem :
      (st : State noq) (peer first : Bytes) (unread : List Bytes)
      → lookup peer st.signal_inboxes ≡ some (first ∷ unread)
      → ((pop_signal_inbox st peer).1 ≡ some first)
        × (lookup peer (pop_signal_inbox st peer).0.signal_inboxes ≡ some unread)
  unfolding pop_signal_inbox
  pop_lem st peer first unread e =
      rw (e, pop_signal_inbox) (refl, lookup-insert_self peer unread st.signal_inboxes)

  -- A signal is read as it was filed: while the inbox has room, popping after it gives the oldest
  -- signal, and the rest is what was unread with the new signal at its end.
  pop-handle_signal :
      (st : State noq) (via : ℕ) (source payload first : Bytes) (unread : List Bytes)
      → (not st.webrtc_enabled || st.is_closed) ≡ false
      → or_empty (lookup source st.signal_inboxes) ++ (payload ∷ []) ≡ first ∷ unread
      → length unread < inbox_cap
      → let (next, read) = pop_signal_inbox (handle_signal st via source payload) source in
        (read ≡ some first) × (lookup source next.signal_inboxes ≡ some unread)
  pop-handle_signal st via source payload first unread h e room =
      let inbox = or_empty (lookup source st.signal_inboxes) in
      let filed = (handle_signal_filed st via source payload h).0 in
      pop_lem (handle_signal st via source payload) source first unread (
        ap (lookup source) filed
        ∙ lookup-insert_self source _ st.signal_inboxes
        ∙ ap some (pushed inbox payload first unread e room))
