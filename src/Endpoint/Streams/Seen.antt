-- ===== src/Endpoint/Streams/Seen.antt =====
-- What an observation of a stream gives through the endpoint: of the connection that its handle and
-- its epoch name.
use polymorph_iroh.Base.{ℕ, ◌≡◌, refl, Option, none, some, Bytes, nat_key}
use polymorph_iroh.Base.Maps.{lookup-insert_self}
use polymorph_iroh.Noq.{Noq}
use polymorph_iroh.Endpoint.{State, ConnEntry, kick_pump}
use polymorph_iroh.Endpoint.Conns.{entry_for}
use polymorph_iroh.Endpoint.Conns.Slots.{entry_for_iff}
use polymorph_iroh.Endpoint.Streams.{put_conn}

module _ {noq : Noq} (view : noq.Conn → ℕ → Bytes) where
  unfoldable pub seen_by : State noq → ℕ → ℕ → ℕ → Option Bytes
  seen_by st handle epoch id = elim (entry_for st handle epoch) [
    | none ↦ none
    | some e ↦ some (view e.conn id)
  ]

  -- What is seen after such a function was seen before it; it may drop the connection.
  abbrev pub Spares : ℕ → ℕ → ℕ → (State noq → State noq) → Type 0
  Spares handle epoch id f =
      (st : State noq) (s : Bytes)
      → seen_by (f st) handle epoch id ≡ some s
      → seen_by st handle epoch id ≡ some s

  pub entry-seen_by :
      (st : State noq) (handle epoch id : ℕ) (e : ConnEntry noq)
      → entry_for st handle epoch ≡ some e
      → seen_by st handle epoch id ≡ some (view e.conn id)
  unfolding seen_by
  entry-seen_by st handle epoch id e h = rw (seen_by, h) refl

  pub put_conn-seen_by :
      (st : State noq) (handle epoch id : ℕ) (e : ConnEntry noq) (conn : noq.Conn)
      → entry_for st handle epoch ≡ some e
      → seen_by (put_conn st handle e conn) handle epoch id ≡ some (view conn id)
  unfolding put_conn seen_by
  put_conn-seen_by st handle epoch id e conn h =
      let (at, same) = (entry_for_iff st handle epoch e).0 h in
      let after = record e { conn = conn } in
      let there = lookup-insert_self handle after st.conns in
      entry-seen_by (put_conn st handle e conn) handle epoch id after
        ((entry_for_iff (put_conn st handle e conn) handle epoch after).1 (there, same))

  pub kick_pump-seen_by :
      (st : State noq) (handle epoch id : ℕ)
      → seen_by (kick_pump st) handle epoch id ≡ seen_by st handle epoch id
  unfolding seen_by kick_pump entry_for
  kick_pump-seen_by st handle epoch id = refl
