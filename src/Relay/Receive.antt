-- ===== src/Relay/Receive.antt =====
-- `recv_datagram` of core/src/relay.rs, and the queue that it implements over the websocket.
use polymorph_iroh.Base.{
  ℕ, ◌≡◌, refl, sym, ap, ◌∙◌, ◌⊎◌, inl, inr, ◌||◌, false, none, some, List, [], ◌∷◌, ◌++◌, eqb,
  arith, if◌then◌else◌, length, Bytes, Bool, true, ◌&&◌, Option, is_some, eqb_iff, Bool-cases,
  Option-cases,
}
use mathlib.Core.List.{append_assoc}
use polymorph_iroh.Frames.Varint.{one_byte}
use polymorph_iroh.Frames.Datagrams.{decode_single_lem}
use polymorph_iroh.Frames.{Datagram, datagram_from, split_tag, encode_pong, decode_relay_datagrams}
use polymorph_iroh.Frames.Tag
use polymorph_iroh.Relay.{
  Fault, relay_receive, relay_pong, Received, binary, text, broken, Turn, RelayConn,
}

-- What one turn of the loop does when no datagram is pending: go on, or return an error. `pongs`
-- is what it sends.
pub data Pass : Type 0 where
  go : (queued : List Datagram) (pongs : List Bytes) → Pass
  stop : Fault → Pass

on_ping : Turn → Bytes → Pass
on_ping t payload =
    if eqb (length payload) 8
    then elim t.sent [ none ↦ go [] (encode_pong payload ∷ []) | some e ↦ stop (relay_pong e) ]
    else go [] []

on_datagrams : ℕ → Bytes → Pass
on_datagrams tag payload =
    elim (decode_relay_datagrams payload (eqb tag Tag.relay_to_client_datagram_batch)) [
      | none ↦ go [] []
      | some datagrams ↦ go datagrams []
    ]

on_frame : Turn → ℕ → Bytes → Pass
unfolding on_ping on_datagrams
on_frame t tag payload =
    if eqb tag Tag.relay_to_client_datagram || eqb tag Tag.relay_to_client_datagram_batch
    then on_datagrams tag payload
    else if eqb tag Tag.ping
    then on_ping t payload
    else go [] []

pub on_received : Turn → Received → Pass
unfolding on_frame
on_received t (binary frame) = elim (split_tag frame) [
  | none ↦ go [] []
  | some (tag, payload) ↦ on_frame t tag payload
]
on_received t (text s) = go [] []
on_received t (broken e) = stop (relay_receive e)

-- Any frame at all stamps the connection.
pub stamp : Turn → Received → RelayConn → RelayConn
stamp t (broken e) conn = conn
stamp t (binary frame) conn = record conn { last_inbound = t.now }
stamp t (text s) conn = record conn { last_inbound = t.now }

-- How a call ends on a script, with the turns that it leaves and the pongs that it sent. It is
-- `parked` where the script ends first.
pub data Recv : Type 0 where
  delivered : Datagram → RelayConn → List Turn → List Bytes → Recv
  failed : Fault → RelayConn → List Turn → List Bytes → Recv
  parked : RelayConn → List Bytes → Recv

pub after_pongs : List Bytes → Recv → Recv
after_pongs ps (delivered d conn rest sent) = delivered d conn rest (ps ++ sent)
after_pongs ps (failed e conn rest sent) = failed e conn rest (ps ++ sent)
after_pongs ps (parked conn sent) = parked conn (ps ++ sent)

-- The loop, with the queue of `conn` apart.
pub recv_loop : List Datagram → RelayConn → List Turn → Recv
recv_loop (d ∷ ds) conn ts = delivered d (record conn { pending = ds }) ts []
recv_loop [] conn [] = parked (record conn { pending = [] }) []
recv_loop [] conn (t ∷ ts) = elim (on_received t t.received) [
  | stop e ↦ failed e (record (stamp t t.received conn) { pending = [] }) ts []
  | go queued pongs ↦ after_pongs pongs (recv_loop queued (stamp t t.received conn) ts)
]

pub recv_datagram : RelayConn → List Turn → Recv
unfolding recv_loop
recv_datagram conn ts = recv_loop conn.pending conn ts

-- What the relay's protocol says of the frames, apart from the loop. The datagrams of a frame with
-- one or a batch of them, none where it is malformed.
abbrev or_none : Option (List Datagram) → List Datagram
or_none none = []
or_none (some datagrams) = datagrams

abbrev datagrams_of : ℕ → Bytes → List Datagram
datagrams_of tag payload =
    if eqb tag Tag.relay_to_client_datagram
    then or_none (decode_relay_datagrams payload false)
    else if eqb tag Tag.relay_to_client_datagram_batch
    then or_none (decode_relay_datagrams payload true)
    else []

-- The answer that a frame asks for: a ping of 8 bytes is echoed.
abbrev answers_to : ℕ → Bytes → List Bytes
answers_to tag payload =
    if eqb tag Tag.ping && eqb (length payload) 8 then encode_pong payload ∷ [] else []

abbrev untagged : {A : Type 0} → (ℕ → Bytes → List A) → Option (ℕ × Bytes) → List A
untagged f none = []
untagged f (some (tag, payload)) = f tag payload

-- Whatever has no tag, or is text, brings nothing and asks for nothing.
abbrev read_as : {A : Type 0} → (ℕ → Bytes → List A) → Received → List A
read_as f (binary frame) = untagged f (split_tag frame)
read_as f (text s) = []
read_as f (broken e) = []

abbrev brings : Received → List Datagram
brings received = read_as datagrams_of received

abbrev asks : Received → List Bytes
asks received = read_as answers_to received

-- The wire ends with a read that fails, and with an answer that cannot be sent.
abbrev unanswered : List Bytes → Option Bytes → Bool
unanswered [] sent = false
unanswered (_ ∷ _) sent = is_some sent

abbrev is_end : Turn → Received → Bool
is_end t (broken e) = true
is_end t (text s) = false
is_end t (binary frame) = unanswered (asks (binary frame)) t.sent

-- What the wire brings until it ends: the datagrams of its frames, and the answers that its pings are
-- owed.
abbrev pub inbound : List Turn → List Datagram
inbound [] = []
inbound (t ∷ ts) = if is_end t t.received then [] else brings t.received ++ inbound ts

abbrev pub owed : List Turn → List Bytes
owed [] = []
owed (t ∷ ts) = if is_end t t.received then [] else asks t.received ++ owed ts

-- A call takes the front of the queue `all`, and has paid the pongs `due` up to there; where it
-- delivers nothing there was nothing to deliver.
abbrev pub Takes : List Datagram → List Bytes → Recv → Type 0
Takes all due (delivered d conn rest sent) =
    (all ≡ d ∷ (conn.pending ++ inbound rest)) × (due ≡ sent ++ owed rest)
Takes all due (failed e conn rest sent) = (all ≡ []) × (conn.pending ≡ []) × (due ≡ sent)
Takes all due (parked conn sent) = (all ≡ []) × (conn.pending ≡ []) × (due ≡ sent)

Takes-after_pongs :
    (all : List Datagram) (due pongs : List Bytes) (r : Recv)
    → Takes all due r
    → Takes all (pongs ++ due) (after_pongs pongs r)
unfolding after_pongs
Takes-after_pongs all due pongs (delivered d conn rest sent) h =
    (h.0, ap (◌++◌ pongs) h.1 ∙ sym (append_assoc pongs sent (owed rest)))
Takes-after_pongs all due pongs (failed e conn rest sent) h = (h.0, h.1, ap (◌++◌ pongs) h.2)
Takes-after_pongs all due pongs (parked conn sent) h = (h.0, h.1, ap (◌++◌ pongs) h.2)

-- A pass of the loop, by the protocol.
abbrev Reads : Turn → Received → Pass → Type 0
Reads t received p =
    ((e : Fault) × (p ≡ stop e) × (is_end t received ≡ true))
    ⊎ (p ≡ go (brings received) (asks received)) × (is_end t received ≡ false)

-- The same, of a frame with its tag.
abbrev Tagged : Turn → ℕ → Bytes → Pass → Type 0
Tagged t tag payload p =
    ((e : Fault) × (p ≡ stop e) × (unanswered (answers_to tag payload) t.sent ≡ true))
    ⊎ (p ≡ go (datagrams_of tag payload) (answers_to tag payload))
      × (unanswered (answers_to tag payload) t.sent ≡ false)

decoded :
    (tag : ℕ) (payload : Bytes) (o : Option (List Datagram))
    → decode_relay_datagrams payload (eqb tag Tag.relay_to_client_datagram_batch) ≡ o
    → on_datagrams tag payload ≡ go (or_none o) []
unfolding on_datagrams
decoded tag payload none e = rw (on_datagrams, e) refl
decoded tag payload (some datagrams) e = rw (on_datagrams, e) refl

on_frame-Tagged :
    (t : Turn) (tag : ℕ) (payload : Bytes) → Tagged t tag payload (on_frame t tag payload)
unfolding on_frame on_ping
on_frame-Tagged t tag payload = elim (Bool-cases (eqb tag Tag.relay_to_client_datagram)) [
  | inl e ↦
      let is : tag ≡ Tag.relay_to_client_datagram =
        (eqb_iff tag Tag.relay_to_client_datagram).0 e in
      rw is (inr (decoded Tag.relay_to_client_datagram payload _ refl, refl))
  | inr e ↦ elim (Bool-cases (eqb tag Tag.relay_to_client_datagram_batch)) [
    | inl b ↦
        let is : tag ≡ Tag.relay_to_client_datagram_batch =
          (eqb_iff tag Tag.relay_to_client_datagram_batch).0 b in
        rw is (inr (decoded Tag.relay_to_client_datagram_batch payload _ refl, refl))
    | inr b ↦ elim (Bool-cases (eqb tag Tag.ping)) [
      | inr n ↦ rw (on_frame, e, b, n) (inr (refl, refl))
      | inl p ↦ elim (Bool-cases (eqb (length payload) 8)) [
        | inr n ↦ rw (on_frame, on_ping, e, b, p, n) (inr (refl, refl))
        | inl k ↦ elim (Option-cases t.sent) [
          | inl s ↦ rw (on_frame, on_ping, e, b, p, k, s) (inr (refl, refl))
          | inr (f, s) ↦ rw (on_frame, on_ping, e, b, p, k, s) (inl (_, refl, refl))
        ]
      ]
    ]
  ]
]

on_received-Reads : (t : Turn) (received : Received) → Reads t received (on_received t received)
unfolding on_received
on_received-Reads t (broken e) = inl (_, refl, refl)
on_received-Reads t (text s) = inr (refl, refl)
on_received-Reads t (binary frame) = elim (Option-cases (split_tag frame)) [
  | inl n ↦ rw (on_received, n) (inr (refl, refl))
  | inr ((tag, payload), e) ↦ rw (on_received, e) (on_frame-Tagged t tag payload)
]

recv_loop-Takes :
    (queue : List Datagram) (conn : RelayConn) (ts : List Turn)
    → Takes (queue ++ inbound ts) (owed ts) (recv_loop queue conn ts)
unfolding recv_loop
recv_loop-Takes (d ∷ ds) conn ts = (refl, refl)
recv_loop-Takes [] conn [] = (refl, refl, refl)
recv_loop-Takes [] conn (t ∷ ts) = elim (on_received-Reads t t.received) [
  | inl (e, p, ends) ↦ rw (p, inbound, owed, recv_loop, ends) (refl, refl, refl)
  | inr (p, on) ↦
      rw (p, inbound, owed, recv_loop, on)
        (Takes-after_pongs (brings t.received ++ inbound ts) (owed ts) (asks t.received) _
          (recv_loop-Takes (brings t.received) (stamp t t.received conn) ts))
]

-- On every script a call of `recv_datagram` takes the next datagram of one queue, what was pending
-- before the datagrams of the frames that the wire brings until it ends: none is lost, repeated or
-- reordered across calls, and a frame that is malformed or of another tag is passed over. On the way
-- it has answered each ping of 8 bytes that it passed, in order, with its echo. The wire ends where
-- a read fails or an answer cannot be sent. The call fails or parks on an empty queue only.
pub recv_datagram-Takes :
    (conn : RelayConn) (ts : List Turn)
    → Takes (conn.pending ++ inbound ts) (owed ts) (recv_datagram conn ts)
unfolding recv_datagram
recv_datagram-Takes conn ts = recv_loop-Takes conn.pending conn ts

-- A turn that brings a relayed datagram.
abbrev pub relayed : ℕ → Bytes → Bytes → Turn
relayed now source rest = record {
  now = now;
  received = binary (Tag.relay_to_client_datagram ∷ (source ++ rest));
  sent = none;
}

datagram_received :
    (t : Turn) (source payload : Bytes)
    → length source ≡ 32
    → on_received t (binary (Tag.relay_to_client_datagram ∷ (source ++ (0 ∷ payload))))
      ≡ go (datagram_from source payload ∷ []) []
unfolding on_received on_frame on_datagrams
datagram_received t source payload h =
    rw (on_received, one_byte Tag.relay_to_client_datagram (source ++ (0 ∷ payload)) (omega arith))
      (single (decode_single_lem source h 0 payload))
  where
    single :
        decode_relay_datagrams (source ++ (0 ∷ payload)) false
          ≡ some (datagram_from source payload ∷ [])
        → on_datagrams Tag.relay_to_client_datagram (source ++ (0 ∷ payload))
          ≡ go (datagram_from source payload ∷ []) []
    single e = rw (on_datagrams, e) refl

-- On an idle connection a relayed datagram is delivered at once.
pub recv_datagram-relayed :
    (source payload : Bytes) (now : ℕ) (conn : RelayConn) (ts : List Turn)
    → length source ≡ 32
    → conn.pending ≡ []
    → recv_datagram conn (relayed now source (0 ∷ payload) ∷ ts)
      ≡ delivered
          (datagram_from source payload)
          (record conn { pending = []; last_inbound = now })
          ts
          []
unfolding recv_datagram recv_loop stamp after_pongs
recv_datagram-relayed source payload now conn ts h idle =
    let t = relayed now source (0 ∷ payload) in
    rw (idle, recv_loop, datagram_received t source payload h) refl
