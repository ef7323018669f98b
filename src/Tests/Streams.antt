-- ===== src/Tests/Streams.antt =====
-- Concrete runs for streams and connections.
use polymorph_iroh.Base.{
  ℕ, ◌≤◌, ◌≡◌, ◌≢◌, ◌↔◌, ◌⊎◌, inr, refl, true, false, none, some, List, [], ◌∷◌, ◌++◌, ltb, length,
  take, drop, if_cases, eqb, if◌then◌else◌, Bytes, nat_key, arith,
}
use polymorph_iroh.Base.Maps.{lookup, insert}
use polymorph_iroh.Tests.Toy.{toy, toy_write}
use polymorph_iroh.Noq.{Noq, chunk, fin, bi, WriteOutcome, ReadOutcome}
use polymorph_iroh.Endpoint.{State, ConnEntry, new_state, new_entry, kick_pump}
use polymorph_iroh.Endpoint.Conns.{entry_for}
use polymorph_iroh.Endpoint.Streams.{
  StreamTurn, pump_stream, after_turn, write_turn, do_finish, finish_entry, on_finished, again,
  over, on_written, write_once, write_pass, put_conn, write_entry, write_check, write_all, finish,
  new_send,
}
use polymorph_iroh.Endpoint.Streams.Reads.{
  read_check, RecvStreamRes, new_recv, begin_read, read_by, end_read, pump_read, after_piece,
  read_some, on_read,
}
use polymorph_iroh.Endpoint.Streams.Moved.{SendLaw, Taken}
use polymorph_iroh.Endpoint.Streams.Seen.{seen_by}
use polymorph_iroh.Endpoint.Streams.Sent.{sent_by, write_all_delivers, write_all_partial}
use polymorph_iroh.Endpoint.Streams.Delivered.{pump_stream_delivers}
use polymorph_iroh.Endpoint.Streams.Answered.{RecvLaw, Handed, handed_by}
use polymorph_iroh.Endpoint.Streams.Received.{pump_read_delivers, Reached}
use polymorph_iroh.Endpoint.Streams.Claims
use polymorph_iroh.Endpoint.Streams.Claims.{one_writer}
use polymorph_iroh.Endpoint.Streams.Latch
use polymorph_iroh.Endpoint.Streams.Latch.{end_latched}
use polymorph_iroh.Endpoint.Streams.Ends.{clean_end_iff}
use polymorph_iroh.Endpoint.Connection.{current_path, watch, is_over}
use polymorph_iroh.Endpoint.Connection.Paths.{IsLive, Alternates, final, Refused, watch_faithful}
use polymorph_iroh.Endpoint.Connection.Isolated.{Isolated, handles-Isolated}

abbrev noq : Noq
noq = toy none

toy_write-Taken :
    (conn bytes : Bytes) → Taken conn (toy_write conn bytes).0 bytes (toy_write conn bytes).1
unfolding toy_write
toy_write-Taken conn bytes =
    if_cases (λ (r : Bytes × WriteOutcome). Taken conn r.0 bytes r.1) (ltb (length conn) 9) _ _
      (λ t. (omega arith, refl)) (λ t. refl)

abbrev law : SendLaw noq
law = record { sent = λ conn id. conn; write_sends = λ conn id bytes. toy_write-Taken conn bytes }

-- One connection at handle 3 under epoch 1.
abbrev live : State noq
live = record (new_state noq tt true) {
  conns = (3, new_entry [] none false 1) ∷ [];
  next_conn_epoch = 2;
}

abbrev six : Bytes
six = 1 ∷ 2 ∷ 3 ∷ 4 ∷ 5 ∷ 6 ∷ []

six_written : (write_all ((λ st. st) ∷ []) live 3 1 4 six 0).2 ≡ over (inr tt)
unfolding write_all write_check write_entry write_pass write_once on_written toy_write entry_for
    lookup new_entry
six_written = refl

write_all_delivers_example :
    (before : Bytes) × (sent_by law live 3 1 4 ≡ some before)
    × (sent_by law (write_all ((λ st. st) ∷ []) live 3 1 4 six 0).0 3 1 4 ≡ some (before ++ six))
write_all_delivers_example =
    write_all_delivers law ((λ st. st) ∷ []) live 3 1 4 six (λ st s h. h, tt) six_written

abbrev fourteen : Bytes
fourteen = six ++ (7 ∷ 8 ∷ six)

fourteen_sent :
    sent_by law (write_all ((λ st. st) ∷ []) live 3 1 4 fourteen 0).0 3 1 4
    ≡ some (take 12 fourteen)
unfolding seen_by write_all write_check write_entry write_pass write_once on_written toy_write
    entry_for lookup insert put_conn kick_pump new_entry
fourteen_sent = refl

write_all_partial_example :
    ((write_all ((λ st. st) ∷ []) live 3 1 4 fourteen 0).2 ≢ again)
    × ((write_all ((λ st. st) ∷ []) live 3 1 4 fourteen 0).1 ≤ length fourteen)
    × ((before : Bytes) × (sent_by law live 3 1 4 ≡ some before)
        × (take 12 fourteen ++ drop (write_all ((λ st. st) ∷ []) live 3 1 4 fourteen 0).1 fourteen
            ≡ before ++ fourteen))
write_all_partial_example =
    write_all_partial law ((λ st. st) ∷ []) live 3 1 4 fourteen (take 12 fourteen) (λ st s h. h, tt)
      fourteen_sent

-- The reader gives four bytes, none, and five with its end.
abbrev turns : List (StreamTurn × (State noq → State noq) × List (State noq → State noq))
turns =
    (record { buf = 1 ∷ 2 ∷ 3 ∷ 4 ∷ []; is_last = false }, (λ st. st), (λ st. st) ∷ [])
    ∷ (record { buf = []; is_last = false }, (λ st. st), [])
    ∷ (record { buf = 5 ∷ 6 ∷ 7 ∷ 8 ∷ 9 ∷ []; is_last = true }, (λ st. st), [])
    ∷ []

turns_over : (pump_stream turns live (new_send 3 1 4)).2 ≡ some (inr tt)
unfolding pump_stream after_turn write_turn write_all write_check write_entry write_pass write_once
    on_written toy_write entry_for lookup insert put_conn kick_pump new_entry do_finish finish_entry
    on_finished
turns_over = refl

pump_stream_delivers_example :
    (before : Bytes) × (sent_by law live 3 1 4 ≡ some before)
    × (sent_by law (pump_stream turns live (new_send 3 1 4)).0 3 1 4
        ≡ some (before ++ (1 ∷ 2 ∷ 3 ∷ 4 ∷ 5 ∷ 6 ∷ 7 ∷ 8 ∷ 9 ∷ [])))
pump_stream_delivers_example =
    pump_stream_delivers law turns live (new_send 3 1 4) (λ conn id. refl)
      (((λ st s h. h), ((λ st s h. h), tt)), (((λ st s h. h), tt), (((λ st s h. h), tt), tt)))
      turns_over

abbrev writes : List (Claims.Call noq)
writes = Claims.write_call ∷ Claims.write_call ∷ Claims.finish_call live ∷ []

one_writer_example :
    ((Claims.play_all writes (new_send 3 1 4, 0)).1 ≤ 1)
    × ((Claims.play_all writes (new_send 3 1 4, 0)).1 ≡ 1
        → ((finish live (Claims.play_all writes (new_send 3 1 4, 0)).0).0 ≡ live)
          × ((finish live (Claims.play_all writes (new_send 3 1 4, 0)).0).1
              ≡ (Claims.play_all writes (new_send 3 1 4, 0)).0))
one_writer_example = one_writer writes 3 1 4 live

abbrev reads : List Latch.Call
reads = Latch.read_call 10 ∷ []

abbrev finale : RecvStreamRes × ℕ
finale = Latch.play (Latch.answered (inr none)) (Latch.play_all reads (new_recv 3 1 4, 0))

reads_wait : (Latch.play_all reads (new_recv 3 1 4, 0)).1 ≡ 1
unfolding Latch.play_all Latch.play begin_read read_by
reads_wait = refl

reads_free : (Latch.play_all (Latch.read_call 5 ∷ []) finale).0.streaming ≡ false
unfolding Latch.play_all Latch.play begin_read read_by end_read
reads_free = refl

end_latched_example :
    begin_read (Latch.play_all (Latch.read_call 5 ∷ []) finale).0 7
    ≡ ((Latch.play_all (Latch.read_call 5 ∷ []) finale).0, some (inr none))
end_latched_example =
    end_latched reads (Latch.read_call 5 ∷ []) 3 1 4 7 (inr tt) reads_wait reads_free

clean_end_iff_example : ((read_check live 3 1 4 100).1 ≡ some (inr none)) ↔ (
    (e : ConnEntry noq) × (entry_for live 3 1 ≡ some e)
    × (((noq.read e.conn 4 100).1 ≡ fin)
        ⊎ ((noq.read e.conn 4 100).1 ≡ ReadOutcome.closed_stream) × (e.error ≡ none)))
clean_end_iff_example = clean_end_iff live 3 1 4 100

live-IsLive : IsLive 3 1 live
unfolding entry_for lookup is_over new_entry
live-IsLive = (new_entry [] none false 1, refl, refl)

watch_faithful_example :
    (final none (watch 3 1 none ((live, true) ∷ (live, true) ∷ [])) ≡ some (current_path live 3 1))
    × Alternates none (watch 3 1 none ((live, true) ∷ (live, true) ∷ []))
    × Refused 3 1 none ((live, true) ∷ []) live ((live, true) ∷ [])
watch_faithful_example =
    watch_faithful ((live, true) ∷ []) ((live, true) ∷ []) live 3 1 ((live-IsLive, refl), tt)
      live-IsLive

-- An engine that hands out six bytes, two at a time; a connection is what it has handed out.
unfoldable toy_read : Bytes → Bytes × ReadOutcome
toy_read conn =
    if eqb (length (drop (length conn) six)) 0
    then (conn, fin)
    else (conn ++ take 2 (drop (length conn) six), chunk (take 2 (drop (length conn) six)))

abbrev source : Noq
source = record noq { read = λ conn id max. toy_read conn }

toy_read-Handed : (conn : Bytes) → Handed conn (toy_read conn).0 (toy_read conn).1
unfolding toy_read
toy_read-Handed conn =
    if_cases (λ (r : Bytes × ReadOutcome). Handed conn r.0 r.1)
      (eqb (length (drop (length conn) six)) 0) _ _ (λ t. refl) (λ t. refl)

abbrev read_law : RecvLaw source
read_law = record { handed = λ conn id. conn; read_hands = λ conn id max. toy_read-Handed conn }

abbrev sourced : State source
sourced = record (new_state source tt true) {
  conns = (3, new_entry [] none false 1) ∷ [];
  next_conn_epoch = 2;
}

-- A consumer that takes two bytes, and then one of two.
abbrev takes : List (List (State source → State source) × ℕ × (State source → State source))
takes = ((λ st. st) ∷ [], 2, λ st. st) ∷ ([], 1, λ st. st) ∷ []

takes_run :
    (handed_by read_law (pump_read takes sourced (new_recv 3 1 4)).0 3 1 4 ≡ some (take 4 six))
    × ((pump_read takes sourced (new_recv 3 1 4)).1 ≡ take 3 six)
unfolding pump_read after_piece read_some read_check on_read toy_read entry_for lookup insert
    put_conn kick_pump new_entry seen_by
takes_run = (refl, refl)

pump_read_delivers_example :
    (before : Bytes) × (handed_by read_law sourced 3 1 4 ≡ some before)
    × Reached before
        (take 4 six)
        (pump_read takes sourced (new_recv 3 1 4)).1
        (pump_read takes sourced (new_recv 3 1 4)).2
pump_read_delivers_example =
    pump_read_delivers read_law takes sourced (new_recv 3 1 4) (take 4 six)
      ((((λ st s h. h), tt), (λ st s h. h)), ((tt, (λ st s h. h)), tt)) takes_run.0

handles-Isolated_example :
    Isolated live
      (record { handle = 3; epoch = 1; watching = false })
      (new_send 3 1 4)
      (new_recv 3 1 4)
      bi
      false
      six
      10
      7
      0
      100
      []
handles-Isolated_example =
    handles-Isolated live (record { handle = 3; epoch = 1; watching = false }) (new_send 3 1 4)
      (new_recv 3 1 4) bi false six 10 7 0 100 []
