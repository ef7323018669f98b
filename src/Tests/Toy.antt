-- ===== src/Tests/Toy.antt =====
-- The engine of the concrete runs.
use polymorph_iroh.Base.{
  min, false, Option, none, some, [], ◌++◌, inr, ltb, length, take, if◌then◌else◌, Bytes,
}
use polymorph_iroh.Noq.{WriteOutcome, written, finished, fin, queued, Noq, new_connection, accepted}

unfoldable pub toy_write : Bytes → Bytes → Bytes × WriteOutcome
toy_write conn bytes =
    if ltb (length conn) 9
    then (conn ++ take (min 4 (length bytes)) bytes, written (min 4 (length bytes)))
    else (conn, WriteOutcome.blocked)

-- An engine that takes every datagram for a new connection at handle 3; its peers show the
-- certificate that it is made with. A connection is the bytes written to it, whatever the stream, at
-- most four at a time and twelve in all.
abbrev pub toy : Option Bytes → Noq
toy certificate = record {
  Engine = Unit {0};
  Conn = Bytes;
  ConnEvent = Unit {0};
  EngineEvent = Unit {0};
  Incoming = Unit {0};
  Config = Unit {0};
  handle = λ engine now addr payload. (tt, some (new_connection tt));
  refuse = λ engine incoming. (tt, []);
  accept = λ engine incoming now. (tt, accepted 3 []);
  connect = λ engine now config addr. (tt, inr (3, []));
  handle_event = λ engine handle event. (tt, none);
  conn_event = λ conn event. conn;
  poll_endpoint_events = λ conn. none;
  poll = λ conn. none;
  poll_transmit = λ conn now. none;
  is_drained = λ conn. false;
  poll_timeout = λ conn. none;
  handle_timeout = λ conn now. conn;
  close = λ conn now code reason. conn;
  network_path = λ conn. none;
  handshake_data = λ conn. none;
  peer_certificate = λ conn. certificate;
  open_stream = λ conn dir. (conn, some 4);
  write = λ conn id bytes. toy_write conn bytes;
  finish = λ conn id. (conn, finished);
  reset = λ conn id code. conn;
  read = λ conn id max. (conn, fin);
  stop = λ conn id code. conn;
  max_datagram_size = λ conn. some 1200;
  send_datagram = λ conn bytes. (conn, queued);
  recv_datagram = λ conn. (conn, none);
  accept_bi = λ conn. ([], conn);
  accept_uni = λ conn. ([], conn);
  endpoint_id_from_spki = λ spki. some spki;
  from_utf8_lossy = λ bytes. bytes;
}
