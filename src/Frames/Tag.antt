-- ===== src/Frames/Tag.antt =====
-- `pub mod tag` of core/src/relay_frames.rs: the frame type tags.
use polymorph_iroh.Base.{ℕ}

abbrev pub server_challenge : ℕ
server_challenge = 0

abbrev pub client_auth : ℕ
client_auth = 1

abbrev pub server_confirms_auth : ℕ
server_confirms_auth = 2

abbrev pub server_denies_auth : ℕ
server_denies_auth = 3

abbrev pub client_to_relay_datagram : ℕ
client_to_relay_datagram = 4

abbrev pub client_to_relay_datagram_batch : ℕ
client_to_relay_datagram_batch = 5

abbrev pub relay_to_client_datagram : ℕ
relay_to_client_datagram = 6

abbrev pub relay_to_client_datagram_batch : ℕ
relay_to_client_datagram_batch = 7

abbrev pub endpoint_gone : ℕ
endpoint_gone = 8

abbrev pub ping : ℕ
ping = 9

abbrev pub pong : ℕ
pong = 10

abbrev pub health : ℕ
health = 11

abbrev pub restarting : ℕ
restarting = 12

abbrev pub status : ℕ
status = 13
