-- ===== src/Lib.antt =====
-- The endpoint component of polymorph-iroh: QUIC connections by endpoint id over relays, direct
-- UDP and WebRTC channels. The program is single-threaded and asynchronous: one pump task owns all
-- I/O, and the methods of its resources change a shared state and kick the pump. So an operation
-- here is a function on that state, and a call that waits is the check that it makes each time it
-- is woken.
--
-- core/src/relay_frames.rs is in Frames, with its tags in Frames/Tag: varints, the authentication
-- frame, datagrams and batches. core/src/relay.rs is in Relay (the URL, the probe),
-- Relay/Handshake (`RelayConn::connect`), Relay/Receive (`recv_datagram`) and Relay/Send (the
-- sends). What the websocket delivers is a script, a list of turns. core/src/crypto/sign.rs is in
-- Identity, with the checks of an injected pair in Identity/Injected and the key that an identity
-- presents in Identity/Signing; endpoint/src/identity.rs is in Identity/Resource.
-- endpoint/src/udp.rs is in Net, as far as it converts addresses, and else in Udp.
-- endpoint/src/endpoint_impl.rs is in Backoff (the redial's delays) and in Endpoint and its
-- children: Endpoint has `State`, and Routes, Signaling, Conns, Drain, Dial, Streams, Connection,
-- Relays and Pump have the operations of these names. Pump has what the pump does at each of its
-- awaits, and Pump/Loop its loop as a step function with a phase, between whose steps the other
-- tasks run. The options and `bind` are in Bind. endpoint/src/webrtc.rs is in Endpoint/Dance:
-- Dance/Types has the signals and what a dance calls, Dance the pieces that both sides share, and
-- Dance/Sides the offerer and the answerer; Dance/Wire is the channel that a dance leaves, as a
-- carrier of datagrams. Signaling has the side of the endpoint's state. A dance is a function over
-- a scene, the state with the peer connection and the number of waits so far; at each wait the
-- other tasks do to the state what they like. Below each, the modules that are named for a fact
-- prove it.
--
-- What is not in this repository is a parameter. Noq is the interface of the QUIC engine, which
-- all of Endpoint takes: each call gives the engine's new value with what it returns. `SendLaw` is
-- what is relied on of its `write`, `RecvLaw` of its `read`. The identity's signature, blake3,
-- postcard and the reading of UTF-8 are fields of a record in Relay/Handshake or arguments. The
-- webcrypto component and dalek are the record Crypto of Identity, the sockets of the host the
-- record Sockets of Udp, the peer connection, the JSON codec and the clock of a dance the record
-- World of Dance/Types, and what `bind` configures the record BindEnv of Bind. Clocks are readings
-- in nanoseconds, and random draws are arguments. A relay connection, a channel, a waker is a
-- number, the pointer to it; what the code asks of the world (to wake, to close, to spawn) is the
-- list `effects`.
--
-- Counters have the width of the source, written as a remainder: 32 bits for standins, channels
-- and relay keys, 64 bits for epochs and probes. Theorems that need room in one say so. The loop
-- of `write_all` has the length of its bytes and one as fuel, since each turn that goes on has
-- moved; the loop over the chunks of a batch has the length of the batch. The loops of `drain` go
-- on as long as the engine has something to say; what its connections have left to say, by
-- `WorkLaw`, is fuel enough. The loops of a dance wait for a peer and have fuel too; one whose
-- fuel ends is parked, which is an outcome of its own, and the theorems on `next_signal`'s wait
-- and on `consume_signaling` give the fuel that is enough.
--
-- Not modelled: the TLS configuration, which only passes arguments on, and which of the pump's
-- ready futures ends first, for which the theorems quantify over all orders. The demos, hosts,
-- experiments and tools of the repository are left out.
--
-- Tests holds concrete runs, on the engine of Tests/Toy and on small hosts of their own.
pub mod Base
pub mod Frames
pub mod Relay
pub mod Backoff
pub mod Identity
pub mod Udp
pub mod Net
pub mod Noq
pub mod Endpoint
pub mod Tests
