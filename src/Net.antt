-- ===== src/Net.antt =====
-- Socket addresses: those of the standard library and of `wasi:sockets`, the conversions of
-- endpoint/src/udp.rs, and the standin addresses of endpoint/src/endpoint_impl.rs.
pub mod Convert
use polymorph_iroh.Base.{
  ℕ, ◌+◌, ◌/◌, ◌%◌, ◌^◌, ◌<◌, ◌≡◌, refl, ◌↔◌, Bool, true, false, ◌&&◌, List, [], ◌∷◌, Bytes, eqb,
  eqb_iff, bytes_beq, bytes_beq_iff, Key, arith, ap,
}

-- The parts of an address are lists of octets or of 16-bit segments.
pub data SocketAddr : Type 0 where
  v4 : (octets : List ℕ) (port : ℕ) → SocketAddr
  v6 : (segments : List ℕ) (port flow_info scope_id : ℕ) → SocketAddr

pub data IpSocketAddress : Type 0 where
  ipv4 : (port : ℕ) (address : List ℕ) → IpSocketAddress
  ipv6 : (port flow_info : ℕ) (address : List ℕ) (scope_id : ℕ) → IpSocketAddress

pub to_wasi : SocketAddr → IpSocketAddress
to_wasi (v4 octets port) = ipv4 port octets
to_wasi (v6 segments port flow_info scope_id) = ipv6 port 0 segments 0

pub from_wasi : IpSocketAddress → SocketAddr
from_wasi (ipv4 port address) = v4 address port
from_wasi (ipv6 port flow_info address scope_id) = v6 address port 0 0

unfoldable pub addr_beq : SocketAddr → SocketAddr → Bool
addr_beq (v4 a p) (v4 b q) = bytes_beq a b && eqb p q
addr_beq (v4 a p) (v6 b q f s) = false
addr_beq (v6 a p f s) (v4 b q) = false
addr_beq (v6 a p f s) (v6 b q g t) = bytes_beq a b && (eqb p q && (eqb f g && eqb s t))

pub addr_beq_iff : (a b : SocketAddr) → (addr_beq a b ≡ true) ↔ (a ≡ b)
unfolding addr_beq
addr_beq_iff (v4 a p) (v4 b q) = ground (arith, bytes_beq_iff a b)
addr_beq_iff (v4 a p) (v6 b q f s) = ground arith
addr_beq_iff (v6 a p f s) (v4 b q) = ground arith
addr_beq_iff (v6 a p f s) (v6 b q g t) = ground (arith, bytes_beq_iff a b)

instance abbrev pub addr_key : Key SocketAddr
addr_key = record { same = addr_beq; same_iff = addr_beq_iff }

-- The standin address number `host` under the IPv6 documentation prefix.
unfoldable pub doc_prefix_addr : ℕ → ℕ → SocketAddr
doc_prefix_addr space host =
    v6 (0x2001 ∷ 0xdb8 ∷ space ∷ 0 ∷ 0 ∷ 0 ∷ (host / 2 ^ 16 % 2 ^ 16) ∷ (host % 2 ^ 16) ∷ []) 4433 0
      0

-- Two standins of one space with different numbers, both below 2^32, are different addresses.
pub doc_prefix_addr_injective :
    (space host other : ℕ)
    → host < 2 ^ 32
    → other < 2 ^ 32
    → doc_prefix_addr space host ≡ doc_prefix_addr space other
    → host ≡ other
unfolding doc_prefix_addr
doc_prefix_addr_injective space host other h k e =
    let high : host / 2 ^ 16 % 2 ^ 16 ≡ other / 2 ^ 16 % 2 ^ 16 = cc e in
    let low : host % 2 ^ 16 ≡ other % 2 ^ 16 = cc e in omega arith
