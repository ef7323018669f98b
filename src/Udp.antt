-- ===== src/Udp.antt =====
-- endpoint/src/udp.rs: the UDP socket of an endpoint. The socket of `wasi:sockets` and the parser of
-- addresses are parameters; a call gives the socket's new value, or an error code.
use polymorph_iroh.Base.{
  ℕ, ◌≡◌, ◌↔◌, ◌⊎◌, inl, inr, refl, ap, sym, ◌∙◌, Option, none, some, [], ◌++◌, Bytes, codes,
}
use polymorph_iroh.Net.{SocketAddr, v4, v6, IpSocketAddress, to_wasi, from_wasi}
use polymorph_iroh.Net.Convert.{IsUnscoped, to_wasi-from_wasi}
use polymorph_iroh.Endpoint.{Error, not_supported, invalid_argument}

-- `ErrorCode`, as far as the code tells its cases apart.
pub data ErrorCode : Type 0 where
  not_supported_code : ErrorCode
  other_code : ℕ → ErrorCode

pub data IpAddressFamily : Type 0 where
  ipv4_family ipv6_family : IpAddressFamily

-- `quoted` is the debug text of a string, and `debug` that of a code.
pub record Sockets : Type 1 where
  pub Socket : Type 0
  pub create : IpAddressFamily → ErrorCode ⊎ Socket
  pub bind : Socket → IpSocketAddress → ErrorCode ⊎ Socket
  pub get_local_address : Socket → ErrorCode ⊎ IpSocketAddress
  pub send : Socket → Bytes → Option IpSocketAddress → Socket × Option ErrorCode
  pub receive : Socket → Socket × (ErrorCode ⊎ (Bytes × IpSocketAddress))
  pub parse : Bytes → Bytes ⊎ SocketAddr
  pub quoted : Bytes → Bytes
  pub debug : ErrorCode → Bytes

pub record UdpWire (u : Sockets) : Type 0 where
  pub socket : u.Socket
  pub local : SocketAddr

pub family_of : SocketAddr → IpAddressFamily
family_of (v4 octets port) = ipv4_family
family_of (v6 segments port flow_info scope_id) = ipv6_family

module _ (u : Sockets) where
  pub bind_error : Bytes → ErrorCode → Error
  bind_error what not_supported_code =
      not_supported (codes "this deployment provides no UDP socket")
  bind_error what (other_code n) = invalid_argument (what ++ codes ": " ++ u.debug (other_code n))

  -- A chain of fallible steps, each with its error.
  abbrev and_then : {A B E : Type 0} → (E → Error) → E ⊎ A → (A → Error ⊎ B) → Error ⊎ B
  and_then f (inl e) go = inl (f e)
  and_then f (inr a) go = go a

  abbrev pub wire_at : u.Socket → IpSocketAddress → UdpWire u
  wire_at socket local = record { socket = socket; local = from_wasi local }

  unfoldable pub bind_at : SocketAddr → Error ⊎ UdpWire u
  unfolding family_of bind_error
  bind_at addr = and_then (bind_error (codes "udp create")) (u.create (family_of addr)) (λ socket.
      and_then (bind_error (codes "udp bind")) (u.bind socket (to_wasi addr)) (λ bound.
        and_then (bind_error (codes "udp local address")) (u.get_local_address bound)
          (λ local. inr (wire_at bound local))))

  unfoldable pub bind : Bytes → Error ⊎ UdpWire u
  unfolding bind_at
  bind bind_addr =
      and_then
        (λ e. invalid_argument (codes "udp bind address " ++ u.quoted bind_addr ++ codes ": " ++ e))
        (u.parse bind_addr) bind_at

  abbrev pub local_addr : UdpWire u → SocketAddr
  local_addr wire = wire.local

  -- The failure's text, if the send fails.
  abbrev send_failure : Option ErrorCode → Option Bytes
  send_failure none = none
  send_failure (some e) = some (codes "udp send: " ++ u.debug e)

  pub send : UdpWire u → SocketAddr → Bytes → UdpWire u × Option Bytes
  send wire remote payload =
      let (socket, failed) = u.send wire.socket payload (some (to_wasi remote)) in
      (record wire { socket = socket }, send_failure failed)

  abbrev with_source : ErrorCode ⊎ (Bytes × IpSocketAddress) → ErrorCode ⊎ (Bytes × SocketAddr)
  with_source (inl e) = inl e
  with_source (inr (payload, remote)) = inr (payload, from_wasi remote)

  pub receive : UdpWire u → UdpWire u × (ErrorCode ⊎ (Bytes × SocketAddr))
  receive wire =
      let (socket, r) = u.receive wire.socket in (record wire { socket = socket }, with_source r)

  pub self_wake : UdpWire u → UdpWire u × Option Bytes
  unfolding send
  self_wake wire = send wire wire.local []

  and_then-inr :
      {A B E : Type 0} (f : E → Error) (o : E ⊎ A) (go : A → Error ⊎ B) (b : B)
      → (and_then f o go ≡ inr b) ↔ ((a : A) × (o ≡ inr a) × (go a ≡ inr b))
  and_then-inr f (inl e) go b = ((λ h. absurd cc), (λ h. absurd (cc h.1)))
  and_then-inr {A} {B} {E} f (inr a) go b =
      ((λ h. (a, refl, h)), (λ (other, same, h). ap go (inj same) ∙ h))
    where
      inj : {x y : A} → ◌≡◌ {A = E ⊎ A} (inr x) (inr y) → x ≡ y
      inj e = cc

  -- A socket is bound exactly when the address parses and the socket is created in its family, bound
  -- to it and says where; the wire then has that socket and that address.
  bind_iff :
      (bind_addr : Bytes) (wire : UdpWire u)
      → (bind bind_addr ≡ inr wire) ↔ (
          (addr : SocketAddr) × (socket : u.Socket) × (bound : u.Socket) × (local : IpSocketAddress)
          × (u.parse bind_addr ≡ inr addr)
          × (u.create (family_of addr) ≡ inr socket)
          × (u.bind socket (to_wasi addr) ≡ inr bound)
          × (u.get_local_address bound ≡ inr local)
          × (wire ≡ wire_at bound local))
  unfolding bind bind_at
  bind_iff bind_addr wire = (
    (λ h.
        let (addr, parsed, h1) = (and_then-inr _ (u.parse bind_addr) bind_at wire).0 h in
        let (socket, created, h2) = (and_then-inr _ (u.create (family_of addr)) _ wire).0 h1 in
        let (bound, at, h3) = (and_then-inr _ (u.bind socket (to_wasi addr)) _ wire).0 h2 in
        let (local, told, same) = (and_then-inr _ (u.get_local_address bound) _ wire).0 h3 in
        (addr, socket, bound, local, parsed, created, at, told, cc same)),
    (λ (addr, socket, bound, local, parsed, created, at, told, same).
        (and_then-inr _ (u.parse bind_addr) bind_at wire).1 (
          addr,
          parsed,
          (and_then-inr _ (u.create (family_of addr)) _ wire).1 (
            socket,
            created,
            (and_then-inr _ (u.bind socket (to_wasi addr)) _ wire).1 (
              bound,
              at,
              (and_then-inr _ (u.get_local_address bound) _ wire).1
                  (local, told, ap inr (sym same)),
            ),
          ),
        )),
  )

module _ (u : Sockets) where
  -- A reply to a received datagram goes to the very address that it came from, and the wake-up goes
  -- to the very address that the socket was bound to, where these have no flow label and no scope.
  replies_reach :
      (wire : UdpWire u) (socket bound : u.Socket) (payload reply : Bytes)
      (remote local : IpSocketAddress)
      → u.receive wire.socket ≡ (socket, inr (payload, remote))
      → IsUnscoped remote
      → IsUnscoped local
      → let (next, received) = receive u wire in
        (received ≡ inr (payload, from_wasi remote))
        × ((send u next (from_wasi remote) reply).0.socket ≡ (u.send socket reply (some remote)).0)
        × ((self_wake u (wire_at u bound local)).0.socket ≡ (u.send bound [] (some local)).0)
  unfolding receive send self_wake
  replies_reach wire socket bound payload reply remote local e plain here = (
    ap (λ x. with_source u x.1) e,
    ap (λ x. (u.send x.0 reply (some (to_wasi (from_wasi remote)))).0) e
        ∙ ap (λ a. (u.send socket reply (some a)).0) (to_wasi-from_wasi remote plain),
    ap (λ a. (u.send bound [] (some a)).0) (to_wasi-from_wasi local here),
  )
