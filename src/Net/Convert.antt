-- ===== src/Net/Convert.antt =====
-- The conversions between the standard library's addresses and those of `wasi:sockets`.
use polymorph_iroh.Base.{◌≡◌, refl, ◌↔◌, arith}
use polymorph_iroh.Net.{SocketAddr, v4, v6, IpSocketAddress, ipv4, ipv6, to_wasi, from_wasi}

-- An address that carries no flow label and no scope.
abbrev pub IsPlain : SocketAddr → Type 0
IsPlain (v4 octets port) = Unit {0}
IsPlain (v6 segments port flow_info scope_id) = (flow_info ≡ 0) × (scope_id ≡ 0)

-- An address comes back from `wasi` unchanged exactly when it has no flow label and no scope: the
-- conversion drops both of any other, so a scoped link-local address loses its scope.
from_wasi-to_wasi_iff : (a : SocketAddr) → (from_wasi (to_wasi a) ≡ a) ↔ IsPlain a
unfolding from_wasi to_wasi
from_wasi-to_wasi_iff (v4 octets port) = ((λ h. tt), λ h. refl)
from_wasi-to_wasi_iff (v6 segments port flow_info scope_id) = ground arith

-- Every address that `from_wasi` gives is plain, so it survives the way out and back.
pub from_wasi-IsPlain : (w : IpSocketAddress) → IsPlain (from_wasi w)
unfolding from_wasi
from_wasi-IsPlain (ipv4 port address) = tt
from_wasi-IsPlain (ipv6 port flow_info address scope_id) = (refl, refl)

-- An address of the interface without flow label and scope.
abbrev pub IsUnscoped : IpSocketAddress → Type 0
IsUnscoped (ipv4 port address) = Unit {0}
IsUnscoped (ipv6 port flow_info address scope_id) = (flow_info ≡ 0) × (scope_id ≡ 0)

pub to_wasi-from_wasi : (a : IpSocketAddress) → IsUnscoped a → to_wasi (from_wasi a) ≡ a
unfolding to_wasi from_wasi
to_wasi-from_wasi (ipv4 port address) h = refl
to_wasi-from_wasi (ipv6 port flow_info address scope_id) (flow, scope) = rw (flow, scope) refl
