-- ===== src/Endpoint/Bind.antt =====
-- The options resource and `bind` of endpoint/src/endpoint_impl.rs. The relay dial, the randomness,
-- the TLS and QUIC configurations and the engine's constructor are parameters; the socket is that of
-- Udp.
pub mod Opened
pub mod Awake
use polymorph_iroh.Base.{
  ℕ, Bool, true, false, Option, none, some, List, [], ◌∷◌, ◌++◌, Bytes, codes, ◌⊎◌, inl, inr,
  is_some,
}
use polymorph_iroh.Noq.{Noq}
use polymorph_iroh.Identity.{Crypto, Identity}
use polymorph_iroh.Udp.{Sockets, UdpWire}
use polymorph_iroh.Udp as Udp
use polymorph_iroh.Endpoint.{
  State, Error, invalid_argument, timed_out, connect_failed, other_error, new_state,
}
use polymorph_iroh.Endpoint.Relays.{
  DialOutcome, opened, dial_timed_out, dial_failed, register_relay,
}
use polymorph_iroh.Endpoint.Pump.{Pump, new_pump}

pub record Options (c : Crypto) : Type 0 where
  pub identity : Identity c
  pub alpns : List Bytes
  pub relay_url : Option Bytes
  pub udp_bind_addr : Option Bytes
  pub webrtc : Bool

module _ {c : Crypto} where
  unfoldable pub new_options : Identity c → Options c
  new_options identity = record {
    identity = identity;
    alpns = [];
    relay_url = none;
    udp_bind_addr = none;
    webrtc = false;
  }

  unfoldable pub add_alpn : Options c → Bytes → Options c
  add_alpn o alpn = record o { alpns = o.alpns ++ (alpn ∷ []) }

  unfoldable pub set_relay_url : Options c → Bytes → Options c
  set_relay_url o url = record o { relay_url = some url }

  unfoldable pub set_udp_bind_addr : Options c → Bytes → Options c
  set_udp_bind_addr o addr = record o { udp_bind_addr = some addr }

  unfoldable pub set_webrtc : Options c → Bool → Options c
  set_webrtc o enabled = record o { webrtc = enabled }

-- What `bind` calls: a failing call gives its error's text. `fill` is a draw of randomness, by its
-- number; a configuration is the one of the engine's endpoint.
pub record BindEnv (noq : Noq) (c : Crypto) : Type 1 where
  pub Tls : Type 0
  pub Quic : Type 0
  pub dial_relay : Bytes → Identity c → DialOutcome
  pub fill : ℕ → Bytes ⊎ Bytes
  pub server_config : Identity c → List Bytes → Bytes ⊎ Tls
  pub quic_config : Tls → Bytes ⊎ Quic
  pub new_engine : (reset_key token_master : Bytes) → Quic → noq.Engine
  pub now : ℕ

-- The endpoint's resource and the pump that was spawned for it, with the URL of its home relay.
pub record Endpoint (noq : Noq) (c : Crypto) (u : Sockets) : Type 0 where
  pub shared : State noq
  pub identity : Identity c
  pub udp : Option (UdpWire u)
  pub pump : Pump
  pub home_url : Bytes

module _ {noq : Noq} {c : Crypto} (env : BindEnv noq c) (u : Sockets) where
  infixl 5 ◌>>=◌
  abbrev ◌>>=◌ : {A B : Type 0} → Error ⊎ A → (A → Error ⊎ B) → Error ⊎ B
  inl e >>= f = inl e
  inr a >>= f = f a

  -- `map_err` and `?`
  abbrev with_error : {A E : Type 0} → (E → Error) → E ⊎ A → Error ⊎ A
  with_error f (inl e) = inl (f e)
  with_error f (inr a) = inr a

  unfoldable pub require_url : Option Bytes → Error ⊎ Bytes
  require_url none =
      inl
        (invalid_argument (codes "bind requires a relay-url (the relay wire is the only path yet)"))
  require_url (some url) = inr url

  unfoldable pub require_alpn : List Bytes → Error ⊎ Unit {0}
  require_alpn [] = inl (invalid_argument (codes "bind requires at least one alpn"))
  require_alpn (alpn ∷ alpns) = inr tt

  unfoldable pub of_dial : DialOutcome → Error ⊎ ℕ
  of_dial (opened conn) = inr conn
  of_dial dial_timed_out = inl (timed_out (codes "relay dial timed out"))
  of_dial (dial_failed e) = inl (connect_failed e)

  unfoldable pub bind_udp : Option Bytes → Error ⊎ Option (UdpWire u)
  bind_udp none = inr none
  bind_udp (some addr) = do wire ← Udp.bind u addr; inr (some wire)

  -- The engine, from two draws of randomness and the configurations.
  unfoldable pub make_engine : Options c → Error ⊎ noq.Engine
  make_engine o = do
    reset_key ← with_error other_error (env.fill 0)
    token_master ← with_error other_error (env.fill 1)
    tls ← with_error other_error (env.server_config o.identity o.alpns)
    quic ← with_error (λ e. other_error (codes "server quic config: " ++ e)) (env.quic_config tls)
    inr (env.new_engine reset_key token_master quic)

  unfoldable pub bound_at :
      Options c → Bytes → ℕ → noq.Engine → Option (UdpWire u) → Endpoint noq c u
  bound_at o url relay engine udp = record {
    shared = (register_relay (new_state noq engine o.webrtc) url relay).0;
    identity = o.identity;
    udp = udp;
    pump = new_pump (is_some udp) env.now;
    home_url = url;
  }

  unfoldable pub bind : Options c → Error ⊎ Endpoint noq c u
  unfolding require_url require_alpn of_dial make_engine bind_udp bound_at
  bind o = do
    url ← require_url o.relay_url
    given ← require_alpn o.alpns
    relay ← of_dial (env.dial_relay url o.identity)
    engine ← make_engine o
    udp ← bind_udp o.udp_bind_addr
    inr (bound_at o url relay engine udp)

-- `EndpointRes::id` and `direct_addr`; `display` is the text of an address.
module _ {noq : Noq} {c : Crypto} {u : Sockets} where
  abbrev pub id : Endpoint noq c u → Bytes
  id e = e.identity.endpoint_id
