-- ===== src/Tests/Bind.antt =====
-- Concrete runs of `bind` and of the socket.
use polymorph_iroh.Base.{ℕ, ◌≡◌, inr, refl, none, some, [], ◌∷◌, Bytes, codes, replicate, nat_key}
use polymorph_iroh.Base.Maps.{lookup}
use polymorph_iroh.Net.{v4, ipv4}
use polymorph_iroh.Noq.{Noq}
use polymorph_iroh.Identity.{adopted}
use polymorph_iroh.Udp.{Sockets, UdpWire, family_of, wire_at}
use polymorph_iroh.Udp as Udp
use polymorph_iroh.Endpoint.{home_relay}
use polymorph_iroh.Endpoint.Routes.Reach.{Routing}
use polymorph_iroh.Endpoint.Signaling.Inbox.{IsBounded}
use polymorph_iroh.Endpoint.Relays.{opened}
use polymorph_iroh.Endpoint.Relays.Reach.{Pooling}
use polymorph_iroh.Endpoint.Bind.{
  Options, BindEnv, Endpoint, new_options, add_alpn, set_relay_url, set_udp_bind_addr, bind,
  bound_at, require_url, require_alpn, of_dial, bind_udp, make_engine,
}
use polymorph_iroh.Endpoint.Bind.Opened.{bind_starts}
use polymorph_iroh.Tests.Toy as Toy
use polymorph_iroh.Tests.Identity as Keys

abbrev pub noq : Noq
noq = Toy.toy none

-- A host whose sockets all work, at the one address that it parses.
abbrev pub sockets : Sockets
sockets = record {
  Socket = Unit {0};
  create = λ family. inr tt;
  bind = λ socket addr. inr tt;
  get_local_address = λ socket. inr (ipv4 4433 (127 ∷ 0 ∷ 0 ∷ 1 ∷ []));
  send = λ socket payload remote. (tt, none);
  receive = λ socket. (tt, inr ([], ipv4 9 []));
  parse = λ text. inr (v4 (127 ∷ 0 ∷ 0 ∷ 1 ∷ []) 0);
  quoted = λ text. text;
  debug = λ e. [];
}

abbrev pub env : BindEnv noq Keys.toy
env = record {
  Tls = Unit {0};
  Quic = Unit {0};
  dial_relay = λ url identity. opened 8;
  fill = λ n. inr (replicate 32 n);
  server_config = λ identity alpns. inr tt;
  quic_config = λ tls. inr tt;
  new_engine = λ reset_key token_master quic. tt;
  now = 10;
}

abbrev relay : Bytes
relay = codes "https://relay.example/"

abbrev pub options : Options Keys.toy
options =
    set_udp_bind_addr
      (set_relay_url (add_alpn (new_options (adopted Keys.toy Keys.seven Keys.seven)) (codes "h3"))
        relay)
      (codes "127.0.0.1:0")

abbrev pub endpoint : Endpoint noq Keys.toy sockets
endpoint =
    bound_at env sockets options relay 8 tt
      (some (wire_at sockets tt (ipv4 4433 (127 ∷ 0 ∷ 0 ∷ 1 ∷ []))))

pub binds : bind env sockets options ≡ inr endpoint
unfolding bind require_url require_alpn of_dial make_engine bind_udp new_options add_alpn
    set_relay_url set_udp_bind_addr Udp.bind Udp.bind_at
binds = refl

bind_starts_example :
    (url : Bytes) × (conn : ℕ) × (options.relay_url ≡ some url)
    × (env.dial_relay url options.identity ≡ opened conn)
    × (lookup home_relay endpoint.shared.relay_pool ≡ some conn)
    × Pooling endpoint.shared
    × Routing endpoint.shared
    × IsBounded endpoint.shared.signal_inboxes
bind_starts_example = bind_starts env sockets options endpoint binds
