-- ===== src/Endpoint/Conns/Events.antt =====
-- What `on_event` of endpoint/src/endpoint_impl.rs leaves of a connection of the engine.
use polymorph_iroh.Base.{ℕ, ◌≡◌, refl, ◌∙◌, Option, none, some, List, Bytes, if_cases}
use polymorph_iroh.Noq.{
  Noq, Event, connected, stream_opened, quiet, connection_lost, application_closed, locally_closed,
  timed_out, other_reason,
}
use polymorph_iroh.Endpoint.{ConnEntry}
use polymorph_iroh.Endpoint.Conns.{
  tls_peer, expects, on_event, on_connected, on_lost, on_opened, by_key, authenticated, mismatched,
  new_alpn,
}

-- A view of connections that the calls of `on_event` do not change.
module _ {noq : Noq} {A : Type 0} (view : noq.Conn → A)
    (close_view : (conn : noq.Conn) (now code : ℕ) (reason : Bytes)
      → view (noq.close conn now code reason) ≡ view conn)
    (bi_view : (conn : noq.Conn) → view (noq.accept_bi conn).1 ≡ view conn)
    (uni_view : (conn : noq.Conn) → view (noq.accept_uni conn).1 ≡ view conn) where
  by_key-view :
      (e : ConnEntry noq) (handle now : ℕ) (key : Option Bytes)
      → view (by_key e handle now key).0.conn ≡ view e.conn
  unfolding by_key mismatched authenticated
  by_key-view e handle now none = close_view e.conn now 1 _
  by_key-view e handle now (some id) =
      if_cases (λ (r : ConnEntry noq × List (ℕ × ℕ)). view r.0.conn ≡ view e.conn)
        (expects e.expected_peer id) _ _ (λ t. refl) (λ t. close_view e.conn now 1 _)

  pub on_event-view :
      (e : ConnEntry noq) (handle now : ℕ) (event : Event)
      → view (on_event e handle now event).0.conn ≡ view e.conn
  unfolding on_event on_connected on_lost on_opened
  on_event-view e handle now connected =
      by_key-view (record e { alpn = new_alpn (noq.handshake_data e.conn) e.alpn }) handle now
        (tls_peer noq e.conn)
  on_event-view e handle now stream_opened = uni_view (noq.accept_bi e.conn).1 ∙ bi_view e.conn
  on_event-view e handle now quiet = refl
  on_event-view e handle now (connection_lost (application_closed code reason)) = refl
  on_event-view e handle now (connection_lost locally_closed) = refl
  on_event-view e handle now (connection_lost timed_out) = refl
  on_event-view e handle now (connection_lost (other_reason text)) = refl

-- A fact that holds of a connection, of what is left of it once its streams are opened, and, for a
-- handshake, of its close.
module _ {noq : Noq} (P : noq.Conn → Type 0) where
  by_key-fact :
      (e : ConnEntry noq) (handle now : ℕ) (key : Option Bytes)
      → P e.conn
      → ((now code : ℕ) (reason : Bytes) → P (noq.close e.conn now code reason))
      → P (by_key e handle now key).0.conn
  unfolding by_key mismatched authenticated
  by_key-fact e handle now none h closing = closing now 1 _
  by_key-fact e handle now (some id) h closing =
      if_cases (λ (r : ConnEntry noq × List (ℕ × ℕ)). P r.0.conn) (expects e.expected_peer id) _ _
        (λ t. h) (λ t. closing now 1 _)

  pub on_event-fact :
      (e : ConnEntry noq) (handle now : ℕ) (event : Event)
      → P e.conn
      → P (noq.accept_uni (noq.accept_bi e.conn).1).1
      → (event ≡ connected → (now code : ℕ) (reason : Bytes) → P (noq.close e.conn now code reason))
      → P (on_event e handle now event).0.conn
  unfolding on_event on_connected on_lost on_opened
  on_event-fact e handle now connected h opening closing =
      by_key-fact (record e { alpn = new_alpn (noq.handshake_data e.conn) e.alpn }) handle now
        (tls_peer noq e.conn) h (closing refl)
  on_event-fact e handle now stream_opened h opening closing = opening
  on_event-fact e handle now quiet h opening closing = h
  on_event-fact e handle now (connection_lost (application_closed code reason)) h opening closing =
      h
  on_event-fact e handle now (connection_lost locally_closed) h opening closing = h
  on_event-fact e handle now (connection_lost timed_out) h opening closing = h
  on_event-fact e handle now (connection_lost (other_reason text)) h opening closing = h
