-- ===== src/Udp/Server/Hs3.antt =====
-- src/udp/server.rs: `handle_dgram` at the third handshake message.
use vaiexia_obfs.Common.Map
use vaiexia_obfs.Common.Map.{Map}
use vaiexia_obfs.Common.{Option, none, some, [], ◌∷◌, ◌++◌, Result, ok, err, length, if◌then◌else◌}
use vaiexia_obfs.Envelope.{pong}
use vaiexia_obfs.External.{Bytes, External}
use vaiexia_obfs.Verifier.{is_accepted}
use vaiexia_obfs.Udp.Dataplane.{DataChannel, seal_envelope}
use vaiexia_obfs.Udp.Handshake.{complete_handshake_msg3}
use vaiexia_obfs.Udp.Server.State.{
  PendingHandshake, Server, Config, Receipt, Flow, return, next, send_sealed,
}

module _ ⦃X : External⦄ where
  open X use {
    protocol, Rng, Entropy, Addr, addr_key, Handshake, CookieSecret, Service, handle, verify_topic,
    event_source,
  }

  -- The ready record goes out before the session is entered; the new link is the last one.
  unfoldable pub greet : Receipt → Addr → Result Bytes × DataChannel × Rng → Server → Server
  greet r src (result, ch, rng) s =
      let t = send_sealed src result (record s { rng = rng }) in
      record t {
        links = t.links ++ (record { dst = src; channel = ch; queue = []; topics = [] }) ∷ [];
        peers =
            Map.insert ⦃e = addr_key⦄ t.peers src
              (record { link = length t.links; last_seen = r.now });
      }

  unfoldable pub admit :
      Config → Receipt → Addr → Server → Result (DataChannel × Bytes) × Handshake → Flow
  unfolding greet
  admit cfg r src s (err e, hs) = next s
  admit cfg r src s (ok (channel, client_static), hs) =
      if is_accepted (cfg.gate.authenticate client_static)
      then next (greet r src (seal_envelope channel pong s.rng) s)
      else return s

  finish_pending : Config → Receipt → Addr → Bytes → Option PendingHandshake → Server → Flow
  unfolding admit
  finish_pending cfg r src body none s = return s
  finish_pending cfg r src body (some ph) s =
      admit cfg r src (record s { pending = Map.remove ⦃e = addr_key⦄ s.pending src })
        (complete_handshake_msg3 ph.responder body cfg.profile)

  unfoldable pub handle_hs3 : Config → Receipt → Addr → Bytes → Server → Flow
  unfolding finish_pending
  handle_hs3 cfg r src body s =
      finish_pending cfg r src body (Map.get ⦃e = addr_key⦄ s.pending src) s
