-- ===== src/Udp/Server/Hs1.antt =====
-- src/udp/server.rs: `handle_dgram` at a first handshake message.
use vaiexia_obfs.Common.Map
use vaiexia_obfs.Common.Map.{Map}
use vaiexia_obfs.Common.{
  Bool, not, ◌&&◌, ◌||◌, Option, none, some, Result, ok, err, leb, length, if◌then◌else◌,
}
use vaiexia_obfs.External.{Bytes, External}
use vaiexia_obfs.Udp.CookieGate.{LoadGate, always_open, always_under_load}
use vaiexia_obfs.Udp.Handshake.{
  AcceptResult, cookie_reply, partial_handshake, Accepted, process_hs1,
}
use vaiexia_obfs.Udp.Server.State.{
  max_peers, max_pending, pending_soft_limit, Server, Config, Receipt, Flow, return, next, send_to,
}

module _ ⦃X : External⦄ where
  open X use {
    protocol, Rng, Entropy, Addr, addr_key, Handshake, CookieSecret, Service, handle, verify_topic,
    event_source,
  }

  unfoldable pub effective_under_load : LoadGate → Server → Bool
  effective_under_load load s = load.under_load || leb pending_soft_limit (length s.pending)

  abbrev pub effective_gate : LoadGate → Server → LoadGate
  effective_gate load s = if effective_under_load load s then always_under_load else always_open

  unfoldable pub accept : Receipt → Addr → Server → Result (Option AcceptResult) → Flow
  accept r src s (ok (some (cookie_reply w))) = next (send_to src w s)
  accept r src s (ok (some (partial_handshake hs msg2 client_addr))) =
      if leb max_pending (length s.pending) && not (Map.contains ⦃e = addr_key⦄ s.pending src)
      then return s
      else next (
          send_to src msg2 (record s {
            pending =
                Map.insert ⦃e = addr_key⦄ s.pending src
                  (record { responder = hs; created_at = r.now });
          }))
  accept r src s (ok none) = next s
  accept r src s (err e) = next s

  unfoldable pub accepted_with : Receipt → Addr → Server → Accepted → Flow
  unfolding accept
  accepted_with r src s (result, rng) = accept r src (record s { rng = rng }) result

  unfoldable pub handle_hs1 : Config → Receipt → Addr → Bytes → Server → Flow
  unfolding accepted_with effective_under_load
  handle_hs1 cfg r src body s =
      if leb max_peers (length s.peers)
      then return s
      else accepted_with r src s (
          process_hs1 r.entropy body src cfg.server_priv s.cookie_secret (effective_gate r.load s)
            cfg.profile s.rng)
