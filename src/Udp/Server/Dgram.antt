-- ===== src/Udp/Server/Dgram.antt =====
-- src/udp/server.rs: `handle_dgram`, its clean-up included.
use vaiexia_obfs.Common.Map
use vaiexia_obfs.Common.Map.{Map}
use vaiexia_obfs.Common.{ℕ, ◌-◌, Option, none, some, ltb}
use vaiexia_obfs.External.{Bytes, External}
use vaiexia_obfs.Udp.WireDgram.{DgramType, hs1, hs3, data_record, decode_inner}
use vaiexia_obfs.Udp.Server.State.{
  peer_idle_timeout, pending_timeout, Server, Config, Receipt, Flow, return, next,
}
use vaiexia_obfs.Udp.Server.Hs1.{handle_hs1}
use vaiexia_obfs.Udp.Server.Hs3.{handle_hs3}
use vaiexia_obfs.Udp.Server.Data.{handle_data}

module _ ⦃X : External⦄ where
  open X use {
    protocol, Rng, Entropy, Addr, addr_key, Handshake, CookieSecret, Service, handle, verify_topic,
    event_source,
  }

  -- `Instant::duration_since` is zero for a later instant, as `-` is.
  unfoldable pub clean_up : ℕ → Server → Server
  clean_up now s = record s {
    pending = Map.retain (λ ph. ltb (now - ph.created_at) pending_timeout) s.pending;
    peers = Map.retain (λ p. ltb (now - p.last_seen) peer_idle_timeout) s.peers;
  }

  unfoldable pub dispatch :
      Config → Receipt → Addr → Bytes → Server → Option (DgramType × Bytes) → Flow
  dispatch cfg r src dgram s none = return s
  dispatch cfg r src dgram s (some (hs1, body)) = handle_hs1 cfg r src body s
  dispatch cfg r src dgram s (some (hs3, body)) = handle_hs3 cfg r src body s
  dispatch cfg r src dgram s (some (data_record, body)) = handle_data r src dgram s
  dispatch cfg r src dgram s (some (ty, body)) = next s

  recover : Config → Receipt → Addr → Bytes → Server → Option Bytes → Flow
  unfolding dispatch
  recover cfg r src dgram s none = return s
  recover cfg r src dgram s (some inner) = dispatch cfg r src dgram s (decode_inner inner)

  abbrev pub finish : Receipt → Flow → Server
  finish r (return s) = s
  finish r (next s) = clean_up r.now s

  unfoldable pub handle_dgram : Config → Receipt → Addr → Bytes → Server → Server
  unfolding recover
  handle_dgram cfg r src dgram s = finish r (recover cfg r src dgram s (cfg.profile.shape_in dgram))
