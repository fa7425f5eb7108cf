-- ===== src/Udp/Server/Links/Session.antt =====
-- What message 1 and a data datagram do to the sessions.
use vaiexia_obfs.Common.Map
use vaiexia_obfs.Common.{ℕ, ◌≡◌, refl, Option, none, some, arith, get_elem?, Option-cases, inl, inr}
use vaiexia_obfs.Envelope.{Envelope}
use vaiexia_obfs.External.{Bytes, External}
use vaiexia_obfs.Udp.Dataplane.{DataChannel, open_datagram}
use vaiexia_obfs.Udp.Server.State.{Link, Server, Config, Receipt, PeerState, with_channel}
use vaiexia_obfs.Udp.Server.Hs1.{handle_hs1}
use vaiexia_obfs.Udp.Server.Data.{handle_data, opened_at}
use vaiexia_obfs.Udp.Server.Frame.{outcome, handle_envelope-SameMaps}

module _ ⦃X : External⦄ where
  open X use {protocol, Addr, addr_key, Rng, Service, CookieSecret, Handshake}

  pub handle_hs1-same :
      (cfg : Config) (r : Receipt) (src : Addr) (body : Bytes) (s : Server)
      → let t = outcome (handle_hs1 cfg r src body s) in (t.peers ≡ s.peers) × (t.links ≡ s.links)
  unfolding handle_hs1
  handle_hs1-same cfg r src body s = ground arith

  opened_at-peers :
      (i : ℕ) (l : Link) (src : Addr) (o : Option (Envelope protocol) × DataChannel) (s : Server)
      → (outcome (opened_at i l src o s)).peers ≡ s.peers
  unfolding opened_at
  opened_at-peers i l src (none, ch) s = refl
  opened_at-peers i l src (some env, ch) s =
      (handle_envelope-SameMaps i (record l { channel = ch }) src env (with_channel i l ch s)).peers

  -- A session's data datagram refreshes the session, and changes no other.
  pub handle_data-session :
      (r : Receipt) (src : Addr) (dgram : Bytes) (s : Server) (p : PeerState)
      → Map.get ⦃e = addr_key⦄ s.peers src ≡ some p
      → (outcome (handle_data r src dgram s)).peers
        ≡ Map.insert ⦃e = addr_key⦄ s.peers src (record p { last_seen = r.now })
  unfolding handle_data
  handle_data-session r src dgram s p found = elim (Option-cases (get_elem? s.links p.link)) [
    | inl lost ↦ rw (found, lost) refl
    | inr (l, there) ↦
        rw (found, there)
          (opened_at-peers p.link l src (open_datagram l.channel dgram) (record s {
            peers = Map.insert ⦃e = addr_key⦄ s.peers src (record p { last_seen = r.now });
          }))
  ]
