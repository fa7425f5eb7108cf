-- ===== src/Udp/Establish/AtServer.antt =====
-- The server's two steps of a handshake that nothing disturbs.
use vaiexia_obfs.Common.Map
use vaiexia_obfs.Common.{
  ℕ, ◌-◌, ◌<◌, ◌≡◌, refl, ◌∙◌, true, false, none, some, [], ◌∷◌, ◌++◌, ok, arith, length, ltb, leb,
  take, get_elem?, get_elem?-append_length, take-length,
}
use vaiexia_obfs.Envelope.{pong}
use vaiexia_obfs.External.{Bytes, External, Unshapes, DatagramMimicry}
use vaiexia_obfs.Verifier.{is_accepted}
use vaiexia_obfs.Udp.WireDgram.{DgramType, hs1, hs2, hs3, encode_inner}
use vaiexia_obfs.Udp.WireDgram.RoundTrip.{decode_inner-encode_inner}
use vaiexia_obfs.Udp.Msg1.{encode_msg1_framed}
use vaiexia_obfs.Udp.Msg1.RoundTrip.{decode_msg1_framed-encode_msg1_framed}
use vaiexia_obfs.Udp.Dataplane.{DataChannel, seal_envelope}
use vaiexia_obfs.Udp.Handshake.{
  shape_hs, process_hs1, partial_handshake, complete_handshake_msg3, server_channel,
}
use vaiexia_obfs.Udp.CookieGate.{always_open}
use vaiexia_obfs.Udp.Server.State.{
  Server, Config, Receipt, PeerState, PendingHandshake, next, send_sealed, pending_timeout,
  peer_idle_timeout,
}
use vaiexia_obfs.Udp.Server.Hs1.{handle_hs1, effective_under_load, accepted_with, accept}
use vaiexia_obfs.Udp.Server.Hs3.{handle_hs3, admit, greet}
use vaiexia_obfs.Udp.Server.Dgram
use vaiexia_obfs.Udp.Server.Dgram.{clean_up, handle_dgram, dispatch}
use vaiexia_obfs.Udp.Establish.{NoiseRun}

module _ ⦃X : External⦄ where
  open X use {
    protocol, Rng, Entropy, Addr, addr_key, Handshake, responder, read_message, write_message,
    remote_static,
  }

  -- The responder's first step, with no load.
  process_hs1-partial :
      {ce se : Entropy} {cp spub spriv seed : Bytes} (n : NoiseRun ce se cp spub spriv seed)
      (src : Addr) (s : Server) (mimic : DatagramMimicry Rng) (rng : Rng)
      → process_hs1 se
          (encode_msg1_framed n.m1 none)
          src
          spriv
          s.cookie_secret
          always_open
          mimic
          rng
        ≡ (
          ok (some (partial_handshake n.r2 (shape_hs hs2 n.m2 mimic rng).0 src)),
          (shape_hs hs2 n.m2 mimic rng).1,
        )
  unfolding process_hs1
  process_hs1-partial n src s mimic rng =
      rw (decode_msg1_framed-encode_msg1_framed n.m1 none n.short tt, n.answers, n.read1, n.wrote2)
        refl

  -- A handshake datagram that the client has shaped reaches the handler of its type.
  handle_dgram-shaped :
      (cfg : Config) (r : Receipt) (src : Addr) (from : DatagramMimicry Rng) (ty : DgramType)
      (body : Bytes) (g : Rng) (s : Server)
      → Unshapes from cfg.profile
      → let d = (shape_hs ty body from g).0 in
        handle_dgram cfg r src d s ≡ Dgram.finish r (dispatch cfg r src d s (some (ty, body)))
  unfolding handle_dgram shape_hs
  handle_dgram-shaped cfg r src from ty body g s un =
      rw (un.shape_in-shape_out (encode_inner ty body) g, decode_inner-encode_inner) refl

  -- No reason for a cookie, and room for a session.
  pub record HasRoom (r : Receipt) (s : Server) : Type 0 where
    pub open_gate : r.load.under_load ≡ false
    pub calm : length s.pending < 256
    pub room : length s.peers < 1024

  -- The server behind message 1: it has answered, and keeps the responder.
  pub record Answered (cfg : Config) (r : Receipt) (src : Addr) (hs : Handshake) (m2 : Bytes)
      (s t : Server) : Type 0 where
    pub sent : t.sent ≡ s.sent ++ (src, (shape_hs hs2 m2 cfg.profile s.rng).0) ∷ []
    pub half_open :
        Map.get ⦃e = addr_key⦄ t.pending src ≡ some (record { responder = hs; created_at = r.now })
    pub rng : t.rng ≡ (shape_hs hs2 m2 cfg.profile s.rng).1

  clean_up-Answered :
      (cfg : Config) (r : Receipt) (src : Addr) (hs : Handshake) (m2 : Bytes) (s t : Server)
      → Answered cfg r src hs m2 s t
      → Answered cfg r src hs m2 s (clean_up r.now t)
  unfolding clean_up
  clean_up-Answered cfg r src hs m2 s t a = record {
    sent = a.sent;
    half_open =
        Map.get-retain_kept ⦃e = addr_key⦄
          (λ (ph : PendingHandshake). ltb (r.now - ph.created_at) pending_timeout) t.pending src
          (record { responder = hs; created_at = r.now }) a.half_open (ground arith);
    rng = a.rng;
  }

  -- The server that has answered message 1, before the clean-up.
  abbrev answered : Config → Receipt → Addr → Handshake → Bytes → Server → Server
  answered cfg r src hs m2 s =
      let (w, rng) = shape_hs hs2 m2 cfg.profile s.rng in
      record s {
        rng = rng;
        sent = s.sent ++ (src, w) ∷ [];
        pending =
            Map.insert ⦃e = addr_key⦄ s.pending src (record { responder = hs; created_at = r.now });
      }

  answered-Answered :
      (cfg : Config) (r : Receipt) (src : Addr) (hs : Handshake) (m2 : Bytes) (s : Server)
      → Answered cfg r src hs m2 s (answered cfg r src hs m2 s)
  answered-Answered cfg r src hs m2 s = record {
    sent = refl;
    half_open =
        Map.get-insert ⦃e = addr_key⦄ s.pending src src
          (record { responder = hs; created_at = r.now })
        ∙ rw ((addr_key.equals_iff src src).1 refl) refl;
    rng = refl;
  }

  handle_hs1-answered :
      {ce se : Entropy} {cp spub spriv seed : Bytes} (n : NoiseRun ce se cp spub spriv seed)
      (cfg : Config) (r : Receipt) (src : Addr) (s : Server)
      → cfg.server_priv ≡ spriv
      → r.entropy ≡ se
      → HasRoom r s
      → handle_hs1 cfg r src (encode_msg1_framed n.m1 none) s
        ≡ next (answered cfg r src n.r2 n.m2 s)
  unfolding handle_hs1 accepted_with accept effective_under_load
  handle_hs1-answered n cfg r src s key ent h =
      let vacant : leb 1024 (length s.peers) ≡ false = ground (arith, h.room) in
      let calm : leb 256 (length s.pending) ≡ false = ground (arith, h.calm) in
      let spare : leb 2048 (length s.pending) ≡ false = ground (arith, h.calm) in
      rw (vacant, h.open_gate, calm, key, ent, process_hs1-partial n src s cfg.profile s.rng, spare)
        refl

  pub handle_dgram-hs1 :
      {ce se : Entropy} {cp spub spriv seed : Bytes} (n : NoiseRun ce se cp spub spriv seed)
      (cfg : Config) (r : Receipt) (src : Addr) (from : DatagramMimicry Rng) (g : Rng) (s : Server)
      → cfg.server_priv ≡ spriv
      → r.entropy ≡ se
      → Unshapes from cfg.profile
      → HasRoom r s
      → Answered cfg r src n.r2 n.m2 s
          (handle_dgram cfg r src (shape_hs hs1 (encode_msg1_framed n.m1 none) from g).0 s)
  unfolding dispatch
  handle_dgram-hs1 n cfg r src from g s key ent un h =
      rw
        (
          handle_dgram-shaped cfg r src from hs1 (encode_msg1_framed n.m1 none) g s un,
          handle_hs1-answered n cfg r src s key ent h,
        )
        (clean_up-Answered cfg r src n.r2 n.m2 s (answered cfg r src n.r2 n.m2 s)
          (answered-Answered cfg r src n.r2 n.m2 s))

  -- The server behind message 3: it has sent the ready record `w`, and has a session with `channel`.
  pub record Entered (now : ℕ) (src : Addr) (channel : DataChannel) (w : Bytes) (s t : Server)
      : Type 0 where
    pub sent : t.sent ≡ s.sent ++ (src, w) ∷ []
    pub number : ℕ
    pub session :
        Map.get ⦃e = addr_key⦄ t.peers src ≡ some (record { link = number; last_seen = now })
    pub link :
        get_elem? t.links number
        ≡ some (record { dst = src; channel = channel; queue = []; topics = [] })

  clean_up-Entered :
      (now : ℕ) (src : Addr) (channel : DataChannel) (w : Bytes) (s t : Server)
      → Entered now src channel w s t
      → Entered now src channel w s (clean_up now t)
  unfolding clean_up
  clean_up-Entered now src channel w s t a = record {
    sent = a.sent;
    number = a.number;
    session =
        Map.get-retain_kept ⦃e = addr_key⦄
          (λ (p : PeerState). ltb (now - p.last_seen) peer_idle_timeout) t.peers src
          (record { link = a.number; last_seen = now }) a.session (ground arith);
    link = a.link;
  }

  greet-Entered :
      (r : Receipt) (src : Addr) (channel : DataChannel) (w : Bytes) (g : Rng) (s : Server)
      → Entered r.now src channel w s (greet r src (ok w, channel, g) s)
  unfolding greet send_sealed
  greet-Entered r src channel w g s = record {
    sent = refl;
    number = length s.links;
    session =
        Map.get-insert ⦃e = addr_key⦄ s.peers src src
          (record { link = length s.links; last_seen = r.now })
        ∙ rw ((addr_key.equals_iff src src).1 refl) refl;
    link =
        get_elem?-append_length s.links
          (record { dst = src; channel = channel; queue = []; topics = [] });
  }

  complete-ok :
      {ce se : Entropy} {cp spub spriv seed : Bytes} (n : NoiseRun ce se cp spub spriv seed)
      (mimic : DatagramMimicry Rng)
      → length seed ≡ 32
      → complete_handshake_msg3 n.r2 n.m3 mimic
        ≡ (ok (server_channel mimic seed, n.client_static), n.r3)
  unfolding complete_handshake_msg3
  complete-ok {seed = seed} n mimic size =
      let whole : take 32 seed ≡ seed = rw (← size, take-length seed) refl in
      let enough : ltb (length seed) 32 ≡ false = ground (arith, size) in
      rw (n.read3, enough, n.known, whole) refl

  pub handle_dgram-hs3 :
      {ce se : Entropy} {cp spub spriv seed : Bytes} (n : NoiseRun ce se cp spub spriv seed)
      (cfg : Config) (r : Receipt) (src : Addr) (from : DatagramMimicry Rng) (g g' : Rng)
      (s : Server) (ph : PendingHandshake) (channel : DataChannel) (w : Bytes)
      → Unshapes from cfg.profile
      → length seed ≡ 32
      → Map.get ⦃e = addr_key⦄ s.pending src ≡ some ph
      → ph.responder ≡ n.r2
      → is_accepted (cfg.gate.authenticate n.client_static) ≡ true
      → seal_envelope (server_channel cfg.profile seed) pong s.rng ≡ (ok w, channel, g')
      → Entered r.now src channel w s (handle_dgram cfg r src (shape_hs hs3 n.m3 from g).0 s)
  unfolding dispatch handle_hs3 admit
  handle_dgram-hs3 n cfg r src from g g' s ph channel w un size found same accepted sealed =
      let t : Server = record s { pending = Map.remove ⦃e = addr_key⦄ s.pending src } in
      let e = greet-Entered r src channel w g' t in
      rw
        (
          handle_dgram-shaped cfg r src from hs3 n.m3 g s un,
          found,
          same,
          complete-ok n cfg.profile size,
          accepted,
          sealed,
        )
        (clean_up-Entered r.now src channel w s (greet r src (ok w, channel, g') t)
          (record { sent = e.sent; number = e.number; session = e.session; link = e.link }))
