-- ===== src/Udp/Establish/Complete.antt =====
-- A whole handshake of the initiator and the server.

use vaiexia_obfs.Common.{
  ℕ, suc, ◌+◌, ◌≡◌, refl, ◌∙◌, true, none, some, List, [], ◌∷◌, ◌++◌, Result, ok, length,
  append_assoc,
}
use vaiexia_obfs.Envelope.{pong}
use vaiexia_obfs.External.{Bytes, External, DatagramMimicry, Unshapes}
use vaiexia_obfs.Verifier.{is_accepted}
use vaiexia_obfs.Udp.WireDgram.{DgramType, hs1, hs2, hs3, encode_inner}
use vaiexia_obfs.Udp.WireDgram.RoundTrip.{decode_inner-encode_inner}
use vaiexia_obfs.Udp.Msg1.{encode_msg1_framed}
use vaiexia_obfs.Udp.Dataplane
use vaiexia_obfs.Udp.Dataplane.{DataChannel, seal_envelope, open_datagram}
use vaiexia_obfs.Udp.Dataplane.RoundTrip.{
  IsRecordLayer, seal_envelope-Sealed, seal_envelope-opener, after, open_datagram-Sealed,
  InStep-Sealed,
}
use vaiexia_obfs.Udp.Handshake.{shape_hs, unshape_hs, server_channel}
use vaiexia_obfs.Udp.Handshake.Initiator.{
  Socket, Inbound, datagram, success, attempt, attempts, on_attempt, client_udp_handshake,
  client_channel,
}
use vaiexia_obfs.Udp.Client
use vaiexia_obfs.Udp.Client.Connect.{Target, peer_of, connect_udp}
use vaiexia_obfs.Udp.Server.State.{Server, Config, Receipt}
use vaiexia_obfs.Udp.Server.Dgram.{handle_dgram}
use vaiexia_obfs.Udp.Establish.{NoiseRun}
use vaiexia_obfs.Udp.Establish.AtServer.{HasRoom, Entered, handle_dgram-hs1, handle_dgram-hs3}
use vaiexia_obfs.Udp.Establish.AtClient.{attempt-succeeds, unanswered, rng_after, after_quiet}

module _ ⦃X : External⦄ where
  open X use {
    protocol, Rng, fill_bytes, Entropy, Addr, addr_key, RecordKey, Sealer, Opener, sealer_new,
    opener_new,
  }

  unshape_hs-shape_hs :
      (ty : DgramType) (body : Bytes) (from to : DatagramMimicry Rng) (g : Rng)
      → Unshapes from to
      → unshape_hs (shape_hs ty body from g).0 to ≡ some (ty, body)
  unfolding unshape_hs shape_hs
  unshape_hs-shape_hs ty body from to g un =
      rw (un.shape_in-shape_out (encode_inner ty body) g, decode_inner-encode_inner) refl

  -- The channel of the client behind the server's ready record.
  ready_opened :
      {InStep : Sealer → Opener → Type 0} (layer : IsRecordLayer InStep)
      (fresh : (key : RecordKey) → InStep (sealer_new key) (opener_new key))
      (client server : DatagramMimicry Rng) (seed w : Bytes) (rng : Rng) (ch : DataChannel)
      → Unshapes server client
      → (seal_envelope (server_channel server seed) pong rng).0 ≡ ok w
      → (seal_envelope (server_channel server seed) pong rng).1 ≡ ch
      → (c : DataChannel) × (open_datagram (client_channel client seed) w ≡ (some pong, c))
        × InStep c.sealer ch.opener
        × InStep ch.sealer c.opener
  unfolding client_channel server_channel Dataplane.new
  ready_opened layer fresh client server seed w rng ch fits sealed same =
      let a = server_channel server seed in
      let b = client_channel client seed in
      let d = seal_envelope-Sealed a pong rng w sealed in
      (
        after b d.body,
        open_datagram-Sealed layer a b pong rng w _ fits (fresh _) d,
        rw (← same, seal_envelope-opener a pong rng) (fresh _),
        rw (← same) (InStep-Sealed layer a b pong rng w _ (fresh _) d),
      )

  -- A first attempt that succeeds ends `connect_udp`.
  connect_udp-first :
      (lookup : Bytes → Result (List Addr)) (entropy : ℕ → Entropy) (rng rng' g : Rng) (t : Target)
      (server_addr : Addr) (others : List Addr) (k k' : Socket) (ch : DataChannel)
      → lookup t.addr ≡ ok (server_addr ∷ others)
      → attempt (entropy 0) (peer_of t server_addr) (k, rng) ≡ (success ch, (k', g))
      → connect_udp lookup (ok k) entropy rng rng' t
        ≡ ok (Client.new server_addr ch rng' t.capability, k')
  unfolding connect_udp client_udp_handshake attempts on_attempt
  connect_udp-first lookup entropy rng rng' g t server_addr others k k' ch known done =
      rw (known, done) refl

  -- What both sides have behind the handshake: the client is connected, with the datagrams `before`
  -- that were lost and two more sent; the server has answered each of the two by one and has a session
  -- for the client's address; and the two channels fit in both directions.
  pub record Established (InStep : Sealer → Opener → Type 0)
      (connected : Result (Client.Client × Socket)) (k : Socket) (server_addr : Addr)
      (before : List (Addr × Bytes)) (d1 d3 w2 w4 : Bytes) (now : ℕ) (me : Addr) (s s1 s2 : Server)
      : Type 0 where
    pub client : Client.Client
    pub socket : Socket
    pub server : DataChannel
    pub ends : connected ≡ ok (client, socket)
    pub asked : socket.sent ≡ k.sent ++ (before ++ (server_addr, d1) ∷ (server_addr, d3) ∷ [])
    pub is_open : client.is_open ≡ true
    pub answered : s2.sent ≡ s.sent ++ (me, w2) ∷ (me, w4) ∷ []
    pub session : Entered now me server w4 s1 s2
    pub to_server : InStep client.channel.sealer server.opener
    pub to_client : InStep server.sealer client.channel.opener

  -- A client and a server with the keys of one Noise exchange, with room for the session and no load,
  -- establish a session in one attempt, also if the first tries of message 1 are lost, eleven at most:
  -- the server gets the try behind them and message 3, and the client what the server sends. The name
  -- is known, the seed has 32 bytes, the gate accepts the client's key, and the ready record can be
  -- sealed.
  pub handshake_completes :
      {InStep : Sealer → Opener → Type 0} (layer : IsRecordLayer InStep)
      (fresh : (key : RecordKey) → InStep (sealer_new key) (opener_new key))
      (lookup : Bytes → Result (List Addr)) (entropy : ℕ → Entropy) (t : Target)
      (server_addr : Addr) (others : List Addr) (k : Socket) (rng rng0 rng' g : Rng) (cfg : Config)
      (r1 r2 : Receipt) (me : Addr) (s : Server) (seed w4 : Bytes) (server : DataChannel)
      (rest : List Inbound) (room missed tries : ℕ)
      (noise : NoiseRun (entropy 0) r1.entropy t.client_private t.server_pub cfg.server_priv seed)
      → missed + suc tries ≡ 12
      → lookup t.addr ≡ ok (server_addr ∷ others)
      → Unshapes t.profile cfg.profile
      → Unshapes cfg.profile t.profile
      → length seed ≡ 32
      → fill_bytes 32 rng ≡ (seed, rng0)
      → HasRoom r1 s
      → is_accepted (cfg.gate.authenticate noise.client_static) ≡ true
      → let p = peer_of t server_addr in
        let (d1, rng1) =
          shape_hs hs1
            (encode_msg1_framed noise.m1 none)
            t.profile
            (rng_after missed p noise.m1 rng0) in
        let d3 = (shape_hs hs3 noise.m3 t.profile rng1).0 in
        let (w2, g2) = shape_hs hs2 noise.m2 cfg.profile s.rng in
        let s1 = handle_dgram cfg r1 me d1 s in
        seal_envelope (server_channel cfg.profile seed) pong g2 ≡ (ok w4, server, g)
        → k.room ≡ missed + suc (suc room)
        → k.inbox ≡ after_quiet missed (datagram server_addr w2 ∷ datagram server_addr w4 ∷ rest)
        → Established InStep
            (connect_udp lookup (ok k) entropy rng rng' t)
            k
            server_addr
            (unanswered missed p noise.m1 rng0)
            d1
            d3
            w2
            w4
            r2.now
            me
            s
            s1
            (handle_dgram cfg r2 me d3 s1)
  unfolding Client.new
  handshake_completes layer fresh lookup entropy t server_addr others k rng rng0 rng' g cfg r1 r2 me
        s seed w4 server rest room missed tries noise bound known up down size drawn vacant accepted
        ready space inbox =
      let p = peer_of t server_addr in
      let g1 = rng_after missed p noise.m1 rng0 in
      let (d1, rng1) = shape_hs hs1 (encode_msg1_framed noise.m1 none) t.profile g1 in
      let (d3, rng3) = shape_hs hs3 noise.m3 t.profile rng1 in
      let (w2, g2) = shape_hs hs2 noise.m2 cfg.profile s.rng in
      let s1 = handle_dgram cfg r1 me d1 s in
      let a = handle_dgram-hs1 noise cfg r1 me t.profile g1 s refl refl up vacant in
      let (channel, opened, to_server, to_client) =
        ready_opened layer fresh t.profile cfg.profile seed w4 g2 server down (rw ready refl)
          (rw ready refl) in
      let k' : Socket = record {
        inbox = rest;
        room = room;
        sent =
            k.sent
            ++ (unanswered missed p noise.m1 rng0 ++ (server_addr, d1) ∷ (server_addr, d3) ∷ []);
      } in
      let done =
        attempt-succeeds (peer_of t server_addr) k rng rng0 noise w2 w4 rest channel room missed
          tries bound drawn space inbox
          (unshape_hs-shape_hs hs2 noise.m2 cfg.profile t.profile s.rng down) opened in
      let entered =
        handle_dgram-hs3 noise cfg r2 me t.profile rng1 g s1
          (record { responder = noise.r2; created_at = r1.now }) server w4 up size a.half_open refl
          accepted (rw a.rng ready) in
      record {
        client = Client.new server_addr channel rng' t.capability;
        socket = k';
        server = server;
        ends =
            connect_udp-first lookup entropy rng rng' rng3 t server_addr others k k' channel known
              done;
        asked = refl;
        is_open = refl;
        answered = entered.sent ∙ rw a.sent (append_assoc s.sent ((me, w2) ∷ []) ((me, w4) ∷ []));
        session = entered;
        to_server = to_server;
        to_client = to_client;
      }
