-- ===== src/Tcp/Establish.antt =====
-- src/client.rs, src/server.rs and src/handshake_io.rs together: a client that connects to a server.
use vaiexia_obfs.Common.{
  ◌+◌, ◌≤◌, ◌≡◌, refl, sym, ◌∙◌, true, Option, none, some, [], ◌++◌, Result, ok, length,
  append-nil_right, append_assoc,
}
use vaiexia_obfs.External.{Bytes, External, MimicryProfile, IsFraming}
use vaiexia_obfs.Verifier.{TransportGate, is_accepted}
use vaiexia_obfs.Stream.{Stream}
use vaiexia_obfs.Tcp.HandshakeIo.Leftover.{Meets, server_handshake_completes}
use vaiexia_obfs.Tcp.HandshakeIo.Initiator.{Answered, client_handshake_completes}
use vaiexia_obfs.Tcp.Client
use vaiexia_obfs.Tcp.Client.{connect, connected, connected_client}
use vaiexia_obfs.Client.Calls.{no_calls}
use vaiexia_obfs.Tcp.Server.{Serving, handle_connection, enter}
use vaiexia_obfs.Tcp.Channel.Carries.{Chain}
use vaiexia_obfs.Tcp.Channel.Refinement.{Refines}

module _ ⦃X : External⦄ where
  open X use {
    protocol, Rng, Entropy, Handshake, initiator, responder, write_message, read_message,
    remote_static, Session, into_session, Service,
  }

  -- A Noise-XK exchange of an initiator and a responder whose keys fit, with empty payloads: each
  -- message that one writes, the other reads, and the two sessions are in step in both directions.
  pub record NoiseRun (InStep : Session → Session → Type 0)
      (client_entropy server_entropy : Entropy)
      (client_private server_public server_private : Bytes) : Type 0 where
    pub m1 : Bytes
    pub m2 : Bytes
    pub m3 : Bytes
    pub p1 : Bytes
    pub p2 : Bytes
    pub p3 : Bytes
    pub i0 : Handshake
    pub i1 : Handshake
    pub i2 : Handshake
    pub i3 : Handshake
    pub r0 : Handshake
    pub r1 : Handshake
    pub r2 : Handshake
    pub r3 : Handshake
    pub client_static : Bytes
    pub client_session : Session
    pub server_session : Session
    pub begins : initiator client_entropy client_private server_public ≡ some i0
    pub answers : responder server_entropy server_private ≡ some r0
    pub wrote1 : write_message i0 [] ≡ (some m1, i1)
    pub read1 : read_message r0 m1 ≡ (some p1, r1)
    pub wrote2 : write_message r1 [] ≡ (some m2, r2)
    pub read2 : read_message i1 m2 ≡ (some p2, i2)
    pub wrote3 : write_message i2 [] ≡ (some m3, i3)
    pub read3 : read_message r2 m3 ≡ (some p3, r3)
    pub known : remote_static r3 ≡ some client_static
    pub at_client : into_session i3 ≡ some client_session
    pub at_server : into_session r3 ≡ some server_session
    pub up : InStep client_session server_session
    pub down : InStep server_session client_session

  -- The messages on the wire: the client's preamble, of the length that the server skips, and the
  -- frames of the three messages, each made by its sender's profile with its generator.
  pub record OnWire (client server : MimicryProfile Rng) (rng_c rng_s : Rng) (m1 m2 m3 : Bytes)
      : Type 0 where
    pub junk : Bytes
    pub wire1 : Bytes
    pub wire2 : Bytes
    pub wire3 : Bytes
    pub g0 : Rng
    pub g1 : Rng
    pub g2 : Rng
    pub g3 : Rng
    pub preamble : client.preamble rng_c ≡ (junk, g0)
    pub skipped : length junk ≡ server.preamble_skip
    pub framed1 : client.frame_out m1 g0 ≡ (some wire1, g1)
    pub framed2 : server.frame_out m2 rng_s ≡ (some wire2, g2)
    pub framed3 : client.frame_out m3 g1 ≡ (some wire3, g3)

  -- What a client and a server have behind the handshake. `client` and `serving` are what the code
  -- keeps, and the queues of the two directions are empty.
  pub record Established (InStep : Session → Session → Type 0)
      (profile_c profile_s : MimicryProfile Rng) (connected : Result Client.Client)
      (entered : Option Serving) (out back : Bytes) : Type 0 where
    pub client : Client.Client
    pub serving : Serving
    pub client_ends : connected ≡ ok client
    pub server_ends : entered ≡ some serving
    pub client_sent : client.conn.pipe.stream.outgoing ≡ out
    pub server_sent : serving.conn.pipe.stream.outgoing ≡ back
    pub refines :
        Refines InStep
          (record {
            near = record { conn = client.conn; profile = profile_c };
            far = record { conn = serving.conn; profile = profile_s };
          })
          (record { out = []; back = [] })

  at_server :
      {InStep : Session → Session → Type 0} {ce se : Entropy} {cp spub spriv : Bytes}
      (noise : NoiseRun InStep ce se cp spub spriv) {profile_c profile_s : MimicryProfile Rng}
      {rng_c rng_s : Rng} (on : OnWire profile_c profile_s rng_c rng_s noise.m1 noise.m2 noise.m3)
      (s : Stream)
      → s.incoming ≡ on.junk ++ (on.wire1 ++ on.wire3)
      → length on.wire2 ≤ s.room
      → Meets se rng_s spriv profile_c profile_s s [] on.wire2 noise.r3 noise.server_session
  at_server noise on s incoming room = record {
    junk = on.junk;
    wire1 = on.wire1;
    wire3 = on.wire3;
    skipped = on.skipped;
    incoming = incoming ∙ rw (append-nil_right on.wire3) refl;
    m1 = noise.m1;
    m2 = noise.m2;
    m3 = noise.m3;
    p1 = noise.p1;
    p3 = noise.p3;
    h0 = noise.r0;
    h1 = noise.r1;
    h2 = noise.r2;
    r1 = on.g0;
    r2 = on.g2;
    r3 = on.g1;
    framed1 = rw on.framed1 refl;
    framed3 = rw on.framed3 refl;
    framed2 = on.framed2;
    built = noise.answers;
    read1 = noise.read1;
    wrote2 = noise.wrote2;
    read3 = noise.read3;
    in_session = noise.at_server;
    room = room;
  }

  at_client :
      {InStep : Session → Session → Type 0} {ce se : Entropy} {cp spub spriv : Bytes}
      (noise : NoiseRun InStep ce se cp spub spriv) {profile_c profile_s : MimicryProfile Rng}
      {rng_c rng_s : Rng} (on : OnWire profile_c profile_s rng_c rng_s noise.m1 noise.m2 noise.m3)
      (c : Stream)
      → c.incoming ≡ on.wire2
      → length on.junk + length on.wire1 + length on.wire3 ≤ c.room
      → Answered ce rng_c cp spub profile_s profile_c c [] on.junk on.wire1 on.wire3
          noise.client_session
  at_client noise {rng_s = rng_s} on c incoming room = record {
    wire2 = on.wire2;
    incoming = incoming ∙ sym (append-nil_right on.wire2);
    m1 = noise.m1;
    m2 = noise.m2;
    m3 = noise.m3;
    p2 = noise.p2;
    h0 = noise.i0;
    h1 = noise.i1;
    h2 = noise.i2;
    h3 = noise.i3;
    r0 = on.g0;
    r1 = on.g1;
    r2 = rng_s;
    r3 = on.g3;
    preamble = on.preamble;
    framed1 = on.framed1;
    framed2 = rw on.framed2 refl;
    framed3 = on.framed3;
    built = noise.begins;
    wrote1 = noise.wrote1;
    read2 = noise.read2;
    wrote3 = noise.wrote3;
    in_session = noise.at_client;
    room = room;
  }

  -- A client that connects to a server, with fitting keys and profiles and a gate that accepts the
  -- client's key: the client finds what the server writes, and the server what the client writes, in
  -- any segments. Both ends of the handshake succeed, and leave a connection with empty queues, so
  -- that all that is sent on it later is received in order and once.
  pub connect-Established :
      {InStep : Session → Session → Type 0} {profile_c profile_s : MimicryProfile Rng}
      (to_server : IsFraming profile_c profile_s) (to_client : IsFraming profile_s profile_c)
      (ce se : Entropy) (rng_c rng_s pump_c pump_s : Rng) (cp spub spriv addr : Bytes)
      (service : Service) (gate : TransportGate) (capability : Option protocol.Capability)
      (connect_to : Bytes → Result Stream) (c s : Stream)
      (noise : NoiseRun InStep ce se cp spub spriv)
      (on : OnWire profile_c profile_s rng_c rng_s noise.m1 noise.m2 noise.m3)
      → connect_to addr ≡ ok c
      → c.outgoing ≡ []
      → s.outgoing ≡ []
      → c.incoming ≡ on.wire2
      → s.incoming ≡ on.junk ++ (on.wire1 ++ on.wire3)
      → length on.junk + length on.wire1 + length on.wire3 ≤ c.room
      → length on.wire2 ≤ s.room
      → is_accepted (gate.authenticate noise.client_static) ≡ true
      → Established InStep profile_c profile_s
          (connect connect_to ce rng_c pump_c addr cp spub profile_c none capability)
          (handle_connection se rng_s pump_s spriv service gate profile_s s)
          (on.junk ++ (on.wire1 ++ on.wire3))
          on.wire2
  unfolding connect connected_client handle_connection enter
  connect-Established to_server to_client ce se rng_c rng_s pump_c pump_s cp spub spriv addr service
        gate capability connect_to c s noise on reached no_c no_s in_c in_s room_c room_s accepted =
      let b =
        server_handshake_completes to_server se rng_s spriv s [] on.wire2 noise.r3
          noise.server_session (at_server noise on s in_s room_s) in
      let a =
        client_handshake_completes to_client ce rng_c cp spub c [] on.junk on.wire1 on.wire3
          noise.client_session (at_client noise on c in_c room_c) in
      record {
        client = record {
          conn = record {
            pipe = record { stream = a.stream; rng = pump_c; buf = a.buf };
            session = noise.client_session;
          };
          queue = [];
          is_open = true;
          is_looping = true;
          calls = no_calls;
          events = [];
          state = connected;
          capability = capability;
        };
        serving = record {
          conn = record {
            pipe = record { stream = b.stream; rng = pump_s; buf = b.buf };
            session = noise.server_session;
          };
          service = service;
          queue = [];
          topics = [];
        };
        client_ends = rw (reached, a.is_ok) refl;
        server_ends = rw (b.is_ok, noise.known, accepted) refl;
        client_sent = a.sent ∙ rw no_c (append_assoc on.junk on.wire1 on.wire3);
        server_sent = b.answered ∙ rw no_s refl;
        refines = record {
          to_far = to_server;
          to_near = to_client;
          out =
              rw b.keeps (record {
                first = noise.client_session;
                in_step = noise.up;
                chain = Chain.nothing;
              });
          back = rw a.keeps (record {
            first = noise.server_session;
            in_step = noise.down;
            chain = Chain.nothing;
          });
        };
      }
