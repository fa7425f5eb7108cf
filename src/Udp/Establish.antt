-- ===== src/Udp/Establish.antt =====
-- src/udp/handshake.rs against src/udp/server.rs: the initiator and the server in one exchange.
pub mod AtServer
pub mod AtClient
pub mod Complete
use vaiexia_obfs.Common.{ℕ, ◌<◌, ◌≡◌, some, [], length}
use vaiexia_obfs.External.{Bytes, External}

module _ ⦃X : External⦄ where
  open X use {Entropy, Handshake, initiator, responder, write_message, read_message, remote_static}

  -- A Noise-XK exchange of an initiator and a responder whose keys fit: each message that one writes,
  -- the other reads, the third with the payload `seed`; a Noise message has at most 65535 bytes.
  pub record NoiseRun (client_entropy server_entropy : Entropy)
      (client_private server_pub server_private seed : Bytes) : Type 0 where
    pub m1 : Bytes
    pub m2 : Bytes
    pub m3 : Bytes
    pub p1 : Bytes
    pub p2 : Bytes
    pub i0 : Handshake
    pub i1 : Handshake
    pub i2 : Handshake
    pub i3 : Handshake
    pub r0 : Handshake
    pub r1 : Handshake
    pub r2 : Handshake
    pub r3 : Handshake
    pub client_static : Bytes
    pub begins : initiator client_entropy client_private server_pub ≡ some i0
    pub answers : responder server_entropy server_private ≡ some r0
    pub wrote1 : write_message i0 [] ≡ (some m1, i1)
    pub read1 : read_message r0 m1 ≡ (some p1, r1)
    pub wrote2 : write_message r1 [] ≡ (some m2, r2)
    pub read2 : read_message i1 m2 ≡ (some p2, i2)
    pub wrote3 : write_message i2 seed ≡ (some m3, i3)
    pub read3 : read_message r2 m3 ≡ (some seed, r3)
    pub known : remote_static r3 ≡ some client_static
    pub short : length m1 < 65536
