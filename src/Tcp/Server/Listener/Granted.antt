-- ===== src/Tcp/Server/Listener/Granted.antt =====
-- Who the connections of a listener of src/server.rs are, and what they have been granted, over its runs.
use vaiexia_obfs.Common.{ℕ, ◌≡◌, true, Option, some, ok, get_elem?, length, ◌⊎◌, if◌then◌else◌}
use vaiexia_obfs.External.{Bytes, External, Verdict}
use vaiexia_obfs.Verifier.{is_accepted}
use vaiexia_obfs.Stream.{Stream}
use vaiexia_obfs.Tcp.HandshakeIo.{server_handshake_in_place}
use vaiexia_obfs.Tcp.Server.{Serving}
use vaiexia_obfs.Tcp.Server.Access.{granted, Subscribes}
use vaiexia_obfs.Tcp.Server.Listener.{
  Config, Listener, accepted, accept_failed, handle_dropped, Step, Trace,
}

module _ ⦃X : External⦄ where
  open X use {protocol, Rng, Entropy, Addr, Session, Service, verify_topic, event_source}

  -- The arriving stream is the connection `i`, and its handshake completes with a static key that the
  -- gate accepts.
  pub record HasAuthenticated (cfg : Config) (i : ℕ) (entropy : Entropy) (rng : Rng)
      (stream : Stream) (l : Listener) : Type 0 where
    pub was_listening : l.is_listening ≡ true
    pub place : length l.connections ≡ i
    pub static : Bytes
    pub session : Session
    pub buf : Bytes
    pub completed :
        (server_handshake_in_place entropy rng cfg.server_private cfg.profile stream).0
        ≡ ok (session, some static, buf)
    pub accepted : is_accepted (cfg.gate.authenticate static) ≡ true

  -- The connection is open at this moment, its next frame is a subscription to the topic, and the service
  -- that the listener has then grants it to the capability in the frame, and has a source for it.
  pub record Grants (i : ℕ) (topic : protocol.Topic) (l : Listener) : Type 0 where
    pub connection : Serving
    pub is_open : get_elem? l.connections i ≡ some (some connection)
    pub capability : Option protocol.Capability
    pub asked : Subscribes l.config.profile connection topic capability
    pub verified : verify_topic l.service capability topic ≡ Verdict.granted
    pub has_source : event_source l.service topic ≡ true

  -- A step of this run was the arrival of the connection `i`.
  abbrev pub Entered : {k l : Listener} → Config → Trace k l → ℕ → Type 0
  Entered cfg Trace.here i = ⊥
  Entered cfg (Trace.then run (Step.arrives (accepted entropy rng rng' stream) l)) i =
      HasAuthenticated cfg i entropy rng stream l ⊎ Entered cfg run i
  Entered cfg (Trace.then run (Step.arrives accept_failed l)) i = Entered cfg run i
  Entered cfg (Trace.then run (Step.arrives handle_dropped l)) i = Entered cfg run i
  Entered cfg (Trace.then run (Step.rounds k l)) i = Entered cfg run i
  Entered cfg (Trace.then run (Step.emits ev l)) i = Entered cfg run i

  -- A step of this run was a round of the connection `i` by which it was granted the topic.
  abbrev pub Granted : {k l : Listener} → Trace k l → ℕ → protocol.Topic → Type 0
  Granted Trace.here i topic = ⊥
  Granted (Trace.then run (Step.arrives arrival l)) i topic = Granted run i topic
  Granted (Trace.then run (Step.rounds k l)) i topic =
      ((k ≡ i) × Grants i topic l) ⊎ Granted run i topic
  Granted (Trace.then run (Step.emits ev l)) i topic = Granted run i topic
