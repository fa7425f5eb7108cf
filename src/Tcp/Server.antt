-- ===== src/Tcp/Server.antt =====
-- src/server.rs: one connection of the TCP server.
pub mod Access
pub mod Listener
use vaiexia_obfs.Common.{
  ℕ, Bool, true, false, Option, none, some, List, [], ◌∷◌, ◌++◌, Result, ok, err, if◌then◌else◌,
}
use vaiexia_obfs.Envelope.{
  Envelope, request, response, event, subscribe, unsubscribe, subscribe_error, ping, pong,
}
use vaiexia_obfs.External.{Bytes, External, MimicryProfile, Verdict}
use vaiexia_obfs.Verifier.{TransportGate, is_accepted}
use vaiexia_obfs.Stream.{Stream}
use vaiexia_obfs.Tcp.Framing.{Pipe, Conn, send_frame, recv_frame}
use vaiexia_obfs.Tcp.HandshakeIo.{server_handshake_in_place}

module _ ⦃X : External⦄ where
  open X use {protocol, Rng, Entropy, Session, Service, handle, verify_topic, event_source}

  -- A connection past its gate: its end of the stream, the service, the queue of `event_tx`, and the
  -- topics that a task forwards into it.
  pub record Serving : Type 0 where
    pub conn : Conn
    pub service : Service
    pub queue : List (Envelope protocol)
    pub topics : List protocol.Topic

  -- A round of the pump goes on, or breaks out of the loop.
  pub data Round : Type 0 where
    go_on : Serving → Round
    break : Serving → Round

  unfoldable pub sent_round : Serving → Result (Unit {0}) × Conn → Round
  sent_round s (ok done, conn) = go_on (record s { conn = conn })
  sent_round s (err e, conn) = break (record s { conn = conn })

  -- The jitter's draw; the sleep itself is not part of the state.
  unfoldable pub delayed : MimicryProfile Rng → Conn → Conn
  delayed profile c = record c { pipe = record c.pipe { rng = (profile.jitter c.pipe.rng).1 } }

  unfoldable pub push : MimicryProfile Rng → Envelope protocol → Serving → Round
  unfolding sent_round
  push profile env s = sent_round s (send_frame profile env (delayed profile s.conn))

  unfoldable pub enqueue : Envelope protocol → Serving → Serving
  enqueue env s = record s { queue = s.queue ++ env ∷ [] }

  unfoldable pub handle_subscribe : protocol.Topic → Serving → Serving
  handle_subscribe topic s =
      if event_source s.service topic
      then record s { topics = s.topics ++ topic ∷ [] }
      else enqueue (subscribe_error topic protocol.no_event_source) s

  unfoldable pub subscribe_to :
      MimicryProfile Rng → protocol.Topic → Verdict protocol → Serving → Round
  subscribe_to profile topic Verdict.granted s = go_on (handle_subscribe topic s)
  subscribe_to profile topic (Verdict.auth d) s = push profile (subscribe_error topic d) s
  subscribe_to profile topic Verdict.other s =
      push profile (subscribe_error topic protocol.subscription_denied) s

  answered : MimicryProfile Rng → protocol.Response × Service → Serving → Round
  answered profile (resp, service) s = push profile (response resp) (record s { service = service })

  unfoldable pub on_envelope : MimicryProfile Rng → Envelope protocol → Serving → Round
  unfolding answered
  on_envelope profile ping s = push profile pong s
  on_envelope profile (request req) s = answered profile (handle s.service req) s
  on_envelope profile (subscribe topic filter capability) s =
      subscribe_to profile topic (verify_topic s.service capability topic) s
  on_envelope profile (unsubscribe topic) s = go_on s
  on_envelope profile _ s = go_on s

  unfoldable pub on_received :
      MimicryProfile Rng → Result (Envelope protocol) × Conn → Serving → Round
  on_received profile (err e, conn) s = break (record s { conn = conn })
  on_received profile (ok env, conn) s = on_envelope profile env (record s { conn = conn })

  unfoldable pub by_queue : MimicryProfile Rng → List (Envelope protocol) → Serving → Round
  unfolding on_received
  by_queue profile (env ∷ rest) s = push profile env (record s { queue = rest })
  by_queue profile [] s = on_received profile (recv_frame profile s.conn) s

  -- One round of the pump. `biased`: an event that waits goes before a frame. A receipt that an
  -- event interrupts has kept its bytes in the buffer, so it counts as not begun.
  unfoldable pub round : MimicryProfile Rng → Serving → Round
  unfolding by_queue
  round profile s = by_queue profile s.queue s

  forward_topics : protocol.Event → List protocol.Topic → List (Envelope protocol)
  forward_topics ev [] = []
  forward_topics ev (t ∷ ts) =
      let rest = forward_topics ev ts in
      if protocol.topic_key.equals (protocol.event_topic ev) t then event ev ∷ rest else rest

  -- An event of the service reaches the forwarding task of every subscription.
  unfoldable pub publish : protocol.Event → Serving → Serving
  unfolding forward_topics
  publish ev s = record s { queue = s.queue ++ forward_topics ev s.topics }

  abbrev gate_opens : TransportGate → Option Bytes → Bool
  gate_opens gate none = false
  gate_opens gate (some key) = is_accepted (gate.authenticate key)

  unfoldable pub enter :
      TransportGate
      → Service
      → Rng
      → Result (Session × Option Bytes × Bytes) × Stream
      → Option Serving
  enter gate service rng (err e, stream) = none
  enter gate service rng (ok (session, remote_key, buf), stream) =
      if gate_opens gate remote_key
      then some (record {
        conn = record {
          pipe = record { stream = stream; rng = rng; buf = buf };
          session = session;
        };
        service = service;
        queue = [];
        topics = [];
      })
      else none

  -- The connection as far as its pump; `none` where the code returns before it. `rng` and `rng'` are
  -- the generators of the handshake and of the pump.
  unfoldable pub handle_connection :
      Entropy
      → Rng
      → Rng
      → Bytes
      → Service
      → TransportGate
      → MimicryProfile Rng
      → Stream
      → Option Serving
  unfolding enter
  handle_connection entropy rng rng' server_private service gate profile stream =
      enter gate service rng' (server_handshake_in_place entropy rng server_private profile stream)
