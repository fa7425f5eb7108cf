-- ===== src/Tcp/Server/Access.antt =====
-- Who reaches the service of a TCP connection, and who gets its events.
use vaiexia_obfs.Common.{
  ◌≡◌, refl, ap, true, Option, none, some, List, [], ◌∷◌, ◌++◌, Result, ok, err, inl, inr, arith,
  Bool-cases,
}
use vaiexia_obfs.Envelope.{
  Envelope, request, response, event, subscribe, unsubscribe, subscribe_error, ping, pong,
}
use vaiexia_obfs.External.{Bytes, External, MimicryProfile, Verdict}
use vaiexia_obfs.Verifier.{TransportGate, is_accepted}
use vaiexia_obfs.Stream.{Stream}
use vaiexia_obfs.Tcp.Framing.{Conn, send_frame, recv_frame}
use vaiexia_obfs.Tcp.HandshakeIo.{server_handshake_in_place}
use vaiexia_obfs.Tcp.Server.{
  Serving, Round, go_on, break, push, subscribe_to, handle_subscribe, enqueue, on_envelope, round,
  handle_connection, delayed, enter, on_received, by_queue, sent_round,
}

module _ ⦃X : External⦄ where
  open X use {protocol, Rng, Entropy, Session, Service, handle, verify_topic, event_source}

  -- The handshake has given a session and a static key that the gate accepts, and the connection
  -- starts with just what the handshake has left: the session, the stream and the bytes read ahead.
  pub record Admitted (handshake : Result (Session × Option Bytes × Bytes) × Stream)
      (gate : TransportGate) (s : Serving) : Type 0 where
    pub static : Bytes
    pub completed :
        handshake ≡ (ok (s.conn.session, some static, s.conn.pipe.buf), s.conn.pipe.stream)
    pub accepted : is_accepted (gate.authenticate static) ≡ true

  entered :
      (gate : TransportGate) (service : Service) (rng : Rng)
      (handshake : Result (Session × Option Bytes × Bytes) × Stream) (s : Serving)
      → enter gate service rng handshake ≡ some s
      → Admitted handshake gate s
  unfolding enter
  entered gate service rng (err e, stream) s h = cc
  entered gate service rng (ok (session, none, buf), stream) s h = cc
  entered gate service rng (ok (session, some key, buf), stream) s h =
      elim (Bool-cases (is_accepted (gate.authenticate key))) [
        | inl accepted ↦ record { static = key; completed = ground arith; accepted = accepted }
        | inr rejected ↦ cc (rw rejected at h)
      ]

  -- The pump runs only for a peer whose completed handshake gave a static key that the gate accepts;
  -- in every other case, an absent key included, the connection is closed before it.
  pub handle_connection-Admitted :
      (entropy : Entropy) (rng rng' : Rng) (server_private : Bytes) (service : Service)
      (gate : TransportGate) (profile : MimicryProfile Rng) (stream : Stream) (s : Serving)
      → handle_connection entropy rng rng' server_private service gate profile stream ≡ some s
      → Admitted (server_handshake_in_place entropy rng server_private profile stream) gate s
  unfolding handle_connection
  handle_connection-Admitted entropy rng rng' server_private service gate profile stream s h =
      entered gate service rng'
        (server_handshake_in_place entropy rng server_private profile stream) s h

  abbrev pub serving : Round → Serving
  serving (go_on s) = s
  serving (break s) = s

  -- What may happen to the topics that are forwarded: nothing, or one more that has been asked for, and
  -- that the service grants to the capability and has a source for.
  pub data Topics (Asked : protocol.Topic → Option protocol.Capability → Type 0) (s : Serving)
      (after : List protocol.Topic) : Type 0 where
    kept : after ≡ s.topics → Topics Asked s after
    granted :
        (topic : protocol.Topic) (capability : Option protocol.Capability)
        → Asked topic capability
        → after ≡ s.topics ++ topic ∷ []
        → verify_topic s.service capability topic ≡ Verdict.granted
        → event_source s.service topic ≡ true
        → Topics Asked s after

  -- The envelope is a subscription to the topic with this capability.
  abbrev pub IsSubscribe : Envelope protocol → protocol.Topic → Option protocol.Capability → Type 0
  IsSubscribe env topic capability =
      (filter : Option protocol.Value) × (env ≡ subscribe topic filter capability)

  -- No event waits for the connection, and the frame that it receives next is the subscription.
  abbrev pub Subscribes :
      MimicryProfile Rng → Serving → protocol.Topic → Option protocol.Capability → Type 0
  Subscribes profile s topic capability =
      (env : Envelope protocol) × (s.queue ≡ [])
      × ((recv_frame profile s.conn).0 ≡ ok env)
      × IsSubscribe env topic capability

  push-topics :
      (profile : MimicryProfile Rng) (env : Envelope protocol) (s : Serving)
      → (serving (push profile env s)).topics ≡ s.topics
  unfolding push sent_round
  push-topics profile env s = by_result (send_frame profile env (delayed profile s.conn))
    where
      by_result : (r : Result (Unit {0}) × Conn) → (serving (sent_round s r)).topics ≡ s.topics
      by_result (ok done, conn) = refl
      by_result (err e, conn) = refl

  envelope-topics :
      (profile : MimicryProfile Rng) (env : Envelope protocol) (s : Serving)
      → Topics (IsSubscribe env) s (serving (on_envelope profile env s)).topics
  unfolding on_envelope subscribe_to handle_subscribe enqueue
  envelope-topics profile ping s = kept (push-topics profile pong s)
  envelope-topics profile (request req) s =
      let (resp, service) = handle s.service req in
      kept (push-topics profile (response resp) (record s { service = service }))
  envelope-topics profile (subscribe topic filter capability) s =
      by_verdict (verify_topic s.service capability topic) refl
    where
      by_verdict :
          (v : Verdict protocol)
          → verify_topic s.service capability topic ≡ v
          → Topics
              (IsSubscribe (subscribe topic filter capability))
              s
              (serving (subscribe_to profile topic v s)).topics
      by_verdict (Verdict.auth d) e = kept (push-topics profile (subscribe_error topic d) s)
      by_verdict Verdict.other e =
          kept (push-topics profile (subscribe_error topic protocol.subscription_denied) s)
      by_verdict Verdict.granted e = elim (Bool-cases (event_source s.service topic)) [
        | inl there ↦ rw there (granted topic capability (filter, refl) refl e there)
        | inr absent ↦ rw absent (kept refl)
      ]
  envelope-topics profile (response resp) s = kept refl
  envelope-topics profile (event ev) s = kept refl
  envelope-topics profile (unsubscribe topic) s = kept refl
  envelope-topics profile (subscribe_error topic d) s = kept refl
  envelope-topics profile pong s = kept refl

  -- No round of the pump starts to forward a topic without a grant of it: a round keeps the
  -- topics, or adds one that the connection's next frame subscribes to, that `verify_topic` has granted to
  -- the capability in that frame, and that has an event source.
  pub round-topics :
      (profile : MimicryProfile Rng) (s : Serving)
      → Topics (Subscribes profile s) s (serving (round profile s)).topics
  unfolding round by_queue on_received
  round-topics profile s = by_queue_cases s.queue refl
    where
      by_receipt :
          (r : Result (Envelope protocol) × Conn)
          → recv_frame profile s.conn ≡ r
          → s.queue ≡ []
          → Topics (Subscribes profile s) s (serving (on_received profile r s)).topics
      by_receipt (err e, conn) same idle = kept refl
      by_receipt (ok env, conn) same idle =
          elim (envelope-topics profile env (record s { conn = conn })) [
            | kept same_topics ↦ kept same_topics
            | granted t c asked e v src ↦ granted t c (env, idle, ap (λ x. x.0) same, asked) e v src
          ]

      by_queue_cases :
          (q : List (Envelope protocol))
          → s.queue ≡ q
          → Topics (Subscribes profile s) s (serving (by_queue profile q s)).topics
      by_queue_cases (env ∷ rest) e = kept (push-topics profile env (record s { queue = rest }))
      by_queue_cases [] e = by_receipt (recv_frame profile s.conn) refl e
