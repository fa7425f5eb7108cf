-- ===== src/Udp/Server/Tasks.antt =====
-- src/udp/server.rs: the sealer tasks, the forwarding tasks and the rotation of the cookie secret.

use vaiexia_obfs.Common.{
  ℕ, Option, none, some, List, [], ◌∷◌, ◌++◌, Result, get_elem?, if◌then◌else◌,
}
use vaiexia_obfs.Envelope.{Envelope, event}
use vaiexia_obfs.External.{Bytes, External}
use vaiexia_obfs.Udp.Dataplane.{DataChannel, seal_envelope}
use vaiexia_obfs.Udp.Server.State.{Link, Server, send_sealed, with_channel}

module _ ⦃X : External⦄ where
  open X use {
    protocol, Rng, Entropy, Addr, addr_key, Handshake, CookieSecret, Service, handle, verify_topic,
    event_source,
  }

  unfoldable pub drained : ℕ → Link → Result Bytes × DataChannel × Rng → Server → Server
  drained i l (result, ch, local_rng) s = send_sealed l.dst result (with_channel i l ch s)

  unfoldable pub drain_queue : Rng → ℕ → Link → List (Envelope protocol) → Server → Server
  unfolding drained
  drain_queue local_rng i l [] s = s
  drain_queue local_rng i l (env ∷ rest) s =
      drained i (record l { queue = rest }) (seal_envelope l.channel env local_rng) s

  unfoldable pub drain_link : Rng → ℕ → Option Link → Server → Server
  unfolding drain_queue
  drain_link local_rng i none s = s
  drain_link local_rng i (some l) s = drain_queue local_rng i l l.queue s

  -- One round of the sealer task of link `i`: the next envelope of its queue is sealed, with the
  -- task's own generator, and sent.
  unfoldable pub drain : Rng → ℕ → Server → Server
  unfolding drain_link
  drain local_rng i s = drain_link local_rng i (get_elem? s.links i) s

  unfoldable pub forward_topics : protocol.Event → List protocol.Topic → List (Envelope protocol)
  forward_topics ev [] = []
  forward_topics ev (t ∷ ts) =
      let rest = forward_topics ev ts in
      if protocol.topic_key.equals (protocol.event_topic ev) t then event ev ∷ rest else rest

  unfoldable pub forward : protocol.Event → List Link → List Link
  unfolding forward_topics
  forward ev [] = []
  forward ev (l ∷ ls) = record l { queue = l.queue ++ forward_topics ev l.topics } ∷ forward ev ls

  -- An event of the service reaches the forwarding task of every subscription.
  unfoldable pub publish : protocol.Event → Server → Server
  unfolding forward
  publish ev s = record s { links = forward ev s.links }

  -- One tick of the rotation task: `seed` is what its generator gives.
  unfoldable pub rotate_cookie : Bytes → Server → Server
  rotate_cookie seed s = record s { cookie_secret = X.rotate s.cookie_secret seed }
