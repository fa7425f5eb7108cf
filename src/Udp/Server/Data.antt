-- ===== src/Udp/Server/Data.antt =====
-- src/udp/server.rs: `handle_dgram` at a data datagram.
use vaiexia_obfs.Common.Map
use vaiexia_obfs.Common.Map.{Map}
use vaiexia_obfs.Common.{ℕ, Option, none, some, [], ◌∷◌, ◌++◌, get_elem?, set, if◌then◌else◌}
use vaiexia_obfs.Envelope.{
  Envelope, request, response, subscribe, unsubscribe, subscribe_error, ping, pong,
}
use vaiexia_obfs.External.{Bytes, External, Verdict}
use vaiexia_obfs.Udp.Dataplane.{DataChannel, open_datagram}
use vaiexia_obfs.Udp.Server.State.{
  PeerState, Link, Server, Receipt, Flow, return, next, with_channel, reply,
}

module _ ⦃X : External⦄ where
  open X use {
    protocol, Rng, Entropy, Addr, addr_key, Handshake, CookieSecret, Service, handle, verify_topic,
    event_source,
  }

  enqueue : ℕ → Link → Envelope protocol → Server → Server
  enqueue i l env s = record s { links = set s.links i (record l { queue = l.queue ++ env ∷ [] }) }

  add_topic : ℕ → Link → protocol.Topic → Server → Server
  add_topic i l topic s = record s {
    links = set s.links i (record l { topics = l.topics ++ topic ∷ [] });
  }

  unfoldable pub subscribe_to : ℕ → Link → protocol.Topic → Verdict protocol → Server → Server
  unfolding enqueue add_topic
  subscribe_to i l topic Verdict.granted s =
      if event_source s.service topic then add_topic i l topic s else s
  subscribe_to i l topic (Verdict.auth d) s = enqueue i l (subscribe_error topic d) s
  subscribe_to i l topic Verdict.other s =
      enqueue i l (subscribe_error topic protocol.subscription_denied) s

  handled : ℕ → Link → Addr → protocol.Response × Service → Server → Server
  unfolding reply
  handled i l src (resp, service) s = reply i l src (response resp) (record s { service = service })

  unfoldable pub handle_envelope : ℕ → Link → Addr → Envelope protocol → Server → Server
  unfolding reply handled subscribe_to
  handle_envelope i l src ping s = reply i l src pong s
  handle_envelope i l src (request req) s = handled i l src (handle s.service req) s
  handle_envelope i l src (subscribe topic filter capability) s =
      subscribe_to i l topic (verify_topic s.service capability topic) s
  handle_envelope i l src (unsubscribe topic) s = s
  handle_envelope i l src _ s = s

  unfoldable pub opened_at :
      ℕ → Link → Addr → Option (Envelope protocol) × DataChannel → Server → Flow
  unfolding handle_envelope
  opened_at i l src (none, ch) s = return (with_channel i l ch s)
  opened_at i l src (some env, ch) s =
      next (handle_envelope i (record l { channel = ch }) src env (with_channel i l ch s))

  -- A session holds the number of a link that was made with it; a number of no link drops the
  -- datagram.
  at_link : ℕ → Addr → Bytes → Option Link → Server → Flow
  unfolding opened_at
  at_link i src dgram none s = return s
  at_link i src dgram (some l) s = opened_at i l src (open_datagram l.channel dgram) s

  from_peer : Receipt → Addr → Bytes → Option PeerState → Server → Flow
  unfolding at_link
  from_peer r src dgram none s = return s
  from_peer r src dgram (some peer) s =
      at_link peer.link src dgram (get_elem? s.links peer.link) (record s {
        peers = Map.insert ⦃e = addr_key⦄ s.peers src (record peer { last_seen = r.now });
      })

  unfoldable pub handle_data : Receipt → Addr → Bytes → Server → Flow
  unfolding from_peer
  handle_data r src dgram s = from_peer r src dgram (Map.get ⦃e = addr_key⦄ s.peers src) s
