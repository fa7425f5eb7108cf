-- ===== src/Udp/Server/Links/Topics.antt =====
-- What the parts of src/udp/server.rs do to the topics that are forwarded to the sessions.
use vaiexia_obfs.Common.Map
use vaiexia_obfs.Common.{
  ℕ, ap, ◌∙◌, true, ◌≡◌, refl, Option, none, some, List, [], ◌∷◌, ◌++◌, Result, ok, err, get_elem?,
  All, All-append_one, Option-cases, Bool-cases, inl, inr,
}
use vaiexia_obfs.Envelope.{
  Envelope, request, response, event, subscribe, unsubscribe, subscribe_error, ping, pong,
}
use vaiexia_obfs.External.{Bytes, External, Verdict}
use vaiexia_obfs.Verifier.{is_accepted}
use vaiexia_obfs.Udp.Dataplane.{DataChannel, seal_envelope, open_datagram}
use vaiexia_obfs.Udp.Handshake.{complete_handshake_msg3}
use vaiexia_obfs.Udp.Server.State.{
  PeerState, Link, Server, Config, Receipt, with_channel, reply, send_sealed,
}
use vaiexia_obfs.Udp.Server.Hs1.{handle_hs1}
use vaiexia_obfs.Udp.Server.Hs3.{handle_hs3, admit, greet}
use vaiexia_obfs.Udp.Server.Data.{handle_data, handle_envelope, opened_at, subscribe_to}
use vaiexia_obfs.Udp.Server.Dgram.{clean_up, handle_dgram}
use vaiexia_obfs.Udp.Server.Tasks.{drain, drained, drain_queue, drain_link}
use vaiexia_obfs.Udp.Server.Runs.{handle_dgram-Ways}
use vaiexia_obfs.Udp.Server.Frame.{outcome}
use vaiexia_obfs.Udp.Server.Links.{reply-links}
use vaiexia_obfs.Udp.Server.Links.Session.{handle_hs1-same}
use vaiexia_obfs.Udp.Server.Links.Allowed.{AreAllowed, written, longer, topics_at}

module _ ⦃X : External⦄ where
  open X use {
    protocol, Addr, addr_key, Rng, Handshake, Service, CookieSecret, verify_topic, event_source,
  }

  -- The datagram is a subscription to the topic by the session of the link `i`, whose record opens with
  -- the link's channel, and the server's service grants the topic to its capability and has a source
  -- for it.
  pub record Subscribed (i : ℕ) (src : Addr) (dgram : Bytes) (s : Server) (topic : protocol.Topic)
      : Type 0 where
    pub peer : PeerState
    pub session : Map.get ⦃e = addr_key⦄ s.peers src ≡ some peer
    pub its_link : peer.link ≡ i
    pub link : Link
    pub there : get_elem? s.links i ≡ some link
    pub filter : Option protocol.Value
    pub capability : Option protocol.Capability
    pub opened : (open_datagram link.channel dgram).0 ≡ some (subscribe topic filter capability)
    pub verified : verify_topic s.service capability topic ≡ Verdict.granted
    pub has_source : event_source s.service topic ≡ true

  module _ (P : ℕ → protocol.Topic → Type 0) where
    abbrev Allowed : Server → Type 0
    Allowed s = AreAllowed P s.links

    reply-Allowed :
        (i : ℕ) (l : Link) (src : Addr) (env : Envelope protocol) (s : Server)
        → Allowed s
        → All (P i) l.topics
        → Allowed (reply i l src env s)
    reply-Allowed i l src env s h own =
        let (ch, same) = reply-links i l src env s in
        rw same (written P s.links i (record l { channel = ch }) h own)

    subscribe_to-Allowed :
        (i : ℕ) (l : Link) (topic : protocol.Topic) (capability : Option protocol.Capability)
        (v : Verdict protocol) (s : Server)
        → verify_topic s.service capability topic ≡ v
        → (verify_topic s.service capability topic ≡ Verdict.granted
            → event_source s.service topic ≡ true
            → P i topic)
        → Allowed s
        → All (P i) l.topics
        → Allowed (subscribe_to i l topic v s)
    unfolding subscribe_to
    subscribe_to-Allowed i l topic capability (Verdict.auth d) s e may h own =
        written P s.links i (record l { queue = l.queue ++ subscribe_error topic d ∷ [] }) h own
    subscribe_to-Allowed i l topic capability Verdict.other s e may h own =
        written P s.links i
          (record l { queue = l.queue ++ subscribe_error topic protocol.subscription_denied ∷ [] })
          h own
    subscribe_to-Allowed i l topic capability Verdict.granted s e may h own =
        elim (Bool-cases (event_source s.service topic)) [
          | inl there ↦ rw there (
              written P s.links i (record l { topics = l.topics ++ topic ∷ [] }) h
                (All-append_one (P i) l.topics topic own (may e there)))
          | inr absent ↦ rw absent h
        ]

    -- What the service grants to this envelope is allowed for the link.
    abbrev MayTake : ℕ → Envelope protocol → Server → Type 0
    MayTake i env s =
        (topic : protocol.Topic) (filter : Option protocol.Value)
        (capability : Option protocol.Capability)
        → env ≡ subscribe topic filter capability
        → verify_topic s.service capability topic ≡ Verdict.granted
        → event_source s.service topic ≡ true
        → P i topic

    handle_envelope-Allowed :
        (i : ℕ) (l : Link) (src : Addr) (env : Envelope protocol) (s : Server)
        → MayTake i env s
        → Allowed s
        → All (P i) l.topics
        → Allowed (handle_envelope i l src env s)
    unfolding handle_envelope
    handle_envelope-Allowed i l src ping s may h own = reply-Allowed i l src pong s h own
    handle_envelope-Allowed i l src (request req) s may h own =
        let (resp, service) = X.handle s.service req in
        reply-Allowed i l src (response resp) (record s { service = service }) h own
    handle_envelope-Allowed i l src (subscribe topic f c) s may h own =
        subscribe_to-Allowed i l topic c (verify_topic s.service c topic) s refl
          (may topic f c refl) h own
    handle_envelope-Allowed i l src (response resp) s may h own = h
    handle_envelope-Allowed i l src (event ev) s may h own = h
    handle_envelope-Allowed i l src (unsubscribe topic) s may h own = h
    handle_envelope-Allowed i l src (subscribe_error topic d) s may h own = h
    handle_envelope-Allowed i l src pong s may h own = h

    opened_at-Allowed :
        (i : ℕ) (l : Link) (src : Addr) (o : Option (Envelope protocol) × DataChannel) (s : Server)
        → ((env : Envelope protocol) → o.0 ≡ some env → MayTake i env s)
        → Allowed s
        → All (P i) l.topics
        → Allowed (outcome (opened_at i l src o s))
    unfolding opened_at
    opened_at-Allowed i l src (none, ch) s may h own =
        written P s.links i (record l { channel = ch }) h own
    opened_at-Allowed i l src (some env, ch) s may h own =
        let l' : Link = record l { channel = ch } in
        handle_envelope-Allowed i l' src env (with_channel i l ch s) (may env refl)
          (written P s.links i l' h own) own

    handle_data-Allowed :
        (r : Receipt) (src : Addr) (dgram : Bytes) (s : Server)
        → ((i : ℕ) (topic : protocol.Topic) → Subscribed i src dgram s topic → P i topic)
        → Allowed s
        → Allowed (outcome (handle_data r src dgram s))
    unfolding handle_data
    handle_data-Allowed r src dgram s may h =
        elim (Option-cases (Map.get ⦃e = addr_key⦄ s.peers src)) [
          | inl absent ↦ rw absent h
          | inr (p, found) ↦ elim (Option-cases (get_elem? s.links p.link)) [
            | inl lost ↦ rw (found, lost) h
            | inr (l, there) ↦
                rw (found, there)
                  (opened_at-Allowed p.link l src (open_datagram l.channel dgram)
                    (record s {
                      peers =
                          Map.insert ⦃e = addr_key⦄ s.peers src (record p { last_seen = r.now });
                    })
                    (λ env opened topic filter capability e verified has_source.
                      may p.link topic (record {
                        peer = p;
                        session = found;
                        its_link = refl;
                        link = l;
                        there = there;
                        filter = filter;
                        capability = capability;
                        opened = opened ∙ ap some e;
                        verified = verified;
                        has_source = has_source;
                      }))
                    h (topics_at P s.links p.link l h there))
          ]
        ]

    greet-Allowed :
        (r : Receipt) (src : Addr) (o : Result Bytes × DataChannel × Rng) (s : Server)
        → Allowed s
        → Allowed (greet r src o s)
    unfolding greet send_sealed
    greet-Allowed r src (ok w, ch, rng) s h = longer P s.links src ch h
    greet-Allowed r src (err e, ch, rng) s h = longer P s.links src ch h

    admit-Allowed :
        (cfg : Config) (r : Receipt) (src : Addr) (s : Server)
        (o : Result (DataChannel × Bytes) × Handshake)
        → Allowed s
        → Allowed (outcome (admit cfg r src s o))
    unfolding admit
    admit-Allowed cfg r src s (err e, hs) h = h
    admit-Allowed cfg r src s (ok (channel, key), hs) h =
        elim (Bool-cases (is_accepted (cfg.gate.authenticate key))) [
          | inl accepted ↦ rw accepted (greet-Allowed r src (seal_envelope channel pong s.rng) s h)
          | inr rejected ↦ rw rejected h
        ]

    handle_hs3-Allowed :
        (cfg : Config) (r : Receipt) (src : Addr) (body : Bytes) (s : Server)
        → Allowed s
        → Allowed (outcome (handle_hs3 cfg r src body s))
    unfolding handle_hs3
    handle_hs3-Allowed cfg r src body s h =
        elim (Option-cases (Map.get ⦃e = addr_key⦄ s.pending src)) [
          | inl absent ↦ rw absent h
          | inr (ph, found) ↦ rw found (
              admit-Allowed cfg r src
                (record s { pending = Map.remove ⦃e = addr_key⦄ s.pending src })
                (complete_handshake_msg3 ph.responder body cfg.profile) h)
        ]

    drained-Allowed :
        (i : ℕ) (l : Link) (o : Result Bytes × DataChannel × Rng) (s : Server)
        → Allowed s
        → All (P i) l.topics
        → Allowed (drained i l o s)
    unfolding drained send_sealed
    drained-Allowed i l (ok w, ch, g) s h own =
        written P s.links i (record l { channel = ch }) h own
    drained-Allowed i l (err e, ch, g) s h own =
        written P s.links i (record l { channel = ch }) h own

    queue-Allowed :
        (g : Rng) (i : ℕ) (l : Link) (q : List (Envelope protocol)) (s : Server)
        → Allowed s
        → All (P i) l.topics
        → Allowed (drain_queue g i l q s)
    unfolding drain_queue
    queue-Allowed g i l [] s h own = h
    queue-Allowed g i l (env ∷ rest) s h own =
        drained-Allowed i (record l { queue = rest }) (seal_envelope l.channel env g) s h own

    pub drain-Allowed : (g : Rng) (i : ℕ) (s : Server) → Allowed s → Allowed (drain g i s)
    unfolding drain drain_link
    drain-Allowed g i s h = elim (Option-cases (get_elem? s.links i)) [
      | inl lost ↦ rw lost h
      | inr (l, there) ↦
          rw there (queue-Allowed g i l l.queue s h (topics_at P s.links i l h there))
    ]

    handle_hs1-Allowed :
        (cfg : Config) (r : Receipt) (src : Addr) (body : Bytes) (s : Server)
        → Allowed s
        → Allowed (outcome (handle_hs1 cfg r src body s))
    handle_hs1-Allowed cfg r src body s h = rw ((handle_hs1-same cfg r src body s).1) h

    pub handle_dgram-Allowed :
        (cfg : Config) (r : Receipt) (src : Addr) (dgram : Bytes) (s : Server)
        → ((i : ℕ) (topic : protocol.Topic) → Subscribed i src dgram s topic → P i topic)
        → Allowed s
        → Allowed (handle_dgram cfg r src dgram s)
    unfolding clean_up
    handle_dgram-Allowed cfg r src dgram s may h = handle_dgram-Ways {Q = Allowed} (record {
      ignored = h;
      at_hs1 = λ body _. handle_hs1-Allowed cfg r src body s h;
      at_hs3 = λ body _. handle_hs3-Allowed cfg r src body s h;
      at_data = λ body _. handle_data-Allowed r src dgram s may h;
      at_clean_up = λ t k. k;
    })
