-- ===== src/Udp/Server/Replies.antt =====
-- What the handler sends.
use vaiexia_obfs.Common.{
  leb, length, not, ◌&&◌, Bool-cases, ℕ, ◌≡◌, refl, Option, none, some, [], ◌∷◌, ◌++◌, Result, ok,
  err, arith, inl, inr, ◌⊎◌, Option-cases, get_elem?, set,
}
use vaiexia_obfs.Common.Map
use vaiexia_obfs.Envelope.{Envelope, request, response, subscribe, ping, pong}
use vaiexia_obfs.External.{Bytes, External}
use vaiexia_obfs.Udp.Handshake.{
  process_hs1, complete_handshake_msg3, AcceptResult, cookie_reply, partial_handshake,
}
use vaiexia_obfs.Udp.Server.State.{
  max_peers, max_pending, Server, Config, Receipt, send_sealed, Link, reply,
}
use vaiexia_obfs.Verifier.{is_accepted}
use vaiexia_obfs.Udp.Dataplane.{DataChannel, seal_envelope, open_datagram}
use vaiexia_obfs.Udp.Server.Hs1.{handle_hs1, accept, effective_gate}
use vaiexia_obfs.Udp.Server.Hs3.{handle_hs3, admit, greet}
use vaiexia_obfs.Udp.Server.Data.{handle_data, handle_envelope, opened_at}
use vaiexia_obfs.Udp.Server.Dgram.{clean_up, handle_dgram}
use vaiexia_obfs.Udp.Server.Frame.{outcome}
use vaiexia_obfs.Udp.Server.Runs.{handle_dgram-Ways}

module _ ⦃X : External⦄ where
  open X use {protocol, Addr, addr_key, Handshake, Rng}

  -- Nothing has been sent, or one datagram to the address.
  abbrev pub SentOne : Addr → Server → Server → Type 0
  SentOne src s t = (t.sent ≡ s.sent) ⊎ ((w : Bytes) × (t.sent ≡ s.sent ++ (src, w) ∷ []))

  send_sealed-SentOne :
      (src : Addr) (o : Result Bytes) (s : Server) → SentOne src s (send_sealed src o s)
  unfolding send_sealed
  send_sealed-SentOne src (ok w) s = inr (w, refl)
  send_sealed-SentOne src (err e) s = inl refl

  reply-SentOne :
      (i : ℕ) (l : Link) (src : Addr) (env : Envelope protocol) (s t : Server)
      → t.sent ≡ s.sent
      → SentOne src s (reply i l src env t)
  unfolding reply send_sealed
  reply-SentOne i l src env s t same = result (seal_envelope l.channel env t.rng).0 (ground arith)
    where
      result :
          (o : Result Bytes)
          → (reply i l src env t).sent ≡ (send_sealed src o t).sent
          → SentOne src s (reply i l src env t)
      result (ok w) e = inr (w, rw (e, same))
      result (err x) e = inl (rw (e, same))

  accept-SentOne :
      (r : Receipt) (src : Addr) (s t : Server) (answer : Result (Option AcceptResult))
      → t.sent ≡ s.sent
      → SentOne src s (outcome (accept r src t answer))
  unfolding accept
  accept-SentOne r src s t (ok (some (cookie_reply w))) same = inr (w, rw same)
  accept-SentOne r src s t (ok (some (partial_handshake hs msg2 a))) same =
      elim (Bool-cases
        (leb max_pending (length t.pending) && not (Map.contains ⦃e = addr_key⦄ t.pending src))) [
          | inl full ↦ rw full (inl same)
          | inr room ↦ rw room (inr (msg2, rw same))
        ]
  accept-SentOne r src s t (ok none) same = inl same
  accept-SentOne r src s t (err e) same = inl same

  handle_hs1-SentOne :
      (cfg : Config) (r : Receipt) (src : Addr) (body : Bytes) (s : Server)
      → SentOne src s (outcome (handle_hs1 cfg r src body s))
  unfolding handle_hs1
  handle_hs1-SentOne cfg r src body s = elim (Bool-cases (leb max_peers (length s.peers))) [
    | inl full ↦ rw full (inl refl)
    | inr room ↦
        let answer =
          process_hs1 r.entropy body src cfg.server_priv s.cookie_secret (effective_gate r.load s)
            cfg.profile s.rng in
        rw room (accept-SentOne r src s (record s { rng = answer.1 }) answer.0 refl)
  ]

  admit-SentOne :
      (cfg : Config) (r : Receipt) (src : Addr) (s t : Server)
      (answer : Result (DataChannel × Bytes) × Handshake)
      → t.sent ≡ s.sent
      → SentOne src s (outcome (admit cfg r src t answer))
  unfolding admit greet send_sealed
  admit-SentOne cfg r src s t (err e, hs) same = inl same
  admit-SentOne cfg r src s t (ok (channel, key), hs) same =
      elim (Bool-cases (is_accepted (cfg.gate.authenticate key))) [
        | inl good ↦ rw good (ready (seal_envelope channel pong t.rng))
        | inr bad ↦ rw bad (inl same)
      ]
    where
      ready : (o : Result Bytes × DataChannel × Rng) → SentOne src s (greet r src o t)
      ready (ok w, ch, rng) = inr (w, rw same)
      ready (err x, ch, rng) = inl same

  handle_hs3-SentOne :
      (cfg : Config) (r : Receipt) (src : Addr) (body : Bytes) (s : Server)
      → SentOne src s (outcome (handle_hs3 cfg r src body s))
  unfolding handle_hs3
  handle_hs3-SentOne cfg r src body s = elim (Option-cases (Map.get ⦃e = addr_key⦄ s.pending src)) [
    | inl absent ↦ rw absent (inl refl)
    | inr (ph, found) ↦ rw found (
        admit-SentOne cfg r src s (record s { pending = Map.remove ⦃e = addr_key⦄ s.pending src })
          (complete_handshake_msg3 ph.responder body cfg.profile) refl)
  ]

  handle_envelope-SentOne :
      (i : ℕ) (l : Link) (src : Addr) (env : Envelope protocol) (s t : Server)
      → t.sent ≡ s.sent
      → SentOne src s (handle_envelope i l src env t)
  unfolding handle_envelope
  handle_envelope-SentOne i l src ping s t same = reply-SentOne i l src pong s t same
  handle_envelope-SentOne i l src (request req) s t same =
      let (resp, service) = X.handle t.service req in
      reply-SentOne i l src (response resp) s (record t { service = service }) same
  handle_envelope-SentOne i l src (subscribe topic filter c) s t same = inl (ground arith)
  handle_envelope-SentOne i l src _ s t same = inl same

  opened_at-SentOne :
      (i : ℕ) (l : Link) (src : Addr) (opened : Option (Envelope protocol) × DataChannel)
      (s t : Server)
      → t.sent ≡ s.sent
      → SentOne src s (outcome (opened_at i l src opened t))
  unfolding opened_at
  opened_at-SentOne i l src (none, ch) s t same = inl same
  opened_at-SentOne i l src (some env, ch) s t same =
      handle_envelope-SentOne i (record l { channel = ch }) src env s
        (record t { links = set t.links i (record l { channel = ch }) }) same

  handle_data-SentOne :
      (r : Receipt) (src : Addr) (dgram : Bytes) (s : Server)
      → SentOne src s (outcome (handle_data r src dgram s))
  unfolding handle_data
  handle_data-SentOne r src dgram s = elim (Option-cases (Map.get ⦃e = addr_key⦄ s.peers src)) [
    | inl absent ↦ rw absent (inl refl)
    | inr (peer, found) ↦ elim (Option-cases (get_elem? s.links peer.link)) [
      | inl lost ↦ rw (found, lost) (inl refl)
      | inr (l, there) ↦
          rw (found, there)
            (opened_at-SentOne peer.link l src (open_datagram l.channel dgram) s
              (record s {
                peers = Map.insert ⦃e = addr_key⦄ s.peers src (record peer { last_seen = r.now });
              })
              refl)
    ]
  ]

  -- The server answers a datagram with at most one datagram, and sends it to no other address than
  -- the one that the datagram came from.
  pub handle_dgram-SentOne :
      (cfg : Config) (r : Receipt) (src : Addr) (dgram : Bytes) (s : Server)
      → SentOne src s (handle_dgram cfg r src dgram s)
  handle_dgram-SentOne cfg r src dgram s = handle_dgram-Ways {Q = SentOne src s} (record {
    ignored = inl refl;
    at_hs1 = λ body _. handle_hs1-SentOne cfg r src body s;
    at_hs3 = λ body _. handle_hs3-SentOne cfg r src body s;
    at_data = λ body _. handle_data-SentOne r src dgram s;
    at_clean_up = λ t h. unfold clean_up in h;
  })
