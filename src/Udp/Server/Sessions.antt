-- ===== src/Udp/Server/Sessions.antt =====
-- Who gets a session.
use vaiexia_obfs.Common.{
  ℕ, ◌≡◌, refl, ap, true, false, none, some, Result, ok, err, arith, ◌⊎◌, inl, inr, Bool-cases,
  Option-cases,
}
use vaiexia_obfs.Common.Map
use vaiexia_obfs.External.{Bytes, External}
use vaiexia_obfs.Verifier.{is_accepted}
use vaiexia_obfs.Udp.WireDgram.{hs3}
use vaiexia_obfs.Udp.Handshake.{complete_handshake_msg3}
use vaiexia_obfs.Envelope.{pong}
use vaiexia_obfs.Udp.Dataplane.{DataChannel, seal_envelope}
use vaiexia_obfs.Udp.Server.State.{
  PeerState, Server, Config, Receipt, PendingHandshake, send_sealed,
}
use vaiexia_obfs.Udp.Server.Hs1.{handle_hs1}
use vaiexia_obfs.Udp.Server.Hs3.{handle_hs3, admit, greet}
use vaiexia_obfs.Udp.Server.Data.{handle_data}
use vaiexia_obfs.Udp.Server.Dgram.{clean_up, handle_dgram}
use vaiexia_obfs.Udp.Server.Tasks.{drain, publish, rotate_cookie}
use vaiexia_obfs.Udp.Server.Frame.{outcome, handle_envelope-SameMaps}
use vaiexia_obfs.Udp.Server.Runs.{
  Holds, handle_dgram-Ways, Reach, here, then, receive, seal_next, emit, rotate_secret, fresh,
}

module _ ⦃X : External⦄ where
  open X use {protocol, Addr, addr_key, Handshake, CookieSecret, Service, Rng}

  -- The datagram completes the half-open handshake of its source, with a static key that the gate
  -- accepts.
  pub record Authenticates (cfg : Config) (src : Addr) (dgram : Bytes) (s : Server) : Type 0 where
    pub body : Bytes
    pub held : Holds cfg dgram hs3 body
    pub half_open : PendingHandshake
    pub found : Map.get ⦃e = addr_key⦄ s.pending src ≡ some half_open
    pub channel : DataChannel
    pub client_static : Bytes
    pub completed :
        (complete_handshake_msg3 half_open.responder body cfg.profile).0
        ≡ ok (channel, client_static)
    pub admitted : is_accepted (cfg.gate.authenticate client_static) ≡ true

  -- The address has no session, or the datagram is its own and authenticates it.
  abbrev pub Earned : Config → Addr → Bytes → Server → Addr → Server → Type 0
  Earned cfg src dgram s a t =
      (Map.get ⦃e = addr_key⦄ t.peers a ≡ none) ⊎ ((src ≡ a) × Authenticates cfg src dgram s)

  handle_hs1-peers :
      (cfg : Config) (r : Receipt) (src : Addr) (body : Bytes) (s : Server)
      → (outcome (handle_hs1 cfg r src body s)).peers ≡ s.peers
  unfolding handle_hs1
  handle_hs1-peers cfg r src body s = ground arith

  handle_data-peers :
      (r : Receipt) (src : Addr) (dgram : Bytes) (s : Server) (a : Addr)
      → Map.get ⦃e = addr_key⦄ s.peers a ≡ none
      → Map.get ⦃e = addr_key⦄ (outcome (handle_data r src dgram s)).peers a ≡ none
  unfolding handle_data
  handle_data-peers r src dgram s a absent =
      elim (Option-cases (Map.get ⦃e = addr_key⦄ s.peers src)) [
        | inl lost ↦ rw lost absent
        | inr (peer, found) ↦
            grind
              (arith, found, handle_envelope-SameMaps, Map.get-insert, addr_key.equals_iff src a)
      ]

  greet-absent :
      (r : Receipt) (src : Addr) (o : Result Bytes × DataChannel × Rng) (t : Server) (a : Addr)
      → addr_key.equals src a ≡ false
      → Map.get ⦃e = addr_key⦄ t.peers a ≡ none
      → Map.get ⦃e = addr_key⦄ (greet r src o t).peers a ≡ none
  unfolding greet send_sealed
  greet-absent r src o t a other absent = grind (arith, Map.get-insert, other)

  admit-Earned :
      (cfg : Config) (r : Receipt) (src : Addr) (dgram body : Bytes) (s t : Server) (a : Addr)
      (ph : PendingHandshake)
      → Holds cfg dgram hs3 body
      → Map.get ⦃e = addr_key⦄ s.pending src ≡ some ph
      → Map.get ⦃e = addr_key⦄ t.peers a ≡ none
      → (answer : Result (DataChannel × Bytes) × Handshake)
      → complete_handshake_msg3 ph.responder body cfg.profile ≡ answer
      → Earned cfg src dgram s a (outcome (admit cfg r src t answer))
  unfolding admit
  admit-Earned cfg r src dgram body s t a ph held found absent (err e, hs) q = inl absent
  admit-Earned cfg r src dgram body s t a ph held found absent (ok (ch, key), hs) q =
      elim (Bool-cases (is_accepted (cfg.gate.authenticate key))) [
        | inr bad ↦ rw bad (inl absent)
        | inl good ↦ elim (Bool-cases (addr_key.equals src a)) [
          | inr other ↦
              rw good (inl (greet-absent r src (seal_envelope ch pong t.rng) t a other absent))
          | inl same ↦ inr (
            (addr_key.equals_iff src a).0 same,
            record {
              body = body;
              held = held;
              half_open = ph;
              found = found;
              channel = ch;
              client_static = key;
              completed = ap (λ x. x.0) q;
              admitted = good;
            },
          )
        ]
      ]

  handle_hs3-Earned :
      (cfg : Config) (r : Receipt) (src : Addr) (dgram body : Bytes) (s : Server) (a : Addr)
      → Holds cfg dgram hs3 body
      → Map.get ⦃e = addr_key⦄ s.peers a ≡ none
      → Earned cfg src dgram s a (outcome (handle_hs3 cfg r src body s))
  unfolding handle_hs3
  handle_hs3-Earned cfg r src dgram body s a held absent =
      elim (Option-cases (Map.get ⦃e = addr_key⦄ s.pending src)) [
        | inl lost ↦ rw lost (inl absent)
        | inr (ph, found) ↦ rw found (
            admit-Earned cfg r src dgram body s
              (record s { pending = Map.remove ⦃e = addr_key⦄ s.pending src }) a ph held found
              absent (complete_handshake_msg3 ph.responder body cfg.profile) refl)
      ]

  clean_up-Earned :
      (cfg : Config) (src : Addr) (dgram : Bytes) (s : Server) (a : Addr) (now : ℕ) (t : Server)
      → Earned cfg src dgram s a t
      → Earned cfg src dgram s a (clean_up now t)
  unfolding clean_up
  clean_up-Earned cfg src dgram s a now t (inl absent) =
      inl (Map.get-retain-none ⦃e = addr_key⦄ _ t.peers a absent)
  clean_up-Earned cfg src dgram s a now t (inr earned) = inr earned

  -- An address without a session gets one from a datagram only if the datagram comes from that
  -- address and completes its half-open handshake with a key that the gate accepts.
  pub handle_dgram-Earned :
      (cfg : Config) (r : Receipt) (src : Addr) (dgram : Bytes) (s : Server) (a : Addr)
      → Map.get ⦃e = addr_key⦄ s.peers a ≡ none
      → Earned cfg src dgram s a (handle_dgram cfg r src dgram s)
  handle_dgram-Earned cfg r src dgram s a absent =
      handle_dgram-Ways {Q = Earned cfg src dgram s a} (record {
        ignored = inl absent;
        at_hs1 = λ body _. inl (rw (handle_hs1-peers cfg r src body s) absent);
        at_hs3 = λ body held. handle_hs3-Earned cfg r src dgram body s a held absent;
        at_data = λ body _. inl (handle_data-peers r src dgram s a absent);
        at_clean_up = clean_up-Earned cfg src dgram s a r.now;
      })

  drain-peers : (g : Rng) (i : ℕ) (s : Server) → (drain g i s).peers ≡ s.peers
  unfolding drain send_sealed
  drain-peers g i s = ground arith

  publish-peers : (ev : protocol.Event) (s : Server) → (publish ev s).peers ≡ s.peers
  unfolding publish
  publish-peers ev s = refl

  rotate_cookie-peers : (seed : Bytes) (s : Server) → (rotate_cookie seed s).peers ≡ s.peers
  unfolding rotate_cookie
  rotate_cookie-peers seed s = refl

  abbrev pub HasSession : Server → Addr → Type 0
  HasSession s a = (p : PeerState) × (Map.get ⦃e = addr_key⦄ s.peers a ≡ some p)

  -- One step of this run was the handling of a datagram of the address that authenticated it, and at
  -- every datagram behind it the address has had a session.
  abbrev pub HasAuthenticated :
      {cfg : Config} {start s : Server} → Addr → Reach cfg start s → Type 0
  HasAuthenticated a here = ⊥
  HasAuthenticated {cfg} a (then run (receive r src dgram s)) =
      ((src ≡ a) × Authenticates cfg src dgram s) ⊎ (HasSession s a × HasAuthenticated a run)
  HasAuthenticated a (then run (seal_next g i s)) = HasAuthenticated a run
  HasAuthenticated a (then run (emit ev s)) = HasAuthenticated a run
  HasAuthenticated a (then run (rotate_secret seed s)) = HasAuthenticated a run

  abbrev pub SessionIsEarned : {cfg : Config} {start s : Server} → Addr → Reach cfg start s → Type 0
  SessionIsEarned {cfg} {start} {s} a run =
      (Map.get ⦃e = addr_key⦄ s.peers a ≡ none) ⊎ HasAuthenticated a run

  Reach-SessionIsEarned :
      {cfg : Config} {start s : Server} (a : Addr)
      → Map.get ⦃e = addr_key⦄ start.peers a ≡ none
      → (run : Reach cfg start s) → SessionIsEarned a run
  Reach-SessionIsEarned a h here = inl h
  Reach-SessionIsEarned a h (then run (seal_next g i s)) =
      rw (drain-peers g i s) (Reach-SessionIsEarned a h run)
  Reach-SessionIsEarned a h (then run (emit ev s)) =
      rw (publish-peers ev s) (Reach-SessionIsEarned a h run)
  Reach-SessionIsEarned a h (then run (rotate_secret seed s)) =
      rw (rotate_cookie-peers seed s) (Reach-SessionIsEarned a h run)
  Reach-SessionIsEarned {cfg} a h (then run (receive r src dgram s)) =
      elim (Option-cases (Map.get ⦃e = addr_key⦄ s.peers a)) [
        | inl absent ↦ elim (handle_dgram-Earned cfg r src dgram s a absent) [
          | inl still ↦ inl still
          | inr earned ↦ inr (inl earned)
        ]
        | inr (p, found) ↦ elim (Reach-SessionIsEarned a h run) [
          | inl absent ↦ cc
          | inr before ↦ inr (inr ((p, found), before))
        ]
      ]

  -- In every run of a server that has started empty, an address with a session has completed its own
  -- half-open handshake: one step of this very run was the handling of a datagram from that address
  -- that completed the handshake pending for it, with a key that the gate accepts, and the address has
  -- had a session ever since.
  pub sessions_authenticated :
      (cfg : Config) (secret : CookieSecret) (service : Service) (rng : Rng) (a : Addr) {s : Server}
      → (run : Reach cfg (fresh secret service rng) s) → SessionIsEarned a run
  unfolding fresh Map.get
  sessions_authenticated cfg secret service rng a run = Reach-SessionIsEarned a refl run
