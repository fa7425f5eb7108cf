-- ===== src/Udp/Server/Links/Isolation.antt =====
-- What handle_dgram of src/udp/server.rs does to the sessions of other addresses.
use vaiexia_obfs.Common.Map
use vaiexia_obfs.Common.{
  ℕ, ltb, ◌≤◌, arith, ◌-◌, ◌≡◌, ◌≢◌, refl, sym, ◌∙◌, ap, false, Option, none, some, List, [], ◌∷◌,
  ◌++◌, Result, ok, err, get_elem?, get_elem?-append, Option-cases, Bool-cases, inl, inr, ◌⊎◌,
}
use vaiexia_obfs.External.{Bytes, External}
use vaiexia_obfs.Udp.Server.State.{
  Link, Server, Config, Receipt, PeerState, PendingHandshake, send_sealed, peer_idle_timeout,
}
use vaiexia_obfs.Envelope.{pong}
use vaiexia_obfs.Verifier.{is_accepted}
use vaiexia_obfs.Udp.Dataplane.{DataChannel, seal_envelope}
use vaiexia_obfs.Udp.Handshake.{complete_handshake_msg3}
use vaiexia_obfs.Udp.Server.Hs1.{handle_hs1}
use vaiexia_obfs.Udp.Server.Hs3.{handle_hs3, admit, greet}
use vaiexia_obfs.Udp.Server.Data.{handle_data}
use vaiexia_obfs.Udp.Server.Dgram.{clean_up, handle_dgram}
use vaiexia_obfs.Udp.Server.Runs.{handle_dgram-Ways}
use vaiexia_obfs.Udp.Server.Frame.{outcome}
use vaiexia_obfs.Udp.Server.Links.{handle_data-Touches}
use vaiexia_obfs.Udp.Server.Links.Session.{handle_hs1-same, handle_data-session}
use vaiexia_obfs.Udp.Server.Links.Invariant.{HasLink, IsLinked}
use vaiexia_obfs.Udp.Server.Links.Unique.{OneEach, OneEach-Kept}

module _ ⦃X : External⦄ where
  open X use {protocol, Addr, addr_key, Rng, Handshake, Service, CookieSecret}

  abbrev pub session : Server → Addr → Option PeerState
  session s a = Map.get ⦃e = addr_key⦄ s.peers a

  -- The clean-up at this time finds that the session has been silent for 120 seconds or more.
  abbrev pub IsIdle : ℕ → PeerState → Type 0
  IsIdle now p = 120000 ≤ now - p.last_seen

  -- What an address may notice of others' datagrams: the link of its session p (channel, queue and
  -- topics) is as it was, and so is its entry, unless it is gone for the reason `Why`.
  pub record Undisturbed (Why : Type 0) (s t : Server) (p : PeerState) (b : Addr) : Type 0 where
    pub link : get_elem? t.links p.link ≡ get_elem? s.links p.link
    pub entry : (session t b ≡ session s b) ⊎ ((session t b ≡ none) × Why)

  -- The session's link is the same one, for links that are made longer or touched elsewhere.
  link-append :
      (ls : List Link) (new : Link) (b : Addr) (p : PeerState)
      → HasLink ls b p
      → get_elem? (ls ++ new ∷ []) p.link ≡ get_elem? ls p.link
  link-append ls new b p (l, there, own) = get_elem?-append ls (new ∷ []) p.link l there ∙ sym there

  -- Sessions of two addresses have two links.
  links_differ :
      (ls : List Link) (a b : Addr) (p q : PeerState)
      → HasLink ls a p
      → HasLink ls b q
      → b ≢ a
      → q.link ≢ p.link
  links_differ ls a b p q (l, at_p, own) (k, at_q, other) n same =
      let found : some k ≡ some l = sym at_q ∙ ap (λ (i : ℕ). get_elem? ls i) same ∙ at_p in
      let one : k ≡ l = cc in n (sym other ∙ ap (λ (x : Link). x.dst) one ∙ own)

  equals_false : (a b : Addr) → b ≢ a → addr_key.equals a b ≡ false
  equals_false a b n = elim (Bool-cases (addr_key.equals a b)) [
    | inl same ↦ absurd (n (sym ((addr_key.equals_iff a b).0 same)))
    | inr other ↦ other
  ]

  module _ (Why : Type 0) (b : Addr) (p : PeerState) (s : Server)
      (linked : HasLink s.links b p) where
    greet-Undisturbed :
        (r : Receipt) (src : Addr) (o : Result Bytes × DataChannel × Rng)
        (pending : Map.Map Addr PendingHandshake)
        → b ≢ src
        → Undisturbed Why s (greet r src o (record s { pending = pending })) p b
    unfolding greet send_sealed
    greet-Undisturbed r src (ok w, ch, rng) pending n = record {
      link =
          link-append s.links (record { dst = src; channel = ch; queue = []; topics = [] }) b p
            linked;
      entry = inl (Map.get-insert ⦃e = addr_key⦄ s.peers src b _ ∙ rw (equals_false src b n) refl);
    }
    greet-Undisturbed r src (err e, ch, rng) pending n = record {
      link =
          link-append s.links (record { dst = src; channel = ch; queue = []; topics = [] }) b p
            linked;
      entry = inl (Map.get-insert ⦃e = addr_key⦄ s.peers src b _ ∙ rw (equals_false src b n) refl);
    }

    admit-Undisturbed :
        (cfg : Config) (r : Receipt) (src : Addr) (pending : Map.Map Addr PendingHandshake)
        (o : Result (DataChannel × Bytes) × Handshake)
        → b ≢ src
        → Undisturbed Why s (outcome (admit cfg r src (record s { pending = pending }) o)) p b
    unfolding admit
    admit-Undisturbed cfg r src pending (err e, hs) n = record { link = refl; entry = inl refl }
    admit-Undisturbed cfg r src pending (ok (channel, key), hs) n =
        elim (Bool-cases (is_accepted (cfg.gate.authenticate key))) [
          | inl accepted ↦
              rw accepted (greet-Undisturbed r src (seal_envelope channel pong s.rng) pending n)
          | inr rejected ↦ rw rejected (record { link = refl; entry = inl refl })
        ]

    handle_hs3-Undisturbed :
        (cfg : Config) (r : Receipt) (src : Addr) (body : Bytes)
        → b ≢ src
        → Undisturbed Why s (outcome (handle_hs3 cfg r src body s)) p b
    unfolding handle_hs3
    handle_hs3-Undisturbed cfg r src body n =
        elim (Option-cases (Map.get ⦃e = addr_key⦄ s.pending src)) [
          | inl absent ↦ rw absent (record { link = refl; entry = inl refl })
          | inr (ph, half_open) ↦ rw half_open (
              admit-Undisturbed cfg r src (Map.remove ⦃e = addr_key⦄ s.pending src)
                (complete_handshake_msg3 ph.responder body cfg.profile) n)
        ]

    handle_hs1-Undisturbed :
        (cfg : Config) (r : Receipt) (src : Addr) (body : Bytes)
        → Undisturbed Why s (outcome (handle_hs1 cfg r src body s)) p b
    handle_hs1-Undisturbed cfg r src body =
        let (peers, links) = handle_hs1-same cfg r src body s in
        record {
          link = ap (λ (ls : List Link). get_elem? ls p.link) links;
          entry = inl (ap (λ (m : Map.Map Addr PeerState). Map.get ⦃e = addr_key⦄ m b) peers);
        }

    handle_data-Undisturbed :
        (r : Receipt) (src : Addr) (dgram : Bytes)
        → IsLinked s
        → b ≢ src
        → Undisturbed Why s (outcome (handle_data r src dgram s)) p b
    handle_data-Undisturbed r src dgram all n =
        elim (Option-cases (Map.get ⦃e = addr_key⦄ s.peers src)) [
          | inl absent ↦ unfold handle_data in rw absent (record { link = refl; entry = inl refl })
          | inr (q, there) ↦
              let owned =
                Map.Entries-get ⦃e = addr_key⦄ (HasLink s.links) s.peers src q all there in
              record {
                link =
                    (handle_data-Touches r src dgram s q there).others p.link
                      (links_differ s.links src b q p owned linked n);
                entry = inl (
                    ap (λ (m : Map.Map Addr PeerState). Map.get ⦃e = addr_key⦄ m b)
                      (handle_data-session r src dgram s q there)
                    ∙ Map.get-insert ⦃e = addr_key⦄ s.peers src b _
                    ∙ rw (equals_false src b n) refl);
              }
        ]

  clean_up-Undisturbed :
      (now : ℕ) (b : Addr) (p : PeerState) (s t : Server)
      → (session s b ≡ some p) ⊎ (session s b ≡ none)
      → OneEach t
      → Undisturbed (IsIdle now p) s t p b
      → Undisturbed (IsIdle now p) s (clean_up now t) p b
  unfolding clean_up
  clean_up-Undisturbed now b p s t start one u = record {
    link = u.link;
    entry = elim u.entry [
      | inr (absent, why) ↦ inr (Map.get-retain-none ⦃e = addr_key⦄ _ t.peers b absent, why)
      | inl same ↦ elim start [
        | inr absent ↦
            inl (Map.get-retain-none ⦃e = addr_key⦄ _ t.peers b (same ∙ absent) ∙ sym absent)
        | inl there ↦
            let fate =
              Map.get-retain ⦃e = addr_key⦄
                (λ (w : PeerState). ltb (now - w.last_seen) peer_idle_timeout) t.peers b p one
                (same ∙ there) in
            elim (Bool-cases (ltb (now - p.last_seen) peer_idle_timeout)) [
              | inl recent ↦ inl (fate ∙ rw recent (sym there))
              | inr idle ↦ inr (fate ∙ rw idle refl, ground (arith, idle))
            ]
      ]
    ];
  }

  pub handle_dgram-Kept :
      (b : Addr) (p : PeerState) (s : Server)
      → HasLink s.links b p
      → (session s b ≡ some p) ⊎ (session s b ≡ none)
      → (cfg : Config) (r : Receipt) (src : Addr) (dgram : Bytes) → IsLinked s
      → OneEach s
      → b ≢ src
      → Undisturbed (IsIdle r.now p) s (handle_dgram cfg r src dgram s) p b
        × OneEach (handle_dgram cfg r src dgram s)
  handle_dgram-Kept b p s linked start cfg r src dgram all one n =
      let kept = OneEach-Kept cfg in
      let Why = IsIdle r.now p in
      handle_dgram-Ways {Q = λ t. Undisturbed Why s t p b × OneEach t} (record {
        ignored = (record { link = refl; entry = inl refl }, one);
        at_hs1 = λ body _.
            (handle_hs1-Undisturbed Why b p s linked cfg r src body, kept.at_hs1 r src body s one);
        at_hs3 = λ body _. (
          handle_hs3-Undisturbed Why b p s linked cfg r src body n,
          kept.at_hs3 r src body s one,
        );
        at_data = λ body _. (
          handle_data-Undisturbed Why b p s linked r src dgram all n,
          kept.at_data r src dgram s one,
        );
        at_clean_up =
            λ t (u, o). (clean_up-Undisturbed r.now b p s t start o u, kept.at_clean_up r.now t o);
      })
