-- ===== src/Udp/Server/Links/Invariant.antt =====
-- In every run each session has its link.
use mathlib.Core.Path.{subst}
use vaiexia_obfs.Common.Map
use vaiexia_obfs.Common.{
  ℕ, zero, suc, ◌≡◌, refl, sym, ◌∙◌, ap, some, List, [], ◌∷◌, ◌++◌, Result, ok, err, length, set,
  get_elem?, get_elem?-append, get_elem?-append_length, Option-cases, Bool-cases, inl, inr, ==_iff,
  ◌==◌,
}
use vaiexia_obfs.Envelope.{Envelope, pong}
use vaiexia_obfs.External.{Bytes, External}
use vaiexia_obfs.Verifier.{is_accepted}
use vaiexia_obfs.Udp.Dataplane.{DataChannel, seal_envelope}
use vaiexia_obfs.Udp.Handshake.{complete_handshake_msg3}
use vaiexia_obfs.Udp.Server.State.{Link, Server, Config, Receipt, PeerState, send_sealed}
use vaiexia_obfs.Udp.Server.Hs1.{handle_hs1}
use vaiexia_obfs.Udp.Server.Hs3.{handle_hs3, admit, greet}
use vaiexia_obfs.Udp.Server.Data.{handle_data}
use vaiexia_obfs.Udp.Server.Dgram.{clean_up}
use vaiexia_obfs.Udp.Server.Tasks.{
  drain, drained, drain_queue, drain_link, publish, forward, forward_topics, rotate_cookie,
}
use vaiexia_obfs.Udp.Server.Runs.{Reach, fresh, Reach-kept}
use vaiexia_obfs.Udp.Server.Frame.{outcome}
use vaiexia_obfs.Udp.Server.Links.{Touches, handle_data-Touches, Touches-set}
use vaiexia_obfs.Udp.Server.Links.Session.{handle_hs1-same, handle_data-session}

module _ ⦃X : External⦄ where
  open X use {protocol, Addr, addr_key, Rng, Service, CookieSecret, Handshake}

  -- The session's link is there, and sends to the session's address.
  abbrev pub HasLink : List Link → Addr → PeerState → Type 0
  HasLink ls a p = (l : Link) × (get_elem? ls p.link ≡ some l) × (l.dst ≡ a)

  abbrev pub IsLinked : Server → Type 0
  IsLinked s = Map.Entries ⦃e = addr_key⦄ (HasLink s.links) s.peers

  -- No link goes away or changes its address.
  abbrev Extends : List Link → List Link → Type 0
  Extends ls ms =
      (i : ℕ) (l : Link)
      → get_elem? ls i ≡ some l
      → (l' : Link) × (get_elem? ms i ≡ some l') × (l'.dst ≡ l.dst)

  HasLink-Extends :
      (ls ms : List Link)
      → Extends ls ms
      → (a : Addr) (p : PeerState) → HasLink ls a p
      → HasLink ms a p
  HasLink-Extends ls ms ext a p (l, there, own) =
      let (l', there', same) = ext p.link l there in (l', there', same ∙ own)

  Touches-Extends : (i : ℕ) (ls ms : List Link) → Touches i ls ms → Extends ls ms
  Touches-Extends i ls ms t j l there = elim (Bool-cases (j == i)) [
    | inl same ↦
        let at_i : get_elem? ls i ≡ some l =
          subst (λ k. get_elem? ls k ≡ some l) ((==_iff j i).0 same) there in
        subst (λ k. (l' : Link) × (get_elem? ms k ≡ some l') × (l'.dst ≡ l.dst))
          (sym ((==_iff j i).0 same)) (t.own l at_i)
    | inr other ↦ (l, t.others j (λ e. cc ((==_iff j i).1 e, other)) ∙ there, refl)
  ]

  Entries-Extends :
      (ls ms : List Link) (m : Map.Map Addr PeerState)
      → Extends ls ms
      → Map.Entries ⦃e = addr_key⦄ (HasLink ls) m
      → Map.Entries ⦃e = addr_key⦄ (HasLink ms) m
  Entries-Extends ls ms m ext h =
      Map.Entries-map ⦃e = addr_key⦄ (HasLink ls) (HasLink ms) m (HasLink-Extends ls ms ext) h

  greet-IsLinked :
      (r : Receipt) (src : Addr) (o : Result Bytes × DataChannel × Rng) (s : Server)
      → IsLinked s
      → IsLinked (greet r src o s)
  unfolding greet send_sealed
  greet-IsLinked r src (ok w, ch, rng) s h =
      let new : Link = record { dst = src; channel = ch; queue = []; topics = [] } in
      Map.Entries-insert ⦃e = addr_key⦄ (HasLink (s.links ++ new ∷ [])) s.peers src
        (record { link = length s.links; last_seen = r.now })
        (Entries-Extends s.links (s.links ++ new ∷ []) s.peers
          (λ i l there. (l, get_elem?-append s.links (new ∷ []) i l there, refl)) h)
        (new, get_elem?-append_length s.links new, refl)
  greet-IsLinked r src (err e, ch, rng) s h =
      let new : Link = record { dst = src; channel = ch; queue = []; topics = [] } in
      Map.Entries-insert ⦃e = addr_key⦄ (HasLink (s.links ++ new ∷ [])) s.peers src
        (record { link = length s.links; last_seen = r.now })
        (Entries-Extends s.links (s.links ++ new ∷ []) s.peers
          (λ i l there. (l, get_elem?-append s.links (new ∷ []) i l there, refl)) h)
        (new, get_elem?-append_length s.links new, refl)

  admit-IsLinked :
      (cfg : Config) (r : Receipt) (src : Addr) (s : Server)
      (o : Result (DataChannel × Bytes) × Handshake)
      → IsLinked s
      → IsLinked (outcome (admit cfg r src s o))
  unfolding admit
  admit-IsLinked cfg r src s (err e, hs) h = h
  admit-IsLinked cfg r src s (ok (channel, key), hs) h =
      elim (Bool-cases (is_accepted (cfg.gate.authenticate key))) [
        | inl accepted ↦ rw accepted (greet-IsLinked r src (seal_envelope channel pong s.rng) s h)
        | inr rejected ↦ rw rejected h
      ]

  handle_hs3-IsLinked :
      (cfg : Config) (r : Receipt) (src : Addr) (body : Bytes) (s : Server)
      → IsLinked s
      → IsLinked (outcome (handle_hs3 cfg r src body s))
  unfolding handle_hs3
  handle_hs3-IsLinked cfg r src body s h =
      elim (Option-cases (Map.get ⦃e = addr_key⦄ s.pending src)) [
        | inl absent ↦ rw absent h
        | inr (ph, found) ↦ rw found (
            admit-IsLinked cfg r src
              (record s { pending = Map.remove ⦃e = addr_key⦄ s.pending src })
              (complete_handshake_msg3 ph.responder body cfg.profile) h)
      ]

  handle_data-IsLinked :
      (r : Receipt) (src : Addr) (dgram : Bytes) (s : Server)
      → IsLinked s
      → IsLinked (outcome (handle_data r src dgram s))
  handle_data-IsLinked r src dgram s h = elim (Option-cases (Map.get ⦃e = addr_key⦄ s.peers src)) [
    | inl absent ↦ unfold handle_data in rw absent h
    | inr (p, found) ↦
        let t = outcome (handle_data r src dgram s) in
        let ext =
          Touches-Extends p.link s.links t.links (handle_data-Touches r src dgram s p found) in
        rw (handle_data-session r src dgram s p found) (
          Map.Entries-insert ⦃e = addr_key⦄ (HasLink t.links) s.peers src
            (record p { last_seen = r.now }) (Entries-Extends s.links t.links s.peers ext h)
            (HasLink-Extends s.links t.links ext src p
              (Map.Entries-get ⦃e = addr_key⦄ (HasLink s.links) s.peers src p h found)))
  ]

  clean_up-IsLinked : (now : ℕ) (s : Server) → IsLinked s → IsLinked (clean_up now s)
  unfolding clean_up
  clean_up-IsLinked now s h = Map.Entries-retain ⦃e = addr_key⦄ (HasLink s.links) _ s.peers h

  -- The sealer task of a link writes that link only, and sends to its address.
  drained-IsLinked :
      (i : ℕ) (l k : Link) (o : Result Bytes × DataChannel × Rng) (s : Server)
      → get_elem? s.links i ≡ some k
      → l.dst ≡ k.dst
      → IsLinked s
      → IsLinked (drained i l o s)
  unfolding drained send_sealed
  drained-IsLinked i l k (ok w, ch, g) s there e h =
      Entries-Extends s.links (set s.links i (record l { channel = ch })) s.peers
        (Touches-Extends i s.links (set s.links i (record l { channel = ch }))
          (Touches-set i s.links k (record l { channel = ch }) there e))
        h
  drained-IsLinked i l k (err x, ch, g) s there e h =
      Entries-Extends s.links (set s.links i (record l { channel = ch })) s.peers
        (Touches-Extends i s.links (set s.links i (record l { channel = ch }))
          (Touches-set i s.links k (record l { channel = ch }) there e))
        h

  drain_queue-IsLinked :
      (g : Rng) (i : ℕ) (l : Link) (q : List (Envelope protocol)) (s : Server)
      → get_elem? s.links i ≡ some l
      → IsLinked s
      → IsLinked (drain_queue g i l q s)
  unfolding drain_queue
  drain_queue-IsLinked g i l [] s there h = h
  drain_queue-IsLinked g i l (env ∷ rest) s there h =
      drained-IsLinked i (record l { queue = rest }) l (seal_envelope l.channel env g) s there refl
        h

  drain-IsLinked : (g : Rng) (i : ℕ) (s : Server) → IsLinked s → IsLinked (drain g i s)
  unfolding drain drain_link
  drain-IsLinked g i s h = elim (Option-cases (get_elem? s.links i)) [
    | inl lost ↦ rw lost h
    | inr (l, there) ↦ rw there (drain_queue-IsLinked g i l l.queue s there h)
  ]

  forward-Extends : (ev : protocol.Event) (ls : List Link) → Extends ls (forward ev ls)
  unfolding forward
  forward-Extends ev [] i l h = cc
  forward-Extends ev (x ∷ ls) zero l h =
      let same : x ≡ l = cc in
      (
        record x { queue = x.queue ++ forward_topics ev x.topics },
        refl,
        ap (λ (y : Link). y.dst) same,
      )
  forward-Extends ev (x ∷ ls) (suc i) l h = forward-Extends ev ls i l h

  publish-IsLinked : (ev : protocol.Event) (s : Server) → IsLinked s → IsLinked (publish ev s)
  unfolding publish
  publish-IsLinked ev s h =
      Entries-Extends s.links (forward ev s.links) s.peers (forward-Extends ev s.links) h

  rotate_cookie-IsLinked :
      (seed : Bytes) (s : Server) → IsLinked s → IsLinked (rotate_cookie seed s)
  unfolding rotate_cookie
  rotate_cookie-IsLinked seed s h = h

  handle_hs1-IsLinked :
      (cfg : Config) (r : Receipt) (src : Addr) (body : Bytes) (s : Server)
      → IsLinked s
      → IsLinked (outcome (handle_hs1 cfg r src body s))
  handle_hs1-IsLinked cfg r src body s h =
      let (peers, links) = handle_hs1-same cfg r src body s in
      subst
        (λ ls.
          Map.Entries ⦃e = addr_key⦄ (HasLink ls) (outcome (handle_hs1 cfg r src body s)).peers)
        (sym links) (subst (λ m. Map.Entries ⦃e = addr_key⦄ (HasLink s.links) m) (sym peers) h)

  -- In every run of a server that has started empty, each session has a link of its own address: what
  -- the server seals for a session goes to the address that has authenticated it.
  pub Reach-IsLinked :
      (cfg : Config) (secret : CookieSecret) (service : Service) (rng : Rng) {s : Server}
      → Reach cfg (fresh secret service rng) s
      → IsLinked s
  unfolding fresh
  Reach-IsLinked cfg secret service rng run =
      Reach-kept {P = IsLinked}
        (record {
          at_hs1 = handle_hs1-IsLinked cfg;
          at_hs3 = handle_hs3-IsLinked cfg;
          at_data = handle_data-IsLinked;
          at_clean_up = clean_up-IsLinked;
        })
        drain-IsLinked publish-IsLinked rotate_cookie-IsLinked run tt
