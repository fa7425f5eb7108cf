-- ===== src/Udp/Server/Links.antt =====
-- A datagram touches the link of its session, and no other.
pub mod Session
pub mod Invariant
pub mod Unique
pub mod Isolation
pub mod Others
pub mod Allowed
pub mod Topics
pub mod Granted
use mathlib.Core.Path.{subst}
use vaiexia_obfs.Common.Map
use vaiexia_obfs.Common.{
  ℕ, ◌≡◌, ◌≢◌, refl, sym, ◌∙◌, ap, Bool, true, false, Option, none, some, List, [], ◌∷◌, ◌++◌,
  Result, ok, err, arith, length, set, get_elem?, get_elem?-set_self, get_elem?-set_ne,
  get_elem?-append, get_elem?-append_length, Option-cases, Bool-cases, inl, inr, ◌⊎◌, if◌then◌else◌,
  ==_iff, ◌==◌,
}
use vaiexia_obfs.Envelope.{
  Envelope, request, response, event, subscribe, unsubscribe, subscribe_error, ping, pong,
}
use vaiexia_obfs.External.{Bytes, External, Verdict}
use vaiexia_obfs.Udp.Dataplane.{DataChannel, seal_envelope, open_datagram}
use vaiexia_obfs.Udp.Server.State.{
  Link, Server, Config, Receipt, PeerState, with_channel, reply, send_sealed,
}
use vaiexia_obfs.Udp.Server.Hs1.{handle_hs1}
use vaiexia_obfs.Udp.Server.Hs3.{handle_hs3, admit, greet}
use vaiexia_obfs.Udp.Server.Data.{handle_data, handle_envelope, opened_at, subscribe_to}
use vaiexia_obfs.Udp.Server.Dgram.{clean_up, handle_dgram}
use vaiexia_obfs.Udp.Server.Tasks.{drain, publish, rotate_cookie}
use vaiexia_obfs.Udp.Server.Runs.{Reach, fresh, Kept, Reach-kept}
use vaiexia_obfs.Udp.Server.Frame.{outcome, handle_envelope-SameMaps}

module _ ⦃X : External⦄ where
  open X use {protocol, Addr, addr_key, Rng, Service, CookieSecret}

  -- The links behind a use of the link `i`: the others are as they were, and it keeps its address.
  pub record Touches (i : ℕ) (ls ms : List Link) : Type 0 where
    pub others : (j : ℕ) → j ≢ i → get_elem? ms j ≡ get_elem? ls j
    pub own :
        (l : Link)
        → get_elem? ls i ≡ some l
        → (l' : Link) × (get_elem? ms i ≡ some l') × (l'.dst ≡ l.dst)

  Touches-refl : (i : ℕ) (ls : List Link) → Touches i ls ls
  Touches-refl i ls = record { others = λ j n. refl; own = λ l h. (l, h, refl) }

  pub Touches-set :
      (i : ℕ) (ls : List Link) (l l' : Link)
      → get_elem? ls i ≡ some l
      → l'.dst ≡ l.dst
      → Touches i ls (set ls i l')
  Touches-set i ls l l' h e = record {
    others = λ j n. get_elem?-set_ne ls i j l' n;
    own = λ k g.
        let same : k ≡ l = cc in
        (l', get_elem?-set_self ls i l' l h, e ∙ sym (ap (λ (x : Link). x.dst) same));
  }

  Touches-trans :
      (i : ℕ) (ls ms ns : List Link) → Touches i ls ms → Touches i ms ns → Touches i ls ns
  Touches-trans i ls ms ns a b = record {
    others = λ j n. b.others j n ∙ a.others j n;
    own =
        λ l h. let (l', h', e') = a.own l h in let (l2, h2, e2) = b.own l' h' in (l2, h2, e2 ∙ e');
  }

  -- Every branch of the handler writes the link once, or not.
  pub reply-links :
      (i : ℕ) (l : Link) (src : Addr) (env : Envelope protocol) (s : Server)
      → (ch : DataChannel) × ((reply i l src env s).links
          ≡ set s.links i (record l { channel = ch }))
  unfolding reply
  reply-links i l src env s =
      let (result, ch, rng) = seal_envelope l.channel env s.rng in (ch, ground arith)

  reply-Touches :
      (i : ℕ) (l k : Link) (src : Addr) (env : Envelope protocol) (s : Server)
      → get_elem? s.links i ≡ some k
      → l.dst ≡ k.dst
      → Touches i s.links (reply i l src env s).links
  reply-Touches i l k src env s h e =
      let (ch, written) = reply-links i l src env s in
      rw written (Touches-set i s.links k (record l { channel = ch }) h e)

  subscribe_to-Touches :
      (i : ℕ) (l k : Link) (topic : protocol.Topic) (v : Verdict protocol) (s : Server)
      → get_elem? s.links i ≡ some k
      → l.dst ≡ k.dst
      → Touches i s.links (subscribe_to i l topic v s).links
  unfolding subscribe_to
  subscribe_to-Touches i l k topic (Verdict.auth d) s h e =
      Touches-set i s.links k (record l { queue = l.queue ++ subscribe_error topic d ∷ [] }) h e
  subscribe_to-Touches i l k topic Verdict.other s h e =
      Touches-set i s.links k
        (record l { queue = l.queue ++ subscribe_error topic protocol.subscription_denied ∷ [] }) h
        e
  subscribe_to-Touches i l k topic Verdict.granted s h e =
      elim (Bool-cases (X.event_source s.service topic)) [
        | inl there ↦
            rw there (Touches-set i s.links k (record l { topics = l.topics ++ topic ∷ [] }) h e)
        | inr absent ↦ rw absent (Touches-refl i s.links)
      ]

  handle_envelope-Touches :
      (i : ℕ) (l k : Link) (src : Addr) (env : Envelope protocol) (s : Server)
      → get_elem? s.links i ≡ some k
      → l.dst ≡ k.dst
      → Touches i s.links (handle_envelope i l src env s).links
  unfolding handle_envelope
  handle_envelope-Touches i l k src ping s h e = reply-Touches i l k src pong s h e
  handle_envelope-Touches i l k src (request req) s h e =
      let (resp, service) = X.handle s.service req in
      reply-Touches i l k src (response resp) (record s { service = service }) h e
  handle_envelope-Touches i l k src (subscribe topic f c) s h e =
      subscribe_to-Touches i l k topic (X.verify_topic s.service c topic) s h e
  handle_envelope-Touches i l k src (response resp) s h e = Touches-refl i s.links
  handle_envelope-Touches i l k src (event ev) s h e = Touches-refl i s.links
  handle_envelope-Touches i l k src (unsubscribe topic) s h e = Touches-refl i s.links
  handle_envelope-Touches i l k src (subscribe_error topic d) s h e = Touches-refl i s.links
  handle_envelope-Touches i l k src pong s h e = Touches-refl i s.links

  opened_at-Touches :
      (i : ℕ) (l : Link) (src : Addr) (o : Option (Envelope protocol) × DataChannel) (s : Server)
      → get_elem? s.links i ≡ some l
      → Touches i s.links (outcome (opened_at i l src o s)).links
  unfolding opened_at
  opened_at-Touches i l src (none, ch) s h =
      Touches-set i s.links l (record l { channel = ch }) h refl
  opened_at-Touches i l src (some env, ch) s h =
      let l' : Link = record l { channel = ch } in
      Touches-trans i s.links (set s.links i l')
        (handle_envelope i l' src env (with_channel i l ch s)).links
        (Touches-set i s.links l l' h refl)
        (handle_envelope-Touches i l' l' src env (with_channel i l ch s)
          (get_elem?-set_self s.links i l' l h) refl)

  -- What a data datagram of an address with a session does to the links: it touches the session's.
  pub handle_data-Touches :
      (r : Receipt) (src : Addr) (dgram : Bytes) (s : Server) (p : PeerState)
      → Map.get ⦃e = addr_key⦄ s.peers src ≡ some p
      → Touches p.link s.links (outcome (handle_data r src dgram s)).links
  unfolding handle_data
  handle_data-Touches r src dgram s p found = elim (Option-cases (get_elem? s.links p.link)) [
    | inl lost ↦ rw (found, lost) (Touches-refl p.link s.links)
    | inr (l, there) ↦
        rw (found, there)
          (opened_at-Touches p.link l src (open_datagram l.channel dgram)
            (record s {
              peers = Map.insert ⦃e = addr_key⦄ s.peers src (record p { last_seen = r.now });
            })
            there)
  ]
