-- ===== src/Udp/Server/Links/Others.antt =====
-- A session of src/udp/server.rs while datagrams of other addresses are handled.
use vaiexia_obfs.Common.Map
use vaiexia_obfs.Common.{◌≡◌, ◌≢◌, ◌⊎◌, none, refl, ◌∙◌, some, List, [], ◌∷◌, inl, inr}
use vaiexia_obfs.External.{Bytes, External}
use vaiexia_obfs.Udp.Server.State.{Server, Config, Receipt, PeerState}
use vaiexia_obfs.Udp.Server.Dgram.{handle_dgram}
use vaiexia_obfs.Udp.Server.Runs.{Reach, Step, receive_all, fresh}
use vaiexia_obfs.Udp.Server.Links.Isolation.{session, IsIdle, Undisturbed, handle_dgram-Kept}
use vaiexia_obfs.Udp.Server.Links.Invariant.{HasLink, Reach-IsLinked}
use vaiexia_obfs.Udp.Server.Links.Unique.{Reach-OneEach}

module _ ⦃X : External⦄ where
  open X use {protocol, Addr, addr_key, Rng, Service, CookieSecret}

  -- The clean-up behind one of the datagrams has found the session idle.
  abbrev pub WasIdle : PeerState → List (Receipt × Addr × Bytes) → Type 0
  WasIdle p [] = ⊥
  WasIdle p ((r, src, dgram) ∷ inputs) = IsIdle r.now p ⊎ WasIdle p inputs

  -- Two changes that leave a session undisturbed, one after the other.
  both-Undisturbed :
      {V W : Type 0} (s t u : Server) (p : PeerState) (b : Addr)
      → Undisturbed V s t p b
      → Undisturbed W t u p b
      → Undisturbed (V ⊎ W) s u p b
  both-Undisturbed s t u p b first second = record {
    link = second.link ∙ first.link;
    entry = elim second.entry [
      | inr (absent, why) ↦ inr (absent, inr why)
      | inl same ↦ elim first.entry [
        | inl before ↦ inl (same ∙ before)
        | inr (absent, why) ↦ inr (same ∙ absent, inl why)
      ]
    ];
  }

  -- The session is p's or none, before and so behind a change that leaves it undisturbed.
  abbrev IsOrWas : Server → Addr → PeerState → Type 0
  IsOrWas s b p = (session s b ≡ some p) ⊎ (session s b ≡ none)

  IsOrWas-next :
      {W : Type 0} (s t : Server) (p : PeerState) (b : Addr)
      → Undisturbed W s t p b
      → IsOrWas s b p
      → IsOrWas t b p
  IsOrWas-next s t p b u start = elim u.entry [
    | inr (absent, why) ↦ inr absent
    | inl same ↦ elim start [ inl there ↦ inl (same ∙ there) | inr absent ↦ inr (same ∙ absent) ]
  ]

  -- None of the datagrams comes from this address.
  abbrev pub AreOthers : Addr → List (Receipt × Addr × Bytes) → Type 0
  AreOthers b [] = Unit {0}
  AreOthers b ((r, src, dgram) ∷ inputs) = (b ≢ src) × AreOthers b inputs

  receive_all-kept :
      (cfg : Config) (secret : CookieSecret) (service : Service) (rng : Rng)
      (inputs : List (Receipt × Addr × Bytes)) (b : Addr) (p : PeerState) {s : Server}
      → Reach cfg (fresh secret service rng) s
      → HasLink s.links b p
      → IsOrWas s b p
      → AreOthers b inputs
      → Undisturbed (WasIdle p inputs) s (receive_all cfg inputs s) p b
  receive_all-kept cfg secret service rng [] b p run linked start others = record {
    link = refl;
    entry = inl refl;
  }
  receive_all-kept cfg secret service rng ((r, src, dgram) ∷ inputs) b p {s} run (l, there, own)
        start (n, others) =
      let t = handle_dgram cfg r src dgram s in
      let first =
        (handle_dgram-Kept b p s (l, there, own) start cfg r src dgram
          (Reach-IsLinked cfg secret service rng run) (Reach-OneEach cfg secret service rng run)
          n).0 in
      both-Undisturbed s t (receive_all cfg inputs t) p b first (
        receive_all-kept cfg secret service rng inputs b p
          (Reach.then run (Step.receive r src dgram s)) (l, first.link ∙ there, own)
          (IsOrWas-next s t p b first start) others)

  -- In every run of a server that has started empty, datagrams that come from other addresses, however
  -- many and whatever they hold, leave a session as it was: its link, with the channel's counters, the
  -- queue and the topics, is the same, and so is the session with its time of last sight. The session
  -- is gone only if it had been silent for 120 seconds or more at the time of one of these datagrams.
  pub receive_all-Undisturbed :
      (cfg : Config) (secret : CookieSecret) (service : Service) (rng : Rng)
      (inputs : List (Receipt × Addr × Bytes)) {s : Server}
      → Reach cfg (fresh secret service rng) s
      → (b : Addr) (p : PeerState) → session s b ≡ some p
      → AreOthers b inputs
      → Undisturbed (WasIdle p inputs) s (receive_all cfg inputs s) p b
  receive_all-Undisturbed cfg secret service rng inputs {s} run b p found others =
      receive_all-kept cfg secret service rng inputs b p run
        (Map.Entries-get ⦃e = addr_key⦄ (HasLink s.links) s.peers b p
          (Reach-IsLinked cfg secret service rng run) found)
        (inl found) others
