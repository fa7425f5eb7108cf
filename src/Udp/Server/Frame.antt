-- ===== src/Udp/Server/Frame.antt =====
-- What the parts of the handler leave alone.
use vaiexia_obfs.Common.Map
use vaiexia_obfs.Common.{ℕ, ◌≡◌, arith, length, Option-cases, inl, inr}
use vaiexia_obfs.Envelope.{Envelope}
use vaiexia_obfs.External.{Bytes, External}
use vaiexia_obfs.Udp.Server.State.{Link, Server, Receipt, Flow, return, next, reply}
use vaiexia_obfs.Udp.Server.Data.{handle_envelope, handle_data}

module _ ⦃X : External⦄ where
  open X use {protocol, Addr, addr_key}

  -- The server that a handler leaves, before the clean-up.
  abbrev pub outcome : Flow → Server
  outcome (return s) = s
  outcome (next s) = s

  -- Two servers with the same sessions and half-open handshakes.
  pub record SameMaps (s t : Server) : Type 0 where
    pub pending : t.pending ≡ s.pending
    pub peers : t.peers ≡ s.peers

  pub reply-SameMaps :
      (i : ℕ) (l : Link) (src : Addr) (env : Envelope protocol) (s : Server)
      → SameMaps s (reply i l src env s)
  unfolding reply
  reply-SameMaps i l src env s = ground arith

  pub handle_envelope-SameMaps :
      (i : ℕ) (l : Link) (src : Addr) (env : Envelope protocol) (s : Server)
      → SameMaps s (handle_envelope i l src env s)
  unfolding handle_envelope
  handle_envelope-SameMaps i l src Envelope.ping s = ground arith
  handle_envelope-SameMaps i l src _ s = ground arith

  -- A data datagram leaves the half-open handshakes and the cookie secret alone, and adds no session.
  pub record DataFrame (s t : Server) : Type 0 where
    pub pending : t.pending ≡ s.pending
    pub cookie_secret : t.cookie_secret ≡ s.cookie_secret
    pub peers : length t.peers ≡ length s.peers

  pub handle_data-frame :
      (r : Receipt) (src : Addr) (dgram : Bytes) (s : Server)
      → DataFrame s (outcome (handle_data r src dgram s))
  unfolding handle_data handle_envelope
  handle_data-frame r src dgram s = elim (Option-cases (Map.get ⦃e = addr_key⦄ s.peers src)) [
    | inl absent ↦ rw absent (ground arith)
    | inr (peer, found) ↦ grind (
      arith,
      found,
      Map.length-insert_old,
      Map.contains_of_get ⦃e = addr_key⦄ s.peers src peer found,
    )
  ]
