-- ===== src/Udp/Server/Links/Unique.antt =====
-- In every run no address has two sessions.
use vaiexia_obfs.Common.Map
use vaiexia_obfs.Common.{arith, ℕ, ◌≡◌, Result, ok, err, Option-cases, Bool-cases, inl, inr}
use vaiexia_obfs.External.{Bytes, External}
use vaiexia_obfs.Verifier.{is_accepted}
use vaiexia_obfs.Envelope.{pong}
use vaiexia_obfs.Udp.Dataplane.{DataChannel, seal_envelope}
use vaiexia_obfs.Udp.Handshake.{complete_handshake_msg3}
use vaiexia_obfs.Udp.Server.State.{Server, Config, Receipt, send_sealed}
use vaiexia_obfs.Udp.Server.Hs1.{handle_hs1}
use vaiexia_obfs.Udp.Server.Hs3.{handle_hs3, admit, greet}
use vaiexia_obfs.Udp.Server.Data.{handle_data}
use vaiexia_obfs.Udp.Server.Dgram.{clean_up}
use vaiexia_obfs.Udp.Server.Tasks.{drain, drained, drain_queue, drain_link, publish, rotate_cookie}
use vaiexia_obfs.Udp.Server.Runs.{Reach, fresh, Kept, Reach-kept}
use vaiexia_obfs.Udp.Server.Frame.{outcome}
use vaiexia_obfs.Udp.Server.Links.Session.{handle_hs1-same, handle_data-session}

module _ ⦃X : External⦄ where
  open X use {protocol, Addr, addr_key, Rng, Handshake, Service, CookieSecret}

  abbrev pub OneEach : Server → Type 0
  OneEach s = Map.IsUnique ⦃e = addr_key⦄ s.peers

  greet-OneEach :
      (r : Receipt) (src : Addr) (o : Result Bytes × DataChannel × Rng) (s : Server)
      → OneEach s
      → OneEach (greet r src o s)
  unfolding greet send_sealed
  greet-OneEach r src (ok w, ch, rng) s h = Map.IsUnique-insert ⦃e = addr_key⦄ s.peers src _ h
  greet-OneEach r src (err e, ch, rng) s h = Map.IsUnique-insert ⦃e = addr_key⦄ s.peers src _ h

  admit-OneEach :
      (cfg : Config) (r : Receipt) (src : Addr) (s : Server)
      (o : Result (DataChannel × Bytes) × Handshake)
      → OneEach s
      → OneEach (outcome (admit cfg r src s o))
  unfolding admit
  admit-OneEach cfg r src s (err e, hs) h = h
  admit-OneEach cfg r src s (ok (channel, key), hs) h =
      elim (Bool-cases (is_accepted (cfg.gate.authenticate key))) [
        | inl accepted ↦ rw accepted (greet-OneEach r src (seal_envelope channel pong s.rng) s h)
        | inr rejected ↦ rw rejected h
      ]

  handle_hs3-OneEach :
      (cfg : Config) (r : Receipt) (src : Addr) (body : Bytes) (s : Server)
      → OneEach s
      → OneEach (outcome (handle_hs3 cfg r src body s))
  unfolding handle_hs3
  handle_hs3-OneEach cfg r src body s h =
      elim (Option-cases (Map.get ⦃e = addr_key⦄ s.pending src)) [
        | inl absent ↦ rw absent h
        | inr (ph, found) ↦ rw found (
            admit-OneEach cfg r src (record s { pending = Map.remove ⦃e = addr_key⦄ s.pending src })
              (complete_handshake_msg3 ph.responder body cfg.profile) h)
      ]

  handle_data-OneEach :
      (r : Receipt) (src : Addr) (dgram : Bytes) (s : Server)
      → OneEach s
      → OneEach (outcome (handle_data r src dgram s))
  handle_data-OneEach r src dgram s h = elim (Option-cases (Map.get ⦃e = addr_key⦄ s.peers src)) [
    | inl absent ↦ unfold handle_data in rw absent h
    | inr (p, found) ↦
        rw (handle_data-session r src dgram s p found)
          (Map.IsUnique-insert ⦃e = addr_key⦄ s.peers src _ h)
  ]

  handle_hs1-OneEach :
      (cfg : Config) (r : Receipt) (src : Addr) (body : Bytes) (s : Server)
      → OneEach s
      → OneEach (outcome (handle_hs1 cfg r src body s))
  handle_hs1-OneEach cfg r src body s h = rw ((handle_hs1-same cfg r src body s).0) h

  clean_up-OneEach : (now : ℕ) (s : Server) → OneEach s → OneEach (clean_up now s)
  unfolding clean_up
  clean_up-OneEach now s h = Map.IsUnique-retain ⦃e = addr_key⦄ _ s.peers h

  pub OneEach-Kept : (cfg : Config) → Kept cfg OneEach
  OneEach-Kept cfg = record {
    at_hs1 = handle_hs1-OneEach cfg;
    at_hs3 = handle_hs3-OneEach cfg;
    at_data = handle_data-OneEach;
    at_clean_up = clean_up-OneEach;
  }

  drain-peers : (g : Rng) (i : ℕ) (s : Server) → (drain g i s).peers ≡ s.peers
  unfolding drain drain_link drain_queue drained send_sealed
  drain-peers g i s = ground arith

  pub Reach-OneEach :
      (cfg : Config) (secret : CookieSecret) (service : Service) (rng : Rng) {s : Server}
      → Reach cfg (fresh secret service rng) s
      → OneEach s
  unfolding fresh publish rotate_cookie
  Reach-OneEach cfg secret service rng run =
      Reach-kept {P = OneEach} (OneEach-Kept cfg) (λ g i s h. rw (drain-peers g i s) h)
        (λ ev s h. h) (λ seed s h. h) run tt
