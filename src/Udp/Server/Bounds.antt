-- ===== src/Udp/Server/Bounds.antt =====
-- How many half-open handshakes and sessions the server can hold.
use vaiexia_obfs.Common.Map
use vaiexia_obfs.Common.{ℕ, ◌+◌, ◌≤◌, Option-cases, inl, inr, arith, length}
use vaiexia_obfs.External.{Bytes, External}
use vaiexia_obfs.Udp.Server.State.{Server, Config, Receipt, send_sealed}
use vaiexia_obfs.Udp.Server.Hs1.{handle_hs1}
use vaiexia_obfs.Udp.Server.Hs3.{handle_hs3}
use vaiexia_obfs.Udp.Server.Data.{handle_data}
use vaiexia_obfs.Udp.Server.Dgram.{clean_up}
use vaiexia_obfs.Udp.Server.Tasks.{drain, publish, rotate_cookie}
use vaiexia_obfs.Udp.Server.Runs.{Reach, fresh, Kept, Reach-kept}
use vaiexia_obfs.Udp.Server.Frame.{outcome, handle_envelope-SameMaps}

module _ ⦃X : External⦄ where
  open X use {protocol, Addr, addr_key, Rng}

  -- `max_pending`, and `max_peers - 1 + max_pending`.
  pub record IsBounded (s : Server) : Type 0 where
    pub pending_capped : length s.pending ≤ 2048
    pub total_capped : length s.peers + length s.pending ≤ 3071

  handle_hs1-IsBounded :
      (cfg : Config) (r : Receipt) (src : Addr) (body : Bytes) (s : Server)
      → IsBounded s
      → IsBounded (outcome (handle_hs1 cfg r src body s))
  unfolding handle_hs1
  handle_hs1-IsBounded cfg r src body s h = grind (arith, Map.length-insert, Map.length-insert_old)

  handle_hs3-IsBounded :
      (cfg : Config) (r : Receipt) (src : Addr) (body : Bytes) (s : Server)
      → IsBounded s
      → IsBounded (outcome (handle_hs3 cfg r src body s))
  unfolding handle_hs3 send_sealed
  handle_hs3-IsBounded cfg r src body s h =
      elim (Option-cases (Map.get ⦃e = addr_key⦄ s.pending src)) [
        | inl absent ↦ rw absent h
        | inr (ph, found) ↦ grind (
          arith,
          found,
          Map.length-insert,
          Map.length-remove_found ⦃e = addr_key⦄ s.pending src ph found,
        )
      ]

  handle_data-IsBounded :
      (r : Receipt) (src : Addr) (dgram : Bytes) (s : Server)
      → IsBounded s
      → IsBounded (outcome (handle_data r src dgram s))
  unfolding handle_data
  handle_data-IsBounded r src dgram s h = elim (Option-cases (Map.get ⦃e = addr_key⦄ s.peers src)) [
    | inl absent ↦ rw absent h
    | inr (peer, found) ↦ grind (
      arith,
      found,
      handle_envelope-SameMaps,
      Map.length-insert_old,
      Map.contains_of_get ⦃e = addr_key⦄ s.peers src peer found,
    )
  ]

  clean_up-IsBounded : (now : ℕ) (s : Server) → IsBounded s → IsBounded (clean_up now s)
  unfolding clean_up
  clean_up-IsBounded now s h = grind (arith, Map.length-retain)

  drain-IsBounded : (g : Rng) (i : ℕ) (s : Server) → IsBounded s → IsBounded (drain g i s)
  unfolding drain send_sealed
  drain-IsBounded g i s h = ground arith

  publish-IsBounded : (ev : protocol.Event) (s : Server) → IsBounded s → IsBounded (publish ev s)
  unfolding publish
  publish-IsBounded ev s h = ground arith

  rotate_cookie-IsBounded :
      (seed : Bytes) (s : Server) → IsBounded s → IsBounded (rotate_cookie seed s)
  unfolding rotate_cookie
  rotate_cookie-IsBounded seed s h = ground arith

  handlers-IsBounded : (cfg : Config) → Kept cfg IsBounded
  handlers-IsBounded cfg = record {
    at_hs1 = handle_hs1-IsBounded cfg;
    at_hs3 = handle_hs3-IsBounded cfg;
    at_data = handle_data-IsBounded;
    at_clean_up = clean_up-IsBounded;
  }

  -- Whatever datagrams arrive and however the tasks run, a server that has started empty never
  -- holds more than 2048 half-open handshakes, nor more than 3071 sessions and half-open handshakes
  -- together.
  pub Reach-IsBounded :
      (cfg : Config) (secret : X.CookieSecret) (service : X.Service) (rng : Rng) {s : Server}
      → Reach cfg (fresh secret service rng) s
      → IsBounded s
  unfolding fresh
  Reach-IsBounded cfg secret service rng run =
      Reach-kept (handlers-IsBounded cfg) drain-IsBounded publish-IsBounded rotate_cookie-IsBounded
        run (omega arith)
