-- ===== src/Udp/Server/Cookies.antt =====
-- The defence against a flood of first messages from sources that cannot receive the reply.
use mathlib.Core.Path.{subst}
use Prim.Native.Nat.{max}
use vaiexia_obfs.Common.Map
use vaiexia_obfs.Common.{
  ℕ, ◌+◌, ◌≤◌, ◌≡◌, refl, true, false, Option, none, some, List, [], ◌∷◌, Result, ok, err, arith,
  length, inl, inr, leb, leb→le, sym, Bool-cases,
}
use vaiexia_obfs.External.{Bytes, External}
use vaiexia_obfs.Udp.WireDgram.{hs1}
use vaiexia_obfs.Udp.Msg1.{decode_msg1_framed}
use vaiexia_obfs.Udp.CookieGate.{always_under_load}
use vaiexia_obfs.Udp.Handshake.{process_hs1, src_bytes, AcceptResult, partial_handshake}
use vaiexia_obfs.Udp.Server.State.{Server, Config, Receipt, send_sealed}
use vaiexia_obfs.Udp.Server.Hs1.{handle_hs1, effective_under_load}
use vaiexia_obfs.Udp.Server.Hs3.{handle_hs3}
use vaiexia_obfs.Udp.Server.Dgram.{clean_up, handle_dgram}
use vaiexia_obfs.Udp.Server.Frame.{outcome, handle_data-frame}
use vaiexia_obfs.Udp.Server.Runs.{Holds, handle_dgram-Ways, receive_all}

module _ ⦃X : External⦄ where
  open X use {protocol, Rng, Addr, addr_key, CookieSecret, verify}

  -- No first message in the body has a cookie behind it that verifies for the source.
  abbrev pub Unverified : CookieSecret → Addr → Bytes → Type 0
  Unverified secret src body =
      (m c : Bytes)
      → decode_msg1_framed body ≡ some (m, some c)
      → verify secret (src_bytes src) c ≡ false

  -- The responder has made no Noise state.
  abbrev pub MadeNothing : Result (Option AcceptResult) → Type 0
  MadeNothing (ok (some (partial_handshake hs w a))) = ⊥
  MadeNothing (ok _) = Unit {0}
  MadeNothing (err e) = Unit {0}

  process_decoded-Unverified :
      (r : Receipt) (body : Bytes) (src : Addr) (cfg : Config) (s : Server)
      (o : Option (Bytes × Option Bytes))
      → Unverified s.cookie_secret src body
      → decode_msg1_framed body ≡ o
      → MadeNothing
          (process_hs1 r.entropy body src cfg.server_priv s.cookie_secret always_under_load
            cfg.profile s.rng).0
  unfolding process_hs1
  process_decoded-Unverified r body src cfg s none u e = rw e tt
  process_decoded-Unverified r body src cfg s (some (m, none)) u e = rw e tt
  process_decoded-Unverified r body src cfg s (some (m, some c)) u e = rw (e, u m c e) tt

  -- Under load, a source without a valid cookie does not change the half-open handshakes.
  handle_hs1-Unverified :
      (cfg : Config) (r : Receipt) (src : Addr) (body : Bytes) (s : Server)
      → Unverified s.cookie_secret src body
      → effective_under_load r.load s ≡ true
      → (outcome (handle_hs1 cfg r src body s)).pending ≡ s.pending
  unfolding handle_hs1
  handle_hs1-Unverified cfg r src body s u load =
      let made = process_decoded-Unverified r body src cfg s (decode_msg1_framed body) u refl in
      rw load (ground (arith, made))

  -- Of the cookie secret and the half-open handshakes: what one first message does at most.
  abbrev Within : CookieSecret → ℕ → Server → Type 0
  Within secret n s = (s.cookie_secret ≡ secret) × (length s.pending ≤ n)

  handle_hs1-grows :
      (cfg : Config) (r : Receipt) (src : Addr) (body : Bytes) (s : Server)
      → Within s.cookie_secret (length s.pending + 1) (outcome (handle_hs1 cfg r src body s))
  unfolding handle_hs1
  handle_hs1-grows cfg r src body s = grind (arith, Map.length-insert)

  loaded :
      (r : Receipt) (s : Server) → 256 ≤ length s.pending → effective_under_load r.load s ≡ true
  unfolding effective_under_load
  loaded r s h = ground arith

  handle_hs1-Within :
      (cfg : Config) (r : Receipt) (src : Addr) (body : Bytes) (s : Server) (n : ℕ)
      → 256 ≤ n
      → Unverified s.cookie_secret src body
      → length s.pending ≤ n
      → Within s.cookie_secret n (outcome (handle_hs1 cfg r src body s))
  handle_hs1-Within cfg r src body s n big u h =
      let grown = handle_hs1-grows cfg r src body s in
      elim (Bool-cases (leb 256 (length s.pending))) [
        | inl full ↦ (
          grown.0,
          rw (handle_hs1-Unverified cfg r src body s u (loaded r s (leb→le _ _ full))) h,
        )
        | inr room ↦ (grown.0, ground (arith, grown))
      ]

  handle_hs3-Within :
      (cfg : Config) (r : Receipt) (src : Addr) (body : Bytes) (s : Server)
      → Within s.cookie_secret (length s.pending) (outcome (handle_hs3 cfg r src body s))
  unfolding handle_hs3 send_sealed
  handle_hs3-Within cfg r src body s = grind (arith, Map.length-remove)

  clean_up-Within :
      (secret : CookieSecret) (n now : ℕ) (s : Server)
      → Within secret n s
      → Within secret n (clean_up now s)
  unfolding clean_up
  clean_up-Within secret n now s h = grind (arith, Map.length-retain)

  -- A datagram that no Noise state should be made for: if it holds a first message, then none with a
  -- cookie that verifies for its source.
  abbrev pub IsSpoofed : Config → CookieSecret → Addr → Bytes → Type 0
  IsSpoofed cfg secret src dgram =
      (body : Bytes) → Holds cfg dgram hs1 body → Unverified secret src body

  handle_dgram-Within :
      (cfg : Config) (r : Receipt) (src : Addr) (dgram : Bytes) (s : Server) (n : ℕ)
      → 256 ≤ n
      → IsSpoofed cfg s.cookie_secret src dgram
      → length s.pending ≤ n
      → Within s.cookie_secret n (handle_dgram cfg r src dgram s)
  handle_dgram-Within cfg r src dgram s n big u h =
      handle_dgram-Ways {Q = Within s.cookie_secret n} (record {
        ignored = (refl, h);
        at_hs1 = λ body held. handle_hs1-Within cfg r src body s n big (u body held) h;
        at_hs3 = λ body _. let f = handle_hs3-Within cfg r src body s in (f.0, omega (arith, f.1));
        at_data = λ body _.
            let f = handle_data-frame r src dgram s in (f.cookie_secret, ground (arith, f));
        at_clean_up = clean_up-Within s.cookie_secret n r.now;
      })

  abbrev pub AreSpoofed : Config → CookieSecret → List (Receipt × Addr × Bytes) → Type 0
  AreSpoofed cfg secret [] = Unit {0}
  AreSpoofed cfg secret ((r, src, dgram) ∷ inputs) =
      IsSpoofed cfg secret src dgram × AreSpoofed cfg secret inputs

  flood_lem :
      (cfg : Config) (inputs : List (Receipt × Addr × Bytes)) (s : Server) (n : ℕ)
      → 256 ≤ n
      → AreSpoofed cfg s.cookie_secret inputs
      → length s.pending ≤ n
      → length (receive_all cfg inputs s).pending ≤ n
  flood_lem cfg [] s n big all h = h
  flood_lem cfg ((r, src, dgram) ∷ inputs) s n big all h =
      let (secret, fits) = handle_dgram-Within cfg r src dgram s n big all.0 h in
      flood_lem cfg inputs (handle_dgram cfg r src dgram s) n big
        (subst (λ x. AreSpoofed cfg x inputs) (sym secret) all.1) fits

  -- Datagrams from sources that present no cookie valid for them, however many and whatever the
  -- operator's gate answers, never bring the half-open handshakes above the larger of 256 and
  -- what there were before, while the cookie secret is not rotated.
  pub flood_bounded :
      (cfg : Config) (inputs : List (Receipt × Addr × Bytes)) (s : Server)
      → AreSpoofed cfg s.cookie_secret inputs
      → length (receive_all cfg inputs s).pending ≤ max 256 (length s.pending)
  flood_bounded cfg inputs s all =
      flood_lem cfg inputs s (max 256 (length s.pending)) (omega arith) all (omega arith)
