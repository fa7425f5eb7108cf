-- ===== src/Udp/Server/Runs.antt =====
-- The runs of the server: any datagrams from any addresses, in any order with the rounds of its
-- tasks; and what an invariant has to show.
use vaiexia_obfs.Udp.Server.Dgram
use vaiexia_obfs.Common.{Option-cases, inl, inr, ℕ, ◌≡◌, refl, Option, none, some, List, [], ◌∷◌}
use vaiexia_obfs.External.{Bytes, External}
use vaiexia_obfs.Udp.WireDgram.{DgramType, hs1, hs3, data_record, decode_inner}
use vaiexia_obfs.Udp.Server.State.{Server, Config, Receipt, Flow, return, next}
use vaiexia_obfs.Udp.Server.Hs1.{handle_hs1}
use vaiexia_obfs.Udp.Server.Hs3.{handle_hs3}
use vaiexia_obfs.Udp.Server.Data.{handle_data}
use vaiexia_obfs.Udp.Server.Dgram.{clean_up, dispatch, handle_dgram}
use vaiexia_obfs.Udp.Server.Tasks.{drain, publish, rotate_cookie}
use vaiexia_obfs.Udp.Server.Frame.{outcome}

module _ ⦃X : External⦄ where
  open X use {protocol, Addr, Rng, Service, CookieSecret}

  -- A server that has just been bound.
  unfoldable pub fresh : CookieSecret → Service → Rng → Server
  fresh secret service rng = record {
    pending = [];
    peers = [];
    links = [];
    cookie_secret = secret;
    service = service;
    rng = rng;
    sent = [];
  }

  pub data Step (cfg : Config) : Server → Server → Type 0 where
    receive :
        (r : Receipt) (src : Addr) (dgram : Bytes) (s : Server)
        → Step cfg s (handle_dgram cfg r src dgram s)
    seal_next : (local_rng : Rng) (i : ℕ) (s : Server) → Step cfg s (drain local_rng i s)
    emit : (ev : protocol.Event) (s : Server) → Step cfg s (publish ev s)
    rotate_secret : (seed : Bytes) (s : Server) → Step cfg s (rotate_cookie seed s)

  -- A list of datagrams, handled one after the other.
  abbrev pub receive_all : Config → List (Receipt × Addr × Bytes) → Server → Server
  receive_all cfg [] s = s
  receive_all cfg ((r, src, dgram) ∷ inputs) s =
      receive_all cfg inputs (handle_dgram cfg r src dgram s)

  pub data Reach (cfg : Config) (s : Server) : Server → Type 0 where
    here : Reach cfg s s
    then : {t u : Server} → Reach cfg s t → Step cfg t u → Reach cfg s u

  -- The datagram holds an inner message of this type and body.
  pub record Holds (cfg : Config) (dgram : Bytes) (ty : DgramType) (body : Bytes) : Type 0 where
    pub inner : Bytes
    pub shaped : cfg.profile.shape_in dgram ≡ some inner
    pub decoded : decode_inner inner ≡ some (ty, body)

  -- The ways through the handler, as premises of a statement about its result.
  pub record Ways (cfg : Config) (r : Receipt) (src : Addr) (dgram : Bytes) (s : Server)
      (Q : Server → Type 0) : Type 0 where
    pub ignored : Q s
    pub at_hs1 :
        (body : Bytes) → Holds cfg dgram hs1 body → Q (outcome (handle_hs1 cfg r src body s))
    pub at_hs3 :
        (body : Bytes) → Holds cfg dgram hs3 body → Q (outcome (handle_hs3 cfg r src body s))
    pub at_data :
        (body : Bytes) → Holds cfg dgram data_record body → Q (outcome (handle_data r src dgram s))
    pub at_clean_up : (t : Server) → Q t → Q (clean_up r.now t)

  module _ {cfg : Config} {r : Receipt} {src : Addr} {dgram : Bytes} {s : Server}
      {Q : Server → Type 0} (w : Ways cfg r src dgram s Q) where
    dispatch-Ways :
        (inner : Bytes)
        → cfg.profile.shape_in dgram ≡ some inner
        → (found : Option (DgramType × Bytes)) → decode_inner inner ≡ found
        → Q (outcome (dispatch cfg r src dgram s found))
    unfolding dispatch
    dispatch-Ways inner e none d = w.ignored
    dispatch-Ways inner e (some (hs1, body)) d =
        w.at_hs1 body (record { inner = inner; shaped = e; decoded = d })
    dispatch-Ways inner e (some (hs3, body)) d =
        w.at_hs3 body (record { inner = inner; shaped = e; decoded = d })
    dispatch-Ways inner e (some (data_record, body)) d =
        w.at_data body (record { inner = inner; shaped = e; decoded = d })
    dispatch-Ways inner e (some (_, body)) d = w.ignored

    finish-Ways : (f : Flow) → Q (outcome f) → Q (Dgram.finish r f)
    finish-Ways (return t) h = h
    finish-Ways (next t) h = w.at_clean_up t h

    pub handle_dgram-Ways : Q (handle_dgram cfg r src dgram s)
    unfolding handle_dgram
    handle_dgram-Ways = elim (Option-cases (cfg.profile.shape_in dgram)) [
      | inl unshaped ↦ rw unshaped w.ignored
      | inr (inner, e) ↦ rw e (
          finish-Ways (dispatch cfg r src dgram s (decode_inner inner))
            (dispatch-Ways inner e (decode_inner inner) refl))
    ]

  -- What keeps a predicate of the server: each of the three handlers, and the clean-up.
  pub record Kept (cfg : Config) (P : Server → Type 0) : Type 0 where
    pub at_hs1 :
        (r : Receipt) (src : Addr) (body : Bytes) (s : Server)
        → P s
        → P (outcome (handle_hs1 cfg r src body s))
    pub at_hs3 :
        (r : Receipt) (src : Addr) (body : Bytes) (s : Server)
        → P s
        → P (outcome (handle_hs3 cfg r src body s))
    pub at_data :
        (r : Receipt) (src : Addr) (dgram : Bytes) (s : Server)
        → P s
        → P (outcome (handle_data r src dgram s))
    pub at_clean_up : (now : ℕ) (s : Server) → P s → P (clean_up now s)

  pub handle_dgram-kept :
      {cfg : Config} {P : Server → Type 0}
      → Kept cfg P
      → (r : Receipt) (src : Addr) (dgram : Bytes) (s : Server) → P s
      → P (handle_dgram cfg r src dgram s)
  handle_dgram-kept {cfg} {P} k r src dgram s h = handle_dgram-Ways {Q = P} (record {
    ignored = h;
    at_hs1 = λ body _. k.at_hs1 r src body s h;
    at_hs3 = λ body _. k.at_hs3 r src body s h;
    at_data = λ body _. k.at_data r src dgram s h;
    at_clean_up = k.at_clean_up r.now;
  })

  -- An invariant that the tasks keep too holds of every server that can be reached.
  pub Reach-kept :
      {cfg : Config} {P : Server → Type 0}
      → Kept cfg P
      → ((local_rng : Rng) (i : ℕ) (s : Server) → P s → P (drain local_rng i s))
      → ((ev : protocol.Event) (s : Server) → P s → P (publish ev s))
      → ((seed : Bytes) (s : Server) → P s → P (rotate_cookie seed s))
      → {s t : Server} → Reach cfg s t
      → P s
      → P t
  Reach-kept k d p c here h = h
  Reach-kept k d p c (then run (receive r src dgram s)) h =
      handle_dgram-kept k r src dgram s (Reach-kept k d p c run h)
  Reach-kept k d p c (then run (seal_next g i s)) h = d g i s (Reach-kept k d p c run h)
  Reach-kept k d p c (then run (emit ev s)) h = p ev s (Reach-kept k d p c run h)
  Reach-kept k d p c (then run (rotate_secret seed s)) h = c seed s (Reach-kept k d p c run h)
