-- ===== src/Tcp/HandshakeIo.antt =====
-- src/handshake_io.rs: the Noise-XK handshake on a byte stream.
pub mod Leftover
pub mod Initiator
use vaiexia_obfs.Common.{
  ℕ, zero, suc, Option, none, some, List, [], ◌∷◌, Result, ok, err, ObfsError, closed, wire, ok_or,
}
use vaiexia_obfs.Common.Effects.{Stateful, ◌>>=◌, ◌>>◌, pure, lift}
use vaiexia_obfs.External.{Bytes, External, MimicryProfile}
use vaiexia_obfs.Stream.{Stream, Ending, eof, failure, end_error, read_exact, write_all}
use vaiexia_obfs.Tcp.Framing.{Pipe, send_raw, recv_raw}

module _ ⦃X : External⦄ where
  open X use {
    Rng, Entropy, Handshake, initiator, responder, write_message, read_message, remote_static,
    Session, into_session,
  }

  -- What one side of the exchange works on.
  pub record Exchange : Type 0 where
    pub pipe : Pipe
    pub hs : Handshake

  abbrev pub Hio {ℓ} : Type ℓ → Type ℓ
  Hio A = Stateful Exchange A

  unfoldable pub on_pipe {ℓ} : {A : Type ℓ} → Exchange → Result A × Pipe → Result A × Exchange
  on_pipe x (result, pipe) = (result, record x { pipe = pipe })

  unfoldable pub on_handshake : Exchange → Option Bytes × Handshake → Result Bytes × Exchange
  on_handshake x (result, hs) = (ok_or result wire, record x { hs = hs })

  unfoldable pub on_stream : Exchange → Result (Unit {0}) × Stream → Result (Unit {0}) × Exchange
  on_stream x (result, stream) = (result, record x { pipe = record x.pipe { stream = stream } })

  unfoldable pub send : MimicryProfile Rng → Bytes → Hio (Unit {0})
  unfolding on_pipe
  send profile bytes x = on_pipe x (send_raw profile bytes x.pipe)

  unfoldable pub recv : MimicryProfile Rng → Hio Bytes
  unfolding on_pipe
  recv profile x = on_pipe x (recv_raw profile x.pipe)

  unfoldable pub write_hs : Hio Bytes
  unfolding on_handshake
  write_hs x = on_handshake x (write_message x.hs [])

  unfoldable pub read_hs : Bytes → Hio Bytes
  unfolding on_handshake
  read_hs message x = on_handshake x (read_message x.hs message)

  unfoldable pub static_key : Hio (Option Bytes)
  static_key x = (ok (remote_static x.hs), x)

  unfoldable pub finish : Hio Session
  finish x = (ok_or (into_session x.hs) wire, x)

  unfoldable pub leftover : Hio Bytes
  leftover x = (ok x.pipe.buf, x)

  write_preamble : Bytes × Rng → Hio (Unit {0})
  unfolding on_stream
  write_preamble ([], rng) x = (ok tt, record x { pipe = record x.pipe { rng = rng } })
  write_preamble (b ∷ bs, rng) x =
      on_stream (record x { pipe = record x.pipe { rng = rng } }) (write_all (b ∷ bs) x.pipe.stream)

  unfoldable pub send_preamble : MimicryProfile Rng → Hio (Unit {0})
  unfolding write_preamble
  send_preamble profile x = write_preamble (profile.preamble x.pipe.rng) x

  -- The end of the stream within the preamble closes the connection.
  unfoldable pub discarded : Ending → Result Bytes × Stream → Result (Unit {0}) × Stream
  discarded e (ok bytes, s) = (ok tt, s)
  discarded eof (err e, s) = (err closed, s)
  discarded failure (err e, s) = (err e, s)

  unfoldable pub skip_bytes : ℕ → Hio (Unit {0})
  unfolding discarded on_stream
  skip_bytes zero x = (ok tt, x)
  skip_bytes (suc n) x =
      on_stream x (discarded x.pipe.stream.ending (read_exact (suc n) x.pipe.stream))

  unfoldable pub skip_preamble : MimicryProfile Rng → Hio (Unit {0})
  unfolding skip_bytes
  skip_preamble profile = skip_bytes profile.preamble_skip

  unfoldable pub client_steps : MimicryProfile Rng → Hio (Session × Bytes)
  client_steps profile = do
    send_preamble profile
    m1 ← write_hs
    send profile m1
    m2 ← recv profile
    read_hs m2
    m3 ← write_hs
    send profile m3
    session ← finish
    buf ← leftover
    pure (session, buf)

  unfoldable pub server_steps : MimicryProfile Rng → Hio (Session × Option Bytes × Bytes)
  server_steps profile = do
    skip_preamble profile
    m1 ← recv profile
    read_hs m1
    m2 ← write_hs
    send profile m2
    m3 ← recv profile
    read_hs m3
    static ← static_key
    session ← finish
    buf ← leftover
    pure (session, static, buf)

  abbrev pub start : Stream → Rng → Handshake → Exchange
  start stream rng hs = record { pipe = record { stream = stream; rng = rng; buf = [] }; hs = hs }

  unfoldable pub run {ℓ} :
      {A : Type ℓ} → Hio A → Rng → Option Handshake → Stream → Result A × Stream
  run steps rng none stream = (err wire, stream)
  run steps rng (some hs) stream =
      let (result, x) = steps (start stream rng hs) in (result, x.pipe.stream)

  -- `rng` is what `SmallRng::from_entropy` gives.
  unfoldable pub client_handshake_in_place :
      Entropy
      → Rng
      → Bytes
      → Bytes
      → MimicryProfile Rng
      → Stream
      → Result (Session × Bytes) × Stream
  unfolding run
  client_handshake_in_place entropy rng local_private remote_public profile =
      run (client_steps profile) rng (initiator entropy local_private remote_public)

  unfoldable pub server_handshake_in_place :
      Entropy
      → Rng
      → Bytes
      → MimicryProfile Rng
      → Stream
      → Result (Session × Option Bytes × Bytes) × Stream
  unfolding run
  server_handshake_in_place entropy rng local_private profile =
      run (server_steps profile) rng (responder entropy local_private)

  -- The variants without a profile: `vanilla` is vaiexia_wire's `Vanilla::new(Default::default())`.
  session_of : Result (Session × Bytes) × Stream → Result Session
  session_of (ok (session, buf), stream) = ok session
  session_of (err e, stream) = err e

  unfoldable pub client_handshake :
      MimicryProfile Rng → Entropy → Rng → Bytes → Bytes → Stream → Result Session
  unfolding session_of
  client_handshake vanilla entropy rng local_private remote_public io =
      session_of (client_handshake_in_place entropy rng local_private remote_public vanilla io)

  server_session_of : Result (Session × Option Bytes × Bytes) × Stream → Result Session
  server_session_of (ok (session, static, buf), stream) = ok session
  server_session_of (err e, stream) = err e

  unfoldable pub server_handshake :
      MimicryProfile Rng → Entropy → Rng → Bytes → Stream → Result Session
  unfolding server_session_of
  server_handshake vanilla entropy rng local_private io =
      server_session_of (server_handshake_in_place entropy rng local_private vanilla io)
