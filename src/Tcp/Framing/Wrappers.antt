-- ===== src/Tcp/Framing/Wrappers.antt =====
-- src/framing.rs: the wrappers `FramedWriter` and `FramedReader`, and the functions `write_frame` and
-- `read_frame`, which use the profile Vanilla of vaiexia-wire; it is the parameter `vanilla`.
pub mod Lost
use vaiexia_obfs.Common.{[], Result}
use vaiexia_obfs.Envelope.{Envelope}
use vaiexia_obfs.External.{Bytes, External, MimicryProfile}
use vaiexia_obfs.Stream.{Stream}
use vaiexia_obfs.Tcp.Framing.{Conn, send_frame, recv_frame}

module _ ⦃X : External⦄ where
  open X use {protocol, Rng, Session}

  -- `send_frame` and `recv_frame` on their arguments; receiving takes no generator.
  abbrev pub conn_of : Stream → Rng → Bytes → Session → Conn
  conn_of stream rng buf session = record {
    pipe = record { stream = stream; rng = rng; buf = buf };
    session = session;
  }

  pub record FramedWriter : Type 0 where
    pub w : Stream
    pub profile : MimicryProfile Rng
    pub rng : Rng

  abbrev pub new_writer : Stream → MimicryProfile Rng → Rng → FramedWriter
  new_writer w profile entropy = record { w = w; profile = profile; rng = entropy }

  unfoldable pub send :
      Envelope protocol → FramedWriter → Session → Result (Unit {0}) × FramedWriter × Session
  send env f session =
      let (result, c) = send_frame f.profile env (conn_of f.w f.rng [] session) in
      (result, record f { w = c.pipe.stream; rng = c.pipe.rng }, c.session)

  pub record FramedReader : Type 0 where
    pub r : Stream
    pub profile : MimicryProfile Rng
    pub buf : Bytes

  abbrev pub new_reader : Stream → MimicryProfile Rng → FramedReader
  new_reader r profile = record { r = r; profile = profile; buf = [] }

  -- `idle` is the generator of the connection's record, which receiving does not use.
  unfoldable pub recv :
      Rng → FramedReader → Session → Result (Envelope protocol) × FramedReader × Session
  recv idle f session =
      let (result, c) = recv_frame f.profile (conn_of f.r idle f.buf session) in
      (result, record f { r = c.pipe.stream; buf = c.pipe.buf }, c.session)

  module _ (vanilla : MimicryProfile Rng) where
    unfoldable pub write_frame :
        Rng → Envelope protocol → Stream → Session → Result (Unit {0}) × Stream × Session
    write_frame entropy envelope io session =
        let (result, c) = send_frame vanilla envelope (conn_of io entropy [] session) in
        (result, c.pipe.stream, c.session)

    -- The buffer is the call's own.
    unfoldable pub read_frame :
        Rng → Stream → Session → Result (Envelope protocol) × Stream × Session
    read_frame idle io session =
        let (result, c) = recv_frame vanilla (conn_of io idle [] session) in
        (result, c.pipe.stream, c.session)
