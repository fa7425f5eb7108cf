-- ===== src/Tcp/Framing/Wrappers/Lost.antt =====
-- What `read_frame` does with the bytes that it reads behind its frame.
use vaiexia_obfs.Common.{
  ℕ, ◌≤◌, ◌≡◌, ◌≢◌, refl, ◌∙◌, ap, some, [], ◌∷◌, ◌++◌, ok, err, closed, arith, length, min,
  take-length, drop-length,
}
use Prim.Native.Nat.{max}
use vaiexia_obfs.Envelope.{Envelope}
use vaiexia_obfs.External.{Bytes, External, MimicryProfile, IsFraming}
use vaiexia_obfs.Stream.{Stream, eof, read, read_waiting, chunk}
use vaiexia_obfs.Tcp.Framing.{recv_raw, recv_loop, on_frame, recv_frame}
use vaiexia_obfs.Tcp.Framing.Wrappers.{read_frame, recv, conn_of}

module _ ⦃X : External⦄ where
  open X use {protocol, from_slice, Rng, Session, decrypt}

  -- A stream whose bytes all wait for the next read.
  abbrev pub at_once : Bytes → Stream → Stream
  at_once bytes s = record s { incoming = bytes; sizes = []; ending = eof }

  read-at_once :
      (b : ℕ) (bs : Bytes) (s : Stream)
      → length (b ∷ bs) ≤ 4096
      → read 4096 (at_once (b ∷ bs) s) ≡ (ok (b ∷ bs), at_once [] s)
  unfolding read read_waiting chunk
  read-at_once b bs s fits =
      let all : min 4096 (max 1 (length (b ∷ bs))) ≡ length (b ∷ bs) = omega arith in
      rw (all, take-length (b ∷ bs), drop-length (b ∷ bs)) refl

  -- What has become of the bytes `rest` behind a frame: after `read_frame` the stream is empty and the
  -- next call finds it closed; the `FramedReader` has them in its buffer.
  pub record IsLost (to : MimicryProfile Rng) (env : Envelope protocol) (rest : Bytes) (idle : Rng)
      (io : Stream) (session : Session) : Type 0 where
    pub first : (read_frame to idle io session).0 ≡ ok env
    pub gone : (read_frame to idle io session).1.incoming ≡ []
    pub second :
        (next : Session)
        → (read_frame to idle (read_frame to idle io session).1 next).0 ≡ err closed
    pub kept :
        ((recv idle (record { r = io; profile = to; buf = [] }) session).0 ≡ ok env)
        × ((recv idle (record { r = io; profile = to; buf = [] }) session).1.buf ≡ rest)

  module _ {from to : MimicryProfile Rng} (framing : IsFraming from to) where
    recv_raw-at_once :
        (body wire rest : Bytes) (g idle : Rng) (s : Stream) (session : Session)
        → (from.frame_out body g).0 ≡ some wire
        → wire ≢ []
        → length (wire ++ rest) ≤ 4096
        → recv_raw to (record { stream = at_once (wire ++ rest) s; rng = idle; buf = [] })
          ≡ (ok body, record { stream = at_once [] s; rng = idle; buf = rest })
    unfolding recv_raw recv_loop on_frame
    recv_raw-at_once body [] rest g idle s session f n fits = absurd (n refl)
    recv_raw-at_once body (b ∷ wire) rest g idle s session f n fits =
        rw
          (
            framing.frame_in-part body (b ∷ wire) [] (b ∷ wire) g f refl n,
            read-at_once b (wire ++ rest) s fits,
            framing.frame_in-whole body (b ∷ wire) rest g f,
          )
          refl

    at_end :
        (body wire : Bytes) (g idle : Rng) (s : Stream) (session : Session)
        → (from.frame_out body g).0 ≡ some wire
        → wire ≢ []
        → (recv_raw to (record { stream = at_once [] s; rng = idle; buf = [] })).0 ≡ err closed
    unfolding recv_raw recv_loop on_frame read read_waiting chunk
    at_end body wire g idle s session f n =
        rw (framing.frame_in-part body wire [] wire g f refl n) refl

    -- A frame that waits in the stream with bytes behind it, at most 4096 in all and in one segment:
    -- `read_frame` gives its envelope and loses the bytes behind it, so that a second call fails as at
    -- the end of the stream, whatever frames those bytes hold; a `FramedReader` keeps them.
    pub read_frame-IsLost :
        (env : Envelope protocol) (json body wire rest : Bytes) (g idle : Rng) (s : Stream)
        (session : Session)
        → (from.frame_out body g).0 ≡ some wire
        → wire ≢ []
        → length (wire ++ rest) ≤ 4096
        → (decrypt session body).0 ≡ some json
        → from_slice json ≡ some env
        → IsLost to env rest idle (at_once (wire ++ rest) s) session
    unfolding read_frame recv recv_frame
    read_frame-IsLost env json body wire rest g idle s session f n fits opened parsed =
        let got = recv_raw-at_once body wire rest g idle s session f n fits in
        let done : recv_frame to (conn_of (at_once (wire ++ rest) s) idle [] session)
            ≡ (ok env, conn_of (at_once [] s) idle rest (decrypt session body).1) =
          rw (got, opened, parsed) refl in
        record {
          first = ap (λ x. x.0) done;
          gone = ap (λ x. x.1.pipe.stream.incoming) done;
          second = λ next.
              ap (λ x. (recv_frame to (conn_of x.1.pipe.stream idle [] next)).0) done
              ∙ rw (at_end body wire g idle s session f n) refl;
          kept = (ap (λ x. x.0) done, ap (λ x. x.1.pipe.buf) done);
        }
