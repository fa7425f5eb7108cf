-- ===== src/Tcp/Framing.antt =====
-- src/framing.rs: frames on a byte stream, shaped by the profile.
pub mod Receive
pub mod Wrappers
use vaiexia_obfs.Common.{
  ℕ, zero, suc, Bool, true, false, Option, none, some, List, [], ◌∷◌, ◌++◌, Result, ok, err,
  ObfsError, io, unexpected_eof, invalid_data, closed, wire, serde, out_of_fuel, text, length,
}
use vaiexia_obfs.Envelope.{Envelope}
use vaiexia_obfs.External.{
  Bytes, External, MimicryProfile, FrameInResult, found, need_more, invalid,
}
use vaiexia_obfs.Stream.{Stream, read, write_all}

-- MAX_FRAME, which nothing in the crate reads.
abbrev pub max_frame : ℕ
max_frame = 16777216

abbrev pub invalid_framing : ObfsError
invalid_framing = io invalid_data (text "invalid framing")

-- `Ok(0)`: a clean end only between frames.
abbrev pub end_of_stream : Bytes → ObfsError
end_of_stream [] = closed
end_of_stream (b ∷ bs) = io unexpected_eof (text "EOF mid-frame")

module _ ⦃X : External⦄ where
  open X use {protocol, to_vec, from_slice, Rng, Session, encrypt, decrypt}

  -- The stream, the generator and the accumulation buffer of one end.
  pub record Pipe : Type 0 where
    pub stream : Stream
    pub rng : Rng
    pub buf : Bytes

  abbrev pub Pio {ℓ} : Type ℓ → Type ℓ
  Pio A = Pipe → Result A × Pipe

  -- The rounds of the receiving loop behind a read.
  after_read : Pio Bytes → Result Bytes × Stream → Pio Bytes
  after_read again (ok [], stream) p = (err (end_of_stream p.buf), record p { stream = stream })
  after_read again (ok (b ∷ bs), stream) p =
      again (record p { stream = stream; buf = p.buf ++ b ∷ bs })
  after_read again (err e, stream) p = (err e, record p { stream = stream })

  unfoldable pub on_frame : Pio Bytes → FrameInResult × Bytes → Pio Bytes
  unfolding after_read
  on_frame again (found payload, buf) p = (ok payload, record p { buf = buf })
  on_frame again (need_more, buf) p = after_read again (read 4096 p.stream) (record p { buf = buf })
  on_frame again (invalid, buf) p = (err invalid_framing, record p { buf = buf })

  -- Each round but the last reads a byte at least.
  unfoldable pub recv_loop : ℕ → MimicryProfile Rng → Pio Bytes
  unfolding on_frame
  recv_loop zero profile p = (err out_of_fuel, p)
  recv_loop (suc fuel) profile p =
      let again = recv_loop fuel profile in on_frame again (profile.frame_in p.buf) p

  unfoldable pub recv_raw : MimicryProfile Rng → Pio Bytes
  recv_raw profile p = recv_loop (suc (length p.stream.incoming)) profile p

  write_frame_out : Option Bytes × Rng → Pio (Unit {0})
  write_frame_out (none, rng) p = (err wire, record p { rng = rng })
  write_frame_out (some bytes, rng) p =
      let (result, stream) = write_all bytes p.stream in
      (result, record p { rng = rng; stream = stream })

  unfoldable pub send_raw : MimicryProfile Rng → Bytes → Pio (Unit {0})
  unfolding write_frame_out
  send_raw profile bytes p = write_frame_out (profile.frame_out bytes p.rng) p

  -- An end with its session.
  pub record Conn : Type 0 where
    pub pipe : Pipe
    pub session : Session

  send_encrypted : MimicryProfile Rng → Option Bytes × Session → Conn → Result (Unit {0}) × Conn
  send_encrypted profile (none, session) c = (err wire, record c { session = session })
  send_encrypted profile (some ciphertext, session) c =
      let (result, pipe) = send_raw profile ciphertext c.pipe in
      (result, record { pipe = pipe; session = session })

  send_json : MimicryProfile Rng → Option Bytes → Conn → Result (Unit {0}) × Conn
  unfolding send_encrypted
  send_json profile none c = (err serde, c)
  send_json profile (some plaintext) c = send_encrypted profile (encrypt c.session plaintext) c

  unfoldable pub send_frame :
      MimicryProfile Rng → Envelope protocol → Conn → Result (Unit {0}) × Conn
  unfolding send_json
  send_frame profile env c = send_json profile (to_vec env) c

  abbrev parsed : Option (Envelope protocol) → Result (Envelope protocol)
  parsed none = err serde
  parsed (some env) = ok env

  recv_decrypted : Option Bytes × Session → Conn → Result (Envelope protocol) × Conn
  recv_decrypted (none, session) c = (err wire, record c { session = session })
  recv_decrypted (some plaintext, session) c =
      (parsed (from_slice plaintext), record c { session = session })

  recv_opened : Result Bytes × Pipe → Conn → Result (Envelope protocol) × Conn
  unfolding recv_decrypted
  recv_opened (err e, pipe) c = (err e, record c { pipe = pipe })
  recv_opened (ok ciphertext, pipe) c =
      recv_decrypted (decrypt c.session ciphertext) (record c { pipe = pipe })

  -- The loop is that of `recv_raw`; it ends by decrypting and parsing the record.
  unfoldable pub recv_frame : MimicryProfile Rng → Conn → Result (Envelope protocol) × Conn
  unfolding recv_opened
  recv_frame profile c = recv_opened (recv_raw profile c.pipe) c
