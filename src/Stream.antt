-- ===== src/Stream.antt =====
-- A byte stream of tokio's, as the code sees it: what its peer sends and takes. The peer, and the
-- cutting of the bytes into segments, are the environment's choice, and so a part of the state.
pub mod Reads
pub mod Spoke
use vaiexia_obfs.Common.Effects.{Stateful}
use vaiexia_obfs.Common.{
  ℕ, ◌+◌, ◌-◌, Bool, true, false, Option, List, [], ◌∷◌, ◌++◌, Result, ok, err, ObfsError, io, os,
  other, unexpected_eof, text, String, leb, length, take, drop, min, if◌then◌else◌,
}
use Prim.Native.Nat.{max}
use vaiexia_obfs.External.{Bytes}

-- How the stream ends once the peer's bytes have been read: it is closed, or it fails.
pub data Ending : Type 0 where
  eof failure : Ending

pub record Stream : Type 0 where
  -- The bytes that the peer sends, and that have not been read.
  pub incoming : Bytes
  pub ending : Ending
  -- How many bytes the following calls of `read` find waiting; with none left, all that there are.
  pub sizes : List ℕ
  -- How many bytes more the peer takes before a write fails.
  pub room : ℕ
  -- The bytes that the peer has taken.
  pub outgoing : Bytes

abbrev pub Io {ℓ} : Type ℓ → Type ℓ
Io A = Stateful Stream A

-- `std::io::Error::other`
abbrev pub io_err : String → ObfsError
io_err msg = io other (text msg)

abbrev pub end_error : Ending → ObfsError
end_error eof = io unexpected_eof (text "early eof")
end_error failure = io os (text "read")

unfoldable pub read_exact : ℕ → Io Bytes
read_exact n s =
    if leb n (length s.incoming)
    then (ok (take n s.incoming), record s { incoming = drop n s.incoming })
    else (err (end_error s.ending), record s { incoming = [] })

unfoldable pub write_all : Bytes → Io (Unit {0})
write_all bytes s =
    if leb (length bytes) s.room
    then (ok tt, record s { outgoing = s.outgoing ++ bytes; room = s.room - length bytes })
    else (
      err (io os (text "write")),
      record s { outgoing = s.outgoing ++ take s.room bytes; room = 0 },
    )

abbrev next_size : List ℕ → ℕ → ℕ
next_size [] all = all
next_size (n ∷ ns) all = n

abbrev pub next_sizes : List ℕ → List ℕ
next_sizes [] = []
next_sizes (n ∷ ns) = ns

-- How many bytes a `read` into a buffer of `limit` bytes gives: one at least while there are any.
unfoldable pub chunk : ℕ → Stream → ℕ
chunk limit s = min limit (max 1 (next_size s.sizes (length s.incoming)))

unfoldable pub read_waiting : ℕ → Bytes → Ending → Io Bytes
read_waiting n [] eof s = (ok [], s)
read_waiting n [] failure s = (err (end_error failure), s)
read_waiting n (b ∷ bs) e s =
    (ok (take n (b ∷ bs)), record s { incoming = drop n (b ∷ bs); sizes = next_sizes s.sizes })

-- `read`: no byte stands for the end of the stream.
unfoldable pub read : ℕ → Io Bytes
unfolding read_waiting chunk
read limit s = read_waiting (chunk limit s) s.incoming s.ending s
