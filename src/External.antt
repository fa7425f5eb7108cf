-- ===== src/External.antt =====
-- What the program uses of code outside this repository: the crate vaiexia-wire (Noise handshake,
-- session, record layer, cookies, mimicry), serde_json, BLAKE2s, and vaiexia-core's `Service`.
-- All of it is one record, an instance argument of the definitions; its laws are hypotheses of the
-- theorems that need them.
use vaiexia_obfs.Common.{ℕ, Key, List, Option, Bool, some, ◌≡◌, ◌≢◌, ◌++◌, []}
use vaiexia_obfs.Protocol.{Protocol}
use vaiexia_obfs.Envelope.{Envelope}

abbrev pub Bytes : Type 0
Bytes = List ℕ

-- The outcome of `Service::verify_topic`: the subject is not used; `CoreError::Auth` has a
-- diagnostic, which is passed on, and every other error is alike.
pub data Verdict (P : Protocol) : Type 0 where
  granted : Verdict P
  auth : P.Diagnostic → Verdict P
  other : Verdict P

-- A fallible method on a mutable object gives an option and the new object.
pub record External : Type 1 where
  pub protocol : Protocol
  pub to_vec : Envelope protocol → Option Bytes
  pub from_slice : Bytes → Option (Envelope protocol)
  -- rand: the generator, `from_entropy` and the crypto code's own draws of entropy.
  pub Rng : Type 0
  pub fill_bytes : ℕ → Rng → Bytes × Rng
  pub Entropy : Type 0
  -- std::net::SocketAddr, with its `==` and the bytes of its `to_string`.
  pub Addr : Type 0
  pub addr_key : Key Addr
  pub addr_text : Addr → Bytes
  -- vaiexia_wire::record
  pub RecordKey : Type 0
  pub Sealer : Type 0
  pub Opener : Type 0
  pub record_key : Bytes → RecordKey
  pub sealer_new : RecordKey → Sealer
  pub opener_new : RecordKey → Opener
  pub seal : Sealer → Bytes → Option Bytes × Sealer
  pub unseal : Opener → Bytes → Option Bytes × Opener
  -- BLAKE2s in MAC mode: key, data.
  pub blake2s_mac : Bytes → Bytes → Bytes
  -- vaiexia_wire::handshake
  pub Handshake : Type 0
  pub initiator : Entropy → Bytes → Bytes → Option Handshake
  pub responder : Entropy → Bytes → Option Handshake
  pub write_message : Handshake → Bytes → Option Bytes × Handshake
  pub read_message : Handshake → Bytes → Option Bytes × Handshake
  pub remote_static : Handshake → Option Bytes
  -- vaiexia_wire::session
  pub Session : Type 0
  pub into_session : Handshake → Option Session
  pub encrypt : Session → Bytes → Option Bytes × Session
  pub decrypt : Session → Bytes → Option Bytes × Session
  -- vaiexia_wire::cookie
  pub CookieSecret : Type 0
  pub cookie_new : Bytes → CookieSecret
  pub make : CookieSecret → Bytes → Bytes
  pub verify : CookieSecret → Bytes → Bytes → Bool
  pub rotate : CookieSecret → Bytes → CookieSecret
  -- vaiexia_core::server::Service
  pub Service : Type 0
  pub handle : Service → protocol.Request → protocol.Response × Service
  pub verify_topic : Service → Option protocol.Capability → protocol.Topic → Verdict protocol
  pub event_source : Service → protocol.Topic → Bool

-- vaiexia_wire::mimicry::DatagramMimicry, a trait object.
pub record DatagramMimicry (Rng : Type 0) : Type 0 where
  pub shape_out : Bytes → Rng → Bytes × Rng
  pub shape_in : Bytes → Option Bytes

-- The receiver's profile gives back the datagram that the sender's has shaped: both ends are
-- configured with the same profile.
pub record Unshapes {Rng : Type 0} (from to : DatagramMimicry Rng) : Type 0 where
  pub shape_in-shape_out :
      (inner : Bytes) (r : Rng) → to.shape_in (from.shape_out inner r).0 ≡ some inner

-- vaiexia_wire::mimicry::MimicryProfile, a trait object. `frame_in` takes the record that it finds
-- out of the buffer.
pub data FrameInResult : Type 0 where
  found : Bytes → FrameInResult
  need_more : FrameInResult
  invalid : FrameInResult

pub record MimicryProfile (Rng : Type 0) : Type 0 where
  pub frame_out : Bytes → Rng → Option Bytes × Rng
  pub frame_in : Bytes → FrameInResult × Bytes
  pub preamble : Rng → Bytes × Rng
  pub preamble_skip : ℕ
  -- The delay before a write, in milliseconds.
  pub jitter : Rng → ℕ × Rng

-- The framing of a sender's profile and a receiver's: a whole frame gives its payload and leaves
-- what stands behind it, and the beginning of a frame waits for more.
pub record IsFraming {Rng : Type 0} (from to : MimicryProfile Rng) : Type 0 where
  pub frame_in-whole :
      (payload wire rest : Bytes) (r : Rng)
      → (from.frame_out payload r).0 ≡ some wire
      → to.frame_in (wire ++ rest) ≡ (found payload, rest)
  pub frame_in-part :
      (payload wire front behind : Bytes) (r : Rng)
      → (from.frame_out payload r).0 ≡ some wire
      → wire ≡ front ++ behind
      → behind ≢ []
      → to.frame_in front ≡ (need_more, front)
