-- ===== src/Udp/Dataplane.antt =====
-- src/udp/dataplane.rs: sealing and opening envelopes with the record layer and the mimicry.
-- The channel's two mutexes guard its fields; a call returns the new channel.
pub mod RoundTrip
use vaiexia_obfs.Common.{
  Bool, true, false, Option, none, some, List, [], Result, ok, err, serde, wire, ok_or,
}
use vaiexia_obfs.Envelope.{Envelope}
use vaiexia_obfs.External.{Bytes, External, DatagramMimicry}
use vaiexia_obfs.Udp.WireDgram.{
  DgramType, hs1, hs2, hs3, cookie, data_record, encode_inner, decode_inner,
}

module _ ⦃X : External⦄ where
  open X use {protocol, to_vec, from_slice, Rng, Sealer, Opener, seal, unseal}

  pub record DataChannel : Type 0 where
    pub sealer : Sealer
    pub opener : Opener
    pub mimic : DatagramMimicry Rng

  unfoldable pub new : Sealer → Opener → DatagramMimicry Rng → DataChannel
  new s o m = record { sealer = s; opener = o; mimic = m }

  -- The record in its inner frame, shaped. `none` is an error of the sealer.
  seal_shaped : DataChannel → Rng → Option Bytes × Sealer → Result Bytes × DataChannel × Rng
  seal_shaped ch rng (none, s) = (err wire, record ch { sealer = s }, rng)
  seal_shaped ch rng (some sealed, s) =
      let (out, rng') = ch.mimic.shape_out (encode_inner data_record sealed) rng in
      (ok out, record ch { sealer = s }, rng')

  seal_json : DataChannel → Rng → Option Bytes → Result Bytes × DataChannel × Rng
  unfolding seal_shaped
  seal_json ch rng none = (err serde, ch, rng)
  seal_json ch rng (some json) = seal_shaped ch rng (seal ch.sealer json)

  unfoldable pub seal_envelope :
      DataChannel → Envelope protocol → Rng → Result Bytes × DataChannel × Rng
  unfolding seal_json
  seal_envelope ch env rng = seal_json ch rng (to_vec env)

  -- `serde_json::from_slice`: a plaintext that does not parse is dropped.
  open_plaintext : DataChannel → Option Bytes × Opener → Option (Envelope protocol) × DataChannel
  open_plaintext ch (none, o) = (none, record ch { opener = o })
  open_plaintext ch (some plaintext, o) = (from_slice plaintext, record ch { opener = o })

  open_inner : DataChannel → Option (DgramType × Bytes) → Option (Envelope protocol) × DataChannel
  unfolding open_plaintext
  open_inner ch none = (none, ch)
  open_inner ch (some (data_record, sealed)) = open_plaintext ch (unseal ch.opener sealed)
  open_inner ch (some (ty, sealed)) = (none, ch)

  open_shaped : DataChannel → Option Bytes → Option (Envelope protocol) × DataChannel
  unfolding open_inner
  open_shaped ch none = (none, ch)
  open_shaped ch (some inner) = open_inner ch (decode_inner inner)

  -- The source returns `Ok` of this on every path, so the option stands for the whole result.
  unfoldable pub open_datagram : DataChannel → Bytes → Option (Envelope protocol) × DataChannel
  unfolding open_shaped
  open_datagram ch datagram = open_shaped ch (ch.mimic.shape_in datagram)
