-- ===== src/Udp/Dataplane/RoundTrip.antt =====
-- Envelopes sealed at one end are opened at the other.
use mathlib.Core.Path.{subst}
use vaiexia_obfs.Common.{
  ◌∙◌, sym, ap, ◌≡◌, Option, some, List, [], ◌∷◌, Result, ok, arith, Option-cases, map, and_then,
  and_then-eq_ok, inl, inr,
}
use vaiexia_obfs.Envelope.{Envelope}
use vaiexia_obfs.External.{Bytes, External, Unshapes}
use vaiexia_obfs.Udp.WireDgram.{data_record, encode_inner}
use vaiexia_obfs.Udp.WireDgram.RoundTrip.{decode_inner-encode_inner}
use vaiexia_obfs.Udp.Dataplane.{DataChannel, seal_envelope, open_datagram}

module _ ⦃X : External⦄ where
  open X use {protocol, to_vec, from_slice, Rng, Sealer, Opener, seal, unseal}

  -- What the two ends rely on in the record layer and in serde_json: a relation between a sealer
  -- and the opener of the same key which holds while the records arrive in order.
  pub record IsRecordLayer (InStep : Sealer → Opener → Type 0) : Type 0 where
    pub unseal-seal :
        (s : Sealer) (o : Opener) (plain sealed : Bytes)
        → InStep s o
        → (seal s plain).0 ≡ some sealed
        → ((unseal o sealed).0 ≡ some plain) × InStep (seal s plain).1 (unseal o sealed).1
    pub from_slice-to_vec :
        (env : Envelope protocol) (json : Bytes)
        → to_vec env ≡ some json
        → from_slice json ≡ some env

  -- A sealed envelope comes from its JSON text and a record of it.
  pub record Sealed (ch : DataChannel) (env : Envelope protocol) (rng : Rng) (w : Bytes)
      (ch' : DataChannel) : Type 0 where
    pub json : Bytes
    pub body : Bytes
    pub to_json : to_vec env ≡ some json
    pub to_body : (seal ch.sealer json).0 ≡ some body
    pub shaped : w ≡ (ch.mimic.shape_out (encode_inner data_record body) rng).0
    pub next_sealer : ch'.sealer ≡ (seal ch.sealer json).1
    pub same_mimic : ch'.mimic ≡ ch.mimic

  pub seal_envelope-Sealed :
      (ch : DataChannel) (env : Envelope protocol) (rng : Rng) (w : Bytes)
      → (seal_envelope ch env rng).0 ≡ ok w
      → Sealed ch env rng w (seal_envelope ch env rng).1
  unfolding seal_envelope
  seal_envelope-Sealed ch env rng w h = elim (Option-cases (to_vec env)) [
    | inl no_json ↦ ground arith
    | inr (json, e) ↦ elim (Option-cases (seal ch.sealer json).0) [
      | inl no_body ↦ ground arith
      | inr (body, d) ↦ record {
        json = json;
        body = body;
        to_json = e;
        to_body = d;
        shaped = ground arith;
        next_sealer = ground arith;
        same_mimic = ground arith;
      }
    ]
  ]

  -- Sealing leaves the other direction alone.
  pub seal_envelope-opener :
      (ch : DataChannel) (env : Envelope protocol) (rng : Rng)
      → (seal_envelope ch env rng).1.opener ≡ ch.opener
  unfolding seal_envelope
  seal_envelope-opener ch env rng = ground arith

  -- The state of the receiver after a record.
  abbrev pub after : DataChannel → Bytes → DataChannel
  after ch body = record ch { opener = (unseal ch.opener body).1 }

  open_datagram-record :
      (ch : DataChannel) (datagram body plain : Bytes)
      → ch.mimic.shape_in datagram ≡ some (encode_inner data_record body)
      → (unseal ch.opener body).0 ≡ some plain
      → open_datagram ch datagram ≡ (from_slice plain, after ch body)
  unfolding open_datagram
  open_datagram-record ch datagram body plain shaped opened =
      rw (shaped, decode_inner-encode_inner) (ground arith)

  -- A run of the sender over a list of envelopes, up to the first error, and of the receiver over
  -- the datagrams.
  abbrev pub seal_all : DataChannel → Rng → List (Envelope protocol) → Result (List Bytes)
  seal_all ch rng [] = ok []
  seal_all ch rng (env ∷ envs) =
      let (sealed, ch', rng') = seal_envelope ch env rng in
      and_then sealed (λ w. and_then (seal_all ch' rng' envs) (λ ws. ok (w ∷ ws)))

  abbrev pub open_all : DataChannel → List Bytes → List (Option (Envelope protocol))
  open_all ch [] = []
  open_all ch (w ∷ ws) = (open_datagram ch w).0 ∷ open_all (open_datagram ch w).1 ws

  module _ {InStep : Sealer → Opener → Type 0} (layer : IsRecordLayer InStep) where
    pub open_datagram-Sealed :
        (a b : DataChannel) (env : Envelope protocol) (rng : Rng) (w : Bytes) (a' : DataChannel)
        → Unshapes a.mimic b.mimic
        → InStep a.sealer b.opener
        → (s : Sealed a env rng w a') → open_datagram b w ≡ (some env, after b s.body)
    open_datagram-Sealed a b env rng w a' m step s =
        open_datagram-record b w s.body s.json
          (rw s.shaped (m.shape_in-shape_out (encode_inner data_record s.body) rng))
          (layer.unseal-seal a.sealer b.opener s.json s.body step s.to_body).0
        ∙ rw (layer.from_slice-to_vec env s.json s.to_json)

    pub InStep-Sealed :
        (a b : DataChannel) (env : Envelope protocol) (rng : Rng) (w : Bytes) (a' : DataChannel)
        → InStep a.sealer b.opener
        → (s : Sealed a env rng w a') → InStep a'.sealer (after b s.body).opener
    InStep-Sealed a b env rng w a' step s =
        rw s.next_sealer (layer.unseal-seal a.sealer b.opener s.json s.body step s.to_body).1

    -- Whatever list of envelopes one end seals without an error, the other end opens to the same
    -- list, in order and each exactly once: for profiles that fit, and a sealer and an opener of
    -- one key that are in step.
    pub open_all-seal_all :
        (a b : DataChannel) (rng : Rng) (envs : List (Envelope protocol)) (ws : List Bytes)
        → Unshapes a.mimic b.mimic
        → InStep a.sealer b.opener
        → seal_all a rng envs ≡ ok ws
        → open_all b ws ≡ map some envs
    open_all-seal_all a b rng [] ws m step h = ground arith
    open_all-seal_all a b rng (env ∷ envs) ws m step h =
        let (sealed, a', rng') = seal_envelope a env rng in
        let (w, first, more) = and_then-eq_ok sealed _ h in
        let (ws', rest, whole) = and_then-eq_ok (seal_all a' rng' envs) _ more in
        let s = seal_envelope-Sealed a env rng w first in
        let received : ws ≡ w ∷ ws' = cc in
        rw (received, open_datagram-Sealed a b env rng w a' m step s)
          (ap (λ l. some env ∷ l)
            (open_all-seal_all a' (after b s.body) rng' envs ws'
              (subst (λ x. Unshapes x b.mimic) (sym s.same_mimic) m)
              (InStep-Sealed a b env rng w a' step s) rest))
