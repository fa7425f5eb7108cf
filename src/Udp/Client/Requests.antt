-- ===== src/Udp/Client/Requests.antt =====
-- The retransmission of a request.
use vaiexia_obfs.Common.Map
use vaiexia_obfs.Common.{
  ℕ, zero, suc, ◌≡◌, refl, sym, ap, ok, and_then-eq_ok, ◌∙◌, true, false, Option, none, List, [],
  ◌∷◌, ◌++◌, Bool-cases, inl, inr, append_assoc, replicate, append-nil_right,
}
use vaiexia_obfs.Envelope.{Envelope, request}
use vaiexia_obfs.External.{Bytes, External}
use vaiexia_obfs.Client.Calls.{Calls, register, forget}
use vaiexia_obfs.Udp.Client.{
  Client, Wait, Waited, answered, sender_gone, timed_out, timeout, attempts, after_offer,
  after_wait, request_response, waits_of, offer, Inbound, udp_pump, send_envelope,
}
use vaiexia_obfs.Udp.Dataplane.{seal_envelope}
use vaiexia_obfs.Udp.Dataplane.RoundTrip.{seal_all}

module _ ⦃X : External⦄ where
  open X use {protocol, Rng, Addr}

  abbrev waits_for : protocol.Request → Client → Option ℕ
  waits_for req c = Map.get ⦃e = protocol.id_key⦄ c.calls.pending (protocol.request_id req)

  forget-none :
      (id : protocol.RequestId) (c : Calls)
      → Map.get ⦃e = protocol.id_key⦄ (forget id c).pending id ≡ none
  unfolding forget
  forget-none id c =
      Map.get-remove ⦃e = protocol.id_key⦄ c.pending id id
      ∙ rw ((protocol.id_key.equals_iff id id).1 refl) refl

  -- The wait in which the pump takes its round, and no answer comes.
  abbrev pub unanswered : Inbound → Wait
  unanswered inbound c = (timed_out, udp_pump inbound c)

  abbrev pub datagrams_to : Addr → List Bytes → List (Addr × Bytes)
  datagrams_to a [] = []
  datagrams_to a (w ∷ ws) = (a, w) ∷ datagrams_to a ws

  offer_open :
      (env : Envelope protocol) (c : Client)
      → c.is_open ≡ true
      → offer env c ≡ (true, record c { queue = c.queue ++ env ∷ [] })
  unfolding offer
  offer_open env c h = rw h

  offer_closed :
      (env : Envelope protocol) (c : Client) → c.is_open ≡ false → offer env c ≡ (false, c)
  unfolding offer
  offer_closed env c h = rw h

  pumped :
      (env : Envelope protocol) (inbound : Inbound) (c : Client) (w : Bytes)
      → c.is_looping ≡ true
      → c.queue ≡ env ∷ []
      → (seal_envelope c.channel env c.rng).0 ≡ ok w
      → let (sealed, ch, g) = seal_envelope c.channel env c.rng in
        udp_pump inbound c
        ≡ record c { queue = []; channel = ch; rng = g; sent = c.sent ++ (c.server_addr, w) ∷ [] }
  unfolding udp_pump send_envelope
  pumped env inbound c w looping waits sealed = rw (looping, waits, sealed) refl

  -- One try more that ends in a timeout.
  attempts-unanswered :
      (n : ℕ) (inbound : ℕ → Inbound) (req : protocol.Request) (c : Client) (ws : List Bytes)
      → c.is_open ≡ true
      → c.is_looping ≡ true
      → c.queue ≡ []
      → waits_for req c ≡ none
      → seal_all c.channel c.rng (replicate n (request req)) ≡ ok ws
      → ((attempts (waits_of n (λ retry. unanswered (inbound retry))) req c).0 ≡ timeout)
        × ((attempts (waits_of n (λ retry. unanswered (inbound retry))) req c).1.sent
            ≡ c.sent ++ datagrams_to c.server_addr ws)
        × (waits_for req (attempts (waits_of n (λ retry. unanswered (inbound retry))) req c).1
            ≡ none)
  unfolding attempts waits_of after_offer after_wait
  attempts-unanswered zero inbound req c ws is_open looping idle absent sealed =
      let nothing : ws ≡ [] = cc in rw nothing (refl, sym (append-nil_right c.sent), absent)
  attempts-unanswered (suc n) inbound req c ws is_open looping idle absent sealed =
      let id = protocol.request_id req in
      let (out_now, ch, g) = seal_envelope c.channel (request req) c.rng in
      let (w, first, more) = and_then-eq_ok out_now _ sealed in
      let (ws', rest, whole) = and_then-eq_ok (seal_all ch g (replicate n (request req))) _ more in
      let all : ws ≡ w ∷ ws' = cc in
      let asked : Client = record c { calls = register id c.calls } in
      let waiting : Client = record asked { queue = c.queue ++ request req ∷ [] } in
      let c' : Client = record c {
        calls = forget id (register id c.calls);
        queue = [];
        channel = ch;
        rng = g;
        sent = c.sent ++ (c.server_addr, w) ∷ [];
      } in
      let (out, sent, gone) =
        attempts-unanswered n (λ retry. inbound (suc retry)) req c' ws' is_open looping refl
          (forget-none id (register id c.calls)) rest in
      rw
        (
          offer_open (request req) asked is_open,
          pumped (request req) (inbound 0) waiting w looping (ap (λ q. q ++ request req ∷ []) idle)
              first,
          all,
        )
        (
          out,
          sent ∙ append_assoc c.sent ((c.server_addr, w) ∷ []) (datagrams_to c.server_addr ws'),
          gone,
        )

  pub request_response-unanswered :
      (inbound : ℕ → Inbound) (req : protocol.Request) (c : Client) (ws : List Bytes)
      → c.is_open ≡ true
      → c.is_looping ≡ true
      → c.queue ≡ []
      → waits_for req c ≡ none
      → seal_all c.channel c.rng (replicate 11 (request req)) ≡ ok ws
      → ((request_response (λ retry. unanswered (inbound retry)) req c).0 ≡ timeout)
        × ((request_response (λ retry. unanswered (inbound retry)) req c).1.sent
            ≡ c.sent ++ datagrams_to c.server_addr ws)
        × (waits_for req (request_response (λ retry. unanswered (inbound retry)) req c).1 ≡ none)
  unfolding request_response
  request_response-unanswered inbound req c ws is_open looping idle absent sealed =
      attempts-unanswered 11 inbound req c ws is_open looping idle absent sealed

  attempts-stale :
      (waits : List Wait) (req : protocol.Request) (c : Client)
      → (attempts waits req c).0 ≡ timeout
      → waits_for req c ≡ none
      → waits_for req (attempts waits req c).1 ≡ none
  unfolding attempts after_offer after_wait
  attempts-stale [] req c h absent = absent
  attempts-stale (wait ∷ waits) req c h absent =
      let c' : Client = record c { calls = register (protocol.request_id req) c.calls } in
      elim (Bool-cases c.is_open) [
        | inr closed ↦ cc (rw (offer_closed (request req) c' closed) at h)
        | inl is_open ↦
            let sent = offer_open (request req) c' is_open in
            rw sent (
              by_wait (wait (record c' { queue = c.queue ++ request req ∷ [] }))
                (λ d. attempts-stale waits req d) (rw sent at h))
      ]
    where
      by_wait :
          (w : Waited × Client)
          → ((d : Client)
              → (attempts waits req d).0 ≡ timeout
              → waits_for req d ≡ none
              → waits_for req (attempts waits req d).1 ≡ none)
          → (after_wait (attempts waits req) req w).0 ≡ timeout
          → waits_for req (after_wait (attempts waits req) req w).1 ≡ none
      by_wait (answered resp, d) again e = cc
      by_wait (sender_gone, d) again e = cc
      by_wait (timed_out, d) again e =
          again (record d { calls = forget (protocol.request_id req) d.calls }) e
            (forget-none (protocol.request_id req) d.calls)

  -- Whatever happens while a request waits, one that fails with a timeout leaves no entry under its
  -- id, so a late response is dropped.
  pub request_response-stale :
      (wait : ℕ → Wait) (req : protocol.Request) (c : Client)
      → waits_for req c ≡ none
      → (request_response wait req c).0 ≡ timeout
      → waits_for req (request_response wait req c).1 ≡ none
  unfolding request_response
  request_response-stale wait req c absent h = attempts-stale (waits_of 11 wait) req c h absent
