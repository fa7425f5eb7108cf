-- ===== src/Tcp/Framing/Receive.antt =====
-- Receiving gives the payloads that were sent, however the stream cuts the bytes.
use vaiexia_obfs.Common.{
  ℕ, zero, suc, ◌<◌, ◌≡◌, ◌≢◌, refl, ◌∙◌, ap, sym, some, List, [], ◌∷◌, ◌++◌, Result, ok, err,
  out_of_fuel, arith, length, length-append, append_assoc,
}
use vaiexia_obfs.External.{
  Bytes, External, MimicryProfile, IsFraming, FrameInResult, found, need_more, invalid,
}
use vaiexia_obfs.Stream.Reads.{read-ReadsSome, some_bytes, at_eof, at_failure}
use vaiexia_obfs.Tcp.Framing.{Pipe, Pio, on_frame, recv_loop, recv_raw, end_of_stream}

-- Two ways to cut one text: the first cut is no later than the second, or behind it.
pub data Cuts (xs ys zs ws : Bytes) : Type 0 where
  before : (q : Bytes) → q ≢ [] → zs ≡ xs ++ q → ys ≡ q ++ ws → Cuts xs ys zs ws
  behind : (r : Bytes) → xs ≡ zs ++ r → ws ≡ r ++ ys → Cuts xs ys zs ws

Cuts-cons :
    (a b : ℕ) (xs ys zs ws : Bytes) → a ≡ b → Cuts xs ys zs ws → Cuts (a ∷ xs) ys (b ∷ zs) ws
Cuts-cons a b xs ys zs ws e (before q n z y) = before q n (cc) y
Cuts-cons a b xs ys zs ws e (behind r x w) = behind r (cc) w

cuts : (xs ys zs ws : Bytes) → xs ++ ys ≡ zs ++ ws → Cuts xs ys zs ws
cuts xs ys [] ws e = behind xs refl (sym e)
cuts [] ys (z ∷ zs) ws e = before (z ∷ zs) (λ h. cc) refl e
cuts (x ∷ xs) ys (z ∷ zs) ws e = Cuts-cons x z xs ys zs ws (cc) (cuts xs ys zs ws (cc))

nonempty : (q rest : Bytes) → q ≢ [] → q ++ rest ≢ []
nonempty [] rest n = absurd (n refl)
nonempty (b ∷ q) rest n = λ h. cc

cut_shorter : (b : ℕ) (bs left xs : Bytes) → xs ≡ (b ∷ bs) ++ left → length left < length xs
cut_shorter b bs left xs e =
    omega (arith, ap (λ (l : Bytes). length l) e, length-append (b ∷ bs) left)

abbrev pub out_of_rounds : Result Bytes
out_of_rounds = err out_of_fuel

end_of_stream-ne_fuel : (buf : Bytes) → err (end_of_stream buf) ≢ out_of_rounds
end_of_stream-ne_fuel [] = λ h. cc
end_of_stream-ne_fuel (b ∷ buf) = λ h. cc

module _ ⦃X : External⦄ where
  open X use {Rng}

  -- What one end has received and not taken as frames: its buffer and what waits in the stream.
  abbrev pub unread : Pipe → Bytes
  unread p = p.buf ++ p.stream.incoming

  -- A receiver has got a payload, and `rest` is unread; it has written nothing.
  pub record Received (result : Result Bytes × Pipe) (payload rest : Bytes) (p : Pipe)
      : Type 0 where
    pub is_ok : result.0 ≡ ok payload
    pub is_rest : unread result.1 ≡ rest
    pub outgoing : result.1.stream.outgoing ≡ p.stream.outgoing
    pub room : result.1.stream.room ≡ p.stream.room
    pub same_rng : result.1.rng ≡ p.rng

  module _ {from to : MimicryProfile Rng} (framing : IsFraming from to) where
    recv_loop-Received :
        (fuel : ℕ) (p : Pipe) (payload wire rest : Bytes) (r : Rng)
        → (from.frame_out payload r).0 ≡ some wire
        → unread p ≡ wire ++ rest
        → length p.stream.incoming < fuel
        → Received (recv_loop fuel to p) payload rest p
    unfolding recv_loop
    recv_loop-Received zero p payload wire rest r f e enough = absurd (omega arith)
    recv_loop-Received (suc fuel) p payload wire rest r f e enough =
        elim (cuts p.buf p.stream.incoming wire rest e) [
          | behind q x w ↦
              rw (ap to.frame_in x ∙ framing.frame_in-whole payload wire q r f) (record {
                is_ok = refl;
                is_rest = sym w;
                outgoing = refl;
                room = refl;
                same_rng = refl;
              })
          | before q n z y ↦
              rw (framing.frame_in-part payload wire p.buf q r f z n)
                (elim (read-ReadsSome 4096 p.stream (omega arith)) [
                  | at_eof none_left _ ↦ absurd (nonempty q rest n (sym y ∙ none_left))
                  | at_failure none_left _ ↦ absurd (nonempty q rest n (sym y ∙ none_left))
                  | some_bytes b bs left sizes cut got ↦
                      let next : Pipe = record p {
                        buf = p.buf ++ b ∷ bs;
                        stream = record p.stream { incoming = left; sizes = sizes };
                      } in
                      let h =
                        recv_loop-Received fuel next payload wire rest r f
                          (append_assoc p.buf (b ∷ bs) left ∙ ap (λ l. p.buf ++ l) (sym cut) ∙ e)
                          (omega (arith, cut_shorter b bs left p.stream.incoming cut)) in
                      rw got (record {
                        is_ok = h.is_ok;
                        is_rest = h.is_rest;
                        outgoing = h.outgoing;
                        room = h.room;
                        same_rng = h.same_rng;
                      })
                ])
        ]

    -- Receiving one message: with the whole frame on its way, in any segments, and any bytes `rest`
    -- behind it, the receiver gets the payload and keeps `rest` for the following messages.
    pub recv_raw-Received :
        (p : Pipe) (payload wire rest : Bytes) (r : Rng)
        → (from.frame_out payload r).0 ≡ some wire
        → unread p ≡ wire ++ rest
        → Received (recv_raw to p) payload rest p
    unfolding recv_raw
    recv_raw-Received p payload wire rest r f e =
        recv_loop-Received (suc (length p.stream.incoming)) p payload wire rest r f e (omega arith)

  -- A round ends well where the rounds behind it do, on streams with less to read.
  on_frame_total :
      (again : Pio Bytes) (frame : FrameInResult × Bytes) (p : Pipe)
      → ((q : Pipe)
          → length q.stream.incoming < length p.stream.incoming
          → (again q).0 ≢ out_of_rounds)
      → (on_frame again frame p).0 ≢ out_of_rounds
  unfolding on_frame
  on_frame_total again (found payload, buf) p h = λ e. cc
  on_frame_total again (invalid, buf) p h = λ e. cc
  on_frame_total again (need_more, buf) p h = elim (read-ReadsSome 4096 p.stream (omega arith)) [
    | at_eof _ got ↦ rw got (end_of_stream-ne_fuel buf)
    | at_failure _ got ↦ rw got (λ e. cc)
    | some_bytes b bs left sizes cut got ↦ rw got (
        h
          (record p {
            buf = buf ++ b ∷ bs;
            stream = record p.stream { incoming = left; sizes = sizes };
          })
          (cut_shorter b bs left p.stream.incoming cut))
  ]

  recv_loop_total :
      (fuel : ℕ) (to : MimicryProfile Rng) (p : Pipe)
      → length p.stream.incoming < fuel
      → (recv_loop fuel to p).0 ≢ out_of_rounds
  unfolding recv_loop
  recv_loop_total zero to p enough = absurd (omega arith)
  recv_loop_total (suc fuel) to p enough =
      on_frame_total (recv_loop fuel to) (to.frame_in p.buf) p
        (λ q shorter. recv_loop_total fuel to q (omega arith))

  -- Receiving ends for every profile and every stream: with a payload, or with an error of the
  -- code's own.
  pub recv_raw_total : (to : MimicryProfile Rng) (p : Pipe) → (recv_raw to p).0 ≢ out_of_rounds
  unfolding recv_raw
  recv_raw_total to p = recv_loop_total (suc (length p.stream.incoming)) to p (omega arith)

  -- Frames of several payloads, one behind the other.
  pub data Frames (from : MimicryProfile Rng) : List Bytes → Bytes → Type 0 where
    done : Frames from [] []
    frame :
        (payload wire : Bytes) (r : Rng) (payloads : List Bytes) (bytes : Bytes)
        → (from.frame_out payload r).0 ≡ some wire
        → Frames from payloads bytes
        → Frames from (payload ∷ payloads) (wire ++ bytes)

  -- Receiving as many messages as a list has, in order.
  unfoldable pub Receives : MimicryProfile Rng → List Bytes → Bytes → Pipe → Type 0
  Receives to [] rest p = unread p ≡ rest
  Receives to (payload ∷ payloads) rest p =
      ((recv_raw to p).0 ≡ ok payload) × Receives to payloads rest (recv_raw to p).1

  -- Several messages are received in the order in which they were framed, none lost and none
  -- joined with another, for every cut of the stream into segments; what stands behind is kept.
  pub recv_raw_all :
      (from to : MimicryProfile Rng) (payloads : List Bytes) (bytes rest : Bytes) (p : Pipe)
      → IsFraming from to
      → Frames from payloads bytes
      → unread p ≡ bytes ++ rest
      → Receives to payloads rest p
  unfolding Receives
  recv_raw_all from to _ _ rest p framing done e = e
  recv_raw_all from to _ _ rest p framing (frame payload wire r payloads bytes f more) e =
      let h =
        recv_raw-Received framing p payload wire (bytes ++ rest) r f
          (e ∙ append_assoc wire bytes rest) in
      (h.is_ok, recv_raw_all from to payloads bytes rest (recv_raw to p).1 framing more h.is_rest)
