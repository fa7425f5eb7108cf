-- ===== src/Stream/Reads.antt =====
-- Reads and writes of a stream whose bytes are known.
use vaiexia_obfs.Common.{
  ℕ, ◌-◌, ◌≤◌, ◌≡◌, ◌≢◌, ◌<◌, suc, ap, sym, ◌∙◌, refl, take-append-drop, List, [], ◌∷◌, ◌++◌, ok,
  err, out_of_fuel, arith, length, take, drop, length-append, take-length_append,
  drop-length_append, le→leb,
}
use vaiexia_obfs.External.{Bytes}
use vaiexia_obfs.Stream.{
  Stream, Ending, eof, failure, end_error, next_sizes, chunk, read, read_waiting, read_exact,
  write_all,
}

-- A read of as many bytes as stand in front takes these and leaves the rest.
pub read_exact-append :
    (s : Stream) (xs rest : Bytes)
    → s.incoming ≡ xs ++ rest
    → read_exact (length xs) s ≡ (ok xs, record s { incoming = rest })
unfolding read_exact
read_exact-append s xs rest e = rw (
  e,
  le→leb (length xs) (length (xs ++ rest)) (omega (arith, length-append xs rest)),
  take-length_append xs rest,
  drop-length_append xs rest,
)

pub write_all-room :
    (s : Stream) (bytes : Bytes)
    → length bytes ≤ s.room
    → write_all bytes s
      ≡ (ok tt, record s { outgoing = s.outgoing ++ bytes; room = s.room - length bytes })
unfolding write_all
write_all-room s bytes h = rw (le→leb (length bytes) s.room h)

pub read_exact_known :
    (n : ℕ) (s : Stream) (xs rest : Bytes)
    → n ≡ length xs
    → s.incoming ≡ xs ++ rest
    → read_exact n s ≡ (ok xs, record s { incoming = rest })
read_exact_known n s xs rest size e = rw size (read_exact-append s xs rest e)

-- A read of one byte gives one, or fails as the stream ends.
pub data ReadsOne (s : Stream) : Type 0 where
  byte : (c : ℕ) (t : Stream) → read_exact 1 s ≡ (ok (c ∷ []), t) → ReadsOne s
  ended : (t : Stream) → read_exact 1 s ≡ (err (end_error s.ending), t) → ReadsOne s

pub read_exact_one : (s : Stream) → ReadsOne s
unfolding read_exact
read_exact_one s = by_bytes s.incoming refl
  where
    by_bytes : (xs : Bytes) → s.incoming ≡ xs → ReadsOne s
    by_bytes [] e = ended (record s { incoming = [] }) (rw e)
    by_bytes (c ∷ xs) e = byte c (record s { incoming = xs }) (read_exact-append s (c ∷ []) xs e)

pub end_error-ne_fuel : (e : Ending) → end_error e ≢ out_of_fuel
end_error-ne_fuel eof h = cc
end_error-ne_fuel failure h = cc

-- A read gives some of the bytes that wait, one at least; with none waiting the stream ends.
pub data ReadsSome (limit : ℕ) (s : Stream) : Type 0 where
  some_bytes :
      (b : ℕ) (bs : Bytes) (left : Bytes) (sizes : List ℕ)
      → s.incoming ≡ (b ∷ bs) ++ left
      → read limit s ≡ (ok (b ∷ bs), record s { incoming = left; sizes = sizes })
      → ReadsSome limit s
  at_eof : s.incoming ≡ [] → read limit s ≡ (ok [], s) → ReadsSome limit s
  at_failure : s.incoming ≡ [] → read limit s ≡ (err (end_error failure), s) → ReadsSome limit s

chunk_positive : (limit : ℕ) (s : Stream) → 0 < limit → chunk limit s ≡ suc (chunk limit s - 1)
unfolding chunk
chunk_positive limit s h = omega arith

pub read-ReadsSome : (limit : ℕ) (s : Stream) → 0 < limit → ReadsSome limit s
unfolding read
read-ReadsSome limit s h = by_bytes s.incoming s.ending refl refl
  where
    by_bytes : (xs : Bytes) (e : Ending) → s.incoming ≡ xs → s.ending ≡ e → ReadsSome limit s
    by_bytes [] eof p q = at_eof p (λ i. read_waiting (chunk limit s) (p i) (q i) s)
    by_bytes [] failure p q = at_failure p (λ i. read_waiting (chunk limit s) (p i) (q i) s)
    by_bytes (b ∷ bs) e p q =
        some_bytes b (take (chunk limit s - 1) bs) (drop (chunk limit s - 1) bs)
          (next_sizes s.sizes)
          (p ∙ ap (λ xs. b ∷ xs) (sym (take-append-drop (chunk limit s - 1) bs)))
          ((λ i. read_waiting (chunk_positive limit s h i) (p i) s.ending s) ∙ refl)
