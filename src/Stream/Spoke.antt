-- ===== src/Stream/Spoke.antt =====
-- What code that has succeeded has read and written.
use mathlib.Core.Path.{subst}
use vaiexia_obfs.Common.{
  ObfsError, Bool, true, ℕ, ◌≡◌, refl, sym, ◌∙◌, ap, Bool-cases, inl, inr, [], ◌++◌, ok, arith,
  length, take, drop, leb, append_assoc, append-nil_right, take-append-drop, length-take,
}
use vaiexia_obfs.External.{Bytes}
use vaiexia_obfs.Common.Effects.{◌>>◌, guard, bind-ok, guard-ok}
use vaiexia_obfs.Stream.{Io, Stream, read_exact, write_all}

-- From `s` to `t`: the bytes `input` have been read, and `output` has been written.
pub record Spoke (s t : Stream) (input output : Bytes) : Type 0 where
  pub read : s.incoming ≡ input ++ t.incoming
  pub wrote : t.outgoing ≡ s.outgoing ++ output

pub Spoke-nothing : (s : Stream) → Spoke s s [] []
Spoke-nothing s = record { read = refl; wrote = sym (append-nil_right s.outgoing) }

pub Spoke-then :
    {s t u : Stream} {a b c d : Bytes} → Spoke s t a b → Spoke t u c d → Spoke s u (a ++ c) (b ++ d)
Spoke-then {s} {t} {u} {a} {b} {c} {d} h k = record {
  read = h.read ∙ ap (λ x. a ++ x) k.read ∙ sym (append_assoc a c u.incoming);
  wrote = k.wrote ∙ ap (λ x. x ++ d) h.wrote ∙ append_assoc s.outgoing b d;
}

pub read_exact-Spoke :
    (n : ℕ) (s : Stream) {xs : Bytes} {t : Stream}
    → read_exact n s ≡ (ok xs, t)
    → (length xs ≡ n) × Spoke s t xs []
unfolding read_exact
read_exact-Spoke n s {xs} {t} h = elim (Bool-cases (leb n (length s.incoming))) [
  | inl there ↦
      let got : take n s.incoming ≡ xs = ground (arith, there, h) in
      let left : drop n s.incoming ≡ t.incoming = ground (arith, there, h) in
      let same : s.outgoing ≡ t.outgoing = ground (arith, there, h) in
      (
        rw (← got) (ground (arith, there, length-take n s.incoming)),
        record {
          read = rw (← got, ← left) (sym (take-append-drop n s.incoming));
          wrote = sym same ∙ sym (append-nil_right s.outgoing);
        },
      )
  | inr short ↦ ground (arith, short, h)
]

pub write_all-Spoke :
    (bytes : Bytes) (s : Stream) {t : Stream} → write_all bytes s ≡ (ok tt, t) → Spoke s t [] bytes
unfolding write_all
write_all-Spoke bytes s {t} h = elim (Bool-cases (leb (length bytes) s.room)) [
  | inl room ↦ record { read = ground (arith, room, h); wrote = ground (arith, room, h) }
  | inr short ↦ ground (arith, short, h)
]

-- A step that is a test, and a step that is a write.
pub guarded :
    (b : Bool) (e : ObfsError) (next : Io (Unit {0})) (s : Stream) {t : Stream}
    → (guard b e >> next) s ≡ (ok tt, t)
    → (b ≡ true) × (next s ≡ (ok tt, t))
guarded b e next s {t} h =
    let (u, v, passed, more) = bind-ok (guard b e) (λ _. next) s h in
    let (holds, same) = guard-ok b e s passed in (holds, subst (λ x. next x ≡ (ok tt, t)) same more)

pub written :
    (bytes : Bytes) (next : Io (Unit {0})) (s : Stream) {t : Stream}
    → (write_all bytes >> next) s ≡ (ok tt, t)
    → (u : Stream) × Spoke s u [] bytes × (next u ≡ (ok tt, t))
written bytes next s h =
    let (x, u, did, more) = bind-ok (write_all bytes) (λ _. next) s h in
    (u, write_all-Spoke bytes s did, more)
