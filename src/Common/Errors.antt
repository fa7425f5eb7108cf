-- ===== src/Common/Errors.antt =====
-- src/lib.rs: `ObfsError` and the crate's `Result`, with the bind that `?` stands for.
use Prim.Native.Nat.{ℕ}
use Prim.Native.String.{String}
use mathlib.Core.Path.{◌≡◌, refl}
use mathlib.Core.Option.{Option, none, some}

-- The kinds of std::io::Error that the code makes or tests. `os` is an error of the system's.
pub data IoKind : Type 0 where
  other unexpected_eof invalid_data not_found os : IoKind

-- A message of fixed text, or a text with the number that `format!` puts behind it.
pub data Message : Type 0 where
  text : String → Message
  numbered : String → ℕ → Message

-- `ObfsError`, without the payload of the errors of other crates. The last constructor is the
-- model's own: a loop ran out of fuel.
pub data ObfsError : Type 0 where
  closed : ObfsError
  frame_too_large : ℕ → ℕ → ObfsError
  wire : ObfsError
  io : IoKind → Message → ObfsError
  serde : ObfsError
  core : ObfsError
  handshake_failed : Message → ObfsError
  timeout : ObfsError
  out_of_fuel : ObfsError

pub data Result {ℓ} (A : Type ℓ) : Type ℓ where
  ok : A → Result A
  err : ObfsError → Result A

module _ {ℓ κ} {A : Type ℓ} {B : Type κ} where
  abbrev pub and_then : Result A → (A → Result B) → Result B
  and_then (ok a) f = f a
  and_then (err e) f = err e

  pub and_then-eq_ok :
      (m : Result A) (f : A → Result B) {b : B}
      → and_then m f ≡ ok b
      → (a : A) × (m ≡ ok a) × (f a ≡ ok b)
  and_then-eq_ok (ok a) f h = (a, refl, h)
  and_then-eq_ok (err e) f h = cc

-- ok_or, and `?` on a result of another crate after `map_err`.
abbrev pub ok_or {ℓ} : {A : Type ℓ} → Option A → ObfsError → Result A
ok_or (some a) e = ok a
ok_or none e = err e
