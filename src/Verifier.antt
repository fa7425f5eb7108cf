-- ===== src/Verifier.antt =====
-- src/verifier.rs: the gate that admits a connection by the static key of its peer.
pub mod AllowList
use vaiexia_obfs.Common.{
  ℕ, Option, none, some, String, ◌/◌, ◌%◌, Bool, true, false, ◌||◌, ◌&&◌, List, [], ◌∷◌, ◌++◌, ◌==◌,
  codes, get_or, if◌then◌else◌,
}
use vaiexia_obfs.External.{Bytes}

-- `Result<(), String>`; the message is its bytes.
pub data Authentication : Type 0 where
  accepted : Authentication
  rejected : Bytes → Authentication

abbrev pub is_accepted : Authentication → Bool
is_accepted accepted = true
is_accepted (rejected message) = false

-- A trait object.
pub record TransportGate : Type 0 where
  pub authenticate : Bytes → Authentication

unfoldable pub allow_all : TransportGate
allow_all = record { authenticate = λ remote_static. accepted }

-- vaiexia_core's `Subject`: its id, and the scopes of its set.
pub record Subject : Type 0 where
  pub id : String
  pub scopes : List String

-- `Verifier::verify` of `AllowAll`, which is `Ok` for every capability and method.
unfoldable pub verify_all :
    {Capability Method : Type 0} → Option Capability → Method → Option Subject
verify_all capability method = some (record { id = "obfs-client"; scopes = "*" ∷ [] })

-- `==` on `[u8; 32]`, and `Vec::contains`.
abbrev pub bytes_eq : Bytes → Bytes → Bool
bytes_eq [] [] = true
bytes_eq (a ∷ as') (b ∷ bs) = a == b && bytes_eq as' bs
bytes_eq _ _ = false

unfoldable pub contains_key : List Bytes → Bytes → Bool
contains_key [] k = false
contains_key (a ∷ keys) k = bytes_eq a k || contains_key keys k

-- `{b:02x}` of a byte: its two lower-case hexadecimal digits.
abbrev hex_digit : ℕ → ℕ
hex_digit d = get_or (codes "0123456789abcdef") d 0

unfoldable pub hex_key : Bytes → Bytes
hex_key [] = []
hex_key (b ∷ k) = hex_digit (b / 16) ∷ hex_digit (b % 16) ∷ hex_key k

unfoldable pub key_allow_list : List Bytes → TransportGate
key_allow_list allowed = record {
  authenticate = λ remote_static.
      if contains_key allowed remote_static
      then accepted
      else rejected (codes "public key not in allow-list: " ++ hex_key remote_static);
}
