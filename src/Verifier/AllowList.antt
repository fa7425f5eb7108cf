-- ===== src/Verifier/AllowList.antt =====
-- The allow-list of src/verifier.rs admits its keys and no others.
use vaiexia_obfs.Common.{
  ◌≡◌, ◌↔◌, refl, sym, true, List, [], ◌∷◌, ==_iff, arith, inl, inr, Bool-cases,
}
use mathlib.Core.Path.{subst}
use vaiexia_obfs.External.{Bytes}
use vaiexia_obfs.Verifier.{is_accepted, bytes_eq, contains_key, key_allow_list}

-- The key is one of the list.
pub data IsListed (k : Bytes) : List Bytes → Type 0 where
  here : (keys : List Bytes) → IsListed k (k ∷ keys)
  there : (a : Bytes) (keys : List Bytes) → IsListed k keys → IsListed k (a ∷ keys)

bytes_eq_iff : (a b : Bytes) → (bytes_eq a b ≡ true) ↔ (a ≡ b)
bytes_eq_iff [] [] = (λ h. refl, λ h. refl)
bytes_eq_iff [] (b ∷ bs) = (λ h. cc, λ h. cc)
bytes_eq_iff (a ∷ as') [] = (λ h. cc, λ h. cc)
bytes_eq_iff (a ∷ as') (b ∷ bs) = grind (arith, ==_iff a b, bytes_eq_iff as' bs)

contains_key-IsListed :
    (keys : List Bytes) (k : Bytes) → contains_key keys k ≡ true → IsListed k keys
unfolding contains_key
contains_key-IsListed [] k h = cc
contains_key-IsListed (a ∷ keys) k h = elim (Bool-cases (bytes_eq a k)) [
  | inl same ↦
      subst (λ x. IsListed k (x ∷ keys)) (sym ((bytes_eq_iff a k).0 same)) (IsListed.here keys)
  | inr other ↦ IsListed.there a keys (contains_key-IsListed keys k (rw other at h))
]

IsListed-contains_key :
    (k : Bytes) (keys : List Bytes) → IsListed k keys → contains_key keys k ≡ true
unfolding contains_key
IsListed-contains_key k _ (here keys) = rw ((bytes_eq_iff k k).1 refl) refl
IsListed-contains_key k _ (there a keys l) = ground (arith, IsListed-contains_key k keys l)

contains_key_iff : (keys : List Bytes) (k : Bytes) → (contains_key keys k ≡ true) ↔ IsListed k keys
contains_key_iff keys k = (contains_key-IsListed keys k, IsListed-contains_key k keys)

-- The gate of an allow-list accepts a static key exactly when the key is in the list, all of its
-- bytes compared; an empty list accepts none.
pub key_allow_list_exact :
    (allowed : List Bytes) (remote_static : Bytes)
    → (is_accepted ((key_allow_list allowed).authenticate remote_static) ≡ true)
      ↔ IsListed remote_static allowed
unfolding key_allow_list
key_allow_list_exact allowed k = elim (Bool-cases (contains_key allowed k)) [
  | inl found ↦ rw found (λ _. (contains_key_iff allowed k).0 found, λ _. refl)
  | inr absent ↦ rw absent (λ h. cc, λ l. cc ((contains_key_iff allowed k).1 l, absent))
]
