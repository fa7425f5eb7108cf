-- ===== src/Client/Calls/Accounts.antt =====
-- Every channel that a client makes for a request is waiting, answered or failed, and just one of it.
use vaiexia_obfs.Common.Map
use vaiexia_obfs.Common.Map.{Map}
use vaiexia_obfs.Common.{
  ℕ, ◌+◌, ◌≡◌, refl, none, some, List, [], ◌∷◌, ◌++◌, Key, ◌==◌, arith, ltb, Option-cases, inl, inr,
  if◌then◌else◌,
}
use vaiexia_obfs.External.{External}
use vaiexia_obfs.Client.Calls.{Calls, no_calls, register, forget, resolve, drain, senders}

-- How often a number stands in a list.
unfoldable pub one : ℕ → ℕ → ℕ
one t n = if t == n then 1 else 0

unfoldable pub occurs : ℕ → List ℕ → ℕ
occurs t [] = 0
occurs t (n ∷ ns) = one t n + occurs t ns

occurs-append : (t : ℕ) (ms ns : List ℕ) → occurs t (ms ++ ns) ≡ occurs t ms + occurs t ns
unfolding occurs
occurs-append t [] ns = omega arith
occurs-append t (m ∷ ms) ns = omega (arith, occurs-append t ms ns)

module _ {K : Type 0} ⦃e : Key K⦄ where
  unfoldable pub values : Map K ℕ → List ℕ
  values [] = []
  values ((k, n) ∷ m) = n ∷ values m

  remove-none :
      (m : Map K ℕ) (k : K) (t : ℕ)
      → Map.get m k ≡ none
      → occurs t (values (Map.remove m k)) ≡ occurs t (values m)
  unfolding Map.remove Map.get values occurs
  remove-none [] k t h = refl
  remove-none ((i, w) ∷ m) k t h = ground (arith, remove-none m k t)

  remove-some :
      (m : Map K ℕ) (k : K) (v t : ℕ)
      → Map.IsUnique m
      → Map.get m k ≡ some v
      → occurs t (values (Map.remove m k)) + one t v ≡ occurs t (values m)
  unfolding Map.remove Map.get values occurs
  remove-some [] k v t u h = cc
  remove-some ((i, w) ∷ m) k v t u h =
      ground (arith, e.equals_iff i k, remove-none m k t, remove-some m k v t)

  insert-none :
      (m : Map K ℕ) (k : K) (v t : ℕ)
      → Map.get m k ≡ none
      → occurs t (values (Map.insert m k v)) ≡ occurs t (values m) + one t v
  unfolding Map.insert Map.get values occurs
  insert-none [] k v t h = omega arith
  insert-none ((i, w) ∷ m) k v t h = ground (arith, insert-none m k v t)

  insert-some :
      (m : Map K ℕ) (k : K) (v w t : ℕ)
      → Map.get m k ≡ some w
      → occurs t (values (Map.insert m k v)) + one t w ≡ occurs t (values m) + one t v
  unfolding Map.insert Map.get values occurs
  insert-some [] k v w t h = cc
  insert-some ((i, x) ∷ m) k v w t h = ground (arith, insert-some m k v w t)

module _ ⦃X : External⦄ where
  open X use {protocol}

  abbrev pub answered : List (ℕ × protocol.Response) → List ℕ
  answered [] = []
  answered ((t, resp) ∷ ds) = t ∷ answered ds

  -- In how many of the three places a channel stands: waiting, answered, failed.
  unfoldable pub standing : ℕ → Calls → ℕ
  standing t c =
      occurs t (values ⦃e = protocol.id_key⦄ c.pending)
      + (occurs t (answered c.delivered) + occurs t c.dropped)

  -- A channel of the client's stands in one place, and no other number in any.
  pub record Accounted (c : Calls) : Type 0 where
    pub unique : Map.IsUnique ⦃e = protocol.id_key⦄ c.pending
    pub is_one : (t : ℕ) → standing t c ≡ (if ltb t c.made then 1 else 0)

  -- What the clients do to their calls, in any order.
  pub data Run : Calls → Type 0 where
    begun : Run no_calls
    registered : (id : protocol.RequestId) (c : Calls) → Run c → Run (register id c)
    forgotten : (id : protocol.RequestId) (c : Calls) → Run c → Run (forget id c)
    resolved : (resp : protocol.Response) (c : Calls) → Run c → Run (resolve resp c)
    ended : (c : Calls) → Run c → Run (drain c)

  abbrev made_below : ℕ → ℕ → ℕ
  made_below t n = if ltb t n then 1 else 0

  register-Accounted :
      (id : protocol.RequestId) (c : Calls) → Accounted c → Accounted (register id c)
  unfolding register standing one occurs
  register-Accounted id c a = record {
    unique = Map.IsUnique-insert ⦃e = protocol.id_key⦄ c.pending id c.made a.unique;
    is_one = λ t. elim (Option-cases (Map.get ⦃e = protocol.id_key⦄ c.pending id)) [
      | inl absent ↦ rw absent (
          ground
            (arith, insert-none ⦃e = protocol.id_key⦄ c.pending id c.made t absent, a.is_one t))
      | inr (tx, found) ↦ rw found (
          ground
            (arith, insert-some ⦃e = protocol.id_key⦄ c.pending id c.made tx t found, a.is_one t))
    ];
  }

  forget-Accounted : (id : protocol.RequestId) (c : Calls) → Accounted c → Accounted (forget id c)
  unfolding forget standing one occurs
  forget-Accounted id c a = elim (Option-cases (Map.get ⦃e = protocol.id_key⦄ c.pending id)) [
    | inl absent ↦ rw absent (record {
      unique = Map.IsUnique-remove ⦃e = protocol.id_key⦄ c.pending id a.unique;
      is_one =
          λ t. omega (arith, remove-none ⦃e = protocol.id_key⦄ c.pending id t absent, a.is_one t);
    })
    | inr (tx, found) ↦ rw found (record {
      unique = Map.IsUnique-remove ⦃e = protocol.id_key⦄ c.pending id a.unique;
      is_one = λ t.
          omega
            (arith, remove-some ⦃e = protocol.id_key⦄ c.pending id tx t a.unique found, a.is_one t);
    })
  ]

  resolve-Accounted :
      (resp : protocol.Response) (c : Calls) → Accounted c → Accounted (resolve resp c)
  unfolding resolve standing one occurs
  resolve-Accounted resp c a =
      let id = protocol.response_id resp in
      elim (Option-cases (Map.get ⦃e = protocol.id_key⦄ c.pending id)) [
        | inl absent ↦ rw absent a
        | inr (tx, found) ↦ rw found (record {
          unique = Map.IsUnique-remove ⦃e = protocol.id_key⦄ c.pending id a.unique;
          is_one = λ t. omega (
            arith,
            remove-some ⦃e = protocol.id_key⦄ c.pending id tx t a.unique found,
            a.is_one t,
          );
        })
      ]

  pub occurs-senders :
      (t : ℕ) (m : Map protocol.RequestId ℕ) (ns : List ℕ)
      → occurs t (senders m ++ ns) ≡ occurs t (values ⦃e = protocol.id_key⦄ m) + occurs t ns
  unfolding values occurs
  occurs-senders t [] ns = omega arith
  occurs-senders t ((id, tx) ∷ m) ns = omega (arith, occurs-senders t m ns)

  drain-Accounted : (c : Calls) → Accounted c → Accounted (drain c)
  unfolding drain standing values occurs
  drain-Accounted c a = record {
    unique = tt;
    is_one = λ t. omega (arith, occurs-senders t c.pending c.dropped, a.is_one t);
  }

  no_calls-Accounted : Accounted no_calls
  unfolding no_calls standing values occurs
  no_calls-Accounted = record { unique = tt; is_one = λ t. ground arith }

  -- However a client's requests, retries, responses and its pump's end follow each other, each
  -- channel that was made is in one place just once: it waits under its id, or has been given a
  -- response, or has failed. No call is lost, and none is answered twice.
  pub Run-Accounted : (c : Calls) → Run c → Accounted c
  Run-Accounted _ begun = no_calls-Accounted
  Run-Accounted _ (registered id c run) = register-Accounted id c (Run-Accounted c run)
  Run-Accounted _ (forgotten id c run) = forget-Accounted id c (Run-Accounted c run)
  Run-Accounted _ (resolved resp c run) = resolve-Accounted resp c (Run-Accounted c run)
  Run-Accounted _ (ended c run) = drain-Accounted c (Run-Accounted c run)
