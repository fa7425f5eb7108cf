-- ===== src/Tcp/Server/Listener/Entitled.antt =====
-- A predicate of each open connection of a listener of src/server.rs, and of each of its topics.
use mathlib.Core.Path.{subst}
use vaiexia_obfs.Common.{
  ℕ, zero, suc, ◌≡◌, refl, sym, Option, none, some, List, [], ◌∷◌, ◌++◌, All, get_elem?, set,
  length,
}
use vaiexia_obfs.External.{External}
use vaiexia_obfs.Tcp.Server.{Serving, publish}
use vaiexia_obfs.Tcp.Server.Listener.{publish_all}

module _ ⦃X : External⦄ where
  open X use {protocol}

  -- Each open connection is entitled to be there, and to its topics.
  abbrev pub AreEntitled :
      (ℕ → Type 0) → (ℕ → protocol.Topic → Type 0) → List (Option Serving) → Type 0
  AreEntitled P Q [] = Unit {0}
  AreEntitled P Q (none ∷ cs) = AreEntitled (λ i. P (suc i)) (λ i. Q (suc i)) cs
  AreEntitled P Q (some s ∷ cs) =
      (P 0 × All (Q 0) s.topics) × AreEntitled (λ i. P (suc i)) (λ i. Q (suc i)) cs

  pub weakened :
      (P P' : ℕ → Type 0) (Q Q' : ℕ → protocol.Topic → Type 0)
      → ((i : ℕ) → P i → P' i)
      → ((i : ℕ) (topic : protocol.Topic) → Q i topic → Q' i topic)
      → (cs : List (Option Serving)) → AreEntitled P Q cs
      → AreEntitled P' Q' cs
  weakened P P' Q Q' f g [] h = tt
  weakened P P' Q Q' f g (none ∷ cs) h =
      weakened (λ i. P (suc i)) (λ i. P' (suc i)) (λ i. Q (suc i)) (λ i. Q' (suc i))
        (λ i. f (suc i)) (λ i. g (suc i)) cs h
  weakened P P' Q Q' f g (some s ∷ cs) ((p, own), h) = (
    (f 0 p, each s.topics own),
    weakened (λ i. P (suc i)) (λ i. P' (suc i)) (λ i. Q (suc i)) (λ i. Q' (suc i)) (λ i. f (suc i))
        (λ i. g (suc i)) cs h,
  )
    where
      each : (ts : List protocol.Topic) → All (Q 0) ts → All (Q' 0) ts
      each [] k = tt
      each (t ∷ ts) k = (g 0 t k.0, each ts k.1)

  pub ended :
      (P : ℕ → Type 0) (Q : ℕ → protocol.Topic → Type 0) (cs : List (Option Serving)) (i : ℕ)
      → AreEntitled P Q cs
      → AreEntitled P Q (set cs i none)
  ended P Q [] i h = tt
  ended P Q (none ∷ cs) zero h = h
  ended P Q (some s ∷ cs) zero h = h.1
  ended P Q (none ∷ cs) (suc i) h = ended (λ j. P (suc j)) (λ j. Q (suc j)) cs i h
  ended P Q (some s ∷ cs) (suc i) h = (h.0, ended (λ j. P (suc j)) (λ j. Q (suc j)) cs i h.1)

  pub went_on :
      (P : ℕ → Type 0) (Q : ℕ → protocol.Topic → Type 0) (cs : List (Option Serving)) (i : ℕ)
      (s t : Serving)
      → get_elem? cs i ≡ some (some s)
      → All (Q i) t.topics
      → AreEntitled P Q cs
      → AreEntitled P Q (set cs i (some t))
  went_on P Q [] i s t e own h = tt
  went_on P Q (none ∷ cs) zero s t e own h = cc
  went_on P Q (some k ∷ cs) zero s t e own h = ((h.0.0, own), h.1)
  went_on P Q (none ∷ cs) (suc i) s t e own h =
      went_on (λ j. P (suc j)) (λ j. Q (suc j)) cs i s t e own h
  went_on P Q (some k ∷ cs) (suc i) s t e own h =
      (h.0, went_on (λ j. P (suc j)) (λ j. Q (suc j)) cs i s t e own h.1)

  pub topics_at :
      (P : ℕ → Type 0) (Q : ℕ → protocol.Topic → Type 0) (cs : List (Option Serving)) (i : ℕ)
      (s : Serving)
      → get_elem? cs i ≡ some (some s)
      → AreEntitled P Q cs
      → All (Q i) s.topics
  topics_at P Q [] i s e h = cc
  topics_at P Q (none ∷ cs) zero s e h = cc
  topics_at P Q (some k ∷ cs) zero s e h =
      let same : k ≡ s = cc in subst (λ x. All (Q 0) x.topics) same h.0.1
  topics_at P Q (none ∷ cs) (suc i) s e h = topics_at (λ j. P (suc j)) (λ j. Q (suc j)) cs i s e h
  topics_at P Q (some k ∷ cs) (suc i) s e h =
      topics_at (λ j. P (suc j)) (λ j. Q (suc j)) cs i s e h.1

  -- One connection more, which forwards nothing yet.
  pub joined :
      (P : ℕ → Type 0) (Q : ℕ → protocol.Topic → Type 0) (cs : List (Option Serving))
      (o : Option Serving)
      → ((s : Serving) → o ≡ some s → P (length cs) × (s.topics ≡ []))
      → AreEntitled P Q cs
      → AreEntitled P Q (cs ++ o ∷ [])
  joined P Q [] none f h = tt
  joined P Q [] (some s) f h =
      let (p, empty) = f s refl in ((p, subst (All (Q 0)) (sym empty) tt), tt)
  joined P Q (none ∷ cs) o f h = joined (λ j. P (suc j)) (λ j. Q (suc j)) cs o f h
  joined P Q (some s ∷ cs) o f h = (h.0, joined (λ j. P (suc j)) (λ j. Q (suc j)) cs o f h.1)

  pub published :
      (P : ℕ → Type 0) (Q : ℕ → protocol.Topic → Type 0) (ev : protocol.Event)
      (cs : List (Option Serving))
      → AreEntitled P Q cs
      → AreEntitled P Q (publish_all ev cs)
  unfolding publish_all publish
  published P Q ev [] h = tt
  published P Q ev (none ∷ cs) h = published (λ j. P (suc j)) (λ j. Q (suc j)) ev cs h
  published P Q ev (some s ∷ cs) h = (h.0, published (λ j. P (suc j)) (λ j. Q (suc j)) ev cs h.1)
