-- ===== src/Udp/Server/Links/Allowed.antt =====
-- A predicate of the topics that are forwarded to each link of src/udp/server.rs.
use mathlib.Core.Path.{subst}
use vaiexia_obfs.Common.{ℕ, zero, suc, ◌≡◌, some, List, [], ◌∷◌, ◌++◌, set, get_elem?, All}
use vaiexia_obfs.External.{External}
use vaiexia_obfs.Udp.Dataplane.{DataChannel}
use vaiexia_obfs.Udp.Server.State.{Link}
use vaiexia_obfs.Udp.Server.Tasks.{forward}

module _ ⦃X : External⦄ where
  open X use {protocol, Addr}

  -- Each topic that is forwarded to a link is allowed for the link's number.
  abbrev pub AreAllowed : (ℕ → protocol.Topic → Type 0) → List Link → Type 0
  AreAllowed P [] = Unit {0}
  AreAllowed P (l ∷ ls) = All (P 0) l.topics × AreAllowed (λ i. P (suc i)) ls

  pub written :
      (P : ℕ → protocol.Topic → Type 0) (ls : List Link) (i : ℕ) (l : Link)
      → AreAllowed P ls
      → All (P i) l.topics
      → AreAllowed P (set ls i l)
  written P [] i l h own = tt
  written P (k ∷ ls) zero l h own = (own, h.1)
  written P (k ∷ ls) (suc i) l h own = (h.0, written (λ j. P (suc j)) ls i l h.1 own)

  -- A link with no topics more.
  pub longer :
      (P : ℕ → protocol.Topic → Type 0) (ls : List Link) (dst : Addr) (ch : DataChannel)
      → AreAllowed P ls
      → AreAllowed P (ls ++ record { dst = dst; channel = ch; queue = []; topics = [] } ∷ [])
  longer P [] dst ch h = (tt, tt)
  longer P (k ∷ ls) dst ch h = (h.0, longer (λ j. P (suc j)) ls dst ch h.1)

  pub topics_at :
      (P : ℕ → protocol.Topic → Type 0) (ls : List Link) (i : ℕ) (l : Link)
      → AreAllowed P ls
      → get_elem? ls i ≡ some l
      → All (P i) l.topics
  topics_at P [] i l h e = cc
  topics_at P (k ∷ ls) zero l h e =
      let same : k ≡ l = cc in subst (λ x. All (P 0) x.topics) same h.0
  topics_at P (k ∷ ls) (suc i) l h e = topics_at (λ j. P (suc j)) ls i l h.1 e

  pub forwarded :
      (P : ℕ → protocol.Topic → Type 0) (ev : protocol.Event) (ls : List Link)
      → AreAllowed P ls
      → AreAllowed P (forward ev ls)
  unfolding forward
  forwarded P ev [] h = tt
  forwarded P ev (l ∷ ls) h = (h.0, forwarded (λ j. P (suc j)) ev ls h.1)

  pub weakened :
      (P Q : ℕ → protocol.Topic → Type 0)
      → ((i : ℕ) (topic : protocol.Topic) → P i topic → Q i topic)
      → (ls : List Link) → AreAllowed P ls
      → AreAllowed Q ls
  weakened P Q f [] h = tt
  weakened P Q f (l ∷ ls) h =
      (each l.topics h.0, weakened (λ j. P (suc j)) (λ j. Q (suc j)) (λ i. f (suc i)) ls h.1)
    where
      each : (ts : List protocol.Topic) → All (P 0) ts → All (Q 0) ts
      each [] k = tt
      each (t ∷ ts) k = (f 0 t k.0, each ts k.1)
