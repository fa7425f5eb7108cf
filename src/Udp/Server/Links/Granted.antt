-- ===== src/Udp/Server/Links/Granted.antt =====
-- Who has subscribed to the topics that are forwarded, over the runs of src/udp/server.rs.

use vaiexia_obfs.Common.{ℕ, ◌⊎◌, ◌≡◌, refl, [], inl, inr}
use vaiexia_obfs.External.{External}
use vaiexia_obfs.Udp.Server.State.{Server, Config}
use vaiexia_obfs.Udp.Server.Tasks.{publish, rotate_cookie}
use vaiexia_obfs.Udp.Server.Runs.{Reach, here, then, receive, seal_next, emit, rotate_secret, fresh}
use vaiexia_obfs.Udp.Server.Links.Topics.{Subscribed, handle_dgram-Allowed, drain-Allowed}
use vaiexia_obfs.Udp.Server.Links.Allowed.{AreAllowed, forwarded, weakened}

module _ ⦃X : External⦄ where
  open X use {protocol, Rng, Service, CookieSecret}

  -- One step of this run was the handling of a datagram by which the session of the link `i` subscribed
  -- to the topic.
  abbrev pub HasSubscribed :
      {cfg : Config} {start s : Server} → Reach cfg start s → ℕ → protocol.Topic → Type 0
  HasSubscribed here i topic = ⊥
  HasSubscribed (then run (receive r src dgram s)) i topic =
      Subscribed i src dgram s topic ⊎ HasSubscribed run i topic
  HasSubscribed (then run (seal_next g k s)) i topic = HasSubscribed run i topic
  HasSubscribed (then run (emit ev s)) i topic = HasSubscribed run i topic
  HasSubscribed (then run (rotate_secret seed s)) i topic = HasSubscribed run i topic

  Reach-AreAllowed :
      {cfg : Config} {start s : Server}
      → (run : Reach cfg start s) → start.links ≡ []
      → AreAllowed (HasSubscribed run) s.links
  unfolding publish rotate_cookie
  Reach-AreAllowed here e = rw e tt
  Reach-AreAllowed {cfg} (then run (receive r src dgram s)) e =
      let P : ℕ → protocol.Topic → Type 0 =
        λ i topic. Subscribed i src dgram s topic ⊎ HasSubscribed run i topic in
      handle_dgram-Allowed P cfg r src dgram s (λ i topic k. inl k)
        (weakened (HasSubscribed run) P (λ i topic k. inr k) s.links (Reach-AreAllowed run e))
  Reach-AreAllowed (then run (seal_next g k s)) e =
      drain-Allowed (HasSubscribed run) g k s (Reach-AreAllowed run e)
  Reach-AreAllowed (then run (emit ev s)) e =
      forwarded (HasSubscribed run) ev s.links (Reach-AreAllowed run e)
  Reach-AreAllowed (then run (rotate_secret seed s)) e = Reach-AreAllowed run e

  -- In every run of a server that has started empty, each topic that is forwarded to a session's link has
  -- been subscribed to by that session and granted to it: one step of this very run was the handling of
  -- a datagram from the session's address, whose record opened with the link's channel to a subscription
  -- to the topic, and the service that the server had then granted the topic to the capability in it and
  -- had a source for its events.
  pub Reach-AllGranted :
      (cfg : Config) (secret : CookieSecret) (service : Service) (rng : Rng) {s : Server}
      → (run : Reach cfg (fresh secret service rng) s) → AreAllowed (HasSubscribed run) s.links
  unfolding fresh
  Reach-AllGranted cfg secret service rng run = Reach-AreAllowed run refl
