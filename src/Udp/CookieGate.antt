-- ===== src/Udp/CookieGate.antt =====
-- src/udp/cookie_gate.rs: the operator's override of the cookie challenge.
use vaiexia_obfs.Common.{Bool, true, false}

-- A trait object, as what its method answers at the moment of the call.
pub record LoadGate : Type 0 where
  pub under_load : Bool

abbrev pub always_open : LoadGate
always_open = record { under_load = false }

abbrev pub always_under_load : LoadGate
always_under_load = record { under_load = true }
