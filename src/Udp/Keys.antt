-- ===== src/Udp/Keys.antt =====
-- src/udp/keys.rs: the two directional record keys, derived from the seed of the handshake.
use vaiexia_obfs.Common.{codes}
use vaiexia_obfs.External.{Bytes, External}

module _ ⦃X : External⦄ where
  open X use {RecordKey, record_key, blake2s_mac}

  -- `Blake2sMac256::new_from_slice` takes any key of at most 32 bytes, so the `expect` holds.
  unfoldable pub derive_key : Bytes → Bytes → Bytes
  derive_key seed label = blake2s_mac seed label

  -- The key from the client to the server, and the key back.
  unfoldable pub derive_record_keys : Bytes → RecordKey × RecordKey
  unfolding derive_key
  derive_record_keys seed = (
    record_key (derive_key seed (codes "vaiexia-udp-c2s")),
    record_key (derive_key seed (codes "vaiexia-udp-s2c")),
  )
