-- ===== src/Crypto/Sha256/Tests.antt =====
-- Runs of Sha256 on known texts, and its theorem at a concrete input.
use telegram_disk.Base.{◌≡◌, refl, [], ◌∷◌, ◌++◌}
use telegram_disk.Crypto.Sha256.{hash, reset, update}
use telegram_disk.Crypto.Sha256.Stream.{update-append, reset-IsOpen}

hash_abc :
    hash (0x61 ∷ 0x62 ∷ 0x63 ∷ [])
    ≡ 0xba ∷ 0x78 ∷ 0x16 ∷ 0xbf ∷ 0x8f ∷ 0x01 ∷ 0xcf ∷ 0xea ∷ 0x41 ∷ 0x41 ∷ 0x40 ∷ 0xde ∷ 0x5d
      ∷ 0xae ∷ 0x22 ∷ 0x23 ∷ 0xb0 ∷ 0x03 ∷ 0x61 ∷ 0xa3 ∷ 0x96 ∷ 0x17 ∷ 0x7a ∷ 0x9c ∷ 0xb4 ∷ 0x10
      ∷ 0xff ∷ 0x61 ∷ 0xf2 ∷ 0x00 ∷ 0x15 ∷ 0xad ∷ []
unfolding hash
hash_abc = refl

update-append_example :
    update (update reset (1 ∷ 2 ∷ [])) (3 ∷ []) ≡ update reset ((1 ∷ 2 ∷ []) ++ (3 ∷ []))
update-append_example = update-append reset (1 ∷ 2 ∷ []) (3 ∷ []) reset-IsOpen
