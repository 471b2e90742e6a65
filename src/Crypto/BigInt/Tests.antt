-- ===== src/Crypto/BigInt/Tests.antt =====
-- The theorems on numbers at concrete inputs.
use telegram_disk.Base.{◌+◌, ◌≡◌, [], ◌∷◌, arith}
use telegram_disk.Crypto.BigInt.{add, sub, compare}
use telegram_disk.Crypto.BigInt.Value.{value, Says, value-add, value-sub, compare-Says}

value-add_example :
    value (add (4294967295 ∷ 1 ∷ []) (1 ∷ [])) ≡ value (4294967295 ∷ 1 ∷ []) + value (1 ∷ [])
value-add_example = value-add (4294967295 ∷ 1 ∷ []) (1 ∷ []) (omega arith) (omega arith)

value-sub_example : value (sub (0 ∷ 1 ∷ []) (1 ∷ [])) + value (1 ∷ []) ≡ value (0 ∷ 1 ∷ [])
value-sub_example = value-sub (0 ∷ 1 ∷ []) (1 ∷ []) (omega arith) (omega arith) (omega arith)

compare-Says_example : Says (compare (0 ∷ 1 ∷ []) (7 ∷ [])) (value (0 ∷ 1 ∷ [])) (value (7 ∷ []))
compare-Says_example =
    compare-Says (0 ∷ 1 ∷ []) (7 ∷ []) (omega arith) (omega arith) (omega arith) (omega arith)
