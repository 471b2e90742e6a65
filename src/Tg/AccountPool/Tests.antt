-- ===== src/Tg/AccountPool/Tests.antt =====
-- The choice between two accounts.
use telegram_disk.Base.{◌+◌, ◌%◌, ◌≡◌, ◌⊎◌, true, false, none, some, [], ◌∷◌, arith}
use telegram_disk.Tg.AccountPool.{Account, AccountPool, int_max, load, usable, pick_account}
use telegram_disk.Tg.AccountPool.Choice.{Least, pick_account-Least}

abbrev busy : Account
busy = record { id = 1; enabled = none; authorized = true; waiting = false }

abbrev idle : Account
idle = record { id = 2; enabled = some true; authorized = true; waiting = false }

abbrev two : AccountPool
two = record { accounts = busy ∷ idle ∷ []; round_robin = 4; active_uploads = (1, 3) ∷ [] }

pick_account-Least_example :
    let (r, p') = pick_account [] two in
    (p'.round_robin ≡ (two.round_robin + 1) % 18446744073709551616)
    × (((r ≡ none) × Least two.active_uploads [] int_max two.accounts)
        ⊎ ((a : Account) × (r ≡ some a)
            × (usable [] a ≡ true)
            × Least two.active_uploads [] (load a.id two.active_uploads) two.accounts))
pick_account-Least_example = pick_account-Least [] two (omega arith)
