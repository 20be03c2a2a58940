-- ===== src/Tests/Backoff.antt =====
-- Examples for the length of a lockout.
use sulis.Base.{◌≡◌, ◌<◌, ◌*◌, ◌+◌, ◌^◌, arith}
use sulis.Service.Status.{lockout_backoff}
use sulis.Service.Status.Backoff.{lockout_backoff-wraps}

lockout_backoff-wraps_example :
    (lockout_backoff (2 ^ 32 + 1) 900000000000 40 ≡ 1 * 2 ^ 32)
    × (lockout_backoff (2 ^ 32 + 1) 900000000000 40 < 900000000000)
lockout_backoff-wraps_example =
    lockout_backoff-wraps 1 900000000000 40 (omega arith) (omega arith) (omega arith) (omega arith)
