-- ===== src/Password/Costs.antt =====
-- The numbers in a stored hash, as decodeHash of password.go reads them by Sscanf: what follows the
-- last number is ignored.
use sulis.Base.{ℕ, ◌^◌, Bool, Option, some}
use sulis.Base.Text.{Text, codes, cut_prefix}
use sulis.Base.Chain.{◌>>=◌}
use sulis.Base.Decimal.{scan_signed, scan_number}

-- "v=%d"
unfoldable pub scan_version : Text → Option (Bool × ℕ)
unfolding cut_prefix
scan_version s = do digits ← cut_prefix s (codes "v="); scan_signed digits

-- "m=%d,t=%d,p=%d" into a uint32, a uint32 and a uint8
unfoldable pub scan_costs : Text → Option (ℕ × ℕ × ℕ)
unfolding cut_prefix
scan_costs s = do
  at_memory ← cut_prefix s (codes "m=")
  (memory, after_memory) ← scan_number (2 ^ 32) at_memory
  at_iterations ← cut_prefix after_memory (codes ",t=")
  (iterations, after_iterations) ← scan_number (2 ^ 32) at_iterations
  at_parallelism ← cut_prefix after_iterations (codes ",p=")
  (parallelism, rest) ← scan_number (2 ^ 8) at_parallelism
  some (memory, iterations, parallelism)
