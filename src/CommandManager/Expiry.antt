-- ===== src/CommandManager/Expiry.antt =====
-- Repeated sweeps end every wait for an answer.
use smart_gateway.Prelude.{ℕ, ◌+◌, ◌≤◌, List, [], ◌∷◌, get_or, Option}
use smart_gateway.Prelude.Int.{pos}
use smart_gateway.CommandManager.{Entry, Manager, Limits, command_manager_check_timeouts}
use smart_gateway.CommandManager.Timeouts.{limits}

-- The time of a sweep, and the capacities of its two arrays, `none` where an array is NULL.
pub record SweepCall : Type 0 where
  pub now : ℕ
  pub retry_capacity : Option ℕ
  pub timeout_capacity : Option ℕ

abbrev check_call : ℕ → ℕ → SweepCall → Manager → Manager
check_call t r s m =
    (command_manager_check_timeouts m s.now (pos t) (pos r) s.retry_capacity s.timeout_capacity).1

abbrev call_limits : ℕ → ℕ → SweepCall → Limits
call_limits t r s = limits s.now t r s.retry_capacity s.timeout_capacity

-- Sweeps with no answer between them.
pub sweeps : ℕ → ℕ → List SweepCall → Manager → Manager
sweeps t r [] m = m
sweeps t r (s ∷ later) m = sweeps t r later (check_call t r s m)

-- Each time is at least `t` seconds after the one before.
abbrev pub IsSpaced : ℕ → ℕ → List SweepCall → Type 0
IsSpaced t last [] = Unit {0}
IsSpaced t last (s ∷ later) = (last + t ≤ s.now) × IsSpaced t s.now later

module _ (t r i : ℕ) (d : Entry) where
  abbrev slot : Manager → Entry
  slot m = get_or m.entries i d
