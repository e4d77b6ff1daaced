-- ===== src/Watcher/Bumps.antt =====
-- internal/extension/watcher.go: the gas price that replacePending gives a replacement.
use darkstop.Base.{ℕ, ◌+◌, ◌*◌, ◌/◌, ◌≤◌, ◌<◌, ◌≡◌, arith}
use native.Mathlib.Decide.{dec_lt}
use darkstop.Base.Big.{ℤ, pos, negsuc, ◌≤ℤ◌}
use darkstop.Watcher.Reconcile.{bumped}

-- What a client asks of a replacement: a gas price a tenth above the old one, and not below the
-- suggested one.
abbrev pub Replaces : ℕ → ℤ → ℤ → Type 0
Replaces old suggested price =
    (n : ℕ) × (price ≡ pos n) × (11 * old ≤ 10 * n) × (old < n) × (suggested ≤ℤ pos n)

-- For any old gas price that is not negative, the gas price of a replacement is at least a tenth
-- above the old one, strictly above it, and not below the suggested one.
pub bumped-Replaces :
    (old : ℕ) (suggested : ℤ) → Replaces old suggested (bumped (pos old) suggested)
unfolding bumped
bumped-Replaces old (negsuc k) =
    (old * 9 / 8 + 1, ground arith, ground arith, ground arith, ground arith)
bumped-Replaces old (pos k) = elim (dec_lt (old * 9 / 8 + 1) k) [
  | yes p ↦ (k, ground arith, ground arith, ground arith, ground arith)
  | no p ↦ (old * 9 / 8 + 1, ground arith, ground arith, ground arith, ground arith)
]
