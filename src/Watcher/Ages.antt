-- ===== src/Watcher/Ages.antt =====
-- internal/extension/watcher.go: the age of a price sample, in 64-bit arithmetic.
use darkstop.Base.{ℕ, ◌+◌, ◌/◌, ◌^◌, ◌≤◌, ◌<◌, ◌≡◌, ◌↔◌, ◌⊎◌, true, arith}
use darkstop.Watcher.Tick.{unix_epoch, nanoseconds, unix, feed_age, is_unusable}

-- While the clock is past 1970 and neither time is past 2 ^ 62 seconds, a sample is refused exactly
-- if its second is after the clock's, or more than 300 seconds before it.
pub is_unusable_iff :
    (now ts : ℕ)
    → unix_epoch ≤ now / nanoseconds
    → now / nanoseconds < 2 ^ 62
    → ts < 2 ^ 62
    → (is_unusable now ts ≡ true)
      ↔ ((now / nanoseconds < ts + unix_epoch) ⊎ (ts + unix_epoch + 300 < now / nanoseconds))
unfolding is_unusable feed_age unix
is_unusable_iff now ts past b c = ground arith
