-- ===== src/Cache/Clock.antt =====
-- The clock as the caches of cache/ read it: `WallClock.Now().Truncate(time.Second)`, and the age
-- of an entry, `uint32(now.Sub(t).Seconds())`. A time is a number of nanoseconds since the epoch,
-- handed to each operation that reads the clock; entries hold truncated times, in seconds.
use sdns.Base.{ℕ, ◌+◌, ◌-◌, ◌/◌, ◌%◌, ◌^◌, ◌≤◌, ◌<◌, ◌≡◌, arith}

-- `Truncate(time.Second)`, as a number of seconds
unfoldable pub truncate : ℕ → ℕ
truncate nanoseconds = nanoseconds / 10 ^ 9

-- The difference of two truncated times as a `uint32`, which wraps.
unfoldable pub elapsed : ℕ → ℕ → ℕ
elapsed now t = (now + 2 ^ 32 - t % 2 ^ 32) % 2 ^ 32

pub elapsed_exact : (now t : ℕ) → t ≤ now → now - t < 2 ^ 32 → elapsed now t ≡ now - t
unfolding elapsed
elapsed_exact now t h k = omega arith

-- Ages add up along three times in order, while they fit.
pub elapsed-add_elapsed :
    (t u v : ℕ) → t ≤ u → u ≤ v → v - t < 2 ^ 32 → elapsed u t + elapsed v u ≡ elapsed v t
unfolding elapsed
elapsed-add_elapsed t u v h k b = omega arith
