-- ===== src/Base/Words.antt =====
-- Counters of type size_t and uint64_t: numbers below 2 ^ 64 that wrap.
use Prim.Native.Nat.{ℕ, suc, ◌+◌, ◌-◌, ◌%◌, ◌^◌}
use mathlib.Core.Path.{◌≡◌}
use native.Mathlib.Omega.{arith}

abbrev pub u64_mod : ℕ
u64_mod = 2 ^ 64

-- `n += 1`
abbrev pub incr64 : ℕ → ℕ
incr64 n = (n + 1) % u64_mod

-- `n -= 1`
abbrev pub decr64 : ℕ → ℕ
decr64 n = (n + u64_mod - 1) % u64_mod

pub incr64-mod : (n : ℕ) → incr64 (n % u64_mod) ≡ suc n % u64_mod
incr64-mod n = omega arith

pub decr64-mod : (n : ℕ) → decr64 (suc n % u64_mod) ≡ n % u64_mod
decr64-mod n = omega arith
