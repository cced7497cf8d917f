-- ===== src/Runtime/Doubles.antt =====
-- What a double holds of an integer of at most 2 ^ 54 in size, which the sums of two safe integers and
-- the numbers of packages/runtime/src/randomness/hmac-sha256-v1.ts are: every integer up to 2 ^ 53 and
-- the even ones above it. An odd one above goes to the neighbour with an even significand.
use lldm.Prelude.{ℕ, ◌+◌, ◌-◌, ◌/◌, ◌%◌, ◌^◌, ◌≤◌, ◌≡◌, arith, ◌||◌, ◌==◌, leb, if◌then◌else◌}
use lldm.Prelude.Int.{ℤ, pos, negsuc, pos_part, neg_part}

unfoldable pub round_size : ℕ → ℕ
round_size n = if leb n (2 ^ 53) || n % 2 == 0 then n else if n / 2 % 2 == 0 then n - 1 else n + 1

abbrev pub to_double : ℤ → ℤ
to_double (pos n) = pos (round_size n)
to_double (negsuc n) = negsuc (round_size (n + 1) - 1)

pub round_size-exact : (n : ℕ) → n ≤ 2 ^ 53 → round_size n ≡ n
unfolding round_size
round_size-exact n small = ground (arith, small)

pub to_double-exact : (z : ℤ) → pos_part z ≤ 2 ^ 53 → neg_part z ≤ 2 ^ 53 → to_double z ≡ z
to_double-exact (pos n) p q = ground (arith, round_size-exact n p)
to_double-exact (negsuc n) p q = ground (arith, round_size-exact (n + 1) (omega (arith, q)))
