-- ===== src/Runtime/Randomness/Ranges.antt =====
-- The ranges of `drawHmacSha256V1` that doubles hold: on them the sums of the source are exact.
use mathlib.Core.Path.{ap}
use lldm.Prelude.{
  ℕ, ◌+◌, ◌-◌, ◌*◌, ◌/◌, ◌%◌, ◌^◌, ◌≤◌, ◌<◌, ◌≡◌, ◌∙◌, refl, arith, true, ◌&&◌, ◌⊎◌, inl, inr, Bool,
  [],
}
use lldm.Prelude.Int.{ℤ, pos, negsuc, ◌+ℤ◌, ◌-ℤ◌, ◌≤ℤ◌, leb_ℤ, pos_part, neg_part, int_laws}
use lldm.Contracts.Randomness.{RandomDrawRecord, random_draw_issues}
use lldm.Runtime.Doubles.{round_size, to_double, round_size-exact, to_double-exact}
use lldm.Runtime.Randomness.{RandomPlatform, RandomDrawInput, range_size, is_safe, draw_record}

-- The number of the integers of a range.
abbrev pub span : RandomDrawInput → ℕ
span input = pos_part (input.maximum -ℤ input.minimum +ℤ pos 1)

-- The guard on the range.
abbrev pub is_ordered_safe : RandomDrawInput → Bool
is_ordered_safe input =
    is_safe input.minimum && is_safe input.maximum && leb_ℤ input.minimum input.maximum

-- What the guard says of a range.
record Bounded (lo hi : ℤ) : Type 0 where
  ordered : lo ≤ℤ hi
  lo_above : neg_part lo ≤ 2 ^ 53 - 1
  lo_below : pos_part lo ≤ 2 ^ 53 - 1
  hi_above : neg_part hi ≤ 2 ^ 53 - 1
  hi_below : pos_part hi ≤ 2 ^ 53 - 1

is_safe-parts : (z : ℤ) → is_safe z ≡ true → (neg_part z ≤ 2 ^ 53 - 1) × (pos_part z ≤ 2 ^ 53 - 1)
is_safe-parts (pos n) h = ground (arith, h)
is_safe-parts (negsuc n) h = ground (arith, h)

guard-Bounded :
    (input : RandomDrawInput) → is_ordered_safe input ≡ true → Bounded input.minimum input.maximum
guard-Bounded input h =
    let (lo_above, lo_below) = is_safe-parts input.minimum (ground (arith, h)) in
    let (hi_above, hi_below) = is_safe-parts input.maximum (ground (arith, h)) in
    record {
      ordered = ground (arith, h);
      lo_above = lo_above;
      lo_below = lo_below;
      hi_above = hi_above;
      hi_below = hi_below;
    }

one_part : (z : ℤ) → (pos_part z ≡ 0) ⊎ (neg_part z ≡ 0)
one_part (pos n) = inr refl
one_part (negsuc n) = inl refl

pub div_rem : (n d : ℕ) → 1 ≤ d → (n ≡ n / d * d + n % d) × (n % d < d)
div_rem n d h = omega arith

difference-exact :
    (lo hi : ℤ)
    → Bounded lo hi
    → pos_part (hi -ℤ lo +ℤ pos 1) ≤ 2 ^ 53
    → to_double (hi -ℤ lo) ≡ hi -ℤ lo
difference-exact lo hi b small =
    to_double-exact (hi -ℤ lo)
      (omega (int_laws, b.ordered, small, one_part (hi -ℤ lo), one_part (hi -ℤ lo +ℤ pos 1)))
      (omega (int_laws, b.ordered, one_part (hi -ℤ lo)))

sum-exact :
    (lo hi : ℤ)
    → Bounded lo hi
    → pos_part (hi -ℤ lo +ℤ pos 1) ≤ 2 ^ 53
    → to_double (hi -ℤ lo +ℤ pos 1) ≡ hi -ℤ lo +ℤ pos 1
sum-exact lo hi b small =
    to_double-exact (hi -ℤ lo +ℤ pos 1) small
      (omega (int_laws, b.ordered, one_part (hi -ℤ lo +ℤ pos 1)))

-- A value below a size that is not zero, added to the minimum, stays in the range.
in_range :
    (lo hi : ℤ) (n : ℕ)
    → Bounded lo hi
    → let v = lo +ℤ pos (n % pos_part (hi -ℤ lo +ℤ pos 1)) in (lo ≤ℤ v) × (v ≤ℤ hi)
in_range lo hi n b =
    omega
      (int_laws, b.ordered, one_part (hi -ℤ lo +ℤ pos 1), div_rem n (pos_part (hi -ℤ lo +ℤ pos 1)))

below_span :
    (lo hi : ℤ) (n : ℕ)
    → Bounded lo hi
    → n % pos_part (hi -ℤ lo +ℤ pos 1) ≤ pos_part (hi -ℤ lo +ℤ pos 1)
below_span lo hi n b =
    omega
      (int_laws, b.ordered, one_part (hi -ℤ lo +ℤ pos 1), div_rem n (pos_part (hi -ℤ lo +ℤ pos 1)))

value-exact :
    (lo hi : ℤ) (n : ℕ)
    → Bounded lo hi
    → let v = lo +ℤ pos (n % pos_part (hi -ℤ lo +ℤ pos 1)) in to_double v ≡ v
value-exact lo hi n b =
    let v = lo +ℤ pos (n % pos_part (hi -ℤ lo +ℤ pos 1)) in
    let (low, high) = in_range lo hi n b in
    to_double-exact v (omega (arith, low, high, b.hi_above, b.hi_below, b.lo_below, one_part v))
      (omega (arith, low, high, b.lo_above, b.lo_below, b.hi_above, one_part v))

pub range_size-exact :
    (input : RandomDrawInput)
    → is_ordered_safe input ≡ true
    → span input ≤ 2 ^ 53
    → range_size input ≡ span input
range_size-exact input safe small =
    let b = guard-Bounded input safe in
    ap (λ d. pos_part (to_double (d +ℤ pos 1)))
      (difference-exact input.minimum input.maximum b small)
    ∙ ap pos_part (sum-exact input.minimum input.maximum b small)

pub realized_value-exact :
    (platform : RandomPlatform) (input : RandomDrawInput) (unsigned block : ℕ)
    → is_ordered_safe input ≡ true
    → span input ≤ 2 ^ 53
    → (draw_record platform input unsigned block).realized_value
      ≡ input.minimum +ℤ pos (unsigned % span input)
realized_value-exact platform input unsigned block safe small =
    let b = guard-Bounded input safe in
    let remains = below_span input.minimum input.maximum unsigned b in
    ap (λ size. to_double (input.minimum +ℤ pos (round_size (unsigned % size))))
      (range_size-exact input safe small)
    ∙ ap (λ r. to_double (input.minimum +ℤ pos r))
        (round_size-exact (unsigned % span input) (omega (arith, remains, small)))
    ∙ value-exact input.minimum input.maximum unsigned b

between-no_issues :
    (r : RandomDrawRecord) (v : ℤ)
    → r.realized_value ≡ v
    → r.minimum ≤ℤ r.maximum
    → r.minimum ≤ℤ v
    → v ≤ℤ r.maximum
    → random_draw_issues r ≡ []
unfolding random_draw_issues
between-no_issues r v same ordered low high = ground (arith, same, ordered, low, high)

pub draw_record-no_issues :
    (platform : RandomPlatform) (input : RandomDrawInput) (unsigned block : ℕ)
    → is_ordered_safe input ≡ true
    → span input ≤ 2 ^ 53
    → random_draw_issues (draw_record platform input unsigned block) ≡ []
draw_record-no_issues platform input unsigned block safe small =
    let b = guard-Bounded input safe in
    let (low, high) = in_range input.minimum input.maximum unsigned b in
    between-no_issues (draw_record platform input unsigned block) _
      (realized_value-exact platform input unsigned block safe small) b.ordered low high
