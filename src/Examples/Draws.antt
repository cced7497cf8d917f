-- ===== src/Examples/Draws.antt =====
-- The theorems on random draws at concrete inputs.
use Prim.Native.Char.{code}
use text.Mathlib.TextEquality.{Char-path}
use lldm.Prelude.{
  ℕ, zero, suc, ◌≡◌, ◌<◌, ◌+◌, ◌-◌, ◌*◌, ◌/◌, ◌%◌, ◌^◌, ◌↔◌, refl, arith, List, [], ◌∷◌, String, ok,
}
use lldm.Runtime.Doubles.{round_size}
use lldm.Prelude.Int.{pos, negsuc, ◌≤ℤ◌, ◌+ℤ◌, ◌-ℤ◌}
use lldm.Contracts.Randomness.{RandomDrawRecord, random_draw_issues, validate_random_draw_record}
use lldm.Runtime.Randomness.{
  RandomPlatform, RandomDrawInput, FrameInput, frame_hmac_sha256_v1_input, frame_string, uint32,
  draw_hmac_sha256_v1, sample, block_value, digest_to_unsigned, from_bytes, acceptance_limit,
  checked_record, range_size, draw_record, two_to_256,
}
use lldm.Runtime.Randomness.Framing.{frame-injective}
use lldm.Runtime.Randomness.Sampling.{
  draw-in_range, FirstAccepted, Refused, acceptance_limit-unbiased,
}
use lldm.Runtime.Randomness.Termination.{draw-returns}

-- The UTF-8 of a text of ASCII characters: the characters' numbers.
codes : String → List ℕ
codes String.[] = []
codes (String.◌∷◌ c s) = code c ∷ codes s

codes-injective : (a b : String) → codes a ≡ codes b → a ≡ b
unfolding codes
codes-injective String.[] String.[] h = refl
codes-injective String.[] (String.◌∷◌ c s) h = absurd cc
codes-injective (String.◌∷◌ c s) String.[] h = absurd cc
codes-injective (String.◌∷◌ c s) (String.◌∷◌ d t) h =
    let first : c ≡ d = Char-path c d cc in let rest : s ≡ t = codes-injective s t cc in cc

abbrev frame : FrameInput
frame = record {
  campaign_id = "c1";
  command_id = "k1";
  purpose = "die";
  purpose_local_index = 0;
  block_counter = 0;
}

abbrev framed : List ℕ
framed =
    0 ∷ 0 ∷ 0 ∷ 14 ∷ 76 ∷ 76 ∷ 68 ∷ 77 ∷ 32 ∷ 114 ∷ 97 ∷ 110 ∷ 100 ∷ 111 ∷ 109 ∷ 32 ∷ 118 ∷ 49 ∷ 0
    ∷ 0 ∷ 0 ∷ 2 ∷ 99 ∷ 49 ∷ 0 ∷ 0 ∷ 0 ∷ 2 ∷ 107 ∷ 49 ∷ 0 ∷ 0 ∷ 0 ∷ 3 ∷ 100 ∷ 105 ∷ 101 ∷ 0 ∷ 0 ∷ 0
    ∷ 0 ∷ 0 ∷ 0 ∷ 0 ∷ 0 ∷ []

is_framed : frame_hmac_sha256_v1_input codes frame ≡ ok framed
unfolding frame_hmac_sha256_v1_input frame_string uint32 codes
is_framed = refl

frame-injective_example : frame ≡ frame
frame-injective_example =
    frame-injective codes codes-injective frame frame framed is_framed is_framed

abbrev bytes : List ℕ
bytes =
    1 ∷ 2 ∷ 3 ∷ 4 ∷ 5 ∷ 6 ∷ 7 ∷ 8 ∷ 9 ∷ 10 ∷ 11 ∷ 12 ∷ 13 ∷ 14 ∷ 15 ∷ 16 ∷ 17 ∷ 18 ∷ 19 ∷ 20 ∷ 21
    ∷ 22 ∷ 23 ∷ 24 ∷ 25 ∷ 26 ∷ 27 ∷ 28 ∷ 29 ∷ 30 ∷ 31 ∷ 32 ∷ []

abbrev ones : List ℕ
ones =
    255 ∷ 255 ∷ 255 ∷ 255 ∷ 255 ∷ 255 ∷ 255 ∷ 255 ∷ 255 ∷ 255 ∷ 255 ∷ 255 ∷ 255 ∷ 255 ∷ 255 ∷ 255
    ∷ 255 ∷ 255 ∷ 255 ∷ 255 ∷ 255 ∷ 255 ∷ 255 ∷ 255 ∷ 255 ∷ 255 ∷ 255 ∷ 255 ∷ 255 ∷ 255 ∷ 255 ∷ 255
    ∷ []

-- Only the first block, of 0xff bytes, is refused.
abbrev digest_at : ℕ → List ℕ
digest_at zero = ones
digest_at (suc block) = bytes

abbrev platform : RandomPlatform
platform = record {
  encode = codes;
  digest = λ seed framed block. digest_at block;
  seed_hash = λ seed. "sha256:00";
  record_schema = λ r. [];
}

abbrev d20 : RandomDrawInput
d20 = record {
  seed = bytes;
  campaign_id = "c1";
  command_id = "k1";
  purpose = "die";
  purpose_local_index = 0;
  minimum = pos 1;
  maximum = pos 20;
}

abbrev drawn : RandomDrawRecord
drawn = record {
  seed_fingerprint = "sha256:00";
  campaign_id = "c1";
  command_id = "k1";
  purpose = "die";
  purpose_local_index = 0;
  minimum = pos 1;
  maximum = pos 20;
  realized_value = pos 9;
  rejection_count = 1;
}

is_drawn : draw_hmac_sha256_v1 platform d20 ≡ ok drawn
unfolding draw_hmac_sha256_v1 uint32 sample block_value frame_hmac_sha256_v1_input frame_string
    codes digest_to_unsigned from_bytes acceptance_limit checked_record validate_random_draw_record
    random_draw_issues round_size ◌+ℤ◌ ◌-ℤ◌
is_drawn = refl

draw-in_range_example : FirstAccepted platform d20 0 drawn × (pos 1 ≤ℤ pos 9) × (pos 9 ≤ℤ pos 20)
draw-in_range_example = draw-in_range platform d20 drawn is_drawn

acceptance_limit-unbiased_example :
    ((47 < acceptance_limit 20) × (47 % 20 ≡ 7))
    ↔ ((q : ℕ) × (q < two_to_256 / 20) × (47 ≡ q * 20 + 7))
acceptance_limit-unbiased_example = acceptance_limit-unbiased 20 7 47 (omega arith) (omega arith)

first-Refused : (b : ℕ) → b < 1 → Refused platform d20 b
unfolding block_value uint32 frame_hmac_sha256_v1_input frame_string codes digest_to_unsigned
    from_bytes acceptance_limit round_size ◌+ℤ◌ ◌-ℤ◌
first-Refused zero below = (two_to_256 - 1, refl, omega arith)
first-Refused (suc b) below = absurd (omega (arith, below))

abbrev drawn_from : ℕ
drawn_from = from_bytes 0 bytes

second_reads : block_value platform d20 1 ≡ ok drawn_from
unfolding block_value uint32 frame_hmac_sha256_v1_input frame_string codes digest_to_unsigned
    from_bytes
second_reads = refl

second_below : drawn_from < acceptance_limit (range_size d20)
unfolding from_bytes acceptance_limit round_size ◌+ℤ◌ ◌-ℤ◌
second_below = omega arith

draw-returns_example :
    (draw_hmac_sha256_v1 platform d20 ≡ ok (draw_record platform d20 drawn_from 1))
    × ((draw_record platform d20 drawn_from 1).realized_value ≡ pos 1 +ℤ pos (drawn_from % 20))
unfolding ◌+ℤ◌ ◌-ℤ◌
draw-returns_example =
    draw-returns platform d20 1 drawn_from refl refl (omega arith) (omega arith) (omega arith)
      first-Refused second_reads second_below refl

-- Doubles around 2 ^ 53, and the size of the largest range of safe integers.
rounds :
    (round_size (2 ^ 53 + 1) ≡ 2 ^ 53)
    × (round_size (2 ^ 53 + 3) ≡ 2 ^ 53 + 4)
    × (range_size (record d20 { minimum = negsuc (2 ^ 53 - 2); maximum = pos (2 ^ 53 - 1) })
        ≡ 2 ^ 54)
unfolding round_size ◌+ℤ◌ ◌-ℤ◌
rounds = (refl, refl, refl)
