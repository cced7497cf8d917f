-- ===== src/Runtime/Randomness.antt =====
-- packages/runtime/src/randomness/hmac-sha256-v1.ts: draws from a campaign seed by rejection
-- sampling. The digest of a framed input, the hash of a seed, the encoder of texts and the schema of
-- a record are calls of the platform and of a library, and are parameters. Bytes are numbers below
-- 256. The sums of the source that are made in doubles are rounded as doubles are.
pub mod Framing
pub mod Ranges
pub mod Sampling
pub mod Termination
use lldm.Prelude.{
  ℕ, zero, suc, ◌+◌, ◌-◌, ◌*◌, ◌/◌, ◌%◌, ◌^◌, String, Bool, true, false, Option, none, some, List,
  [], ◌∷◌, ◌++◌, length, ◌==◌, ltb, leb, if◌then◌else◌, not, Result, ok, err, ◌>>=◌, ◌>>◌, guard,
  refuse_if, ◌&&◌,
}
use lldm.Contracts.Randomness.{RandomDrawRecord, validate_random_draw_record}
use lldm.Contracts.Validation.{ValidationIssue, ValidationResult, success, failure}
use lldm.Runtime.Doubles.{round_size, to_double}
use lldm.Prelude.Int.{ℤ, pos, negsuc, ◌+ℤ◌, ◌-ℤ◌, leb_ℤ, pos_part}

abbrev pub domain_tag : String
domain_tag = "LLDM random v1"

abbrev pub uint32_maximum : ℕ
uint32_maximum = 0xffffffff

abbrev pub two_to_256 : ℕ
two_to_256 = 2 ^ 256

-- The big-endian bytes of a number; the error is the RangeError.
unfoldable pub uint32 : ℕ → Result (List ℕ)
uint32 value =
    if ltb uint32_maximum value
    then err "must be an unsigned 32-bit integer."
    else ok (value / 2 ^ 24 % 256 ∷ value / 2 ^ 16 % 256 ∷ value / 2 ^ 8 % 256 ∷ value % 256 ∷ [])

unfoldable pub frame_string : (String → List ℕ) → String → Result (List ℕ)
frame_string encode value = do size ← uint32 (length (encode value)); ok (size ++ encode value)

pub record FrameInput : Type 0 where
  pub campaign_id : String
  pub command_id : String
  pub purpose : String
  pub purpose_local_index : ℕ
  pub block_counter : ℕ

unfoldable pub frame_hmac_sha256_v1_input : (String → List ℕ) → FrameInput → Result (List ℕ)
frame_hmac_sha256_v1_input encode input = do
  tag ← frame_string encode domain_tag
  campaign ← frame_string encode input.campaign_id
  command ← frame_string encode input.command_id
  purpose ← frame_string encode input.purpose
  index ← uint32 input.purpose_local_index
  block ← uint32 input.block_counter
  ok (tag ++ (campaign ++ (command ++ (purpose ++ (index ++ block)))))

-- `value = (value << 8n) | BigInt(byte)` along the digest.
unfoldable pub from_bytes : ℕ → List ℕ → ℕ
from_bytes value [] = value
from_bytes value (byte ∷ bytes) = from_bytes (value * 256 + byte) bytes

unfoldable pub digest_to_unsigned : List ℕ → Result ℕ
digest_to_unsigned digest =
    if length digest == 32
    then ok (from_bytes 0 digest)
    else err "HMAC-SHA-256 digest must contain 32 bytes."

pub record RandomDrawInput : Type 0 where
  pub seed : List ℕ
  pub campaign_id : String
  pub command_id : String
  pub purpose : String
  pub purpose_local_index : ℕ
  pub minimum : ℤ
  pub maximum : ℤ

-- What the module calls: `TextEncoder`, the keyed digest, the hash of a seed and the schema.
pub record RandomPlatform : Type 0 where
  pub encode : String → List ℕ
  pub digest : (seed framed : List ℕ) (block_counter : ℕ) → List ℕ
  pub seed_hash : List ℕ → String
  pub record_schema : RandomDrawRecord → List ValidationIssue

abbrev pub is_safe : ℤ → Bool
is_safe z = leb_ℤ (negsuc (2 ^ 53 - 2)) z && leb_ℤ z (pos (2 ^ 53 - 1))

abbrev pub range_size : RandomDrawInput → ℕ
range_size input = pos_part (to_double (to_double (input.maximum -ℤ input.minimum) +ℤ pos 1))

-- The multiple of the range below 2 ^ 256 up to which a digest is taken.
unfoldable pub acceptance_limit : ℕ → ℕ
acceptance_limit size = two_to_256 - two_to_256 % size

abbrev pub frame_of : RandomDrawInput → ℕ → FrameInput
frame_of input block = record {
  campaign_id = input.campaign_id;
  command_id = input.command_id;
  purpose = input.purpose;
  purpose_local_index = input.purpose_local_index;
  block_counter = block;
}

-- The number that a block of the stream stands for.
unfoldable pub block_value : RandomPlatform → RandomDrawInput → ℕ → Result ℕ
block_value platform input block = do
  framed ← frame_hmac_sha256_v1_input platform.encode (frame_of input block)
  digest_to_unsigned (platform.digest input.seed framed block)

abbrev pub draw_record : RandomPlatform → RandomDrawInput → ℕ → ℕ → RandomDrawRecord
draw_record platform input unsigned rejections = record {
  seed_fingerprint = platform.seed_hash input.seed;
  campaign_id = input.campaign_id;
  command_id = input.command_id;
  purpose = input.purpose;
  purpose_local_index = input.purpose_local_index;
  minimum = input.minimum;
  maximum = input.maximum;
  realized_value = to_double (input.minimum +ℤ pos (round_size (unsigned % range_size input)));
  rejection_count = rejections;
}

abbrev pub valid_record : ValidationResult RandomDrawRecord → Result RandomDrawRecord
valid_record (success r) = ok r
valid_record (failure is) = err "HMAC draw produced an invalid random record."

unfoldable pub checked_record : RandomPlatform → RandomDrawRecord → Result RandomDrawRecord
checked_record platform r = valid_record (validate_random_draw_record platform.record_schema r)

-- The loop, by the block counters that are left; both counters of the source are the same number.
unfoldable pub sample : ℕ → RandomPlatform → RandomDrawInput → ℕ → Result RandomDrawRecord
sample zero platform input block = err "Random rejection sampling exhausted block counters."
sample (suc left) platform input block = elim (block_value platform input block) [
  | err e ↦ err e
  | ok unsigned ↦ elim (ltb unsigned (acceptance_limit (range_size input))) [
    | true ↦ checked_record platform (draw_record platform input unsigned block)
    | false ↦ sample left platform input (block + 1)
  ]
]

unfoldable pub draw_hmac_sha256_v1 : RandomPlatform → RandomDrawInput → Result RandomDrawRecord
draw_hmac_sha256_v1 platform input = do
  guard (length input.seed == 32) "Campaign seed must contain exactly 32 bytes."
  guard (is_safe input.minimum && is_safe input.maximum && leb_ℤ input.minimum input.maximum)
      "Random range must use ordered safe integers."
  index_bytes ← uint32 input.purpose_local_index
  sample (uint32_maximum + 1) platform input 0
