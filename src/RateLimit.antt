-- ===== src/RateLimit.antt =====
-- runtime/helpers.go: the rate limiters of a request as the Firecracker SDK wants them. The SDK's
-- token bucket builder is not part of the repository, and is an argument.
use abschlussarbeit.Common.{
  ℕ, ◌+◌, ◌-◌, ◌*◌, ◌%◌, ◌^◌, Bool, true, false, Option, none, some, ltb, if◌then◌else◌,
}
use abschlussarbeit.Proto.{Int64, positive, negative, TokenBucket, RateLimiter}

-- `firecracker.TokenBucketBuilder`
pub record BucketBuilder : Type 1 where
  pub Builder : Type 0
  pub Bucket : Type 0
  pub empty : Builder
  pub with_initial_size : Builder → Int64 → Builder
  pub with_refill_duration : Builder → Int64 → Builder
  pub with_bucket_size : Builder → Int64 → Builder
  pub build : Builder → Bucket

-- `models.RateLimiter`
pub record LimiterModel (Bucket : Type 0) : Type 0 where
  pub bandwidth : Option Bucket
  pub ops : Option Bucket

-- `x > 0`
unfoldable pub is_positive : Int64 → Bool
is_positive (positive n) = ltb 0 n
is_positive (negative n) = false

abbrev wrap64 : ℕ → Int64
wrap64 n = let r = n % 2 ^ 64 in if ltb r (2 ^ 63) then positive r else negative (2 ^ 64 - 1 - r)

-- `time.Duration(x) * time.Millisecond`, a product of two `int64`
unfoldable pub milliseconds : Int64 → Int64
milliseconds (positive n) = wrap64 (n * 1000000)
milliseconds (negative n) = wrap64 (2 ^ 64 * 1000000 - (n + 1) * 1000000)

module _ (sdk : BucketBuilder) where
  open sdk use {
    Builder, Bucket, empty, with_initial_size, with_refill_duration, with_bucket_size, build,
  }

  abbrev when : Bool → (Builder → Int64 → Builder) → Int64 → Builder → Builder
  when true f x b = f b x
  when false f x b = b

  unfoldable pub token_bucket_from_proto : TokenBucket → Bucket
  unfolding is_positive milliseconds
  token_bucket_from_proto bucket = build (
      when (is_positive bucket.capacity) with_bucket_size bucket.capacity (
        when (is_positive bucket.refill_time) with_refill_duration (milliseconds bucket.refill_time)
          (when (is_positive bucket.one_time_burst) with_initial_size bucket.one_time_burst empty)))

  abbrev map_bucket : Option TokenBucket → Option Bucket
  map_bucket none = none
  map_bucket (some b) = some (token_bucket_from_proto b)

  unfoldable pub rate_limiter_from_proto : Option RateLimiter → Option (LimiterModel Bucket)
  rate_limiter_from_proto none = none
  rate_limiter_from_proto (some rl) =
      some (record { bandwidth = map_bucket rl.bandwidth; ops = map_bucket rl.ops })
