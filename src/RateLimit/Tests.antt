-- ===== src/RateLimit/Tests.antt =====
-- Tests and witnesses of the rate limits.
use gdrive_s.Base.{
  String, ◌+◌, ◌-◌, ◌*◌, ◌≤◌, ◌≡◌, refl, Option, none, some, List, [], ◌∷◌, length, arith, lookup,
  put, remove, text_key,
}
use gdrive_s.RateLimit.{
  RefillRate, TokenBucket, new_bucket, refill, take, KeyedLimiterOptions, Buckets, served, started,
  from_key, take_key,
}
use gdrive_s.RateLimit.Rate.{take_all, take_all_bounded}
use gdrive_s.RateLimit.Keyed.{take_keys, take_keys_bounded}

-- Two tokens a minute, by a clock that reads tenths of a millisecond.
abbrev two_a_minute : RefillRate
two_a_minute = record { tokens = 2; seconds = 60; ticks_per_ms = 10 }

-- Two tokens, one more every half minute.
abbrev bucket : TokenBucket
bucket = record {
  capacity = 2;
  refill_per_second = two_a_minute;
  tokens = 1200000;
  last_refill = 0;
}

bucket_made : new_bucket 2 two_a_minute 0 ≡ some bucket
unfolding new_bucket
bucket_made = refl

take_tests :
    ((take_all (0 ∷ 1 ∷ 2 ∷ []) bucket).0 ≡ 2) × ((take_all (0 ∷ 1 ∷ 2 ∷ 300001 ∷ []) bucket).0 ≡ 3)
unfolding take_all take refill
take_tests = (refl, refl)

take_all_bounded_example :
    600000 * (take_all (0 ∷ 1 ∷ 2 ∷ 300001 ∷ []) bucket).0 ≤ 600000 * 2 + (400000 - 0) * 2
take_all_bounded_example =
    take_all_bounded 2 two_a_minute 0 400000 bucket (0 ∷ 1 ∷ 2 ∷ 300001 ∷ []) bucket_made
      (omega arith) (omega arith, (omega arith, (omega arith, (omega arith, tt))))

abbrev two_keys : KeyedLimiterOptions
two_keys = record { capacity = 2; refill_per_second = two_a_minute; max_keys = 2 }

abbrev keys_of : Option Buckets → List String
keys_of none = []
keys_of (some []) = []
keys_of (some ((k, b) ∷ rest)) = k ∷ keys_of (some rest)

-- The key taken from longest ago makes room.
eviction_test :
    keys_of (take_keys two_keys (("a", 0) ∷ ("b", 1) ∷ ("a", 2) ∷ ("c", 3) ∷ []) [])
    ≡ "a" ∷ "c" ∷ []
unfolding take_keys take_key from_key started served new_bucket take refill lookup put remove
eviction_test = refl

take_keys_bounded_example :
    (after : Buckets) × (take_keys two_keys (("a", 0) ∷ ("b", 1) ∷ ("c", 3) ∷ []) [] ≡ some after)
    × (length after ≤ 2)
take_keys_bounded_example =
    take_keys_bounded two_keys (("a", 0) ∷ ("b", 1) ∷ ("c", 3) ∷ []) [] (omega arith) (omega arith)
      (omega arith) (omega arith)
