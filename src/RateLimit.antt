-- ===== src/RateLimit.antt =====
-- security/rate-limit.ts: token buckets. A rate is a number of tokens in a number of seconds, as
-- security/rate-limits.ts sets it (N, N / 60 or N / 3600 a second), and the clock reads whole ticks,
-- any number of them in a millisecond. Tokens are counted in parts in which each tick adds a whole
-- amount; the rounding of floating-point numbers is not modelled.
pub mod Rate
pub mod Keyed
mod Tests
use gdrive_s.Base.{
  ℕ, ◌+◌, ◌-◌, ◌*◌, ◌/◌, min, max, ◌≡◌, Bool, true, false, Option, none, some, List, [], ◌∷◌,
  length, Dict, lookup, put, remove, Key, eqb, leb, ltb, if◌then◌else◌, String, text_key,
}

pub record LimitDecision : Type 0 where
  pub allowed : Bool
  pub retry_after_ms : ℕ
  pub remaining : ℕ

-- `tokens` in `seconds`, by a clock of so many ticks in a millisecond.
pub record RefillRate : Type 0 where
  pub tokens : ℕ
  pub seconds : ℕ
  pub ticks_per_ms : ℕ

-- The parts of one token.
abbrev pub token : RefillRate → ℕ
token r = 1000 * r.seconds * r.ticks_per_ms

-- `capacity` and `refill_per_second` are positive: the constructor throws otherwise.
pub record TokenBucket : Type 0 where
  pub capacity : ℕ
  pub refill_per_second : RefillRate
  pub tokens : ℕ
  pub last_refill : ℕ

unfoldable pub new_bucket : ℕ → RefillRate → ℕ → Option TokenBucket
new_bucket capacity refill_per_second now =
    if leb capacity 0
    then none
    else if leb refill_per_second.tokens 0
    then none
    else some (record {
      capacity = capacity;
      refill_per_second = refill_per_second;
      tokens = capacity * token refill_per_second;
      last_refill = now;
    })

unfoldable pub refill : ℕ → TokenBucket → TokenBucket
refill now b =
    let elapsed = now - b.last_refill in
    if eqb elapsed 0 then b else record b {
      tokens =
          min (b.capacity * token b.refill_per_second)
            (b.tokens + elapsed * b.refill_per_second.tokens);
      last_refill = now;
    }

-- `Math.ceil(a / b)`
abbrev pub ceil_div : ℕ → ℕ → ℕ
ceil_div a b = (a + (b - 1)) / b

unfoldable pub take : ℕ → TokenBucket → LimitDecision × TokenBucket
take now b =
    let filled = refill now b in
    let rate = b.refill_per_second in
    if leb (token rate) filled.tokens
    then (
      record {
        allowed = true;
        retry_after_ms = 0;
        remaining = (filled.tokens - token rate) / token rate;
      },
      record filled { tokens = filled.tokens - token rate },
    )
    else (
      record {
        allowed = false;
        retry_after_ms =
            max 1 (ceil_div (token rate - filled.tokens) (rate.tokens * rate.ticks_per_ms));
        remaining = 0;
      },
      filled,
    )

unfoldable pub peek : ℕ → TokenBucket → ℕ × TokenBucket
peek now b = let filled = refill now b in (filled.tokens, filled)

pub record KeyedLimiterOptions : Type 0 where
  pub capacity : ℕ
  pub refill_per_second : RefillRate
  pub max_keys : ℕ

-- The buckets in the order of the map, the one taken from longest ago first.
abbrev pub Buckets : Type 0
Buckets = Dict String TokenBucket

-- `keys().next()`, then `delete`
abbrev pub evict_oldest : Buckets → Buckets
evict_oldest [] = []
evict_oldest ((key, b) ∷ rest) = remove key ((key, b) ∷ rest)

abbrev pub make_room : ℕ → Buckets → Buckets
make_room max_keys buckets = if leb max_keys (length buckets) then evict_oldest buckets else buckets

module _ (options : KeyedLimiterOptions) where
  unfoldable pub served : String → ℕ → TokenBucket → Buckets → LimitDecision × Buckets
  served key now bucket buckets =
      let (decision, left) = take now bucket in (decision, put key left buckets)

  -- None where the constructor of a bucket throws. A bucket is one object: what is taken from
  -- it is seen in the map.
  unfoldable pub started :
      String → ℕ → Option TokenBucket → Buckets → Option (LimitDecision × Buckets)
  unfolding served
  started key now none buckets = none
  started key now (some bucket) buckets =
      some (served key now bucket (make_room options.max_keys buckets))

  unfoldable pub from_key :
      String → ℕ → Buckets → Option TokenBucket → Option (LimitDecision × Buckets)
  unfolding served started
  from_key key now buckets (some bucket) = some (served key now bucket (remove key buckets))
  from_key key now buckets none =
      started key now (new_bucket options.capacity options.refill_per_second now) buckets

  unfoldable pub take_key : String → ℕ → Buckets → Option (LimitDecision × Buckets)
  unfolding from_key
  take_key key now buckets = from_key key now buckets (lookup key buckets)
