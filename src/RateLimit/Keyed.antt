-- ===== src/RateLimit/Keyed.antt =====
-- The memory that the keyed limiter holds.
use mathlib.Core.Option.{some-injective}
use gdrive_s.Base.{
  String, ℕ, suc, ◌*◌, ◌≤◌, ◌≡◌, Option, none, some, List, [], ◌∷◌, length, lookup, remove,
  length-put, length-remove_found, lookup-first, text_key, refl, ◌∙◌, arith,
}
use gdrive_s.RateLimit.{
  RefillRate, token, LimitDecision, TokenBucket, new_bucket, take, KeyedLimiterOptions, Buckets,
  make_room, served, started, from_key, take_key,
}

length-make_room : (n : ℕ) (m : Buckets) → 1 ≤ n → length m ≤ n → suc (length (make_room n m)) ≤ n
length-make_room n [] h k = ground arith
length-make_room n ((key, b) ∷ m) h k =
    let smaller = length-remove_found key b ((key, b) ∷ m) (lookup-first key b m) in ground arith

module _ (options : KeyedLimiterOptions) (key : String) (now : ℕ) where
  length-served :
      (b : TokenBucket) (m : Buckets) (answer : LimitDecision × Buckets) (n : ℕ)
      → some (served options key now b m) ≡ some answer
      → suc (length m) ≤ n
      → length answer.1 ≤ n
  unfolding served
  length-served b m answer n e h =
      rw (← some-injective (served options key now b m) answer e)
        (omega (arith, length-put key (take now b).1 m))

  length-started :
      (fresh : Option TokenBucket) (buckets : Buckets) (answer : LimitDecision × Buckets)
      → 1 ≤ options.max_keys
      → length buckets ≤ options.max_keys
      → started options key now fresh buckets ≡ some answer
      → length answer.1 ≤ options.max_keys
  unfolding started
  length-started none buckets answer h k e = cc
  length-started (some b) buckets answer h k e =
      length-served b (make_room options.max_keys buckets) answer options.max_keys e
        (length-make_room options.max_keys buckets h k)

  length-from_key :
      (found : Option TokenBucket) (buckets : Buckets) (answer : LimitDecision × Buckets)
      → lookup key buckets ≡ found
      → 1 ≤ options.max_keys
      → length buckets ≤ options.max_keys
      → from_key options key now buckets found ≡ some answer
      → length answer.1 ≤ options.max_keys
  unfolding from_key
  length-from_key (some b) buckets answer f h k e =
      length-served b (remove key buckets) answer options.max_keys e
        (omega (arith, length-remove_found key b buckets f, k))
  length-from_key none buckets answer f h k e =
      length-started (new_bucket options.capacity options.refill_per_second now) buckets answer h k
        e

new_bucket-some :
    (capacity : ℕ) (rate : RefillRate) (now : ℕ)
    → 1 ≤ capacity
    → 1 ≤ rate.tokens
    → (b : TokenBucket) × (new_bucket capacity rate now ≡ some b)
unfolding new_bucket
new_bucket-some capacity rate now c r = (
  record {
    capacity = capacity;
    refill_per_second = rate;
    tokens = capacity * token rate;
    last_refill = now;
  },
  ground arith,
)

from_key-some :
    (options : KeyedLimiterOptions) (key : String) (now : ℕ) (buckets : Buckets)
    (found : Option TokenBucket)
    → 1 ≤ options.capacity
    → 1 ≤ options.refill_per_second.tokens
    → (answer : LimitDecision × Buckets) × (from_key options key now buckets found ≡ some answer)
unfolding from_key started
from_key-some options key now buckets (some b) c r =
    (served options key now b (remove key buckets), refl)
from_key-some options key now buckets none c r =
    let (b, e) = new_bucket-some options.capacity options.refill_per_second now c r in
    (served options key now b (make_room options.max_keys buckets), rw e refl)

-- The limiter after these takes, or none when a constructor threw.
unfoldable pub take_keys : KeyedLimiterOptions → List (String × ℕ) → Buckets → Option Buckets
take_keys options [] buckets = some buckets
take_keys options ((key, now) ∷ rest) buckets = elim (take_key options key now buckets) [
  | none ↦ none
  | some answer ↦ take_keys options rest answer.1
]

take_keys-some :
    (options : KeyedLimiterOptions) (key : String) (now : ℕ) (rest : List (String × ℕ))
    (buckets : Buckets) (answer : LimitDecision × Buckets)
    → take_key options key now buckets ≡ some answer
    → take_keys options ((key, now) ∷ rest) buckets ≡ take_keys options rest answer.1
unfolding take_keys
take_keys-some options key now rest buckets answer s = rw (s, take_keys) refl

-- Whatever keys are taken from and however many there are, a limiter whose options are
-- positive never throws and, if it holds no more buckets than its options allow, holds no more
-- after them.
pub take_keys_bounded :
    (options : KeyedLimiterOptions) (takes : List (String × ℕ)) (buckets : Buckets)
    → 1 ≤ options.max_keys
    → 1 ≤ options.capacity
    → 1 ≤ options.refill_per_second.tokens
    → length buckets ≤ options.max_keys
    → (after : Buckets) × (take_keys options takes buckets ≡ some after)
      × (length after ≤ options.max_keys)
unfolding take_keys take_key
take_keys_bounded options [] buckets h c r k = (buckets, refl, k)
take_keys_bounded options ((key, now) ∷ rest) buckets h c r k =
    let (answer, s) = from_key-some options key now buckets (lookup key buckets) c r in
    let small = length-from_key options key now (lookup key buckets) buckets answer refl h k s in
    let (after, e, l) = take_keys_bounded options rest answer.1 h c r small in
    (after, take_keys-some options key now rest buckets answer s ∙ e, l)
