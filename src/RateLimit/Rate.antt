-- ===== src/RateLimit/Rate.antt =====
-- How much a token bucket lets through.
use mathlib.Core.Path.{subst}
use native.Mathlib.Nat.{mul_comm, mul-le-mul_right}
use gdrive_s.Base.{
  ℕ, Bool, ◌+◌, ◌-◌, ◌*◌, ◌≤◌, ◌≡◌, true, false, some, List, [], ◌∷◌, refl, ◌∙◌, ap, sym, arith,
  eqb, leb, All, if◌then◌else◌, Bool-cases, inl, inr,
}
use gdrive_s.RateLimit.{RefillRate, token, TokenBucket, refill, take, new_bucket}

-- The takes at these times, in turn: how many are allowed, and the bucket after them.
unfoldable pub take_all : List ℕ → TokenBucket → ℕ × TokenBucket
take_all [] b = (0, b)
take_all (now ∷ times) b =
    let (decision, left) = take now b in
    let (count, after) = take_all times left in ((if decision.allowed then 1 else 0) + count, after)

-- What a bucket held and has been given since pays for what it has and what was taken.
pub record Pays (spent : ℕ) (b b' : TokenBucket) : Type 0 where
  pub same_capacity : b'.capacity ≡ b.capacity
  pub same_rate : b'.refill_per_second ≡ b.refill_per_second
  pub later : b.last_refill ≤ b'.last_refill
  pub paid :
      b'.tokens + spent ≤ b.tokens + (b'.last_refill - b.last_refill) * b.refill_per_second.tokens

mul_split : (a b c r : ℕ) → a ≤ b → b ≤ c → (b - a) * r + (c - b) * r ≡ (c - a) * r
mul_split a b c r h k = grind arith

Pays-refill : (now : ℕ) (b : TokenBucket) → Pays 0 b (refill now b)
unfolding refill
Pays-refill now b = elim (Bool-cases (eqb (now - b.last_refill) 0)) [
  | inl e ↦
      rw e
        (record { same_capacity = refl; same_rate = refl; later = omega arith; paid = omega arith })
  | inr e ↦
      rw e (record {
        same_capacity = refl;
        same_rate = refl;
        later = ground arith;
        paid = ground arith;
      })
]

Pays-take :
    (now : ℕ) (b : TokenBucket)
    → Pays (if (take now b).0.allowed then token b.refill_per_second else 0) b (take now b).1
unfolding take
Pays-take now b =
    let p = Pays-refill now b in
    elim (Bool-cases (leb (token b.refill_per_second) (refill now b).tokens)) [
      | inl e ↦ rw e (record {
        same_capacity = p.same_capacity;
        same_rate = p.same_rate;
        later = p.later;
        paid = ground (arith, p.paid);
      })
      | inr e ↦ rw e (record {
        same_capacity = p.same_capacity;
        same_rate = p.same_rate;
        later = p.later;
        paid = p.paid;
      })
    ]

Pays-trans : (m n : ℕ) (a b c : TokenBucket) → Pays m a b → Pays n b c → Pays (m + n) a c
Pays-trans m n a b c p q = record {
  same_capacity = q.same_capacity ∙ p.same_capacity;
  same_rate = q.same_rate ∙ p.same_rate;
  later = omega (arith, p.later, q.later);
  paid =
      let r = rw p.same_rate at q.paid in
      omega (
        arith,
        p.paid,
        r,
        mul_split a.last_refill b.last_refill c.last_refill a.refill_per_second.tokens p.later
            q.later,
      );
}

spent_sum : (k n : ℕ) (a : Bool) → (if a then k else 0) + k * n ≡ k * ((if a then 1 else 0) + n)
spent_sum k n true = grind arith
spent_sum k n false = grind arith

Pays-take_all :
    (times : List ℕ) (b : TokenBucket)
    → Pays (token b.refill_per_second * (take_all times b).0) b (take_all times b).1
unfolding take_all
Pays-take_all [] b = record {
  same_capacity = refl;
  same_rate = refl;
  later = omega arith;
  paid = omega arith;
}
Pays-take_all (now ∷ times) b =
    let one = Pays-take now b in
    let left = (take now b).1 in
    let after = (take_all times left).1 in
    let count = (take_all times left).0 in
    let paid = Pays-trans _ _ b left after one (Pays-take_all times left) in
    let spent =
      ap (λ r. (if (take now b).0.allowed then token b.refill_per_second else 0) + token r * count)
        one.same_rate
      ∙ spent_sum (token b.refill_per_second) count (take now b).0.allowed in
    subst (λ n. Pays n b after) spent paid

take-last_refill :
    (now until : ℕ) (b : TokenBucket)
    → now ≤ until
    → b.last_refill ≤ until
    → (take now b).1.last_refill ≤ until
unfolding take refill
take-last_refill now until b h k = ground arith

take_all-last_refill :
    (times : List ℕ) (until : ℕ) (b : TokenBucket)
    → All (λ now. now ≤ until) times
    → b.last_refill ≤ until
    → (take_all times b).1.last_refill ≤ until
unfolding take_all
take_all-last_refill [] until b hs k = k
take_all-last_refill (now ∷ times) until b (h, hs) k =
    take_all-last_refill times until (take now b).1 hs (take-last_refill now until b h k)

new_bucket-fields :
    (capacity : ℕ) (rate : RefillRate) (start : ℕ) (b : TokenBucket)
    → new_bucket capacity rate start ≡ some b
    → (b.tokens ≡ capacity * token rate) × (b.refill_per_second ≡ rate) × (b.last_refill ≡ start)
unfolding new_bucket
new_bucket-fields capacity rate start b h = elim (Bool-cases (leb capacity 0)) [
  | inl e ↦ cc
  | inr e ↦ elim (Bool-cases (leb rate.tokens 0)) [
    | inl f ↦ cc
    | inr f ↦ (ground arith, ground arith, ground arith)
  ]
]

-- From when a bucket is made until some time, however the takes fall and even if the clock
-- goes back between them, no more are allowed than the capacity and what the rate adds in
-- that time, at any rate of so many tokens in so many seconds and any tick of the clock.
pub take_all_bounded :
    (capacity : ℕ) (rate : RefillRate) (start until : ℕ) (b : TokenBucket) (times : List ℕ)
    → new_bucket capacity rate start ≡ some b
    → start ≤ until
    → All (λ now. now ≤ until) times
    → token rate * (take_all times b).0 ≤ token rate * capacity + (until - start) * rate.tokens
take_all_bounded capacity rate start until b times made h hs =
    let (full, speed, from) = new_bucket-fields capacity rate start b made in
    let p = Pays-take_all times b in
    let last = take_all-last_refill times until b hs (omega (arith, from)) in
    let more =
      mul-le-mul_right {m = (take_all times b).1.last_refill - b.last_refill}
        {n = until - b.last_refill} b.refill_per_second.tokens (omega (arith, last)) in
    let held : b.tokens ≡ token b.refill_per_second * capacity =
      full
      ∙ ap (λ r. capacity * token r) (sym speed)
      ∙ mul_comm capacity (token b.refill_per_second) in
    rw (← speed, ← from) (omega (arith, held, p.paid, more))
