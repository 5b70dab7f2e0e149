-- ===== src/ObjectLock/Replace.antt =====
-- When `canReplaceRetention` lets a retention be replaced: s3/object-lock.ts.
use gdrive_s.Base.{
  ℕ, String, ◌≡◌, ◌≤◌, ◌≢◌, Bool, true, Option, some, arith, eq_iff, holds_iff, text_key, inl, inr,
  ◌⊎◌, ◌↔◌, none, Bool-cases, Option-cases,
}
use gdrive_s.ObjectLock.{
  Dates, LockState, retention_active, replace_until, can_replace_retention, extends, current_until,
}

-- The stored date is a date, and `next` is no earlier.
abbrev pub Extends : Dates → Option String → ℕ → Type 0
Extends d none next = ⊥
Extends d (some raw) next = (t : ℕ) × (d.parse raw ≡ some t) × (t ≤ next)

pub extends_iff :
    (d : Dates) (raw : Option String) (next : ℕ)
    → (extends (current_until d raw) next ≡ true) ↔ Extends d raw next
unfolding extends current_until
extends_iff d none next = ground (arith, d.parse_empty)
extends_iff d (some raw) next = elim (Option-cases (d.parse raw)) [
  | inl nan ↦ ground arith
  | inr (t, e) ↦ (λ h. (t, e, ground arith), λ h. ground (arith, h.1, h.2))
]

-- What a running retention lets a new one do: end no earlier without leaving COMPLIANCE mode, or,
-- outside COMPLIANCE mode, anything that is a date, if the owner asks for the bypass.
pub record MayReplace (d : Dates) (s : LockState) (next mode : String) (bypass owner : Bool)
    : Type 0 where
  pub date : ℕ
  pub parsed : d.parse next ≡ some date
  pub rule :
      (Extends d s.retain_until date × ((s.lock_mode ≢ some "COMPLIANCE") ⊎ (mode ≡ "COMPLIANCE")))
      ⊎ ((s.lock_mode ≢ some "COMPLIANCE") × (bypass ≡ true) × (owner ≡ true))

module _ (d : Dates) (s : LockState) (next mode : String) (bypass owner : Bool) where
  replace_until_iff :
      (date : ℕ)
      → (replace_until d s date mode bypass owner ≡ true) ↔ (
          (Extends d s.retain_until date
            × ((s.lock_mode ≢ some "COMPLIANCE") ⊎ (mode ≡ "COMPLIANCE")))
          ⊎ ((s.lock_mode ≢ some "COMPLIANCE") × (bypass ≡ true) × (owner ≡ true)))
  unfolding replace_until
  replace_until_iff date =
      let (to, from) = extends_iff d s.retain_until date in
      (
        λ h. elim (Bool-cases (extends (current_until d s.retain_until) date)) [
          | inl later ↦ inl (
            to later,
            ground (arith, holds_iff s.lock_mode "COMPLIANCE", eq_iff mode "COMPLIANCE"),
          )
          | inr earlier ↦ inr (ground (arith, holds_iff s.lock_mode "COMPLIANCE"))
        ],
        λ h. ground (arith, from, h, holds_iff s.lock_mode "COMPLIANCE", eq_iff mode "COMPLIANCE"),
      )

  -- While a retention runs, a new one is accepted exactly when `MayReplace` holds.
  pub can_replace_retention_iff :
      (now : ℕ)
      → retention_active d s now ≡ true
      → (can_replace_retention d s next mode bypass owner now ≡ true)
        ↔ MayReplace d s next mode bypass owner
  unfolding can_replace_retention
  can_replace_retention_iff now active = elim (Option-cases (d.parse next)) [
    | inl nan ↦ (λ h. ground arith, λ m. ground (arith, m.parsed))
    | inr (t, e) ↦ (
      λ h. record { date = t; parsed = e; rule = (replace_until_iff t).0 (ground arith) },
      λ m.
          let same : m.date ≡ t = ground (arith, m.parsed) in
          let granted = (replace_until_iff m.date).1 m.rule in ground arith,
    )
  ]
