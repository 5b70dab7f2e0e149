-- ===== src/Schedule/Clock.antt =====
-- The time of a day: its text, and what the wall clock reads when it comes.
use gdrive_s.Base.{
  ℕ, ◌+◌, ◌-◌, ◌*◌, ◌/◌, ◌%◌, ◌<◌, ◌≡◌, ◌≢◌, inl, inr, Bool, true, false, ◌&&◌, some, [], ◌∷◌, Text,
  arith, leb, Bool-cases, split, if◌then◌else◌,
}
use gdrive_s.Schedule.{
  Zone, time_matches, hour_and_minute, less_offset, shows, zoned_time_to_instant, hour_ms,
  hour_matches, between, decimal_from,
}

-- A number below a hundred in two digits.
abbrev pub two_digits : ℕ → Text → Text
two_digits n rest = (b'0' + n / 10) ∷ (b'0' + n % 10) ∷ rest

-- HH:MM
abbrev pub clock_text : ℕ → ℕ → Text
clock_text hour minute = two_digits hour (b':' ∷ two_digits minute [])

split_clock :
    (h t m n : ℕ)
    → time_matches (some (h ∷ t ∷ b':' ∷ m ∷ n ∷ [])) ≡ true
    → split b':' (h ∷ t ∷ b':' ∷ m ∷ n ∷ []) ≡ (h ∷ t ∷ []) ∷ (m ∷ n ∷ []) ∷ []
unfolding split
split_clock h t m n e = ground arith

pub record IsClock (time : Text) (hour minute : ℕ) : Type 0 where
  pub text : time ≡ clock_text hour minute
  pub hours : hour < 24
  pub minutes : minute < 60

hour-digits :
    (h t : ℕ)
    → hour_matches h t ≡ true
    → (let n = decimal_from 0 (h ∷ t ∷ []) in (h ≡ b'0' + n / 10) × (t ≡ b'0' + n % 10) × (n < 24))
hour-digits h t e = ground arith

minute-digits :
    (m n : ℕ)
    → (between b'0' b'5' m && between b'0' b'9' n) ≡ true
    → (let k = decimal_from 0 (m ∷ n ∷ []) in (m ≡ b'0' + k / 10) × (n ≡ b'0' + k % 10) × (k < 60))
minute-digits m n e = ground arith

five_units-IsClock :
    (h t c m n : ℕ)
    → c ≡ b':'
    → time_matches (some (h ∷ t ∷ c ∷ m ∷ n ∷ [])) ≡ true
    → IsClock
        (h ∷ t ∷ c ∷ m ∷ n ∷ [])
        (hour_and_minute (split b':' (h ∷ t ∷ c ∷ m ∷ n ∷ []))).0
        (hour_and_minute (split b':' (h ∷ t ∷ c ∷ m ∷ n ∷ []))).1
five_units-IsClock h t c m n colon e =
    let e' : time_matches (some (h ∷ t ∷ b':' ∷ m ∷ n ∷ [])) ≡ true = rw colon at e in
    let (h_is, t_is, hours) = hour-digits h t (ground arith) in
    let (m_is, n_is, minutes) = minute-digits m n (ground arith) in
    rw colon (rw (split_clock h t m n e') (record { text = cc; hours = hours; minutes = minutes }))

pub time_matches-IsClock :
    (time : Text)
    → time_matches (some time) ≡ true
    → IsClock time (hour_and_minute (split b':' time)).0 (hour_and_minute (split b':' time)).1
time_matches-IsClock (h ∷ t ∷ c ∷ m ∷ n ∷ []) e = five_units-IsClock h t c m n (ground arith) e
time_matches-IsClock [] e = cc
time_matches-IsClock (h ∷ []) e = cc
time_matches-IsClock (h ∷ t ∷ []) e = cc
time_matches-IsClock (h ∷ t ∷ c ∷ []) e = cc
time_matches-IsClock (h ∷ t ∷ c ∷ m ∷ []) e = cc
time_matches-IsClock (h ∷ t ∷ c ∷ m ∷ n ∷ o ∷ rest) e = cc

-- The wall clock reads the time at the instant chosen, or at neither of the two instants that the
-- zone's offsets a day and a half before and after give: the clock skips the time.
pub data Reads (zone : Zone) (utc t : ℕ) : Type 0 where
  reads : zone t / 60 ≡ utc / 60000 → Reads zone utc t
  skipped :
      zone (less_offset zone utc (utc - 36 * hour_ms)) / 60 ≢ utc / 60000
      → zone (less_offset zone utc (utc + 36 * hour_ms)) / 60 ≢ utc / 60000
      → Reads zone utc t

shows-reads : (zone : Zone) (utc t : ℕ) → shows zone utc t ≡ true → Reads zone utc t
shows-reads zone utc t e = reads (ground arith)

unread : (zone : Zone) (utc t : ℕ) → shows zone utc t ≡ false → zone t / 60 ≢ utc / 60000
unread zone utc t e same = ground arith

chosen-Reads :
    (zone : Zone) (utc : ℕ) (x : Bool)
    → (let a = less_offset zone utc (utc - 36 * hour_ms) in
        let b = less_offset zone utc (utc + 36 * hour_ms) in
        let first = if x then a else b in
        let second = if x then b else a in
        Reads zone utc
          (if shows zone utc first then first else if shows zone utc second then second else a))
chosen-Reads zone utc x =
    let a = less_offset zone utc (utc - 36 * hour_ms) in
    let b = less_offset zone utc (utc + 36 * hour_ms) in
    let first = if x then a else b in
    let second = if x then b else a in
    elim (Bool-cases (shows zone utc first)) [
      | inl e ↦ rw e (shows-reads zone utc first e)
      | inr e ↦ elim (Bool-cases (shows zone utc second)) [
        | inl f ↦ rw e (rw f (shows-reads zone utc second f))
        | inr f ↦ rw e (rw f (neither zone utc x e f))
      ]
    ]
  where
    neither :
        (zone : Zone) (utc : ℕ) (x : Bool)
        → (let a = less_offset zone utc (utc - 36 * hour_ms) in
            let b = less_offset zone utc (utc + 36 * hour_ms) in
            shows zone utc (if x then a else b) ≡ false
            → shows zone utc (if x then b else a) ≡ false
            → Reads zone utc a)
    neither zone utc true e f = skipped (unread zone utc _ e) (unread zone utc _ f)
    neither zone utc false e f = skipped (unread zone utc _ f) (unread zone utc _ e)

pub zoned_time_to_instant-Reads :
    (zone : Zone) (utc : ℕ) → Reads zone utc (zoned_time_to_instant zone utc)
unfolding zoned_time_to_instant
zoned_time_to_instant-Reads zone utc =
    chosen-Reads zone utc
      (leb (less_offset zone utc (utc - 36 * hour_ms)) (less_offset zone utc (utc + 36 * hour_ms)))
