-- ===== src/Schedule/Next.antt =====
-- The next run of a timing that was accepted.
use gdrive_s.Base.{
  ℕ, zero, suc, ◌+◌, ◌-◌, ◌*◌, ◌/◌, ◌%◌, ◌≤◌, ◌<◌, ◌≡◌, refl, ap, ◌∙◌, sym, String, Bool, true,
  false, ◌&&◌, some, eqb, eqb_iff, leb, ltb, Text, arith, Bool-cases, inl, inr, if◌then◌else◌,
  split,
}
use mathlib.Core.Path.{subst}
use gdrive_s.Schedule.{
  ScheduleFrequency, interval, daily, weekly, on_change, unknown, ScheduleTiming, Zone, as_utc,
  less_offset, zoned_time_to_instant, iso_weekday, includes, runs_as, runs_on, candidate, first_run,
  after_minutes, next_run_as, next_run_at, normalize_timing, hour_and_minute, hour_ms, time_matches,
}
use gdrive_s.Schedule.Clock.{IsClock, time_matches-IsClock, Reads, zoned_time_to_instant-Reads}
use gdrive_s.Schedule.Normal.{NormalAs, normalize_timing-IsNormal}

-- The offsets of a zone are less than a day apart.
abbrev pub IsSteady : Zone → Type 0
IsSteady zone = (s t : ℕ) → zone s + t / 1000 < zone t + s / 1000 + 86400

less_offset-later :
    (zone : Zone) (after utc i : ℕ)
    → zone i + after / 1000 < zone after + i / 1000 + 86400
    → 86400000 * (zone after / 86400 + 2) ≤ utc
    → after < less_offset zone utc i
less_offset-later zone after utc i steady far = omega arith

chosen-later :
    (after a b : ℕ) (x y : Bool)
    → after < a
    → after < b
    → after < (if x then if leb a b then a else b else if y then if leb a b then b else a else a)
chosen-later after a b x y ha hb = ground arith

-- A time two days ahead on the wall clock is ahead.
zoned-later :
    (zone : Zone) (after utc : ℕ)
    → IsSteady zone
    → 86400000 * (zone after / 86400 + 2) ≤ utc
    → after < zoned_time_to_instant zone utc
unfolding zoned_time_to_instant
zoned-later zone after utc steady far =
    let before = utc - 36 * hour_ms in
    let beyond = utc + 36 * hour_ms in
    chosen-later after (less_offset zone utc before) (less_offset zone utc beyond) _ _
      (less_offset-later zone after utc before (steady before after) far)
      (less_offset-later zone after utc beyond (steady beyond after) far)

-- Every weekday is one of any seven days in a row.
iso-met : (m d : ℕ) → 1 ≤ d → d ≤ 7 → m ≡ d % 7 → (if eqb m 0 then 7 else m) ≡ d
iso-met m d low high e = ground arith

days_until : ℕ → ℕ → ℕ
days_until day d = (d + 14 - (day + 4) % 7) % 7

days_until-met : (day d : ℕ) → (day + days_until day d + 4) % 7 ≡ d % 7
unfolding days_until
days_until-met day d = omega arith

days_until-lt : (day d : ℕ) → days_until day d < 7
unfolding days_until
days_until-lt day d = omega arith

weekday-met : (day d : ℕ) → 1 ≤ d → d ≤ 7 → iso_weekday (day + days_until day d) ≡ d
weekday-met day d low high = iso-met _ d low high (days_until-met day d)

-- The first day of the loop, from a day on, that the timing runs on and whose time is ahead.
pub record FirstDue (zone : Zone) (timing : ScheduleTiming) (after start t : ℕ) : Type 0 where
  pub day : ℕ
  pub from : start ≤ day
  pub runs : runs_on timing day ≡ true
  pub is : t ≡ candidate zone timing day
  pub later : after < t
  pub first :
      (d : ℕ) → start ≤ d → d < day → runs_on timing d ≡ true → candidate zone timing d ≤ after

passed :
    (zone : Zone) (timing : ScheduleTiming) (after d : ℕ)
    → (runs_on timing d && ltb after (candidate zone timing d)) ≡ false
    → runs_on timing d ≡ true
    → candidate zone timing d ≤ after
passed zone timing after d miss runs = ground arith

FirstDue-earlier :
    (zone : Zone) (timing : ScheduleTiming) (after start t : ℕ)
    → (runs_on timing start && ltb after (candidate zone timing start)) ≡ false
    → FirstDue zone timing after (start + 1) t
    → FirstDue zone timing after start t
FirstDue-earlier zone timing after start t miss f = record {
  day = f.day;
  from = omega (arith, f.from);
  runs = f.runs;
  is = f.is;
  later = f.later;
  first = λ d low high runs. elim (Bool-cases (eqb d start)) [
    | inl same ↦
        let e = (eqb_iff d start).0 same in
        subst (λ x. candidate zone timing x ≤ after) (sym e)
          (passed zone timing after start miss (subst (λ x. runs_on timing x ≡ true) e runs))
    | inr other ↦ f.first d (ground arith) high runs
  ];
}

first_run-FirstDue :
    (zone : Zone) (timing : ScheduleTiming) (after left start day : ℕ)
    → start ≤ day
    → day < start + left
    → runs_on timing day ≡ true
    → after < candidate zone timing day
    → (t : ℕ) × (first_run zone timing after start left ≡ some t)
      × FirstDue zone timing after start t
unfolding first_run
first_run-FirstDue zone timing after zero start day low h runs ahead = absurd (omega arith)
first_run-FirstDue zone timing after (suc left) start day low h runs ahead =
    elim (Bool-cases (runs_on timing start && ltb after (candidate zone timing start))) [
      | inl now ↦ (
        candidate zone timing start,
        rw now refl,
        record {
          day = start;
          from = omega arith;
          runs = ground arith;
          is = refl;
          later = ground arith;
          first = λ d low high. absurd (omega arith);
        },
      )
      | inr miss ↦ elim (Bool-cases (eqb day start)) [
        | inl same ↦
            let e = (eqb_iff day start).0 same in
            let late =
              passed zone timing after start miss (subst (λ x. runs_on timing x ≡ true) e runs) in
            absurd (omega (arith, late, subst (λ x. after < candidate zone timing x) e ahead))
        | inr other ↦
            let rest =
              first_run-FirstDue zone timing after left (start + 1) day (ground arith) (omega arith)
                runs ahead in
            (rest.0, rw miss rest.1, FirstDue-earlier zone timing after start rest.0 miss rest.2)
      ]
    ]

-- That day at the time of the timing, which the wall clock reads then unless it skips it.
pub record AtItsTime (zone : Zone) (timing : ScheduleTiming) (after start t : ℕ) : Type 0 where
  pub due : FirstDue zone timing after start t
  pub text : Text
  pub time : timing.time_of_day ≡ some text
  pub hour : ℕ
  pub minute : ℕ
  pub clock : IsClock text hour minute
  pub reads : Reads zone (86400000 * due.day + 3600000 * hour + 60000 * minute) t

at_its_time :
    (zone : Zone) (timing : ScheduleTiming) (after start t : ℕ) (s : Text)
    → timing.time_of_day ≡ some s
    → time_matches (some s) ≡ true
    → FirstDue zone timing after start t
    → AtItsTime zone timing after start t
at_its_time zone timing after start t s time matches due =
    let (hour, minute) = hour_and_minute (split b':' s) in
    let utc = 86400000 * due.day + 3600000 * hour + 60000 * minute in
    let same : candidate zone timing due.day ≡ zoned_time_to_instant zone utc = rw time refl in
    record {
      due = due;
      text = s;
      time = time;
      hour = hour;
      minute = minute;
      clock = time_matches-IsClock s matches;
      reads =
          subst (λ x. Reads zone utc x) (sym (due.is ∙ same))
            (zoned_time_to_instant-Reads zone utc);
    }

-- By its frequency, when a timing falls due after a moment.
abbrev pub NextAs : ScheduleFrequency → Zone → ScheduleTiming → ℕ → ℕ → Type 0
NextAs interval zone timing after t = after < t
NextAs on_change zone timing after t = t ≡ after + 60000
NextAs daily zone timing after t = AtItsTime zone timing after (zone after / 86400) t
NextAs weekly zone timing after t = AtItsTime zone timing after (zone after / 86400) t
NextAs unknown zone timing after t = ⊥

abbrev pub FallsDue : Zone → ScheduleTiming → ℕ → Type 0
FallsDue zone timing after =
    (t : ℕ) × (next_run_at zone timing after ≡ some t) × NextAs timing.frequency zone timing after t

module _ (zone : Zone) (timing : ScheduleTiming) (after : ℕ) (steady : IsSteady zone) where
  -- The time of a day that lies two days ahead.
  candidate-later :
      (s : Text) (day : ℕ)
      → timing.time_of_day ≡ some s
      → zone after / 86400 + 2 ≤ day
      → after < candidate zone timing day
  candidate-later s day e far =
      let at = hour_and_minute (split b':' s) in
      let start : 86400000 * (zone after / 86400 + 2) ≤ as_utc day at = omega arith in
      rw e (zoned-later zone after (as_utc day at) steady start)

  by_frequency :
      (f : ScheduleFrequency) (t : ℕ)
      → timing.frequency ≡ f
      → next_run_as f zone timing after ≡ some t
      → next_run_at zone timing after ≡ some t
  unfolding next_run_at
  by_frequency f t e h = ap (λ x. next_run_as x zone timing after) e ∙ h

  next_as :
      (f : ScheduleFrequency) (min_interval : ℕ)
      → timing.frequency ≡ f
      → NormalAs f timing min_interval
      → 0 < min_interval
      → (t : ℕ) × (next_run_at zone timing after ≡ some t) × NextAs f zone timing after t
  unfolding next_run_as
  next_as interval m e (n, minutes, low, high) h =
      (after + n * 60000, by_frequency interval _ e (ap (after_minutes after) minutes), omega arith)
  next_as on_change m e normal h = (after + 60000, by_frequency on_change _ e refl, refl)
  next_as daily m e (s, time, matches) h =
      let day = zone after / 86400 in
      let found =
        first_run-FirstDue zone timing after 9 day (day + 2) (omega arith) (omega arith)
          (ap (λ f. runs_as f timing (day + 2)) e)
          (candidate-later s (day + 2) time (omega arith)) in
      (
        found.0,
        by_frequency daily _ e found.1,
        at_its_time zone timing after day found.0 s time matches found.2,
      )
  next_as weekly m e (s, time, matches, (d, low, high, there)) h =
      let day = zone after / 86400 in
      let k = days_until (day + 2) d in
      let short = days_until-lt (day + 2) d in
      let met = weekday-met (day + 2) d low high in
      let found =
        first_run-FirstDue zone timing after 9 day (day + 2 + k) (omega arith) (omega arith)
          (ap (λ f. runs_as f timing (day + 2 + k)) e
            ∙ ap (includes timing.days_of_week) met
            ∙ there)
          (candidate-later s (day + 2 + k) time (omega arith)) in
      (
        found.0,
        by_frequency weekly _ e found.1,
        at_its_time zone timing after day found.0 s time matches found.2,
      )
  next_as unknown m e normal h = absurd normal

pub next_run_at-FallsDue :
    (valid : String → Bool) (input : ScheduleTiming) (min_interval : ℕ) (allow : Bool)
    (timing : ScheduleTiming) (zone : Zone) (after : ℕ)
    → normalize_timing valid input min_interval allow ≡ some timing
    → 0 < min_interval
    → IsSteady zone
    → FallsDue zone timing after
next_run_at-FallsDue valid input m allow timing zone after accepted positive steady =
    next_as zone timing after steady timing.frequency m refl
      (normalize_timing-IsNormal valid input m allow timing accepted) positive
