-- ===== src/Schedule.antt =====
-- backup/schedule-time.ts: when a backup schedule falls due.
-- A date is the number of its day and a wall clock its seconds, both counted from 1970 as Date.UTC
-- does; the runtime's conversions between these and the fields of a date are inverse to each other.
-- The time zone data is a parameter: what a zone's wall clock reads at an instant.
pub mod Normal
pub mod Clock
pub mod Next
mod Tests
use gdrive_s.Base.{
  ℕ, zero, suc, ◌+◌, ◌-◌, ◌*◌, ◌/◌, ◌%◌, max, String, Bool, true, false, not, ◌&&◌, ◌||◌, Option,
  none, some, List, [], ◌∷◌, if◌then◌else◌, eqb, leb, ltb, any, Text, split,
}
use gdrive_s.Store.Table.{order_by}

pub data ScheduleFrequency : Type 0 where
  interval daily weekly on_change unknown : ScheduleFrequency

-- A number of the input: a natural number, or one that is negative or no integer.
pub data Numeral : Type 0 where
  whole : ℕ → Numeral
  improper : Numeral

pub record ScheduleTiming : Type 0 where
  pub frequency : ScheduleFrequency
  pub interval_minutes : Option Numeral
  pub time_of_day : Option Text
  pub days_of_week : Option (List Numeral)
  pub timezone : String
  pub quiet_minutes : Option Numeral
  pub max_wait_minutes : Option Numeral

-- The seconds that the wall clock of a zone reads at an instant in milliseconds.
abbrev pub Zone : Type 0
Zone = ℕ → ℕ

abbrev pub max_interval_minutes : ℕ
max_interval_minutes = 10080

abbrev pub max_quiet_minutes : ℕ
max_quiet_minutes = 1440

abbrev pub max_wait_minutes_allowed : ℕ
max_wait_minutes_allowed = 10080

abbrev pub default_quiet_minutes : ℕ
default_quiet_minutes = 10

abbrev pub default_max_wait_minutes : ℕ
default_max_wait_minutes = 360

abbrev pub minute_ms : ℕ
minute_ms = 60000

abbrev pub hour_ms : ℕ
hour_ms = 3600000

abbrev pub on_change_check_ms : ℕ
on_change_check_ms = 60000

abbrev pub between : ℕ → ℕ → ℕ → Bool
between low high c = leb low c && leb c high

-- TIME_PATTERN
abbrev pub hour_matches : ℕ → ℕ → Bool
hour_matches h t =
    (between b'0' b'1' h && between b'0' b'9' t) || (eqb h b'2' && between b'0' b'3' t)

abbrev pub time_matches : Option Text → Bool
time_matches (some (h ∷ t ∷ c ∷ m ∷ n ∷ [])) =
    hour_matches h t && eqb c b':' && between b'0' b'5' m && between b'0' b'9' n
time_matches _ = false

-- A natural number between two bounds, which every test of the input asks for.
abbrev pub within : ℕ → ℕ → Numeral → Option ℕ
within low high improper = none
within low high (whole n) = if between low high n then some n else none

abbrev pub unused : String → ScheduleFrequency → ScheduleTiming
unused timezone frequency = record {
  frequency = frequency;
  interval_minutes = none;
  time_of_day = none;
  days_of_week = none;
  timezone = timezone;
  quiet_minutes = none;
  max_wait_minutes = none;
}

-- `[...new Set(days)]`, `sort` and the test of each day; a day that is no integer is refused.
abbrev pub insert_new_day : ℕ → List ℕ → List ℕ
insert_new_day d days = if any (eqb d) days then days else d ∷ days

abbrev pub add_day : ℕ → Option (List ℕ) → Option (List ℕ)
add_day d none = none
add_day d (some days) = if between 1 7 d then some (insert_new_day d days) else none

unfoldable pub proper_days : List Numeral → Option (List ℕ)
proper_days [] = some []
proper_days (improper ∷ rest) = none
proper_days (whole d ∷ rest) = add_day d (proper_days rest)

abbrev pub wholes : List ℕ → List Numeral
wholes [] = []
wholes (d ∷ days) = whole d ∷ wholes days

-- `sort`, and the refusal of an empty list.
abbrev pub sort_days : Option (List ℕ) → Option (List ℕ)
sort_days none = none
sort_days (some []) = none
sort_days (some (d ∷ rest)) = some (order_by ltb (d ∷ rest))

abbrev pub days_or_none : Option (List Numeral) → List Numeral
days_or_none none = []
days_or_none (some days) = days

abbrev pub interval_timing : String → Option ℕ → Option ScheduleTiming
interval_timing timezone none = none
interval_timing timezone (some n) =
    some (record (unused timezone interval) { interval_minutes = some (whole n) })

abbrev pub with_interval : ℕ → String → Option Numeral → Option ScheduleTiming
with_interval min_interval timezone none = none
with_interval min_interval timezone (some minutes) =
    interval_timing timezone (within min_interval max_interval_minutes minutes)

abbrev pub given_or : ℕ → Option Numeral → Numeral
given_or default none = whole default
given_or default (some n) = n

abbrev pub change_timing : String → ℕ → Option ℕ → Option ScheduleTiming
change_timing timezone quiet none = none
change_timing timezone quiet (some n) = some (record (unused timezone on_change) {
  quiet_minutes = some (whole quiet);
  max_wait_minutes = some (whole n);
})

abbrev pub with_quiet : String → Option ℕ → Option Numeral → Option ScheduleTiming
with_quiet timezone none wait = none
with_quiet timezone (some quiet) wait =
    change_timing timezone quiet
      (within quiet max_wait_minutes_allowed (given_or (max default_max_wait_minutes quiet) wait))

abbrev pub with_changes : String → Option Numeral → Option Numeral → Option ScheduleTiming
with_changes timezone quiet wait =
    with_quiet timezone (within 1 max_quiet_minutes (given_or default_quiet_minutes quiet)) wait

abbrev pub with_daily : String → Option Text → Option ScheduleTiming
with_daily timezone time =
    if time_matches time then some (record (unused timezone daily) { time_of_day = time }) else none

abbrev pub with_days : String → Option Text → Option (List ℕ) → Option ScheduleTiming
with_days timezone time none = none
with_days timezone time (some days) =
    some (record (unused timezone weekly) { time_of_day = time; days_of_week = some (wholes days) })

abbrev pub with_weekly : String → Option Text → Option (List Numeral) → Option ScheduleTiming
with_weekly timezone time days =
    if time_matches time
    then with_days timezone time (sort_days (proper_days (days_or_none days)))
    else none

abbrev pub normalize_as : ScheduleFrequency → ScheduleTiming → ℕ → Bool → Option ScheduleTiming
normalize_as interval input min_interval allow_on_change =
    with_interval min_interval input.timezone input.interval_minutes
normalize_as on_change input min_interval allow_on_change =
    if allow_on_change
    then with_changes input.timezone input.quiet_minutes input.max_wait_minutes
    else none
normalize_as daily input min_interval allow_on_change = with_daily input.timezone input.time_of_day
normalize_as weekly input min_interval allow_on_change =
    with_weekly input.timezone input.time_of_day input.days_of_week
normalize_as unknown input min_interval allow_on_change = none

-- `none` is a ScheduleInputError.
unfoldable pub normalize_timing :
    (String → Bool) → ScheduleTiming → ℕ → Bool → Option ScheduleTiming
unfolding proper_days order_by
normalize_timing is_valid_time_zone input min_interval allow_on_change =
    if is_valid_time_zone input.timezone
    then normalize_as input.frequency input min_interval allow_on_change
    else none

-- `Number` of a text of digits.
abbrev pub decimal_from : ℕ → Text → ℕ
decimal_from n [] = n
decimal_from n (c ∷ s) = decimal_from (10 * n + (c - b'0')) s

abbrev pub hour_and_minute : List Text → ℕ × ℕ
hour_and_minute (hour ∷ minute ∷ rest) = (decimal_from 0 hour, decimal_from 0 minute)
hour_and_minute _ = (0, 0)

-- The start of a minute of a day, in milliseconds of the wall clock.
abbrev pub as_utc : ℕ → ℕ × ℕ → ℕ
as_utc day (hour, minute) = 86400000 * day + hour_ms * hour + minute_ms * minute

-- `asUtc - offsetAt(instant)`
abbrev pub less_offset : Zone → ℕ → ℕ → ℕ
less_offset zone utc instant = utc + 1000 * (instant / 1000) - 1000 * zone instant

abbrev pub shows : Zone → ℕ → ℕ → Bool
shows zone utc instant = eqb (zone instant / 60) (utc / minute_ms)

-- The candidates in ascending order, then the fallback; a candidate that both offsets give is tried
-- twice, which changes nothing.
unfoldable pub zoned_time_to_instant : Zone → ℕ → ℕ
zoned_time_to_instant zone utc =
    let a = less_offset zone utc (utc - 36 * hour_ms) in
    let b = less_offset zone utc (utc + 36 * hour_ms) in
    let first = if leb a b then a else b in
    let second = if leb a b then b else a in
    if shows zone utc first then first else if shows zone utc second then second else a

abbrev pub iso_weekday : ℕ → ℕ
iso_weekday day = if eqb ((day + 4) % 7) 0 then 7 else (day + 4) % 7

abbrev pub is_whole : ℕ → Numeral → Bool
is_whole d improper = false
is_whole d (whole n) = eqb n d

abbrev pub includes : Option (List Numeral) → ℕ → Bool
includes none d = false
includes (some days) d = any (is_whole d) days

abbrev pub runs_as : ScheduleFrequency → ScheduleTiming → ℕ → Bool
runs_as weekly timing day = includes timing.days_of_week (iso_weekday day)
runs_as _ timing day = true

abbrev pub runs_on : ScheduleTiming → ℕ → Bool
runs_on timing day = runs_as timing.frequency timing day

abbrev pub candidate : Zone → ScheduleTiming → ℕ → ℕ
candidate zone timing day = elim timing.time_of_day [
  | none ↦ 0
  | some time ↦ zoned_time_to_instant zone (as_utc day (hour_and_minute (split b':' time)))
]

-- The loop over the days that are left; `none` is the error after it.
unfoldable pub first_run : Zone → ScheduleTiming → ℕ → ℕ → ℕ → Option ℕ
first_run zone timing after day zero = none
first_run zone timing after day (suc left) =
    let later = first_run zone timing after (day + 1) left in
    let instant = candidate zone timing day in
    if runs_on timing day && ltb after instant then some instant else later

abbrev pub after_minutes : ℕ → Option Numeral → Option ℕ
after_minutes after (some (whole n)) = some (after + n * minute_ms)
after_minutes after _ = none

unfoldable pub next_run_as : ScheduleFrequency → Zone → ScheduleTiming → ℕ → Option ℕ
unfolding first_run zoned_time_to_instant
next_run_as interval zone timing after = after_minutes after timing.interval_minutes
next_run_as on_change zone timing after = some (after + on_change_check_ms)
next_run_as _ zone timing after = first_run zone timing after (zone after / 86400) 9

unfoldable pub next_run_at : Zone → ScheduleTiming → ℕ → Option ℕ
unfolding next_run_as
next_run_at zone timing after = next_run_as timing.frequency zone timing after
