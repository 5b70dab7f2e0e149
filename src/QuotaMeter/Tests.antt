-- ===== src/QuotaMeter/Tests.antt =====
-- Tests and witnesses of the quota meter.
use gdrive_s.Base.{ℕ, ◌≡◌, refl, Bool, true, false, none, some, List, [], ◌∷◌, arith}
use gdrive_s.QuotaMeter.Ring.{DriveCallKind, api, upload, download}
use gdrive_s.QuotaMeter.Meter.{window}
use gdrive_s.QuotaMeter.Exact.{share_since}
use gdrive_s.QuotaMeter.Windows.{
  Call, meter_after, InTime, calls_since, one, if_throttled, if_failed, is_kind, window_exact,
}

abbrev if_status : Bool → ℕ
if_status true = 429
if_status false = 200

abbrev call : DriveCallKind → Bool → ℕ → Call
call kind throttled at_ms = (
  at_ms,
  record {
    user_id = some "ada";
    kind = kind;
    status = if_status throttled;
    throttled = throttled;
    reason = none;
    retry_after_ms = none;
    at_ms = none;
  },
)

-- The last call is a thousand seconds after the first.
abbrev calls : List Call
calls = call upload true 1_000_500 ∷ call api false 990_000 ∷ call api false 500 ∷ []

calls_tests :
    (calls_since one 60 1_000_700 calls ≡ 2)
    × (calls_since one 3600 1_000_700 calls ≡ 3)
    × (calls_since if_throttled 3600 1_000_700 calls ≡ 1)
unfolding share_since
calls_tests = (refl, refl, refl)

calls-InTime : InTime 1_000_700 calls
calls-InTime = (omega arith, (omega arith, (omega arith, tt)))

window_exact_example :
    ((window 60 1_000_700 (meter_after 0 calls)).requests ≡ calls_since one 60 1_000_700 calls)
    × ((window 60 1_000_700 (meter_after 0 calls)).throttled
        ≡ calls_since if_throttled 60 1_000_700 calls)
    × ((window 60 1_000_700 (meter_after 0 calls)).errors
        ≡ calls_since if_failed 60 1_000_700 calls)
    × ((window 60 1_000_700 (meter_after 0 calls)).api_calls
        ≡ calls_since (λ c. is_kind api c.kind) 60 1_000_700 calls)
    × ((window 60 1_000_700 (meter_after 0 calls)).upload_calls
        ≡ calls_since (λ c. is_kind upload c.kind) 60 1_000_700 calls)
    × ((window 60 1_000_700 (meter_after 0 calls)).download_calls
        ≡ calls_since (λ c. is_kind download c.kind) 60 1_000_700 calls)
window_exact_example = window_exact 0 1_000_700 60 calls (omega arith) calls-InTime
