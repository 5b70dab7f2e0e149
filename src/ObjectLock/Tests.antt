-- ===== src/ObjectLock/Tests.antt =====
-- Tests and witnesses of the object lock.
use gdrive_s.Base.{
  ℕ, String, ◌≡◌, ◌≢◌, ◌⊎◌, inl, inr, refl, true, false, Option, none, some, List, [], ◌∷◌, arith,
  eqb, ◌==◌, text_key, if◌then◌else◌,
}
use gdrive_s.S3Error.{ok, err, access_denied, invalid_request}
use gdrive_s.ObjectLock.{
  Dates, LockState, LockBucket, allowed, blocked_by_legal_hold, blocked_by_compliance,
  retention_active, evaluate_delete, put_object_retention, parse_lock_headers, extends,
  current_until,
}
use gdrive_s.ObjectLock.Compliance.{
  LockEvent, retention, legal_hold, serve_all, compliance_holds, IsCompliant,
}

abbrev two_parse : String → Option ℕ
two_parse s = if s == "2030" then some 100 else if s == "2031" then some 200 else none

abbrev two_iso : ℕ → String
two_iso t = if eqb t 100 then "2030" else "2031"

two_parse-two_iso : (s : String) (t : ℕ) → two_parse s ≡ some t → two_parse (two_iso t) ≡ some t
two_parse-two_iso s t h = elim two_values [ inl e ↦ rw e refl | inr e ↦ rw e refl ]
  where
    two_values : (t ≡ 100) ⊎ (t ≡ 200)
    two_values = ground arith

abbrev two_dates : Dates
two_dates = record {
  parse = two_parse;
  to_iso = two_iso;
  parse_empty = refl;
  parse-to_iso = two_parse-two_iso;
}

abbrev locked : LockState
locked = record { lock_mode = some "COMPLIANCE"; retain_until = some "2030"; legal_hold = 0 }

abbrev governed : LockState
governed = record { lock_mode = some "GOVERNANCE"; retain_until = some "2031"; legal_hold = 0 }

abbrev bucket : LockBucket
bucket = record { user_id = "ann"; object_lock_enabled = true }

delete_tests :
    (evaluate_delete two_dates locked true true 99 ≡ blocked_by_compliance)
    × (evaluate_delete two_dates locked false false 100 ≡ allowed)
    × (evaluate_delete two_dates governed true true 99 ≡ allowed)
    × (evaluate_delete two_dates (record governed { legal_hold = 1 }) true true 99
        ≡ blocked_by_legal_hold)
unfolding evaluate_delete retention_active
delete_tests = (refl, refl, refl, refl)

retention_tests :
    (put_object_retention two_dates
        (ok "ann")
        (ok bucket)
        (ok locked)
        (some "GOVERNANCE")
        (some "2031")
        (some "true")
        5
      ≡ err access_denied)
    × (put_object_retention two_dates
          (ok "bob")
          (ok bucket)
          (ok locked)
          (some "COMPLIANCE")
          (some "2031")
          none
          5
        ≡ ok (record locked { retain_until = some "2031" }))
    × (parse_lock_headers two_dates (some "GOVERNANCE") none none ≡ err invalid_request)
unfolding put_object_retention parse_lock_headers retention_active extends current_until
retention_tests = (refl, refl, refl)

locked-IsCompliant : IsCompliant two_dates 100 locked
locked-IsCompliant = record {
  raw = "2030";
  until = 100;
  mode = refl;
  stored = refl;
  parsed = refl;
  late = omega arith;
}

abbrev attack : List LockEvent
attack =
    retention 5 (ok "ann") (ok bucket) (some "GOVERNANCE") (some "2031") (some "true")
    ∷ legal_hold 6 (ok "ann") (ok bucket) (some "OFF")
    ∷ retention 7 (ok "ann") (ok bucket) (some "COMPLIANCE") (some "2031") none
    ∷ []

compliance_holds_example :
    evaluate_delete two_dates (serve_all two_dates locked attack) true true 99 ≢ allowed
compliance_holds_example =
    compliance_holds two_dates 100 locked attack true true 99 locked-IsCompliant (omega arith)
      (omega arith)

governed-active : retention_active two_dates governed 5 ≡ true
unfolding retention_active
governed-active = refl
