-- ===== src/ObjectLock/Compliance.antt =====
-- A COMPLIANCE retention against any sequence of lock requests: s3/operations/lock.ts.
use gdrive_s.Base.{
  ℕ, String, ◌≡◌, ◌≤◌, ◌<◌, ◌≢◌, Bool, true, Option, some, List, [], ◌∷◌, arith, All, eq_iff,
  holds_iff, text_key, ◌==◌, inl, inr, refl, ap, ◌∙◌, Option-cases,
}
use gdrive_s.S3Error.{Result, ok, err}
use gdrive_s.ObjectLock.{
  Dates, LockState, LockBucket, allowed, retention_active, evaluate_delete, can_replace_retention,
  put_object_retention, put_object_legal_hold, bypass_requested,
}
use gdrive_s.ObjectLock.Delete.{evaluate_delete-allowed_iff}
use gdrive_s.ObjectLock.Replace.{extends_iff}

-- A request that may change a version's lock, with the time at which it is served.
pub data LockEvent : Type 0 where
  retention :
      ℕ
      → Result String
      → Result LockBucket
      → Option String
      → Option String
      → Option String
      → LockEvent
  legal_hold : ℕ → Result String → Result LockBucket → Option String → LockEvent

abbrev pub time : LockEvent → ℕ
time (retention now _ _ _ _ _) = now
time (legal_hold now _ _ _) = now

-- A refused request leaves the row as it was.
abbrev kept : LockState → Result LockState → LockState
kept s (ok s') = s'
kept s (err e) = s

module _ (d : Dates) where
  pub serve : LockState → LockEvent → LockState
  serve s (retention now user bucket mode until bypass) =
      kept s (put_object_retention d user bucket (ok s) mode until bypass now)
  serve s (legal_hold now user bucket status) =
      kept s (put_object_legal_hold user bucket (ok s) status)

  pub serve_all : LockState → List LockEvent → LockState
  unfolding serve
  serve_all s [] = s
  serve_all s (e ∷ es) = serve_all (serve s e) es

  -- A COMPLIANCE retention that runs until `u` at least.
  pub record IsCompliant (u : ℕ) (s : LockState) : Type 0 where
    pub raw : String
    pub until : ℕ
    pub mode : s.lock_mode ≡ some "COMPLIANCE"
    pub stored : s.retain_until ≡ some raw
    pub parsed : d.parse raw ≡ some until
    pub late : u ≤ until

  IsCompliant-active :
      {u : ℕ} {s : LockState} (now : ℕ)
      → IsCompliant u s
      → now < u
      → retention_active d s now ≡ true
  unfolding retention_active
  IsCompliant-active now c before = ground (
    arith,
    c.mode,
    c.stored,
    c.parsed,
    c.late,
    eq_iff c.raw "",
    d.parse_empty,
    eq_iff "COMPLIANCE" "",
  )

  -- In COMPLIANCE mode a running retention is replaced only by one of the same mode that ends no
  -- earlier.
  can_replace-keeps :
      {u : ℕ} {s : LockState} (now : ℕ) (next mode : String) (bypass owner : Bool)
      → IsCompliant u s
      → now < u
      → can_replace_retention d s next mode bypass owner now ≡ true
      → (t : ℕ) × (mode ≡ "COMPLIANCE") × (d.parse next ≡ some t) × (u ≤ t)
  unfolding can_replace_retention
  can_replace-keeps {s = s} now next mode bypass owner c before h =
      elim (Option-cases (d.parse next)) [
        | inl nan ↦ ground (arith, IsCompliant-active now c before)
        | inr (t, e) ↦ (
          t,
          ground (
            arith,
            IsCompliant-active now c before,
            extends_iff d s.retain_until t,
            c.mode,
            c.stored,
            c.parsed,
            c.late,
            holds_iff s.lock_mode "COMPLIANCE",
            eq_iff mode "COMPLIANCE",
          ),
          e,
          ground (
            arith,
            IsCompliant-active now c before,
            extends_iff d s.retain_until t,
            c.mode,
            c.stored,
            c.parsed,
            c.late,
            holds_iff s.lock_mode "COMPLIANCE",
          ),
        )
      ]

  -- What a granted retention request has passed, and what it stores.
  pub record Replaced (s s' : LockState) (now : ℕ) : Type 0 where
    pub mode : String
    pub until : String
    pub bypass : Bool
    pub owner : Bool
    pub granted : can_replace_retention d s until mode bypass owner now ≡ true
    pub stored : s' ≡ record s { lock_mode = some mode; retain_until = some until }

  put_object_retention-Replaced :
      {s s' : LockState} (now : ℕ) (user : Result String) (bucket : Result LockBucket)
      (mode until bypass : Option String)
      → put_object_retention d user bucket (ok s) mode until bypass now ≡ ok s'
      → Replaced s s' now
  unfolding put_object_retention
  put_object_retention-Replaced {s} {s'} now (ok user) (ok bucket) (some mode) (some until) bypass
        h =
      elim (Option-cases (d.parse until)) [
        | inl nan ↦ ground arith
        | inr (t, e) ↦ record {
          mode = mode;
          until = d.to_iso t;
          bypass = bypass_requested bypass;
          owner = user == bucket.user_id;
          granted = ground arith;
          stored = ground arith;
        }
      ]
  put_object_retention-Replaced now _ _ _ _ bypass h = ground arith

  put_object_legal_hold-lock :
      (s s' : LockState) (user : Result String) (bucket : Result LockBucket)
      (status : Option String)
      → put_object_legal_hold user bucket (ok s) status ≡ ok s'
      → (s'.lock_mode ≡ s.lock_mode) × (s'.retain_until ≡ s.retain_until)
  unfolding put_object_legal_hold
  put_object_legal_hold-lock s s' (ok user) (ok bucket) status h = ground arith
  put_object_legal_hold-lock s s' _ _ status h = ground arith

  Replaced-IsCompliant :
      {u : ℕ} {s s' : LockState} (now : ℕ)
      → IsCompliant u s
      → now < u
      → Replaced s s' now
      → IsCompliant u s'
  Replaced-IsCompliant now c before r =
      let (t, mode, parsed, late) =
        can_replace-keeps now r.until r.mode r.bypass r.owner c before r.granted in
      record {
        raw = r.until;
        until = t;
        mode = cc (ap (λ (x : LockState). x.lock_mode) r.stored);
        stored = cc (ap (λ (x : LockState). x.retain_until) r.stored);
        parsed = parsed;
        late = late;
      }

  IsCompliant-same :
      {u : ℕ} {s s' : LockState}
      → s'.lock_mode ≡ s.lock_mode
      → s'.retain_until ≡ s.retain_until
      → IsCompliant u s
      → IsCompliant u s'
  IsCompliant-same p q c = record {
    raw = c.raw;
    until = c.until;
    mode = p ∙ c.mode;
    stored = q ∙ c.stored;
    parsed = c.parsed;
    late = c.late;
  }

  serve-IsCompliant :
      {u : ℕ} {s : LockState} (e : LockEvent)
      → IsCompliant u s
      → time e < u
      → IsCompliant u (serve s e)
  unfolding serve
  serve-IsCompliant {u} {s} (retention now user bucket mode until bypass) c before =
      go (put_object_retention d user bucket (ok s) mode until bypass now) refl
    where
      go :
          (r : Result LockState)
          → put_object_retention d user bucket (ok s) mode until bypass now ≡ r
          → IsCompliant u (kept s r)
      go (ok s') h =
          Replaced-IsCompliant now c before
            (put_object_retention-Replaced now user bucket mode until bypass h)
      go (err e) h = c
  serve-IsCompliant {u} {s} (legal_hold now user bucket status) c before =
      go (put_object_legal_hold user bucket (ok s) status) refl
    where
      go :
          (r : Result LockState)
          → put_object_legal_hold user bucket (ok s) status ≡ r
          → IsCompliant u (kept s r)
      go (ok s') h =
          let (p, q) = put_object_legal_hold-lock s s' user bucket status h in
          IsCompliant-same p q c
      go (err e) h = c

  serve_all-IsCompliant :
      {u : ℕ} (s : LockState) (es : List LockEvent)
      → IsCompliant u s
      → All (λ e. time e < u) es
      → IsCompliant u (serve_all s es)
  unfolding serve_all
  serve_all-IsCompliant s [] c h = c
  serve_all-IsCompliant s (e ∷ es) c h =
      serve_all-IsCompliant (serve s e) es (serve-IsCompliant e c h.0) h.1

  IsCompliant-not_deletable :
      {u : ℕ} {s : LockState} (bypass owner : Bool) (now : ℕ)
      → IsCompliant u s
      → now < u
      → evaluate_delete d s bypass owner now ≢ allowed
  IsCompliant-not_deletable {s = s} bypass owner now c before h =
      let m = (evaluate_delete-allowed_iff d s bypass owner now).0 h in
      ground (arith, m.over, c.mode, IsCompliant-active now c before)

-- While a COMPLIANCE retention that ends at `u` or later runs, no sequence of retention and legal
-- hold requests, whoever sends them and whatever they ask for, makes the version deletable, with
-- or without the bypass header, for the owner as for others.
pub compliance_holds :
    (d : Dates) (u : ℕ) (s : LockState) (es : List LockEvent) (bypass owner : Bool) (now : ℕ)
    → IsCompliant d u s
    → All (λ e. time e < u) es
    → now < u
    → evaluate_delete d (serve_all d s es) bypass owner now ≢ allowed
compliance_holds d u s es bypass owner now c h before =
    IsCompliant-not_deletable d bypass owner now (serve_all-IsCompliant d s es c h) before
