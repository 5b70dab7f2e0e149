-- ===== src/UploadLock/Mutex.antt =====
-- At each key the registry is a semaphore of capacity one.
use gdrive_s.Base.{
  ℕ, String, ◌≡◌, ◌≤◌, inl, inr, refl, ◌∙◌, ◌↔◌, ◌⊎◌, put, true, false, Option, none, some, List,
  [], ◌∷◌, arith, length, lookup, lookup-put, lookup-remove, text_key, ◌==◌, ==_refl, eq_iff,
  take_out, Option-cases, Bool-cases, if◌then◌else◌, ap, is_some,
}
use gdrive_s.Semaphore.{Semaphore, Event, acquire, abort, release, release_one}
use gdrive_s.Semaphore
use gdrive_s.Semaphore.Invariant.{IsValid, run-IsValid}
use gdrive_s.UploadLock.{Registry, empty, listed, is_held, pass, step, run}

abbrev pub at : String → Registry → Semaphore
at k r = record {
  capacity = 1;
  in_flight = if is_some (lookup k r.held) then 1 else 0;
  waiters = listed (lookup k r.waiters);
  live = listed (lookup k r.live);
}

module _ (key : String) (r : Registry) where
  at-pass_self :
      (o : Option (List ℕ))
      → lookup key r.waiters ≡ o
      → at key (pass o key r) ≡ release_one (listed o) (at key r)
  unfolding pass release_one
  at-pass_self none h = simp (lookup-remove, ==_refl) (ground (arith, h))
  at-pass_self (some []) h = simp (lookup-remove, ==_refl) (ground (arith, h))
  at-pass_self (some (w ∷ ws)) h = simp (lookup-put, ==_refl) (ground (arith, h))

module _ (key : String) (r : Registry) where
  at-acquire_self :
      (id : ℕ)
      → at key (step key r (acquire id false)) ≡ Semaphore.step (at key r) (acquire id false)
  unfolding step Semaphore.step
  at-acquire_self id = elim (Option-cases (lookup key r.held)) [
    | inl e ↦ rw (e, is_held) (simp (lookup-put, ==_refl, e) (ground (arith, e)))
    | inr (u, e) ↦ rw (e, is_held) (simp (lookup-put, ==_refl, e) (ground (arith, e)))
  ]

  at-abort_self : (id : ℕ) → at key (step key r (abort id)) ≡ Semaphore.step (at key r) (abort id)
  unfolding step Semaphore.step
  at-abort_self id = elim (Option-cases (take_out id (listed (lookup key r.waiters)))) [
    | inl e ↦ rw (e, step, Semaphore.step) refl
    | inr (rest, e) ↦ rw (e, step, Semaphore.step) (simp (lookup-put, ==_refl))
  ]

  at-live_self :
      (rest : List ℕ)
      → at key (record r { live = put key rest r.live }) ≡ record (at key r) { live = rest }
  at-live_self rest = simp (lookup-put, ==_refl)

  at-release_self :
      (id : ℕ) → at key (step key r (release id)) ≡ Semaphore.step (at key r) (release id)
  unfolding step Semaphore.step
  at-release_self id = elim (Option-cases (take_out id (listed (lookup key r.live)))) [
    | inl e ↦ rw (e, step, Semaphore.step) refl
    | inr (rest, e) ↦
        rw (e, step, Semaphore.step)
          (at-pass_self key (record r { live = put key rest r.live }) (lookup key r.waiters) refl
            ∙ ap (release_one (listed (lookup key r.waiters))) (at-live_self rest))
  ]

  at-step_self : (e : Event) → at key (step key r e) ≡ Semaphore.step (at key r) e
  at-step_self (acquire id true) = unfold step Semaphore.step in refl
  at-step_self (acquire id false) = at-acquire_self id
  at-step_self (abort id) = at-abort_self id
  at-step_self (release id) = at-release_self id

-- Another key does not notice.
module _ (key k : String) (other : (key == k) ≡ false) where
  at-pass_ne : (r : Registry) (o : Option (List ℕ)) → at k (pass o key r) ≡ at k r
  unfolding pass
  at-pass_ne r none = simp (lookup-remove, other)
  at-pass_ne r (some []) = simp (lookup-remove, other)
  at-pass_ne r (some (w ∷ ws)) = simp (lookup-put, other)

  at-step_ne : (r : Registry) (e : Event) → at k (step key r e) ≡ at k r
  unfolding step
  at-step_ne r (acquire id true) = refl
  at-step_ne r (acquire id false) = elim (Bool-cases (is_held key r)) [
    | inl e ↦ rw e (simp (lookup-put, other))
    | inr e ↦ rw e (simp (lookup-put, other))
  ]
  at-step_ne r (abort id) = elim (Option-cases (take_out id (listed (lookup key r.waiters)))) [
    | inl e ↦ rw (e, step) refl
    | inr (rest, e) ↦ rw (e, step) (simp (lookup-put, other))
  ]
  at-step_ne r (release id) = elim (Option-cases (take_out id (listed (lookup key r.live)))) [
    | inl e ↦ rw (e, step) refl
    | inr (rest, e) ↦
        rw (e, step)
          (at-pass_ne (record r { live = put key rest r.live }) (lookup key r.waiters)
            ∙ simp (lookup-put, other))
  ]

-- The events of one key, in their order.
pub events_of : String → List (String × Event) → List Event
events_of k [] = []
events_of k ((key, e) ∷ es) = let rest = events_of k es in if key == k then e ∷ rest else rest

-- Whatever happens at all the keys, each key goes through the states of a semaphore of capacity one
-- that meets its own events alone.
pub at-run :
    (k : String) (r : Registry) (es : List (String × Event))
    → at k (run r es) ≡ Semaphore.run (at k r) (events_of k es)
unfolding run Semaphore.run events_of
at-run k r [] = refl
at-run k r ((key, e) ∷ es) = elim (Bool-cases (key == k)) [
  | inl h ↦
      let same : key ≡ k = (eq_iff key k).0 h in
      rw (h, events_of, Semaphore.run)
        (at-run k (step key r e) es
          ∙ ap (λ s. Semaphore.run s (events_of k es)) (rw same (at-step_self k r e)))
  | inr h ↦
      rw (h, events_of)
        (at-run k (step key r e) es
          ∙ ap (λ s. Semaphore.run s (events_of k es)) (at-step_ne key k h r e))
]

at-run-IsValid : (k : String) (es : List (String × Event)) → IsValid (at k (run empty es))
unfolding lookup
at-run-IsValid k es =
    rw (at-run k empty es) (run-IsValid (at k empty) (events_of k es) (ground arith))

-- Mutual exclusion: from an empty registry at most one lock of a key is out, exactly one while the
-- key is held, and nobody waits for a key that is free.
pub run-empty_exclusive :
    (k : String) (es : List (String × Event))
    → (length (at k (run empty es)).live ≤ 1)
      × (is_held k (run empty es) ≡ true ↔ length (at k (run empty es)).live ≡ 1)
      × ((is_held k (run empty es) ≡ true) ⊎ ((at k (run empty es)).waiters ≡ []))
unfolding is_held
run-empty_exclusive k es =
    let v = at-run-IsValid k es in ground (arith, v.counted, v.bounded, v.busy)
