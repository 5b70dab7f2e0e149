-- ===== src/Multipart/Claims.antt =====
-- Who may claim an upload: its parts are assembled, or thrown away, once.
use gdrive_s.Base.{
  ℕ, ◌+◌, ◌≤◌, Bool, true, false, not, ◌&&◌, ◌||◌, none, some, List, [], ◌∷◌, ◌++◌, ◌≡◌, inl, inr,
  refl, arith, String, text_key, ◌==◌, any, ltb, Bool-cases, if◌then◌else◌,
}
use gdrive_s.Multipart.Uploads.{
  completing, completed, aborted, expired, MultipartUploadRow, CreateMultipartInput, is_open,
  updated, changes, created, open_row, active_row, known, Statement, create, mark_completing,
  mark_completed, mark_failed, mark_aborted, mark_expired, apply,
}

-- The statements after which the caller assembles the parts of the upload, or deletes them.
abbrev pub claims : String → Statement → Bool
claims id (mark_completing i) = i == id
claims id (mark_expired i) = i == id
claims id _ = false

false_not_true : (b : Bool) → b ≡ false → b ≡ true → ⊥
false_not_true b e f = cc

-- How many of these statements, run in turn, claim the upload and answer true.
unfoldable pub wins : String → List Statement → List MultipartUploadRow → ℕ
wins id [] t = 0
wins id (s ∷ ss) t = (if claims id s && (apply s t).0 then 1 else 0) + wins id ss (apply s t).1

module _ (id : String) where
  -- A row of this identifier is there, and none is open.
  closed : List MultipartUploadRow → Bool
  closed t = known id t && not (any (open_row id) t)

  known-append :
      (t : List MultipartUploadRow) (r : MultipartUploadRow)
      → known id (t ++ (r ∷ [])) ≡ (known id t || (r.id == id))
  unfolding known
  known-append [] r = ground arith
  known-append (q ∷ t) r = ground (arith, known-append t r)

  any-append :
      (p : MultipartUploadRow → Bool) (t : List MultipartUploadRow) (r : MultipartUploadRow)
      → any p (t ++ (r ∷ [])) ≡ (any p t || p r)
  any-append p [] r = ground arith
  any-append p (q ∷ t) r = ground (arith, any-append p t r)

  module _ (chosen : MultipartUploadRow → Bool) (change : MultipartUploadRow → MultipartUploadRow)
      (keeps : (r : MultipartUploadRow) → (change r).id ≡ r.id)
      (shuts : (r : MultipartUploadRow) → is_open (change r).status ≡ false) where
    known-updated : (t : List MultipartUploadRow) → known id (updated chosen change t) ≡ known id t
    unfolding known updated
    known-updated [] = refl
    known-updated (r ∷ t) = elim (Bool-cases (chosen r)) [
      | inl c ↦ rw (c, keeps r, known-updated t) refl
      | inr c ↦ rw (c, known-updated t) refl
    ]

    any_open-updated :
        (t : List MultipartUploadRow)
        → any (open_row id) t ≡ false
        → any (open_row id) (updated chosen change t) ≡ false
    unfolding updated
    any_open-updated [] h = refl
    any_open-updated (r ∷ t) h = elim (Bool-cases (chosen r)) [
      | inl c ↦ rw (c, shuts r) (ground (arith, any_open-updated t (ground arith)))
      | inr c ↦ rw c (ground (arith, any_open-updated t (ground arith)))
    ]

    closed-updated :
        (t : List MultipartUploadRow) → closed t ≡ true → closed (updated chosen change t) ≡ true
    unfolding closed
    closed-updated t h =
        let k = known-updated t in let o = any_open-updated t (ground arith) in ground arith

    -- Where every open row is chosen, none is left.
    any_open-shut :
        (t : List MultipartUploadRow)
        → ((r : MultipartUploadRow) → open_row id r ≡ true → chosen r ≡ true)
        → any (open_row id) (updated chosen change t) ≡ false
    unfolding updated
    any_open-shut [] all = refl
    any_open-shut (r ∷ t) all = elim (Bool-cases (chosen r)) [
      | inl c ↦ rw (c, shuts r) (ground (arith, any_open-shut t all))
      | inr c ↦ elim (Bool-cases (open_row id r)) [
        | inl o ↦ absurd (false_not_true (chosen r) c (all r o))
        | inr o ↦ rw c (ground (arith, any_open-shut t all))
      ]
    ]

  known-changes :
      (t : List MultipartUploadRow) → ltb 0 (changes (open_row id) t) ≡ true → known id t ≡ true
  unfolding known changes
  known-changes [] h = cc
  known-changes (r ∷ t) h = elim (Bool-cases (r.id == id)) [
    | inl e ↦ rw e refl
    | inr e ↦ ground (arith, known-changes t (ground arith))
  ]

  closed-created :
      (input : CreateMultipartInput) (t : List MultipartUploadRow)
      → known input.id t ≡ false
      → closed t ≡ true
      → closed (t ++ (created input ∷ [])) ≡ true
  unfolding closed
  closed-created input t k h =
      let n = known-append t (created input) in
      let o = any-append (open_row id) t (created input) in
      elim (Bool-cases (input.id == id)) [
        | inl e ↦
            let same = (text_key.test_iff input.id id).0 e in
            absurd (false_not_true (known input.id t) k (rw same (ground arith)))
        | inr e ↦ ground arith
      ]

  closed-apply :
      (s : Statement) (t : List MultipartUploadRow) → closed t ≡ true → closed (apply s t).1 ≡ true
  unfolding apply
  closed-apply (create input) t h = elim (Bool-cases (known input.id t)) [
    | inl k ↦ rw k h
    | inr k ↦ rw k (closed-created input t k h)
  ]
  closed-apply (mark_completing i) t h =
      closed-updated (open_row i) (λ r. record r { status = completing; last_error = none })
        (λ r. refl) (λ r. refl) t h
  closed-apply (mark_completed i n now) t h =
      closed-updated (λ r. r.id == i)
        (λ r. record r { status = completed; completed_at = some now; total_parts = some n })
        (λ r. refl) (λ r. refl) t h
  closed-apply (mark_failed i e) t h =
      closed-updated (active_row i) (λ r. record r { status = aborted; last_error = some e })
        (λ r. refl) (λ r. refl) t h
  closed-apply (mark_aborted i) t h =
      closed-updated (active_row i) (λ r. record r { status = aborted }) (λ r. refl) (λ r. refl) t h
  closed-apply (mark_expired i) t h =
      closed-updated (open_row i) (λ r. record r { status = expired }) (λ r. refl) (λ r. refl) t h

  closed-won :
      (change : MultipartUploadRow → MultipartUploadRow)
      (keeps : (r : MultipartUploadRow) → (change r).id ≡ r.id)
      (shuts : (r : MultipartUploadRow) → is_open (change r).status ≡ false)
      (t : List MultipartUploadRow)
      → ltb 0 (changes (open_row id) t) ≡ true
      → closed (updated (open_row id) change t) ≡ true
  unfolding closed
  closed-won change keeps shuts t h =
      let k = known-updated (open_row id) change keeps shuts t in
      let n = known-changes t h in
      let o = any_open-shut (open_row id) change keeps shuts t (λ r e. e) in ground arith

  closed-claim :
      (s : Statement) (t : List MultipartUploadRow)
      → (claims id s && (apply s t).0) ≡ true
      → closed (apply s t).1 ≡ true
  unfolding apply
  closed-claim (mark_completing i) t h =
      let same = (text_key.test_iff i id).0 (ground arith) in
      rw same (
        closed-won (λ r. record r { status = completing; last_error = none }) (λ r. refl)
          (λ r. refl) t (rw (← same) (ground arith)))
  closed-claim (mark_expired i) t h =
      let same = (text_key.test_iff i id).0 (ground arith) in
      rw same (
        closed-won (λ r. record r { status = expired }) (λ r. refl) (λ r. refl) t
          (rw (← same) (ground arith)))
  closed-claim _ t h = cc

  open_rows-closed :
      (t : List MultipartUploadRow) → any (open_row id) t ≡ false → changes (open_row id) t ≡ 0
  unfolding changes
  open_rows-closed [] h = refl
  open_rows-closed (r ∷ t) h = ground (arith, open_rows-closed t (ground arith))

  claimed-closed :
      (i : String) (t : List MultipartUploadRow)
      → any (open_row id) t ≡ false
      → ((i == id) && ltb 0 (changes (open_row i) t)) ≡ false
  claimed-closed i t h = elim (Bool-cases (i == id)) [
    | inl e ↦
        let same = (text_key.test_iff i id).0 e in
        let n = open_rows-closed t h in rw (same, n) (ground arith)
    | inr e ↦ rw e refl
  ]

  claim-closed :
      (s : Statement) (t : List MultipartUploadRow)
      → closed t ≡ true
      → (claims id s && (apply s t).0) ≡ false
  unfolding apply closed
  claim-closed (mark_completing i) t h = claimed-closed i t (ground arith)
  claim-closed (mark_expired i) t h = claimed-closed i t (ground arith)
  claim-closed _ t h = refl

  wins-closed :
      (ss : List Statement) (t : List MultipartUploadRow) → closed t ≡ true → wins id ss t ≡ 0
  unfolding wins
  wins-closed [] t h = refl
  wins-closed (s ∷ ss) t h =
      let none_won = claim-closed s t h in
      let later = wins-closed ss (apply s t).1 (closed-apply s t h) in rw (none_won, later) refl

-- Whatever statements are run on the table and in whatever order, at most one of those that
-- claim an upload for completion or expire it tells its caller that it did.
pub wins_once : (id : String) (ss : List Statement) (t : List MultipartUploadRow) → wins id ss t ≤ 1
unfolding wins
wins_once id [] t = omega arith
wins_once id (s ∷ ss) t = elim (Bool-cases (claims id s && (apply s t).0)) [
  | inl won ↦
      let later = wins-closed id ss (apply s t).1 (closed-claim id s t won) in
      rw (won, later) (omega arith)
  | inr lost ↦ rw lost (omega (arith, wins_once id ss (apply s t).1))
]
