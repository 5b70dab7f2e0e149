-- ===== src/Conditions/Copy.antt =====
-- The conditions of a copy against those of a read.
use gdrive_s.Base.{ℕ, ◌≡◌, ◌↔◌, ◌⊎◌, inl, inr, refl, arith, not, Option, none, some, Text, units}
use gdrive_s.S3Error.{Result, ok, ◌>>◌, require, precondition_failed}
use gdrive_s.Conditions.{
  ConditionalResult, proceed, DateJs, ConditionalObject, Headers, quote_etag, modified_since,
  unmodified_since, check_match, check_none_match, evaluate_conditions, matches_if_given,
  matches_none, evaluate_copy_source_conditions,
}

module _ (js : DateJs) (etag : Text) (ms : Option ℕ) where
  reads : Option Text → Option Text → Option Text → Option Text → Result ConditionalResult
  reads match unmodified none_match modified =
      check_match js etag ms match unmodified
      >> ok (check_none_match js etag ms none_match modified)

  copies : Option Text → Option Text → Option Text → Option Text → Result (Unit {0})
  copies match unmodified none_match modified =
      require (matches_if_given js etag match) precondition_failed
      >> (require (matches_none js etag none_match) precondition_failed
          >> (require (not (modified_since js ms unmodified)) precondition_failed
              >> require (not (unmodified_since js ms modified)) precondition_failed))

  copies-reads : (m u n d : Option Text) → copies m u n d ≡ ok tt → reads m u n d ≡ ok proceed
  unfolding copies reads check_match check_none_match
  copies-reads none u none d h = ground arith
  copies-reads none u (some n) d h = ground arith
  copies-reads (some m) u none d h = ground arith
  copies-reads (some m) u (some n) d h = ground arith

  reads-copies :
      (m u n d : Option Text)
      → (m ≡ none) ⊎ (u ≡ none)
      → (n ≡ none) ⊎ (d ≡ none)
      → reads m u n d ≡ ok proceed
      → copies m u n d ≡ ok tt
  unfolding copies reads check_match check_none_match modified_since unmodified_since
  reads-copies none u none d a b h = ground arith
  reads-copies none u (some n) none a b h = ground arith
  reads-copies (some m) none none d a b h = ground arith
  reads-copies (some m) none (some n) none a b h = ground arith
  reads-copies (some m) (some u) n d (inl e) b h = cc
  reads-copies (some m) (some u) n d (inr e) b h = cc
  reads-copies m u (some n) (some d) a (inl e) h = cc
  reads-copies m u (some n) (some d) a (inr e) h = cc

-- The headers of a copy carry the same four conditions as those of a read.
pub record SameConditions (headers copy : Headers) : Type 0 where
  pub match : copy (units "x-amz-copy-source-if-match") ≡ headers (units "if-match")
  pub unmodified :
      copy (units "x-amz-copy-source-if-unmodified-since") ≡ headers (units "if-unmodified-since")
  pub none_match : copy (units "x-amz-copy-source-if-none-match") ≡ headers (units "if-none-match")
  pub modified :
      copy (units "x-amz-copy-source-if-modified-since") ≡ headers (units "if-modified-since")

module _ (js : DateJs) (headers copy : Headers) (object : ConditionalObject)
    (same : SameConditions headers copy) where
  copy-copies :
      evaluate_copy_source_conditions js copy object
      ≡ copies js
          (quote_etag object.etag)
          (js.parse object.last_modified_at)
          (headers (units "if-match"))
          (headers (units "if-unmodified-since"))
          (headers (units "if-none-match"))
          (headers (units "if-modified-since"))
  unfolding evaluate_copy_source_conditions copies
  copy-copies = rw (same.match, same.unmodified, same.none_match, same.modified) refl

  read-reads :
      evaluate_conditions js headers object
      ≡ reads js
          (quote_etag object.etag)
          (js.parse object.last_modified_at)
          (headers (units "if-match"))
          (headers (units "if-unmodified-since"))
          (headers (units "if-none-match"))
          (headers (units "if-modified-since"))
  unfolding evaluate_conditions reads
  read-reads = refl

  -- A copy whose conditions hold is of an object that a read with the same conditions is
  -- answered with: it neither fails nor is told that nothing was modified.
  pub copy_conditions-stricter :
      evaluate_copy_source_conditions js copy object ≡ ok tt
      → evaluate_conditions js headers object ≡ ok proceed
  copy_conditions-stricter h = rw read-reads (copies-reads js _ _ _ _ _ _ (rw copy-copies at h))

  -- Where no condition on a tag comes with the condition on a date that it would override in
  -- a read, a copy goes on exactly when a read with the same conditions does.
  pub copy_conditions_iff :
      (headers (units "if-match") ≡ none) ⊎ (headers (units "if-unmodified-since") ≡ none)
      → (headers (units "if-none-match") ≡ none) ⊎ (headers (units "if-modified-since") ≡ none)
      → (evaluate_copy_source_conditions js copy object ≡ ok tt)
        ↔ (evaluate_conditions js headers object ≡ ok proceed)
  copy_conditions_iff a b = (
    λ h. copy_conditions-stricter h,
    λ h. rw copy-copies (reads-copies js _ _ _ _ _ _ a b (rw read-reads at h)),
  )
