-- ===== src/Conditions.antt =====
-- s3/conditions.ts and quoteEtag of s3/etag.ts: conditional requests.
pub mod Copy
mod Tests
use gdrive_s.Base.{
  ℕ, ◌/◌, Bool, true, false, not, ◌&&◌, Option, none, some, List, [], ◌∷◌, ◌++◌, any, is_some, Text,
  units, units_key, ◌==◌, after_prefix, split, eqb, leb, ltb, if◌then◌else◌,
}
use gdrive_s.S3Error.{Result, ok, err, ◌>>=◌, ◌>>◌, require, precondition_failed}

pub data ConditionalResult : Type 0 where
  proceed not_modified : ConditionalResult

-- JavaScript's functions: `parse` is `Date.parse`, in milliseconds from 1970 on, none for NaN.
pub record DateJs : Type 0 where
  pub trim : Text → Text
  pub parse : Text → Option ℕ

-- The columns of the object's row that the conditions look at.
pub record ConditionalObject : Type 0 where
  pub etag : Text
  pub last_modified_at : Text

-- `headers.get`, of one name
abbrev pub Headers : Type 0
Headers = Text → Option Text

abbrev pub quote : ℕ
quote = 34

abbrev pub strip_front : Text → Text
strip_front [] = []
strip_front (c ∷ s) = if eqb c quote then s else c ∷ s

abbrev pub strip_back : Text → Text
strip_back [] = []
strip_back (c ∷ []) = if eqb c quote then [] else c ∷ []
strip_back (c ∷ d ∷ s) = c ∷ strip_back (d ∷ s)

-- `replace(/^"|"$/g, "")` between quotes.
abbrev pub quote_etag : Text → Text
quote_etag hex = quote ∷ (strip_back (strip_front hex) ++ (quote ∷ []))

-- A weak tag's opaque part, or the token.
abbrev pub normalized : Text → Option Text → Text
normalized token none = token
normalized token (some rest) = rest

module _ (js : DateJs) where
  unfoldable pub token_matches : Text → Bool → Text → Bool
  token_matches current strong raw =
      let token = js.trim raw in
      let weak = after_prefix (units "W/") token in
      if strong && is_some weak then false else normalized token weak == current

  unfoldable pub etag_list_matches : Text → Text → Bool → Bool
  etag_list_matches header current strong =
      if js.trim header == units "*"
      then true
      else any (token_matches current strong) (split 44 header)

  -- `modifiedMs > t`, false of NaN.
  abbrev pub later_than : Option ℕ → Option ℕ → Bool
  later_than (some modified_ms) (some t) = ltb t modified_ms
  later_than _ _ = false

  -- The same in whole seconds, the other way.
  abbrev pub not_later_than : Option ℕ → Option ℕ → Bool
  not_later_than (some modified_ms) (some t) = leb (modified_ms / 1000) (t / 1000)
  not_later_than _ _ = false

  -- A header with a date, when it is not empty.
  unfoldable pub modified_since : Option ℕ → Option Text → Bool
  modified_since modified_ms none = false
  modified_since modified_ms (some []) = false
  modified_since modified_ms (some (c ∷ header)) = later_than modified_ms (js.parse (c ∷ header))

  unfoldable pub unmodified_since : Option ℕ → Option Text → Bool
  unmodified_since modified_ms none = false
  unmodified_since modified_ms (some []) = false
  unmodified_since modified_ms (some (c ∷ header)) =
      not_later_than modified_ms (js.parse (c ∷ header))

  -- If-Match takes precedence over If-Unmodified-Since.
  unfoldable pub check_match : Text → Option ℕ → Option Text → Option Text → Result (Unit {0})
  check_match etag modified_ms none unmodified =
      require (not (modified_since modified_ms unmodified)) precondition_failed
  check_match etag modified_ms (some header) unmodified =
      require (etag_list_matches header etag true) precondition_failed

  -- If-None-Match takes precedence over If-Modified-Since.
  unfoldable pub check_none_match : Text → Option ℕ → Option Text → Option Text → ConditionalResult
  check_none_match etag modified_ms none modified =
      if unmodified_since modified_ms modified then not_modified else proceed
  check_none_match etag modified_ms (some header) modified =
      if etag_list_matches header etag false then not_modified else proceed

  unfoldable pub evaluate_conditions : Headers → ConditionalObject → Result ConditionalResult
  evaluate_conditions headers object =
      let etag = quote_etag object.etag in
      let modified_ms = js.parse object.last_modified_at in
      do
        check_match etag modified_ms (headers (units "if-match"))
            (headers (units "if-unmodified-since"))
        ok (
            check_none_match etag modified_ms (headers (units "if-none-match"))
              (headers (units "if-modified-since")))

  abbrev pub matches_if_given : Text → Option Text → Bool
  matches_if_given etag none = true
  matches_if_given etag (some header) = etag_list_matches header etag true

  abbrev pub matches_none : Text → Option Text → Bool
  matches_none etag none = true
  matches_none etag (some header) = not (etag_list_matches header etag false)

  unfoldable pub evaluate_copy_source_conditions : Headers → ConditionalObject → Result (Unit {0})
  evaluate_copy_source_conditions headers source =
      let etag = quote_etag source.etag in
      let modified_ms = js.parse source.last_modified_at in
      do
        require (matches_if_given etag (headers (units "x-amz-copy-source-if-match")))
            precondition_failed
        require (matches_none etag (headers (units "x-amz-copy-source-if-none-match")))
            precondition_failed
        require
            (not (
              modified_since modified_ms (headers (units "x-amz-copy-source-if-unmodified-since"))))
            precondition_failed
        require
            (not (
              unmodified_since modified_ms (headers (units "x-amz-copy-source-if-modified-since"))))
            precondition_failed
