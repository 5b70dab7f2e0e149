-- ===== src/Policy/Parse/WellFormed.antt =====
-- A policy that `parseBucketPolicy` returns is one that the evaluation can rely on.
use gdrive_s.Base.{
  ℕ, ◌≤◌, ◌≡◌, ◌⊎◌, inl, inr, ltb, Bool-cases, refl, ap, suc, true, Option, none, some, List, [],
  ◌∷◌, arith, All, length, Text, units,
}
use gdrive_s.S3Error.{ok, >>=-eq-ok, >>-eq-ok, ok_injective}
use gdrive_s.Policy.Json.{Json, arr, obj, Fields, get}
use gdrive_s.Policy.Statement.{Js, PolicyStatement, BucketPolicy}
use gdrive_s.Policy.Parse.{
  max_list_entries, max_statements, max_policy_bytes, parse_effect, exactly_one, either_field,
  parse_optional, list_or_empty, parse_principal, parse_conditions, statement_fields,
  parse_statement, parse_statements, raw_statements, document_fields, parse_document,
  parse_bucket_policy,
}
use gdrive_s.Policy.Parse.Bounds.{
  IsChecked, parse_principal-bound, parse_conditions-IsChecked, list_or_empty-bound,
  exactly_one-empty,
}

-- A statement as the evaluation expects it: bounded lists, one of each pair empty, known
-- operators, and no names where everyone is meant.
pub record IsWellFormed (s : PolicyStatement) : Type 0 where
  pub actions : length s.actions ≤ max_list_entries
  pub not_actions : length s.not_actions ≤ max_list_entries
  pub resources : length s.resources ≤ max_list_entries
  pub not_resources : length s.not_resources ≤ max_list_entries
  pub emails : length s.principal_emails ≤ max_list_entries
  pub everyone : s.any_principal ≡ true → s.principal_emails ≡ []
  pub one_action : (s.actions ≡ []) ⊎ (s.not_actions ≡ [])
  pub one_resource : (s.resources ≡ []) ⊎ (s.not_resources ≡ [])
  pub conditions : All IsChecked s.conditions

-- A policy with statements enough and not too many, all well formed.
pub record IsValid (p : BucketPolicy) : Type 0 where
  pub some_statement : 1 ≤ length p.statements
  pub few_statements : length p.statements ≤ max_statements
  pub well_formed : All IsWellFormed p.statements

module _ (js : Js) where
  statement_fields-IsWellFormed :
      (fs : Fields) (s : PolicyStatement) → statement_fields js fs ≡ ok s → IsWellFormed s
  unfolding statement_fields
  statement_fields-IsWellFormed fs s h0 =
      let (effect, _, h1) = >>=-eq-ok (parse_effect (get (units "Effect") fs)) _ h0 in
      let (_, h2) =
        >>-eq-ok (exactly_one (get (units "Principal") fs) (get (units "NotPrincipal") fs)) _ h1 in
      let (who, p, h3) =
        >>=-eq-ok
          (parse_principal js
            (either_field (get (units "Principal") fs) (get (units "NotPrincipal") fs)))
          _ h2 in
      let (one_a, h4) =
        >>-eq-ok (exactly_one (get (units "Action") fs) (get (units "NotAction") fs)) _ h3 in
      let (one_r, h5) =
        >>-eq-ok (exactly_one (get (units "Resource") fs) (get (units "NotResource") fs)) _ h4 in
      let (sid, _, h6) = >>=-eq-ok (parse_optional (get (units "Sid") fs)) _ h5 in
      let (acts, a, h7) = >>=-eq-ok (list_or_empty (get (units "Action") fs)) _ h6 in
      let (nacts, na, h8) = >>=-eq-ok (list_or_empty (get (units "NotAction") fs)) _ h7 in
      let (rs, r, h9) = >>=-eq-ok (list_or_empty (get (units "Resource") fs)) _ h8 in
      let (nrs, nr, h10) = >>=-eq-ok (list_or_empty (get (units "NotResource") fs)) _ h9 in
      let (cs, c, h11) = >>=-eq-ok (parse_conditions js (get (units "Condition") fs)) _ h10 in
      let e = ok_injective _ _ h11 in
      let b = parse_principal-bound js _ who p in
      rw (← e) (record {
        actions = list_or_empty-bound _ acts a;
        not_actions = list_or_empty-bound _ nacts na;
        resources = list_or_empty-bound _ rs r;
        not_resources = list_or_empty-bound _ nrs nr;
        emails = b.few;
        everyone = b.alone;
        one_action = exactly_one-empty _ _ acts nacts one_a a na;
        one_resource = exactly_one-empty _ _ rs nrs one_r r nr;
        conditions = parse_conditions-IsChecked js _ cs c;
      })

  parse_statement-IsWellFormed :
      (v : Json) (s : PolicyStatement) → parse_statement js v ≡ ok s → IsWellFormed s
  unfolding parse_statement
  parse_statement-IsWellFormed (obj fs) s h = statement_fields-IsWellFormed fs s h
  parse_statement-IsWellFormed _ s h = cc

  -- As many statements as there were, each well formed.
  parse_statements-IsWellFormed :
      (vs : List Json) (ss : List PolicyStatement)
      → parse_statements js vs ≡ ok ss
      → (length ss ≡ length vs) × All IsWellFormed ss
  unfolding parse_statements
  parse_statements-IsWellFormed [] ss h = let e = ok_injective _ _ h in rw (← e) (refl, tt)
  parse_statements-IsWellFormed (v ∷ vs) ss h =
      let (first, p, q) = >>=-eq-ok (parse_statement js v) _ h in
      let (rest, p', q') = >>=-eq-ok (parse_statements js vs) _ q in
      let ih = parse_statements-IsWellFormed vs rest p' in
      let e = ok_injective _ _ q' in
      rw (← e) (ap suc ih.0, (parse_statement-IsWellFormed v first p, ih.1))

raw_statements-bound :
    (o : Option Json) (vs : List Json)
    → raw_statements o ≡ ok vs
    → (1 ≤ length vs) × (length vs ≤ max_statements)
unfolding raw_statements
raw_statements-bound none vs h = cc
raw_statements-bound (some (arr es)) vs h = ground arith
raw_statements-bound (some _) vs h = ground arith

module _ (js : Js) where
  document_fields-IsValid :
      (fs : Fields) (p : BucketPolicy) → document_fields js fs ≡ ok p → IsValid p
  unfolding document_fields
  document_fields-IsValid fs p h0 =
      let (version, _, h1) = >>=-eq-ok (parse_optional (get (units "Version") fs)) _ h0 in
      let (id, _, h2) = >>=-eq-ok (parse_optional (get (units "Id") fs)) _ h1 in
      let (raw, r, h3) = >>=-eq-ok (raw_statements (get (units "Statement") fs)) _ h2 in
      let (ss, s, h4) = >>=-eq-ok (parse_statements js raw) _ h3 in
      let e = ok_injective _ _ h4 in
      let bound = raw_statements-bound (get (units "Statement") fs) raw r in
      let (n, good) = parse_statements-IsWellFormed js raw ss s in
      rw (← e) (record {
        some_statement = omega (arith, n, bound.0);
        few_statements = omega (arith, n, bound.1);
        well_formed = good;
      })

  parse_document-IsValid :
      (o : Option Json) (p : BucketPolicy) → parse_document js o ≡ ok p → IsValid p
  unfolding parse_document
  parse_document-IsValid (some (obj fs)) p h = document_fields-IsValid fs p h
  parse_document-IsValid (some (arr vs)) p h = cc
  parse_document-IsValid _ p h = cc

  -- Whatever the document: an accepted policy has no more bytes than allowed, from one to 64
  -- statements, and each statement is well formed.
  pub parse_bucket_policy-IsValid :
      (byte_length : Text → ℕ) (parse : Text → Option Json) (raw : Text) (p : BucketPolicy)
      → parse_bucket_policy js byte_length parse raw ≡ ok p
      → (byte_length raw ≤ max_policy_bytes) × IsValid p
  unfolding parse_bucket_policy
  parse_bucket_policy-IsValid byte_length parse raw p h =
      elim (Bool-cases (ltb max_policy_bytes (byte_length raw))) [
        | inl big ↦ ground (arith, big)
        | inr fits ↦
            let k : parse_document js (parse raw) ≡ ok p = rw (fits, parse_bucket_policy) at h in
            (ground (arith, fits), parse_document-IsValid (parse raw) p k)
      ]
