-- ===== src/Policy/Parse/Bounds.antt =====
-- What a parsed policy document is bounded by.
use gdrive_s.Base.{
  ◌≤◌, ◌≡◌, ◌⊎◌, inl, inr, true, false, Option, none, some, List, [], ◌∷◌, ◌++◌, arith, All,
  All-append, length, Text, Bool-cases, units,
}
use gdrive_s.S3Error.{Result, ok, >>=-eq-ok, ◌>>=◌}
use gdrive_s.Policy.Json.{Json, str, arr, obj, Elems, nil, cons, Fields, end, field, elems, get}
use gdrive_s.Policy.Statement.{Js, Condition}
use gdrive_s.Policy.Evaluate.{includes}
use gdrive_s.Policy.Parse.{
  is_star, max_list_entries, strings, string_list, Principals, parse_email, parse_emails,
  named_principals, aws_principals, parse_principal, supported, parse_block, operator_block,
  parse_operators, parse_conditions, exactly_one, list_or_empty,
}

length-strings : (vs : Elems) (xs : List Text) → strings vs ≡ ok xs → length xs ≡ length (elems vs)
unfolding strings
length-strings nil xs h = ground arith
length-strings (cons (str s) vs) xs h =
    let (rest, e, f) = >>=-eq-ok (strings vs) _ h in ground (arith, length-strings vs rest e)
length-strings (cons _ vs) xs h = cc

pub length-string_list :
    (v : Json) (xs : List Text) → string_list v ≡ ok xs → length xs ≤ max_list_entries
unfolding string_list
length-string_list (str s) xs h = ground arith
length-string_list (arr vs) xs h = ground (arith, length-strings vs xs)
length-string_list _ xs h = cc

-- Each operator is one that the evaluation knows, and its value list is bounded.
abbrev pub IsChecked : Condition → Type 0
IsChecked c = (supported c.operator ≡ true) × (length c.values ≤ max_list_entries)

-- A named principal list is bounded, and empty where everyone is meant.
pub record AreBounded (p : Principals) : Type 0 where
  pub few : length p.emails ≤ max_list_entries
  pub alone : (p.any_principal ≡ true → p.emails ≡ [])

module _ (js : Js) where
  length-parse_emails :
      (entries es : List Text) → parse_emails js entries ≡ ok es → length es ≡ length entries
  unfolding parse_emails
  length-parse_emails [] es h = ground arith
  length-parse_emails (e ∷ entries) es h =
      let (email, p, q) = >>=-eq-ok (parse_email js e) _ h in
      let (rest, p', q') = >>=-eq-ok (parse_emails js entries) _ q in
      ground (arith, length-parse_emails entries rest p')

  named_principals-bound :
      (entries : List Text) (p : Principals)
      → length entries ≤ max_list_entries
      → named_principals js entries ≡ ok p
      → AreBounded p
  unfolding named_principals
  named_principals-bound entries p few h = elim (Bool-cases (includes entries (units "*"))) [
    | inl all ↦ ground (arith, all)
    | inr each ↦
        let k : named ≡ ok p = rw (each, named_principals) at h in
        let (es, e, f) = >>=-eq-ok (parse_emails js entries) _ k in
        ground (arith, length-parse_emails entries es e, f)
  ]
    where
      named : Result Principals
      named = parse_emails js entries >>= λ emails.
          ok (record { any_principal = false; emails = emails })

  aws_principals-bound :
      (o : Option Json) (p : Principals) → aws_principals js o ≡ ok p → AreBounded p
  unfolding aws_principals
  aws_principals-bound none p h = cc
  aws_principals-bound (some v) p h = elim (Bool-cases (is_star v)) [
    | inl all ↦ ground (arith, all)
    | inr each ↦
        let k : (string_list v >>= named_principals js) ≡ ok p = rw (each, aws_principals) at h in
        let (entries, e, f) = >>=-eq-ok (string_list v) _ k in
        named_principals-bound entries p (length-string_list v entries e) f
  ]

  pub parse_principal-bound :
      (v : Json) (p : Principals) → parse_principal js v ≡ ok p → AreBounded p
  unfolding parse_principal
  parse_principal-bound (str s) p h = ground arith
  parse_principal-bound (obj fs) p h = aws_principals-bound (get (units "AWS") fs) p h
  parse_principal-bound _ p h = cc

  parse_block-IsChecked :
      (operator : Text) (fs : Fields) (cs : List Condition)
      → supported operator ≡ true
      → parse_block js operator fs ≡ ok cs
      → All IsChecked cs
  unfolding parse_block
  parse_block-IsChecked operator end cs known h = ground arith
  parse_block-IsChecked operator (field k v fs) cs known h =
      let (values, p, q) = >>=-eq-ok (string_list v) _ h in
      let (rest, p', q') = >>=-eq-ok (parse_block js operator fs) _ q in
      ground (arith, length-string_list v values p, parse_block-IsChecked operator fs rest known p')

  operator_block-IsChecked :
      (operator : Text) (v : Json) (cs : List Condition)
      → operator_block js operator v ≡ ok cs
      → All IsChecked cs
  unfolding operator_block
  operator_block-IsChecked operator (obj block) cs h =
      ground (arith, parse_block-IsChecked operator block cs)
  operator_block-IsChecked operator _ cs h = cc

  parse_operators-IsChecked :
      (fs : Fields) (cs : List Condition) → parse_operators js fs ≡ ok cs → All IsChecked cs
  unfolding parse_operators
  parse_operators-IsChecked end cs h = ground arith
  parse_operators-IsChecked (field operator block fs) cs h =
      let (first, p, q) = >>=-eq-ok (operator_block js operator block) _ h in
      let (rest, p', q') = >>=-eq-ok (parse_operators js fs) _ q in
      let e : first ++ rest ≡ cs = ground arith in
      rw (← e) (
        All-append IsChecked first rest (operator_block-IsChecked operator block first p)
          (parse_operators-IsChecked fs rest p'))

  pub parse_conditions-IsChecked :
      (o : Option Json) (cs : List Condition) → parse_conditions js o ≡ ok cs → All IsChecked cs
  unfolding parse_conditions
  parse_conditions-IsChecked none cs h = ground arith
  parse_conditions-IsChecked (some (obj fs)) cs h = parse_operators-IsChecked fs cs h
  parse_conditions-IsChecked (some _) cs h = cc

pub list_or_empty-bound :
    (o : Option Json) (xs : List Text) → list_or_empty o ≡ ok xs → length xs ≤ max_list_entries
unfolding list_or_empty
list_or_empty-bound none xs h = ground arith
list_or_empty-bound (some v) xs h = length-string_list v xs h

-- Of a field and its negation one is absent, and an absent one gives the empty list.
pub exactly_one-empty :
    (plain negated : Option Json) (xs ys : List Text)
    → exactly_one plain negated ≡ ok tt
    → list_or_empty plain ≡ ok xs
    → list_or_empty negated ≡ ok ys
    → (xs ≡ []) ⊎ (ys ≡ [])
unfolding exactly_one list_or_empty
exactly_one-empty none negated xs ys h p q = inl (ground arith)
exactly_one-empty (some v) none xs ys h p q = inr (ground arith)
exactly_one-empty (some v) (some w) xs ys h p q = cc
