-- ===== src/Policy/Decision.antt =====
-- What a policy decides, whatever the order of its statements.
use mathlib.Core.List.{Perm, Permᴰ}
use mathlib.Core.Path.{ap₂}
use mathlib.Core.Logic.{∥∥₁_elim}
use mathlib.Core.Bool.{Bool-set}
use gdrive_s.Base.{
  ◌≡◌, refl, ◌∙◌, ap, Bool, true, false, ◌||◌, List, [], ◌∷◌, arith, any, Text, if◌then◌else◌,
}
use gdrive_s.Policy.Statement.{
  Js, PolicyPrincipal, PolicyContext, PolicyEffect, allow_effect, deny_effect, PolicyDecision,
  allow, deny, none_said, PolicyStatement, BucketPolicy,
}
use gdrive_s.Policy.Evaluate.{applies, evaluate_from, evaluate_policy}

or_swap : (a b a' b' r : Bool) → a ≡ b' → b ≡ a' → (a || (b || r)) ≡ (a' || (b' || r))
or_swap a b a' b' r e f = ground arith

any-permᴰ {ℓ} : {A : Type ℓ} (p : A → Bool) {xs ys : List A} → Permᴰ xs ys → any p xs ≡ any p ys
any-permᴰ p Permᴰ.nil = refl
any-permᴰ p (Permᴰ.cons e d) = ap₂ ◌||◌ (ap p e) (any-permᴰ p d)
any-permᴰ p (Permᴰ.swap {a} {b} {a' = a'} {b' = b'} {l = l} e f) =
    let first = ap p e in
    let second = ap p f in or_swap (p a) (p b) (p a') (p b') (any p l) first second
any-permᴰ p (Permᴰ.trans d f) = any-permᴰ p d ∙ any-permᴰ p f

any-perm {ℓ} : {A : Type ℓ} (p : A → Bool) {xs ys : List A} → Perm xs ys → any p xs ≡ any p ys
any-perm p same = ∥∥₁_elim same (Bool-set _ _) (any-permᴰ p)

module _ (js : Js) (principal : PolicyPrincipal) (action arn : Text) (context : PolicyContext) where
  -- A statement of this effect applies to the request.
  abbrev pub with_effect : PolicyEffect → PolicyStatement → Bool
  with_effect allow_effect s = elim s.effect [
    | allow_effect ↦ applies js s principal action arn context
    | deny_effect ↦ false
  ]
  with_effect deny_effect s = elim s.effect [
    | allow_effect ↦ false
    | deny_effect ↦ applies js s principal action arn context
  ]

  -- The rule of the documentation, with no loop: deny first, then allow.
  abbrev pub ruling : Bool → Bool → PolicyDecision
  ruling denied allowed = if denied then deny else if allowed then allow else none_said

  evaluate_from-eq-ruling :
      (b : Bool) (ss : List PolicyStatement)
      → evaluate_from js b ss principal action arn context
        ≡ ruling (any (with_effect deny_effect) ss) (b || any (with_effect allow_effect) ss)
  unfolding evaluate_from
  evaluate_from-eq-ruling b [] = ground arith
  evaluate_from-eq-ruling b (s ∷ ss) =
      ground (arith, evaluate_from-eq-ruling b ss, evaluate_from-eq-ruling true ss)

  -- A policy denies when a Deny statement applies, whatever else applies; it allows when no Deny
  -- and some Allow statement applies; it says nothing when none applies.
  pub evaluate_policy-eq-ruling :
      (p : BucketPolicy)
      → evaluate_policy js p principal action arn context
        ≡ ruling
            (any (with_effect deny_effect) p.statements)
            (any (with_effect allow_effect) p.statements)
  unfolding evaluate_policy
  evaluate_policy-eq-ruling p = evaluate_from-eq-ruling false p.statements

  -- Two policies that list the same statements in another order decide alike.
  pub evaluate_policy-perm :
      (p q : BucketPolicy)
      → Perm p.statements q.statements
      → evaluate_policy js p principal action arn context
        ≡ evaluate_policy js q principal action arn context
  evaluate_policy-perm p q same =
      rw (evaluate_policy-eq-ruling p, evaluate_policy-eq-ruling q)
        (ap₂ ruling (any-perm (with_effect deny_effect) same)
          (any-perm (with_effect allow_effect) same))
