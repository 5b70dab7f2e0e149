-- ===== src/Authorization/Decision.antt =====
-- What isAllowed of services/authorization-service.ts permits, and on whose authority.
use gdrive_s.Base.{
  Bool, true, false, not, ◌&&◌, Option, none, some, ◌≡◌, ◌≢◌, refl, ◌∙◌, arith, Text, units,
  units_key, holds, holds_iff, Bool-cases, ◌↔◌, inl, inr, if◌then◌else◌,
}
use gdrive_s.Policy.Statement.{PolicyDecision, allow, deny, none_said}
use gdrive_s.Authorization.Actions.{is_write, is_owner_only}
use gdrive_s.Authorization.Access.{
  Bucket, Service, Request, acl_allows, policy_decision, role_of, without_policy, is_allowed,
}

module _ (s : Service) (r : Request) (b : Bucket) (object : Option Text) where
  -- The authorities a request can rest on.
  pub data Granted : Type 0 where
    by_policy : policy_decision s r b ≡ allow → is_owner_only r.action ≡ false → Granted
    by_owner : r.user_id ≡ some b.user_id → Granted
    by_editor : role_of s r.user_id b ≡ some (units "editor") → Granted
    by_viewer : role_of s r.user_id b ≡ some (units "viewer") → is_write r.action ≡ false → Granted
    by_acl : acl_allows r b object ≡ true → is_owner_only r.action ≡ false → Granted

  without_policy-granted : without_policy s r b object ≡ true → Granted
  unfolding without_policy
  without_policy-granted h = elim (Bool-cases (holds r.user_id b.user_id)) [
    | inl o ↦ by_owner ((holds_iff r.user_id b.user_id).0 o)
    | inr o ↦ elim (Bool-cases (holds (role_of s r.user_id b) (units "editor"))) [
      | inl e ↦ by_editor ((holds_iff (role_of s r.user_id b) (units "editor")).0 e)
      | inr e ↦
          elim (Bool-cases
            (holds (role_of s r.user_id b) (units "viewer") && not (is_write r.action))) [
              | inl v ↦
                  by_viewer ((holds_iff (role_of s r.user_id b) (units "viewer")).0 (ground arith))
                    (ground arith)
              | inr v ↦ by_acl (ground arith) (ground arith)
            ]
    ]
  ]

  granted-without_policy :
      Granted
      → ¬ (policy_decision s r b ≡ allow × is_owner_only r.action ≡ false)
      → without_policy s r b object ≡ true
  unfolding without_policy
  granted-without_policy (by_policy e p) n = absurd (n (e, p))
  granted-without_policy (by_owner o) n =
      let e = (holds_iff r.user_id b.user_id).1 o in ground arith
  granted-without_policy (by_editor o) n =
      let e = (holds_iff (role_of s r.user_id b) (units "editor")).1 o in ground arith
  granted-without_policy (by_viewer o w) n =
      let e = (holds_iff (role_of s r.user_id b) (units "viewer")).1 o in ground arith
  granted-without_policy (by_acl a w) n = ground arith

  allowed_at : PolicyDecision → Bool
  allowed_at deny = false
  allowed_at allow = if not (is_owner_only r.action) then true else without_policy s r b object
  allowed_at none_said = without_policy s r b object

  is_allowed-allowed_at :
      (d : PolicyDecision) → policy_decision s r b ≡ d → is_allowed s r b object ≡ allowed_at d
  unfolding allowed_at is_allowed is_owner_only
  is_allowed-allowed_at deny e = rw (e, is_allowed) refl
  is_allowed-allowed_at allow e = rw (e, is_allowed) refl
  is_allowed-allowed_at none_said e = rw (e, is_allowed) refl

  allowed_at_iff :
      (d : PolicyDecision)
      → policy_decision s r b ≡ d
      → (allowed_at d ≡ true) ↔ (policy_decision s r b ≢ deny × Granted)
  unfolding allowed_at
  allowed_at_iff deny e = (λ h. absurd (cc), λ (n, g). absurd (n e))
  allowed_at_iff none_said e =
      (λ h. (λ f. cc, without_policy-granted h), λ (n, g). granted-without_policy g (λ (f, p). cc))
  allowed_at_iff allow e = elim (Bool-cases (is_owner_only r.action)) [
    | inl o ↦ (
      λ h. (λ f. cc, without_policy-granted (ground arith)),
      λ (n, g). rw o (granted-without_policy g (λ (f, p). cc)),
    )
    | inr o ↦ (λ h. (λ f. cc, by_policy e o), λ (n, g). rw o refl)
  ]

  -- A request whose action is not reserved to the owner is permitted exactly when no policy
  -- statement denies it and it rests on an authority: the policy's allowance, the ownership, the
  -- role of an editor, that of a viewer for an action that writes nothing, or the ACL.
  pub is_allowed_iff :
      is_owner_only r.action ≡ false
      → (is_allowed s r b object ≡ true) ↔ (policy_decision s r b ≢ deny × Granted)
  is_allowed_iff open_action =
      rw (is_allowed-allowed_at (policy_decision s r b) refl)
        (allowed_at_iff (policy_decision s r b) refl)

  outsider-refused :
      is_owner_only r.action ≡ true
      → r.user_id ≢ some b.user_id
      → role_of s r.user_id b ≡ none
      → without_policy s r b object ≡ false
  unfolding without_policy
  outsider-refused reserved stranger no_role = elim (Bool-cases (holds r.user_id b.user_id)) [
    | inl o ↦ absurd (stranger ((holds_iff r.user_id b.user_id).0 o))
    | inr o ↦ rw (o, no_role, reserved) refl
  ]

  allowed_at-outsider :
      (d : PolicyDecision)
      → is_owner_only r.action ≡ true
      → without_policy s r b object ≡ false
      → allowed_at d ≡ false
  unfolding allowed_at
  allowed_at-outsider deny reserved refused = refl
  allowed_at-outsider none_said reserved refused = refused
  allowed_at-outsider allow reserved refused = rw (reserved, refused) refl

  -- A policy or an ACL never grants an action that is reserved to the owner: whatever they say, a
  -- caller who neither owns the bucket nor is a member of it is refused.
  pub is_allowed-reserved :
      is_owner_only r.action ≡ true
      → r.user_id ≢ some b.user_id
      → role_of s r.user_id b ≡ none
      → is_allowed s r b object ≡ false
  is_allowed-reserved reserved stranger no_role =
      is_allowed-allowed_at (policy_decision s r b) refl
      ∙ allowed_at-outsider (policy_decision s r b) reserved
          (outsider-refused reserved stranger no_role)
