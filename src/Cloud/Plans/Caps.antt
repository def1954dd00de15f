-- ===== src/Cloud/Plans/Caps.antt =====
-- packages/cloud/src/plans.ts: the cap of the plan that a merchant is on.
use zettapay.Prelude.{
  ◌≡◌, refl, ap, ◌∙◌, Bool, Option, none, some, [], ◌∷◌, Text, ◌===◌, text_eq_iff, if◌then◌else◌,
  Bool-cases, inl, inr,
}
use zettapay.Prelude.Int.{ℤ}
use zettapay.Cloud.Plans.{
  PlanLimits, Merchant, default_plan, plan_or_default, has_lapsed, effective_plan, limit_for_plan,
}

-- A plan that is named is the name.
named :
    (inherited : Text → Bool) (limits : PlanLimits) (plan : Option Text)
    → limit_for_plan inherited limits (some (plan_or_default plan))
      ≡ limit_for_plan inherited limits plan
unfolding limit_for_plan
named inherited limits none = refl
named inherited limits (some []) = refl
named inherited limits (some (c ∷ plan)) = refl

module _ (inherited : Text → Bool) (parse_date : Text → Option ℤ) where
  -- The cap of the plan that a merchant is on is the cap of the free plan from the moment the paid
  -- period has ended, and until then, or without an end that is a date, the cap of the merchant's
  -- own plan.
  limit_for_plan-effective_plan :
      (limits : PlanLimits) (m : Merchant) (now : ℤ)
      → limit_for_plan inherited limits (some (effective_plan parse_date (some m) now)) ≡ (
          if has_lapsed parse_date m.plan_expires_at now
          then limit_for_plan inherited limits none
          else limit_for_plan inherited limits m.plan)
  unfolding effective_plan
  limit_for_plan-effective_plan limits m now =
      elim (Bool-cases (plan_or_default m.plan === default_plan)) [
        | inl free ↦
            let own = named inherited limits m.plan in
            let same : plan_or_default m.plan ≡ default_plan = (text_eq_iff _ _).0 free in
            elim (Bool-cases (has_lapsed parse_date m.plan_expires_at now)) [
              | inl ended ↦
                  rw (free, ended)
                    (ap (λ p. limit_for_plan inherited limits (some p)) same
                      ∙ named inherited limits none)
              | inr runs ↦ rw (free, runs) own
            ]
        | inr paid ↦ elim (Bool-cases (has_lapsed parse_date m.plan_expires_at now)) [
          | inl ended ↦ rw (paid, ended) (named inherited limits none)
          | inr runs ↦ rw (paid, runs) (named inherited limits m.plan)
        ]
      ]
