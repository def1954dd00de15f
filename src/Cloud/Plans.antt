-- ===== src/Cloud/Plans.antt =====
-- packages/cloud/src/plans.ts: plans, their monthly caps, and the plan that a merchant is on.
-- `JSON.parse`, `Date.parse` and the names that every object inherits are parameters. The prices are
-- left out.
pub mod Caps
pub mod Overrides
mod Tests
use zettapay.Prelude.{
  ℕ, Bool, true, false, ◌||◌, Option, none, some, List, [], ◌∷◌, Text, codes, ◌===◌, ltb,
  if◌then◌else◌,
}
use zettapay.Prelude.Int.{ℤ, pos, ◌-ℤ◌}
use zettapay.Prelude.Dict.{Dict, lookup, insert}

abbrev pub default_plan : Text
default_plan = codes "free"

-- A cap of `none` is no cap.
abbrev pub PlanLimits : Type 0
PlanLimits = Dict (Option ℕ)

abbrev pub default_plan_limits : PlanLimits
default_plan_limits =
    (codes "free", some 50)
    ∷ (codes "starter", some 500)
    ∷ (codes "pro", some 5000)
    ∷ (codes "unlimited", none)
    ∷ []

-- A member of a JSON object: `null`, a whole number that is not negative, or anything else.
pub data Member : Type 0 where
  json_null other_member : Member
  json_whole : ℕ → Member

-- A JSON value: an object, with its members in order, or anything else.
pub data Json : Type 0 where
  json_object : List (Text × Member) → Json
  other_json : Json

-- The loop over the members, into the limits so far; `none` is a member that is no cap. A plan named
-- `__proto__`, which the loop would not keep, is out of scope.
unfoldable pub add_limits : List (Text × Member) → PlanLimits → Option PlanLimits
add_limits [] out = some out
add_limits ((plan, json_null) ∷ more) out = add_limits more (insert plan none out)
add_limits ((plan, json_whole limit) ∷ more) out = add_limits more (insert plan (some limit) out)
add_limits ((plan, other_member) ∷ more) out = none

-- Limits that name no plan, or none at all, are the default ones.
abbrev pub or_default : Option PlanLimits → PlanLimits
or_default none = default_plan_limits
or_default (some []) = default_plan_limits
or_default (some (entry ∷ out)) = entry ∷ out

abbrev pub limits_of : Option Json → PlanLimits
limits_of none = default_plan_limits
limits_of (some other_json) = default_plan_limits
limits_of (some (json_object members)) = or_default (add_limits members [])

-- `parse` is `none` where `JSON.parse` throws; a `raw` that is absent or empty is not parsed.
unfoldable pub parse_plan_limits : (Text → Option Json) → Option Text → PlanLimits
parse_plan_limits parse none = default_plan_limits
parse_plan_limits parse (some []) = default_plan_limits
parse_plan_limits parse (some (c ∷ raw)) = limits_of (parse (c ∷ raw))

-- What `limits[name]` is: a cap, or something that every object inherits.
pub data Cap : Type 0 where
  cap : Option ℕ → Cap
  inherited_member : Cap

-- `plan || DEFAULT_PLAN`
abbrev pub plan_or_default : Option Text → Text
plan_or_default none = default_plan
plan_or_default (some []) = default_plan
plan_or_default (some (c ∷ plan)) = c ∷ plan

-- `limits[name]`, where an absent cap is 0.
abbrev pub cap_at : Bool → Option (Option ℕ) → Cap
cap_at inherited (some limit) = cap limit
cap_at true none = inherited_member
cap_at false none = cap (some 0)

module _ (inherited : Text → Bool) where
  abbrev is_in : Text → PlanLimits → Bool
  is_in name limits = elim (lookup name limits) [ some _ ↦ true | none ↦ inherited name ]

  abbrev pub known_name : PlanLimits → Text → Text
  known_name limits plan = if is_in plan limits then plan else default_plan

  unfoldable pub limit_for_plan : PlanLimits → Option Text → Cap
  limit_for_plan limits plan =
      let name = known_name limits (plan_or_default plan) in
      cap_at (inherited name) (lookup name limits)

pub record Merchant : Type 0 where
  pub plan : Option Text
  pub plan_expires_at : Option Text

abbrev pub before : ℤ → ℤ → Bool
before (pos a) (pos b) = ltb a b
before (pos a) (ℤ.negsuc b) = false
before (ℤ.negsuc a) (pos b) = true
before (ℤ.negsuc a) (ℤ.negsuc b) = ltb b a

-- A date that is there, that parses, and that has passed; an empty one counts as absent.
abbrev pub has_lapsed : (Text → Option ℤ) → Option Text → ℤ → Bool
has_lapsed parse_date none now = false
has_lapsed parse_date (some []) now = false
has_lapsed parse_date (some (c ∷ s)) now = elim (parse_date (c ∷ s)) [
  | none ↦ false
  | some expires ↦ before expires now
]

abbrev pub plan_at : (Text → Option ℤ) → Text → Option Text → ℤ → Text
plan_at parse_date plan expires_at now =
    if plan === default_plan
    then plan
    else if has_lapsed parse_date expires_at now
    then default_plan
    else plan

unfoldable pub effective_plan : (Text → Option ℤ) → Option Merchant → ℤ → Text
effective_plan parse_date none now = plan_at parse_date default_plan none now
effective_plan parse_date (some m) now =
    plan_at parse_date (plan_or_default m.plan) m.plan_expires_at now
