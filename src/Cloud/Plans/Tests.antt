-- ===== src/Cloud/Plans/Tests.antt =====
-- packages/cloud/src/plans.ts at concrete merchants and overrides.
use zettapay.Prelude.{◌≡◌, ◌⊎◌, refl, Bool, Option, some, List, [], ◌∷◌, Text, codes, ◌===◌}
use zettapay.Prelude.Int.{ℤ, pos}
use zettapay.Prelude.Dict.{lookup, insert}
use zettapay.Cloud.Plans.{
  Member, json_null, json_whole, Json, json_object, parse_plan_limits, add_limits, Merchant,
}
use zettapay.Cloud.Plans.Overrides.{IsMember, AreCaps, parse_plan_limits-lifted}

abbrev inherited : Text → Bool
inherited name = name === codes "constructor"

abbrev parse_date : Text → Option ℤ
parse_date s = some (pos 5000)

abbrev shop : Merchant
shop = record { plan = some (codes "pro"); plan_expires_at = some (codes "then") }

-- An override that lifts the cap of one plan.
abbrev members : List (Text × Member)
members = (codes "free", json_whole 10) ∷ (codes "pro", json_null) ∷ []

abbrev parse : Text → Option Json
parse text = some (json_object members)

parse_plan_limits-lifted_example :
    (codes "pro" ≡ codes "unlimited")
    ⊎ ((text : Text) × (found : List (Text × Member)) × (some (codes "{}") ≡ some text)
        × (some (json_object members) ≡ some (json_object found))
        × IsMember (codes "pro") json_null found
        × AreCaps found)
unfolding parse_plan_limits add_limits lookup insert ◌===◌
parse_plan_limits-lifted_example =
    parse_plan_limits-lifted parse (some (codes "{}")) (codes "pro") refl
