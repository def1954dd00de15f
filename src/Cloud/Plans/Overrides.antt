-- ===== src/Cloud/Plans/Overrides.antt =====
-- packages/cloud/src/plans.ts: what an operator's override can do to the caps.
use zettapay.Prelude.{
  ℕ, ◌≡◌, ◌≢◌, ◌⊎◌, refl, ap, ◌∙◌, true, false, Option, none, some, List, [], ◌∷◌, Text, ◌===◌,
  codes, text_eq_iff, Bool-cases, inl, inr, arith,
}
use zettapay.Prelude.Dict.{lookup, insert, lookup-insert}
use zettapay.Cloud.Plans.{
  PlanLimits, Member, json_null, json_whole, other_member, Json, json_object, other_json,
  add_limits, or_default, limits_of, parse_plan_limits, default_plan_limits,
}

-- The member stands in the object.
abbrev pub IsMember : Text → Member → List (Text × Member) → Type 0
IsMember p m [] = ⊥
IsMember p m ((q, n) ∷ more) = ((q ≡ p) × (n ≡ m)) ⊎ IsMember p m more

some-injective : {A : Type 0} {a b : A} → some a ≡ some b → a ≡ b
some-injective e = cc

-- No member of the object is anything but a cap or `null`.
abbrev pub AreCaps : List (Text × Member) → Type 0
AreCaps [] = Unit
AreCaps ((q, json_null) ∷ more) = AreCaps more
AreCaps ((q, json_whole n) ∷ more) = AreCaps more
AreCaps ((q, other_member) ∷ more) = ⊥

add_limits-AreCaps :
    (members : List (Text × Member)) (limits : PlanLimits) {out : PlanLimits}
    → add_limits members limits ≡ some out
    → AreCaps members
unfolding add_limits
add_limits-AreCaps [] limits e = tt
add_limits-AreCaps ((q, json_null) ∷ more) limits e =
    add_limits-AreCaps more (insert q none limits) e
add_limits-AreCaps ((q, json_whole n) ∷ more) limits e =
    add_limits-AreCaps more (insert q (some n) limits) e
add_limits-AreCaps ((q, other_member) ∷ more) limits e = cc

kept :
    (q p : Text) (limit : Option ℕ) (limits : PlanLimits)
    → (q === p) ≡ false
    → lookup p limits ≡ lookup p (insert q limit limits)
kept q p limit limits other = ground (arith, other, lookup-insert q p limit limits)

capped :
    (q p : Text) (n : ℕ) (limits : PlanLimits)
    → (q === p) ≡ true
    → lookup p (insert q (some n) limits) ≡ some (some n)
capped q p n limits same = ground (arith, same, lookup-insert q p (some n) limits)

empty-lifted : (p : Text) → lookup {V = Option ℕ} p [] ≢ some none
unfolding lookup
empty-lifted p h = cc

-- A cap is lifted only by a `null` under the plan's name.
add_limits-lifted :
    (p : Text) (members : List (Text × Member)) (limits : PlanLimits) {out : PlanLimits}
    → add_limits members limits ≡ some out
    → lookup p out ≡ some none
    → (lookup p limits ≡ some none) ⊎ IsMember p json_null members
unfolding add_limits
add_limits-lifted p [] limits {out = out} e h =
    let same : limits ≡ out = some-injective e in inl (ap (lookup p) same ∙ h)
add_limits-lifted p ((q, json_null) ∷ more) limits e h =
    elim (add_limits-lifted p more (insert q none limits) e h) [
      | inl old ↦ elim (Bool-cases (q === p)) [
        | inl same ↦ inr (inl ((text_eq_iff q p).0 same, refl))
        | inr other ↦ inl (kept q p none limits other ∙ old)
      ]
      | inr found ↦ inr (inr found)
    ]
add_limits-lifted p ((q, json_whole n) ∷ more) limits e h =
    elim (add_limits-lifted p more (insert q (some n) limits) e h) [
      | inl old ↦ elim (Bool-cases (q === p)) [
        | inl same ↦ cc (old, capped q p n limits same)
        | inr other ↦ inl (kept q p (some n) limits other ∙ old)
      ]
      | inr found ↦ inr (inr found)
    ]
add_limits-lifted p ((q, other_member) ∷ more) limits e h = cc

default-lifted : (p : Text) → lookup p default_plan_limits ≡ some none → p ≡ codes "unlimited"
unfolding lookup
default-lifted p h = ground (arith, text_eq_iff (codes "unlimited") p)

-- What the parsed value can lift.
limits_of-lifted :
    (parsed : Option Json) (p : Text)
    → lookup p (limits_of parsed) ≡ some none
    → (p ≡ codes "unlimited")
      ⊎ ((members : List (Text × Member)) × (parsed ≡ some (json_object members))
          × IsMember p json_null members
          × AreCaps members)
limits_of-lifted none p h = inl (default-lifted p h)
limits_of-lifted (some other_json) p h = inl (default-lifted p h)
limits_of-lifted (some (json_object members)) p h = by_limits (add_limits members []) refl h
  where
    by_limits :
        (o : Option PlanLimits)
        → add_limits members [] ≡ o
        → lookup p (or_default o) ≡ some none
        → (p ≡ codes "unlimited")
          ⊎ ((found : List (Text × Member)) × (some (json_object members)
                ≡ some (json_object found))
              × IsMember p json_null found
              × AreCaps found)
    by_limits none e k = inl (default-lifted p k)
    by_limits (some []) e k = inl (default-lifted p k)
    by_limits (some (entry ∷ out)) e k = elim (add_limits-lifted p members [] e k) [
      | inl old ↦ absurd (empty-lifted p old)
      | inr found ↦ inr (members, refl, found, add_limits-AreCaps members [] e)
    ]

-- A plan is unlimited only if it is the plan `unlimited`, or if the override is an object that says
-- `null` for it by name and of which every member is a cap or `null`: an override that is absent,
-- that does not parse or that holds anything which is no cap lifts no cap.
pub parse_plan_limits-lifted :
    (parse : Text → Option Json) (raw : Option Text) (p : Text)
    → lookup p (parse_plan_limits parse raw) ≡ some none
    → (p ≡ codes "unlimited")
      ⊎ ((text : Text) × (members : List (Text × Member)) × (raw ≡ some text)
          × (parse text ≡ some (json_object members))
          × IsMember p json_null members
          × AreCaps members)
unfolding parse_plan_limits
parse_plan_limits-lifted parse none p h = inl (default-lifted p h)
parse_plan_limits-lifted parse (some []) p h = inl (default-lifted p h)
parse_plan_limits-lifted parse (some (c ∷ raw)) p h =
    elim (limits_of-lifted (parse (c ∷ raw)) p h) [
      | inl named ↦ inl named
      | inr (members, parsed, found, caps) ↦ inr (c ∷ raw, members, refl, parsed, found, caps)
    ]
