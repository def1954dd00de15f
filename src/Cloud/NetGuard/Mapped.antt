-- ===== src/Cloud/NetGuard/Mapped.antt =====
-- packages/cloud/src/net-guard.ts: IPv6 addresses that carry an IPv4 address.
use zettapay.Prelude.{
  ℕ, ◌≡◌, refl, subst, Bool, true, false, ◌&&◌, ◌||◌, Option, none, some, List, [], ◌∷◌, ◌++◌, Text,
  codes, ◌==◌, ◌===◌, has, if◌then◌else◌, split, split_from, to_lower_case, lower, arith,
  Bool-cases, Option-cases, inl, inr,
}
use zettapay.Cloud.NetGuard.Addresses.{
  all_digits, is_quad, mapped, strip_prefix, judge, is_non_public_address, parse_hex, head_group,
}

abbrev each_digits : List Text → Bool
each_digits [] = true
each_digits (s ∷ more) = all_digits s && each_digits more

is_quad-each_digits : (parts : List Text) → each_digits parts ≡ false → is_quad parts ≡ false
is_quad-each_digits [] h = refl
is_quad-each_digits (a ∷ []) h = refl
is_quad-each_digits (a ∷ b ∷ []) h = refl
is_quad-each_digits (a ∷ b ∷ c ∷ []) h = refl
is_quad-each_digits ([] ∷ b ∷ c ∷ d ∷ []) h = refl
is_quad-each_digits ((x ∷ a) ∷ b ∷ c ∷ d ∷ []) h = ground arith
is_quad-each_digits (a ∷ b ∷ c ∷ d ∷ e ∷ more) h = refl

all_digits-colon : (s : Text) → has b':' s ≡ true → all_digits s ≡ false
all_digits-colon [] h = cc
all_digits-colon (c ∷ s) h = ground (arith, all_digits-colon s)

has-append : (n : ℕ) (s t : Text) → has n (s ++ t) ≡ (has n s || has n t)
has-append n [] t = refl
has-append n (c ∷ s) t = ground (arith, has-append n s t)

split_from-colon :
    (s cur : Text)
    → (has b':' cur || has b':' s) ≡ true
    → each_digits (split_from b'.' cur s) ≡ false
unfolding split_from
split_from-colon [] cur h = ground (arith, all_digits-colon cur)
split_from-colon (c ∷ s) cur h = ground (
  arith,
  all_digits-colon cur,
  split_from-colon s [],
  split_from-colon s (cur ++ c ∷ []),
  has-append b':' cur (c ∷ []),
)

-- What holds a colon is no dotted quad.
colon-is_quad : (s : Text) → has b':' s ≡ true → is_quad (split b'.' s) ≡ false
unfolding split
colon-is_quad s h = is_quad-each_digits (split b'.' s) (split_from-colon s [] h)

colon-mapped : (s : Text) → has b':' s ≡ true → mapped (codes "::ffff:" ++ s) ≡ none
unfolding mapped
colon-mapped s h = rw (colon-is_quad s h) refl

lower-colon : (x y : Text) → has b':' (to_lower_case (x ++ b':' ∷ y)) ≡ true
unfolding to_lower_case
lower-colon [] y = refl
lower-colon (c ∷ x) y = ground (arith, lower-colon x y)

kept :
    (b : Bool) (s : Text) {t : Text} → (if b then some s else none) ≡ some t → (b ≡ true) × (s ≡ t)
kept true s h = (refl, cc)
kept false s h = cc

mapped-is_quad : (a quad : Text) → mapped a ≡ some quad → is_quad (split b'.' quad) ≡ true
unfolding mapped
mapped-is_quad a quad e = from (strip_prefix (codes "::ffff:") a) e
  where
    from :
        (rest : Option Text)
        → (elim rest [ none ↦ none | some s ↦ if is_quad (split b'.' s) then some s else none ])
          ≡ some quad
        → is_quad (split b'.' quad) ≡ true
    from none h = cc
    from (some s) h =
        let (good, same) = kept (is_quad (split b'.' s)) s h in
        subst (λ t. is_quad (split b'.' t) ≡ true) same good

lower-not_colon : (c : ℕ) → (b':' == c) ≡ false → (b':' == lower c) ≡ false
unfolding lower
lower-not_colon c h = ground arith

no_colon-mapped : (s : Text) → has b':' s ≡ false → mapped (to_lower_case s) ≡ none
unfolding mapped to_lower_case lower
no_colon-mapped [] h = refl
no_colon-mapped (c ∷ s) h = rw (mapped, lower-not_colon c (ground arith)) refl

-- A dotted quad holds no other address.
mapped_again : (a quad : Text) → mapped a ≡ some quad → mapped (to_lower_case quad) ≡ none
mapped_again a quad e = elim (Bool-cases (has b':' quad)) [
  | inl colon ↦ cc (colon-is_quad quad colon, mapped-is_quad a quad e)
  | inr plain ↦ no_colon-mapped quad plain
]

module _ (is_ip : Text → ℕ) where
  -- The hexadecimal form of an IPv6 address that carries an IPv4 address is taken for public,
  -- whatever the address that it carries.
  pub hex_form-is_non_public_address :
      (x y : Text)
      → is_ip (codes "::ffff:" ++ x ++ b':' ∷ y) ≡ 6
      → is_non_public_address is_ip (codes "::ffff:" ++ x ++ b':' ∷ y) ≡ false
  unfolding is_non_public_address judge to_lower_case head_group split ◌===◌ parse_hex
  hex_form-is_non_public_address x y six =
      rw (six, colon-mapped (to_lower_case (x ++ b':' ∷ y)) (lower-colon x y)) refl

  -- The call on an embedded address does not come to another such call: the function is the
  -- solution of its own recursive equation.
  pub is_non_public_address-recursive :
      (address : Text)
      → is_non_public_address is_ip address ≡ judge is_ip (is_non_public_address is_ip) address
  unfolding is_non_public_address judge
  is_non_public_address-recursive address = elim (Option-cases (mapped (to_lower_case address))) [
    | inl plain ↦ rw plain refl
    | inr (quad, e) ↦ rw (e, mapped_again _ quad e) refl
  ]
