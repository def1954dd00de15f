-- ===== src/Cloud/NetGuard/Names.antt =====
-- packages/cloud/src/net-guard.ts: what the tests on a host's text say.
use mathlib.Core.List.{reverse, reverse-append, reverse-reverse}
use zettapay.Prelude.{
  ◌≡◌, ◌⊎◌, ◌↔◌, inl, inr, refl, sym, ap, ◌∙◌, ==_iff, Bool, true, false, ◌||◌, none, some, [], ◌∷◌,
  ◌++◌, Text, codes, ◌==◌, is_some, text_eq_iff, arith, Bool-cases, Option-cases,
}
use zettapay.Cloud.NetGuard.Addresses.{strip_prefix}
use zettapay.Cloud.NetGuard.{strip_brackets, ends_with, is_local_name}

-- The text ends so.
abbrev pub EndsWith : Text → Text → Type 0
EndsWith s suffix = (start : Text) × (s ≡ start ++ suffix)

-- The name of this machine or of the local network.
abbrev pub IsLocalName : Text → Type 0
IsLocalName host =
    (((host ≡ codes "localhost") ⊎ EndsWith host (codes ".localhost"))
      ⊎ EndsWith host (codes ".internal"))
    ⊎ EndsWith host (codes ".local")

some-injective : {A : Type 0} {a b : A} → some a ≡ some b → a ≡ b
some-injective e = cc

strip_prefix_sound : (p s : Text) {r : Text} → strip_prefix p s ≡ some r → s ≡ p ++ r
strip_prefix_sound [] s e = some-injective e
strip_prefix_sound (x ∷ p) [] e = cc
strip_prefix_sound (x ∷ p) (c ∷ s) {r} e = elim (Bool-cases (x == c)) [
  | inl same ↦
      let rest : strip_prefix p s ≡ some r = rw same at e in
      let c_is : c ≡ x = sym ((==_iff x c).0 same) in
      ap (λ t. c ∷ t) (strip_prefix_sound p s rest) ∙ ap (λ y. y ∷ p ++ r) c_is
  | inr other ↦ let gone : none ≡ some r = rw other at e in cc
]

strip_prefix_complete : (p r : Text) → strip_prefix p (p ++ r) ≡ some r
strip_prefix_complete [] r = refl
strip_prefix_complete (x ∷ p) r = ground (arith, strip_prefix_complete p r, ==_iff x x)

ends_with_sound : (s suffix : Text) → ends_with s suffix ≡ true → EndsWith s suffix
ends_with_sound s suffix e = elim (Option-cases (strip_prefix (reverse suffix) (reverse s))) [
  | inl missing ↦ let gone : false ≡ true = sym (ap is_some missing) ∙ e in cc
  | inr (r, found) ↦
      let split = strip_prefix_sound (reverse suffix) (reverse s) found in
      (
        reverse r,
        sym (reverse-reverse s)
            ∙ ap reverse split
            ∙ reverse-append (reverse suffix) r
            ∙ ap (λ t. reverse r ++ t) (reverse-reverse suffix),
      )
]

ends_with_complete : (s suffix : Text) → EndsWith s suffix → ends_with s suffix ≡ true
ends_with_complete s suffix (start, e) =
    let split = ap reverse e ∙ reverse-append start suffix in
    rw split (ap is_some (strip_prefix_complete (reverse suffix) (reverse start)))

ends_with_iff : (s suffix : Text) → (ends_with s suffix ≡ true) ↔ EndsWith s suffix
ends_with_iff s suffix = (ends_with_sound s suffix, ends_with_complete s suffix)

either_iff :
    (a b : Bool) {P Q : Type 0} → (a ≡ true) ↔ P → (b ≡ true) ↔ Q → (a || b ≡ true) ↔ (P ⊎ Q)
either_iff true b h k = ((λ e. inl (h.0 refl)), (λ pq. refl))
either_iff false b h k =
    ((λ e. inr (k.0 e)), (λ pq. elim pq [ inl p ↦ absurd (false_is_true (h.1 p)) | inr q ↦ k.1 q ]))
  where
    false_is_true : false ≡ true → ⊥
    false_is_true e = cc

is_local_name_iff : (host : Text) → (is_local_name host ≡ true) ↔ IsLocalName host
unfolding is_local_name
is_local_name_iff host =
    either_iff _ _
      (either_iff _ _
        (either_iff _ _ (text_eq_iff host (codes "localhost"))
          (ends_with_iff host (codes ".localhost")))
        (ends_with_iff host (codes ".internal")))
      (ends_with_iff host (codes ".local"))

pub is_local_name-IsLocalName :
    (host : Text) → (is_local_name host ≡ false) ↔ (¬ (IsLocalName host))
is_local_name-IsLocalName host = (
  (λ e local. cc (e, (is_local_name_iff host).1 local)),
  (λ none_local. elim (Bool-cases (is_local_name host)) [
    | inl local ↦ absurd (none_local ((is_local_name_iff host).0 local))
    | inr e ↦ e
  ]),
)

-- A bracketed host loses its brackets.
pub strip_brackets-bracketed : (s : Text) → strip_brackets (b'[' ∷ s ++ b']' ∷ []) ≡ s
strip_brackets-bracketed s = rw (reverse-append, reverse-reverse) refl
