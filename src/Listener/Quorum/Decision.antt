-- ===== src/Listener/Quorum/Decision.antt =====
-- What `decideTransferQuorum` (packages/listener/src/rpc-quorum.ts) decides.
use zettapay.Prelude.{
  ℕ, ◌≤◌, ◌≡◌, refl, ap, ◌≢◌, ◌⊎◌, inl, inr, none, some, List, [], ◌∷◌, All, length, arith,
  if◌then◌else◌, ltb, Bool-cases, Option-cases,
}
use zettapay.Listener.Quorum.{
  RpcObservation, Group, agreed, group_from, top_from, decide_top, decide_transfer_quorum,
}
use zettapay.Listener.Quorum.Counts.{reporters, IsLeast}
use zettapay.Listener.Quorum.Laws.{
  size, In, size-group_from, Distinct-group_from, Bounds-group_from, In-size, In-Bounds,
}

abbrev AtMost : ℕ → List Group → Type 0
AtMost n gs = All (λ (g : Group). g.count ≤ n) gs

size-le : (w n : ℕ) (gs : List Group) → AtMost n gs → size w gs ≤ n
size-le w n [] h = omega arith
size-le w n (g ∷ gs) h = ground (arith, size-le w n gs h.1)

top_from-some :
    (s : Group) (gs : List Group) {t : Group}
    → top_from (some s) gs ≡ some t
    → ((s ≡ t) ⊎ In t gs) × (s.count ≤ t.count) × AtMost t.count gs
unfolding top_from
top_from-some s [] e = (inl (ground arith), ground arith, tt)
top_from-some s (g ∷ gs) e = elim (Bool-cases (ltb s.count g.count)) [
  | inl larger ↦
      let (at, le, rest) = top_from-some g gs (rw (larger, top_from) at e) in
      (inr at, ground arith, (le, rest))
  | inr not_larger ↦
      let (at, le, rest) = top_from-some s gs (rw (not_larger, top_from) at e) in
      (elim at [ inl same ↦ inl same | inr later ↦ inr (inr later) ], le, (ground arith, rest))
]

top_from_lem :
    (gs : List Group) {t : Group} → top_from none gs ≡ some t → In t gs × AtMost t.count gs
unfolding top_from
top_from_lem [] e = cc
top_from_lem (g ∷ gs) e = let (at, le, rest) = top_from-some g gs e in (at, (le, rest))

top_from_total : (s : Group) (gs : List Group) → (t : Group) × (top_from (some s) gs ≡ some t)
unfolding top_from
top_from_total s [] = (s, refl)
top_from_total s (g ∷ gs) = top_from_total (if ltb s.count g.count then g else s) gs

-- What is known of the largest group, against the counts.
top-counts :
    (os : List RpcObservation) {t : Group}
    → top_from none (group_from [] os) ≡ some t
    → (reporters t.value os ≡ t.count)
      × ((w : ℕ) → reporters w os ≤ t.count)
      × IsLeast t.value t.min_conf os
top-counts os {t} e =
    let groups = group_from [] os in
    let (member, most) = top_from_lem groups e in
    let distinct = Distinct-group_from [] os tt in
    (
      omega (arith, In-size t groups distinct member, size-group_from t.value [] os),
      λ w. omega (arith, size-le w t.count groups most, size-group_from w [] os),
      (Bounds-group_from t.value t.min_conf [] os (In-Bounds t groups distinct member)).1,
    )

none_not_agreed : (size threshold : ℕ) {v c n : ℕ} → decide_top size threshold none ≢ agreed v c n
unfolding decide_top
none_not_agreed size threshold e = cc

group_none : (gs : List Group) → top_from none gs ≡ none → gs ≡ []
unfolding top_from
group_none [] e = refl
group_none (g ∷ gs) e = let (t, found) = top_from_total g gs in cc

top_none-reporters :
    (w : ℕ) (os : List RpcObservation)
    → top_from none (group_from [] os) ≡ none
    → reporters w os ≡ 0
top_none-reporters w os e =
    omega (arith, size-group_from w [] os, ap (size w) (group_none (group_from [] os) e))

decide_top-agreed :
    (size threshold : ℕ) (t : Group) {v c n : ℕ}
    → decide_top size threshold (some t) ≡ agreed v c n
    → (threshold ≤ t.count) × (t.value ≡ v) × (t.min_conf ≡ c) × (t.count ≡ n)
unfolding decide_top
decide_top-agreed size threshold t e = ground arith

-- An agreed value has at least `threshold` reporters, as many as any other value; the agreed depth
-- is at most every depth reported with it.
pub agreed_sound :
    (os : List RpcObservation) (threshold : ℕ) {v c n : ℕ}
    → decide_transfer_quorum os threshold ≡ agreed v c n
    → (threshold ≤ n) × (reporters v os ≡ n) × ((w : ℕ) → reporters w os ≤ n) × IsLeast v c os
unfolding decide_transfer_quorum
agreed_sound os threshold {v} {c} {n} e = elim (Option-cases (top_from none (group_from [] os))) [
  | inl missing ↦ absurd (none_not_agreed (length (group_from [] os)) threshold (rw missing at e))
  | inr (t, found) ↦
      let (own, most, least) = top-counts os found in
      let (enough, same_v, same_c, same_n) =
        decide_top-agreed (length (group_from [] os)) threshold t (rw found at e) in
      (
        omega arith,
        rw (← same_v, ← same_n) own,
        λ w. omega (arith, most w),
        rw (← same_v, ← same_c) least,
      )
]

-- A value with enough reporters makes the poll agree on a value: no transfer is held back then.
pub agreed_complete :
    (os : List RpcObservation) (threshold : ℕ) (w : ℕ)
    → 1 ≤ threshold
    → threshold ≤ reporters w os
    → (v : ℕ) × (c : ℕ) × (n : ℕ) × (decide_transfer_quorum os threshold ≡ agreed v c n)
unfolding decide_transfer_quorum decide_top
agreed_complete os threshold w pos enough = elim (Option-cases (top_from none (group_from [] os))) [
  | inl missing ↦ absurd (ground (arith, top_none-reporters w os missing))
  | inr (t, found) ↦
      let (_, most, _) = top-counts os found in
      (t.value, t.min_conf, t.count, rw found (ground (arith, most w)))
]
