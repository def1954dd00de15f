-- ===== src/Listener/Quorum/Laws.antt =====
-- The grouping loop and the choice of the largest group, against the counts of the observations.
use zettapay.Prelude.{
  ℕ, ◌+◌, ◌≤◌, ◌≡◌, ◌≢◌, ◌⊎◌, inl, inr, min, sym, List, [], ◌∷◌, All, arith, if◌then◌else◌, ◌==◌,
  Bool-cases,
}
use zettapay.Listener.Quorum.{RpcObservation, Group, add_observation, group_from}
use zettapay.Listener.Quorum.Counts.{reporters, IsLeast}

-- The count of the first group of `v`.
abbrev pub size : ℕ → List Group → ℕ
size v [] = 0
size v (g ∷ gs) = if g.value == v then g.count else size v gs

abbrev pub Distinct : List Group → Type 0
Distinct [] = Unit
Distinct (g ∷ gs) = All (λ (h : Group). h.value ≢ g.value) gs × Distinct gs

abbrev pub Bounds : ℕ → ℕ → List Group → Type 0
Bounds v c gs = All (λ (g : Group). g.value ≡ v → c ≤ g.min_conf) gs

abbrev pub In : Group → List Group → Type 0
In t [] = ⊥
In t (g ∷ gs) = (g ≡ t) ⊎ In t gs

size-add :
    (v : ℕ) (o : RpcObservation) (gs : List Group)
    → size v (add_observation o gs) ≡ (if o.value == v then size v gs + 1 else size v gs)
unfolding add_observation
size-add v o [] = ground arith
size-add v o (g ∷ gs) = ground (arith, size-add v o gs)

pub size-group_from :
    (v : ℕ) (gs : List Group) (os : List RpcObservation)
    → size v (group_from gs os) ≡ size v gs + reporters v os
unfolding group_from
size-group_from v gs [] = omega arith
size-group_from v gs (o ∷ os) =
    ground (arith, size-add v o gs, size-group_from v (add_observation o gs) os)

fresh-add :
    (w : ℕ) (o : RpcObservation) (gs : List Group)
    → o.value ≢ w
    → All (λ (h : Group). h.value ≢ w) gs
    → All (λ (h : Group). h.value ≢ w) (add_observation o gs)
unfolding add_observation
fresh-add w o [] ne h = (ne, tt)
fresh-add w o (g ∷ gs) ne h = ground (arith, fresh-add w o gs ne h.1)

Distinct-add :
    (o : RpcObservation) (gs : List Group) → Distinct gs → Distinct (add_observation o gs)
unfolding add_observation
Distinct-add o [] h = (tt, tt)
Distinct-add o (g ∷ gs) h = elim (Bool-cases (g.value == o.value)) [
  | inl same ↦ rw same h
  | inr other ↦ rw other (fresh-add g.value o gs (ground arith) h.0, Distinct-add o gs h.1)
]

pub Distinct-group_from :
    (gs : List Group) (os : List RpcObservation) → Distinct gs → Distinct (group_from gs os)
unfolding group_from
Distinct-group_from gs [] h = h
Distinct-group_from gs (o ∷ os) h =
    Distinct-group_from (add_observation o gs) os (Distinct-add o gs h)

Bounds-add :
    (v c : ℕ) (o : RpcObservation) (gs : List Group)
    → Bounds v c (add_observation o gs)
    → (o.value ≡ v → c ≤ o.confirmations) × Bounds v c gs
unfolding add_observation
Bounds-add v c o [] h = (h.0, tt)
Bounds-add v c o (g ∷ gs) h = elim (Bool-cases (g.value == o.value)) [
  | inl same ↦
      let h' : Bounds v c
          (record g { count = g.count + 1; min_conf = min g.min_conf o.confirmations } ∷ gs) =
        rw (same, add_observation) at h in
      (λ e. omega (arith, h'.0 (ground arith)), (λ e. omega (arith, h'.0 e), h'.1))
  | inr other ↦
      let h' : Bounds v c (g ∷ add_observation o gs) = rw (other, add_observation) at h in
      let (here, later) = Bounds-add v c o gs h'.1 in (here, (h'.0, later))
]

pub Bounds-group_from :
    (v c : ℕ) (gs : List Group) (os : List RpcObservation)
    → Bounds v c (group_from gs os)
    → Bounds v c gs × IsLeast v c os
unfolding group_from
Bounds-group_from v c gs [] h = (h, tt)
Bounds-group_from v c gs (o ∷ os) h =
    let (kept, least) = Bounds-group_from v c (add_observation o gs) os h in
    let (here, before) = Bounds-add v c o gs kept in (before, (here, least))

-- A group that stands in a list of distinct groups is the one of its value.
fresh-Bounds : (v c : ℕ) (gs : List Group) → All (λ (h : Group). h.value ≢ v) gs → Bounds v c gs
fresh-Bounds v c [] h = tt
fresh-Bounds v c (g ∷ gs) h = (λ e. absurd (h.0 e), fresh-Bounds v c gs h.1)

In-ne :
    (t : Group) (w : ℕ) (gs : List Group)
    → All (λ (h : Group). h.value ≢ w) gs
    → In t gs
    → t.value ≢ w
In-ne t w [] h m = absurd m
In-ne t w (g ∷ gs) h (inl e) = rw e at (h.0)
In-ne t w (g ∷ gs) h (inr m) = In-ne t w gs h.1 m

pub In-size : (t : Group) (gs : List Group) → Distinct gs → In t gs → size t.value gs ≡ t.count
In-size t [] d m = absurd m
In-size t (g ∷ gs) d (inl e) = ground arith
In-size t (g ∷ gs) d (inr m) = ground (arith, In-size t gs d.1 m, In-ne t g.value gs d.0 m)

pub In-Bounds : (t : Group) (gs : List Group) → Distinct gs → In t gs → Bounds t.value t.min_conf gs
In-Bounds t [] d m = absurd m
In-Bounds t (g ∷ gs) d (inl e) =
    (λ s. ground arith, rw e at (fresh-Bounds g.value g.min_conf gs d.0))
In-Bounds t (g ∷ gs) d (inr m) =
    (λ s. absurd (In-ne t g.value gs d.0 m (sym s)), In-Bounds t gs d.1 m)
