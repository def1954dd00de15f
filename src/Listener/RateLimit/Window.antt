-- ===== src/Listener/RateLimit/Window.antt =====
-- A ring of recent hits mirrors the log of all hits that were let in: pruning is a filter, since
-- the clock does not go back.
use zettapay.Prelude.{
  ℕ, ◌+◌, ◌≤◌, ◌<◌, ◌≡◌, refl, Bool, ◌&&◌, List, [], ◌∷◌, ◌++◌, All, All-append, length,
  length-append, keep, keep-append, ltb, leb, arith, ap, ◌∙◌,
}
use zettapay.Listener.RateLimit.{prune}

abbrev pub IsSorted : List ℕ → Type 0
IsSorted [] = Unit
IsSorted (x ∷ xs) = All (λ y. x ≤ y) xs × IsSorted xs

-- The hit still counts at `t`.
abbrev pub live : ℕ → ℕ → ℕ → Bool
live window t h = ltb t (h + window)

-- How many hits of the log fall in the window that ends at `t`: after `t - window`, up to `t`.
abbrev pub count_in : ℕ → ℕ → List ℕ → ℕ
count_in window t log = length (keep (λ h. leb h t && live window t h) log)

All-live :
    (window t h : ℕ) (ring : List ℕ)
    → t < h + window
    → All (λ y. h ≤ y) ring
    → keep (live window t) ring ≡ ring
All-live window t h [] p a = refl
All-live window t h (x ∷ ring) p a = ground (arith, All-live window t h ring p a.1)

prune-keep :
    (window t : ℕ) (ring : List ℕ) → IsSorted ring → prune window t ring ≡ keep (live window t) ring
unfolding prune
prune-keep window t [] s = refl
prune-keep window t (h ∷ ring) s =
    ground (arith, prune-keep window t ring s.1, All-live window t h ring)

All-le-keep :
    (x : ℕ) (p : ℕ → Bool) (xs : List ℕ) → All (λ y. x ≤ y) xs → All (λ y. x ≤ y) (keep p xs)
All-le-keep x p [] a = tt
All-le-keep x p (y ∷ xs) a = ground (arith, All-le-keep x p xs a.1)

IsSorted-keep : (p : ℕ → Bool) (xs : List ℕ) → IsSorted xs → IsSorted (keep p xs)
IsSorted-keep p [] s = tt
IsSorted-keep p (x ∷ xs) s = ground (arith, IsSorted-keep p xs s.1, All-le-keep x p xs s.0)

IsSorted-snoc : (xs : List ℕ) (t : ℕ) → IsSorted xs → All (λ h. h ≤ t) xs → IsSorted (xs ++ t ∷ [])
IsSorted-snoc [] t s a = (tt, tt)
IsSorted-snoc (x ∷ xs) t s a =
    (All-append (λ y. x ≤ y) xs (t ∷ []) s.0 (a.0, tt), IsSorted-snoc xs t s.1 a.1)

-- Filtering by a later time forgets an earlier filter.
keep-keep_later :
    (window t t' : ℕ) (xs : List ℕ)
    → t ≤ t'
    → keep (live window t') (keep (live window t) xs) ≡ keep (live window t') xs
keep-keep_later window t t' [] le = refl
keep-keep_later window t t' (x ∷ xs) le = ground (arith, keep-keep_later window t t' xs le)

All-le-later : (t t' : ℕ) (xs : List ℕ) → t ≤ t' → All (λ h. h ≤ t) xs → All (λ h. h ≤ t') xs
All-le-later t t' [] le a = tt
All-le-later t t' (x ∷ xs) le a = (omega arith, All-le-later t t' xs le a.1)

-- The ring holds the hits of the log that were live when it was last pruned, at `at`.
pub record Mirrors (window at : ℕ) (ring log : List ℕ) : Type 0 where
  pub sorted : IsSorted log
  pub past : All (λ h. h ≤ at) log
  pub same : ring ≡ keep (live window at) log

pub Mirrors-prune :
    {window at t : ℕ} {ring log : List ℕ}
    → Mirrors window at ring log
    → at ≤ t
    → Mirrors window t (prune window t ring) log
Mirrors-prune {window} {at} {t} {ring} {log} m le = record {
  sorted = m.sorted;
  past = All-le-later at t log le m.past;
  same =
      ap (prune window t) m.same
      ∙ prune-keep window t (keep (live window at) log)
          (IsSorted-keep (live window at) log m.sorted)
      ∙ keep-keep_later window at t log le;
}

pub Mirrors-push :
    {window t : ℕ} {ring log : List ℕ}
    → Mirrors window t ring log
    → 0 < window
    → Mirrors window t (ring ++ t ∷ []) (log ++ t ∷ [])
Mirrors-push {window} {t} {ring} {log} m pos = record {
  sorted = IsSorted-snoc log t m.sorted m.past;
  past = All-append (λ h. h ≤ t) log (t ∷ []) m.past (omega arith, tt);
  same = ap (λ r. r ++ t ∷ []) m.same ∙ last_live;
}
  where
    last_live : keep (live window t) log ++ t ∷ [] ≡ keep (live window t) (log ++ t ∷ [])
    last_live = ground (arith, keep-append (live window t) log (t ∷ []))

-- No window ever holds more than `cap` hits of the log.
abbrev pub IsBounded : ℕ → ℕ → List ℕ → Type 0
IsBounded window cap log = (t : ℕ) → count_in window t log ≤ cap

count_in-le_live :
    (window t t' : ℕ) (log : List ℕ)
    → t' ≤ t
    → count_in window t log ≤ length (keep (live window t') log)
count_in-le_live window t t' [] le = omega arith
count_in-le_live window t t' (h ∷ log) le = ground (arith, count_in-le_live window t t' log le)

-- Letting a hit in while fewer than `cap` are live keeps every window bounded.
pub IsBounded-push :
    {window cap t : ℕ} {ring log : List ℕ}
    → Mirrors window t ring log
    → length ring < cap
    → IsBounded window cap log
    → IsBounded window cap (log ++ t ∷ [])
IsBounded-push {window} {cap} {t} {ring} {log} m room bounded t' = ground (
  arith,
  keep-append (λ h. leb h t' && live window t' h) log (t ∷ []),
  length-append (keep (λ h. leb h t' && live window t' h) log)
      (keep (λ h. leb h t' && live window t' h) (t ∷ [])),
  bounded t',
  count_in-le_live window t' t log,
  ap length m.same,
)
