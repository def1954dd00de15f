-- ===== src/Listener/Storage/Select.antt =====
-- The loops that read a directory, skip the files that do not parse, keep what passes a test and
-- break at a limit.
use zettapay.Prelude.{
  ℕ, zero, suc, ◌+◌, ◌≡◌, refl, Bool, ◌&&◌, List, [], ◌∷◌, keep, take, ltb, leb, arith,
  if◌then◌else◌,
}
use zettapay.Prelude.Dict.{Dict}
use zettapay.Listener.Storage.Monad.{File, good, corrupt}

-- `found` counts what was kept so far; a limit of 0 is no limit.
unfoldable pub select : {A : Type 0} → (A → Bool) → ℕ → ℕ → Dict (File A) → List A
select p limit found [] = []
select p limit found ((_, corrupt) ∷ d) = select p limit found d
select p limit found ((_, good a) ∷ d) =
    let full = a ∷ [] in
    let more = a ∷ select p limit (found + 1) d in
    let skip = select p limit found d in
    if p a then (if ltb 0 limit && leb limit (found + 1) then full else more) else skip

-- The files that parse.
abbrev pub good_files : {A : Type 0} → Dict (File A) → List A
good_files [] = []
good_files ((_, corrupt) ∷ d) = good_files d
good_files ((_, good a) ∷ d) = a ∷ good_files d

module _ {A : Type 0} (p : A → Bool) where
  -- With no limit the loop is a filter.
  pub select_unlimited :
      (found : ℕ) (d : Dict (File A)) → select p 0 found d ≡ keep p (good_files d)
  unfolding select
  select_unlimited found [] = refl
  select_unlimited found ((k, corrupt) ∷ d) = select_unlimited found d
  select_unlimited found ((k, good a) ∷ d) =
      ground (arith, select_unlimited found d, select_unlimited (found + 1) d)

  select_limited :
      (limit left found : ℕ) (d : Dict (File A))
      → limit ≡ found + suc left
      → select p limit found d ≡ take (suc left) (keep p (good_files d))
  unfolding select
  select_limited limit left found [] e = refl
  select_limited limit left found ((k, corrupt) ∷ d) e = select_limited limit left found d e
  select_limited limit zero found ((k, good a) ∷ d) e =
      ground (arith, select_limited limit zero found d)
  select_limited limit (suc left) found ((k, good a) ∷ d) e = ground (
    arith,
    select_limited limit (suc left) found d,
    select_limited limit left (found + 1) d (omega arith),
  )

  -- With a limit the loop keeps the first that pass.
  pub select-take :
      (n : ℕ) (d : Dict (File A)) → select p (suc n) 0 d ≡ take (suc n) (keep p (good_files d))
  select-take n d = select_limited (suc n) n 0 d (omega arith)
