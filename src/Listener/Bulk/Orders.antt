-- ===== src/Listener/Bulk/Orders.antt =====
-- packages/listener/src/storage/json.ts: a directory is listed in no documented order, so its rows
-- come back in any.
use mathlib.Core.List.{Permᴰ}
use zettapay.Prelude.{◌≡◌, sym, ap, subst, ◌∙◌, none, List, ◌∷◌, Text, text_eq_iff, arith}
use zettapay.Listener.Sqlite.Tables.{find_row}
use zettapay.Listener.Bulk.Distinct.{HasDistinctIds}

module _ {A : Type 0} (id_of : A → Text) where
  find_row-Permᴰ :
      (k : Text) {rows listed : List A}
      → Permᴰ rows listed
      → find_row id_of k rows ≡ none
      → find_row id_of k listed ≡ none
  unfolding find_row
  find_row-Permᴰ k Permᴰ.nil h = h
  find_row-Permᴰ k (Permᴰ.cons e p) h = let same = ap id_of e in ground (arith, find_row-Permᴰ k p)
  find_row-Permᴰ k (Permᴰ.swap e e') h =
      let same = ap id_of e in let same' = ap id_of e' in ground arith
  find_row-Permᴰ k (Permᴰ.trans p q) h = find_row-Permᴰ k q (find_row-Permᴰ k p h)

  swapped :
      (a b : A) (l : List A) → HasDistinctIds id_of (a ∷ b ∷ l) → HasDistinctIds id_of (b ∷ a ∷ l)
  unfolding find_row
  swapped a b l h = ground (arith, text_eq_iff (id_of a) (id_of b), text_eq_iff (id_of b) (id_of a))

  pub Permᴰ-HasDistinctIds :
      {rows listed : List A}
      → Permᴰ rows listed
      → HasDistinctIds id_of rows
      → HasDistinctIds id_of listed
  unfolding find_row
  Permᴰ-HasDistinctIds Permᴰ.nil h = h
  Permᴰ-HasDistinctIds (Permᴰ.cons {l₁ = rows} {l₂ = listed} e p) h = (
    ap (λ k. find_row id_of k listed) (sym (ap id_of e)) ∙ find_row-Permᴰ _ p h.0,
    Permᴰ-HasDistinctIds p h.1,
  )
  Permᴰ-HasDistinctIds (Permᴰ.swap {a = a} {b = b} {b' = b'} {l = l} e e') h =
      subst (λ x. HasDistinctIds id_of (x ∷ b' ∷ l)) e'
        (subst (λ x. HasDistinctIds id_of (b ∷ x ∷ l)) e (swapped a b l h))
  Permᴰ-HasDistinctIds (Permᴰ.trans p q) h = Permᴰ-HasDistinctIds q (Permᴰ-HasDistinctIds p h)
