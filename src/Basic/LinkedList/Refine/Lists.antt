-- ===== src/Basic/LinkedList/Refine/Lists.antt =====
-- The operations on plain lists of values that stand for those of basic/linkedlist.go, on the values
-- of nodes.
use own_x_go.Base.{
  ℕ, zero, suc, ◌≤◌, ◌≡◌, refl, ap, Option, none, List, [], ◌∷◌, ◌++◌, arith, length, drop,
}
use own_x_go.Basic.LinkedList.Cells.{Cells, values}
use own_x_go.Basic.LinkedList.Refine.{value_at, last_value, all_but_last, insert_before, delete_at}

module _ {A : Type 0} where
  pub values-append : (xs ys : Cells A) → values (xs ++ ys) ≡ values xs ++ values ys
  values-append [] ys = refl
  values-append ((a, v) ∷ xs) ys = ap (◌∷◌ v) (values-append xs ys)

  pub length-values : (xs : Cells A) → length (values xs) ≡ length xs
  length-values [] = refl
  length-values (c ∷ xs) = ap suc (length-values xs)

  pub drop-values : (n : ℕ) (xs : Cells A) → drop n (values xs) ≡ values (drop n xs)
  drop-values zero xs = refl
  drop-values (suc n) [] = refl
  drop-values (suc n) (c ∷ xs) = drop-values n xs

  pub insert_before-values :
      (p : ℕ) (v : Option A) (xs ys : Cells A)
      → insert_before (length xs) v (values (xs ++ ys)) ≡ values (xs ++ ((p, v) ∷ ys))
  insert_before-values p v [] ys = refl
  insert_before-values p v ((a, w) ∷ xs) ys = ap (◌∷◌ w) (insert_before-values p v xs ys)

  pub insert_before_end :
      (v : Option A) (vs : List (Option A)) → insert_before (length vs) v vs ≡ vs ++ (v ∷ [])
  insert_before_end v [] = refl
  insert_before_end v (w ∷ vs) = ap (◌∷◌ w) (insert_before_end v vs)

  pub delete_at-values :
      (a : ℕ) (v : Option A) (xs ys : Cells A)
      → delete_at (length xs) (values (xs ++ ((a, v) ∷ ys))) ≡ values (xs ++ ys)
  delete_at-values a v [] ys = refl
  delete_at-values a v ((b, w) ∷ xs) ys = ap (◌∷◌ w) (delete_at-values a v xs ys)

  pub delete_at_beyond : (i : ℕ) (vs : List (Option A)) → length vs ≤ i → delete_at i vs ≡ vs
  delete_at_beyond i [] h = refl
  delete_at_beyond zero (v ∷ vs) h = absurd (omega arith)
  delete_at_beyond (suc i) (v ∷ vs) h = ap (◌∷◌ v) (delete_at_beyond i vs (omega arith))

  pub value_at-values :
      (a : ℕ) (v : Option A) (xs ys : Cells A)
      → value_at (length xs) (values (xs ++ ((a, v) ∷ ys))) ≡ v
  value_at-values a v [] ys = refl
  value_at-values a v ((b, w) ∷ xs) ys = value_at-values a v xs ys

  pub value_at_beyond : (i : ℕ) (vs : List (Option A)) → length vs ≤ i → value_at i vs ≡ none
  value_at_beyond i [] h = refl
  value_at_beyond zero (v ∷ vs) h = absurd (omega arith)
  value_at_beyond (suc i) (v ∷ vs) h = value_at_beyond i vs (omega arith)

  pub last_value-values :
      (a : ℕ) (v : Option A) (zs : Cells A) → last_value (values (zs ++ ((a, v) ∷ []))) ≡ v
  last_value-values a v [] = refl
  last_value-values a v (c ∷ []) = refl
  last_value-values a v (c ∷ d ∷ zs) = last_value-values a v (d ∷ zs)

  pub all_but_last-values :
      (a : ℕ) (v : Option A) (zs : Cells A)
      → all_but_last (values (zs ++ ((a, v) ∷ []))) ≡ values zs
  all_but_last-values a v [] = refl
  all_but_last-values a v (c ∷ []) = refl
  all_but_last-values a v (c ∷ d ∷ zs) = ap (◌∷◌ c.1) (all_but_last-values a v (d ∷ zs))
