-- ===== src/Basic/LinkedList/Refine/Ends.antt =====
-- The calls at the ends of the linked list of basic/linkedlist.go refine those on a plain list.
use own_x_go.Base.{
  ℕ, suc, ◌≡◌, refl, sym, ap, subst, Option, none, some, List, [], ◌∷◌, ◌++◌, arith, inl, inr,
}
use own_x_go.Basic.LinkedList.{LinkedList, remove_last, remove_first}
use own_x_go.Basic.LinkedList.Cells.{Cells, values, snoc-cases}
use own_x_go.Basic.LinkedList.Links.{nonzero}
use own_x_go.Basic.LinkedList.Rep.{IsList, cell_of, Back-of}
use own_x_go.Basic.LinkedList.Edit.{add_last_lem, add_first_lem}
use own_x_go.Basic.LinkedList.Shrink.{remove_first_lem, remove_last_lem, clear_lem}
use own_x_go.Basic.LinkedList.Walk.{get_first, get_last}
use own_x_go.Basic.LinkedList.Refine.{
  Call, call_add_last, call_add_first, call_remove_first, call_remove_last, call_clear, call_size,
  call_get_first, call_get_last, on_list, on_linked, last_value, value, value_at,
}
use own_x_go.Basic.LinkedList.Refine.Lists.{
  values-append, length-values, last_value-values, all_but_last-values,
}

module _ {A : Type 0} where
  remove_first_empty : (l : LinkedList A) → l.first ≡ 0 → remove_first l ≡ some (l, none)
  unfolding remove_first
  remove_first_empty l e = ground (arith, e)

  remove_last_empty : (l : LinkedList A) → l.last ≡ 0 → remove_last l ≡ some (l, none)
  unfolding remove_last
  remove_last_empty l e = ground (arith, e)

  get_first_lem :
      (l : LinkedList A) (xs : Cells A) → IsList l xs → get_first l ≡ value_at 0 (values xs)
  unfolding get_first
  get_first_lem l [] h = rw h.begins
  get_first_lem l ((a, v) ∷ xs) h = let c = cell_of h.chain in rw (h.begins, nonzero a c.0, c.1)

  GetsLast : Cells A → Type 0
  GetsLast xs = (l : LinkedList A) → IsList l xs → get_last l ≡ last_value (values xs)

  get_last_snoc : (a : ℕ) (v : Option A) (zs : Cells A) → GetsLast (zs ++ ((a, v) ∷ []))
  unfolding get_last GetsLast
  get_last_snoc a v zs l h =
      let b = Back-of zs ((a, v) ∷ []) h in
      let c = cell_of b.chain in rw (b.ends, nonzero a c.0, c.1, last_value-values a v zs)

  get_last_lem :
      (l : LinkedList A) (xs : Cells A) → IsList l xs → get_last l ≡ last_value (values xs)
  unfolding get_last GetsLast
  get_last_lem l xs = elim (snoc-cases xs) [
    | inl e ↦ subst GetsLast (sym e) (λ l h. rw h.ends) l
    | inr (zs, a, v, e) ↦ subst GetsLast (sym e) (get_last_snoc a v zs) l
  ]

module _ {A : Type 0} (dec : Discrete A) where
  -- The call returns, with the answer and the list of values of the call on a plain list.
  pub record Refined (c : Call A) (l : LinkedList A) (vs : List (Option A)) : Type 0 where
    pub after : LinkedList A
    pub cells : Cells A
    pub returns : on_linked dec c l ≡ some (after, (on_list dec c vs).1)
    pub holds : IsList after cells
    pub agrees : values cells ≡ (on_list dec c vs).0

  module _ (l : LinkedList A) (xs : Cells A) (h : IsList l xs) where
    pub Refined-add_last : (v : Option A) → Refined (call_add_last v) l (values xs)
    unfolding on_linked
    Refined-add_last v =
        let (d, e, h') = add_last_lem l v xs h in
        record {
          after = d;
          cells = xs ++ ((suc l.allocated, v) ∷ []);
          returns = rw e;
          holds = h';
          agrees = values-append xs ((suc l.allocated, v) ∷ []);
        }

    pub Refined-add_first : (v : Option A) → Refined (call_add_first v) l (values xs)
    unfolding on_linked
    Refined-add_first v =
        let (d, e, h') = add_first_lem l v xs h in
        record {
          after = d;
          cells = (suc l.allocated, v) ∷ xs;
          returns = rw e;
          holds = h';
          agrees = refl;
        }

    pub Refined-clear : Refined call_clear l (values xs)
    unfolding on_linked
    Refined-clear =
        let (d, e, h') = clear_lem l xs h in
        record { after = d; cells = []; returns = rw e; holds = h'; agrees = refl }

    pub Refined-size : Refined call_size l (values xs)
    unfolding on_linked
    Refined-size = record {
      after = l;
      cells = xs;
      returns = rw (h.size, length-values xs);
      holds = h;
      agrees = refl;
    }

  pub Refined-remove_first :
      (l : LinkedList A) (xs : Cells A) → IsList l xs → Refined call_remove_first l (values xs)
  unfolding on_linked
  Refined-remove_first l [] h = record {
    after = l;
    cells = [];
    returns = rw (remove_first_empty l h.begins);
    holds = h;
    agrees = refl;
  }
  Refined-remove_first l ((a, v) ∷ xs) h =
      let (d, e, h') = remove_first_lem l a v xs h in
      record { after = d; cells = xs; returns = rw e; holds = h'; agrees = refl }

  pub Refined-get_first :
      (l : LinkedList A) (xs : Cells A) → IsList l xs → Refined call_get_first l (values xs)
  unfolding on_linked
  Refined-get_first l xs h = record {
    after = l;
    cells = xs;
    returns = ap (λ w. some (l, value w)) (get_first_lem l xs h);
    holds = h;
    agrees = refl;
  }

  RefinedAt : Call A → Cells A → Type 0
  RefinedAt c xs = (l : LinkedList A) → IsList l xs → Refined c l (values xs)

  remove_last_snoc :
      (a : ℕ) (v : Option A) (zs : Cells A) → RefinedAt call_remove_last (zs ++ ((a, v) ∷ []))
  unfolding on_linked RefinedAt
  remove_last_snoc a v zs l h =
      let (d, e, h') = remove_last_lem l a v zs h in
      record {
        after = d;
        cells = zs;
        returns = rw (e, last_value-values a v zs);
        holds = h';
        agrees = sym (all_but_last-values a v zs);
      }

  pub Refined-remove_last :
      (l : LinkedList A) (xs : Cells A) → IsList l xs → Refined call_remove_last l (values xs)
  unfolding on_linked RefinedAt
  Refined-remove_last l xs = elim (snoc-cases xs) [
    | inl e ↦
        subst (RefinedAt call_remove_last) (sym e)
          (λ l h. record {
            after = l;
            cells = [];
            returns = rw (remove_last_empty l h.ends);
            holds = h;
            agrees = refl;
          })
          l
    | inr (zs, a, v, e) ↦ subst (RefinedAt call_remove_last) (sym e) (remove_last_snoc a v zs) l
  ]

  pub Refined-get_last :
      (l : LinkedList A) (xs : Cells A) → IsList l xs → Refined call_get_last l (values xs)
  unfolding on_linked
  Refined-get_last l xs h = record {
    after = l;
    cells = xs;
    returns = ap (λ w. some (l, value w)) (get_last_lem l xs h);
    holds = h;
    agrees = refl;
  }
