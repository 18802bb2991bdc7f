-- ===== src/Basic/LinkedList/Refine/Places.antt =====
-- The calls with an index, and RemoveData, of the linked list of basic/linkedlist.go refine those on a
-- plain list.
use own_x_go.Base.{
  ℤ, pos, negsuc, ℕ, suc, ◌<◌, ◌≤◌, ◌≡◌, refl, sym, subst, ◌∙◌, true, false, Bool-cases, ltb, ◌==◌,
  Option, ◌∷◌, ◌++◌, arith, inl, inr, length, length-append, [], drop,
}
use own_x_go.Basic.LinkedList.{LinkedList, add_before, remove, remove_until}
use own_x_go.Basic.LinkedList.Cells.{Cells, values, split_at}
use own_x_go.Basic.LinkedList.Rep.{IsList}
use own_x_go.Basic.LinkedList.Edit.{delete_node_lem, insert_at_lem, add_last_lem}
use own_x_go.Basic.LinkedList.Walk.{get}
use own_x_go.Basic.LinkedList.Walk.Finds.{get_node_lem, search_lem}
use own_x_go.Basic.LinkedList.Refine.{
  Call, call_remove, call_get, on_linked, call_remove_until, call_remove_data, call_add_before,
}
use own_x_go.Basic.LinkedList.Refine.Lists.{
  length-values, delete_at-values, delete_at_beyond, value_at-values, value_at_beyond,
  insert_before-values, values-append, drop-values, insert_before_end,
}
use own_x_go.Basic.LinkedList.Refine.Ends.{Refined}
use own_x_go.Basic.LinkedList.Refine.Branches.{
  remove_run, remove_out, get_run, get_out, add_before_out, add_before_end, add_before_run,
  remove_until_run, remove_until_out, remove_data_miss, remove_data_hit,
}
use own_x_go.Basic.LinkedList.Shrink.{until_loop_lem}

module _ {A : Type 0} (dec : Discrete A) where
  -- at an index within the list the nodes fall into two parts
  AtIndex : (ℤ → Call A) → Cells A → ℕ → Type 0
  AtIndex c xs i = (l : LinkedList A) → IsList l xs → Refined dec (c (pos i)) l (values xs)

  AtNode : (ℤ → Call A) → Type 0
  AtNode c = (a : ℕ) (v : Option A) (xs ys : Cells A) → AtIndex c (xs ++ ((a, v) ∷ ys)) (length xs)

  at_index : (c : ℤ → Call A) (xs : Cells A) (i : ℕ) → i < length xs → AtNode c → AtIndex c xs i
  unfolding AtIndex AtNode
  at_index c xs i h f =
      let (ys, a, v, zs, e, n) = split_at xs i h in
      subst (AtIndex c xs) n (subst (λ us. AtIndex c us (length ys)) (sym e) (f a v ys zs))

  within :
      (l : LinkedList A) (a : ℕ) (v : Option A) (xs ys : Cells A)
      → IsList l (xs ++ ((a, v) ∷ ys))
      → length xs < l.size
  within l a v xs ys h = omega (arith, h.size ∙ length-append xs ((a, v) ∷ ys))

  remove_at : AtNode call_remove
  unfolding on_linked AtNode AtIndex
  remove_at a v xs ys l h =
      let (d, e, h') = delete_node_lem l a v xs ys h in
      let t =
        remove_run l (length xs) a (ground (arith, within l a v xs ys h))
          (get_node_lem l a v xs ys h) in
      record {
        after = d;
        cells = xs ++ ys;
        returns = rw (t, e, value_at-values a v xs ys);
        holds = h';
        agrees = sym (delete_at-values a v xs ys);
      }

  pub Refined-remove :
      (l : LinkedList A) (xs : Cells A)
      → IsList l xs
      → (i : ℤ) → Refined dec (call_remove i) l (values xs)
  unfolding on_linked AtIndex remove
  Refined-remove l xs h (negsuc k) = record {
    after = l;
    cells = xs;
    returns = refl;
    holds = h;
    agrees = refl;
  }
  Refined-remove l xs h (pos i) = elim (Bool-cases (ltb i l.size)) [
    | inl t ↦ at_index call_remove xs i (ground (arith, h.size)) remove_at l h
    | inr f ↦
        let out : length (values xs) ≤ i = ground (arith, h.size, length-values xs) in
        record {
          after = l;
          cells = xs;
          returns = rw (remove_out l i f, value_at_beyond i (values xs) out);
          holds = h;
          agrees = sym (delete_at_beyond i (values xs) out);
        }
  ]

  get_at : AtNode call_get
  unfolding on_linked AtNode AtIndex
  get_at a v xs ys l h = record {
    after = l;
    cells = xs ++ ((a, v) ∷ ys);
    returns =
        rw
          (get_run l a v xs ys h (ground (arith, within l a v xs ys h)), value_at-values a v xs ys);
    holds = h;
    agrees = refl;
  }

  pub Refined-get :
      (l : LinkedList A) (xs : Cells A)
      → IsList l xs
      → (i : ℤ) → Refined dec (call_get i) l (values xs)
  unfolding on_linked AtIndex get
  Refined-get l xs h (negsuc k) = record {
    after = l;
    cells = xs;
    returns = refl;
    holds = h;
    agrees = refl;
  }
  Refined-get l xs h (pos i) = elim (Bool-cases (ltb i l.size)) [
    | inl t ↦ at_index call_get xs i (ground (arith, h.size)) get_at l h
    | inr f ↦ record {
      after = l;
      cells = xs;
      returns =
          rw (
            get_out l i f,
            value_at_beyond i (values xs) (ground (arith, h.size, length-values xs)),
          );
      holds = h;
      agrees = refl;
    }
  ]

  insert_in : (v : Option A) → AtNode (λ i. call_add_before i v)
  unfolding on_linked AtNode AtIndex
  insert_in v a w xs ys l h =
      let (d, e, h') = insert_at_lem l (length xs) a v w xs ys h in
      let long = within l a w xs ys h in
      let r = add_before_run l (length xs) a v long (get_node_lem l a w xs ys h) in
      let rest = (a, w) ∷ ys in
      let t : ltb (length (values (xs ++ rest))) (length xs) ≡ false =
        ground (arith, length-values (xs ++ rest), h.size) in
      record {
        after = d;
        cells = xs ++ ((suc l.allocated, v) ∷ rest);
        returns = rw (r, e, t);
        holds = h';
        agrees = rw t (sym (insert_before-values (suc l.allocated) v xs rest));
      }

  add_before_size :
      (l : LinkedList A) (xs : Cells A) (i : ℕ) (v : Option A)
      → IsList l xs
      → i ≡ l.size
      → Refined dec (call_add_before (pos i) v) l (values xs)
  unfolding on_linked
  add_before_size l xs i v h e =
      let (d, r, h') = add_last_lem l v xs h in
      let n : i ≡ length (values xs) = e ∙ h.size ∙ sym (length-values xs) in
      let t : ltb (length (values xs)) i ≡ false = ground (arith, n) in
      record {
        after = d;
        cells = xs ++ ((suc l.allocated, v) ∷ []);
        returns = rw (add_before_end l d i v e r, t);
        holds = h';
        agrees =
            rw (t, n)
              (values-append xs ((suc l.allocated, v) ∷ [])
                ∙ sym (insert_before_end v (values xs)));
      }

  pub Refined-add_before :
      (l : LinkedList A) (xs : Cells A)
      → IsList l xs
      → (i : ℤ) (v : Option A) → Refined dec (call_add_before i v) l (values xs)
  unfolding on_linked AtIndex add_before
  Refined-add_before l xs h (negsuc k) v = record {
    after = l;
    cells = xs;
    returns = refl;
    holds = h;
    agrees = refl;
  }
  Refined-add_before l xs h (pos i) v = elim (Bool-cases (ltb l.size i)) [
    | inl t ↦
        let t' : ltb (length (values xs)) i ≡ true = ground (arith, h.size, length-values xs) in
        record {
          after = l;
          cells = xs;
          returns = rw (add_before_out l i v t, t');
          holds = h;
          agrees = rw t';
        }
    | inr f ↦ elim (Bool-cases (i == l.size)) [
      | inl e ↦ add_before_size l xs i v h (ground arith)
      | inr n ↦ at_index (λ i. call_add_before i v) xs i (ground (arith, h.size)) (insert_in v) l h
    ]
  ]

  pub Refined-remove_until :
      (l : LinkedList A) (xs : Cells A)
      → IsList l xs
      → (i : ℤ) → Refined dec (call_remove_until i) l (values xs)
  unfolding on_linked remove_until
  Refined-remove_until l xs h (negsuc k) = record {
    after = l;
    cells = xs;
    returns = refl;
    holds = h;
    agrees = refl;
  }
  Refined-remove_until l xs h (pos i) = elim (Bool-cases (ltb i l.size)) [
    | inl t ↦
        let (d, e, h') =
          until_loop_lem (suc l.size) 0 i i l.first l xs h refl (omega (arith, h.size))
            (omega arith) (ground (arith, h.size)) in
        let t' : ltb i (length (values xs)) ≡ true = ground (arith, h.size, length-values xs) in
        record {
          after = d;
          cells = drop (suc i) xs;
          returns = rw (remove_until_run l d i t e, t');
          holds = h';
          agrees = rw t' (sym (drop-values (suc i) xs));
        }
    | inr f ↦
        let f' : ltb i (length (values xs)) ≡ false = ground (arith, h.size, length-values xs) in
        record {
          after = l;
          cells = xs;
          returns = rw (remove_until_out l i f, f');
          holds = h;
          agrees = rw f';
        }
  ]

  pub Refined-remove_data :
      (l : LinkedList A) (xs : Cells A)
      → IsList l xs
      → (v : Option A) → Refined dec (call_remove_data v) l (values xs)
  unfolding on_linked
  Refined-remove_data l xs h v =
      elim (search_lem dec v (suc l.size) 0 l.first l xs h.chain h.begins (omega (arith, h.size))) [
        | inl (r, u) ↦ record {
          after = l;
          cells = xs;
          returns = rw (remove_data_miss dec l v r, u);
          holds = h;
          agrees = rw u;
        }
        | inr (ys, a, w, zs, s, r, z, u) ↦
            let (d, e, h') = delete_node_lem l a w ys zs (subst (IsList l) s h) in
            record {
              after = d;
              cells = ys ++ zs;
              returns = rw (remove_data_hit dec l d a v w r z e, u);
              holds = h';
              agrees = rw u;
            }
      ]
