-- ===== src/Basic/LinkedList/Refine/Branches.antt =====
-- The branches of the functions of basic/linkedlist.go that take an index.
use own_x_go.Base.{
  pos, ℕ, suc, ◌<◌, ◌≡◌, true, false, ltb, ◌==◌, Option, none, some, ◌∷◌, ◌++◌, arith, length,
}
use own_x_go.Basic.LinkedList.{
  LinkedList, out_of_range, add_last, add_before, remove, remove_until, get_node, insert_at,
  delete_node, until_loop,
}
use own_x_go.Basic.LinkedList.Cells.{Cells}
use own_x_go.Basic.LinkedList.Rep.{IsList, Back-of}
use own_x_go.Basic.LinkedList.Walk.{get, remove_data, search}
use own_x_go.Basic.LinkedList.Walk.Finds.{load_lem, get_node_lem}
use own_x_go.Basic.LinkedList.Refine.{remove_data}
use own_x_go.Basic.LinkedList.Links.{nonzero}

module _ {A : Type 0} where
  pub remove_run :
      (l : LinkedList A) (i n : ℕ)
      → ltb i l.size ≡ true
      → get_node i l ≡ some n
      → remove (pos i) l ≡ delete_node n l
  unfolding remove
  remove_run l i n t e = rw (t, e)

  pub remove_out :
      (l : LinkedList A) (i : ℕ) → ltb i l.size ≡ false → remove (pos i) l ≡ some (l, none)
  unfolding remove
  remove_out l i t = rw t

  pub get_run :
      (l : LinkedList A) (a : ℕ) (v : Option A) (xs ys : Cells A)
      → IsList l (xs ++ ((a, v) ∷ ys))
      → ltb (length xs) l.size ≡ true
      → get (pos (length xs)) l ≡ some v
  unfolding get
  get_run l a v xs ys h t =
      rw (t, get_node_lem l a v xs ys h, load_lem l 0 _ a v ys (Back-of xs ((a, v) ∷ ys) h).chain)

  pub get_out : (l : LinkedList A) (i : ℕ) → ltb i l.size ≡ false → get (pos i) l ≡ some none
  unfolding get
  get_out l i t = rw t

  pub add_before_out :
      (l : LinkedList A) (i : ℕ) (v : Option A)
      → ltb l.size i ≡ true
      → add_before (pos i) v l ≡ some (l, some out_of_range)
  unfolding add_before
  add_before_out l i v t = rw t

  pub add_before_end :
      (l d : LinkedList A) (i : ℕ) (v : Option A)
      → i ≡ l.size
      → add_last v l ≡ some d
      → add_before (pos i) v l ≡ some (d, none)
  unfolding add_before
  add_before_end l d i v h e =
      let t : ltb l.size i ≡ false = ground (arith, h) in
      let s : (i == l.size) ≡ true = ground (arith, h) in rw (t, s, e)

  pub add_before_run :
      (l : LinkedList A) (i n : ℕ) (v : Option A)
      → i < l.size
      → get_node i l ≡ some n
      → add_before (pos i) v l ≡ insert_at i n v l
  unfolding add_before
  add_before_run l i n v h e =
      let t : ltb l.size i ≡ false = ground arith in
      let s : (i == l.size) ≡ false = ground arith in rw (t, s, e)

  pub remove_until_run :
      (l d : LinkedList A) (i : ℕ)
      → ltb i l.size ≡ true
      → until_loop (suc l.size) 0 i l.first l ≡ some d
      → remove_until (pos i) l ≡ some (d, none)
  unfolding remove_until
  remove_until_run l d i t e = rw (t, e)

  pub remove_until_out :
      (l : LinkedList A) (i : ℕ)
      → ltb i l.size ≡ false
      → remove_until (pos i) l ≡ some (l, some out_of_range)
  unfolding remove_until
  remove_until_out l i t = rw t

  pub remove_data_miss :
      (dec : Discrete A) (l : LinkedList A) (v : Option A)
      → search dec v (suc l.size) l.first l ≡ some 0
      → remove_data dec v l ≡ some (l, false)
  unfolding remove_data
  remove_data_miss dec l v e = rw e

  pub remove_data_hit :
      (dec : Discrete A) (l d : LinkedList A) (a : ℕ) (v w : Option A)
      → search dec v (suc l.size) l.first l ≡ some a
      → 0 < a
      → delete_node a l ≡ some (d, w)
      → remove_data dec v l ≡ some (d, true)
  unfolding remove_data
  remove_data_hit dec l d a v w e z r = rw (e, nonzero a z, r)
