-- ===== src/Tools/Lists/Results.antt =====
-- What the helpers of the package tools leave of their lists.
use mathlib.Core.Bool.{or_assoc, Bool}
use own_x_go.Base.{
  ite_each, if_each, ◌≡◌, ◌≢◌, refl, ap, ◌∙◌, inl, inr, String, String_discrete, List, [], ◌∷◌,
  ◌++◌, map, none, some, true, false, ◌||◌, ite, if◌then◌else◌, arith, lookup, insert,
  lookup-insert, Option-cases,
}
use own_x_go.Tools.Lists.{contains, trim_loop, trim_duplicates, add_funcs}

-- each string once, and none of them blank
abbrev AreProper : List String → Type 0
AreProper [] = Unit {0}
AreProper (v ∷ vs) = (v ≢ "") × (contains String_discrete vs v ≡ false) × AreProper vs

contains-append :
    (l : List String) (w v : String)
    → contains String_discrete (l ++ (w ∷ [])) v
      ≡ (contains String_discrete l v || ite (String_discrete w v) true false)
unfolding contains
contains-append [] w v = ground arith
contains-append (x ∷ l) w v = ground (arith, contains-append l w v)

AreProper-append :
    (l : List String) (w : String)
    → w ≢ ""
    → contains String_discrete l w ≡ false
    → AreProper l
    → AreProper (l ++ (w ∷ []))
unfolding contains
AreProper-append [] w n c p = (n, refl, tt)
AreProper-append (v ∷ l) w n c p =
    (p.0, ground (arith, contains-append l w v, p.1), AreProper-append l w n (ground arith) p.2)

ite_or : {P : Type 0} (d : Dec P) (b : Bool) → (ite d true false || b) ≡ ite d true b
ite_or (yes p) b = refl
ite_or (no p) b = refl

module _ (trim_space : String → String) where
  added : List String → String → List String
  added l w =
      ite (String_discrete w "") l (if contains String_discrete l w then l else l ++ (w ∷ []))

  added-AreProper : (l : List String) (w : String) → AreProper l → AreProper (added l w)
  unfolding added
  added-AreProper l w p =
      ite_each AreProper (String_discrete w "") (λ e. p)
        (λ n.
          if_each AreProper (contains String_discrete l w) (λ c. p)
            (λ c. AreProper-append l w n c p))

  contains-added :
      (l : List String) (w v : String)
      → v ≢ ""
      → contains String_discrete (added l w) v
        ≡ (contains String_discrete l v || ite (String_discrete w v) true false)
  unfolding added contains
  contains-added l w v n = ground (arith, contains-append l w v, n)

  trim_loop_lem :
      (vs l : List String)
      → AreProper l
      → AreProper (trim_loop trim_space vs l)
        × ((v : String)
            → v ≢ ""
            → contains String_discrete (trim_loop trim_space vs l) v
              ≡ (contains String_discrete l v || contains String_discrete (map trim_space vs) v))
  unfolding trim_loop contains added
  trim_loop_lem [] l p = (p, λ v n. ground arith)
  trim_loop_lem (x ∷ vs) l p =
      let w = trim_space x in
      let ih = trim_loop_lem vs (added l w) (added-AreProper l w p) in
      (
        ih.0,
        λ v n.
            ih.1 v n
            ∙ ap (λ b. b || contains String_discrete (map trim_space vs) v) (contains-added l w v n)
            ∙ or_assoc (contains String_discrete l v) _ _
            ∙ ap (λ b. contains String_discrete l v || b) (ite_or (String_discrete w v) _),
      )

  -- TrimDuplicates gives each trimmed string that is not blank once, and no other.
  trim_duplicates-AreProper :
      (list : List String) (v : String)
      → v ≢ ""
      → AreProper (trim_duplicates trim_space list)
        × (contains String_discrete (trim_duplicates trim_space list) v
            ≡ contains String_discrete (map trim_space list) v)
  unfolding trim_duplicates contains
  trim_duplicates-AreProper list v n = let r = trim_loop_lem list [] tt in (r.0, r.1 v n)

module _ {F : Type 0} where
  add_new :
      (k : String) (v : F) (funcs func_maps : List (String × F))
      → lookup String_discrete k func_maps ≡ none
      → add_funcs false ((k, v) ∷ funcs) func_maps
        ≡ add_funcs false funcs (insert String_discrete k v func_maps)
  unfolding add_funcs
  add_new k v funcs func_maps e = rw e

  add_old :
      (k : String) (v u : F) (funcs func_maps : List (String × F))
      → lookup String_discrete k func_maps ≡ some u
      → add_funcs false ((k, v) ∷ funcs) func_maps ≡ add_funcs false funcs func_maps
  unfolding add_funcs
  add_old k v u funcs func_maps e = rw e

  -- AddFuncs that is not to exit returns, keeps what is registered under a name, and adds the first of
  -- the new functions of each other name.
  lookup-add_funcs :
      (funcs func_maps : List (String × F)) (k : String)
      → (m : List (String × F)) × (add_funcs false funcs func_maps ≡ some m)
        × (lookup String_discrete k m ≡ elim (lookup String_discrete k func_maps) [
          | some v ↦ some v
          | none ↦ lookup String_discrete k funcs
        ])
  unfolding add_funcs lookup
  lookup-add_funcs [] func_maps k = (func_maps, refl, ground arith)
  lookup-add_funcs ((j, v) ∷ funcs) func_maps k =
      elim (Option-cases (lookup String_discrete j func_maps)) [
        | inl e ↦
            let (m, r, q) = lookup-add_funcs funcs (insert String_discrete j v func_maps) k in
            (
              m,
              add_new j v funcs func_maps e ∙ r,
              ground (arith, q, lookup-insert String_discrete j k v func_maps, e),
            )
        | inr (u, e) ↦
            let (m, r, q) = lookup-add_funcs funcs func_maps k in
            (m, add_old j v u funcs func_maps e ∙ r, ground (arith, q, e))
      ]
