-- ===== src/Cluster/Trim.antt =====
-- The loop of `heartbeat` (cluster/contact.go) that forgets the oldest terms.
use own_x_go.Base.{
  ℕ, zero, suc, ◌≤◌, ◌≡◌, refl, none, some, true, false, arith, List, [], ◌∷◌, has, Bool-cases,
  lookup, All, leb, ℕ_discrete, drop, take, ite, inl, keys, if◌then◌else◌, inr, delete,
  lookup-delete,
}
use own_x_go.Cluster.Life.{insert_sorted, sort, delete_all, trim}

abbrev Ascending : List ℕ → Type 0
Ascending [] = Unit {0}
Ascending (x ∷ xs) = All (λ y. x ≤ y) xs × Ascending xs

All-insert_sorted :
    (b x : ℕ) (ys : List ℕ) → b ≤ x → All (λ y. b ≤ y) ys → All (λ y. b ≤ y) (insert_sorted x ys)
unfolding insert_sorted
All-insert_sorted b x [] h a = (h, tt)
All-insert_sorted b x (y ∷ ys) h a = ground (arith, All-insert_sorted b x ys h a.1)

All-le : (x y : ℕ) (ys : List ℕ) → x ≤ y → All (λ z. y ≤ z) ys → All (λ z. x ≤ z) ys
All-le x y [] h a = tt
All-le x y (z ∷ ys) h a = (omega arith, All-le x y ys h a.1)

insert_sorted-Ascending : (x : ℕ) (ys : List ℕ) → Ascending ys → Ascending (insert_sorted x ys)
unfolding insert_sorted
insert_sorted-Ascending x [] a = (tt, tt)
insert_sorted-Ascending x (y ∷ ys) a = elim (Bool-cases (leb x y)) [
  | inl h ↦ rw h ((ground arith, All-le x y ys (ground arith) a.0), (a.0, a.1))
  | inr h ↦ rw h (All-insert_sorted y x ys (ground arith) a.0, insert_sorted-Ascending x ys a.1)
]

sort-Ascending : (xs : List ℕ) → Ascending (sort xs)
unfolding sort
sort-Ascending [] = tt
sort-Ascending (x ∷ xs) = insert_sorted-Ascending x (sort xs) (sort-Ascending xs)

abbrev Has : ℕ → List ℕ → Type 0
Has t xs = has ℕ_discrete t xs ≡ true

has-insert_sorted :
    (t x : ℕ) (ys : List ℕ)
    → has ℕ_discrete t (insert_sorted x ys) ≡ ite (ℕ_discrete t x) true (has ℕ_discrete t ys)
unfolding insert_sorted has
has-insert_sorted t x [] = refl
has-insert_sorted t x (y ∷ ys) = ground (arith, has-insert_sorted t x ys)

has-sort : (t : ℕ) (xs : List ℕ) → has ℕ_discrete t (sort xs) ≡ has ℕ_discrete t xs
unfolding sort has
has-sort t [] = refl
has-sort t (x ∷ xs) = ground (arith, has-sort t xs, has-insert_sorted t x (sort xs))

has-drop :
    (n t : ℕ) (xs : List ℕ) → Has t xs → has ℕ_discrete t (take n xs) ≡ false → Has t (drop n xs)
unfolding has
has-drop zero t xs h k = h
has-drop (suc n) t [] h k = h
has-drop (suc n) t (x ∷ xs) h k = ground (arith, has-drop n t xs)

le_of_All : (b t : ℕ) (xs : List ℕ) → All (λ y. b ≤ y) xs → Has t xs → b ≤ t
unfolding has
le_of_All b t [] a h = cc
le_of_All b t (x ∷ xs) a h = ground (arith, le_of_All b t xs a.1)

Has-drop : (n t : ℕ) (xs : List ℕ) → Has t (drop n xs) → Has t xs
unfolding has
Has-drop zero t xs h = h
Has-drop (suc n) t [] h = h
Has-drop (suc n) t (x ∷ xs) h = ground (arith, Has-drop n t xs h)

Ascending-split :
    (n u t : ℕ) (xs : List ℕ) → Ascending xs → Has u (take n xs) → Has t (drop n xs) → u ≤ t
unfolding has
Ascending-split zero u t xs a h k = cc
Ascending-split (suc n) u t [] a h k = cc
Ascending-split (suc n) u t (x ∷ xs) a h k =
    ground (arith, Ascending-split n u t xs a.1, le_of_All x t xs a.0 (Has-drop n t xs k))

lookup-delete_all :
    {V : Type 0} (t : ℕ) (ks : List ℕ) (m : List (ℕ × V))
    → lookup ℕ_discrete t (delete_all ks m)
      ≡ (if has ℕ_discrete t ks then none else lookup ℕ_discrete t m)
unfolding delete_all has
lookup-delete_all t [] m = refl
lookup-delete_all t (k ∷ ks) m =
    ground (arith, lookup-delete_all t ks (delete ℕ_discrete k m), lookup-delete ℕ_discrete k t m)

Has-keys :
    {V : Type 0} (t : ℕ) (m : List (ℕ × V)) (v : V)
    → lookup ℕ_discrete t m ≡ some v
    → Has t (keys m)
unfolding has lookup
Has-keys t [] v h = cc
Has-keys t ((k, w) ∷ m) v h = ground (arith, Has-keys t m v)

-- What `trim` forgets is no newer than what it keeps, and what it keeps has its old value.
pub trim_oldest :
    {V : Type 0} (m : List (ℕ × V)) (t u : ℕ) (v w : V)
    → lookup ℕ_discrete t (trim m) ≡ some v
    → lookup ℕ_discrete u m ≡ some w
    → lookup ℕ_discrete u (trim m) ≡ none
    → (u ≤ t) × (lookup ℕ_discrete t m ≡ some v)
unfolding trim
trim_oldest m t u v w kept old gone =
    let ks = sort (keys m) in
    ground (
      arith,
      lookup-delete_all t (take 10 ks) m,
      lookup-delete_all u (take 10 ks) m,
      has-sort t (keys m),
      Has-keys t m v,
      has-drop 10 t ks,
      Ascending-split 10 u t ks (sort-Ascending (keys m)),
    )
