-- ===== src/Cluster/Network/Sums.antt =====
-- Sums over the members of a cluster.
use own_x_go.Base.{
  ℕ, ◌+◌, ◌≤◌, ◌≡◌, ◌≢◌, String, String_discrete, List, [], ◌∷◌, true, false, has, length, arith,
  ap, ◌∙◌, sym,
}

abbrev pub Distinct : List String → Type 0
Distinct [] = Unit {0}
Distinct (i ∷ is) = (has String_discrete i is ≡ false) × Distinct is

pub total : (String → ℕ) → List String → ℕ
total f [] = 0
total f (i ∷ is) = f i + total f is

pub total_same :
    (f g : String → ℕ) (is : List String)
    → ((j : String) → has String_discrete j is ≡ true → g j ≡ f j)
    → total g is ≡ total f is
unfolding total has
total_same f g [] h = ground arith
total_same f g (i ∷ is) h =
    omega (arith, h i (ground arith), total_same f g is (λ j e. h j (ground (arith, e))))

conflict : true ≡ false → ⊥
conflict e = cc

-- One member changes.
pub total_at :
    (f g : String → ℕ) (i : String) (is : List String)
    → Distinct is
    → has String_discrete i is ≡ true
    → ((j : String) → j ≢ i → g j ≡ f j)
    → total g is + f i ≡ total f is + g i
unfolding total has
total_at f g i [] d h e = cc
total_at f g i (k ∷ is) (n, d) h e = elim (String_discrete i k) [
  | yes p ↦
      let rest =
        total_same f g is
          (λ j q. e j (λ r. conflict (sym q ∙ ap (λ x. has String_discrete x is) (r ∙ p) ∙ n))) in
      omega (arith, rest, ap f p, ap g p)
  | no p ↦
      let rest = total_at f g i is d (ground (arith, h, p)) e in
      omega (arith, rest, e k (λ q. p (sym q)))
]

total_one :
    (f : String → ℕ) (i : String) (is : List String)
    → has String_discrete i is ≡ true
    → f i ≤ total f is
unfolding total has
total_one f i [] h = cc
total_one f i (k ∷ is) h = elim (String_discrete i k) [
  | yes p ↦ omega (arith, ap f p)
  | no p ↦ let rest = total_one f i is (ground (arith, h, p)) in omega (arith, rest)
]

pub total_two :
    (f : String → ℕ) (i j : String) (is : List String)
    → i ≢ j
    → has String_discrete i is ≡ true
    → has String_discrete j is ≡ true
    → f i + f j ≤ total f is
unfolding total has
total_two f i j [] n a b = cc
total_two f i j (k ∷ is) n a b = elim (String_discrete i k) [
  | yes p ↦
      let other : j ≢ k = λ q. n (p ∙ sym q) in
      let rest = total_one f j is (ground (arith, b, other)) in omega (arith, rest, ap f p)
  | no p ↦ elim (String_discrete j k) [
    | yes q ↦ let rest = total_one f i is (ground (arith, a, p)) in omega (arith, rest, ap f q)
    | no q ↦
        let rest = total_two f i j is n (ground (arith, a, p)) (ground (arith, b, q)) in
        omega (arith, rest)
  ]
]

pub total_bound :
    (f : String → ℕ) (is : List String) → ((i : String) → f i ≤ 1) → total f is ≤ length is
unfolding total
total_bound f [] h = omega arith
total_bound f (i ∷ is) h = omega (arith, h i, total_bound f is h)

pub total_zero :
    (f : String → ℕ) (is : List String)
    → ((i : String) → has String_discrete i is ≡ true → f i ≡ 0)
    → total f is ≡ 0
unfolding total has
total_zero f [] h = ground arith
total_zero f (i ∷ is) h =
    omega (arith, h i (ground arith), total_zero f is (λ j e. h j (ground (arith, e))))
