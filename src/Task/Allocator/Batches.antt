-- ===== src/Task/Allocator/Batches.antt =====
-- The batches of `cutInLine`.
use own_x_go.Base.{
  ℕ, zero, suc, ◌+◌, ◌*◌, ◌-◌, ◌≡◌, ◌≤◌, ◌<◌, refl, String, List, [], ◌∷◌, ◌++◌, length, take, drop,
  arith, append-nil, ◌==◌, ◌/◌, false, sym, ◌∙◌, ap,
}
use own_x_go.Task.Allocator.Cut.{batches_from, cut_batches}

pub concat : {A : Type 0} → List (List A) → List A
concat [] = []
concat (l ∷ ls) = l ++ concat ls

take_nil : {A : Type 0} (n : ℕ) → take {A = A} n [] ≡ []
take_nil zero = refl
take_nil (suc n) = refl

drop_nil : {A : Type 0} (n : ℕ) → drop {A = A} n [] ≡ []
drop_nil zero = refl
drop_nil (suc n) = refl

take-take : {A : Type 0} (a b : ℕ) (xs : List A) → take a xs ++ take b (drop a xs) ≡ take (a + b) xs
take-take zero b xs = ground arith
take-take {A = A} (suc a) b [] = ground (arith, take_nil {A = A} b, take_nil {A = A} (suc a + b))
take-take (suc a) b (x ∷ xs) =
    let e : suc a + b ≡ suc (a + b) = omega arith in rw e (ap (◌∷◌ x) (take-take a b xs))

drop-drop : {A : Type 0} (a b : ℕ) (xs : List A) → drop b (drop a xs) ≡ drop (a + b) xs
drop-drop zero b xs = ground arith
drop-drop {A = A} (suc a) b [] = ground (arith, drop_nil {A = A} b, drop_nil {A = A} (suc a + b))
drop-drop (suc a) b (x ∷ xs) =
    let e : suc a + b ≡ suc (a + b) = omega arith in rw e (drop-drop a b xs)

batches_from-concat :
    (n i : ℕ) (ips : List String)
    → 0 < n
    → (n + i) * 1024 < length ips + 1024
    → length ips ≤ (n + i) * 1024
    → concat (batches_from n i ips) ≡ take (length ips - 1 - i * 1024) (drop (i * 1024) ips)
unfolding concat batches_from
batches_from-concat zero i ips h low high = absurd (omega (arith, h))
batches_from-concat (suc zero) i ips h low high =
    ground (arith, append-nil (take (length ips - 1 - i * 1024) (drop (i * 1024) ips)))
batches_from-concat (suc (suc n)) i ips h low high =
    rw
      (batches_from-concat (suc n) (i + 1) ips (omega arith) (omega (arith, low))
        (omega (arith, high)))
      (let rest = drop (i * 1024) ips in
        let size : (i * 1024 + 1024) - i * 1024 ≡ 1024 = omega arith in
        let at : (i + 1) * 1024 ≡ i * 1024 + 1024 = omega arith in
        let all : 1024 + (length ips - 1 - (i * 1024 + 1024)) ≡ length ips - 1 - i * 1024 =
          omega (arith, low) in
        let new : (suc n == 0) ≡ false = ground arith in
        rw (new, size, at, sym (drop-drop (i * 1024) 1024 ips))
          (take-take 1024 (length ips - 1 - (i * 1024 + 1024)) rest ∙ ap (λ k. take k rest) all))

-- A list of more than 1024 addresses is cut into batches that hold its addresses in order, all but
-- the last one.
pub cut_batches-concat :
    (ips : List String) → 1024 < length ips → concat (cut_batches ips) ≡ take (length ips - 1) ips
unfolding cut_batches
cut_batches-concat ips h =
    let none_before : length ips - 1 - 0 * 1024 ≡ length ips - 1 = omega arith in
    batches_from-concat ((length ips + 1024 - 1) / 1024) 0 ips (omega (arith, h)) (omega (arith, h))
      (omega (arith, h))
    ∙ ap (λ k. take k ips) none_before
