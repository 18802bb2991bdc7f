-- ===== src/Base/Refines.antt =====
-- What a component answers to a list of calls, and when it answers as another one does.
use mathlib.Core.Path.{◌≡◌, refl, ap₂}
use mathlib.Core.List.{List, [], ◌∷◌}

unfoldable pub answers : {C A S : Type 0} → (C → S → S × A) → List C → S → List A
answers step [] s = []
answers step (c ∷ cs) s = (step c s).1 ∷ answers step cs (step c s).0

-- A relation that every call keeps, with the same answer on both sides.
module _ {C A S L : Type 0} (step : C → S → S × A) (spec : C → L → L × A) where
  pub answers_agree :
      (Agree : S → L → Type 0)
      → ((c : C) (s : S) (l : L)
          → Agree s l
          → Agree (step c s).0 (spec c l).0 × ((step c s).1 ≡ (spec c l).1))
      → (cs : List C) (s : S) (l : L) → Agree s l
      → answers step cs s ≡ answers spec cs l
  unfolding answers
  answers_agree Agree simulates [] s l r = refl
  answers_agree Agree simulates (c ∷ cs) s l r =
      let (kept, same) = simulates c s l r in
      ap₂ ◌∷◌ same (answers_agree Agree simulates cs (step c s).0 (spec c l).0 kept)
