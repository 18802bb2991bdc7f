-- ===== src/Ssh/Files/Trees.antt =====
-- The files of a tree with their paths, and the first error of a traversal.
use mathlib.Core.List.{List-discrete}
use own_x_go.Base.{
  ℕ, ◌≡◌, refl, String, String_discrete, List, [], ◌∷◌, ◌++◌, Option, none, some, ite, Bool, true,
  false, ◌||◌,
}
use own_x_go.Ssh.Files.{
  FilePath, Tree, Entries, file, directory, unreadable, unlisted, no_more, entry, unless_error,
}

abbrev pub FilePath_discrete : Discrete FilePath
FilePath_discrete = List-discrete String_discrete

-- The files of a tree with their paths and their bytes, in the order of the traversal.
unfoldable mutual
  pub files : {E : Type 0} → FilePath → String → Tree E → List (FilePath × List ℕ)
  files p n (unreadable e) = []
  files p n (unlisted mode e) = []
  files p n (directory mode fs) = files_of (n ∷ p) fs
  files p n (file mode bytes) = (n ∷ p, bytes) ∷ []

  pub files_of : {E : Type 0} → FilePath → Entries E → List (FilePath × List ℕ)
  files_of p no_more = []
  files_of p (entry n t rest) = files p n t ++ files_of p rest

-- The directories that a tree needs: its own, and those that its files stand in.
unfoldable mutual
  pub directories : {E : Type 0} → FilePath → String → Tree E → List FilePath
  directories p n (unreadable e) = []
  directories p n (unlisted mode e) = []
  directories p n (directory mode fs) = (n ∷ p) ∷ directories_of (n ∷ p) fs
  directories p n (file mode bytes) = p ∷ []

  pub directories_of : {E : Type 0} → FilePath → Entries E → List FilePath
  directories_of p no_more = []
  directories_of p (entry n t rest) = directories p n t ++ directories_of p rest

-- The path `s` is `p` or a directory above it.
unfoldable pub is_above : FilePath → FilePath → Bool
is_above s [] = ite (FilePath_discrete s []) true false
is_above s (n ∷ p) = ite (FilePath_discrete s (n ∷ p)) true false || is_above s p

-- What stands at the path `s` after the files have been written one after the other, where it was `old`.
unfoldable pub written : List (FilePath × List ℕ) → FilePath → Option (List ℕ) → Option (List ℕ)
written [] s old = old
written ((q, bytes) ∷ l) s old = written l s (ite (FilePath_discrete s q) (some bytes) old)

pub written-append :
    (l k : List (FilePath × List ℕ)) (s : FilePath) (old : Option (List ℕ))
    → written (l ++ k) s old ≡ written k s (written l s old)
unfolding written
written-append [] k s old = refl
written-append ((q, bytes) ∷ l) k s old =
    written-append l k s (ite (FilePath_discrete s q) (some bytes) old)

abbrev pub View : Type 0 → Type 0
View R = FilePath → R → Option (List ℕ)

abbrev pub first {ℓ} : {A : Type ℓ} → Option A → Option A → Option A
first none b = b
first (some e) b = some e

-- The error of the first file or directory that has one.
unfoldable mutual
  pub first_error : {E : Type 0} → Tree E → Option E
  first_error (unreadable e) = some e
  first_error (unlisted mode e) = some e
  first_error (directory mode fs) = first_error_of fs
  first_error (file mode bytes) = none

  pub first_error_of : {E : Type 0} → Entries E → Option E
  first_error_of no_more = none
  first_error_of (entry n t rest) = first (first_error t) (first_error_of rest)

pub first-none {ℓ} : {A : Type ℓ} (a b : Option A) → first a b ≡ none → (a ≡ none) × (b ≡ none)
first-none none b h = (refl, h)
first-none (some e) b h = cc h

module _ {E R : Type 0} where
  pub unless_error-on :
      (x : R × Option E) (next : R → R × Option E) → x.1 ≡ none → unless_error x next ≡ next x.0
  unless_error-on (r, none) next h = refl
  unless_error-on (r, some e) next h = cc h

  pub unless_error-none :
      (x : R × Option E) (next : R → R × Option E)
      → (unless_error x next).1 ≡ none
      → (x.1 ≡ none) × ((next x.0).1 ≡ none) × (unless_error x next ≡ next x.0)
  unless_error-none (r, none) next h = (refl, h, refl)
  unless_error-none (r, some e) next h = cc h

  pub unless_error-first :
      (x : R × Option E) (next : R → R × Option E)
      → (unless_error x next).1 ≡ first x.1 (next x.0).1
  unless_error-first (r, none) next = refl
  unless_error-first (r, some e) next = refl

  pub unless_error-works :
      (x : R × Option E) (next : R → R × Option E)
      → x.1 ≡ none
      → (next x.0).1 ≡ none
      → (unless_error x next).1 ≡ none
  unless_error-works (r, none) next h g = g
  unless_error-works (r, some e) next h g = h
