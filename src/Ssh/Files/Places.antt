-- ===== src/Ssh/Files/Places.antt =====
-- What the library sftp promises to an upload of ssh/client.go, the places of directories, and transfers
-- that end well.
use own_x_go.Base.{
  Bool-cases, All, All-append, subst, ◌++◌, ℕ, ◌≡◌, ◌≢◌, ap, ◌∙◌, sym, String, List, [], ◌∷◌, none,
  some, if_neg, Bool, true, false, ◌||◌, ◌⊎◌, inl, inr, Option,
}
use own_x_go.Ssh.Files.{
  FilePath, Tree, Entries, file, directory, unreadable, unlisted, no_more, entry, Sftp,
  unless_error,
}
use own_x_go.Ssh.Files.Trees.{FilePath_discrete, View, is_above, unless_error-on}

-- What the client documents: `bytes_at` is what a path holds, and `is_dir` tells a directory. Directories
-- and modes leave the bytes of files alone, a new file is empty, and a write touches no other file.
-- `MkdirAll` makes a directory with those above it, and no other; nothing else makes or takes one.
pub record Documented {E R : Type 0} (sftp : Sftp E R) (bytes_at : View R)
    (is_dir : FilePath → R → Bool) : Type 0 where
  pub mkdir_all-keeps : (p s : FilePath) (r : R) → bytes_at s (sftp.mkdir_all p r).0 ≡ bytes_at s r
  pub chmod-keeps :
      (p s : FilePath) (m : ℕ) (r : R) → bytes_at s (sftp.chmod p m r).0 ≡ bytes_at s r
  pub create-empty :
      (p : FilePath) (r : R) → (sftp.create p r).1 ≡ none → bytes_at p (sftp.create p r).0 ≡ some []
  pub create-keeps :
      (p s : FilePath) (r : R) → s ≢ p → bytes_at s (sftp.create p r).0 ≡ bytes_at s r
  pub write-fills :
      (p : FilePath) (bytes : List ℕ) (r : R)
      → bytes_at p r ≡ some []
      → (sftp.write p bytes r).1 ≡ none
      → bytes_at p (sftp.write p bytes r).0 ≡ some bytes
  pub write-keeps :
      (p s : FilePath) (bytes : List ℕ) (r : R)
      → s ≢ p
      → bytes_at s (sftp.write p bytes r).0 ≡ bytes_at s r
  pub mkdir_all-makes :
      (p : FilePath) (r : R)
      → (sftp.mkdir_all p r).1 ≡ none
      → is_dir p (sftp.mkdir_all p r).0 ≡ true
  pub mkdir_all-stays :
      (p s : FilePath) (r : R) → is_dir s r ≡ true → is_dir s (sftp.mkdir_all p r).0 ≡ true
  pub mkdir_all-above :
      (p s : FilePath) (r : R)
      → is_dir s (sftp.mkdir_all p r).0 ≡ true
      → (is_dir s r ≡ true) ⊎ (is_above s p ≡ true)
  pub chmod-dirs : (p s : FilePath) (m : ℕ) (r : R) → is_dir s (sftp.chmod p m r).0 ≡ is_dir s r
  pub create-dirs : (p s : FilePath) (r : R) → is_dir s (sftp.create p r).0 ≡ is_dir s r
  pub write-dirs :
      (p s : FilePath) (bytes : List ℕ) (r : R) → is_dir s (sftp.write p bytes r).0 ≡ is_dir s r

-- The remote machine does what can be done, for a user whom no mode stops, and with room for the
-- bytes: `MkdirAll` where no file is in the way, `Chmod` of what is there, `Create` in a directory,
-- of a path that is not a directory, and a write to a file that is new. The path without a name is the
-- directory of the session.
pub record Grants {E R : Type 0} (sftp : Sftp E R) (bytes_at : View R)
    (is_dir : FilePath → R → Bool) : Type 0 where
  pub here : (r : R) → is_dir [] r ≡ true
  pub mkdir_all-grants :
      (p : FilePath) (r : R)
      → ((s : FilePath) → is_above s p ≡ true → bytes_at s r ≡ none)
      → (sftp.mkdir_all p r).1 ≡ none
  pub chmod-grants :
      (p : FilePath) (m : ℕ) (bytes : List ℕ) (r : R)
      → bytes_at p r ≡ some bytes
      → (sftp.chmod p m r).1 ≡ none
  pub create-grants :
      (n : String) (p : FilePath) (r : R)
      → is_dir p r ≡ true
      → is_dir (n ∷ p) r ≡ false
      → (sftp.create (n ∷ p) r).1 ≡ none
  pub write-grants :
      (p : FilePath) (bytes : List ℕ) (r : R)
      → bytes_at p r ≡ some []
      → (sftp.write p bytes r).1 ≡ none

-- The places of directories: what stands above one is one.
abbrev pub IsClosed : (FilePath → Bool) → Type 0
IsClosed place = (n : String) (p : FilePath) → place (n ∷ p) ≡ true → place p ≡ true

-- No file is at a place of a directory, and no directory anywhere else.
pub record Agrees {R : Type 0} (place : FilePath → Bool) (bytes_at : View R)
    (is_dir : FilePath → R → Bool) (r : R) : Type 0 where
  pub free : (s : FilePath) → place s ≡ true → bytes_at s r ≡ none
  pub dirs : (s : FilePath) → is_dir s r ≡ true → place s ≡ true

-- The directories of the tree, and those that its files stand in, have places of directories; the files do not.
unfoldable mutual
  pub Fits : {E : Type 0} → (FilePath → Bool) → FilePath → String → Tree E → Type 0
  Fits place p n (unreadable e) = Unit {0}
  Fits place p n (unlisted mode e) = Unit {0}
  Fits place p n (directory mode fs) = (place (n ∷ p) ≡ true) × FitsOf place (n ∷ p) fs
  Fits place p n (file mode bytes) = (place p ≡ true) × (place (n ∷ p) ≡ false)

  pub FitsOf : {E : Type 0} → (FilePath → Bool) → FilePath → Entries E → Type 0
  FitsOf place p no_more = Unit {0}
  FitsOf place p (entry n t rest) = Fits place p n t × FitsOf place p rest

pub place-is_above :
    (place : FilePath → Bool)
    → IsClosed place
    → (p s : FilePath) → place p ≡ true
    → is_above s p ≡ true
    → place s ≡ true
unfolding is_above
place-is_above place c [] s h a = elim (FilePath_discrete s []) [
  | yes e ↦ rw e h
  | no n ↦ cc (sym (if_neg (FilePath_discrete s []) n true false) ∙ a)
]
place-is_above place c (n ∷ p) s h a = elim (FilePath_discrete s (n ∷ p)) [
  | yes e ↦ rw e h
  | no other ↦ place-is_above place c p s (c n p h) (
      sym (ap (λ b. b || is_above s p) (if_neg (FilePath_discrete s (n ∷ p)) other true false)) ∙ a)
]

pub dirs-absent :
    {R : Type 0} (place : FilePath → Bool) (bytes_at : View R) (is_dir : FilePath → R → Bool)
    (q : FilePath) (r : R)
    → Agrees place bytes_at is_dir r
    → place q ≡ false
    → is_dir q r ≡ false
dirs-absent place bytes_at is_dir q r a h = elim (Bool-cases (is_dir q r)) [
  | inl t ↦ cc (sym (a.dirs q t) ∙ h)
  | inr e ↦ e
]

-- What each request does to a remote machine that agrees with the places.
module _ {E R : Type 0} (sftp : Sftp E R) (bytes_at : View R) (is_dir : FilePath → R → Bool)
    (d : Documented sftp bytes_at is_dir) (place : FilePath → Bool) where
  apart : (p s : FilePath) → place p ≡ false → place s ≡ true → s ≢ p
  apart p s h t e = cc (sym t ∙ ap place e ∙ h)

  pub mkdir_all-Agrees :
      IsClosed place
      → (p : FilePath) (r : R) → place p ≡ true
      → Agrees place bytes_at is_dir r
      → Agrees place bytes_at is_dir (sftp.mkdir_all p r).0
  mkdir_all-Agrees c p r h a = record {
    free = λ s t. d.mkdir_all-keeps p s r ∙ a.free s t;
    dirs = λ s t. elim (d.mkdir_all-above p s r t) [
      | inl old ↦ a.dirs s old
      | inr above ↦ place-is_above place c p s h above
    ];
  }

  pub chmod-Agrees :
      (p : FilePath) (m : ℕ) (r : R)
      → Agrees place bytes_at is_dir r
      → Agrees place bytes_at is_dir (sftp.chmod p m r).0
  chmod-Agrees p m r a = record {
    free = λ s t. d.chmod-keeps p s m r ∙ a.free s t;
    dirs = λ s t. a.dirs s (sym (d.chmod-dirs p s m r) ∙ t);
  }

  pub create-Agrees :
      (p : FilePath) (r : R)
      → place p ≡ false
      → Agrees place bytes_at is_dir r
      → Agrees place bytes_at is_dir (sftp.create p r).0
  create-Agrees p r h a = record {
    free = λ s t. d.create-keeps p s r (apart p s h t) ∙ a.free s t;
    dirs = λ s t. a.dirs s (sym (d.create-dirs p s r) ∙ t);
  }

  pub write-Agrees :
      (p : FilePath) (bytes : List ℕ) (r : R)
      → place p ≡ false
      → Agrees place bytes_at is_dir r
      → Agrees place bytes_at is_dir (sftp.write p bytes r).0
  write-Agrees p bytes r h a = record {
    free = λ s t. d.write-keeps p s bytes r (apart p s h t) ∙ a.free s t;
    dirs = λ s t. a.dirs s (sym (d.write-dirs p s bytes r) ∙ t);
  }

All-weaken :
    {P Q : FilePath → Type 0}
    → ((s : FilePath) → P s → Q s)
    → (l : List FilePath) → All P l
    → All Q l
All-weaken f [] h = tt
All-weaken f (s ∷ l) h = (f s h.0, All-weaken f l h.1)

-- A transfer that has ended well: what receives it agrees with the places still, keeps the directories
-- that it had, and has those that the transfer needs.
pub record IsDone {E R : Type 0} (place : FilePath → Bool) (bytes_at : View R)
    (is_dir : FilePath → R → Bool) (needed : List FilePath) (r : R) (x : R × Option E)
    : Type 0 where
  pub ends : x.1 ≡ none
  pub agrees : Agrees place bytes_at is_dir x.0
  pub stays : (s : FilePath) → is_dir s r ≡ true → is_dir s x.0 ≡ true
  pub has_dirs : All (λ (s : FilePath). is_dir s x.0 ≡ true) needed

module _ {E R : Type 0} (place : FilePath → Bool) (bytes_at : View R)
    (is_dir : FilePath → R → Bool) where
  pub then-IsDone :
      (l k : List FilePath) (r : R) (x : R × Option E) (next : R → R × Option E)
      → IsDone place bytes_at is_dir l r x
      → IsDone place bytes_at is_dir k x.0 (next x.0)
      → IsDone place bytes_at is_dir (l ++ k) r (unless_error x next)
  then-IsDone l k r x next a b =
      subst (IsDone place bytes_at is_dir (l ++ k) r) (sym (unless_error-on x next a.ends))
        (record {
          ends = b.ends;
          agrees = b.agrees;
          stays = λ s t. b.stays s (a.stays s t);
          has_dirs =
              All-append (λ (s : FilePath). is_dir s (next x.0).0 ≡ true) l k
                (All-weaken b.stays l a.has_dirs) b.has_dirs;
        })
