-- ===== src/Ssh/Files/Received.antt =====
-- What a download leaves with the owner of the callbacks.
use own_x_go.Base.{
  ℕ, ◌≡◌, ◌≢◌, refl, ap, ◌∙◌, sym, String, List, [], ◌∷◌, Option, none, some, ite, if_pos, if_neg,
  Bool, true, false, All, subst, inl, inr, ◌⊎◌,
}
use own_x_go.Ssh.Files.{
  FilePath, Tree, Entries, file, directory, unreadable, unlisted, no_more, entry, Callbacks,
  get_regular, get_file, get_entries,
}
use own_x_go.Ssh.Files.Places.{IsDone, then-IsDone, dirs-absent, Agrees, Fits, FitsOf}
use own_x_go.Ssh.Files.Trees.{
  directories, directories_of, first-none, unless_error-on, FilePath_discrete, View, files,
  files_of, written, written-append, unless_error-none, first_error, first_error_of,
}

-- Callbacks that keep what they are given: `bytes_at` is what they have at a path, and `is_dir` tells a
-- directory. A directory is made in one that is there, where no file is; a writer is got there as well,
-- where no directory is, and has no bytes; and nothing else is touched.
pub record Keeping {E L : Type 0} (calls : Callbacks E L) (bytes_at : View L)
    (is_dir : FilePath → L → Bool) : Type 0 where
  pub create_dir-works :
      (n : String) (p : FilePath) (l : L)
      → is_dir p l ≡ true
      → bytes_at (n ∷ p) l ≡ none
      → (calls.create_dir (n ∷ p) l).1 ≡ none
  pub create_dir-makes :
      (p : FilePath) (l : L)
      → (calls.create_dir p l).1 ≡ none
      → is_dir p (calls.create_dir p l).0 ≡ true
  pub create_dir-stays :
      (p s : FilePath) (l : L) → is_dir s l ≡ true → is_dir s (calls.create_dir p l).0 ≡ true
  pub create_dir-only :
      (p s : FilePath) (l : L)
      → is_dir s (calls.create_dir p l).0 ≡ true
      → (is_dir s l ≡ true) ⊎ (s ≡ p)
  pub create_dir-keeps :
      (p s : FilePath) (l : L) → bytes_at s (calls.create_dir p l).0 ≡ bytes_at s l
  pub get_writer-works :
      (n : String) (p : FilePath) (l : L)
      → is_dir p l ≡ true
      → is_dir (n ∷ p) l ≡ false
      → (calls.get_writer (n ∷ p) l).1 ≡ none
  pub get_writer-empty :
      (p : FilePath) (l : L)
      → (calls.get_writer p l).1 ≡ none
      → bytes_at p (calls.get_writer p l).0 ≡ some []
  pub get_writer-keeps :
      (p s : FilePath) (l : L) → s ≢ p → bytes_at s (calls.get_writer p l).0 ≡ bytes_at s l
  pub get_writer-dirs : (p s : FilePath) (l : L) → is_dir s (calls.get_writer p l).0 ≡ is_dir s l
  pub copy-works :
      (p : FilePath) (bytes : List ℕ) (l : L)
      → bytes_at p l ≡ some []
      → (calls.copy p bytes l).1 ≡ none
  pub copy-fills :
      (p : FilePath) (bytes : List ℕ) (l : L)
      → bytes_at p l ≡ some []
      → bytes_at p (calls.copy p bytes l).0 ≡ some bytes
  pub copy-keeps :
      (p s : FilePath) (bytes : List ℕ) (l : L)
      → s ≢ p
      → bytes_at s (calls.copy p bytes l).0 ≡ bytes_at s l
  pub copy-dirs :
      (p s : FilePath) (bytes : List ℕ) (l : L) → is_dir s (calls.copy p bytes l).0 ≡ is_dir s l
  pub close-keeps : (p s : FilePath) (l : L) → bytes_at s (calls.close p l) ≡ bytes_at s l
  pub close-dirs : (p s : FilePath) (l : L) → is_dir s (calls.close p l) ≡ is_dir s l

module _ {E L : Type 0} (calls : Callbacks E L) (bytes_at : View L) (is_dir : FilePath → L → Bool)
    (k : Keeping calls bytes_at is_dir) where
  copied :
      (p s : FilePath) (bytes : List ℕ) (l : L)
      → (calls.get_writer p l).1 ≡ none
      → bytes_at s (calls.copy p bytes (calls.get_writer p l).0).0
        ≡ ite (FilePath_discrete s p) (some bytes) (bytes_at s l)
  copied p s bytes l made =
      let l1 = (calls.get_writer p l).0 in
      elim (FilePath_discrete s p) [
        | yes e ↦
            rw (if_pos (FilePath_discrete s p) e, e)
              (k.copy-fills p bytes l1 (k.get_writer-empty p l made))
        | no n ↦
            rw (if_neg (FilePath_discrete s p) n)
              (k.copy-keeps p s bytes l1 n ∙ k.get_writer-keeps p s l n)
      ]

  get_regular-written :
      (p : FilePath) (bytes : List ℕ) (l : L) (s : FilePath)
      → (get_regular calls p bytes l).1 ≡ none
      → bytes_at s (get_regular calls p bytes l).0
        ≡ ite (FilePath_discrete s p) (some bytes) (bytes_at s l)
  unfolding get_regular
  get_regular-written p bytes l s h =
      let fills : L → L × Option E =
        λ l1. (calls.close p (calls.copy p bytes l1).0, (calls.copy p bytes l1).1) in
      let (a, ah, ae) = unless_error-none (calls.get_writer p l) fills h in
      let l1 = (calls.get_writer p l).0 in
      ap (λ (x : L × Option E). bytes_at s x.0) ae
      ∙ k.close-keeps p s (calls.copy p bytes l1).0
      ∙ copied p s bytes l a

  mutual
    unfolding get_file written files

    get_file-written :
        (p : FilePath) (n : String) (t : Tree E) (l : L) (s : FilePath)
        → (get_file calls (n ∷ p) t l).1 ≡ none
        → bytes_at s (get_file calls (n ∷ p) t l).0 ≡ written (files p n t) s (bytes_at s l)
    get_file-written p n (unreadable e) l s h = cc h
    get_file-written p n (unlisted mode e) l s h =
        cc ((unless_error-none (calls.create_dir (n ∷ p) l) (λ l1. (l1, some e)) h).1)
    get_file-written p n (directory mode fs) l s h =
        let l1 = (calls.create_dir (n ∷ p) l).0 in
        let (a, ah, ae) =
          unless_error-none (calls.create_dir (n ∷ p) l) (λ x. get_entries calls (n ∷ p) fs x) h in
        ap (λ (x : L × Option E). bytes_at s x.0) ae
        ∙ get_entries-written (n ∷ p) fs l1 s ah
        ∙ ap (written (files_of (n ∷ p) fs) s) (k.create_dir-keeps (n ∷ p) s l)
    get_file-written p n (file mode bytes) l s h = get_regular-written (n ∷ p) bytes l s h

    get_entries-written :
        (p : FilePath) (es : Entries E) (l : L) (s : FilePath)
        → (get_entries calls p es l).1 ≡ none
        → bytes_at s (get_entries calls p es l).0 ≡ written (files_of p es) s (bytes_at s l)
    get_entries-written p no_more l s h = refl
    get_entries-written p (entry n t rest) l s h =
        let (a, ah, ae) =
          unless_error-none (get_file calls (n ∷ p) t l) (λ x. get_entries calls p rest x) h in
        let l1 = (get_file calls (n ∷ p) t l).0 in
        ap (λ (x : L × Option E). bytes_at s x.0) ae
        ∙ get_entries-written p rest l1 s ah
        ∙ ap (written (files_of p rest) s) (get_file-written p n t l s a)
        ∙ sym (written-append (files p n t) (files_of p rest) s (bytes_at s l))

  module _ (place : FilePath → Bool) where
    create_dir-IsDone :
        (n : String) (p : FilePath) (l : L)
        → place (n ∷ p) ≡ true
        → Agrees place bytes_at is_dir l
        → is_dir p l ≡ true
        → IsDone place bytes_at is_dir ((n ∷ p) ∷ []) l (calls.create_dir (n ∷ p) l)
    create_dir-IsDone n p l h a parent =
        let works = k.create_dir-works n p l parent (a.free (n ∷ p) h) in
        record {
          ends = works;
          agrees = record {
            free = λ s t. k.create_dir-keeps (n ∷ p) s l ∙ a.free s t;
            dirs = λ s t. elim (k.create_dir-only (n ∷ p) s l t) [
              | inl old ↦ a.dirs s old
              | inr e ↦ ap place e ∙ h
            ];
          };
          stays = λ s t. k.create_dir-stays (n ∷ p) s l t;
          has_dirs = (k.create_dir-makes (n ∷ p) l works, tt);
        }

    get_regular-IsDone :
        (p : FilePath) (n : String) (bytes : List ℕ) (l : L)
        → place (n ∷ p) ≡ false
        → Agrees place bytes_at is_dir l
        → is_dir p l ≡ true
        → IsDone place bytes_at is_dir (p ∷ []) l (get_regular calls (n ∷ p) bytes l)
    unfolding get_regular
    get_regular-IsDone p n bytes l h a parent =
        let q = n ∷ p in
        let l1 = (calls.get_writer q l).0 in
        let l2 = (calls.copy q bytes l1).0 in
        let fills : L → L × Option E =
          λ l1. (calls.close q (calls.copy q bytes l1).0, (calls.copy q bytes l1).1) in
        let made = k.get_writer-works n p l parent (dirs-absent place bytes_at is_dir q l a h) in
        let copies = k.copy-works q bytes l1 (k.get_writer-empty q l made) in
        let dirs = λ (s : FilePath).
          k.close-dirs q s l2 ∙ k.copy-dirs q s bytes l1 ∙ k.get_writer-dirs q s l in
        let same = unless_error-on (calls.get_writer q l) fills made in
        subst (IsDone place bytes_at is_dir (p ∷ []) l) (sym same) (record {
          ends = copies;
          agrees = record {
            free = λ s t.
                k.close-keeps q s l2
                ∙ k.copy-keeps q s bytes l1 (λ e. cc (sym t ∙ ap place e ∙ h))
                ∙ k.get_writer-keeps q s l (λ e. cc (sym t ∙ ap place e ∙ h))
                ∙ a.free s t;
            dirs = λ s t. a.dirs s (sym (dirs s) ∙ t);
          };
          stays = λ s t. dirs s ∙ t;
          has_dirs = (dirs p ∙ parent, tt);
        })

    mutual
      unfolding get_file first_error Fits directories

      get_file-IsDone :
          (p : FilePath) (n : String) (t : Tree E) (l : L)
          → first_error t ≡ none
          → Fits place p n t
          → Agrees place bytes_at is_dir l
          → is_dir p l ≡ true
          → IsDone place bytes_at is_dir (directories p n t) l (get_file calls (n ∷ p) t l)
      get_file-IsDone p n (unreadable e) l h f a parent = cc h
      get_file-IsDone p n (unlisted mode e) l h f a parent = cc h
      get_file-IsDone p n (directory mode fs) l h f a parent =
          let q = n ∷ p in
          let x = create_dir-IsDone n p l f.0 a parent in
          then-IsDone place bytes_at is_dir (q ∷ []) (directories_of q fs) l (calls.create_dir q l)
            (λ s. get_entries calls q fs s) x
            (get_entries-IsDone q fs (calls.create_dir q l).0 h f.1 x.agrees x.has_dirs.0)
      get_file-IsDone p n (file mode bytes) l h f a parent =
          get_regular-IsDone p n bytes l f.1 a parent

      get_entries-IsDone :
          (p : FilePath) (es : Entries E) (l : L)
          → first_error_of es ≡ none
          → FitsOf place p es
          → Agrees place bytes_at is_dir l
          → is_dir p l ≡ true
          → IsDone place bytes_at is_dir (directories_of p es) l (get_entries calls p es l)
      get_entries-IsDone p no_more l h f a parent = record {
        ends = refl;
        agrees = a;
        stays = λ s t. t;
        has_dirs = tt;
      }
      get_entries-IsDone p (entry n t rest) l h f a parent =
          let (ht, hr) = first-none (first_error t) (first_error_of rest) h in
          let x = get_file-IsDone p n t l ht f.0 a parent in
          then-IsDone place bytes_at is_dir (directories p n t) (directories_of p rest) l
            (get_file calls (n ∷ p) t l) (λ s. get_entries calls p rest s) x
            (get_entries-IsDone p rest (get_file calls (n ∷ p) t l).0 hr f.1 x.agrees
              (x.stays p parent))

    -- With callbacks that keep what they are given, let each path be the place either of directories or
    -- of files, and what their owner has and what the tree brings agree with the places. Then the
    -- download of a tree that can be read, into a directory that is there, ends without an error; the
    -- owner of the callbacks has at every path what it had before, unless it is that of a file of the
    -- tree: then it has the bytes of that file, the last one if there are several; and it has the
    -- directories of the tree, those that its files stand in, and those that it had before.
    pub get_file-receives :
        (p : FilePath) (n : String) (t : Tree E) (l : L)
        → first_error t ≡ none
        → Fits place p n t
        → Agrees place bytes_at is_dir l
        → is_dir p l ≡ true
        → ((get_file calls (n ∷ p) t l).1 ≡ none)
          × ((s : FilePath)
              → bytes_at s (get_file calls (n ∷ p) t l).0 ≡ written (files p n t) s (bytes_at s l))
          × All
              (λ (s : FilePath). is_dir s (get_file calls (n ∷ p) t l).0 ≡ true)
              (directories p n t)
          × ((s : FilePath) → is_dir s l ≡ true → is_dir s (get_file calls (n ∷ p) t l).0 ≡ true)
    get_file-receives p n t l readable f a parent =
        let x = get_file-IsDone p n t l readable f a parent in
        (x.ends, λ s. get_file-written p n t l s x.ends, x.has_dirs, x.stays)
