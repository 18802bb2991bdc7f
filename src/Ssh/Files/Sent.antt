-- ===== src/Ssh/Files/Sent.antt =====
-- What an upload leaves on the remote machine.
use own_x_go.Base.{
  ℕ, ◌≡◌, refl, ap, ◌∙◌, sym, String, List, [], ◌∷◌, Option, none, some, ite, if_pos, if_neg, Bool,
  true, false, All, subst,
}
use own_x_go.Ssh.Files.{
  FilePath, Tree, Entries, file, directory, unreadable, unlisted, no_more, entry, Sftp,
  unless_error, make_parent, put_regular, put_file, put_entries,
}
use own_x_go.Ssh.Files.Places.{
  IsDone, then-IsDone, dirs-absent, Documented, Grants, IsClosed, Agrees, Fits, FitsOf,
  place-is_above, mkdir_all-Agrees, chmod-Agrees, create-Agrees, write-Agrees,
}
use own_x_go.Ssh.Files.Trees.{
  directories, directories_of, first-none, unless_error-on, FilePath_discrete, View, files,
  files_of, written, written-append, unless_error-none, first_error, first_error_of,
}

module _ {E R : Type 0} (sftp : Sftp E R) (bytes_at : View R) (is_dir : FilePath → R → Bool)
    (d : Documented sftp bytes_at is_dir) where
  make_parent-keeps : (p s : FilePath) (r : R) → bytes_at s (make_parent sftp p r).0 ≡ bytes_at s r
  unfolding make_parent
  make_parent-keeps [] s r = refl
  make_parent-keeps (n ∷ p) s r = d.mkdir_all-keeps (n ∷ p) s r

  -- A new file at `q` with its bytes, after its mode has been set.
  filled :
      (q s : FilePath) (m : ℕ) (bytes : List ℕ) (r : R)
      → let r1 = (sftp.create q r).0 in
        let r2 = (sftp.chmod q m r1).0 in
        (sftp.create q r).1 ≡ none
        → (sftp.write q bytes r2).1 ≡ none
        → bytes_at s (sftp.write q bytes r2).0
          ≡ ite (FilePath_discrete s q) (some bytes) (bytes_at s r)
  filled q s m bytes r made wrote =
      let r1 = (sftp.create q r).0 in
      let r2 = (sftp.chmod q m r1).0 in
      elim (FilePath_discrete s q) [
        | yes e ↦
            rw (if_pos (FilePath_discrete s q) e, e)
              (d.write-fills q bytes r2 (d.chmod-keeps q q m r1 ∙ d.create-empty q r made) wrote)
        | no n ↦
            rw (if_neg (FilePath_discrete s q) n)
              (d.write-keeps q s bytes r2 n ∙ d.chmod-keeps q s m r1 ∙ d.create-keeps q s r n)
      ]

  put_regular-written :
      (p : FilePath) (n : String) (mode : ℕ) (bytes : List ℕ) (r : R) (s : FilePath)
      → (put_regular sftp p n mode bytes r).1 ≡ none
      → bytes_at s (put_regular sftp p n mode bytes r).0
        ≡ ite (FilePath_discrete s (n ∷ p)) (some bytes) (bytes_at s r)
  unfolding put_regular
  put_regular-written p n mode bytes r s h =
      let r1 = (make_parent sftp p r).0 in
      let r2 = (sftp.create (n ∷ p) r1).0 in
      let r3 = (sftp.chmod (n ∷ p) mode r2).0 in
      let fills = λ (r : R). sftp.write (n ∷ p) bytes r in
      let sets = λ (r : R). unless_error (sftp.chmod (n ∷ p) mode r) fills in
      let makes = λ (r : R). unless_error (sftp.create (n ∷ p) r) sets in
      let (a, ah, ae) = unless_error-none (make_parent sftp p r) makes h in
      let (b, bh, be) = unless_error-none (sftp.create (n ∷ p) r1) sets ah in
      let (c, ch, ce) = unless_error-none (sftp.chmod (n ∷ p) mode r2) fills bh in
      ap (λ (x : R × Option E). bytes_at s x.0) (ae ∙ be ∙ ce)
      ∙ filled (n ∷ p) s mode bytes r1 b ch
      ∙ ap (ite (FilePath_discrete s (n ∷ p)) (some bytes)) (make_parent-keeps p s r)

  -- An upload without an error has put the files of the tree at their paths with their bytes, the one
  -- that comes later where two have the same path, and the bytes at every other path are what they were.
  mutual
    unfolding put_file written files

    pub put_file-written :
        (p : FilePath) (n : String) (t : Tree E) (r : R) (s : FilePath)
        → (put_file sftp p n t r).1 ≡ none
        → bytes_at s (put_file sftp p n t r).0 ≡ written (files p n t) s (bytes_at s r)
    put_file-written p n (unreadable e) r s h = cc h
    put_file-written p n (unlisted mode e) r s h = cc h
    put_file-written p n (directory mode fs) r s h =
        let r1 = (sftp.mkdir_all (n ∷ p) r).0 in
        put_entries-written (n ∷ p) fs (sftp.chmod (n ∷ p) mode r1).0 s h
        ∙ ap (written (files_of (n ∷ p) fs) s)
            (d.chmod-keeps (n ∷ p) s mode r1 ∙ d.mkdir_all-keeps (n ∷ p) s r)
    put_file-written p n (file mode bytes) r s h = put_regular-written p n mode bytes r s h

    pub put_entries-written :
        (p : FilePath) (es : Entries E) (r : R) (s : FilePath)
        → (put_entries sftp p es r).1 ≡ none
        → bytes_at s (put_entries sftp p es r).0 ≡ written (files_of p es) s (bytes_at s r)
    put_entries-written p no_more r s h = refl
    put_entries-written p (entry n t rest) r s h =
        let (a, ah, ae) =
          unless_error-none (put_file sftp p n t r) (λ x. put_entries sftp p rest x) h in
        let r1 = (put_file sftp p n t r).0 in
        ap (λ (x : R × Option E). bytes_at s x.0) ae
        ∙ put_entries-written p rest r1 s ah
        ∙ ap (written (files_of p rest) s) (put_file-written p n t r s a)
        ∙ sym (written-append (files p n t) (files_of p rest) s (bytes_at s r))

module _ {E R : Type 0} (sftp : Sftp E R) (bytes_at : View R) (is_dir : FilePath → R → Bool)
    (d : Documented sftp bytes_at is_dir) (g : Grants sftp bytes_at is_dir)
    (place : FilePath → Bool) (closed : IsClosed place) where
  mkdir_all-works :
      (p : FilePath) (r : R)
      → place p ≡ true
      → Agrees place bytes_at is_dir r
      → (sftp.mkdir_all p r).1 ≡ none
  mkdir_all-works p r h a =
      g.mkdir_all-grants p r (λ s t. a.free s (place-is_above place closed p s h t))

  make_parent-IsDone :
      (p : FilePath) (r : R)
      → place p ≡ true
      → Agrees place bytes_at is_dir r
      → IsDone place bytes_at is_dir (p ∷ []) r (make_parent sftp p r)
  unfolding make_parent
  make_parent-IsDone [] r h a = record {
    ends = refl;
    agrees = a;
    stays = λ s t. t;
    has_dirs = (g.here r, tt);
  }
  make_parent-IsDone (n ∷ p) r h a =
      let works = mkdir_all-works (n ∷ p) r h a in
      record {
        ends = works;
        agrees = mkdir_all-Agrees sftp bytes_at is_dir d place closed (n ∷ p) r h a;
        stays = λ s t. d.mkdir_all-stays (n ∷ p) s r t;
        has_dirs = (d.mkdir_all-makes (n ∷ p) r works, tt);
      }

  -- The file itself, once its directory is there.
  fill-IsDone :
      (p : FilePath) (n : String) (mode : ℕ) (bytes : List ℕ) (r : R)
      → place (n ∷ p) ≡ false
      → Agrees place bytes_at is_dir r
      → is_dir p r ≡ true
      → IsDone place bytes_at is_dir (p ∷ []) r (
          unless_error
            (sftp.create (n ∷ p) r)
            (λ r2. unless_error (sftp.chmod (n ∷ p) mode r2) (λ r3. sftp.write (n ∷ p) bytes r3)))
  fill-IsDone p n mode bytes r h a parent =
      let q = n ∷ p in
      let r2 = (sftp.create q r).0 in
      let r3 = (sftp.chmod q mode r2).0 in
      let fills = λ (r : R). sftp.write q bytes r in
      let sets = λ (r : R). unless_error (sftp.chmod q mode r) fills in
      let here = dirs-absent place bytes_at is_dir q r a h in
      let created = g.create-grants n p r parent here in
      let blank = d.create-empty q r created in
      let set = g.chmod-grants q mode [] r2 blank in
      let wrote = g.write-grants q bytes r3 (d.chmod-keeps q q mode r2 ∙ blank) in
      let same =
        unless_error-on (sftp.create q r) sets created
        ∙ unless_error-on (sftp.chmod q mode r2) fills set in
      let b = create-Agrees sftp bytes_at is_dir d place q r h a in
      let c = chmod-Agrees sftp bytes_at is_dir d place q mode r2 b in
      let dirs = λ (s : FilePath).
        d.write-dirs q s bytes r3 ∙ d.chmod-dirs q s mode r2 ∙ d.create-dirs q s r in
      subst (IsDone place bytes_at is_dir (p ∷ []) r) (sym same) (record {
        ends = wrote;
        agrees = write-Agrees sftp bytes_at is_dir d place q bytes r3 h c;
        stays = λ s t. dirs s ∙ t;
        has_dirs = (dirs p ∙ parent, tt);
      })

  put_regular-IsDone :
      (p : FilePath) (n : String) (mode : ℕ) (bytes : List ℕ) (r : R)
      → place p ≡ true
      → place (n ∷ p) ≡ false
      → Agrees place bytes_at is_dir r
      → IsDone place bytes_at is_dir (p ∷ []) r (put_regular sftp p n mode bytes r)
  unfolding put_regular
  put_regular-IsDone p n mode bytes r h f a =
      let x = make_parent-IsDone p r h a in
      let y = fill-IsDone p n mode bytes (make_parent sftp p r).0 f x.agrees (x.has_dirs.0) in
      let z = then-IsDone place bytes_at is_dir (p ∷ []) (p ∷ []) r (make_parent sftp p r) _ x y in
      record { ends = z.ends; agrees = z.agrees; stays = z.stays; has_dirs = z.has_dirs.1 }

  mutual
    unfolding put_file first_error Fits directories

    put_file-IsDone :
        (p : FilePath) (n : String) (t : Tree E) (r : R)
        → first_error t ≡ none
        → Fits place p n t
        → Agrees place bytes_at is_dir r
        → IsDone place bytes_at is_dir (directories p n t) r (put_file sftp p n t r)
    put_file-IsDone p n (unreadable e) r h f a = cc h
    put_file-IsDone p n (unlisted mode e) r h f a = cc h
    put_file-IsDone p n (directory mode fs) r h f a =
        let q = n ∷ p in
        let r1 = (sftp.mkdir_all q r).0 in
        let works = mkdir_all-works q r f.0 a in
        let b = mkdir_all-Agrees sftp bytes_at is_dir d place closed q r f.0 a in
        let c = chmod-Agrees sftp bytes_at is_dir d place q mode r1 b in
        let z = put_entries-IsDone q fs (sftp.chmod q mode r1).0 h f.1 c in
        record {
          ends = z.ends;
          agrees = z.agrees;
          stays = λ s t. z.stays s (d.chmod-dirs q s mode r1 ∙ d.mkdir_all-stays q s r t);
          has_dirs =
              (z.stays q (d.chmod-dirs q q mode r1 ∙ d.mkdir_all-makes q r works), z.has_dirs);
        }
    put_file-IsDone p n (file mode bytes) r h f a = put_regular-IsDone p n mode bytes r f.0 f.1 a

    put_entries-IsDone :
        (p : FilePath) (es : Entries E) (r : R)
        → first_error_of es ≡ none
        → FitsOf place p es
        → Agrees place bytes_at is_dir r
        → IsDone place bytes_at is_dir (directories_of p es) r (put_entries sftp p es r)
    put_entries-IsDone p no_more r h f a = record {
      ends = refl;
      agrees = a;
      stays = λ s t. t;
      has_dirs = tt;
    }
    put_entries-IsDone p (entry n t rest) r h f a =
        let (ht, hr) = first-none (first_error t) (first_error_of rest) h in
        let x = put_file-IsDone p n t r ht f.0 a in
        then-IsDone place bytes_at is_dir (directories p n t) (directories_of p rest) r
          (put_file sftp p n t r) (λ s. put_entries sftp p rest s) x
          (put_entries-IsDone p rest (put_file sftp p n t r).0 hr f.1 x.agrees)

  -- Where the client does what it documents, and the remote machine what can be done, let each path be
  -- the place either of directories or of files, and what the machine has and what the tree brings
  -- agree with the places. Then the upload of a tree that can be read ends without an error; every path
  -- holds what it held before, unless it is that of a file of the tree: then it holds the bytes of that
  -- file, the last one if there are several; and the directories of the tree, those that its files
  -- stand in, and those that were there before are directories.
  pub put_file-sends :
      (p : FilePath) (n : String) (t : Tree E) (r : R)
      → first_error t ≡ none
      → Fits place p n t
      → Agrees place bytes_at is_dir r
      → ((put_file sftp p n t r).1 ≡ none)
        × ((s : FilePath)
            → bytes_at s (put_file sftp p n t r).0 ≡ written (files p n t) s (bytes_at s r))
        × All (λ (s : FilePath). is_dir s (put_file sftp p n t r).0 ≡ true) (directories p n t)
        × ((s : FilePath) → is_dir s r ≡ true → is_dir s (put_file sftp p n t r).0 ≡ true)
  put_file-sends p n t r readable f a =
      let x = put_file-IsDone p n t r readable f a in
      (x.ends, λ s. put_file-written sftp bytes_at is_dir d p n t r s x.ends, x.has_dirs, x.stays)
