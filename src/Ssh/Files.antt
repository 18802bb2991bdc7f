-- ===== src/Ssh/Files.antt =====
-- ssh/client.go: `PutFile` and `GetFile` with their recursion over directories, and `PutData`. A path is
-- the list of its names, the last first (the root is a name), so that `filepath.Join(p, n)` is `n ∷ p`. The client of
-- the library sftp is a parameter: each operation gives the state of the remote machine and an error.
pub mod Trees
pub mod Places
pub mod Sent
pub mod Received
use own_x_go.Base.{
  ℕ, String, String_discrete, List, [], ◌∷◌, Option, none, some, ite, Bool, true, false, ◌==◌,
  if◌then◌else◌,
}

abbrev pub FilePath : Type 0
FilePath = List String

-- A file or a directory as `Open`, `Stat` and the list of its entries show it; `unreadable` is an error
-- of one of the first two, and `unlisted` one of the list.
mutual
  pub data Tree (E : Type 0) : Type 0 where
    file : (mode : ℕ) (bytes : List ℕ) → Tree E
    directory : (mode : ℕ) (files : Entries E) → Tree E
    unlisted : (mode : ℕ) (err : E) → Tree E
    unreadable : (err : E) → Tree E

  pub data Entries (E : Type 0) : Type 0 where
    no_more : Entries E
    entry : (name : String) (tree : Tree E) (rest : Entries E) → Entries E

-- `write` is `io.Copy` to the open file.
pub record Sftp (E R : Type 0) : Type 0 where
  pub mkdir_all : FilePath → R → R × Option E
  pub chmod : FilePath → ℕ → R → R × Option E
  pub create : FilePath → R → R × Option E
  pub write : FilePath → List ℕ → R → R × Option E

-- The callbacks of `GetFile`, on what their owner keeps; `copy` is `io.Copy` to the writer, and `close`
-- is its `CleanFunc`.
pub record Callbacks (E L : Type 0) : Type 0 where
  pub create_dir : FilePath → L → L × Option E
  pub get_writer : FilePath → L → L × Option E
  pub copy : FilePath → List ℕ → L → L × Option E
  pub close : FilePath → L → L

module _ {E R : Type 0} where
  -- Goes on where there is no error.
  abbrev pub unless_error : R × Option E → (R → R × Option E) → R × Option E
  unless_error (r, none) next = next r
  unless_error (r, some e) next = (r, some e)

module _ {E R : Type 0} (sftp : Sftp E R) where
  -- The directory of a file that is to come. The test of `Stat` before it is always true, since
  -- `os.IsExist` is false of no error, and of the errors of `Stat`.
  unfoldable pub make_parent : FilePath → R → R × Option E
  make_parent [] r = (r, none)
  make_parent (n ∷ p) r = sftp.mkdir_all (n ∷ p) r

  -- `putFile` of a file that is not a directory
  unfoldable pub put_regular : FilePath → String → ℕ → List ℕ → R → R × Option E
  unfolding make_parent
  put_regular p n mode bytes r = unless_error (make_parent p r) (λ r1.
      unless_error (sftp.create (n ∷ p) r1)
        (λ r2. unless_error (sftp.chmod (n ∷ p) mode r2) (λ r3. sftp.write (n ∷ p) bytes r3)))

  -- `putFile`; the errors of the two calls for a directory are dropped.
  unfoldable mutual
    unfolding put_regular

    pub put_file : FilePath → String → Tree E → R → R × Option E
    put_file p n (unreadable e) r = (r, some e)
    put_file p n (unlisted mode e) r = (r, some e)
    put_file p n (directory mode files) r =
        put_entries (n ∷ p) files (sftp.chmod (n ∷ p) mode (sftp.mkdir_all (n ∷ p) r).0).0
    put_file p n (file mode bytes) r = put_regular p n mode bytes r

    pub put_entries : FilePath → Entries E → R → R × Option E
    put_entries p no_more r = (r, none)
    put_entries p (entry n t rest) r = unless_error (put_file p n t r) (λ d. put_entries p rest d)

  -- `PutFile`, with the error of paths that are blank and that of the client.
  unfoldable pub put_local_file :
      E → Option E → Bool → FilePath → String → Tree E → R → R × Option E
  unfolding put_file
  put_local_file invalid client blank p n t r =
      if blank
      then (r, some invalid)
      else elim client [ some e ↦ (r, some e) | none ↦ put_file p n t r ]

  -- The data of `PutData`, a slice or a reader, or something else.
  unfoldable pub put_content : FilePath → Option (List ℕ) → E → R → R × Option E
  put_content p none bad r = (r, some bad)
  put_content p (some bytes) bad r = sftp.write p bytes r

  -- `PutData`, with data that is not nil and a client; the mode zero is none.
  unfoldable pub put_data : FilePath → String → ℕ → Option (List ℕ) → E → R → R × Option E
  unfolding make_parent put_content
  put_data p n mode bytes bad r = unless_error (make_parent p r) (λ r1.
      unless_error (sftp.create (n ∷ p) r1) (λ r2.
        unless_error (if mode == 0 then (r2, none) else sftp.chmod (n ∷ p) mode r2)
          (λ r3. put_content (n ∷ p) bytes bad r3)))

module _ {E L : Type 0} (calls : Callbacks E L) where
  -- `getFile` of a file that is not a directory
  unfoldable pub get_regular : FilePath → List ℕ → L → L × Option E
  get_regular p bytes l =
      unless_error (calls.get_writer p l)
        (λ l1. let (l2, err) = calls.copy p bytes l1 in (calls.close p l2, err))

  -- `getFile`
  unfoldable mutual
    unfolding get_regular

    pub get_file : FilePath → Tree E → L → L × Option E
    get_file p (unreadable e) l = (l, some e)
    get_file p (unlisted mode e) l = unless_error (calls.create_dir p l) (λ l1. (l1, some e))
    get_file p (directory mode files) l =
        unless_error (calls.create_dir p l) (λ l1. get_entries p files l1)
    get_file p (file mode bytes) l = get_regular p bytes l

    pub get_entries : FilePath → Entries E → L → L × Option E
    get_entries p no_more l = (l, none)
    get_entries p (entry n t rest) l =
        unless_error (get_file (n ∷ p) t l) (λ l1. get_entries p rest l1)

  -- `GetFile`, with the error of a path that is blank or of no callback, and that of the client.
  unfoldable pub get_remote_file : E → Option E → Bool → FilePath → Tree E → L → L × Option E
  unfolding get_file
  get_remote_file invalid client blank p t l =
      if blank
      then (l, some invalid)
      else elim client [ some e ↦ (l, some e) | none ↦ get_file p t l ]
