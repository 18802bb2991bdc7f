-- ===== src/Ssh/Tests.antt =====
-- Machines that keep files, and the theorems at them.
use own_x_go.Base.{
  ℕ, ◌≡◌, ◌≢◌, refl, ◌∙◌, List, [], ◌∷◌, none, some, if_pos, if_neg, ap, sym, Option, Bool, true,
  false, not, ◌||◌, ◌&&◌, is_some, ite, if◌then◌else◌, All, String_discrete, ◌⊎◌, inl, arith,
  if_both, inr,
}
use own_x_go.Ssh.Files.{
  FilePath, Tree, file, directory, no_more, entry, Sftp, Callbacks, put_file, get_file,
}
use own_x_go.Ssh.Files.Trees.{
  FilePath_discrete, View, files, written, first_error, directories, is_above,
}
use own_x_go.Ssh.Files.Places.{Documented, Grants, IsClosed, Agrees, Fits}
use own_x_go.Ssh.Files.Sent.{put_file-sends}
use own_x_go.Ssh.Files.Received.{Keeping, get_file-receives}

-- A machine that keeps the bytes of its files, and its directories.
record Remote : Type 0 where
  bytes : FilePath → Option (List ℕ)
  is_dir : FilePath → Bool

abbrev at_remote : View Remote
at_remote s r = r.bytes s

abbrev dir_remote : FilePath → Remote → Bool
dir_remote [] r = true
dir_remote (n ∷ p) r = r.is_dir (n ∷ p)

abbrev put_bytes : FilePath → List ℕ → Remote → Remote
put_bytes p bytes r = record r { bytes = λ s. ite (FilePath_discrete s p) (some bytes) (r.bytes s) }

-- A file is in the way of a directory.
unfoldable blocked : FilePath → Remote → Bool
blocked [] r = is_some (r.bytes [])
blocked (n ∷ p) r = is_some (r.bytes (n ∷ p)) || blocked p r

abbrev make_dirs : FilePath → Remote → Remote × Option ℕ
make_dirs p r =
    if blocked p r
    then (r, some 1)
    else (record r { is_dir = λ s. r.is_dir s || is_above s p }, none)

abbrev change_mode : FilePath → ℕ → Remote → Remote × Option ℕ
change_mode p m r = (r, if dir_remote p r || is_some (r.bytes p) then none else some 2)

abbrev make_file : FilePath → Remote → Remote × Option ℕ
make_file [] r = (r, some 3)
make_file (n ∷ p) r =
    if dir_remote p r && not (r.is_dir (n ∷ p)) then (put_bytes (n ∷ p) [] r, none) else (r, some 3)

abbrev fill_file : FilePath → List ℕ → Remote → Remote × Option ℕ
fill_file p bytes r = if is_some (r.bytes p) then (put_bytes p bytes r, none) else (r, some 4)

abbrev remote : Sftp ℕ Remote
remote = record {
  mkdir_all = make_dirs;
  chmod = change_mode;
  create = make_file;
  write = fill_file;
}

put_bytes-at :
    (p : FilePath) (bytes : List ℕ) (r : Remote) → at_remote p (put_bytes p bytes r) ≡ some bytes
put_bytes-at p bytes r = if_pos (FilePath_discrete p p) refl (some bytes) (r.bytes p)

put_bytes-other :
    (p s : FilePath) (bytes : List ℕ) (r : Remote)
    → s ≢ p
    → at_remote s (put_bytes p bytes r) ≡ at_remote s r
put_bytes-other p s bytes r other = if_neg (FilePath_discrete s p) other (some bytes) (r.bytes s)

put_bytes-dirs :
    (p s : FilePath) (bytes : List ℕ) (r : Remote)
    → dir_remote s (put_bytes p bytes r) ≡ dir_remote s r
put_bytes-dirs p [] bytes r = refl
put_bytes-dirs p (n ∷ s) bytes r = refl

is_above_self : (p : FilePath) → is_above p p ≡ true
unfolding is_above
is_above_self [] = if_pos (FilePath_discrete [] []) refl true false
is_above_self (n ∷ p) =
    ap (λ b. b || is_above (n ∷ p) p) (if_pos (FilePath_discrete (n ∷ p) (n ∷ p)) refl true false)

free-blocked :
    (p : FilePath) (r : Remote)
    → ((s : FilePath) → is_above s p ≡ true → r.bytes s ≡ none)
    → blocked p r ≡ false
unfolding blocked is_above
free-blocked [] r h = ap is_some (h [] (is_above_self []))
free-blocked (n ∷ p) r h =
    ground
      (arith, h (n ∷ p) (is_above_self (n ∷ p)), free-blocked p r (λ s a. h s (ground (arith, a))))

make_dirs-keeps : (p s : FilePath) (r : Remote) → at_remote s (make_dirs p r).0 ≡ at_remote s r
make_dirs-keeps p s r = ground arith

make_dirs-makes :
    (p : FilePath) (r : Remote) → (make_dirs p r).1 ≡ none → dir_remote p (make_dirs p r).0 ≡ true
make_dirs-makes [] r h = refl
make_dirs-makes (n ∷ p) r h = ground (arith, h, is_above_self (n ∷ p))

make_dirs-stays :
    (p s : FilePath) (r : Remote) → dir_remote s r ≡ true → dir_remote s (make_dirs p r).0 ≡ true
make_dirs-stays p [] r h = refl
make_dirs-stays p (n ∷ s) r h = ground (arith, h)

make_dirs-above :
    (p s : FilePath) (r : Remote)
    → dir_remote s (make_dirs p r).0 ≡ true
    → (dir_remote s r ≡ true) ⊎ (is_above s p ≡ true)
make_dirs-above p [] r h = inl refl
make_dirs-above p (n ∷ s) r h = ground (arith, h)

make_file-empty :
    (p : FilePath) (r : Remote) → (make_file p r).1 ≡ none → at_remote p (make_file p r).0 ≡ some []
make_file-empty [] r h = cc h
make_file-empty (n ∷ p) r h = ground (arith, h, put_bytes-at (n ∷ p) [] r)

make_file-keeps :
    (p s : FilePath) (r : Remote) → s ≢ p → at_remote s (make_file p r).0 ≡ at_remote s r
make_file-keeps [] s r h = refl
make_file-keeps (n ∷ p) s r h =
    if_both (λ (x : Remote × Option ℕ). at_remote s x.0 ≡ at_remote s r)
      (dir_remote p r && not (r.is_dir (n ∷ p))) (put_bytes-other (n ∷ p) s [] r h) refl

make_file-dirs : (p s : FilePath) (r : Remote) → dir_remote s (make_file p r).0 ≡ dir_remote s r
make_file-dirs [] s r = refl
make_file-dirs (n ∷ p) s r =
    if_both (λ (x : Remote × Option ℕ). dir_remote s x.0 ≡ dir_remote s r)
      (dir_remote p r && not (r.is_dir (n ∷ p))) (put_bytes-dirs (n ∷ p) s [] r) refl

fill_file-keeps :
    (p s : FilePath) (bytes : List ℕ) (r : Remote)
    → s ≢ p
    → at_remote s (fill_file p bytes r).0 ≡ at_remote s r
fill_file-keeps p s bytes r other =
    if_both (λ (x : Remote × Option ℕ). at_remote s x.0 ≡ at_remote s r) (is_some (r.bytes p))
      (put_bytes-other p s bytes r other) refl

fill_file-dirs :
    (p s : FilePath) (bytes : List ℕ) (r : Remote)
    → dir_remote s (fill_file p bytes r).0 ≡ dir_remote s r
fill_file-dirs p s bytes r =
    if_both (λ (x : Remote × Option ℕ). dir_remote s x.0 ≡ dir_remote s r) (is_some (r.bytes p))
      (put_bytes-dirs p s bytes r) refl

remote-Documented : Documented remote at_remote dir_remote
remote-Documented = record {
  mkdir_all-keeps = make_dirs-keeps;
  chmod-keeps = λ p s m r. refl;
  create-empty = make_file-empty;
  create-keeps = make_file-keeps;
  write-fills = λ p bytes r e h. rw e (put_bytes-at p bytes r);
  write-keeps = fill_file-keeps;
  mkdir_all-makes = make_dirs-makes;
  mkdir_all-stays = make_dirs-stays;
  mkdir_all-above = make_dirs-above;
  chmod-dirs = λ p s m r. refl;
  create-dirs = make_file-dirs;
  write-dirs = fill_file-dirs;
}

remote-Grants : Grants remote at_remote dir_remote
remote-Grants = record {
  here = λ r. refl;
  mkdir_all-grants = λ p r h. ground (arith, free-blocked p r h);
  chmod-grants = λ p m bytes r h. ground (arith, h);
  create-grants = λ n p r parent new. ground (arith, parent, new);
  write-grants = λ p bytes r h. ground (arith, h);
}

-- Two files and a directory that is empty.
abbrev tree : Tree ℕ
tree = directory 7 (
    entry "a" (file 6 (1 ∷ 2 ∷ [])) (
      entry "b" (directory 7 (entry "a" (file 6 []) no_more))
        (entry "c" (directory 7 no_more) no_more)))

abbrev home : FilePath
home = "home" ∷ []

tree-readable : first_error tree ≡ none
unfolding first_error
tree-readable = refl

-- All names but one are those of directories.
unfoldable dir_place : FilePath → Bool
dir_place [] = true
dir_place (n ∷ p) = not (ite (String_discrete n "a") true false) && dir_place p

dir_place-IsClosed : IsClosed dir_place
unfolding dir_place
dir_place-IsClosed n p h = ground (arith, h)

-- A directory with a file
abbrev old_remote : Remote
old_remote = record {
  bytes = λ s. ite (FilePath_discrete s ("a" ∷ home)) (some (9 ∷ [])) none;
  is_dir = λ s. ite (FilePath_discrete s home) true false;
}

old_remote-dirs : (s : FilePath) → dir_remote s old_remote ≡ true → dir_place s ≡ true
unfolding dir_place String_discrete
old_remote-dirs [] t = refl
old_remote-dirs (n ∷ p) t = elim (FilePath_discrete (n ∷ p) home) [
  | yes e ↦ ap dir_place e
  | no other ↦ cc (sym t ∙ if_neg (FilePath_discrete (n ∷ p) home) other true false)
]

old_remote-Agrees : Agrees dir_place at_remote dir_remote old_remote
unfolding dir_place String_discrete
old_remote-Agrees = record {
  free = λ s t. elim (FilePath_discrete s ("a" ∷ home)) [
    | yes e ↦ cc (sym t ∙ ap dir_place e)
    | no n ↦ if_neg (FilePath_discrete s ("a" ∷ home)) n (some (9 ∷ [])) none
  ];
  dirs = λ s t. old_remote-dirs s t;
}

-- The owner of the callbacks is such a machine as well.
abbrev make_dir : FilePath → Remote → Remote × Option ℕ
make_dir [] r = (r, none)
make_dir (n ∷ p) r =
    if dir_remote p r && not (is_some (r.bytes (n ∷ p)))
    then (
      record r { is_dir = λ s. r.is_dir s || ite (FilePath_discrete s (n ∷ p)) true false },
      none,
    )
    else (r, some 1)

abbrev local : Callbacks ℕ Remote
local = record { create_dir = make_dir; get_writer = make_file; copy = fill_file; close = λ p r. r }

make_dir-makes :
    (p : FilePath) (r : Remote) → (make_dir p r).1 ≡ none → dir_remote p (make_dir p r).0 ≡ true
make_dir-makes [] r h = refl
make_dir-makes (n ∷ p) r h =
    ground (arith, h, if_pos (FilePath_discrete (n ∷ p) (n ∷ p)) refl true false)

make_dir-stays :
    (p s : FilePath) (r : Remote) → dir_remote s r ≡ true → dir_remote s (make_dir p r).0 ≡ true
make_dir-stays [] s r h = h
make_dir-stays (m ∷ p) [] r h = refl
make_dir-stays (m ∷ p) (n ∷ s) r h = ground (arith, h)

make_dir-only :
    (p s : FilePath) (r : Remote)
    → dir_remote s (make_dir p r).0 ≡ true
    → (dir_remote s r ≡ true) ⊎ (s ≡ p)
make_dir-only [] s r h = inl h
make_dir-only (m ∷ p) [] r h = inl refl
make_dir-only (m ∷ p) (n ∷ s) r h = elim (FilePath_discrete (n ∷ s) (m ∷ p)) [
  | yes e ↦ inr e
  | no other ↦ inl (ground (arith, h, if_neg (FilePath_discrete (n ∷ s) (m ∷ p)) other true false))
]

make_dir-keeps : (p s : FilePath) (r : Remote) → at_remote s (make_dir p r).0 ≡ at_remote s r
make_dir-keeps [] s r = refl
make_dir-keeps (n ∷ p) s r = ground arith

local-Keeping : Keeping local at_remote dir_remote
local-Keeping = record {
  create_dir-works = λ n p r parent free. ground (arith, parent, free);
  create_dir-makes = make_dir-makes;
  create_dir-stays = make_dir-stays;
  create_dir-only = make_dir-only;
  create_dir-keeps = make_dir-keeps;
  get_writer-works = λ n p r parent new. ground (arith, parent, new);
  get_writer-empty = make_file-empty;
  get_writer-keeps = make_file-keeps;
  get_writer-dirs = make_file-dirs;
  copy-works = λ p bytes r h. ground (arith, h);
  copy-fills = λ p bytes r h. rw h (put_bytes-at p bytes r);
  copy-keeps = fill_file-keeps;
  copy-dirs = fill_file-dirs;
  close-keeps = λ p s r. refl;
  close-dirs = λ p s r. refl;
}

old_remote-home : dir_remote home old_remote ≡ true
old_remote-home = if_pos (FilePath_discrete home home) refl true false

tree-Fits : Fits dir_place home "x" tree
unfolding Fits dir_place String_discrete
tree-Fits = (refl, ((refl, refl), ((refl, ((refl, refl), tt)), ((refl, tt), tt))))

put_file-sends_example :
    let x = put_file remote home "x" tree old_remote in
    (x.1 ≡ none)
    × ((s : FilePath) → at_remote s x.0 ≡ written (files home "x" tree) s (at_remote s old_remote))
    × All (λ (s : FilePath). dir_remote s x.0 ≡ true) (directories home "x" tree)
    × ((s : FilePath) → dir_remote s old_remote ≡ true → dir_remote s x.0 ≡ true)
put_file-sends_example =
    put_file-sends remote at_remote dir_remote remote-Documented remote-Grants dir_place
      dir_place-IsClosed home "x" tree old_remote tree-readable tree-Fits old_remote-Agrees

get_file-receives_example :
    let x = get_file local ("x" ∷ home) tree old_remote in
    (x.1 ≡ none)
    × ((s : FilePath) → at_remote s x.0 ≡ written (files home "x" tree) s (at_remote s old_remote))
    × All (λ (s : FilePath). dir_remote s x.0 ≡ true) (directories home "x" tree)
    × ((s : FilePath) → dir_remote s old_remote ≡ true → dir_remote s x.0 ≡ true)
get_file-receives_example =
    get_file-receives local at_remote dir_remote local-Keeping dir_place home "x" tree old_remote
      tree-readable tree-Fits old_remote-Agrees old_remote-home
