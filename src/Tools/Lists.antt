-- ===== src/Tools/Lists.antt =====
-- tools/string.go, number.go and functions.go: the helpers on lists and on the registry of functions.
-- `strings.TrimSpace` and the conversion of one element are parameters.
pub mod Results
use own_x_go.Base.{
  ℕ, zero, suc, ◌+◌, ◌-◌, leb, if◌then◌else◌, String, String_discrete, List, [], ◌∷◌, ◌++◌, Option,
  none, some, is_some, Bool, true, false, ite, lookup, insert,
}

-- `ContainsInt`, `ContainsString` and `InList`.
unfoldable pub contains {ℓ} : {A : Type ℓ} → Discrete A → List A → A → Bool
contains dec [] item = false
contains dec (s ∷ list) item = ite (dec s item) true (contains dec list item)

-- The loop of `TrimDuplicates`, with the list `l` so far.
unfoldable pub trim_loop : (String → String) → List String → List String → List String
unfolding contains
trim_loop trim_space [] l = l
trim_loop trim_space (v ∷ vs) l =
    let w = trim_space v in
    trim_loop trim_space vs
      (ite (String_discrete w "") l (if contains String_discrete l w then l else l ++ (w ∷ [])))

unfoldable pub trim_duplicates : (String → String) → List String → List String
unfolding trim_loop
trim_duplicates trim_space list = trim_loop trim_space list []

-- `ToIntArray` and `ToBoolArray` of a list that is not nil: none is an error of one element.
unfoldable pub to_array {ℓ κ} :
    {A : Type ℓ} {B : Type κ} → (A → Option B) → List A → Option (List B)
to_array to [] = some []
to_array to (s ∷ list) = elim (to s) [
  | none ↦ none
  | some v ↦ elim (to_array to list) [ none ↦ none | some vs ↦ some (v ∷ vs) ]
]

unfoldable pub min : ℕ → ℕ → ℕ
min x y = if leb x y then x else y

-- `Iterate` of a start and an end that are not negative: `left` numbers are left.
unfoldable pub iterate_loop : ℕ → ℕ → List ℕ
iterate_loop zero i = []
iterate_loop (suc left) i = i ∷ iterate_loop left (i + 1)

unfoldable pub iterate : ℕ → ℕ → List ℕ
unfolding iterate_loop
iterate start end = iterate_loop (end - start) start

-- The list that `LocalIPFirst` and `LocalIPFirstList` join: none where the address of the machine is
-- not known, and the list is joined as it is.
unfoldable pub without_ip : String → List String → List String
without_ip local_ip [] = []
without_ip local_ip (ip ∷ ips) =
    ite (String_discrete ip local_ip) (without_ip local_ip ips) (ip ∷ without_ip local_ip ips)

unfoldable pub local_ip_first : Option String → List String → List String
unfolding without_ip
local_ip_first none ips = ips
local_ip_first (some local_ip) ips = local_ip ∷ without_ip local_ip ips

-- `AddFuncs`: none is the exit of the process on a name that is taken.
unfoldable pub add_funcs :
    {F : Type 0} → Bool → List (String × F) → List (String × F) → Option (List (String × F))
unfolding lookup insert
add_funcs exit [] func_maps = some func_maps
add_funcs exit ((k, v) ∷ funcs) func_maps =
    if is_some (lookup String_discrete k func_maps)
    then (if exit then none else add_funcs exit funcs func_maps)
    else add_funcs exit funcs (insert String_discrete k v func_maps)
