-- ===== src/Bean.antt =====
-- bean/bean.go: the beans under their names, and the injection of beans into the fields of beans.
-- An object is an address, 0 is nil, and an object that is not nil is a pointer to a structure, whose
-- fields are `fields_of`. A heap gives the value of each field of an object. cases.Title, the regular
-- expressions of tools.Replace and the test of reflect that a bean fits a field are parameters.
mod Tests
pub mod Heaps
pub mod Fields
pub mod Wiring
use own_x_go.Base.{
  ℕ, zero, suc, ◌+◌, ◌==◌, if◌then◌else◌, Bool, true, false, not, ◌&&◌, ◌||◌, ite, String,
  String_discrete, List, [], ◌∷◌, Option, none, some, lookup, insert,
}
use Prim.Native.Char.{Char}
use Prim.Native.String as Text

pub data Kind : Type 0 where
  interface pointer structure other : Kind

-- A field as reflect shows it; `tagged` says that its tag has the word autowrite, and `bean` is what
-- its tag has under the key bean.
pub record Field : Type 0 where
  pub name : String
  pub kind : Kind
  pub tagged : Bool
  pub bean : String
  pub type_string : String
  pub type_name : String
  pub can_set : Bool

abbrev pub Beans : Type 0
Beans = List (String × ℕ)

abbrev pub Heap : Type 0
Heap = ℕ → ℕ → ℕ

-- `stuck` is a run that is out of fuel.
pub data Result : Type 0 where
  panics stuck : Result
  finished : Heap → Result

unfoldable pub get_bean : Beans → String → ℕ
get_bean m name = elim (lookup String_discrete name m) [ none ↦ 0 | some b ↦ b ]

-- `strings.Contains(beanName, ".")`
unfoldable pub has_dot : String → Bool
has_dot Text.[] = false
has_dot (Text.◌∷◌ c s) = ite (String_discrete (Text.◌∷◌ c Text.[]) ".") true (has_dot s)

-- `strings.Replace(s, "*", "", 1)`
unfoldable pub without_star : String → String
without_star Text.[] = ""
without_star (Text.◌∷◌ c s) =
    ite (String_discrete (Text.◌∷◌ c Text.[]) "*") s (Text.◌∷◌ c (without_star s))

-- None is the panic where there is a bean of the name.
unfoldable pub set_bean : (String → String) → String → ℕ → Beans → Option Beans
unfolding get_bean has_dot
set_bean title bean_name bean m =
    let name = if has_dot bean_name then bean_name else title bean_name in
    if get_bean m name == 0 then some (insert String_discrete name bean m) else none

-- The part before the first dot, and the text after that dot, if there is one.
unfoldable pub before_dot : String → String
before_dot Text.[] = ""
before_dot (Text.◌∷◌ c s) =
    ite (String_discrete (Text.◌∷◌ c Text.[]) ".") "" (Text.◌∷◌ c (before_dot s))

unfoldable pub after_dot : String → Option String
after_dot Text.[] = none
after_dot (Text.◌∷◌ c s) = ite (String_discrete (Text.◌∷◌ c Text.[]) ".") (some s) (after_dot s)

-- `AddBean`; where the name of the class has no dot, there is no second part to take.
unfoldable pub add_bean : (String → String) → Kind → String → ℕ → Beans → Option Beans
unfolding without_star before_dot after_dot set_bean
add_bean title structure type_string bean m = none
add_bean title _ type_string bean m =
    let class_name = without_star type_string in
    elim (after_dot class_name) [
      | none ↦ none
      | some rest ↦
          set_bean title
            (Text.◌++◌ (before_dot class_name) (Text.◌++◌ "." (title (before_dot rest)))) bean m
    ]

unfoldable pub write : ℕ → ℕ → ℕ → Heap → Heap
write object i value h o j = if (o == object) && (j == i) then value else h o j

unfoldable pub and_then : Result → (Heap → Result) → Result
and_then panics k = panics
and_then stuck k = stuck
and_then (finished h) k = k h

-- how many fields of an object, from the field `i` on, are nil
unfoldable pub unset_of : ℕ → ℕ → List Field → Heap → ℕ
unset_of object i [] h = 0
unset_of object i (d ∷ ds) h = (if h object i == 0 then 1 else 0) + unset_of object (i + 1) ds h

module _ (fields_of : ℕ → List Field) where
  unfoldable pub unset : Beans → Heap → ℕ
  unfolding unset_of
  unset [] h = 0
  unset ((name, bean) ∷ rest) h = unset_of bean 0 (fields_of bean) h + unset rest h

abbrev pub is_interface : Kind → Bool
is_interface interface = true
is_interface pointer = false
is_interface structure = false
is_interface other = false

-- What becomes of a field by its kind; `filled` is the way of interfaces and pointers.
unfoldable pub by_kind : Kind → Bool → Result → Heap → Result
by_kind interface tagged filled h = filled
by_kind pointer tagged filled h = filled
by_kind structure tagged filled h = if tagged then panics else finished h
by_kind other tagged filled h = finished h

module _ (replace : String → String → String → String) (fits : Field → ℕ → Bool) (m : Beans) where
  -- The bean for a field, by its tag or name, by its type, and by its name in the package of its type.
  unfoldable pub dependency : Field → ℕ
  unfolding get_bean without_star
  dependency d =
      let first = get_bean m (ite (String_discrete d.bean "") d.name d.bean) in
      let second = if first == 0 then get_bean m (without_star d.type_string) else first in
      if (second == 0) && is_interface d.kind
      then get_bean m (replace d.type_string d.type_name d.name)
      else second

  -- Sets the field and, for a pointer, goes on with the object that it points to; `next` does that.
  unfoldable pub inject : (ℕ → Heap → Result) → ℕ → ℕ → Field → ℕ → Heap → Result
  unfolding write
  inject next object i d bean h =
      if bean == 0
      then panics
      else if not (fits d bean)
      then panics
      else if is_interface d.kind
      then finished (write object i bean h)
      else next bean (write object i bean h)

  unfoldable pub fill : (ℕ → Heap → Result) → ℕ → ℕ → Field → Heap → Result
  unfolding dependency inject
  fill next object i d h =
      if not d.tagged
      then finished h
      else if not (h object i == 0)
      then finished h
      else if not d.can_set
      then panics
      else inject next object i d (dependency d) h

  -- One round of the loop over the fields.
  unfoldable pub set_field : (ℕ → Heap → Result) → ℕ → ℕ → Field → Heap → Result
  unfolding fill by_kind
  set_field next object i d h = by_kind d.kind d.tagged (fill next object i d h) h

  unfoldable pub set_fields : (ℕ → Heap → Result) → ℕ → ℕ → List Field → Heap → Result
  unfolding set_field and_then
  set_fields next object i [] h = finished h
  set_fields next object i (d ∷ ds) h =
      and_then (set_field next object i d h) (set_fields next object (i + 1) ds)

  module _ (fields_of : ℕ → List Field) where
    unfoldable pub find_and_set : ℕ → ℕ → Heap → Result
    unfolding set_fields
    find_and_set zero object h = stuck
    find_and_set (suc fuel) object h =
        if object == 0 then panics else set_fields (find_and_set fuel) object 0 (fields_of object) h

    -- The loop of `Ioc` over the beans that are left.
    unfoldable pub ioc_loop : ℕ → Beans → Heap → Result
    unfolding find_and_set and_then
    ioc_loop fuel [] h = finished h
    ioc_loop fuel ((name, bean) ∷ rest) h = and_then (find_and_set fuel bean h) (ioc_loop fuel rest)

    -- A call inside a call has set a field before.
    unfoldable pub ioc : Heap → Result
    unfolding ioc_loop unset
    ioc h = ioc_loop (suc (unset fields_of m h)) m h
