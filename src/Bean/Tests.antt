-- ===== src/Bean/Tests.antt =====
-- A run of the injection of bean/bean.go, and the theorems at it.
use own_x_go.Base.{
  ℕ, zero, suc, ◌≡◌, ◌≢◌, refl, inl, inr, String, List, [], ◌∷◌, true, All, arith, Bool, subst, sym,
  lookup, String_discrete, none, some, insert,
}
use own_x_go.Bean.{
  Field, pointer, interface, other, Beans, Heap, ioc, get_bean, dependency, finished, without_star,
  add_bean,
}
use own_x_go.Bean.Fields.{Ends, IsSound}
use own_x_go.Bean.Heaps.{Listed, Keeps}
use own_x_go.Bean.Wiring.{Complete, ioc-Ends, ioc-Complete}

abbrev keep : String → String → String → String
keep s reg new = s

abbrev fits_all : Field → ℕ → Bool
fits_all d b = true

abbrev beans : Beans
beans = ("api.Shop", 1) ∷ ("dao.Orders", 2) ∷ []

abbrev orders : Field
orders = record {
  name = "OrderDao";
  kind = pointer;
  tagged = true;
  bean = "";
  type_string = "*dao.Orders";
  type_name = "Orders";
  can_set = true;
}

abbrev shop : Field
shop = record orders { name = "Shop"; kind = interface; bean = "api.Shop" }

-- Each of the two beans has a field for the other.
abbrev fields_of : ℕ → List Field
fields_of (suc zero) = orders ∷ record orders { kind = other } ∷ []
fields_of _ = shop ∷ []

abbrev nothing : Heap
nothing o i = 0

ioc-Ends_example :
    Ends (Unit {0}) nothing (Complete fields_of beans) (ioc keep fits_all beans fields_of nothing)
ioc-Ends_example = ioc-Ends keep fits_all beans fields_of nothing

orders-IsSound : All (IsSound keep fits_all beans) (fields_of 1)
unfolding dependency get_bean lookup String_discrete without_star
orders-IsSound =
    ((λ _ _. ((λ q. cc), refl, (λ e. omega arith), refl)), ((λ _ n. absurd (n refl)), tt))

shop-IsSound : All (IsSound keep fits_all beans) (fields_of 2)
unfolding dependency get_bean lookup String_discrete without_star
shop-IsSound = ((λ _ _. ((λ q. cc), refl, (λ e. omega arith), refl)), tt)

beans-IsSound : (o : ℕ) → Listed o beans → (o ≢ 0) × All (IsSound keep fits_all beans) (fields_of o)
beans-IsSound o (inl e) =
    subst (λ q. (q ≢ 0) × All (IsSound keep fits_all beans) (fields_of q)) (sym e)
      ((λ z. omega arith), orders-IsSound)
beans-IsSound o (inr (inl e)) =
    subst (λ q. (q ≢ 0) × All (IsSound keep fits_all beans) (fields_of q)) (sym e)
      ((λ z. omega arith), shop-IsSound)
beans-IsSound o (inr (inr e)) = absurd e

ioc-Complete_example :
    (k : Heap) × (ioc keep fits_all beans fields_of nothing ≡ finished k)
    × Keeps nothing k
    × Complete fields_of beans k
ioc-Complete_example = ioc-Complete keep fits_all beans fields_of beans-IsSound nothing

-- The case of letters stays as it is here.
added_beans : add_bean (λ s. s) pointer "*dao.Orders" 2 (("api.Shop", 1) ∷ []) ≡ some beans
unfolding add_bean String_discrete lookup insert
added_beans = refl

twice : add_bean (λ s. s) pointer "*dao.Orders" 3 beans ≡ none
unfolding add_bean String_discrete lookup
twice = refl
