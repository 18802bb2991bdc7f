-- ===== src/Tools/Addresses.antt =====
-- tools/functions.go: the address of the machine, `GetManageIp`, `getDefaultRouteIp` and
-- `validateNodeIP`. What the packages net, os, exec and strings answer is an argument.
use own_x_go.Base.{
  ◌≡◌, refl, ap, String, String_discrete, List, [], ◌∷◌, Option, none, some, is_some, Bool, false,
  not, ◌&&◌, ◌||◌, if◌then◌else◌, ite, arith,
}

-- The tests of `net.IP`; `to_4` and `to_16` say that the result is not nil.
pub record Tests (A : Type 0) : Type 0 where
  pub to_4 : A → Bool
  pub to_16 : A → Bool
  pub is_loopback : A → Bool
  pub is_multicast : A → Bool
  pub is_link_local_unicast : A → Bool
  pub is_unspecified : A → Bool
  pub equal : A → A → Bool

pub data Invalid : Type 0 where
  not_an_address loopback multicast link_local unspecified : Invalid
  no_interfaces : Invalid
  not_found : Invalid

-- Where `fields[i+1]` is past the last field, the read panics.
pub data Route (A : Type 0) : Type 0 where
  route : (ip : Option A) → Route A
  out_of_range : Route A

module _ {A : Type 0} (ip : Tests A) where
  -- The loop over the addresses of the interfaces, nil where the type is another one.
  unfoldable pub among : A → List (Option A) → Bool
  among a [] = false
  among a (none ∷ addrs) = among a addrs
  among a (some b ∷ addrs) = ip.equal b a || among a addrs

  -- The error, if there is one; `interfaces` is none where `InterfaceAddrs` has an error.
  unfoldable pub validate_node_ip : Option (List (Option A)) → A → Option Invalid
  unfolding among
  validate_node_ip interfaces a =
      if not (ip.to_4 a) && not (ip.to_16 a)
      then some not_an_address
      else if ip.is_loopback a
      then some loopback
      else if ip.is_multicast a
      then some multicast
      else if ip.is_link_local_unicast a
      then some link_local
      else if ip.is_unspecified a
      then some unspecified
      else elim interfaces [
        | none ↦ some no_interfaces
        | some addrs ↦ if among a addrs then none else some not_found
      ]

  -- The loop of `GetManageIp` over the addresses of the host, of which the valid ones pass `valid`.
  unfoldable pub pick : (A → Bool) → List A → Option A → Option A
  pick valid [] ip_addr = ip_addr
  pick valid (a ∷ addrs) ip_addr =
      let rest = pick valid addrs ip_addr in
      let rest_with = pick valid addrs (some a) in
      if valid a
      then (if ip.to_4 a
          then some a
          else if ip.to_16 a && not (is_some ip_addr)
          then rest_with
          else rest)
      else rest

  -- The first that passes a test.
  abbrev pub first_of : (A → Bool) → List A → Option A
  first_of test [] = none
  first_of test (a ∷ addrs) = let rest = first_of test addrs in if test a then some a else rest

  abbrev pub or_else : Option A → Option A → Option A
  or_else none b = b
  or_else (some a) b = some a

  -- The loop gives the first valid address of four bytes; without one, the address from before it,
  -- or else the first valid one of sixteen bytes.
  pub pick-first_of :
      (valid : A → Bool) (addrs : List A) (ip_addr : Option A)
      → pick valid addrs ip_addr
        ≡ or_else
            (first_of (λ a. valid a && ip.to_4 a) addrs)
            (or_else ip_addr (first_of (λ a. valid a && ip.to_16 a) addrs))
  unfolding pick
  pick-first_of valid [] none = refl
  pick-first_of valid [] (some a) = refl
  pick-first_of valid (a ∷ addrs) none =
      ground (arith, pick-first_of valid addrs none, pick-first_of valid addrs (some a))
  pick-first_of valid (a ∷ addrs) (some b) = ground (arith, pick-first_of valid addrs (some b))

module _ {A : Type 0} (parse_ip : String → Option A) where
  -- The address after the first field `src`, for a line with the fields; `found` is the one so far.
  unfoldable pub after_src : List String → Option A → Route A
  after_src [] found = route found
  after_src (field ∷ fields) found =
      let rest = after_src fields found in
      ite (String_discrete field "src")
        (elim fields [ [] ↦ out_of_range | ◌∷◌ next more ↦ route (parse_ip next) ]) rest

  -- The loop over the lines of `ip r get 1`, with the fields of those that contain `src`.
  unfoldable pub scan : List (List String) → Option A → Route A
  unfolding after_src
  scan [] found = route found
  scan (fields ∷ lines) found = elim (after_src fields found) [
    | route ip ↦ scan lines ip
    | out_of_range ↦ out_of_range
  ]

  -- `getDefaultRouteIp`: `stdout` is none where the command has an error.
  unfoldable pub get_default_route_ip : Option (List (List String)) → Route A
  unfolding scan
  get_default_route_ip none = route none
  get_default_route_ip (some lines) = scan lines none

module _ {A : Type 0} (ip : Tests A) where
  -- `GetManageIp`, with the addresses that the name of the host has, none where it has no name.
  unfoldable pub get_manage_ip : Option (List A) → Option (List (Option A)) → Route A → Route A
  unfolding pick validate_node_ip
  get_manage_ip none interfaces default_route = route none
  get_manage_ip (some addrs) interfaces default_route =
      elim (pick ip (λ a. not (is_some (validate_node_ip ip interfaces a))) addrs none) [
        | none ↦ default_route
        | some a ↦ route (some a)
      ]

  -- Where the machine has a name: the first of its addresses that is valid and has four bytes; without
  -- one the first that is valid and has sixteen; and without that the address of the default route.
  pub get_manage_ip-first_of :
      (addrs : List A) (interfaces : Option (List (Option A))) (default_route : Route A)
      → let valid = λ (a : A). not (is_some (validate_node_ip ip interfaces a)) in
        get_manage_ip (some addrs) interfaces default_route
        ≡ elim (or_else ip
            (first_of ip (λ a. valid a && ip.to_4 a) addrs)
            (first_of ip (λ a. valid a && ip.to_16 a) addrs)) [
              | none ↦ default_route
              | some a ↦ route (some a)
            ]
  unfolding get_manage_ip
  get_manage_ip-first_of addrs interfaces default_route =
      let valid = λ (a : A). not (is_some (validate_node_ip ip interfaces a)) in
      ap (λ (o : Option A). elim o [ none ↦ default_route | some a ↦ route (some a) ])
        (pick-first_of ip valid addrs none)
