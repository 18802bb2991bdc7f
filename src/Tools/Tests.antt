-- ===== src/Tools/Tests.antt =====
-- Runs of the helpers of the package tools, and the theorems at them.
use own_x_go.Base.{
  ℕ, ◌≡◌, ◌↔◌, Option, none, some, ◌==◌, if◌then◌else◌, arith, pos, ◌∷◌, ltb, true, [], false,
}
use own_x_go.Tools.Retry.{do_with_retry_threshold, succeeded}
use own_x_go.Tools.Retry.Thresholds.{HasRun, do_with_retry_threshold_iff}
use own_x_go.Tools.Addresses.{
  Tests, get_manage_ip, get_manage_ip-first_of, route, out_of_range, validate_node_ip, among,
}

-- The second call has an error, and no other.
abbrev second_fails : ℕ → Option ℕ
second_fails i = if i == 2 then some 7 else none

do_with_retry_threshold_iff_example :
    (do_with_retry_threshold second_fails (pos 5) 3 ≡ succeeded) ↔ HasRun second_fails 5 3
do_with_retry_threshold_iff_example = do_with_retry_threshold_iff second_fails 5 3 (omega arith)

-- 0 is a loopback address, and those below 10 have four bytes.
abbrev tests : Tests ℕ
tests = record {
  to_4 = λ a. ltb a 10;
  to_16 = λ a. true;
  is_loopback = λ a. a == 0;
  is_multicast = λ a. false;
  is_link_local_unicast = λ a. false;
  is_unspecified = λ a. false;
  equal = λ a b. a == b;
}

get_manage_ip-first_of_example :
    get_manage_ip tests
      (some (0 ∷ 20 ∷ 5 ∷ 6 ∷ []))
      (some (some 6 ∷ none ∷ some 5 ∷ some 20 ∷ []))
      out_of_range
    ≡ route (some 5)
unfolding validate_node_ip among
get_manage_ip-first_of_example =
    get_manage_ip-first_of tests (0 ∷ 20 ∷ 5 ∷ 6 ∷ [])
      (some (some 6 ∷ none ∷ some 5 ∷ some 20 ∷ [])) out_of_range
