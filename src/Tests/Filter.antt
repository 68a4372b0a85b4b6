-- ===== src/Tests/Filter.antt =====
-- Filter rules of three kinds, with "compiles to itself" for regular expressions.
use cloudzero_agent.Base.{
  String, Bool, true, false, Option, none, some, List, [], ◌∷◌, ok, err, ◌==◌, if◌then◌else◌,
  contains, insert, lookup, has_prefix, ◌≡◌, refl, any,
}
use cloudzero_agent.Filter.Entries.{
  FilterEntry, regex_compile, filter_match_type_exact, filter_match_type_prefix,
  filter_match_type_regex,
}
use cloudzero_agent.Filter.Checker.{FilterChecker, new_filter_checker, test}
use cloudzero_agent.Filter.Laws.{entry_matches, test-new_filter_checker}

-- An engine whose expressions are literal texts; the text "(" does not compile.
abbrev pub compile : String → Option String
compile s = if s == "(" then none else some s

abbrev pub match_string : String → String → Bool
match_string regex value = contains value regex

abbrev pub rules : List FilterEntry
rules =
    record { pattern_text = "kube_"; match_type = filter_match_type_prefix }
    ∷ record { pattern_text = "up"; match_type = filter_match_type_exact }
    ∷ record { pattern_text = "cpu"; match_type = filter_match_type_regex }
    ∷ []

abbrev bad_rules : List FilterEntry
bad_rules = record { pattern_text = "("; match_type = filter_match_type_regex } ∷ rules

abbrev checker : FilterChecker String
checker = record {
  exact_matches = ("up", true) ∷ [];
  prefix_matches = "kube_" ∷ [];
  suffix_matches = [];
  contains_matches = [];
  regex_matches = "cpu" ∷ [];
}

rules_build : new_filter_checker compile match_string rules ≡ ok (some checker)
unfolding new_filter_checker insert
rules_build = refl

rules_accept :
    (test compile match_string (some checker) "kube_node_info" ≡ true)
    × (test compile match_string (some checker) "ups" ≡ false)
    × (test compile match_string (some checker) "node_cpu_seconds" ≡ true)
unfolding test lookup has_prefix contains
rules_accept = (refl, refl, refl)

bad_rules_refused : new_filter_checker compile match_string bad_rules ≡ err regex_compile
unfolding new_filter_checker
bad_rules_refused = refl

test-new_filter_checker_example :
    test compile match_string (some checker) "kube_node_info"
    ≡ any (λ f. entry_matches compile match_string f "kube_node_info") rules
test-new_filter_checker_example =
    test-new_filter_checker compile match_string rules (some checker) "kube_node_info" rules_build
