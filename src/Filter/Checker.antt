-- ===== src/Filter/Checker.antt =====
-- `FilterChecker`, `NewFilterChecker` and `Test`.
use cloudzero_agent.Base.{
  String, Bool, true, ◌||◌, Option, none, some, List, [], ◌∷◌, ◌++◌, Result, ok, err, ◌>>=◌, ◌==◌,
  if◌then◌else◌, any, has_prefix, has_suffix, contains, lookup, insert, is_some,
}
use cloudzero_agent.Filter.Entries.{
  FilterEntry, FilterError, regex_compile, unknown_match_type, filter_match_type_exact,
  filter_match_type_prefix, filter_match_type_suffix, filter_match_type_contains,
  filter_match_type_regex,
}

pub record FilterChecker (R : Type 0) : Type 0 where
  pub exact_matches : List (String × Bool)
  pub prefix_matches : List String
  pub suffix_matches : List String
  pub contains_matches : List String
  pub regex_matches : List R

-- Go's package regexp: `compile` is `regexp.Compile`, `match_string` is `MatchString`.
module _ {Regex : Type 0} (compile : String → Option Regex)
    (match_string : Regex → String → Bool) where
  -- The regular expression branch of the loop.
  unfoldable pub add_regex :
      FilterChecker Regex → Option Regex → Result FilterError (FilterChecker Regex)
  add_regex chk none = err regex_compile
  add_regex chk (some regex) = ok (record chk { regex_matches = chk.regex_matches ++ regex ∷ [] })

  -- One round of the loop of `NewFilterChecker`.
  unfoldable pub add_filter :
      FilterChecker Regex → FilterEntry → Result FilterError (FilterChecker Regex)
  unfolding add_regex
  add_filter chk f =
      if f.match_type == filter_match_type_exact
      then ok (record chk { exact_matches = insert f.pattern_text true chk.exact_matches })
      else if f.match_type == filter_match_type_prefix
      then ok (record chk { prefix_matches = chk.prefix_matches ++ f.pattern_text ∷ [] })
      else if f.match_type == filter_match_type_suffix
      then ok (record chk { suffix_matches = chk.suffix_matches ++ f.pattern_text ∷ [] })
      else if f.match_type == filter_match_type_contains
      then ok (record chk { contains_matches = chk.contains_matches ++ f.pattern_text ∷ [] })
      else if f.match_type == filter_match_type_regex
      then add_regex chk (compile f.pattern_text)
      else err (unknown_match_type f.match_type)

  unfoldable pub add_filters :
      FilterChecker Regex → List FilterEntry → Result FilterError (FilterChecker Regex)
  add_filters chk [] = ok chk
  add_filters chk (f ∷ filters) = add_filter chk f >>= λ c. add_filters c filters

  abbrev pub empty_checker : FilterChecker Regex
  empty_checker = record {
    exact_matches = [];
    prefix_matches = [];
    suffix_matches = [];
    contains_matches = [];
    regex_matches = [];
  }

  unfoldable pub new_filter_checker :
      List FilterEntry → Result FilterError (Option (FilterChecker Regex))
  unfolding add_filters add_filter
  new_filter_checker [] = ok none
  new_filter_checker (f ∷ filters) =
      add_filters empty_checker (f ∷ filters) >>= λ chk. ok (some chk)

  -- `Test` on a checker that is not nil; each loop ends at the first match.
  unfoldable pub matches_some : FilterChecker Regex → String → Bool
  matches_some chk value =
      is_some (lookup value chk.exact_matches)
      || any (has_prefix value) chk.prefix_matches
      || any (has_suffix value) chk.suffix_matches
      || any (contains value) chk.contains_matches
      || any (λ regex. match_string regex value) chk.regex_matches

  unfoldable pub test : Option (FilterChecker Regex) → String → Bool
  unfolding matches_some
  test none value = true
  test (some chk) value = matches_some chk value
