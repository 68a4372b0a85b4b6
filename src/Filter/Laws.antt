-- ===== src/Filter/Laws.antt =====
-- `Test` against the list of rules that the checker was built from.
use cloudzero_agent.Base.{
  String, Bool, true, false, ◌&&◌, ◌||◌, Option, none, some, List, [], ◌∷◌, ◌++◌, ok, ◌==◌,
  if◌then◌else◌, any, all, has_prefix, has_suffix, contains, lookup, lookup-insert, is_some, is_ok,
  Result-cases, Option-cases, inl, inr, ◌≡◌, refl, arith,
}
use cloudzero_agent.Filter.Entries.{
  FilterEntry, filter_match_type_exact, filter_match_type_prefix, filter_match_type_suffix,
  filter_match_type_contains, filter_match_type_regex,
}
use cloudzero_agent.Filter.Checker.{
  FilterChecker, add_filter, add_filters, empty_checker, new_filter_checker, matches_some, test,
}

any-append {ℓ} :
    {A : Type ℓ} (p : A → Bool) (xs : List A) (x : A) → any p (xs ++ x ∷ []) ≡ any p xs || p x
any-append p [] x = ground arith
any-append p (y ∷ xs) x = ground (arith, any-append p xs x)

module _ {Regex : Type 0} (compile : String → Option Regex)
    (match_string : Regex → String → Bool) where
  abbrev matches_compiled : Option Regex → String → Bool
  matches_compiled none value = false
  matches_compiled (some regex) value = match_string regex value

  -- What one rule says of a name, read off the documentation of the five match types.
  pub entry_matches : FilterEntry → String → Bool
  entry_matches f value =
      if f.match_type == filter_match_type_exact
      then f.pattern_text == value
      else if f.match_type == filter_match_type_prefix
      then has_prefix value f.pattern_text
      else if f.match_type == filter_match_type_suffix
      then has_suffix value f.pattern_text
      else if f.match_type == filter_match_type_contains
      then contains value f.pattern_text
      else if f.match_type == filter_match_type_regex
      then matches_compiled (compile f.pattern_text) value
      else false

  -- A rule that `NewFilterChecker` accepts: a known match type, and a regular expression that
  -- compiles.
  pub entry_valid : FilterEntry → Bool
  entry_valid f =
      f.match_type == filter_match_type_exact
      || f.match_type == filter_match_type_prefix
      || f.match_type == filter_match_type_suffix
      || f.match_type == filter_match_type_contains
      || (f.match_type == filter_match_type_regex) && is_some (compile f.pattern_text)

  add_filter-matches :
      (chk : FilterChecker Regex) (f : FilterEntry) (c : FilterChecker Regex) (value : String)
      → add_filter compile match_string chk f ≡ ok c
      → matches_some compile match_string c value
        ≡ matches_some compile match_string chk value || entry_matches f value
  unfolding add_filter matches_some entry_matches
  add_filter-matches chk f c value e = elim (Option-cases (compile f.pattern_text)) [
    | inl bad ↦ ground (
      arith,
      lookup-insert f.pattern_text value true chk.exact_matches,
      any-append (has_prefix value) chk.prefix_matches f.pattern_text,
      any-append (has_suffix value) chk.suffix_matches f.pattern_text,
      any-append (contains value) chk.contains_matches f.pattern_text,
    )
    | inr (r, good) ↦ ground (
      arith,
      lookup-insert f.pattern_text value true chk.exact_matches,
      any-append (has_prefix value) chk.prefix_matches f.pattern_text,
      any-append (has_suffix value) chk.suffix_matches f.pattern_text,
      any-append (contains value) chk.contains_matches f.pattern_text,
      any-append (λ (x : Regex). match_string x value) chk.regex_matches r,
    )
  ]

  add_filter-valid :
      (chk : FilterChecker Regex) (f : FilterEntry)
      → is_ok (add_filter compile match_string chk f) ≡ entry_valid f
  unfolding add_filter entry_valid
  add_filter-valid chk f = ground arith

  add_filters-valid :
      (chk : FilterChecker Regex) (filters : List FilterEntry)
      → is_ok (add_filters compile match_string chk filters) ≡ all entry_valid filters
  unfolding add_filters
  add_filters-valid chk [] = refl
  add_filters-valid chk (f ∷ filters) =
      elim (Result-cases (add_filter compile match_string chk f)) [
        | inl (c, e) ↦
            rw (e, add_filters)
              (ground (arith, add_filter-valid chk f, add_filters-valid c filters))
        | inr (x, e) ↦ rw (e, add_filters) (ground (arith, add_filter-valid chk f))
      ]

  add_filters-matches :
      (chk : FilterChecker Regex) (filters : List FilterEntry) (c : FilterChecker Regex)
      (value : String)
      → add_filters compile match_string chk filters ≡ ok c
      → matches_some compile match_string c value
        ≡ matches_some compile match_string chk value || any (λ f. entry_matches f value) filters
  unfolding add_filters
  add_filters-matches chk [] c value e = ground arith
  add_filters-matches chk (f ∷ filters) c value e =
      elim (Result-cases (add_filter compile match_string chk f)) [
        | inl (d, p) ↦
            ground (arith, add_filter-matches chk f d value, add_filters-matches d filters c value)
        | inr (x, p) ↦ ground arith
      ]

  -- `NewFilterChecker` succeeds exactly when every rule has a known match type and every regular
  -- expression among them compiles.
  pub new_filter_checker-valid :
      (filters : List FilterEntry)
      → is_ok (new_filter_checker compile match_string filters) ≡ all entry_valid filters
  unfolding new_filter_checker
  new_filter_checker-valid [] = refl
  new_filter_checker-valid (f ∷ filters) =
      ground (arith, add_filters-valid (empty_checker compile match_string) (f ∷ filters))

  abbrev is_empty : List FilterEntry → Bool
  is_empty [] = true
  is_empty (f ∷ filters) = false

  -- The checker that `NewFilterChecker` builds accepts a name exactly when there are no rules at
  -- all, or some rule matches the name; the grouping of the rules by kind changes nothing.
  pub test-new_filter_checker :
      (filters : List FilterEntry) (chk : Option (FilterChecker Regex)) (value : String)
      → new_filter_checker compile match_string filters ≡ ok chk
      → test compile match_string chk value
        ≡ is_empty filters || any (λ f. entry_matches f value) filters
  unfolding new_filter_checker test matches_some lookup
  test-new_filter_checker [] chk value e = ground arith
  test-new_filter_checker (f ∷ filters) chk value e =
      elim (Result-cases
        (add_filters compile match_string (empty_checker compile match_string) (f ∷ filters))) [
          | inl (c, p) ↦ ground (
            arith,
            add_filters-matches (empty_checker compile match_string) (f ∷ filters) c value,
          )
          | inr (x, p) ↦ ground arith
        ]
