-- ===== src/Filter/Entries.antt =====
-- Filter rules as they stand in the configuration.
use cloudzero_agent.Base.{String}

-- `FilterMatchType` is a text with five known values.
abbrev pub FilterMatchType : Type 0
FilterMatchType = String

abbrev pub filter_match_type_exact : FilterMatchType
filter_match_type_exact = "exact"

abbrev pub filter_match_type_prefix : FilterMatchType
filter_match_type_prefix = "prefix"

abbrev pub filter_match_type_suffix : FilterMatchType
filter_match_type_suffix = "suffix"

abbrev pub filter_match_type_contains : FilterMatchType
filter_match_type_contains = "contains"

abbrev pub filter_match_type_regex : FilterMatchType
filter_match_type_regex = "regex"

pub record FilterEntry : Type 0 where
  pub pattern_text : String
  pub match_type : FilterMatchType

pub data FilterError : Type 0 where
  regex_compile : FilterError
  unknown_match_type : FilterMatchType → FilterError
