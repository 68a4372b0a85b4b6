-- ===== src/Filter.antt =====
-- app/domain/filter/filter_checker.go: a set of patterns on metric or label names, kept in one
-- list for each kind of pattern. A nil `*FilterChecker` is `none`.
pub mod Entries
pub mod Checker
pub mod Laws
