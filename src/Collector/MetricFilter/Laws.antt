-- ===== src/Collector/MetricFilter/Laws.antt =====
-- `Filter` against its description: two selections, and what neither of them takes.
use mathlib.Core.List.{append-nil, append_assoc}
use cloudzero_agent.Base.{
  String, Bool, true, not, ◌&&◌, Option, none, some, List, [], ◌∷◌, ◌++◌, map, Result, ◌>>=◌, ◌==◌,
  eq_iff, if◌then◌else◌, insert, lookup, lookup-insert, lookup_same, IsMap, or_else, select,
  Bool-cases, inl, inr, ◌≡◌, refl, ◌∙◌, ap, arith, is_ok, is_ok->>=, all,
}
use cloudzero_agent.Filter.Entries.{FilterEntry, FilterError}
use cloudzero_agent.Filter.Checker.{FilterChecker, test}
use cloudzero_agent.Filter.Laws.{entry_valid, new_filter_checker-valid}
use cloudzero_agent.Metric.Defs.{Metric, Labels}
use cloudzero_agent.Collector.MetricFilter.{
  MetricFilter, MetricsConfig, Split, checker_for, new_metric_filter, keep_labels, with_labels,
  passes, filter_metric, filter_from, no_metrics, filter,
}

module _ {Regex : Type 0} (compile : String → Option Regex)
    (match_string : Regex → String → Bool) where
  abbrev pub spec_cost : MetricFilter Regex → List Metric → List Metric
  spec_cost mf ms =
      map (with_labels compile match_string mf.cost_labels)
        (select (passes compile match_string mf.cost) ms)

  abbrev pub spec_observability : MetricFilter Regex → List Metric → List Metric
  spec_observability mf ms =
      map (with_labels compile match_string mf.observability_labels)
        (select (passes compile match_string mf.observability) ms)

  abbrev pub spec_dropped : MetricFilter Regex → List Metric → List Metric
  spec_dropped mf ms =
      select
        (λ m.
          not (passes compile match_string mf.cost m)
          && not (passes compile match_string mf.observability m))
        ms

  filter_from-spec :
      (mf : MetricFilter Regex) (acc : Split) (ms : List Metric)
      → filter_from compile match_string mf acc ms ≡ record {
        cost_metrics = acc.cost_metrics ++ spec_cost mf ms;
        observability_metrics = acc.observability_metrics ++ spec_observability mf ms;
        dropped_metrics = acc.dropped_metrics ++ spec_dropped mf ms;
      }
  unfolding filter_from filter_metric
  filter_from-spec mf acc [] = simp append-nil
  filter_from-spec mf acc (m ∷ ms) =
      filter_from-spec mf (filter_metric compile match_string mf acc m) ms
      ∙ elim (Bool-cases (passes compile match_string mf.cost m)) [
        | inl c ↦ elim (Bool-cases (passes compile match_string mf.observability m)) [
          | inl o ↦ simp (c, o, append_assoc)
          | inr o ↦ simp (c, o, append_assoc)
        ]
        | inr c ↦ elim (Bool-cases (passes compile match_string mf.observability m)) [
          | inl o ↦ simp (c, o, append_assoc)
          | inr o ↦ simp (c, o, append_assoc)
        ]
      ]

  -- A configured filter selects the cost metrics and the observability metrics independently, in
  -- their order and with their labels filtered, and drops exactly the metrics that neither takes.
  pub filter-select :
      (mf : MetricFilter Regex) (ms : List Metric)
      → filter compile match_string (some mf) ms ≡ record {
        cost_metrics = spec_cost mf ms;
        observability_metrics = spec_observability mf ms;
        dropped_metrics = spec_dropped mf ms;
      }
  unfolding filter
  filter-select mf ms = filter_from-spec mf (no_metrics compile match_string) ms

  same_test :
      (chk : Option (FilterChecker Regex)) (j k : String)
      → (j == k) ≡ true
      → test compile match_string chk j ≡ test compile match_string chk k
  same_test chk j k e = ap (test compile match_string chk) ((eq_iff j k).0 e)

  keep_labels-lookup :
      (chk : Option (FilterChecker Regex)) (dest labels : Labels) (k : String)
      → IsMap labels
      → lookup k (keep_labels compile match_string chk dest labels) ≡ (
          if test compile match_string chk k
          then or_else (lookup k labels) (lookup k dest)
          else lookup k dest)
  unfolding keep_labels lookup
  keep_labels-lookup chk dest [] k h = ground arith
  keep_labels-lookup chk dest ((j, v) ∷ labels) k (h, hs) =
      elim (Bool-cases (test compile match_string chk j)) [
        | inl e ↦ rw e (
            keep_labels-lookup chk (insert j v dest) labels k hs
            ∙ ground (arith, lookup-insert j k v dest, same_test chk j k, lookup_same j k labels))
        | inr e ↦ rw e (keep_labels-lookup chk dest labels k hs ∙ ground (arith, same_test chk j k))
      ]

  -- A metric that is kept under a label checker has exactly the labels whose names the checker
  -- accepts, with their values, and is otherwise unchanged.
  pub with_labels-lookup :
      (chk : FilterChecker Regex) (m : Metric) (k : String)
      → IsMap m.labels
      → (lookup k (with_labels compile match_string (some chk) m).labels
          ≡ (if test compile match_string (some chk) k then lookup k m.labels else none))
        × (record (with_labels compile match_string (some chk) m) { labels = m.labels } ≡ m)
  unfolding with_labels lookup
  with_labels-lookup chk m k h =
      (keep_labels-lookup (some chk) [] m.labels k h ∙ ground arith, refl)

  checker_for-valid :
      (l : List FilterEntry)
      → is_ok (checker_for compile match_string l) ≡ all (entry_valid compile match_string) l
  checker_for-valid [] = refl
  checker_for-valid (f ∷ l) = new_filter_checker-valid compile match_string (f ∷ l)

  -- One step of the chain in `NewMetricFilter`.
  is_ok_step {ℓ} :
      {B : Type ℓ} (l : List FilterEntry) (f : Option (FilterChecker Regex) → Result FilterError B)
      (b : Bool)
      → ((c : Option (FilterChecker Regex)) → is_ok (f c) ≡ b)
      → is_ok (checker_for compile match_string l >>= f)
        ≡ all (entry_valid compile match_string) l && b
  is_ok_step l f b h =
      is_ok->>= (checker_for compile match_string l) f b h ∙ rw (checker_for-valid l) refl

  -- `NewMetricFilter` succeeds exactly when every rule of the four lists is valid.
  pub new_metric_filter-valid :
      (cfg : MetricsConfig)
      → is_ok (new_metric_filter compile match_string cfg)
        ≡ all (entry_valid compile match_string) cfg.cost
          && all (entry_valid compile match_string) cfg.cost_labels
          && all (entry_valid compile match_string) cfg.observability
          && all (entry_valid compile match_string) cfg.observability_labels
  unfolding new_metric_filter
  new_metric_filter-valid cfg =
      let v = all (entry_valid compile match_string) in
      is_ok_step cfg.cost _
        (v cfg.cost_labels && (v cfg.observability && v cfg.observability_labels))
        (λ a. is_ok_step cfg.cost_labels _ (v cfg.observability && v cfg.observability_labels) (λ b.
          is_ok_step cfg.observability _ (v cfg.observability_labels)
            (λ c. is_ok_step cfg.observability_labels _ true (λ d. refl) ∙ ground arith)))
      ∙ ground arith
