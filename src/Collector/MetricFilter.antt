-- ===== src/Collector/MetricFilter.antt =====
-- app/domain/metric_filter.go: `MetricFilter`, `NewMetricFilter` and `Filter`. A nil filter is
-- `none`, and so is a nil checker in it.
pub mod Laws
use cloudzero_agent.Base.{
  String, Bool, true, false, not, ◌&&◌, ◌||◌, Option, none, some, List, [], ◌∷◌, ◌++◌, Result, ok,
  err, ◌>>=◌, if◌then◌else◌, insert,
}
use cloudzero_agent.Filter.Entries.{FilterEntry, FilterError}
use cloudzero_agent.Filter.Checker.{FilterChecker, new_filter_checker, test}
use cloudzero_agent.Metric.Defs.{Metric, Labels}

pub record MetricFilter (R : Type 0) : Type 0 where
  pub cost : Option (FilterChecker R)
  pub observability : Option (FilterChecker R)
  pub cost_labels : Option (FilterChecker R)
  pub observability_labels : Option (FilterChecker R)

-- The four lists of rules in `config.Metrics`.
pub record MetricsConfig : Type 0 where
  pub cost : List FilterEntry
  pub cost_labels : List FilterEntry
  pub observability : List FilterEntry
  pub observability_labels : List FilterEntry

-- The three slices that `Filter` returns.
pub record Split : Type 0 where
  pub cost_metrics : List Metric
  pub observability_metrics : List Metric
  pub dropped_metrics : List Metric

abbrev is_nonempty {ℓ} : {A : Type ℓ} → List A → Bool
is_nonempty [] = false
is_nonempty (x ∷ xs) = true

abbrev pub have_filter : MetricsConfig → Bool
have_filter cfg =
    is_nonempty cfg.cost
    || is_nonempty cfg.cost_labels
    || is_nonempty cfg.observability
    || is_nonempty cfg.observability_labels

module _ {Regex : Type 0} (compile : String → Option Regex)
    (match_string : Regex → String → Bool) where
  -- `if len(entries) != 0 { … }`
  abbrev pub checker_for : List FilterEntry → Result FilterError (Option (FilterChecker Regex))
  checker_for [] = ok none
  checker_for (f ∷ filters) = new_filter_checker compile match_string (f ∷ filters)

  unfoldable pub new_metric_filter :
      MetricsConfig → Result FilterError (Option (MetricFilter Regex))
  new_metric_filter cfg = do
    cost ← checker_for cfg.cost
    cost_labels ← checker_for cfg.cost_labels
    observability ← checker_for cfg.observability
    observability_labels ← checker_for cfg.observability_labels
    ok (
        if have_filter cfg
        then some (record {
          cost = cost;
          observability = observability;
          cost_labels = cost_labels;
          observability_labels = observability_labels;
        })
        else none)

  -- The loop over the labels; `dest` is the map that is filled.
  unfoldable pub keep_labels : Option (FilterChecker Regex) → Labels → Labels → Labels
  keep_labels chk dest [] = dest
  keep_labels chk dest ((k, v) ∷ labels) =
      keep_labels chk (if test compile match_string chk k then insert k v dest else dest) labels

  -- The copy of a metric that is kept: its labels are filtered if there is a checker for them.
  unfoldable pub with_labels : Option (FilterChecker Regex) → Metric → Metric
  with_labels none metric = metric
  with_labels (some chk) metric = record metric { labels = keep_labels (some chk) [] metric.labels }

  -- `chk == nil || chk.Test(name)`
  abbrev pub passes : Option (FilterChecker Regex) → Metric → Bool
  passes none metric = true
  passes (some chk) metric = test compile match_string (some chk) metric.metric_name

  -- One round of the loop of `Filter`.
  unfoldable pub filter_metric : MetricFilter Regex → Split → Metric → Split
  filter_metric mf acc metric =
      let matched_cost = passes mf.cost metric in
      let matched_observability = passes mf.observability metric in
      record {
        cost_metrics =
            if matched_cost
            then acc.cost_metrics ++ with_labels mf.cost_labels metric ∷ []
            else acc.cost_metrics;
        observability_metrics =
            if matched_observability
            then acc.observability_metrics ++ with_labels mf.observability_labels metric ∷ []
            else acc.observability_metrics;
        dropped_metrics =
            if not matched_cost && not matched_observability
            then acc.dropped_metrics ++ metric ∷ []
            else acc.dropped_metrics;
      }

  unfoldable pub filter_from : MetricFilter Regex → Split → List Metric → Split
  filter_from mf acc [] = acc
  filter_from mf acc (metric ∷ metrics) = filter_from mf (filter_metric mf acc metric) metrics

  abbrev pub no_metrics : Split
  no_metrics = record { cost_metrics = []; observability_metrics = []; dropped_metrics = [] }

  unfoldable pub filter : Option (MetricFilter Regex) → List Metric → Split
  unfolding filter_from
  filter none metrics = record {
    cost_metrics = metrics;
    observability_metrics = metrics;
    dropped_metrics = [];
  }
  filter (some mf) metrics = filter_from mf no_metrics metrics
