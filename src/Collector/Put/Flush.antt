-- ===== src/Collector/Put/Flush.antt =====
-- How often `PutMetrics` flushes the cost store.
use cloudzero_agent.Base.{
  ℕ, ◌+◌, ◌≤◌, String, Bool, true, false, Option, none, some, List, [], ◌∷◌, Result, ok, err, ◌≡◌,
  refl, arith,
}
use cloudzero_agent.Metric.Defs.{Metric}
use cloudzero_agent.Dcgm.Defs.{Numbers, transform}
use cloudzero_agent.Collector.MetricFilter.{MetricFilter, Split, filter}
use cloudzero_agent.Collector.Decode.{Source}
use cloudzero_agent.Collector.Put.{
  Store, PutError, Collector, Wire, Decoded, decode_request, first_flush, store_cost,
  store_observability, store_split, store_decoded, put_decoded, put_metrics, Failure,
  then_observability, after_put,
}

-- A count of the calls of `Flush` that a store has seen, raised by `Flush` alone.
pub record CountsFlushes {S E : Type 0} (st : Store S E) (flushes : S → ℕ) : Type 0 where
  pub put_keeps : (s : S) (ms : List Metric) → flushes (st.put s ms).1 ≡ flushes s
  pub flush_adds : (s : S) → flushes (st.flush s).1 ≤ flushes s + 1

module _ {S : Type 0} (flushes : S → ℕ) where
  abbrev pub store_flushes : Option S → ℕ
  store_flushes none = 0
  store_flushes (some s) = flushes s

  abbrev pub left : Bool → ℕ
  left true = 0
  left false = 1

  -- The flushes so far, and the one that is left.
  budget : Collector S → ℕ
  budget d = store_flushes d.cost_store + left d.initial_flush

module _ {S E : Type 0} (cost observability : Store S E) {Body F Regex : Type 0} (wire : Wire Body)
    (src : Source) (num : Numbers F) (compile : String → Option Regex)
    (match_string : Regex → String → Bool) (mf : Option (MetricFilter Regex)) where
  abbrev put : Collector S → String × String × Body → Collector S
  put d request =
      (put_metrics cost observability wire src num compile match_string mf d request.0 request.1
        request.2).2

  -- The requests that one collector serves, one after another.
  pub serve : Collector S → List (String × String × Body) → Collector S
  serve d [] = d
  serve d (request ∷ requests) = serve (put d request) requests

module _ {S E : Type 0} (cost observability : Store S E) (flushes : S → ℕ)
    (counts : CountsFlushes cost flushes) where
  first_flush-budget :
      (d : Collector S) (s : S) (ms : List Metric)
      → budget flushes (first_flush cost observability d s ms).1
        ≤ flushes s + left flushes d.initial_flush
  unfolding budget first_flush
  first_flush-budget d s ms = ground (arith, counts.flush_adds s)

  after_put-budget :
      (d : Collector S) (s : S) (e : Option E) (ms : List Metric)
      → budget flushes (after_put cost observability d s e ms).1
        ≤ flushes s + left flushes d.initial_flush
  unfolding budget
  after_put-budget d s none ms = first_flush-budget d s ms
  after_put-budget d s (some e) ms = omega arith

  store_cost-budget :
      (d : Collector S) (nil : Bool) (ms : List Metric) (o : Option S)
      → d.cost_store ≡ o
      → budget flushes (store_cost cost observability d nil ms o).1 ≤ budget flushes d
  unfolding store_cost
  store_cost-budget d nil ms none h = omega arith
  store_cost-budget d true ms (some s) h = omega arith
  store_cost-budget d false ms (some s) h =
      let (e, s') = cost.put s ms in
      let before : flushes s + left flushes d.initial_flush ≡ budget flushes d =
        unfold budget in rw h refl in
      omega (arith, before, counts.put_keeps s ms, after_put-budget d s' e ms)

  store_observability-budget :
      (d : Collector S) (nil : Bool) (ms : List Metric) (o : Option S)
      → budget flushes (store_observability cost observability d nil ms o).1 ≡ budget flushes d
  unfolding budget store_observability
  store_observability-budget d nil ms none = refl
  store_observability-budget d nil ms (some s) = ground arith

  then_observability-budget :
      (r : Option (PutError E) × Collector S) (nil : Bool) (ms : List Metric)
      → budget flushes (then_observability cost observability r nil ms).1 ≡ budget flushes r.1
  then_observability-budget (some e, d) nil ms = refl
  then_observability-budget (none, d) nil ms =
      store_observability-budget d nil ms d.observability_store

  store_split-budget :
      (d : Collector S) (cost_nil observability_nil : Bool) (s : Split)
      → budget flushes (store_split cost observability d cost_nil observability_nil s).1
        ≤ budget flushes d
  unfolding store_split
  store_split-budget d cost_nil observability_nil s = omega (
    arith,
    then_observability-budget (store_cost cost observability d cost_nil s.cost_metrics d.cost_store)
        observability_nil s.observability_metrics,
    store_cost-budget d cost_nil s.cost_metrics d.cost_store refl,
  )

  module _ {Body F Regex : Type 0} (wire : Wire Body) (src : Source) (num : Numbers F)
      (compile : String → Option Regex) (match_string : Regex → String → Bool)
      (mf : Option (MetricFilter Regex)) where
    store_decoded-budget :
        (d : Collector S) (decoded : Decoded)
        → budget flushes
            (store_decoded cost observability wire src num compile match_string mf d decoded).2
          ≤ budget flushes d
    unfolding store_decoded budget
    store_decoded-budget d decoded =
        let (metrics, t) = transform num d.transformer decoded.metrics in
        store_split-budget (record d { transformer = t; samples = d.samples + decoded.read }) _ _
          (filter compile match_string mf metrics)

    put_decoded-budget :
        (d : Collector S) (r : Result (Failure E) Decoded)
        → budget flushes (put_decoded cost observability wire src num compile match_string mf d r).2
          ≤ budget flushes d
    unfolding put_decoded
    put_decoded-budget d (err (e, stats)) = omega arith
    put_decoded-budget d (ok decoded) = store_decoded-budget d decoded

    put_metrics-budget :
        (d : Collector S) (request : String × String × Body)
        → budget flushes (put cost observability wire src num compile match_string mf d request)
          ≤ budget flushes d
    unfolding put_metrics
    put_metrics-budget d (t, encoding_type, body) =
        put_decoded-budget d (decode_request wire src d.samples t encoding_type body)

    abbrev pub served : Collector S → List (String × String × Body) → Collector S
    served d requests = serve cost observability wire src num compile match_string mf d requests

    serve-budget :
        (d : Collector S) (requests : List (String × String × Body))
        → budget flushes (served d requests) ≤ budget flushes d
    unfolding serve
    serve-budget d [] = omega arith
    serve-budget d (request ∷ requests) = omega (
      arith,
      put_metrics-budget d request,
      serve-budget (put cost observability wire src num compile match_string mf d request) requests,
    )

    -- However many requests a collector serves, one after another, and whatever its stores return, `PutMetrics` calls
    -- `Flush` of the cost store at most once, and not at all if the first flush was made before.
    pub serve-flushes :
        (d : Collector S) (requests : List (String × String × Body))
        → store_flushes flushes (served d requests).cost_store
          ≤ store_flushes flushes d.cost_store + left flushes d.initial_flush
    unfolding budget
    serve-flushes d requests = omega (arith, serve-budget d requests)
