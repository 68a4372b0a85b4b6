-- ===== src/Collector/Put/Rows.antt =====
-- The contract of a store, and `PutMetrics` over two stores that keep it.
use cloudzero_agent.Base.{
  ◌+◌, String, Bool, true, false, not, ◌&&◌, Option, none, some, List, [], ◌∷◌, ◌++◌, Result, ok,
  err, if◌then◌else◌, Bool-cases, Option-cases, inl, inr, ◌≡◌, refl, sym, ◌∙◌, arith,
}
use mathlib.Core.List.{append-nil}
use mathlib.Core.Path.{subst}
use cloudzero_agent.Metric.Defs.{Metric}
use cloudzero_agent.Dcgm.Defs.{Numbers, transform}
use cloudzero_agent.Collector.MetricFilter.{MetricFilter, Split, filter}
use cloudzero_agent.Collector.Decode.{Source}
use cloudzero_agent.Collector.Put.{
  Store, PutError, Collector, Wire, Decoded, decode_request, first_flush, store_cost,
  store_observability, store_split, store_decoded, put_decoded, put_metrics, Failure,
  then_observability, is_nil, is_empty,
}

is_empty_nil {ℓ} : {A : Type ℓ} (xs : List A) → is_empty xs ≡ true → xs ≡ []
is_empty_nil [] h = refl
is_empty_nil (x ∷ xs) h = absurd (ground arith)

-- A store that holds rows: `Put` without an error appends to them, `Flush` without an error keeps
-- them. `Ready` is what the store maintains for that.
pub record KeepsRows {S E : Type 0} (st : Store S E) (rows : S → List Metric) (Ready : S → Type 0)
    : Type 0 where
  pub put_appends :
      (s : S) (ms : List Metric)
      → Ready s
      → (st.put s ms).0 ≡ none
      → Ready (st.put s ms).1 × (rows (st.put s ms).1 ≡ rows s ++ ms)
  pub flush_keeps :
      (s : S)
      → Ready s
      → (st.flush s).0 ≡ none
      → Ready (st.flush s).1 × (rows (st.flush s).1 ≡ rows s)

-- An optional store that is there, is ready, and holds these rows.
pub record Holds {S : Type 0} (rows : S → List Metric) (Ready : S → Type 0) (o : Option S)
    (ms : List Metric) : Type 0 where
  pub store : S
  pub present : o ≡ some store
  pub ready : Ready store
  pub same : rows store ≡ ms

module _ {S E : Type 0} (cost observability : Store S E) (rows : S → List Metric)
    (Ready : S → Type 0) (keeps_cost : KeepsRows cost rows Ready)
    (keeps_observability : KeepsRows observability rows Ready) where
  first_flush-Holds :
      (d : Collector S) (s : S) (ms all : List Metric)
      → Ready s
      → rows s ≡ all
      → (first_flush cost observability d s ms).0 ≡ none
      → Holds rows Ready (first_flush cost observability d s ms).1.cost_store all
        × ((first_flush cost observability d s ms).1.observability_store ≡ d.observability_store)
  unfolding first_flush
  first_flush-Holds d s ms all r h e =
      elim (Bool-cases (not d.initial_flush && not (is_empty ms))) [
        | inl f ↦ elim (Option-cases (cost.flush s).0) [
          | inl g ↦
              let (r', same) = keeps_cost.flush_keeps s r g in
              rw (f, g)
                ((
                  record { store = (cost.flush s).1; present = refl; ready = r'; same = same ∙ h },
                  refl,
                ))
          | inr (x, g) ↦ absurd (ground arith)
        ]
        | inr f ↦ rw f ((record { store = s; present = refl; ready = r; same = h }, refl))
      ]

  store_cost-Holds :
      (d : Collector S) (nil : Bool) (ms : List Metric) (s : S)
      → d.cost_store ≡ some s
      → Ready s
      → (nil ≡ true → ms ≡ [])
      → (store_cost cost observability d nil ms (some s)).0 ≡ none
      → Holds rows Ready
          (store_cost cost observability d nil ms (some s)).1.cost_store
          (rows s ++ ms)
        × ((store_cost cost observability d nil ms (some s)).1.observability_store
            ≡ d.observability_store)
  unfolding store_cost
  store_cost-Holds d true ms s p r h e = (
    record { store = s; present = p; ready = r; same = rw (h refl) (sym (append-nil (rows s))) },
    refl,
  )
  store_cost-Holds d false ms s p r h e = elim (Option-cases (cost.put s ms).0) [
    | inl f ↦
        let (r', same) = keeps_cost.put_appends s ms r f in
        rw f (first_flush-Holds d (cost.put s ms).1 ms (rows s ++ ms) r' same (rw f at e))
    | inr (x, f) ↦ absurd (ground arith)
  ]

  store_observability-Holds :
      (d : Collector S) (nil : Bool) (ms : List Metric) (s : S)
      → d.observability_store ≡ some s
      → Ready s
      → (nil ≡ true → ms ≡ [])
      → (store_observability cost observability d nil ms (some s)).0 ≡ none
      → Holds rows Ready
          (store_observability cost observability d nil ms (some s)).1.observability_store
          (rows s ++ ms)
        × ((store_observability cost observability d nil ms (some s)).1.cost_store ≡ d.cost_store)
  unfolding store_observability
  store_observability-Holds d true ms s p r h e = (
    record { store = s; present = p; ready = r; same = rw (h refl) (sym (append-nil (rows s))) },
    refl,
  )
  store_observability-Holds d false ms s p r h e = elim (Option-cases (observability.put s ms).0) [
    | inl f ↦
        let (r', same) = keeps_observability.put_appends s ms r f in
        rw f (
          (
            record { store = (observability.put s ms).1; present = refl; ready = r'; same = same },
            refl,
          ))
    | inr (x, f) ↦ absurd (ground arith)
  ]

  then_observability-Holds :
      (r : Option (PutError E) × Collector S) (nil : Bool) (ms all : List Metric) (o : S)
      → Ready o
      → (nil ≡ true → ms ≡ [])
      → (then_observability cost observability r nil ms).0 ≡ none
      → (r.0 ≡ none → Holds rows Ready r.1.cost_store all × (r.1.observability_store ≡ some o))
      → Holds rows Ready (then_observability cost observability r nil ms).1.cost_store all
        × Holds rows Ready
            (then_observability cost observability r nil ms).1.observability_store
            (rows o ++ ms)
  then_observability-Holds (some e, d) nil ms all o r h n k = absurd (ground arith)
  then_observability-Holds (none, d) nil ms all o r h n k =
      let at_store = λ (w : Option S).
        (store_observability cost observability d nil ms w).0 ≡ none
        → Holds rows Ready (store_observability cost observability d nil ms w).1.observability_store
            (rows o ++ ms)
          × ((store_observability cost observability d nil ms w).1.cost_store ≡ d.cost_store) in
      let (first, p) = k refl in
      let (held, kept) = subst at_store (sym p) (store_observability-Holds d nil ms o p r h) n in
      (subst (λ w. Holds rows Ready w all) (sym kept) first, held)

  store_split-Holds :
      (d : Collector S) (cost_nil observability_nil : Bool) (s : Split) (c o : S)
      → d.cost_store ≡ some c
      → d.observability_store ≡ some o
      → Ready c
      → Ready o
      → (cost_nil ≡ true → s.cost_metrics ≡ [])
      → (observability_nil ≡ true → s.observability_metrics ≡ [])
      → (store_split cost observability d cost_nil observability_nil s).0 ≡ none
      → Holds rows Ready
          (store_split cost observability d cost_nil observability_nil s).1.cost_store
          (rows c ++ s.cost_metrics)
        × Holds rows Ready
            (store_split cost observability d cost_nil observability_nil s).1.observability_store
            (rows o ++ s.observability_metrics)
  unfolding store_split
  store_split-Holds d cost_nil observability_nil s c o p q rc ro hc ho e =
      let at_store = λ (w : Option S).
        (store_cost cost observability d cost_nil s.cost_metrics w).0 ≡ none
        → Holds rows Ready (store_cost cost observability d cost_nil s.cost_metrics w).1.cost_store
            (rows c ++ s.cost_metrics)
          × ((store_cost cost observability d cost_nil s.cost_metrics w).1.observability_store
              ≡ d.observability_store) in
      let stored = subst at_store (sym p) (store_cost-Holds d cost_nil s.cost_metrics c p rc hc) in
      then_observability-Holds
        (store_cost cost observability d cost_nil s.cost_metrics d.cost_store) observability_nil
        s.observability_metrics (rows c ++ s.cost_metrics) o ro ho e
        (λ n. let (held, kept) = stored n in (held, kept ∙ q))

  module _ {Body F Regex : Type 0} (wire : Wire Body) (src : Source) (num : Numbers F)
      (compile : String → Option Regex) (match_string : Regex → String → Bool)
      (mf : Option (MetricFilter Regex)) where
    -- The classification of what a collector in a state decodes.
    abbrev pub classified : Collector S → Decoded → Split
    classified d decoded =
        filter compile match_string mf (transform num d.transformer decoded.metrics).0

    -- A slice that is nil has no elements, with a filter or without one.
    nil_filter :
        (o : Option (MetricFilter Regex)) (d : Collector S) (ms : List Metric)
        → let s = filter compile match_string o (transform num d.transformer ms).0 in
          ((if is_nil o then is_empty ms else is_empty s.cost_metrics) ≡ true → s.cost_metrics ≡ [])
          × ((if is_nil o then is_empty ms else is_empty s.observability_metrics) ≡ true
              → s.observability_metrics ≡ [])
    unfolding filter transform
    nil_filter (some f) d ms =
        let s = filter compile match_string (some f) (transform num d.transformer ms).0 in
        (is_empty_nil s.cost_metrics, is_empty_nil s.observability_metrics)
    nil_filter none d [] = ((λ _. refl), (λ _. refl))
    nil_filter none d (m ∷ ms) = ((λ h. absurd (ground arith)), (λ h. absurd (ground arith)))

    store_decoded-Holds :
        (d : Collector S) (decoded : Decoded) (c o : S)
        → d.cost_store ≡ some c
        → d.observability_store ≡ some o
        → Ready c
        → Ready o
        → (store_decoded cost observability wire src num compile match_string mf d decoded).0 ≡ none
        → Holds rows Ready
            (store_decoded cost observability wire src num compile match_string mf d
              decoded).2.cost_store
            (rows c ++ (classified d decoded).cost_metrics)
          × Holds rows Ready
              (store_decoded cost observability wire src num compile match_string mf d
                decoded).2.observability_store
              (rows o ++ (classified d decoded).observability_metrics)
    unfolding store_decoded
    store_decoded-Holds d decoded c o p q rc ro e =
        let (metrics, t) = transform num d.transformer decoded.metrics in
        let (cost_empty, observability_empty) = nil_filter mf d decoded.metrics in
        store_split-Holds (record d { transformer = t; samples = d.samples + decoded.read }) _ _
          (filter compile match_string mf metrics) c o p q rc ro cost_empty observability_empty e

    put_decoded-Holds :
        (d : Collector S) (r : Result (Failure E) Decoded) (c o : S)
        → d.cost_store ≡ some c
        → d.observability_store ≡ some o
        → Ready c
        → Ready o
        → (put_decoded cost observability wire src num compile match_string mf d r).0 ≡ none
        → (decoded : Decoded) × (r ≡ ok decoded)
          × Holds rows Ready
              (put_decoded cost observability wire src num compile match_string mf d r).2.cost_store
              (rows c ++ (classified d decoded).cost_metrics)
          × Holds rows Ready
              (put_decoded cost observability wire src num compile match_string mf d
                r).2.observability_store
              (rows o ++ (classified d decoded).observability_metrics)
    unfolding put_decoded
    put_decoded-Holds d (err (x, stats)) c o p q rc ro e = absurd (ground arith)
    put_decoded-Holds d (ok decoded) c o p q rc ro e =
        let (cost_held, observability_held) = store_decoded-Holds d decoded c o p q rc ro e in
        (decoded, refl, cost_held, observability_held)

    -- Where `PutMetrics` returns no error, the request was decoded, and each of the two stores holds,
    -- after what it held before, exactly the decoded and transformed metrics that the filter
    -- classifies for it, in order; the stores are any two that append on a successful `Put` and keep
    -- their rows on a successful `Flush`.
    pub put_metrics-Holds :
        (d : Collector S) (t encoding_type : String) (body : Body) (c o : S)
        → d.cost_store ≡ some c
        → d.observability_store ≡ some o
        → Ready c
        → Ready o
        → (put_metrics cost observability wire src num compile match_string mf d t encoding_type
            body).0
          ≡ none
        → (decoded : Decoded) × (decode_request {E = E} wire src d.samples t encoding_type body
            ≡ ok decoded)
          × Holds rows Ready
              (put_metrics cost observability wire src num compile match_string mf d t encoding_type
                body).2.cost_store
              (rows c ++ (classified d decoded).cost_metrics)
          × Holds rows Ready
              (put_metrics cost observability wire src num compile match_string mf d t encoding_type
                body).2.observability_store
              (rows o ++ (classified d decoded).observability_metrics)
    unfolding put_metrics
    put_metrics-Holds d t encoding_type body c o p q rc ro e =
        put_decoded-Holds d (decode_request wire src d.samples t encoding_type body) c o p q rc ro e
