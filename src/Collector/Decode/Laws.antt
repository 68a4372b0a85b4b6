-- ===== src/Collector/Decode/Laws.antt =====
-- The results of the two decoders, and the label references of the second one.
use cloudzero_agent.Base.{
  ℕ, suc, ◌+◌, ◌<◌, String, Bool, true, false, not, some, List, [], ◌∷◌, ◌++◌, Result, ok, err,
  eq_iff, insert, length, length-append, All, All-append, Result-cases, inl, inr, ◌≡◌, ◌≢◌, refl,
  ap, arith, is_ok,
}
use cloudzero_agent.Metric.Defs.{Metric, Labels}
use cloudzero_agent.Collector.Decode.{
  Sample, TimeSeriesV1, TimeSeriesV2, RequestV2, WriteResponseStats, DecodeError, index_panic,
  Source, get_symbol, decode_references, metric_of, unless_nameless, decode_samples_v1, decode_v1,
  decode_samples_v2, decode_series_v2, decode_v2,
}

abbrev pub HasName : Metric → Type 0
HasName m = m.metric_name ≢ ""

module _ (src : Source) where
  decode_samples_v1-HasName :
      (n : ℕ) (labels : Labels) (samples : List Sample)
      → All HasName (decode_samples_v1 src n labels samples)
  unfolding decode_samples_v1
  decode_samples_v1-HasName n labels [] = tt
  decode_samples_v1-HasName n labels (s ∷ samples) =
      All-append HasName (unless_nameless src (metric_of src n labels s)) _
        (named (metric_of src n labels s)) (decode_samples_v1-HasName (suc n) labels samples)
    where
      named : (m : Metric) → All HasName (unless_nameless src m)
      named m = ground (arith, eq_iff m.metric_name "")

  -- Version 1 returns no metric without a name.
  pub decode_v1-HasName :
      (n : ℕ) (series : List TimeSeriesV1) → All HasName (decode_v1 src n series)
  unfolding decode_v1
  decode_v1-HasName n [] = tt
  decode_v1-HasName n (ts ∷ series) =
      All-append HasName (decode_samples_v1 src n _ ts.samples) _
        (decode_samples_v1-HasName n _ ts.samples)
        (decode_v1-HasName (n + length ts.samples) series)

  length-decode_samples_v2 :
      (n : ℕ) (labels : Labels) (samples : List Sample)
      → length (decode_samples_v2 src n labels samples) ≡ length samples
  unfolding decode_samples_v2
  length-decode_samples_v2 n labels [] = refl
  length-decode_samples_v2 n labels (s ∷ samples) =
      ap suc (length-decode_samples_v2 (suc n) labels samples)

  decode_series_v2-samples :
      (symbols : List String) (metrics : List Metric) (stats : WriteResponseStats)
      (series : List TimeSeriesV2) (r : List Metric × WriteResponseStats)
      → length metrics ≡ stats.samples
      → decode_series_v2 src symbols metrics stats series ≡ ok r
      → (length r.0 ≡ r.1.samples) × (r.1.confirmed ≡ true)
  unfolding decode_series_v2
  decode_series_v2-samples symbols metrics stats [] r h e = ground arith
  decode_series_v2-samples symbols metrics stats (ts ∷ series) r h e =
      elim (Result-cases (decode_references symbols [] ts.labels_refs)) [
        | inl (labels, p) ↦
            decode_series_v2-samples symbols
              (metrics ++ decode_samples_v2 src stats.samples labels ts.samples)
              (record stats {
                samples = stats.samples + length ts.samples;
                histograms = stats.histograms + ts.histograms;
                exemplars = stats.exemplars + ts.exemplars;
              })
              series r
              (omega (
                arith,
                length-append metrics (decode_samples_v2 src stats.samples labels ts.samples),
                length-decode_samples_v2 stats.samples labels ts.samples,
              ))
              (rw (p, decode_series_v2) at e)
        | inr (x, p) ↦ ground arith
      ]

  -- Where version 2 succeeds, its statistics are confirmed and count exactly the metrics returned.
  pub decode_v2-samples :
      (request : RequestV2) (metrics : List Metric) (stats : WriteResponseStats)
      → decode_v2 src request ≡ ok (metrics, stats)
      → (length metrics ≡ stats.samples) × (stats.confirmed ≡ true)
  unfolding decode_v2
  decode_v2-samples request metrics stats e =
      decode_series_v2-samples request.symbols [] _ request.timeseries (metrics, stats) refl e

abbrev pub is_even_length {ℓ} : {A : Type ℓ} → List A → Bool
is_even_length [] = true
is_even_length (x ∷ []) = false
is_even_length (x ∷ y ∷ xs) = is_even_length xs

get_symbol_in_range :
    (symbols : List String) (i : ℕ)
    → i < length symbols
    → (s : String) × (get_symbol symbols i ≡ some s)
unfolding get_symbol
get_symbol_in_range [] i h = absurd (omega arith)
get_symbol_in_range (s ∷ symbols) ℕ.zero h = (s, refl)
get_symbol_in_range (s ∷ symbols) (suc i) h = get_symbol_in_range symbols i (omega arith)

abbrev pub is_panic {ℓ} : {A : Type ℓ} → Result DecodeError A → Bool
is_panic (err index_panic) = true
is_panic _ = false

-- With every reference in range, decoding the labels of a series succeeds if their number is even,
-- and panics on an index out of range if it is odd.
pub decode_references_in_range :
    (symbols : List String) (acc : Labels) (refs : List ℕ)
    → All (λ i. i < length symbols) refs
    → (is_ok (decode_references symbols acc refs) ≡ is_even_length refs)
      × (is_panic (decode_references symbols acc refs) ≡ not (is_even_length refs))
unfolding decode_references
decode_references_in_range symbols acc [] h = (refl, refl)
decode_references_in_range symbols acc (i ∷ []) h = (refl, refl)
decode_references_in_range symbols acc (i ∷ j ∷ refs) (hi, (hj, hs)) =
    let (name, p) = get_symbol_in_range symbols i hi in
    let (value, q) = get_symbol_in_range symbols j hj in
    rw (p, q) (decode_references_in_range symbols (insert name value acc) refs hs)
