-- ===== src/Tests/Dcgm.antt =====
-- One request with the three DCGM metrics of a GPU. A float64 is a number of hundredths here.
use cloudzero_agent.Base.{
  ℕ, ◌+◌, ◌*◌, ◌/◌, String, true, not, none, some, List, [], ◌∷◌, ◌==◌, if◌then◌else◌, eqb, All,
  all, has_prefix, trim_prefix, lookup, insert, ◌≡◌, refl,
}
use cloudzero_agent.Metric.Defs.{Metric}
use cloudzero_agent.Dcgm.Defs.{
  Numbers, new_transformer, transform_from, transform, transform_single, transform_labels,
  node_name_of, flush_memory, has_required_labels, buffer_memory_metric,
}
use cloudzero_agent.Dcgm.Laws.{NotRaw, transform-NotRaw}
use cloudzero_agent.Dcgm.Buffer.{half_at, last_half, half_at-transform_from}
use cloudzero_agent.Tests.Metric.{cpu}

abbrev pub numbers : Numbers ℕ
numbers = record {
  new_uuid = λ n. if eqb n 0 then "id0" else "id1";
  parse_float = λ s. if s == "30" then some 3000 else if s == "10" then some 1000 else none;
  format_float = λ x. if eqb x 7500 then "75" else "";
  add = λ x y. x + y;
  div = λ x y. x * 100 / y;
  mul = λ x y. x * y / 100;
  is_zero = λ x. eqb x 0;
  hundred = 10000;
}

abbrev gpu_metric : String → String → Metric
gpu_metric name value = record cpu {
  metric_name = name;
  value = value;
  labels =
      ("namespace", "ns")
      ∷ ("pod", "p")
      ∷ ("container", "c")
      ∷ ("gpu", "0")
      ∷ ("UUID", "GPU-7")
      ∷ [];
}

abbrev pub request : List Metric
request =
    gpu_metric "DCGM_FI_DEV_FB_FREE" "10"
    ∷ cpu
    ∷ gpu_metric "DCGM_FI_DEV_GPU_UTIL" "55"
    ∷ gpu_metric "DCGM_FI_DEV_FB_USED" "30"
    ∷ []

request_transformed :
    (transform numbers new_transformer request).0
    ≡ cpu
      ∷ record (gpu_metric "container_resources_gpu_usage_percent" "55") {
        id = "id0";
        labels =
            ("namespace", "ns")
            ∷ ("pod", "p")
            ∷ ("container", "c")
            ∷ ("gpu", "0")
            ∷ ("gpu_uuid", "7")
            ∷ [];
      }
      ∷ record (gpu_metric "container_resources_gpu_memory_usage_percent" "75") {
        id = "id1";
        labels =
            ("namespace", "ns")
            ∷ ("pod", "p")
            ∷ ("container", "c")
            ∷ ("gpu", "0")
            ∷ ("gpu_uuid", "7")
            ∷ [];
      }
      ∷ []
unfolding transform transform_from transform_single has_prefix has_required_labels lookup
    buffer_memory_metric node_name_of transform_labels flush_memory insert trim_prefix
request_transformed = refl

transform-NotRaw_example : All NotRaw (transform numbers new_transformer request).0
transform-NotRaw_example = transform-NotRaw numbers new_transformer request

half_at-transform_from_example :
    half_at true "ns/p/c/0" (transform_from numbers new_transformer request).1.memory_buffer
    ≡ last_half true "ns/p/c/0" request (half_at true "ns/p/c/0" [])
half_at-transform_from_example =
    half_at-transform_from numbers true "ns/p/c/0" new_transformer request

cpu_other : all (λ m. not (has_prefix m.metric_name "DCGM_FI_DEV_")) (cpu ∷ []) ≡ true
unfolding has_prefix
cpu_other = refl
