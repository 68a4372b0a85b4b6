-- ===== src/Tests/Pusher.antt =====
-- Three records for a limit of ten bytes, and a server that fails once.
use cloudzero_agent.Base.{
  ℕ, String, true, none, some, List, [], ◌∷◌, if◌then◌else◌, map, ◌≡◌, refl, ltb,
}
use cloudzero_agent.Shipper.Chunk.{concat}
use cloudzero_agent.Pusher.Record.{ResourceTags, pod, resource_type_to_metric_name}
use cloudzero_agent.Pusher.Sender.{
  Remote, Traffic, create_timeseries, record_series, format_metrics, push_attempts, push_metrics,
}
use cloudzero_agent.Pusher.Flush.{Settings, Database, send_batch, send_from, flush}
use cloudzero_agent.Pusher.Delivery.{AllOrNothing, Delivers, flush-AllOrNothing}
use cloudzero_agent.Pusher.Stream.{Store, flush_locked, create}
use cloudzero_agent.Pusher.Backfill.{backfill, stamp_pair, backfill-Delivers}

abbrev resource : String → ℕ → ResourceTags
resource name size = record {
  id = name;
  resource_type = pod;
  name = name;
  resource_namespace = none;
  metric_labels = some (("pod", name) ∷ []);
  labels = some [];
  annotations = none;
  record_created = 3;
  record_updated = 5;
  sent_at = none;
  size = size;
}

abbrev found : List ResourceTags
found = resource "a" 4 ∷ resource "b" 5 ∷ resource "c" 30 ∷ resource "d" 1 ∷ []

abbrev remote : Remote
remote = record {
  can_marshal = λ payload. true;
  can_request = true;
  reply = λ n. if ltb n 1 then none else some 204;
}

abbrev settings : Settings
settings = record { max_bytes = 10; max_retries = 3 }

abbrev database : Database
database = record { found = some found; can_update = λ r. true; can_commit = true }

abbrev no_traffic : Traffic
no_traffic = record { requests = 0; accepted = [] }

program : Unit {0}
unfolding flush send_from send_batch push_metrics push_attempts format_metrics record_series
    create_timeseries resource_type_to_metric_name concat flush_locked create backfill
program = tt

flushed_requests : (flush remote settings database 9 no_traffic).2.requests ≡ 4
unfolding program
flushed_requests = refl

flush-AllOrNothing_example :
    AllOrNothing found 9 no_traffic (flush remote settings database 9 no_traffic)
flush-AllOrNothing_example = flush-AllOrNothing remote settings database 9 found no_traffic refl

abbrev records : List (ℕ × ResourceTags)
records = (7, resource "a" 4) ∷ (8, resource "b" 5) ∷ []

abbrev backfilled : Store
backfilled = record {
  batch = [];
  traffic = record {
    requests = 2;
    accepted =
        (record { labels = ("__name__", "cloudzero_pod_labels") ∷ ("pod", "a") ∷ []; timestamp = 7 }
          ∷ record {
            labels = ("__name__", "cloudzero_pod_labels") ∷ ("pod", "b") ∷ [];
            timestamp = 8;
          }
          ∷ [])
        ∷ [];
  };
}

backfill-Delivers_example : Delivers (map stamp_pair records) no_traffic backfilled.traffic
unfolding program
backfill-Delivers_example = backfill-Delivers remote 3 records no_traffic backfilled refl
