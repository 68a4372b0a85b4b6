-- ===== src/Pusher/Stream.antt =====
-- `Store` of app/storage/streaming/store.go: a buffer of records that is sent when it is full. The
-- queries that always answer "not found" are left out.
use cloudzero_agent.Base.{
  ℕ, Bool, true, false, Option, none, some, List, [], ◌∷◌, ◌++◌, leb, length, if◌then◌else◌,
}
use cloudzero_agent.Pusher.Record.{ResourceTags}
use cloudzero_agent.Pusher.Sender.{TimeSeries, Remote, Traffic, format_metrics, push_metrics}
use cloudzero_agent.Pusher.Flush.{FlushError, failed_to_push, panicked}

abbrev pub default_batch_records : ℕ
default_batch_records = 500

-- The batch of the store, and the traffic with the server.
pub record Store : Type 0 where
  pub batch : List ResourceTags
  pub traffic : Traffic

abbrev pub new_store : Traffic → Store
new_store traffic = record { batch = []; traffic = traffic }

-- The batch is cleared whether or not it could be sent; a panic leaves it.
abbrev pub sent_batch : Store → Bool × Traffic → Option FlushError × Store
sent_batch s (true, traffic) = (none, record { batch = []; traffic = traffic })
sent_batch s (false, traffic) = (some failed_to_push, record { batch = []; traffic = traffic })

abbrev pub flush_series : Remote → ℕ → Store → Option (List TimeSeries) → Option FlushError × Store
flush_series remote retries s none = (some panicked, s)
flush_series remote retries s (some series) =
    sent_batch s (push_metrics remote retries series s.traffic)

abbrev pub flush_batch : Remote → ℕ → Store → List ResourceTags → Option FlushError × Store
flush_batch remote retries s [] = (none, s)
flush_batch remote retries s (r ∷ batch) =
    flush_series remote retries s (format_metrics (r ∷ batch))

unfoldable pub flush_locked : Remote → ℕ → Store → Option FlushError × Store
flush_locked remote retries s = flush_batch remote retries s s.batch

abbrev pub stamp : ℕ → ResourceTags → ResourceTags
stamp now r = record r { record_created = now; record_updated = now }

-- `Create`, and `Update`, which calls it.
unfoldable pub create : Remote → ℕ → ℕ → ResourceTags → Store → Option FlushError × Store
unfolding flush_locked
create remote retries now r s =
    let added = record s { batch = s.batch ++ stamp now r ∷ [] } in
    let flushed = flush_locked remote retries added in
    if leb default_batch_records (length added.batch) then flushed else (none, added)
