-- ===== src/Pusher/Flush.antt =====
-- `sendBatch` and `Flush` of app/domain/pusher/pusher.go. The database is a parameter: what its query
-- for the records that were not sent finds, and what it can update; a transaction whose block fails
-- changes nothing.
use cloudzero_agent.Base.{
  ℕ, ◌+◌, ◌&&◌, not, Bool, true, false, Option, none, some, List, [], ◌∷◌, ◌++◌, map, all, ltb,
  Result, ok, err, if◌then◌else◌,
}
use cloudzero_agent.Pusher.Record.{ResourceTags}
use cloudzero_agent.Pusher.Sender.{TimeSeries, Remote, Traffic, push_metrics, format_metrics}

-- The errors of `Flush`, and a panic in it.
pub data FlushError : Type 0 where
  failed_to_find failed_to_push failed_to_update panicked : FlushError

pub record Settings : Type 0 where
  pub max_bytes : ℕ
  pub max_retries : ℕ

pub record Database : Type 0 where
  pub found : Option (List ResourceTags)
  pub can_update : ResourceTags → Bool
  pub can_commit : Bool

abbrev pub pushed : Bool × Traffic → Option FlushError × Traffic
pushed (true, traffic) = (none, traffic)
pushed (false, traffic) = (some failed_to_push, traffic)

abbrev pub send_series :
    Remote → ℕ → Option (List TimeSeries) → Traffic → Option FlushError × Traffic
send_series remote retries none traffic = (some panicked, traffic)
send_series remote retries (some series) traffic =
    pushed (push_metrics remote retries series traffic)

unfoldable pub send_batch : Remote → ℕ → List ResourceTags → Traffic → Option FlushError × Traffic
send_batch remote retries [] traffic = (none, traffic)
send_batch remote retries (r ∷ batch) traffic =
    send_series remote retries (format_metrics (r ∷ batch)) traffic

-- The rest of `Flush` after a batch: an error is returned at once.
abbrev pub after_batch {ℓ} :
    {A : Type ℓ}
    → Option FlushError × Traffic
    → (Traffic → Result FlushError A × Traffic)
    → Result FlushError A × Traffic
after_batch (none, traffic) k = k traffic
after_batch (some e, traffic) k = (err e, traffic)

abbrev pub is_empty : List ResourceTags → Bool
is_empty [] = true
is_empty (_ ∷ _) = false

-- The loop over `found` and the last batch; it returns `completed`.
unfoldable pub send_from :
    Remote
    → Settings
    → List ResourceTags
    → List ResourceTags
    → ℕ
    → List ResourceTags
    → Traffic
    → Result FlushError (List ResourceTags) × Traffic
send_from remote settings [] completed total_size batch traffic =
    after_batch (send_batch remote settings.max_retries batch traffic) (λ t. (ok completed, t))
send_from remote settings (next ∷ found) completed total_size batch traffic =
    let rest = send_from remote settings found (completed ++ next ∷ []) in
    if ltb settings.max_bytes (next.size + total_size) && not (is_empty batch)
    then after_batch (send_batch remote settings.max_retries batch traffic)
        (λ t. rest next.size (next ∷ []) t)
    else rest (total_size + next.size) (batch ++ next ∷ []) traffic

-- One time stands for the reading that marks the records and for those of `Update`.
abbrev pub mark_sent : ℕ → ResourceTags → ResourceTags
mark_sent now r = record r { sent_at = some now; record_updated = now }

-- The transaction: every record is updated, or none is.
abbrev pub update_all : Database → ℕ → List ResourceTags → Option FlushError × List ResourceTags
update_all db now [] = (none, [])
update_all db now (r ∷ completed) =
    if all db.can_update (map (mark_sent now) (r ∷ completed)) && db.can_commit
    then (none, map (mark_sent now) (r ∷ completed))
    else (some failed_to_update, [])

abbrev pub finish :
    Database
    → ℕ
    → Result FlushError (List ResourceTags) × Traffic
    → Option FlushError × List ResourceTags × Traffic
finish db now (err e, traffic) = (some e, [], traffic)
finish db now (ok completed, traffic) =
    let (error, updated) = update_all db now completed in (error, updated, traffic)

abbrev pub flush_found :
    Remote
    → Settings
    → Database
    → ℕ
    → Option (List ResourceTags)
    → Traffic
    → Option FlushError × List ResourceTags × Traffic
flush_found remote settings db now none traffic = (some failed_to_find, [], traffic)
flush_found remote settings db now (some found) traffic =
    finish db now (send_from remote settings found [] 0 [] traffic)

-- `Flush` at a time: its error, the records as the database has them after the commit, the traffic.
unfoldable pub flush :
    Remote → Settings → Database → ℕ → Traffic → Option FlushError × List ResourceTags × Traffic
flush remote settings db now traffic = flush_found remote settings db now db.found traffic
