-- ===== src/Pusher/Backfill.antt =====
-- What a backfill through the streaming store delivers.
use mathlib.Core.List.{append-nil}
use cloudzero_agent.Base.{
  ℕ, Bool, true, false, Option, none, some, List, [], ◌∷◌, ◌++◌, map, leb, length, if◌then◌else◌,
  Bool-cases, Option-cases, inl, inr, ◌≡◌, refl, ap, sym, ◌∙◌, arith,
}
use cloudzero_agent.Pusher.Record.{ResourceTags}
use cloudzero_agent.Pusher.Sender.{
  TimeSeries, Remote, Traffic, append_both, format_metrics, push_metrics,
}
use cloudzero_agent.Pusher.Flush.{FlushError}
use cloudzero_agent.Pusher.Delivery.{
  Delivers, delivered, format_metrics-append, push_metrics-accepted, append_both_assoc,
  pushed-Delivers,
}
use cloudzero_agent.Pusher.Stream.{
  default_batch_records, Store, new_store, sent_batch, flush_batch, flush_locked, stamp, create,
}

-- What the server has got and what is still in the batch.
abbrev owed : Store → Option (List TimeSeries)
owed s = append_both (some (delivered s.traffic)) (format_metrics s.batch)

sent_batch-Delivers :
    (records : List ResourceTags) (payload : List TimeSeries) (p : Bool × Traffic) (s s' : Store)
    → format_metrics records ≡ some payload
    → p.1.accepted ≡ (if p.0 then s.traffic.accepted ++ payload ∷ [] else s.traffic.accepted)
    → sent_batch s p ≡ (none, s')
    → Delivers records s.traffic s'.traffic × (s'.batch ≡ [])
sent_batch-Delivers records payload (false, t1) s s' f a e =
    absurd (ground (arith, ap (λ x. x.0) e))
sent_batch-Delivers records payload (true, t1) s s' f a e = (
  pushed-Delivers records payload (true, t1) s.traffic s'.traffic f a
      (ap (λ x. (none, x.1.traffic)) e),
  sym (ap (λ x. x.1.batch) e),
)

flush_batch-Delivers :
    (remote : Remote) (retries : ℕ) (batch : List ResourceTags) (s s' : Store)
    → s.batch ≡ batch
    → flush_batch remote retries s batch ≡ (none, s')
    → Delivers batch s.traffic s'.traffic × (s'.batch ≡ [])
unfolding format_metrics
flush_batch-Delivers remote retries [] s s' b e = (
  ap some (append-nil (delivered s.traffic) ∙ ap (λ x. delivered x.1.traffic) e),
  sym (ap (λ x. x.1.batch) e) ∙ b,
)
flush_batch-Delivers remote retries (r ∷ batch) s s' b e =
    elim (Option-cases (format_metrics (r ∷ batch))) [
      | inl f ↦ absurd (ground (arith, ap (λ x. x.0) (rw f at e)))
      | inr (payload, f) ↦
          sent_batch-Delivers (r ∷ batch) payload (push_metrics remote retries payload s.traffic) s
            s' f (push_metrics-accepted remote retries payload s.traffic) (rw f at e)
    ]

flush_locked-Delivers :
    (remote : Remote) (retries : ℕ) (s s' : Store)
    → flush_locked remote retries s ≡ (none, s')
    → Delivers s.batch s.traffic s'.traffic × (s'.batch ≡ [])
unfolding flush_locked
flush_locked-Delivers remote retries s s' e =
    flush_batch-Delivers remote retries s.batch s s' refl e

-- A flush owes nothing more.
flush_locked-owed :
    (remote : Remote) (retries : ℕ) (s s' : Store)
    → flush_locked remote retries s ≡ (none, s')
    → owed s ≡ owed s'
unfolding format_metrics
flush_locked-owed remote retries s s' e =
    let (d, b) = flush_locked-Delivers remote retries s s' e in
    d ∙ rw b (ap some (sym (append-nil (delivered s'.traffic))))

create-owed :
    (remote : Remote) (retries now : ℕ) (r : ResourceTags) (s s' : Store)
    → create remote retries now r s ≡ (none, s')
    → append_both (owed s) (format_metrics (stamp now r ∷ [])) ≡ owed s'
unfolding create
create-owed remote retries now r s s' e =
    append_both_assoc (some (delivered s.traffic)) (format_metrics s.batch)
      (format_metrics (stamp now r ∷ []))
    ∙ ap (append_both (some (delivered s.traffic)))
        (sym (format_metrics-append s.batch (stamp now r ∷ [])))
    ∙ elim (Bool-cases (leb default_batch_records (length (s.batch ++ stamp now r ∷ [])))) [
      | inl f ↦
          flush_locked-owed remote retries (record s { batch = s.batch ++ stamp now r ∷ [] }) s'
            (rw f at e)
      | inr f ↦ ap (λ x. owed x.1) (rw f at e)
    ]

-- Records are written one after the other, each at a time, and the rest is flushed; the first error
-- ends it.
abbrev pub next_record :
    Option FlushError × Store → (Store → Option FlushError × Store) → Option FlushError × Store
next_record (none, s) k = k s
next_record (some e, s) k = (some e, s)

unfoldable pub backfill : Remote → ℕ → List (ℕ × ResourceTags) → Store → Option FlushError × Store
backfill remote retries [] s = flush_locked remote retries s
backfill remote retries ((now, r) ∷ records) s =
    next_record (create remote retries now r s) (backfill remote retries records)

abbrev pub stamp_pair : ℕ × ResourceTags → ResourceTags
stamp_pair (now, r) = stamp now r

next_record-owed :
    (r : ResourceTags) (records : List ResourceTags) (p : Option FlushError × Store)
    (k : Store → Option FlushError × Store) (s s' : Store)
    → ((s1 : Store) → p ≡ (none, s1) → append_both (owed s) (format_metrics (r ∷ [])) ≡ owed s1)
    → ((s1 : Store)
        → k s1 ≡ (none, s')
        → append_both (owed s1) (format_metrics records) ≡ some (delivered s'.traffic))
    → next_record p k ≡ (none, s')
    → append_both (owed s) (format_metrics (r ∷ records)) ≡ some (delivered s'.traffic)
next_record-owed r records (some x, s1) k s s' first rest_of e =
    absurd (ground (arith, ap (λ x. x.0) e))
next_record-owed r records (none, s1) k s s' first rest_of e =
    ap (append_both (owed s)) (format_metrics-append (r ∷ []) records)
    ∙ sym (append_both_assoc (owed s) (format_metrics (r ∷ [])) (format_metrics records))
    ∙ ap (λ x. append_both x (format_metrics records)) (first s1 refl)
    ∙ rest_of s1 e

backfill-owed :
    (remote : Remote) (retries : ℕ) (records : List (ℕ × ResourceTags)) (s s' : Store)
    → backfill remote retries records s ≡ (none, s')
    → append_both (owed s) (format_metrics (map stamp_pair records)) ≡ some (delivered s'.traffic)
unfolding backfill format_metrics
backfill-owed remote retries [] s s' e =
    rw ((flush_locked-Delivers remote retries s s' e).0)
      (ap some (append-nil (delivered s'.traffic)))
backfill-owed remote retries ((now, r) ∷ records) s s' e =
    next_record-owed (stamp now r) (map stamp_pair records) (create remote retries now r s)
      (backfill remote retries records) s s' (λ s1. create-owed remote retries now r s s1)
      (λ s1. backfill-owed remote retries records s1 s') e

-- When records are written to a new store one by one and the rest is flushed, all without an error,
-- the server has accepted the series of all of them, stamped with the times of the writes, in order and
-- each once.
pub backfill-Delivers :
    (remote : Remote) (retries : ℕ) (records : List (ℕ × ResourceTags)) (t : Traffic) (s' : Store)
    → backfill remote retries records (new_store t) ≡ (none, s')
    → Delivers (map stamp_pair records) t s'.traffic
unfolding format_metrics
backfill-Delivers remote retries records t s' e =
    rw (append-nil (delivered t)) at (backfill-owed remote retries records (new_store t) s' e)
