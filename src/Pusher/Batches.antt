-- ===== src/Pusher/Batches.antt =====
-- How the records found by one flush are cut into batches.
use mathlib.Core.List.{append-nil, append_assoc}
use cloudzero_agent.Base.{
  ℕ, ◌+◌, ◌≤◌, ◌<◌, Option, none, some, List, [], ◌∷◌, ◌++◌, ltb, Result, ok, err, if◌then◌else◌,
  All, length, length-append, Bool-cases, inl, inr, ◌≡◌, ◌⊎◌, refl, ap, sym, ◌∙◌, arith,
}
use cloudzero_agent.Shipper.Chunk.{concat}
use cloudzero_agent.Pusher.Record.{ResourceTags}
use cloudzero_agent.Pusher.Sender.{Remote, Traffic}
use cloudzero_agent.Pusher.Flush.{FlushError, Settings, send_batch, after_batch, send_from}

-- The batches for a list of records, cut before any is sent; `batch` is the one being filled.
pub batches_from : ℕ → List ResourceTags → ℕ → List ResourceTags → List (List ResourceTags)
batches_from max [] total_size batch = batch ∷ []
batches_from max (next ∷ found) total_size batch =
    let rest = batches_from max found in
    if ltb max (next.size + total_size)
    then batch ∷ rest next.size (next ∷ [])
    else rest (total_size + next.size) (batch ++ next ∷ [])

unfoldable pub batches : ℕ → List ResourceTags → List (List ResourceTags)
batches max [] = []
batches max (r ∷ found) = batches_from max found r.size (r ∷ [])

abbrev pub after_all :
    Option FlushError × Traffic
    → (Traffic → Option FlushError × Traffic)
    → Option FlushError × Traffic
after_all (none, traffic) k = k traffic
after_all (some e, traffic) k = (some e, traffic)

-- Batches are sent in order until one fails.
unfoldable pub send_all :
    Remote → ℕ → List (List ResourceTags) → Traffic → Option FlushError × Traffic
send_all remote retries [] traffic = (none, traffic)
send_all remote retries (batch ∷ batches) traffic =
    after_all (send_batch remote retries batch traffic) (send_all remote retries batches)

abbrev pub returning {ℓ} :
    {A : Type ℓ} → A → Option FlushError × Traffic → Result FlushError A × Traffic
returning a (none, traffic) = (ok a, traffic)
returning a (some e, traffic) = (err e, traffic)

returning-after_all {ℓ} :
    {A : Type ℓ} (a : A) (p : Option FlushError × Traffic)
    (k : Traffic → Option FlushError × Traffic)
    → after_batch p (λ t. returning a (k t)) ≡ returning a (after_all p k)
returning-after_all a (none, t) k = refl
returning-after_all a (some e, t) k = refl

after_batch_cong {ℓ} :
    {A : Type ℓ} (p : Option FlushError × Traffic) (k l : Traffic → Result FlushError A × Traffic)
    → ((t : Traffic) → k t ≡ l t)
    → after_batch p k ≡ after_batch p l
after_batch_cong (none, t) k l h = h t
after_batch_cong (some e, t) k l h = refl

snoc_append :
    (xs : List ResourceTags) (r : ResourceTags) (ys : List ResourceTags)
    → (xs ++ r ∷ []) ++ ys ≡ xs ++ r ∷ ys
snoc_append xs r ys = append_assoc xs (r ∷ []) ys

module _ (remote : Remote) (settings : Settings) where
  send_from-send_all :
      (found completed : List ResourceTags) (total_size : ℕ) (r : ResourceTags)
      (batch : List ResourceTags) (traffic : Traffic)
      → send_from remote settings found completed total_size (r ∷ batch) traffic
        ≡ returning (completed ++ found) (
            send_all remote settings.max_retries
              (batches_from settings.max_bytes found total_size (r ∷ batch))
              traffic)
  unfolding send_from batches_from send_all
  send_from-send_all [] completed total_size r batch traffic = rw (append-nil completed) (
      returning-after_all completed (send_batch remote settings.max_retries (r ∷ batch) traffic)
        (λ t. (none, t)))
  send_from-send_all (next ∷ found) completed total_size r batch traffic =
      elim (Bool-cases (ltb settings.max_bytes (next.size + total_size))) [
        | inl f ↦ rw f (
            after_batch_cong (send_batch remote settings.max_retries (r ∷ batch) traffic) _ _ (λ t.
              rw (snoc_append completed next found) at
                (send_from-send_all found (completed ++ next ∷ []) next.size next [] t))
            ∙ returning-after_all (completed ++ next ∷ found)
                (send_batch remote settings.max_retries (r ∷ batch) traffic) _)
        | inr f ↦
            rw (f, sym (snoc_append completed next found))
              (send_from-send_all found (completed ++ next ∷ []) (total_size + next.size) r
                (batch ++ next ∷ []) traffic)
      ]

abbrev pub size_of : List ResourceTags → ℕ
size_of [] = 0
size_of (r ∷ batch) = r.size + size_of batch

-- A batch has a record, and it is within the limit or is a single record.
abbrev pub FitsBatch : ℕ → List ResourceTags → Type 0
FitsBatch max batch = (0 < length batch) × ((size_of batch ≤ max) ⊎ (length batch ≡ 1))

size_of-append :
    (xs : List ResourceTags) (r : ResourceTags) → size_of (xs ++ r ∷ []) ≡ size_of xs + r.size
size_of-append [] r = omega arith
size_of-append (x ∷ xs) r = omega (arith, size_of-append xs r)

batches_from-concat :
    (max : ℕ) (found : List ResourceTags) (total_size : ℕ) (batch : List ResourceTags)
    → concat (batches_from max found total_size batch) ≡ batch ++ found
unfolding batches_from concat
batches_from-concat max [] total_size batch = refl
batches_from-concat max (next ∷ found) total_size batch =
    elim (Bool-cases (ltb max (next.size + total_size))) [
      | inl f ↦ rw f (ap (λ l. batch ++ l) (batches_from-concat max found next.size (next ∷ [])))
      | inr f ↦
          rw (f, sym (snoc_append batch next found))
            (batches_from-concat max found (total_size + next.size) (batch ++ next ∷ []))
    ]

batches_from-FitsBatch :
    (max : ℕ) (found : List ResourceTags) (total_size : ℕ) (batch : List ResourceTags)
    → total_size ≡ size_of batch
    → FitsBatch max batch
    → All (FitsBatch max) (batches_from max found total_size batch)
unfolding batches_from
batches_from-FitsBatch max [] total_size batch h fits = (fits, tt)
batches_from-FitsBatch max (next ∷ found) total_size batch h fits =
    elim (Bool-cases (ltb max (next.size + total_size))) [
      | inl f ↦ rw f (
        fits,
        batches_from-FitsBatch max found next.size (next ∷ []) (omega arith)
            (omega arith, inr refl),
      )
      | inr f ↦ rw f (
          batches_from-FitsBatch max found (total_size + next.size) (batch ++ next ∷ [])
            (omega (arith, h, size_of-append batch next))
            (
              ground (arith, length-append batch (next ∷ [])),
              inl (ground (arith, h, size_of-append batch next)),
            ))
    ]

-- The batches are the records in order, none is empty, and a batch of more than one record is within
-- the limit of bytes.
pub batches-concat :
    (max : ℕ) (found : List ResourceTags)
    → (concat (batches max found) ≡ found) × All (FitsBatch max) (batches max found)
unfolding batches concat
batches-concat max [] = (refl, tt)
batches-concat max (r ∷ found) = (
  batches_from-concat max found r.size (r ∷ []),
  batches_from-FitsBatch max found r.size (r ∷ []) (omega arith) (omega arith, inr refl),
)

-- The loop of `Flush` sends these batches, in order until one fails, and then has the records that it
-- found as completed.
pub send_from-batches :
    (remote : Remote) (settings : Settings) (found : List ResourceTags) (traffic : Traffic)
    → send_from remote settings found [] 0 [] traffic
      ≡ returning found
          (send_all remote settings.max_retries (batches settings.max_bytes found) traffic)
unfolding send_from batches send_all send_batch
send_from-batches remote settings [] traffic = refl
send_from-batches remote settings (r ∷ found) traffic =
    ground (arith, send_from-send_all remote settings found (r ∷ []) r.size r [] traffic)
