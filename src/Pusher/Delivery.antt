-- ===== src/Pusher/Delivery.antt =====
-- What one flush delivers to the server and marks in the database.
use mathlib.Core.List.{append-nil, append_assoc}
use mathlib.Core.Path.{subst}
use cloudzero_agent.Base.{
  ℕ, zero, suc, ◌&&◌, Bool, true, false, Option, none, some, List, [], ◌∷◌, ◌++◌, map, all, ok,
  if◌then◌else◌, Bool-cases, Option-cases, inl, inr, ◌≡◌, ◌≢◌, ◌⊎◌, refl, ap, sym, ◌∙◌, arith,
}
use cloudzero_agent.Shipper.Chunk.{concat}
use cloudzero_agent.Pusher.Record.{ResourceTags}
use cloudzero_agent.Pusher.Sender.{
  TimeSeries, Remote, Traffic, append_both, record_series, format_metrics, push_attempts,
  push_metrics, is_success,
}
use cloudzero_agent.Pusher.Flush.{
  FlushError, Settings, Database, pushed, send_batch, mark_sent, finish, flush,
}
use cloudzero_agent.Pusher.Batches.{
  batches, batches-concat, send_all, after_all, returning, send_from-batches,
}

-- A payload is accepted when it is sent without an error, and only then.
push_attempts-accepted :
    (remote : Remote) (retries : ℕ) (payload : List TimeSeries) (t : Traffic)
    → (push_attempts remote retries payload t).1.accepted ≡ (
        if (push_attempts remote retries payload t).0
        then t.accepted ++ payload ∷ []
        else t.accepted)
unfolding push_attempts
push_attempts-accepted remote zero payload t = refl
push_attempts-accepted remote (suc retries) payload t =
    elim (Bool-cases (is_success (remote.reply t.requests))) [
      | inl f ↦ rw f refl
      | inr f ↦
          rw f
            (push_attempts-accepted remote retries payload (record t { requests = suc t.requests }))
    ]

pub push_metrics-accepted :
    (remote : Remote) (retries : ℕ) (payload : List TimeSeries) (t : Traffic)
    → (push_metrics remote retries payload t).1.accepted ≡ (
        if (push_metrics remote retries payload t).0
        then t.accepted ++ payload ∷ []
        else t.accepted)
unfolding push_metrics
push_metrics-accepted remote retries payload t =
    elim (Bool-cases (remote.can_marshal payload && remote.can_request)) [
      | inl f ↦ rw f (push_attempts-accepted remote retries payload t)
      | inr f ↦ rw f refl
    ]

-- All series that the server has accepted, in order.
abbrev pub delivered : Traffic → List TimeSeries
delivered t = concat t.accepted

concat-snoc {ℓ} :
    {A : Type ℓ} (xss : List (List A)) (xs : List A) → concat (xss ++ xs ∷ []) ≡ concat xss ++ xs
unfolding concat
concat-snoc [] xs = append-nil xs
concat-snoc (ys ∷ xss) xs =
    ap (λ l. ys ++ l) (concat-snoc xss xs) ∙ sym (append_assoc ys (concat xss) xs)

pub append_both_assoc {ℓ} :
    {A : Type ℓ} (x y z : Option (List A))
    → append_both (append_both x y) z ≡ append_both x (append_both y z)
append_both_assoc none y z = refl
append_both_assoc (some x) none z = refl
append_both_assoc (some x) (some y) none = refl
append_both_assoc (some x) (some y) (some z) = ap some (append_assoc x y z)

append_both_nil {ℓ} : {A : Type ℓ} (x : Option (List A)) → append_both (some []) x ≡ x
append_both_nil none = refl
append_both_nil (some x) = refl

pub format_metrics-append :
    (xs ys : List ResourceTags)
    → format_metrics (xs ++ ys) ≡ append_both (format_metrics xs) (format_metrics ys)
unfolding format_metrics
format_metrics-append [] ys = sym (append_both_nil (format_metrics ys))
format_metrics-append (r ∷ xs) ys =
    ap (append_both (record_series r)) (format_metrics-append xs ys)
    ∙ sym (append_both_assoc (record_series r) (format_metrics xs) (format_metrics ys))

-- The server has got the series of some records, after what it had before.
abbrev pub Delivers : List ResourceTags → Traffic → Traffic → Type 0
Delivers records t t' =
    append_both (some (delivered t)) (format_metrics records) ≡ some (delivered t')

pub pushed-Delivers :
    (records : List ResourceTags) (payload : List TimeSeries) (p : Bool × Traffic) (t t' : Traffic)
    → format_metrics records ≡ some payload
    → p.1.accepted ≡ (if p.0 then t.accepted ++ payload ∷ [] else t.accepted)
    → pushed p ≡ (none, t')
    → Delivers records t t'
pushed-Delivers records payload (false, t1) t t' f a e = absurd (ground (arith, ap (λ x. x.0) e))
pushed-Delivers records payload (true, t1) t t' f a e =
    rw f (
      ap some
        (sym (concat-snoc t.accepted payload) ∙ ap concat (sym a) ∙ ap (λ x. delivered x.1) e))

send_batch-Delivers :
    (remote : Remote) (retries : ℕ) (batch : List ResourceTags) (t t' : Traffic)
    → send_batch remote retries batch t ≡ (none, t')
    → Delivers batch t t'
unfolding send_batch format_metrics
send_batch-Delivers remote retries [] t t' e =
    ap some (append-nil (delivered t) ∙ ap (λ x. delivered x.1) e)
send_batch-Delivers remote retries (r ∷ batch) t t' e =
    elim (Option-cases (format_metrics (r ∷ batch))) [
      | inl f ↦ absurd (ground (arith, f, ap (λ x. x.0) (rw f at e)))
      | inr (payload, f) ↦
          pushed-Delivers (r ∷ batch) payload (push_metrics remote retries payload t) t t' f
            (push_metrics-accepted remote retries payload t) (rw f at e)
    ]

after_all-Delivers :
    (batch rest : List ResourceTags) (p : Option FlushError × Traffic)
    (k : Traffic → Option FlushError × Traffic) (t t' : Traffic)
    → ((t1 : Traffic) → p ≡ (none, t1) → Delivers batch t t1)
    → ((t1 : Traffic) → k t1 ≡ (none, t') → Delivers rest t1 t')
    → after_all p k ≡ (none, t')
    → Delivers (batch ++ rest) t t'
after_all-Delivers batch rest (some x, t1) k t t' first rest_of e =
    absurd (ground (arith, ap (λ x. x.0) e))
after_all-Delivers batch rest (none, t1) k t t' first rest_of e =
    ap (append_both (some (delivered t))) (format_metrics-append batch rest)
    ∙ sym (append_both_assoc (some (delivered t)) (format_metrics batch) (format_metrics rest))
    ∙ ap (λ x. append_both x (format_metrics rest)) (first t1 refl)
    ∙ rest_of t1 e

send_all-Delivers :
    (remote : Remote) (retries : ℕ) (bs : List (List ResourceTags)) (t t' : Traffic)
    → send_all remote retries bs t ≡ (none, t')
    → Delivers (concat bs) t t'
unfolding send_all concat format_metrics
send_all-Delivers remote retries [] t t' e =
    ap some (append-nil (delivered t) ∙ ap (λ x. delivered x.1) e)
send_all-Delivers remote retries (batch ∷ bs) t t' e =
    after_all-Delivers batch (concat bs) (send_batch remote retries batch t)
      (send_all remote retries bs) t t' (λ t1. send_batch-Delivers remote retries batch t t1)
      (λ t1. send_all-Delivers remote retries bs t1 t') e

-- What a flush that found some records comes to: all is delivered and marked, or nothing is marked.
abbrev pub AllOrNothing :
    List ResourceTags → ℕ → Traffic → Option FlushError × List ResourceTags × Traffic → Type 0
AllOrNothing found now t (error, updated, t') =
    ((error ≡ none) × (updated ≡ map (mark_sent now) found) × Delivers found t t')
    ⊎ ((error ≢ none) × (updated ≡ []))

update_all-AllOrNothing :
    (db : Database) (now : ℕ) (found : List ResourceTags) (t t' : Traffic)
    → Delivers found t t'
    → AllOrNothing found now t (finish db now (ok found, t'))
update_all-AllOrNothing db now [] t t' d = inl (refl, refl, d)
update_all-AllOrNothing db now (r ∷ found) t t' d =
    elim (Bool-cases (all db.can_update (map (mark_sent now) (r ∷ found)) && db.can_commit)) [
      | inl f ↦ rw f (inl (refl, refl, d))
      | inr f ↦ rw f (inr (λ e. ground arith, refl))
    ]

finish-AllOrNothing :
    (db : Database) (now : ℕ) (found : List ResourceTags) (t : Traffic)
    (p : Option FlushError × Traffic)
    → ((t' : Traffic) → p ≡ (none, t') → Delivers found t t')
    → AllOrNothing found now t (finish db now (returning found p))
finish-AllOrNothing db now found t (some e, t') d = inr (λ e. ground arith, refl)
finish-AllOrNothing db now found t (none, t') d =
    update_all-AllOrNothing db now found t t' (d t' refl)

-- Where the query succeeds, `Flush` either returns no error, the server has accepted the series of all
-- the records found, in order and each once after what it had, and all these records are marked as
-- sent; or it returns an error, and none is marked.
pub flush-AllOrNothing :
    (remote : Remote) (settings : Settings) (db : Database) (now : ℕ) (found : List ResourceTags)
    (t : Traffic)
    → db.found ≡ some found
    → AllOrNothing found now t (flush remote settings db now t)
unfolding flush
flush-AllOrNothing remote settings db now found t h =
    rw (h, send_from-batches remote settings found t)
      (finish-AllOrNothing db now found t
        (send_all remote settings.max_retries (batches settings.max_bytes found) t)
        (λ t' e.
          subst (λ l. Delivers l t t') (batches-concat settings.max_bytes found).0
            (send_all-Delivers remote settings.max_retries (batches settings.max_bytes found) t t'
              e)))
