-- ===== src/Collector/Put/Laws.antt =====
-- The switch of `PutMetrics` on the message type.
use cloudzero_agent.Base.{
  ℕ, String, Bool, true, false, Option, none, some, List, Result, ok, err, ◌>>=◌, ◌==◌, eq_iff,
  if◌then◌else◌, Bool-cases, Option-cases, inl, inr, ◌⊎◌, ◌≡◌, refl, arith,
}
use cloudzero_agent.Metric.Defs.{Metric}
use cloudzero_agent.Collector.ContentType.{
  ContentTypeError, parse_proto_msg, parse_proto_msg-valid, app_proto_content_type,
}
use cloudzero_agent.Collector.Decode.{
  Source, RequestV2, TimeSeriesV1, DecodeError, WriteResponseStats, index_panic, invalid_references,
}
use cloudzero_agent.Collector.Put.{
  unsupported, Failure, Wire, of_v1, of_v2, of_decode_v2, decompress, of_content_type,
  parse_content_type, decode_as, decode_request, content_type, snappy, json_unmarshal, panic, store,
}

-- Whether a failed request was refused by the last case of the switch on the message type.
abbrev pub is_unsupported {ℓ} : {A : Type ℓ} {E : Type 0} → Result (Failure E) A → Bool
is_unsupported (err (unsupported t, stats)) = true
is_unsupported _ = false

is_unsupported->>= {ℓ κ} :
    {A : Type ℓ} {B : Type κ} {E : Type 0} (m : Result (Failure E) A) (f : A → Result (Failure E) B)
    → is_unsupported m ≡ false
    → ((a : A) → m ≡ ok a → is_unsupported (f a) ≡ false)
    → is_unsupported (m >>= f) ≡ false
is_unsupported->>= (ok a) f h k = k a refl
is_unsupported->>= (err (content_type e, s)) f h k = refl
is_unsupported->>= (err (snappy, s)) f h k = refl
is_unsupported->>= (err (json_unmarshal, s)) f h k = refl
is_unsupported->>= (err (panic, s)) f h k = refl
is_unsupported->>= (err (unsupported t, s)) f h k = h
is_unsupported->>= (err (store e, s)) f h k = refl

module _ {Body : Type 0} (E : Type 0) (wire : Wire Body) (src : Source) where
  of_v1-supported :
      (n : ℕ) (series : Option (List TimeSeriesV1))
      → is_unsupported (of_v1 {E = E} wire src n series) ≡ false
  unfolding of_v1
  of_v1-supported n none = refl
  of_v1-supported n (some series) = refl

  of_decode_v2-supported :
      (r : Result DecodeError (List Metric × WriteResponseStats))
      → is_unsupported (of_decode_v2 {E = E} wire src r) ≡ false
  unfolding of_decode_v2
  of_decode_v2-supported (err index_panic) = refl
  of_decode_v2-supported (err invalid_references) = refl
  of_decode_v2-supported (ok (metrics, stats)) = refl

  of_v2-supported :
      (n : ℕ) (request : Option RequestV2)
      → is_unsupported (of_v2 {E = E} wire src n request) ≡ false
  unfolding of_v2
  of_v2-supported n none = refl
  of_v2-supported n (some request) = of_decode_v2-supported _

  decode_as-supported :
      (n : ℕ) (body : Body) (m : String)
      → (m ≡ wire.v1) ⊎ (m ≡ wire.v2)
      → is_unsupported (decode_as {E = E} wire src n body m) ≡ false
  unfolding decode_as
  decode_as-supported n body m h = elim (Bool-cases (m == wire.v1)) [
    | inl e ↦ rw e (of_v1-supported n (wire.unmarshal_v1 body))
    | inr e ↦ elim (Bool-cases (m == wire.v2)) [
      | inl f ↦ rw (e, f) (of_v2-supported n (wire.unmarshal_v2 body))
      | inr f ↦ absurd (ground (arith, eq_iff m wire.v1, eq_iff m wire.v2))
    ]
  ]

  decompress-supported :
      (encoding_type : String) (body : Body)
      → is_unsupported (decompress {E = E} wire src encoding_type body) ≡ false
  unfolding decompress
  decompress-supported encoding_type body = elim (Bool-cases (encoding_type == "snappy")) [
    | inl e ↦ elim (Option-cases (wire.snappy_decode body)) [
      | inl f ↦ rw (e, f) refl
      | inr (b, f) ↦ rw (e, f) refl
    ]
    | inr e ↦ rw e refl
  ]

  of_content_type-supported :
      (r : Result ContentTypeError String)
      → is_unsupported (of_content_type {E = E} wire src r) ≡ false
  unfolding of_content_type
  of_content_type-supported (ok m) = refl
  of_content_type-supported (err e) = refl

  of_content_type-ok :
      (r : Result ContentTypeError String) (m : String)
      → of_content_type {E = E} wire src r ≡ ok m
      → r ≡ ok m
  unfolding of_content_type
  of_content_type-ok (ok m') m e = ground arith
  of_content_type-ok (err x) m e = ground arith

  -- If Prometheus' validation accepts the type of version 1, and nothing but the types of the two
  -- versions, no request is refused by the default case of the switch on the message type.
  pub decode_request-supported :
      (n : ℕ) (t encoding_type : String) (body : Body)
      → wire.validate wire.v1 ≡ true
      → ((m : String) → wire.validate m ≡ true → (m ≡ wire.v1) ⊎ (m ≡ wire.v2))
      → is_unsupported (decode_request {E = E} wire src n t encoding_type body) ≡ false
  unfolding decode_request parse_content_type
  decode_request-supported n t encoding_type body h only =
      let msg = if t == "" then app_proto_content_type else t in
      let parsed = parse_proto_msg wire.validate wire.v1 msg in
      is_unsupported->>= (of_content_type wire src parsed) _ (of_content_type-supported parsed)
        λ m e.
          is_unsupported->>= (decompress wire src encoding_type body) _
            (decompress-supported encoding_type body)
            λ b _. decode_as-supported n b m (
              only m (
                parse_proto_msg-valid wire.validate wire.v1 msg m h
                  (of_content_type-ok parsed m e)))
