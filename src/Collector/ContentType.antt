-- ===== src/Collector/ContentType.antt =====
-- `parseProtoMsg` of app/domain/metric_collector.go: the protocol version in a content type.
use cloudzero_agent.Base.{
  String, Bool, true, not, List, [], ◌∷◌, Result, ok, err, ◌==◌, if◌then◌else◌, trim_space, split,
  Bool-cases, inl, inr, ◌≡◌, arith,
}

pub data ContentTypeError : Type 0 where
  wrong_media_type : String → ContentTypeError
  bad_parameter : String → ContentTypeError
  unknown_message : String → ContentTypeError

abbrev pub app_proto_content_type : String
app_proto_content_type = "application/x-protobuf"

-- Prometheus' remote API: `Validate`, and the message type of version 1.
module _ (validate : String → Bool) (v1 : String) where
  -- One parameter, split at "=", and what the rest of the loop returns.
  unfoldable pub parse_pair :
      String → List String → Result ContentTypeError String → Result ContentTypeError String
  parse_pair p (k ∷ v ∷ []) rest =
      if k == "proto" then (if validate v then ok v else err (unknown_message v)) else rest
  parse_pair p _ rest = err (bad_parameter p)

  -- The loop over the parameters; the first `proto=` decides.
  unfoldable pub parse_parameters : List String → Result ContentTypeError String
  unfolding parse_pair
  parse_parameters [] = ok v1
  parse_parameters (p ∷ parts) =
      let rest = parse_parameters parts in parse_pair p (split b'=' p) rest

  unfoldable pub parse_parts : String → List String → Result ContentTypeError String
  unfolding parse_parameters
  parse_parts content_type [] = err (wrong_media_type content_type)
  parse_parts content_type (media ∷ parameters) =
      if not (media == app_proto_content_type)
      then err (wrong_media_type content_type)
      else parse_parameters parameters

  unfoldable pub parse_proto_msg : String → Result ContentTypeError String
  unfolding parse_parts
  parse_proto_msg content_type =
      let trimmed = trim_space content_type in parse_parts trimmed (split b';' trimmed)

  parse_pair-valid :
      (p : String) (pair : List String) (rest : Result ContentTypeError String) (t : String)
      → validate v1 ≡ true
      → (rest ≡ ok t → validate t ≡ true)
      → parse_pair p pair rest ≡ ok t
      → validate t ≡ true
  unfolding parse_pair
  parse_pair-valid p [] rest t h ih e = ground arith
  parse_pair-valid p (k ∷ []) rest t h ih e = ground arith
  parse_pair-valid p (k ∷ v ∷ []) rest t h ih e = elim (Bool-cases (k == "proto")) [
    | inl q ↦ elim (Bool-cases (validate v)) [ inl w ↦ ground arith | inr w ↦ ground arith ]
    | inr q ↦ ih (rw (q, parse_pair) at e)
  ]
  parse_pair-valid p (k ∷ v ∷ w ∷ r) rest t h ih e = ground arith

  parse_parameters-valid :
      (parts : List String) (t : String)
      → validate v1 ≡ true
      → parse_parameters parts ≡ ok t
      → validate t ≡ true
  unfolding parse_parameters
  parse_parameters-valid [] t h e = ground arith
  parse_parameters-valid (p ∷ parts) t h e =
      parse_pair-valid p (split b'=' p) (parse_parameters parts) t h
        (parse_parameters-valid parts t h) e

  -- A content type that is accepted names a message type that Prometheus' own validation accepts,
  -- which the type of version 1 does by hypothesis.
  pub parse_proto_msg-valid :
      (content_type t : String)
      → validate v1 ≡ true
      → parse_proto_msg content_type ≡ ok t
      → validate t ≡ true
  unfolding parse_proto_msg
  parse_proto_msg-valid content_type t h e = go (split b';' (trim_space content_type)) e
    where
      go :
          (parts : List String)
          → parse_parts (trim_space content_type) parts ≡ ok t
          → validate t ≡ true
      go [] d = ground arith
      go (media ∷ parameters) d = elim (Bool-cases (media == app_proto_content_type)) [
        | inl m ↦ parse_parameters-valid parameters t h (rw (m, parse_parts) at d)
        | inr m ↦ ground arith
      ]
