-- ===== src/Incoming/Extraction.antt =====
-- What the webhook endpoint reads out of a request (incoming/src/orxtra/incoming/_receiver.py). The
-- request's headers, the decoding of bytes and the JSON parser are arguments. A raised
-- `_ExtractionError` is `validation_error`.
use mathlib.Core.Option
use orxtra.Prelude.{
  ℕ, String, ◌||◌, Option, none, some, List, [], ◌∷◌, if◌then◌else◌, Result, ok, err,
  validation_error, runtime_error,
}
use orxtra.Prelude.Json.{Json, text, lookup, not_null, is_text}
use orxtra.Prelude.Texts.{cut_at, split_all, startswith, startswith_lower, drop}
use Prim.Native.String.{◌++◌ as join}

pub record Request : Type 0 where
  pub slug : String
  pub body : List ℕ
  pub header : (name : Json) → Option String

-- signature.split("=", maxsplit=1)[1], where there is one.
unfoldable pub behind_sign : (signature : String) → Option (String × String) → String
behind_sign signature none = signature
behind_sign signature (some (algo, hex)) = hex

unfoldable pub strip_algorithm : (signature : String) → String
unfolding cut_at behind_sign startswith
strip_algorithm signature =
    if startswith signature "sha256="
      || startswith signature "sha1="
      || startswith signature "sha512="
    then behind_sign signature (cut_at b'=' signature)
    else signature

unfoldable pub strip_bearer : (auth_value : String) → String
unfolding startswith_lower drop
strip_bearer auth_value =
    if startswith_lower auth_value "bearer " then drop 7 auth_value else auth_value

-- d.get(key, default)
unfoldable pub get_or_default : (key : String) (default : Json) → Json → Json
get_or_default key default config = elim (lookup key config) [ none ↦ default | some v ↦ v ]

abbrev or_extraction_error {ℓ} : {A : Type ℓ} → Option A → Result A
or_extraction_error none = err validation_error
or_extraction_error (some value) = ok value

-- "identifier:signature:message", with "_" for the identifier.
unfoldable pub hmac_credential : (signature body : String) → String
hmac_credential signature body =
    join "_" (join ":" (join (strip_algorithm signature) (join ":" body)))

module _ (decode : List ℕ → String) (request : Request) where
  unfoldable pub presented_by : (config : Json) (signature_header : Option Json) → Result String
  unfolding hmac_credential strip_bearer get_or_default
  presented_by config (some name) =
      or_extraction_error
        (Option.map (λ s. hmac_credential s (decode request.body)) (request.header name))
  presented_by config none = or_extraction_error (
      Option.map strip_bearer
        (request.header (get_or_default "auth_header" (text "Authorization") config)))

  unfoldable pub build_presented_credential : (config : Json) → Result String
  unfolding presented_by not_null lookup
  build_presented_credential config =
      presented_by config (not_null (lookup "signature_header" config))

-- The walk down a dotted path.
unfoldable pub walk : (current : Json) (parts : List String) → Option Json
walk current [] = some current
walk current (part ∷ parts) = elim (lookup part current) [
  | none ↦ none
  | some next ↦ walk next parts
]

unfoldable pub event_type_text : Option Json → Result Json
event_type_text (some (text t)) = ok (text t)
event_type_text _ = err validation_error

unfoldable pub event_type_in : (field : Json) → Option Json → Result Json
unfolding walk event_type_text
event_type_in field none = err validation_error
event_type_in (text path) (some parsed) = event_type_text (walk parsed (split_all b'.' path))
event_type_in field (some parsed) = err runtime_error

module _ (loads : List ℕ → Option Json) (request : Request) where
  unfoldable pub event_type_from : (source_type field : Option Json) → Result Json
  unfolding event_type_in is_text
  event_type_from (some source_type) (some field) =
      if is_text source_type "header"
      then or_extraction_error (Option.map text (request.header field))
      else if is_text source_type "json_field"
      then event_type_in field (loads request.body)
      else if is_text source_type "constant"
      then ok field
      else err validation_error
  event_type_from _ _ = err validation_error

  unfoldable pub extract_event_type : (config : Json) → Result Json
  unfolding event_type_from not_null lookup
  extract_event_type config =
      event_type_from (not_null (lookup "event_type_source" config))
        (not_null (lookup "event_type_field" config))

module _ (request : Request) where
  unfoldable pub idempotency_key_from : Option Json → Option String
  idempotency_key_from none = none
  idempotency_key_from (some name) = request.header name

  unfoldable pub extract_idempotency_key : (config : Json) → Option String
  unfolding idempotency_key_from not_null lookup
  extract_idempotency_key config =
      idempotency_key_from (not_null (lookup "idempotency_header" config))
