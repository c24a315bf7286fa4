-- ===== src/Auth/Verifiers.antt =====
-- The verifiers of the credential types (auth/src/orxtra/auth/_verifiers.py). `mac` is the `verify`
-- of the key provider that the HMAC verifier is built with.
use orxtra.Prelude.{
  ℕ, String, not, Option, none, some, List, [], ◌∷◌, ◌==◌, string_eq, is_none, if◌then◌else◌,
  Result, ok, err, authentication_error,
}
use orxtra.Prelude.Ids.{Uuid, Time}
use orxtra.Prelude.Sets.{to_set}
use orxtra.Prelude.Texts.{split}
use orxtra.Prelude.Bytes.{encode}
use orxtra.Secrets.{MacOutcome, match, mismatch, MacVerdict}
use orxtra.Auth.Backend.{TrustTier, ConsumerRecord, CredentialRecord, AuthBackend, get_consumer}

pub record AuthContext : Type 0 where
  pub id : Uuid
  pub consumer_id : Option Uuid
  pub scopes : List String
  pub trust_tier : TrustTier
  pub authenticated_via : String
  pub issued_at : Time
  pub expires_at : Option Time

unfoldable pub build_auth_context : (now : Time) → CredentialRecord → ConsumerRecord → AuthContext
unfolding to_set
build_auth_context now credential consumer = record {
  id = credential.id;
  consumer_id = some consumer.id;
  scopes = to_set consumer.scope_grants;
  trust_tier = consumer.trust_tier;
  authenticated_via = credential.credential_type;
  issued_at = now;
  expires_at = none;
}

-- The tail of both verifiers: the consumer exists and is not disabled.
unfoldable pub with_consumer :
    (now : Time) → CredentialRecord → Option ConsumerRecord → Result AuthContext
unfolding build_auth_context
with_consumer now credential none = err authentication_error
with_consumer now credential (some consumer) =
    if not (is_none consumer.disabled_at)
    then err authentication_error
    else ok (build_auth_context now credential consumer)

-- `HashCredentialVerifier.verify`
unfoldable pub verify_hash :
    (sha256 : String → String) (now : Time)
    → AuthBackend
    → CredentialRecord
    → (presented : String) → Result AuthContext
unfolding with_consumer get_consumer
verify_hash sha256 now b credential presented =
    if not (credential.credential_hash == sha256 presented)
    then err authentication_error
    else with_consumer now credential (get_consumer credential.consumer_id b)

abbrev pub MacProvider : Type 0
MacProvider =
    (key_ref : String) (message : List ℕ) (signature algorithm : String) → Result MacVerdict

unfoldable pub with_outcome :
    (now : Time) → AuthBackend → CredentialRecord → MacOutcome → Result AuthContext
unfolding with_consumer get_consumer
with_outcome now b credential match =
    with_consumer now credential (get_consumer credential.consumer_id b)
with_outcome now b credential mismatch = err authentication_error

-- What `HmacCredentialVerifier.verify` makes of the verdict.
unfoldable pub with_verdict :
    (now : Time) → AuthBackend → CredentialRecord → Result MacVerdict → Result AuthContext
unfolding with_outcome
with_verdict now b credential (err raised) = err raised
with_verdict now b credential (ok verdict) = with_outcome now b credential verdict.outcome

-- The three parts of "identifier:signature:message".
unfoldable pub with_parts :
    (mac : MacProvider) (now : Time)
    → AuthBackend
    → CredentialRecord
    → (key_ref : String) → List String
    → Result AuthContext
unfolding with_verdict encode
with_parts mac now b credential key_ref (identifier ∷ signature ∷ message ∷ []) =
    with_verdict now b credential (mac key_ref (encode message) signature credential.algorithm)
with_parts mac now b credential key_ref _ = err authentication_error

unfoldable pub with_key_ref :
    (mac : MacProvider) (now : Time)
    → AuthBackend
    → CredentialRecord
    → (presented : String) → Option String
    → Result AuthContext
unfolding with_parts split
with_key_ref mac now b credential presented none = err authentication_error
with_key_ref mac now b credential presented (some key_ref) =
    with_parts mac now b credential key_ref (split b':' 2 presented)

-- `HmacCredentialVerifier.verify`
unfoldable pub verify_hmac :
    (mac : MacProvider) (now : Time)
    → AuthBackend
    → CredentialRecord
    → (presented : String) → Result AuthContext
unfolding with_key_ref
verify_hmac mac now b credential presented =
    with_key_ref mac now b credential presented credential.secret_ref
