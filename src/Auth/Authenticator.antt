-- ===== src/Auth/Authenticator.antt =====
-- `Authenticator` (auth/src/orxtra/auth/_authenticator.py). A call returns its outcome beside the
-- audit events that it hands to the sink; the verifiers share the authenticator's backend. A sink
-- that fails is ignored by the code, so that its outcome does not appear.
use orxtra.Prelude.{
  String, Bool, true, not, ◌&&◌, Option, none, some, List, [], ◌∷◌, ◌==◌, string_eq, is_none,
  if◌then◌else◌, Result, ok, err, value_error, authentication_error,
}
use orxtra.Prelude.Ids.{Uuid, Time}
use orxtra.Prelude.Dict.{Dict, get}
use orxtra.Prelude.Texts.{split}
use orxtra.Auth.Backend.{
  CredentialRecord, AuthBackend, get_credential_by_id, get_credential_by_hash,
}
use orxtra.Auth.Verifiers.{AuthContext, MacProvider, verify_hash, verify_hmac}

pub data Verifier : Type 0 where
  hash_verifier : (credential_type : String) → Verifier
  hmac_verifier : (mac_provider : MacProvider) → Verifier

abbrev pub credential_type_of : Verifier → String
credential_type_of (hash_verifier credential_type) = credential_type
credential_type_of (hmac_verifier mac_provider) = "hmac"

pub data Outcome : Type 0 where
  success failure : Outcome

-- Unknown ids and types are `none`; the reason is left out.
pub record AuthAuditEvent : Type 0 where
  pub credential_id : Option Uuid
  pub credential_type : Option String
  pub consumer_id : Option Uuid
  pub outcome : Outcome
  pub verified_at : Time

pub record Authenticator : Type 0 where
  pub backend : AuthBackend
  pub verifiers : Dict String Verifier
  pub has_audit_sink : Bool

-- The loop of the constructor over the registered verifiers.
unfoldable pub check_types : Dict String Verifier → Bool
check_types [] = true
check_types ((cred_type, verifier) ∷ d) = credential_type_of verifier == cred_type && check_types d

unfoldable pub new_authenticator :
    (backend : AuthBackend) (verifiers : Dict String Verifier) (has_audit_sink : Bool)
    → Result Authenticator
unfolding check_types
new_authenticator backend verifiers has_audit_sink =
    if check_types verifiers
    then ok (record { backend = backend; verifiers = verifiers; has_audit_sink = has_audit_sink })
    else err value_error

-- The first of three parts, or the whole text.
unfoldable pub identifier_of : (raw_credential : String) → List String → String
identifier_of raw_credential (identifier ∷ _ ∷ _ ∷ []) = identifier
identifier_of raw_credential _ = raw_credential

unfoldable pub identifier : (raw_credential : String) → String
unfolding identifier_of split
identifier raw_credential = identifier_of raw_credential (split b':' 2 raw_credential)

module _ (sha256 : String → String) (now : Time) where
  abbrev pub Attempt : Type 0
  Attempt = Result AuthContext × List AuthAuditEvent

  unfoldable pub emit_audit :
      Authenticator
      → (credential_id : Option Uuid) (credential_type : Option String) (consumer_id : Option Uuid)
        (outcome : Outcome)
      → List AuthAuditEvent
  emit_audit a credential_id credential_type consumer_id outcome =
      if a.has_audit_sink
      then record {
        credential_id = credential_id;
        credential_type = credential_type;
        consumer_id = consumer_id;
        outcome = outcome;
        verified_at = now;
      }
        ∷ []
      else []

  unfoldable pub run_verifier :
      Authenticator → Verifier → CredentialRecord → (presented : String) → Result AuthContext
  unfolding verify_hash verify_hmac
  run_verifier a (hash_verifier credential_type) cred presented =
      verify_hash sha256 now a.backend cred presented
  run_verifier a (hmac_verifier mac) cred presented = verify_hmac mac now a.backend cred presented

  unfoldable pub audit_record :
      Authenticator → CredentialRecord → (outcome : Outcome) → List AuthAuditEvent
  unfolding emit_audit
  audit_record a cred outcome =
      emit_audit a (some cred.id) (some cred.credential_type) (some cred.consumer_id) outcome

  -- Only an authentication error is caught, audited and raised again.
  unfoldable pub audited : Authenticator → CredentialRecord → Result AuthContext → Attempt
  unfolding audit_record
  audited a cred (ok context) = (ok context, audit_record a cred success)
  audited a cred (err authentication_error) =
      (err authentication_error, audit_record a cred failure)
  audited a cred (err raised) = (err raised, [])

  unfoldable pub with_verifier :
      Authenticator → CredentialRecord → (presented : String) → Option Verifier → Attempt
  unfolding audited run_verifier
  with_verifier a cred presented none = (err authentication_error, audit_record a cred failure)
  with_verifier a cred presented (some verifier) =
      audited a cred (run_verifier a verifier cred presented)

  unfoldable pub verify_with_record :
      Authenticator → CredentialRecord → (presented : String) → Attempt
  unfolding with_verifier
  verify_with_record a cred presented =
      with_verifier a cred presented (get a.verifiers cred.credential_type)

  unfoldable pub with_record :
      Authenticator
      → (credential_id : Option Uuid) (presented : String) → Option CredentialRecord
      → Attempt
  unfolding verify_with_record
  with_record a credential_id presented none =
      (err authentication_error, emit_audit a credential_id none none failure)
  with_record a credential_id presented (some cred) = verify_with_record a cred presented

  unfoldable pub verify_by_credential_id :
      Authenticator → (credential_id : Uuid) (presented : String) → Attempt
  unfolding with_record get_credential_by_id
  verify_by_credential_id a credential_id presented =
      with_record a (some credential_id) presented (get_credential_by_id credential_id a.backend)

  unfoldable pub find_record : Authenticator → (raw_credential : String) → Option CredentialRecord
  unfolding get_credential_by_hash identifier
  find_record a raw_credential =
      let cred = get_credential_by_hash (sha256 (identifier raw_credential)) a.backend in
      if is_none cred && not (identifier raw_credential == raw_credential)
      then get_credential_by_hash (sha256 raw_credential) a.backend
      else cred

  unfoldable pub authenticate : Authenticator → (raw_credential : String) → Attempt
  unfolding with_record find_record
  authenticate a raw_credential = with_record a none raw_credential (find_record a raw_credential)
