-- ===== src/Auth/Backend.antt =====
-- `InMemoryAuthBackend` (auth/src/orxtra/auth/_inmemory.py) and the records that it stores
-- (protocols/src/orxtra/protocols/_types/_auth.py). `sha256(text.encode()).hexdigest()` is the
-- argument `sha256`; the identifiers and times that a method mints are arguments.
use orxtra.Prelude.{
  String, Option, none, some, List, [], ◌==◌, ◌&&◌, nat_eq, string_eq, filter, find, matches_option,
  Result, ok, err, key_error,
}
use orxtra.Prelude.Ids.{Uuid, Time}
use orxtra.Prelude.Json.{Json, empty_object}
use orxtra.Prelude.Dict.{Dict, get, put, values}

pub data TrustTier : Type 0 where
  anonymous identified verified system : TrustTier

pub record ConsumerRecord : Type 0 where
  pub id : Uuid
  pub principal_id : Uuid
  pub name : String
  pub trust_tier : TrustTier
  pub scope_grants : List String
  pub disabled_at : Option Time
  pub created_at : Time

pub record CredentialRecord : Type 0 where
  pub id : Uuid
  pub consumer_id : Uuid
  pub credential_type : String
  pub credential_hash : String
  pub algorithm : String
  pub metadata : Json
  pub secret_ref : Option String
  pub created_at : Time

pub record AuthBackend : Type 0 where
  pub consumers : Dict Uuid ConsumerRecord
  pub credentials : Dict Uuid CredentialRecord

abbrev pub empty_auth_backend : AuthBackend
empty_auth_backend = record { consumers = []; credentials = [] }

-- The row that `create_consumer` writes.
abbrev pub new_consumer :
    (now : Time) (name : String) (trust_tier : TrustTier) (scope_grants : List String)
    (consumer_id principal_id : Uuid)
    → ConsumerRecord
new_consumer now name trust_tier scope_grants consumer_id principal_id = record {
  id = consumer_id;
  principal_id = principal_id;
  name = name;
  trust_tier = trust_tier;
  scope_grants = scope_grants;
  disabled_at = none;
  created_at = now;
}

unfoldable pub create_consumer :
    (now : Time) (name : String) (trust_tier : TrustTier) (scope_grants : List String)
    (consumer_id principal_id : Uuid)
    → AuthBackend
    → Uuid × AuthBackend
create_consumer now name trust_tier scope_grants consumer_id principal_id b =
    let consumer = new_consumer now name trust_tier scope_grants consumer_id principal_id in
    (consumer_id, record b { consumers = put b.consumers consumer_id consumer })

unfoldable pub get_consumer : Uuid → AuthBackend → Option ConsumerRecord
get_consumer consumer_id b = get b.consumers consumer_id

-- What `disable_consumer` makes of the row that it finds.
unfoldable pub disable_found :
    (now : Time) (consumer_id : Uuid)
    → Option ConsumerRecord
    → AuthBackend
    → Result (Unit {0}) × AuthBackend
disable_found now consumer_id none b = (err key_error, b)
disable_found now consumer_id (some existing) b =
    let disabled = record existing { disabled_at = some now } in
    (ok tt, record b { consumers = put b.consumers consumer_id disabled })

unfoldable pub disable_consumer :
    (now : Time) (consumer_id : Uuid) → AuthBackend → Result (Unit {0}) × AuthBackend
unfolding disable_found
disable_consumer now consumer_id b = disable_found now consumer_id (get b.consumers consumer_id) b

unfoldable pub create_credential :
    (sha256 : String → String) (now : Time) (credential_id consumer_id : Uuid)
    (credential_type raw_value : String) (secret_ref : Option String)
    → AuthBackend
    → Uuid × AuthBackend
create_credential sha256 now credential_id consumer_id credential_type raw_value secret_ref b =
    let credential : CredentialRecord = record {
      id = credential_id;
      consumer_id = consumer_id;
      credential_type = credential_type;
      credential_hash = sha256 raw_value;
      algorithm = "sha256";
      metadata = empty_object;
      secret_ref = secret_ref;
      created_at = now;
    } in
    (credential_id, record b { credentials = put b.credentials credential_id credential })

unfoldable pub get_credential_by_id : Uuid → AuthBackend → Option CredentialRecord
get_credential_by_id credential_id b = get b.credentials credential_id

unfoldable pub get_credential_by_hash : String → AuthBackend → Option CredentialRecord
get_credential_by_hash hash b = find (λ cred. cred.credential_hash == hash) (values b.credentials)

unfoldable pub get_credentials_by_consumer :
    (consumer_id : Uuid) (credential_type : Option String) → AuthBackend → List CredentialRecord
get_credentials_by_consumer consumer_id credential_type b =
    filter
      (λ cred.
        cred.consumer_id == consumer_id
        && matches_option (λ t. cred.credential_type == t) credential_type)
      (values b.credentials)
