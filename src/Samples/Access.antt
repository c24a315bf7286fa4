-- ===== src/Samples/Access.antt =====
-- Applications of the theorems on authentication, principals, webhooks and workers
-- (auth/src/orxtra/auth, identity/src/orxtra/identity, incoming/src/orxtra/incoming and
-- worker/src/orxtra/worker).
use orxtra.Prelude.{
  ◌≡◌, ◌≢◌, ◌⊎◌, refl, String, none, some, false, true, [], ◌∷◌, nat_eq, string_eq, arith,
}
use orxtra.Prelude.Dict.{get, put}
use orxtra.Auth.Backend.{
  AuthBackend, empty_auth_backend, verified, CredentialRecord, create_consumer, create_credential,
  disable_consumer, get_consumer, get_credential_by_hash,
}
use orxtra.Auth.Verifiers.{AuthContext}
use orxtra.Auth.Authenticator.{
  Authenticator, hash_verifier, identifier, authenticate, verify_by_credential_id,
}
use orxtra.Auth.Soundness.{Verified}
use orxtra.Auth.Decisions.{authenticate_sound}
use orxtra.Auth.Disabled.{IsKeyed, here, authenticate-disable_consumer}
use orxtra.Auth.Audit.{IsAudited, authenticate-IsAudited}

-- A digest that keeps the text.
abbrev pub digest : String → String
digest s = s

abbrev consumers : AuthBackend
consumers = (create_consumer 1 "ci" verified ("events:write" ∷ []) 7 70 empty_auth_backend).1

abbrev pub stored : AuthBackend
stored = (create_credential digest 2 9 7 "bearer" "token" none consumers).1

abbrev pub bearer : Authenticator
bearer = record {
  backend = stored;
  verifiers = ("bearer", hash_verifier "bearer") ∷ [];
  has_audit_sink = true;
}

abbrev ci : AuthContext
ci = record {
  id = 9;
  consumer_id = some 7;
  scopes = "events:write" ∷ [];
  trust_tier = verified;
  authenticated_via = "bearer";
  issued_at = 5;
  expires_at = none;
}

authenticate_sound_example :
    (cred : CredentialRecord) × ((get_credential_by_hash (digest (identifier "token")) stored
        ≡ some cred)
      ⊎ (get_credential_by_hash (digest "token") stored ≡ some cred))
    × Verified digest 5 bearer cred "token" ci
unfolding authenticate create_consumer create_credential get put
authenticate_sound_example = authenticate_sound digest 5 bearer "token" ci refl

authenticate-IsAudited_example :
    IsAudited 5 (authenticate digest 5 bearer "token").0 (authenticate digest 5 bearer "token").1
    × IsAudited 5
        (verify_by_credential_id digest 5 bearer 9 "wrong").0
        (verify_by_credential_id digest 5 bearer 9 "wrong").1
authenticate-IsAudited_example = authenticate-IsAudited digest 5 bearer refl "token" 9 "wrong"

abbrev both : AuthBackend
both =
    (create_credential digest 2 10 8 "bearer" "other" none
      (create_consumer 1 "ops" verified [] 8 80 stored).1).1

both-IsKeyed : IsKeyed both
unfolding get_consumer create_consumer create_credential get put
both-IsKeyed k c h = ground arith

abbrev locked : Authenticator
locked = record {
  backend = (disable_consumer 3 7 both).1;
  verifiers = ("bearer", hash_verifier "bearer") ∷ [];
  has_audit_sink = false;
}

abbrev ops : AuthContext
ops = record {
  id = 10;
  consumer_id = some 8;
  scopes = [];
  trust_tier = verified;
  authenticated_via = "bearer";
  issued_at = 5;
  expires_at = none;
}

authenticate-disable_consumer_example : ops.consumer_id ≢ some 7
unfolding authenticate create_consumer create_credential disable_consumer get put
authenticate-disable_consumer_example =
    authenticate-disable_consumer digest 5 both (disable_consumer 3 7 both).1 3 7 locked "other" ops
      both-IsKeyed here refl refl
