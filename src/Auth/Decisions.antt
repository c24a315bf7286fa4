-- ===== src/Auth/Decisions.antt =====
-- Whom the authenticator lets in (auth/src/orxtra/auth/_authenticator.py).
use orxtra.Prelude.{◌≡◌, String, none, some, string_eq, nat_eq, ok, ◌⊎◌, arith}
use orxtra.Prelude.Ids.{Uuid, Time}
use orxtra.Auth.Backend.{CredentialRecord, get_credential_by_id, get_credential_by_hash}
use orxtra.Auth.Verifiers.{AuthContext}
use orxtra.Auth.Authenticator.{
  Authenticator, verify_by_credential_id, identifier, find_record, authenticate,
}
use orxtra.Auth.Soundness.{Verified, with_record_lem}

module _ (sha256 : String → String) (now : Time) where
  -- A context that `verify_by_credential_id` returns is that of the credential stored under the
  -- given id: its type has a registered verifier, the presented text proves it (its SHA-256 is the
  -- stored hash, or the provider accepts the signature in it under the credential's key), its
  -- consumer is stored and enabled, and the context carries that consumer's id, scopes and tier.
  pub verify_by_credential_id_sound :
      (a : Authenticator) (credential_id : Uuid) (presented : String) (context : AuthContext)
      → (verify_by_credential_id sha256 now a credential_id presented).0 ≡ ok context
      → (cred : CredentialRecord) × (get_credential_by_id credential_id a.backend ≡ some cred)
        × Verified sha256 now a cred presented context
  unfolding verify_by_credential_id
  verify_by_credential_id_sound a credential_id presented context h =
      with_record_lem sha256 now a (some credential_id) presented _ context h

  find_record_lem :
      (a : Authenticator) (raw : String) (cred : CredentialRecord)
      → find_record sha256 now a raw ≡ some cred
      → (get_credential_by_hash (sha256 (identifier raw)) a.backend ≡ some cred)
        ⊎ (get_credential_by_hash (sha256 raw) a.backend ≡ some cred)
  unfolding find_record
  find_record_lem a raw cred h = ground arith

  -- A context that `authenticate` returns is that of a credential stored under the hash of the whole
  -- text or of its identifier part, of which the same holds as for a look-up by id.
  pub authenticate_sound :
      (a : Authenticator) (raw : String) (context : AuthContext)
      → (authenticate sha256 now a raw).0 ≡ ok context
      → (cred : CredentialRecord) × ((get_credential_by_hash (sha256 (identifier raw)) a.backend
            ≡ some cred)
          ⊎ (get_credential_by_hash (sha256 raw) a.backend ≡ some cred))
        × Verified sha256 now a cred raw context
  unfolding authenticate
  authenticate_sound a raw context h =
      let (cred, found, verified) = with_record_lem sha256 now a none raw _ context h in
      (cred, find_record_lem a raw cred found, verified)
