-- ===== src/Auth/Audit.antt =====
-- What the authenticator reports to its audit sink (auth/src/orxtra/auth/_authenticator.py).
use orxtra.Prelude.{
  ◌≡◌, refl, ap, String, true, Option, none, some, List, [], ◌∷◌, Result, ok, err, value_error,
  key_error, invalid_transition, run_lock_error, stale_write_error, authentication_error,
  cycle_error, os_error, runtime_error, validation_error, tool_error, type_error, string_eq,
}
use orxtra.Prelude.Ids.{Uuid, Time}
use orxtra.Prelude.Dict.{get}
use orxtra.Auth.Backend.{CredentialRecord, get_credential_by_id}
use orxtra.Auth.Verifiers.{AuthContext, build_auth_context}
use orxtra.Auth.Soundness.{run_verifier_lem}
use orxtra.Auth.Authenticator.{
  AuthAuditEvent, Outcome, success, failure, Verifier, Authenticator, emit_audit, audit_record,
  audited, run_verifier, with_verifier, verify_with_record, with_record, verify_by_credential_id,
  find_record, authenticate,
}

-- The one audit event of an attempt.
abbrev IsEvent :
    (now : Time) (outcome : Outcome) (credential_id : Option Uuid) → List AuthAuditEvent → Type 0
IsEvent now outcome credential_id events =
    (e : AuthAuditEvent) × (events ≡ e ∷ [])
    × (e.outcome ≡ outcome)
    × (e.credential_id ≡ credential_id)
    × (e.verified_at ≡ now)

-- A success is reported with the credential of its context, an authentication error as a failure,
-- and another exception not at all.
abbrev pub IsAudited : (now : Time) → Result AuthContext → List AuthAuditEvent → Type 0
IsAudited now (ok context) events = IsEvent now success (some context.id) events
IsAudited now (err authentication_error) events =
    (credential_id : Option Uuid) × IsEvent now failure credential_id events
IsAudited now (err raised) events = events ≡ []

module _ (sha256 : String → String) (now : Time) (a : Authenticator)
    (sink : a.has_audit_sink ≡ true) where
  emit_audit-IsEvent :
      (i : Option Uuid) (t : Option String) (c : Option Uuid) (o : Outcome)
      → IsEvent now o i (emit_audit sha256 now a i t c o)
  unfolding emit_audit
  emit_audit-IsEvent i t c o = rw sink (_, refl, refl, refl, refl)

  audited-IsAudited :
      (cred : CredentialRecord) (r : Result AuthContext)
      → ((context : AuthContext) → r ≡ ok context → context.id ≡ cred.id)
      → IsAudited now (audited sha256 now a cred r).0 (audited sha256 now a cred r).1
  unfolding audited audit_record
  audited-IsAudited cred (ok context) own = rw (own context refl) (
      emit_audit-IsEvent (some cred.id) (some cred.credential_type) (some cred.consumer_id) success)
  audited-IsAudited cred (err authentication_error) own = (
    some cred.id,
    emit_audit-IsEvent (some cred.id) (some cred.credential_type) (some cred.consumer_id) failure,
  )
  audited-IsAudited cred (err value_error) own = refl
  audited-IsAudited cred (err key_error) own = refl
  audited-IsAudited cred (err invalid_transition) own = refl
  audited-IsAudited cred (err run_lock_error) own = refl
  audited-IsAudited cred (err stale_write_error) own = refl
  audited-IsAudited cred (err cycle_error) own = refl
  audited-IsAudited cred (err os_error) own = refl
  audited-IsAudited cred (err runtime_error) own = refl
  audited-IsAudited cred (err validation_error) own = refl
  audited-IsAudited cred (err tool_error) own = refl
  audited-IsAudited cred (err type_error) own = refl

  own_id :
      (v : Verifier) (cred : CredentialRecord) (presented : String) (context : AuthContext)
      → run_verifier sha256 now a v cred presented ≡ ok context
      → context.id ≡ cred.id
  unfolding build_auth_context
  own_id v cred presented context h =
      let (proven, g) = run_verifier_lem sha256 now a v cred presented context h in
      ap (λ (x : AuthContext). x.id) g.described

  with_verifier-IsAudited :
      (cred : CredentialRecord) (presented : String) (o : Option Verifier)
      → IsAudited now
          (with_verifier sha256 now a cred presented o).0
          (with_verifier sha256 now a cred presented o).1
  unfolding with_verifier audit_record
  with_verifier-IsAudited cred presented none = (
    some cred.id,
    emit_audit-IsEvent (some cred.id) (some cred.credential_type) (some cred.consumer_id) failure,
  )
  with_verifier-IsAudited cred presented (some v) =
      audited-IsAudited cred (run_verifier sha256 now a v cred presented) (own_id v cred presented)

  with_record-IsAudited :
      (i : Option Uuid) (presented : String) (o : Option CredentialRecord)
      → IsAudited now
          (with_record sha256 now a i presented o).0
          (with_record sha256 now a i presented o).1
  unfolding with_record verify_with_record
  with_record-IsAudited i presented none = (i, emit_audit-IsEvent i none none failure)
  with_record-IsAudited i presented (some cred) =
      with_verifier-IsAudited cred presented (get a.verifiers cred.credential_type)

  -- With an audit sink, and by whichever way the credential is looked up, an attempt that succeeds is
  -- reported exactly once, with the id of the credential in its context, and an attempt that fails
  -- with an authentication error exactly once, as a failure. An attempt that ends in another exception
  -- is not reported.
  pub authenticate-IsAudited :
      (raw : String) (credential_id : Uuid) (presented : String)
      → IsAudited now (authenticate sha256 now a raw).0 (authenticate sha256 now a raw).1
        × IsAudited now
            (verify_by_credential_id sha256 now a credential_id presented).0
            (verify_by_credential_id sha256 now a credential_id presented).1
  unfolding authenticate verify_by_credential_id
  authenticate-IsAudited raw credential_id presented = (
    with_record-IsAudited none raw (find_record sha256 now a raw),
    with_record-IsAudited (some credential_id) presented
        (get_credential_by_id credential_id a.backend),
  )
