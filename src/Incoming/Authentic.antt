-- ===== src/Incoming/Authentic.antt =====
-- What has to hold before an external event is fired (incoming/src/orxtra/incoming/_receiver.py).
use orxtra.Prelude.{
  ◌≡◌, refl, ℕ, ◌≤◌, String, Bool, Option, none, some, List, ltb, length, Result, ok, err, arith,
  Bool-cases, inl, inr,
}
use orxtra.Prelude.Ids.{Uuid, Time}
use orxtra.Prelude.Json.{Json, or_empty}
use orxtra.Dispatch.Backend.{Source, Backend, get_source_by_slug}
use orxtra.Identity.{Principal, Principals, kind_source, get_principal_by_ref}
use orxtra.Auth.Backend.{CredentialRecord, get_credential_by_id}
use orxtra.Auth.Verifiers.{AuthContext}
use orxtra.Auth.Authenticator.{AuthAuditEvent, Authenticator, verify_by_credential_id}
use orxtra.Auth.Soundness.{Verified}
use orxtra.Auth.Decisions.{verify_by_credential_id_sound}
use orxtra.Incoming.Extraction.{
  Request, build_presented_credential, extract_event_type, extract_idempotency_key,
}
use orxtra.Incoming.Receiver.{
  FiredEvent, respond, with_payload, with_event_type, with_principal, with_attempt, with_presented,
  with_credential, with_source, webhook_handler,
}

module _ (decode : List ℕ → String) (loads : List ℕ → Option Json) (request : Request) where
  -- An event is what the request says, in the name of the source's principal.
  pub record Faithful (config : Json) (principal : Principal) (event : FiredEvent) : Type 0 where
    pub named : extract_event_type loads request config ≡ ok event.event_name
    pub parsed : loads request.body ≡ some event.payload
    pub attributed : event.principal ≡ principal
    pub keyed : event.idempotency_key ≡ extract_idempotency_key request config

  module _ (fire_event : FiredEvent → Result (Uuid × Bool)) (audit : List AuthAuditEvent) where
    respond_fired :
        (e event : FiredEvent) (r : Result (Uuid × Bool))
        → (respond decode loads request fire_event audit e r).fired ≡ some event
        → e ≡ event
    unfolding respond
    respond_fired e event (err raised) h = cc
    respond_fired e event (ok (i, new)) h = cc

    with_payload_fired :
        (config : Json) (principal : Principal) (event_type : Json) (o : Option Json)
        (event : FiredEvent)
        → extract_event_type loads request config ≡ ok event_type
        → loads request.body ≡ o
        → (with_payload decode loads request fire_event audit config principal event_type o).fired
          ≡ some event
        → Faithful config principal event
    unfolding with_payload
    with_payload_fired config principal event_type none event t p h = cc
    with_payload_fired config principal event_type (some payload) event t p h =
        let e : FiredEvent = record {
          principal = principal;
          event_name = event_type;
          payload = payload;
          idempotency_key = extract_idempotency_key request config;
        } in
        let q = respond_fired e event (fire_event e) h in
        rw (← q) (record { named = t; parsed = p; attributed = refl; keyed = refl })

    with_event_type_fired :
        (config : Json) (principal : Principal) (r : Result Json) (event : FiredEvent)
        → extract_event_type loads request config ≡ r
        → (with_event_type decode loads request fire_event audit config principal r).fired
          ≡ some event
        → Faithful config principal event
    unfolding with_event_type
    with_event_type_fired config principal (ok event_type) event e h =
        with_payload_fired config principal event_type (loads request.body) event e refl h
    with_event_type_fired config principal (err raised) event e h = ground arith

    with_principal_fired :
        (config : Json) (o : Option Principal) (event : FiredEvent)
        → (with_principal decode loads request fire_event audit config o).fired ≡ some event
        → (principal : Principal) × (o ≡ some principal) × Faithful config principal event
    unfolding with_principal
    with_principal_fired config none event h = cc
    with_principal_fired config (some principal) event h =
        (principal, refl, with_event_type_fired config principal _ event refl h)

  module _ (fire_event : FiredEvent → Result (Uuid × Bool)) (sha256 : String → String) (now : Time)
      (max_body_bytes : ℕ) (backend : Backend) (authenticator : Authenticator)
      (principals : Principals) where
    -- The source that the request names, what it presents, and whose credential that proves.
    pub record Genuine (event : FiredEvent) : Type 0 where
      pub source : Source
      pub credential_id : Uuid
      pub presented : String
      pub cred : CredentialRecord
      pub context : AuthContext
      pub principal : Principal
      pub small : length request.body ≤ max_body_bytes
      pub named_source : get_source_by_slug request.slug backend ≡ some source
      pub of_source : source.credential_id ≡ some credential_id
      pub extracted :
          build_presented_credential decode request (or_empty source.config) ≡ ok presented
      pub stored : get_credential_by_id credential_id authenticator.backend ≡ some cred
      pub verified : Verified sha256 now authenticator cred presented context
      pub owner : get_principal_by_ref kind_source source.id principals ≡ some principal
      pub faithful : Faithful (or_empty source.config) principal event

    with_attempt_fired :
        (source : Source) (attempt : Result AuthContext × List AuthAuditEvent) (event : FiredEvent)
        → (with_attempt decode loads request fire_event sha256 now max_body_bytes backend
            authenticator principals source attempt).fired
          ≡ some event
        → (context : AuthContext) × (principal : Principal) × (attempt.0 ≡ ok context)
          × (get_principal_by_ref kind_source source.id principals ≡ some principal)
          × Faithful (or_empty source.config) principal event
    unfolding with_attempt
    with_attempt_fired source (err raised, audit) event h = ground arith
    with_attempt_fired source (ok context, audit) event h =
        let (principal, owner, faithful) =
          with_principal_fired fire_event audit (or_empty source.config) _ event h in
        (context, principal, refl, owner, faithful)

    with_presented_fired :
        (source : Source) (credential_id : Uuid) (r : Result String) (event : FiredEvent)
        → length request.body ≤ max_body_bytes
        → get_source_by_slug request.slug backend ≡ some source
        → source.credential_id ≡ some credential_id
        → build_presented_credential decode request (or_empty source.config) ≡ r
        → (with_presented decode loads request fire_event sha256 now max_body_bytes backend
            authenticator principals source credential_id r).fired
          ≡ some event
        → Genuine event
    unfolding with_presented
    with_presented_fired source i (err raised) event small n o e h = cc
    with_presented_fired source i (ok presented) event small n o e h =
        let (context, principal, passed, owner, faithful) =
          with_attempt_fired source (verify_by_credential_id sha256 now authenticator i presented)
            event h in
        let (cred, stored, verified) =
          verify_by_credential_id_sound sha256 now authenticator i presented context passed in
        record {
          source = source;
          credential_id = i;
          presented = presented;
          cred = cred;
          context = context;
          principal = principal;
          small = small;
          named_source = n;
          of_source = o;
          extracted = e;
          stored = stored;
          verified = verified;
          owner = owner;
          faithful = faithful;
        }

    with_credential_fired :
        (source : Source) (o : Option Uuid) (event : FiredEvent)
        → length request.body ≤ max_body_bytes
        → get_source_by_slug request.slug backend ≡ some source
        → source.credential_id ≡ o
        → (with_credential decode loads request fire_event sha256 now max_body_bytes backend
            authenticator principals source o).fired
          ≡ some event
        → Genuine event
    unfolding with_credential
    with_credential_fired source none event small n c h = cc
    with_credential_fired source (some i) event small n c h =
        with_presented_fired source i _ event small n c refl h

    with_source_fired :
        (o : Option Source) (event : FiredEvent)
        → length request.body ≤ max_body_bytes
        → get_source_by_slug request.slug backend ≡ o
        → (with_source decode loads request fire_event sha256 now max_body_bytes backend
            authenticator principals o).fired
          ≡ some event
        → Genuine event
    unfolding with_source
    with_source_fired none event small n h = cc
    with_source_fired (some source) event small n h =
        with_credential_fired source source.credential_id event small n refl h

    -- An event that a webhook request fires is genuine: the body is within the limit, the slug names
    -- a source that has a credential, the text presented by the request under the source's
    -- configuration proves that credential for an enabled consumer, the event is attributed to the
    -- principal of the source, its name and idempotency key are those that the configuration points
    -- at, and its payload is the parsed body.
    pub webhook_handler-Genuine :
        (event : FiredEvent)
        → (webhook_handler decode loads request fire_event sha256 now max_body_bytes backend
            authenticator principals).fired
          ≡ some event
        → Genuine event
    unfolding webhook_handler
    webhook_handler-Genuine event h = elim (Bool-cases (ltb max_body_bytes (length request.body))) [
      | inl large ↦ let e : none ≡ some event = rw large at h in cc
      | inr small ↦
          with_source_fired (get_source_by_slug request.slug backend) event (ground arith) refl
            (rw small at h)
    ]
