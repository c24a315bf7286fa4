-- ===== src/Incoming/Receiver.antt =====
-- `webhook_handler` (incoming/src/orxtra/incoming/_receiver.py). The outcome of `fire_event` is an
-- argument, and its calls are recorded.
use orxtra.Prelude.{
  ℕ, Bool, Option, none, some, List, [], ltb, length, if◌then◌else◌, String, Result, ok, err,
  validation_error, authentication_error,
}
use orxtra.Prelude.Ids.{Uuid, Time}
use orxtra.Prelude.Json.{Json, or_empty}
use orxtra.Dispatch.Backend.{Source, Backend, get_source_by_slug}
use orxtra.Identity.{Principal, Principals, kind_source, get_principal_by_ref}
use orxtra.Auth.Verifiers.{AuthContext}
use orxtra.Auth.Authenticator.{AuthAuditEvent, Authenticator, verify_by_credential_id}
use orxtra.Incoming.Extraction.{
  Request, build_presented_credential, extract_event_type, extract_idempotency_key,
}

-- What `fire_event` is called with.
pub record FiredEvent : Type 0 where
  pub principal : Principal
  pub event_name : Json
  pub payload : Json
  pub idempotency_key : Option String

pub data Response : Type 0 where
  text_response : (status : ℕ) → Response
  json_response : (status : ℕ) (event_id : Uuid) (inserted : Bool) → Response

-- The response or an exception that leaves the handler, the audit events and the fired event.
pub record Handled : Type 0 where
  pub outcome : Result Response
  pub audit : List AuthAuditEvent
  pub fired : Option FiredEvent

abbrev refuse : (status : ℕ) → List AuthAuditEvent → Handled
refuse status audit = record { outcome = ok (text_response status); audit = audit; fired = none }

module _ (decode : List ℕ → String) (loads : List ℕ → Option Json) (request : Request) where
  module _ (fire_event : FiredEvent → Result (Uuid × Bool)) (audit : List AuthAuditEvent) where
    unfoldable pub respond : FiredEvent → Result (Uuid × Bool) → Handled
    respond event (err raised) = record { outcome = err raised; audit = audit; fired = some event }
    respond event (ok (event_id, inserted)) = record {
      outcome = ok (json_response 202 event_id inserted);
      audit = audit;
      fired = some event;
    }

    -- From the parsed body on.
    unfoldable pub with_payload :
        (config : Json) (principal : Principal) (event_type : Json) → Option Json → Handled
    unfolding respond extract_idempotency_key
    with_payload config principal event_type none = refuse 400 audit
    with_payload config principal event_type (some payload) =
        let event : FiredEvent = record {
          principal = principal;
          event_name = event_type;
          payload = payload;
          idempotency_key = extract_idempotency_key request config;
        } in
        respond event (fire_event event)

    unfoldable pub with_event_type : (config : Json) (principal : Principal) → Result Json → Handled
    unfolding with_payload
    with_event_type config principal (err validation_error) = refuse 400 audit
    with_event_type config principal (err raised) = record {
      outcome = err raised;
      audit = audit;
      fired = none;
    }
    with_event_type config principal (ok event_type) =
        with_payload config principal event_type (loads request.body)

    unfoldable pub with_principal : (config : Json) → Option Principal → Handled
    unfolding with_event_type extract_event_type
    with_principal config none = refuse 500 audit
    with_principal config (some principal) =
        with_event_type config principal (extract_event_type loads request config)

  module _ (fire_event : FiredEvent → Result (Uuid × Bool)) (sha256 : String → String) (now : Time)
      (max_body_bytes : ℕ) (backend : Backend) (authenticator : Authenticator)
      (principals : Principals) where
    -- What follows the verification of the credential.
    unfoldable pub with_attempt :
        (source : Source) → Result AuthContext × List AuthAuditEvent → Handled
    unfolding with_principal get_principal_by_ref
    with_attempt source (ok context, audit) =
        with_principal fire_event audit (or_empty source.config)
          (get_principal_by_ref kind_source source.id principals)
    with_attempt source (err authentication_error, audit) = refuse 401 audit
    with_attempt source (err raised, audit) = record {
      outcome = err raised;
      audit = audit;
      fired = none;
    }

    unfoldable pub with_presented :
        (source : Source) (credential_id : Uuid) → Result String → Handled
    unfolding with_attempt verify_by_credential_id
    with_presented source credential_id (err raised) = refuse 401 []
    with_presented source credential_id (ok presented) =
        with_attempt source
          (verify_by_credential_id sha256 now authenticator credential_id presented)

    unfoldable pub with_credential : (source : Source) → Option Uuid → Handled
    unfolding with_presented build_presented_credential
    with_credential source none = refuse 403 []
    with_credential source (some credential_id) =
        with_presented source credential_id
          (build_presented_credential decode request (or_empty source.config))

    unfoldable pub with_source : Option Source → Handled
    unfolding with_credential
    with_source none = refuse 404 []
    with_source (some source) = with_credential source source.credential_id

    unfoldable pub webhook_handler : Handled
    unfolding with_source get_source_by_slug
    webhook_handler =
        if ltb max_body_bytes (length request.body)
        then refuse 413 []
        else with_source (get_source_by_slug request.slug backend)
