-- ===== src/Samples/Webhooks.antt =====
-- Applications of the theorems on principals, webhooks and workers
-- (identity/src/orxtra/identity, incoming/src/orxtra/incoming and worker/src/orxtra/worker).
use orxtra.Prelude.{
  ◌≡◌, refl, ℕ, String, List, Option, none, some, true, [], ◌∷◌, nat_eq, string_eq, Result, ok,
  arith, Bool, length, ◌+◌, ◌==◌, inl, inr, Bool-cases, if◌then◌else◌,
}
use orxtra.Prelude.Ids.{Uuid}
use orxtra.Prelude.Json.{Json, object, member, end, text}
use orxtra.Prelude.Dict.{get, put}
use orxtra.Prelude.Bytes.{encode, is_ascii}
use Prim.Native.String.{◌++◌ as join}
use orxtra.Secrets.{Registry, verify, get_lower, build_candidates, resolve}
use orxtra.Auth.Backend.{
  CredentialRecord, new_consumer, verified, get_consumer, create_consumer, create_credential,
}
use orxtra.Auth.Verifiers.{verify_hmac, build_auth_context}
use orxtra.Dispatch.Backend.{Backend, Source, empty_backend, create_source}
use orxtra.Identity.{Principal, Principals, mint_principal}
use orxtra.Identity.Minting.{Call, mints, deletes, run, IsOne, mint_principal_once}
use orxtra.Incoming.Extraction.{Request, hmac_credential}
use orxtra.Incoming.Receiver.{FiredEvent, webhook_handler}
use orxtra.Incoming.Signed.{verify_hmac-hmac_credential}
use orxtra.Incoming.Authentic.{Genuine, webhook_handler-Genuine}
use orxtra.Worker.Registry.{
  WorkerInfo, Registry as Workers, empty_registry, register, get_worker, get_worker_for_root,
}
use orxtra.Worker.Registry.Exclusive.{empty, registered, Reachable-one_per_root}
use orxtra.Samples.Access.{digest, bearer, stored}

abbrev calls : List Call
calls = mints 1 10 "consumer" 7 none ∷ mints 2 11 "run" 8 (some "nightly") ∷ deletes 1 ∷ []

mint_principal_once_example :
    let ps = run calls [] in
    let first = mint_principal 3 12 "consumer" 7 none ps in
    IsOne ps × (mint_principal 4 13 "consumer" 7 (some "ci") first.1 ≡ (first.0, first.1))
mint_principal_once_example = mint_principal_once calls 3 4 12 13 "consumer" 7 none (some "ci")

-- A digest that tells only how long key and message are together.
abbrev mac : (algo : String) (key message : List ℕ) → String
mac algo key message = if length key + length message == 4 then "5ca1ab1e" else "c0ffee"

mac_ascii : (algo : String) (key message : List ℕ) → is_ascii (mac algo key message) ≡ true
unfolding is_ascii
mac_ascii algo key message = elim (Bool-cases (length key + length message == 4)) [
  | inl four ↦ rw four refl
  | inr other ↦ rw other refl
]

abbrev secrets : Registry
secrets = ("hook:2", "h0") ∷ []

abbrev hook : CredentialRecord
hook = record {
  id = 9;
  consumer_id = 7;
  credential_type = "hmac";
  credential_hash = "";
  algorithm = "sha256";
  metadata = object end;
  secret_ref = some "hook";
  created_at = 2;
}

-- The text of the one body that is sent.
abbrev decode : List ℕ → String
decode body = "{}"

verify_hmac-hmac_credential_example :
    verify_hmac (verify mac secrets) 5 stored hook (
      hmac_credential
        (join "sha256=" (mac "sha256" (encode "h0") (encode "{}")))
        (decode (encode "{}")))
    ≡ ok (build_auth_context 5 hook (new_consumer 1 "ci" verified ("events:write" ∷ []) 7 70))
unfolding get_lower build_candidates resolve create_consumer create_credential get_consumer get put
    encode
verify_hmac-hmac_credential_example =
    verify_hmac-hmac_credential mac mac_ascii secrets decode 5 stored hook
      (new_consumer 1 "ci" verified ("events:write" ∷ []) 7 70) "hook" "sha256" "hook:2" "h0"
      (encode "{}") refl refl refl refl refl (ground arith) refl refl

abbrev config : Json
config =
    object
      (member "event_type_source" (text "constant") (member "event_type_field" (text "push") end))

abbrev source : Source
source = record {
  id = 5;
  slug = "ci";
  name = "ci";
  credential_id = some 9;
  config = some config;
  created_by = 1;
  created_at = 1;
}

abbrev sources : Backend
sources = (create_source source empty_backend).1

abbrev owner : Principal
owner = record { id = 50; kind = "source"; external_ref = 5; display_name = none; created_at = 1 }

abbrev owners : Principals
owners = (50, owner) ∷ []

abbrev request : Request
request = record { slug = "ci"; body = 123 ∷ 125 ∷ []; header = λ name. some "Bearer token" }

abbrev loads : List ℕ → Option Json
loads body = some (object end)

abbrev fire : FiredEvent → Result (Uuid × Bool)
fire event = ok (77, true)

webhook_handler-Genuine_example :
    Genuine decode loads request fire digest 5 1_048_576 sources bearer owners (record {
      principal = owner;
      event_name = text "push";
      payload = object end;
      idempotency_key = none;
    })
unfolding webhook_handler create_source create_consumer create_credential get put
webhook_handler-Genuine_example =
    webhook_handler-Genuine decode loads request fire digest 5 1_048_576 sources bearer owners _
      refl

abbrev one_worker : Workers
one_worker = (register 1 (some 7) "/srv/app" [] 0 empty_registry).1

Reachable-one_per_root_example :
    ((i j : Uuid) (v w : WorkerInfo)
      → get_worker i one_worker ≡ some v
      → get_worker j one_worker ≡ some w
      → v.root ≡ w.root
      → i ≡ j)
    × ((i : Uuid) (v : WorkerInfo)
        → get_worker i one_worker ≡ some v
        → get_worker_for_root v.root one_worker ≡ some v)
    × ((root : String) (v : WorkerInfo)
        → get_worker_for_root root one_worker ≡ some v
        → v.root ≡ root)
unfolding get_worker get
Reachable-one_per_root_example =
    Reachable-one_per_root (registered empty 1 (some 7) "/srv/app" [] 0 refl)
