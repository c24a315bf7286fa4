-- ===== src/Auth/Soundness.antt =====
-- What a successful authentication rests on (auth/src/orxtra/auth).
use orxtra.Prelude.{
  ◌≡◌, refl, sym, String, Option, none, some, List, [], ◌∷◌, ◌==◌, string_eq, nat_eq, Result, ok,
  err, inl, inr, Bool-cases, Option-cases, arith,
}
use orxtra.Prelude.Ids.{Uuid, Time}
use orxtra.Prelude.Dict.{get}
use orxtra.Prelude.Texts.{split}
use orxtra.Prelude.Bytes.{encode}
use orxtra.Secrets.{MacOutcome, MacVerdict, match, mismatch}
use orxtra.Auth.Backend.{ConsumerRecord, CredentialRecord, AuthBackend, get_consumer}
use orxtra.Auth.Verifiers.{
  AuthContext, MacProvider, build_auth_context, with_consumer, verify_hash, with_outcome,
  with_verdict, with_parts, with_key_ref, verify_hmac,
}
use orxtra.Auth.Authenticator.{
  Verifier, hash_verifier, hmac_verifier, Authenticator, run_verifier, audited, with_verifier,
  verify_with_record, with_record,
}

-- The presented text proves the credential: its hash is the stored one, or the provider accepts the
-- signature that it carries under the credential's key.
pub data Proves (sha256 : String → String) (cred : CredentialRecord) (presented : String)
    : Verifier → Type 0 where
  by_hash :
      (t : String)
      → sha256 presented ≡ cred.credential_hash
      → Proves sha256 cred presented (hash_verifier t)
  by_mac :
      (mac : MacProvider) (key_ref name signature message : String) (verdict : MacVerdict)
      → cred.secret_ref ≡ some key_ref
      → split b':' 2 presented ≡ name ∷ signature ∷ message ∷ []
      → mac key_ref (encode message) signature cred.algorithm ≡ ok verdict
      → verdict.outcome ≡ match
      → Proves sha256 cred presented (hmac_verifier mac)

-- The consumer behind a context: stored, enabled, and the one that the context describes.
pub record Grants (now : Time) (b : AuthBackend) (cred : CredentialRecord) (context : AuthContext)
    : Type 0 where
  pub consumer : ConsumerRecord
  pub stored : get_consumer cred.consumer_id b ≡ some consumer
  pub enabled : consumer.disabled_at ≡ none
  pub described : context ≡ build_auth_context now cred consumer

module _ (sha256 : String → String) (now : Time) where
  with_consumer-Grants :
      (b : AuthBackend) (cred : CredentialRecord) (o : Option ConsumerRecord)
      (context : AuthContext)
      → get_consumer cred.consumer_id b ≡ o
      → with_consumer now cred o ≡ ok context
      → Grants now b cred context
  unfolding with_consumer
  with_consumer-Grants b cred none context e h = cc
  with_consumer-Grants b cred (some consumer) context e h =
      elim (Option-cases consumer.disabled_at) [
        | inl none_ ↦ record {
          consumer = consumer;
          stored = e;
          enabled = none_;
          described = ground arith;
        }
        | inr (t, found) ↦ ground arith
      ]

  verify_hash_lem :
      (b : AuthBackend) (cred : CredentialRecord) (presented : String) (context : AuthContext)
      → verify_hash sha256 now b cred presented ≡ ok context
      → (sha256 presented ≡ cred.credential_hash) × Grants now b cred context
  unfolding verify_hash
  verify_hash_lem b cred presented context h =
      let stored = get_consumer cred.consumer_id b in
      elim (Bool-cases (cred.credential_hash == sha256 presented)) [
        | inl same ↦
            let granted : with_consumer now cred stored ≡ ok context = rw same at h in
            (
              sym ((string_eq.beq_iff _ _).0 same),
              with_consumer-Grants b cred stored context refl granted,
            )
        | inr differ ↦ ground arith
      ]

  with_outcome_lem :
      (b : AuthBackend) (cred : CredentialRecord) (o : MacOutcome) (context : AuthContext)
      → with_outcome now b cred o ≡ ok context
      → (o ≡ match) × Grants now b cred context
  unfolding with_outcome
  with_outcome_lem b cred match context h =
      (refl, with_consumer-Grants b cred (get_consumer cred.consumer_id b) context refl h)
  with_outcome_lem b cred mismatch context h = cc

  with_verdict_lem :
      (b : AuthBackend) (cred : CredentialRecord) (r : Result MacVerdict) (context : AuthContext)
      → with_verdict now b cred r ≡ ok context
      → (verdict : MacVerdict) × (r ≡ ok verdict)
        × (verdict.outcome ≡ match)
        × Grants now b cred context
  unfolding with_verdict
  with_verdict_lem b cred (err raised) context h = cc
  with_verdict_lem b cred (ok verdict) context h =
      let (matched, granted) = with_outcome_lem b cred verdict.outcome context h in
      (verdict, refl, matched, granted)

  -- What the HMAC verifier found, by the parts of the presented text.
  with_parts_lem :
      (mac : MacProvider) (b : AuthBackend) (cred : CredentialRecord) (key_ref : String)
      (parts : List String) (context : AuthContext)
      → with_parts mac now b cred key_ref parts ≡ ok context
      → (name : String) × (signature : String) × (message : String) × (verdict : MacVerdict)
        × (parts ≡ name ∷ signature ∷ message ∷ [])
        × (mac key_ref (encode message) signature cred.algorithm ≡ ok verdict)
        × (verdict.outcome ≡ match)
        × Grants now b cred context
  unfolding with_parts with_verdict
  with_parts_lem mac b cred key_ref [] context h = cc
  with_parts_lem mac b cred key_ref (n ∷ []) context h = cc
  with_parts_lem mac b cred key_ref (n ∷ s ∷ []) context h = cc
  with_parts_lem mac b cred key_ref (n ∷ s ∷ m ∷ x ∷ r) context h = cc
  with_parts_lem mac b cred key_ref (n ∷ s ∷ m ∷ []) context h =
      let (verdict, said, matched, granted) = with_verdict_lem b cred _ context h in
      (n, s, m, verdict, refl, said, matched, granted)

  verify_hmac_lem :
      (mac : MacProvider) (b : AuthBackend) (cred : CredentialRecord) (presented : String)
      (o : Option String) (context : AuthContext)
      → cred.secret_ref ≡ o
      → with_key_ref mac now b cred presented o ≡ ok context
      → Proves sha256 cred presented (hmac_verifier mac) × Grants now b cred context
  unfolding with_key_ref
  verify_hmac_lem mac b cred presented none context e h = cc
  verify_hmac_lem mac b cred presented (some key_ref) context e h =
      let (n, s, m, verdict, parts, said, matched, granted) =
        with_parts_lem mac b cred key_ref (split b':' 2 presented) context h in
      (by_mac mac key_ref n s m verdict e parts said matched, granted)

  -- What every success of the authenticator rests on.
  pub run_verifier_lem :
      (a : Authenticator) (v : Verifier) (cred : CredentialRecord) (presented : String)
      (context : AuthContext)
      → run_verifier sha256 now a v cred presented ≡ ok context
      → Proves sha256 cred presented v × Grants now a.backend cred context
  unfolding run_verifier verify_hmac
  run_verifier_lem a (hash_verifier t) cred presented context h =
      let (same, granted) = verify_hash_lem a.backend cred presented context h in
      (by_hash t same, granted)
  run_verifier_lem a (hmac_verifier mac) cred presented context h =
      verify_hmac_lem mac a.backend cred presented cred.secret_ref context refl h

  -- The credential's type has a verifier that the presented text satisfies, and the context is that
  -- of its enabled consumer.
  pub record Verified (a : Authenticator) (cred : CredentialRecord) (presented : String)
      (context : AuthContext) : Type 0 where
    pub verifier : Verifier
    pub registered : get a.verifiers cred.credential_type ≡ some verifier
    pub proven : Proves sha256 cred presented verifier
    pub granted : Grants now a.backend cred context

  audited_lem :
      (a : Authenticator) (cred : CredentialRecord) (r : Result AuthContext) (context : AuthContext)
      → (audited sha256 now a cred r).0 ≡ ok context
      → r ≡ ok context
  unfolding audited
  audited_lem a cred (ok c) context h = h
  audited_lem a cred (err e) context h = ground arith

  with_verifier_lem :
      (a : Authenticator) (cred : CredentialRecord) (presented : String) (o : Option Verifier)
      (context : AuthContext)
      → get a.verifiers cred.credential_type ≡ o
      → (with_verifier sha256 now a cred presented o).0 ≡ ok context
      → Verified a cred presented context
  unfolding with_verifier
  with_verifier_lem a cred presented none context e h = cc
  with_verifier_lem a cred presented (some v) context e h =
      let (proven, granted) =
        run_verifier_lem a v cred presented context (audited_lem a cred _ context h) in
      record { verifier = v; registered = e; proven = proven; granted = granted }

  pub with_record_lem :
      (a : Authenticator) (cid : Option Uuid) (presented : String) (o : Option CredentialRecord)
      (context : AuthContext)
      → (with_record sha256 now a cid presented o).0 ≡ ok context
      → (cred : CredentialRecord) × (o ≡ some cred) × Verified a cred presented context
  unfolding with_record verify_with_record
  with_record_lem a cid presented none context h = cc
  with_record_lem a cid presented (some cred) context h =
      (cred, refl, with_verifier_lem a cred presented _ context refl h)
