-- ===== src/Incoming/Signed.antt =====
-- What the receiver presents is what the verifier of signatures reads
-- (incoming/src/orxtra/incoming/_receiver.py, auth/src/orxtra/auth/_verifiers.py and
-- secrets/src/orxtra/secrets/_mac_provider.py).
use orxtra.Prelude.{
  ◌≡◌, refl, sym, ◌∙◌, ap, subst, ℕ, String, Bool, true, false, Option, none, some, List, [], ◌∷◌,
  ◌==◌, string_eq, ok, Result-cases, arith, contains, map, Bool-cases, inl, inr,
}
use orxtra.Prelude.Texts.{cut_at, split, Lacks, cut_at-join, split-cut_at, startswith-join}
use orxtra.Prelude.Bytes.{encode, is_ascii, compare_digest}
use text.Mathlib.TextLemmas.{append_assoc}
use Prim.Native.String.{◌++◌ as join}
use orxtra.Secrets.{
  Registry, resolve, signs, try_candidates, build_candidates, get_lower, algorithms, MacVerdict,
  match, verify, verdict_of, with_found,
}
use orxtra.Prelude.Ids.{Time}
use orxtra.Auth.Backend.{AuthBackend, ConsumerRecord, CredentialRecord, get_consumer}
use orxtra.Auth.Verifiers.{
  build_auth_context, with_consumer, with_outcome, with_verdict, with_parts, with_key_ref,
  verify_hmac,
}
use orxtra.Incoming.Extraction.{behind_sign, strip_algorithm, hmac_credential}

strip_algorithm-join : (hex : String) → strip_algorithm (join "sha256=" hex) ≡ hex
unfolding strip_algorithm behind_sign
strip_algorithm-join hex =
    let e : cut_at b'=' (join "sha256=" hex) ≡ some ("sha256", hex) =
      ap (cut_at b'=') (append_assoc "sha256" "=" hex)
      ∙ cut_at-join b'=' "sha256" "=" hex (ground arith) refl in
    rw (startswith-join "sha256=" hex, e) refl

split_0 : (sep : ℕ) (s : String) → split sep 0 s ≡ s ∷ []
unfolding split
split_0 sep s = refl

split-hmac_credential :
    (signature body : String)
    → Lacks b':' (strip_algorithm signature)
    → split b':' 2 (hmac_credential signature body) ≡ "_" ∷ strip_algorithm signature ∷ body ∷ []
unfolding hmac_credential
split-hmac_credential signature body l =
    let hex = strip_algorithm signature in
    split-cut_at b':' 1 _ "_" (join hex (join ":" body))
      (cut_at-join b':' "_" ":" (join hex (join ":" body)) (ground arith) refl)
    ∙ ap (λ r. "_" ∷ r)
        (split-cut_at b':' 0 _ hex body (cut_at-join b':' hex ":" body l refl)
          ∙ ap (λ r. hex ∷ r) (split_0 b':' body))

module _ (hmac : (algo : String) (key message : List ℕ) → String)
    (ascii : (algo : String) (key message : List ℕ) → is_ascii (hmac algo key message) ≡ true)
    (secrets : Registry) where
  compare_digest_lem :
      (algo a : String) (key message : List ℕ)
      → is_ascii a ≡ true
      → compare_digest (hmac algo key message) a ≡ ok (hmac algo key message == a)
  unfolding compare_digest
  compare_digest_lem algo a key message h = rw (ascii algo key message, h) refl

  -- No candidate makes the comparison raise, and one with the key of the digest signs it.
  signs_lem :
      (algo digest name : String) (message : List ℕ)
      → is_ascii digest ≡ true
      → (b : Bool) × (signs hmac secrets algo message digest name ≡ ok b)
        × ((key : String)
            → resolve secrets name ≡ ok key
            → hmac algo (encode key) message ≡ digest
            → b ≡ true)
  unfolding signs
  signs_lem algo digest name message h = elim (Result-cases (resolve secrets name)) [
    | inl (e, missing) ↦ (false, rw (missing, signs) refl, λ key r p. cc)
    | inr (k, found) ↦ (
      hmac algo (encode k) message == digest,
      rw (found, signs) (compare_digest_lem algo digest (encode k) message h),
      λ key r p.
          let same : ok k ≡ ok key = sym found ∙ r in
          let d : hmac algo (encode k) message ≡ digest = cc in (string_eq.beq_iff _ digest).1 d,
    )
  ]

  -- A candidate whose key gives the signature is found.
  try_candidates-found :
      (algo name key : String) (message : List ℕ) (candidates : List (String × Option ℕ))
      → contains (map (λ c. c.0) candidates) name ≡ true
      → resolve secrets name ≡ ok key
      → (version : Option ℕ) × (try_candidates hmac secrets algo message
            (hmac algo (encode key) message)
            candidates
          ≡ ok (some version))
  unfolding try_candidates
  try_candidates-found algo name key message [] h r = cc
  try_candidates-found algo name key message ((other, version) ∷ candidates) h r =
      let digest = hmac algo (encode key) message in
      let (b, signed, own) =
        signs_lem algo digest other message (ascii algo (encode key) message) in
      elim (Bool-cases b) [
        | inl matches ↦ (version, rw (signed ∙ ap ok matches, try_candidates) refl)
        | inr differs ↦ elim (Bool-cases (other == name)) [
          | inl same ↦
              let p : other ≡ name = (string_eq.beq_iff other name).0 same in
              let matches : b ≡ true =
                own key (subst (λ n. resolve secrets n ≡ ok key) (sym p) r) refl in
              cc
          | inr differ ↦
              let (v, found) =
                try_candidates-found algo name key message candidates (rw differ at h) r in
              (v, rw (signed ∙ ap ok differs, try_candidates) found)
        ]
      ]

  -- A verdict on a signature made with a registered version of the key.
  verify_found :
      (key_ref algorithm algo name key : String) (message : List ℕ)
      → get_lower algorithm algorithms ≡ some algo
      → contains (map (λ c. c.0) (build_candidates key_ref)) name ≡ true
      → resolve secrets name ≡ ok key
      → (verdict : MacVerdict) × (verify hmac secrets key_ref message
            (hmac algo (encode key) message)
            algorithm
          ≡ ok verdict)
        × (verdict.outcome ≡ match)
  unfolding verdict_of verify with_found
  verify_found key_ref algorithm algo name key message supported candidate r =
      let (version, found) =
        try_candidates-found algo name key message (build_candidates key_ref) candidate r in
      (verdict_of key_ref algorithm (some version), rw (supported, verify) (rw found refl), refl)

  -- Signing and receiving round trip: where a sender signs the bytes of a body with any registered
  -- version of the key that the credential names, under an algorithm that the provider supports, and
  -- sends the digest behind "sha256=", the text that the receiver makes of header and body passes
  -- the HMAC verifier, and the context is that of the enabled consumer. The body is valid UTF-8:
  -- encoding its decoded text gives it back. Digests are ASCII, and this one holds no colon, as
  -- hexadecimal texts do not.
  pub verify_hmac-hmac_credential :
      (decode : List ℕ → String) (now : Time) (b : AuthBackend) (cred : CredentialRecord)
      (consumer : ConsumerRecord) (key_ref algo name key : String) (body : List ℕ)
      → cred.secret_ref ≡ some key_ref
      → get_lower cred.algorithm algorithms ≡ some algo
      → contains (map (λ c. c.0) (build_candidates key_ref)) name ≡ true
      → resolve secrets name ≡ ok key
      → encode (decode body) ≡ body
      → Lacks b':' (hmac algo (encode key) body)
      → get_consumer cred.consumer_id b ≡ some consumer
      → consumer.disabled_at ≡ none
      → verify_hmac
          (verify hmac secrets)
          now
          b
          cred
          (hmac_credential (join "sha256=" (hmac algo (encode key) body)) (decode body))
        ≡ ok (build_auth_context now cred consumer)
  unfolding verify_hmac with_key_ref with_parts with_verdict with_outcome with_consumer
  verify_hmac-hmac_credential decode now b cred consumer key_ref algo name key body ref supported
        candidate r valid hex stored enabled =
      let digest = hmac algo (encode key) body in
      let (verdict, said, matched) =
        verify_found key_ref cred.algorithm algo name key body supported candidate r in
      let stripped = strip_algorithm-join digest in
      let parts : split b':' 2 (hmac_credential (join "sha256=" digest) (decode body))
          ≡ "_" ∷ digest ∷ decode body ∷ [] =
        split-hmac_credential (join "sha256=" digest) (decode body)
          (subst (Lacks b':') (sym stripped) hex)
        ∙ rw stripped refl in
      let heard : verify hmac secrets key_ref (encode (decode body)) digest cred.algorithm
          ≡ ok verdict =
        rw valid said in
      rw (ref, with_key_ref)
        (rw (parts, with_parts)
          (rw (heard, with_verdict)
            (rw (matched, with_outcome) (rw (stored, with_consumer) (rw enabled refl)))))
