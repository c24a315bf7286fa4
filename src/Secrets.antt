-- ===== src/Secrets.antt =====
-- `SecretRegistry.resolve` (secrets/src/orxtra/secrets/_registry.py) and `EnvMacProvider`
-- (secrets/src/orxtra/secrets/_mac_provider.py). `hmac.new(key, message, algo).hexdigest()`, which
-- works on bytes, is the argument `hmac`.
use orxtra.Prelude.{
  ℕ, String, Bool, true, false, Option, none, some, List, [], ◌∷◌, map, string_eq, if◌then◌else◌,
  Result, ok, err, key_error, value_error,
}
use orxtra.Prelude.Dict.{Dict, get}
use orxtra.Prelude.Texts.{equal_lower}
use orxtra.Prelude.Bytes.{encode, compare_digest}
use Prim.Native.String.{◌++◌ as join}

-- `_secrets`, of which no value is empty.
abbrev pub Registry : Type 0
Registry = Dict String String

or_key_error : Option String → Result String
or_key_error none = err key_error
or_key_error (some value) = ok value

unfoldable pub resolve : Registry → String → Result String
unfolding or_key_error
resolve secrets name = or_key_error (get secrets name)

-- `_ALGORITHMS`
abbrev pub algorithms : Dict String String
algorithms =
    ("sha256", "sha256")
    ∷ ("hmac-sha256", "sha256")
    ∷ ("sha1", "sha1")
    ∷ ("hmac-sha1", "sha1")
    ∷ ("sha512", "sha512")
    ∷ ("hmac-sha512", "sha512")
    ∷ []

-- `_ALGORITHMS.get(algorithm.lower())`
unfoldable pub get_lower : (algorithm : String) → Dict String String → Option String
unfolding equal_lower
get_lower algorithm [] = none
get_lower algorithm ((name, algo) ∷ d) =
    if equal_lower algorithm name then some algo else get_lower algorithm d

-- What follows the name of the secret in a candidate, and the version.
abbrev pub version_suffixes : List (String × ℕ)
version_suffixes =
    (":1", 1)
    ∷ (":2", 2)
    ∷ (":3", 3)
    ∷ (":4", 4)
    ∷ (":5", 5)
    ∷ (":6", 6)
    ∷ (":7", 7)
    ∷ (":8", 8)
    ∷ (":9", 9)
    ∷ (":10", 10)
    ∷ []

unfoldable pub build_candidates : (key_ref : String) → List (String × Option ℕ)
build_candidates key_ref =
    (key_ref, none) ∷ map (λ s. (join key_ref s.0, some s.1)) version_suffixes

pub data MacOutcome : Type 0 where
  match mismatch : MacOutcome

pub record MacVerdict : Type 0 where
  pub outcome : MacOutcome
  pub secret_name : String
  pub algorithm : String
  pub matched_version : Option ℕ

unfoldable pub verdict_of : (key_ref algorithm : String) → Option (Option ℕ) → MacVerdict
verdict_of key_ref algorithm none = record {
  outcome = mismatch;
  secret_name = key_ref;
  algorithm = algorithm;
  matched_version = none;
}
verdict_of key_ref algorithm (some version) = record {
  outcome = match;
  secret_name = key_ref;
  algorithm = algorithm;
  matched_version = version;
}

-- The verdict that the loop ends in, unless a comparison raised.
unfoldable pub with_found :
    (key_ref algorithm : String) → Result (Option (Option ℕ)) → Result MacVerdict
unfolding verdict_of
with_found key_ref algorithm (err raised) = err raised
with_found key_ref algorithm (ok found) = ok (verdict_of key_ref algorithm found)

module _ (hmac : (algo : String) (key message : List ℕ) → String) where
  -- One round of the loop: whether the key of the candidate gives the signature.
  unfoldable pub signs :
      (secrets : Registry) (algo : String) (message : List ℕ) (signature name : String)
      → Result Bool
  unfolding resolve or_key_error compare_digest encode
  signs secrets algo message signature name = elim (resolve secrets name) [
    | err e ↦ ok false
    | ok key ↦ compare_digest (hmac algo (encode key) message) signature
  ]

  unfoldable pub try_candidates :
      (secrets : Registry) (algo : String) (message : List ℕ) (signature : String)
      → List (String × Option ℕ)
      → Result (Option (Option ℕ))
  unfolding signs
  try_candidates secrets algo message signature [] = ok none
  try_candidates secrets algo message signature ((name, version) ∷ candidates) =
      let rest = try_candidates secrets algo message signature candidates in
      elim (signs secrets algo message signature name) [
        | err raised ↦ err raised
        | ok true ↦ ok (some version)
        | ok false ↦ rest
      ]

  unfoldable pub verify :
      (secrets : Registry) (key_ref : String) (message : List ℕ) (signature algorithm : String)
      → Result MacVerdict
  unfolding get_lower try_candidates build_candidates with_found
  verify secrets key_ref message signature algorithm = elim (get_lower algorithm algorithms) [
    | none ↦ err value_error
    | some algo ↦
        with_found key_ref algorithm
          (try_candidates secrets algo message signature (build_candidates key_ref))
  ]
