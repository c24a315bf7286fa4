-- ===== src/Auth/Disabled.antt =====
-- A disabled consumer cannot authenticate (auth/src/orxtra/auth).
use mathlib.Core.Option
use orxtra.Prelude.{
  ◌≡◌, ◌≢◌, refl, sym, ◌∙◌, ap, subst, String, true, false, Option, none, some, List, ◌==◌,
  string_eq, nat_eq, if◌then◌else◌, ok, ◌⊎◌, inl, inr, Bool-cases, Option-cases, arith,
}
use orxtra.Prelude.Ids.{Uuid, Time}
use orxtra.Prelude.Dict.{get, get-put}
use orxtra.Auth.Backend.{
  TrustTier, ConsumerRecord, CredentialRecord, AuthBackend, new_consumer, get_consumer,
  create_credential, disable_consumer, disable_found, create_consumer,
}
use orxtra.Auth.Verifiers.{AuthContext, build_auth_context}
use orxtra.Auth.Authenticator.{Authenticator, authenticate}
use orxtra.Auth.Decisions.{authenticate_sound}

-- Each consumer is stored under its own id.
abbrev pub IsKeyed : AuthBackend → Type 0
IsKeyed b = (k : Uuid) (c : ConsumerRecord) → get_consumer k b ≡ some c → c.id ≡ k

-- No enabled consumer is stored under the id.
abbrev pub IsDisabled : Uuid → AuthBackend → Type 0
IsDisabled c b = (x : ConsumerRecord) → get_consumer c b ≡ some x → x.disabled_at ≢ none

-- Any calls of the store but one that creates the consumer anew.
pub data Later (c : Uuid) (b : AuthBackend) : AuthBackend → Type 0 where
  here : Later c b b
  created :
      {d : AuthBackend}
      → Later c b d
      → (now : Time) (name : String) (tier : TrustTier) (grants : List String) (id principal : Uuid)
      → (id == c) ≡ false
      → Later c b (create_consumer now name tier grants id principal d).1
  disabled :
      {d : AuthBackend}
      → Later c b d
      → (now : Time) (id : Uuid) → Later c b (disable_consumer now id d).1
  added :
      {d : AuthBackend}
      → Later c b d
      → (sha256 : String → String) (now : Time) (credential_id consumer_id : Uuid)
        (credential_type raw_value : String) (secret_ref : Option String)
      → Later c b
          (create_credential sha256 now credential_id consumer_id credential_type raw_value
            secret_ref d).1

abbrev disable : Time → ConsumerRecord → ConsumerRecord
disable t c = record c { disabled_at = some t }

get_consumer-disable_found :
    (t : Time) (i j : Uuid) (o : Option ConsumerRecord) (b : AuthBackend)
    → get_consumer i b ≡ o
    → get_consumer j (disable_found t i o b).1
      ≡ (if i == j then Option.map (disable t) o else get_consumer j b)
unfolding disable_found get_consumer
get_consumer-disable_found t i j none b e = ground (arith, nat_eq.beq_iff i j)
get_consumer-disable_found t i j (some existing) b e = get-put b.consumers i j (disable t existing)

get_consumer-disable :
    (t : Time) (i j : Uuid) (b : AuthBackend)
    → get_consumer j (disable_consumer t i b).1
      ≡ (if i == j then Option.map (disable t) (get_consumer i b) else get_consumer j b)
unfolding disable_consumer get_consumer
get_consumer-disable t i j b = get_consumer-disable_found t i j (get b.consumers i) b refl

-- Where the rows behind a call of `disable_consumer` come from.
abbrev WasThere : (t : Time) (i j : Uuid) → AuthBackend → ConsumerRecord → Type 0
WasThere t i j b x =
    (((i == j) ≡ true) × (y : ConsumerRecord) × (get_consumer j b ≡ some y) × (disable t y ≡ x))
    ⊎ (((i == j) ≡ false) × (get_consumer j b ≡ some x))

get_consumer-WasThere :
    (t : Time) (i j : Uuid) (b : AuthBackend) (x : ConsumerRecord)
    → get_consumer j (disable_consumer t i b).1 ≡ some x
    → WasThere t i j b x
get_consumer-WasThere t i j b x h = elim (Bool-cases (i == j)) [
  | inl same ↦ elim (Option-cases (get_consumer i b)) [
    | inl absent ↦ ground (arith, get_consumer-disable t i j b)
    | inr (y, found) ↦
        let p : i ≡ j = (nat_eq.beq_iff i j).0 same in
        let q : disable t y ≡ x = ground (arith, get_consumer-disable t i j b) in
        inl (same, y, subst (λ k. get_consumer k b ≡ some y) p found, q)
  ]
  | inr differ ↦ inr (differ, ground (arith, get_consumer-disable t i j b))
]

disable_consumer-IsKeyed :
    (t : Time) (i : Uuid) (b : AuthBackend) → IsKeyed b → IsKeyed (disable_consumer t i b).1
disable_consumer-IsKeyed t i b keyed j x h = elim (get_consumer-WasThere t i j b x h) [
  | inl (same, y, found, q) ↦ ap (λ (r : ConsumerRecord). r.id) (sym q) ∙ keyed j y found
  | inr (differ, found) ↦ keyed j x found
]

disable_consumer-IsDisabled :
    (t : Time) (i c : Uuid) (b : AuthBackend)
    → ((i == c) ≡ true) ⊎ IsDisabled c b
    → IsDisabled c (disable_consumer t i b).1
disable_consumer-IsDisabled t i c b d x h enabled = elim (get_consumer-WasThere t i c b x h) [
  | inl (same, y, found, q) ↦
      let e : x.disabled_at ≡ some t = ap (λ (r : ConsumerRecord). r.disabled_at) (sym q) in cc
  | inr (differ, found) ↦ elim d [ inl same ↦ cc | inr was ↦ was x found enabled ]
]

create_consumer-IsKeyed :
    (now : Time) (name : String) (tier : TrustTier) (grants : List String) (id principal : Uuid)
    (b : AuthBackend)
    → IsKeyed b
    → IsKeyed (create_consumer now name tier grants id principal b).1
unfolding create_consumer get_consumer
create_consumer-IsKeyed now name tier grants id principal b keyed j x h =
    elim (Bool-cases (id == j)) [
      | inl same ↦
          let p : id ≡ j = (nat_eq.beq_iff id j).0 same in
          ground (arith, get-put b.consumers id j (new_consumer now name tier grants id principal))
      | inr differ ↦ keyed j x (
          ground (arith, get-put b.consumers id j (new_consumer now name tier grants id principal)))
    ]

create_consumer-IsDisabled :
    (now : Time) (name : String) (tier : TrustTier) (grants : List String) (id principal c : Uuid)
    (b : AuthBackend)
    → (id == c) ≡ false
    → IsDisabled c b
    → IsDisabled c (create_consumer now name tier grants id principal b).1
unfolding create_consumer get_consumer
create_consumer-IsDisabled now name tier grants id principal c b differ d x h =
    d x (ground (arith, get-put b.consumers id c (new_consumer now name tier grants id principal)))

Later-IsKeyed : {c : Uuid} {b d : AuthBackend} → Later c b d → IsKeyed b → IsKeyed d
unfolding create_credential get_consumer
Later-IsKeyed here k = k
Later-IsKeyed (created {d} r now name tier grants id principal differ) k =
    create_consumer-IsKeyed now name tier grants id principal d (Later-IsKeyed r k)
Later-IsKeyed (disabled {d} r now id) k = disable_consumer-IsKeyed now id d (Later-IsKeyed r k)
Later-IsKeyed (added r sha256 now cid consumer type raw ref) k = Later-IsKeyed r k

Later-IsDisabled : {c : Uuid} {b d : AuthBackend} → Later c b d → IsDisabled c b → IsDisabled c d
unfolding create_credential get_consumer
Later-IsDisabled here k = k
Later-IsDisabled {c} (created {d} r now name tier grants id principal differ) k =
    create_consumer-IsDisabled now name tier grants id principal c d differ (Later-IsDisabled r k)
Later-IsDisabled {c} (disabled {d} r now id) k =
    disable_consumer-IsDisabled now id c d (inr (Later-IsDisabled r k))
Later-IsDisabled (added r sha256 now cid consumer type raw ref) k = Later-IsDisabled r k

consumer_of :
    (now : Time) (context : AuthContext) (cred : CredentialRecord) (consumer : ConsumerRecord)
    (c : Uuid)
    → context ≡ build_auth_context now cred consumer
    → context.consumer_id ≡ some c
    → consumer.id ≡ c
unfolding build_auth_context
consumer_of now context cred consumer c e h = ground arith

module _ (sha256 : String → String) (now : Time) where
  -- A consumer that was disabled stays locked out: where each consumer is stored under its own id,
  -- and after any further calls of the store but a creation of that consumer, no text authenticates
  -- as the consumer.
  pub authenticate-disable_consumer :
      (b d : AuthBackend) (t : Time) (c : Uuid) (a : Authenticator) (raw : String)
      (context : AuthContext)
      → IsKeyed b
      → Later c (disable_consumer t c b).1 d
      → a.backend ≡ d
      → (authenticate sha256 now a raw).0 ≡ ok context
      → context.consumer_id ≢ some c
  authenticate-disable_consumer b d t c a raw context keyed later at h same =
      let (cred, found, verified) = authenticate_sound sha256 now a raw context h in
      let g = verified.granted in
      let keyed' : IsKeyed a.backend =
        subst IsKeyed (sym at) (Later-IsKeyed later (disable_consumer-IsKeyed t c b keyed)) in
      let d' : IsDisabled c a.backend = subst (IsDisabled c) (sym at) (
        Later-IsDisabled later
          (disable_consumer-IsDisabled t c c b (inl ((nat_eq.beq_iff c c).1 refl)))) in
      let own : g.consumer.id ≡ cred.consumer_id = keyed' cred.consumer_id g.consumer g.stored in
      let it : g.consumer.id ≡ c = consumer_of now context cred g.consumer c g.described same in
      d' g.consumer
        (subst (λ k. get_consumer k a.backend ≡ some g.consumer) (sym own ∙ it) g.stored) g.enabled
