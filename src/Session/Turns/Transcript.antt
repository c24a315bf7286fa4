-- ===== src/Session/Turns/Transcript.antt =====
-- The transcript of a turn (session/src/orxtra/session/_session.py).
use orxtra.Prelude.{
  ◌≡◌, refl, sym, ◌∙◌, ap, subst, String, Bool, true, false, ◌||◌, Option, none, some, List, [],
  ◌∷◌, ◌++◌, any, ok, >>=-eq-ok, ◌⊎◌, inl, inr, arith,
}
use orxtra.Prelude.Ids.{Uuid}
use orxtra.Session.Pricing.{Usage}
use orxtra.Session.Turns.{
  Event, result, step_finish, tool_use, session_suspended, other, Entry, entry, Session, add_usage,
  accumulate_tokens, Turn, parsed, known_id, write_user, write_unless, try_capture_session, receive,
  receive_all,
}

-- The events that may make the id of the session known.
abbrev pub is_capturing : Event → Bool
is_capturing (result text i) = true
is_capturing (session_suspended i) = true
is_capturing (step_finish u) = false
is_capturing (tool_use c) = false
is_capturing other = false

-- The entries of a turn: none where no id of the session came to be known, and else the user's and
-- the assistant's, with the tokens of the turn.
pub data IsTranscript (parse : String → Option Uuid) (content : String) (expected : Bool)
    (u : Usage) (s : Session) : List Entry → Type 0 where
  silent : (expected ≡ false) ⊎ (s.session_id ≡ none) → IsTranscript parse content expected u s []
  told :
      (i : String) (v : Uuid) (reply : Entry)
      → s.session_id ≡ some i
      → parse i ≡ some v
      → reply.session_id ≡ v
      → reply.turn ≡ s.turn_count
      → reply.role ≡ "assistant"
      → reply.tokens ≡ some u
      → IsTranscript parse content expected u s (entry v s "user" content [] none ∷ reply ∷ [])

module _ (parse : String → Option Uuid) (message : String) where
  -- What a turn has written while its events arrive; `seen` tells whether an event that may make the
  -- id known has arrived.
  pub data Opening (seen : Bool) (turn : Turn) (s : Session) : Type 0 where
    closed :
        turn.captured ≡ false
        → turn.entries ≡ []
        → (seen ≡ false) ⊎ (s.session_id ≡ none)
        → Opening seen turn s
    opened :
        (i : String) (v : Uuid)
        → turn.captured ≡ true
        → s.session_id ≡ some i
        → parse i ≡ some v
        → turn.entries ≡ entry v s "user" message [] none ∷ []
        → Opening seen turn s

  pub parsed_lem : (o : Option Uuid) (v : Uuid) → parsed o ≡ ok v → o ≡ some v
  parsed_lem none v h = cc
  parsed_lem (some w) v h = cc

  Opening-eq :
      (seen : Bool) (turn turn' : Turn) (s s' : Session)
      → turn ≡ turn'
      → s ≡ s'
      → Opening seen turn s
      → Opening seen turn' s'
  Opening-eq seen turn turn' s s' p q h =
      subst (λ x. Opening seen x s') p (subst (Opening seen turn) q h)

  write_user-Opening :
      (o : Option String) (turn turn' : Turn) (s s' : Session)
      → turn.captured ≡ false
      → turn.entries ≡ []
      → s.session_id ≡ o
      → write_user parse message o turn s ≡ ok (turn', s')
      → Opening true turn' s'
  unfolding write_user
  write_user-Opening none turn turn' s s' c e i h =
      Opening-eq true turn turn' s s' (cc) (cc) (closed c e (inr i))
  write_user-Opening (some i) turn turn' s s' c e at h =
      let (v, found, made) = >>=-eq-ok (parsed (parse i)) _ h in
      let user = entry v s "user" message [] none in
      let written = record turn { captured = true; entries = turn.entries ++ user ∷ [] } in
      Opening-eq true written turn' s s' (cc) (cc)
        (opened i v refl at (parsed_lem (parse i) v found) (ap (λ xs. xs ++ user ∷ []) e))

  write_unless-Opening :
      (b : Bool) (seen : Bool) (sid : Option String) (turn turn' : Turn) (s s' : Session)
      → turn.captured ≡ b
      → Opening seen turn s
      → write_unless parse b message turn (record s { session_id = known_id sid s.session_id })
        ≡ ok (turn', s')
      → Opening true turn' s'
  unfolding write_unless known_id
  write_unless-Opening false seen sid turn turn' s s' c (closed _ e _) h =
      write_user-Opening (known_id sid s.session_id) turn turn'
        (record s { session_id = known_id sid s.session_id }) s' c e refl h
  write_unless-Opening true seen sid turn turn' s s' c (closed d e n) h = cc
  write_unless-Opening false seen sid turn turn' s s' c (opened i v d at p e) h = cc
  write_unless-Opening true seen sid turn turn' s s' c (opened i v d at p e) h =
      Opening-eq true turn turn' (record s { session_id = known_id sid s.session_id }) s' (cc) (cc)
        (opened i v d (ap (known_id sid) at) p e)

  opening_more :
      (turn turn' : Turn) (s s' : Session) (seen : Bool)
      → turn'.captured ≡ turn.captured
      → turn'.entries ≡ turn.entries
      → s'.session_id ≡ s.session_id
      → s'.turn_count ≡ s.turn_count
      → Opening seen turn s
      → Opening seen turn' s'
  opening_more turn turn' s s' seen c e i n (closed d f (inl unseen)) =
      closed (c ∙ d) (e ∙ f) (inl unseen)
  opening_more turn turn' s s' seen c e i n (closed d f (inr unknown)) =
      closed (c ∙ d) (e ∙ f) (inr (i ∙ unknown))
  opening_more turn turn' s s' seen c e i n (opened j v d at p f) = opened j v (c ∙ d) (i ∙ at) p (
      e
      ∙ f
      ∙ ap
          (λ k.
            record {
              session_id = v;
              turn = k;
              role = "user";
              content = message;
              tool_calls = [];
              tokens = none;
            }
            ∷ [])
          (sym n))

  -- No event makes what was seen unseen.
  receive-Opening :
      (e : Event) (seen : Bool) (turn turn' : Turn) (s s' : Session)
      → Opening seen turn s
      → receive parse message e turn s ≡ ok (turn', s')
      → Opening (is_capturing e || seen) turn' s'
  unfolding receive try_capture_session accumulate_tokens
  receive-Opening (result text sid) seen turn turn' s s' o h =
      write_unless-Opening turn.captured seen sid (record turn { result_text = text }) turn' s s'
        refl (opening_more turn (record turn { result_text = text }) s s seen refl refl refl refl o)
        h
  receive-Opening (session_suspended sid) seen turn turn' s s' o h =
      write_unless-Opening turn.captured seen sid turn turn' s s' refl o h
  receive-Opening other seen turn turn' s s' o h = Opening-eq seen turn turn' s s' (cc) (cc) o
  receive-Opening (tool_use c) seen turn turn' s s' o h =
      let t : Turn = record turn { tool_calls = turn.tool_calls ++ c ∷ [] } in
      Opening-eq seen t turn' s s' (cc) (cc) (opening_more turn t s s seen refl refl refl refl o)
  receive-Opening (step_finish u) seen turn turn' s s' o h =
      let t : Session = record s { totals = add_usage s.totals u } in
      Opening-eq seen turn turn' t s' (cc) (cc)
        (opening_more turn turn s t seen refl refl refl refl o)

  or_swap : (a b c : Bool) → (b || (a || c)) ≡ ((a || b) || c)
  or_swap a b c = ground arith

  pub receive_all-Opening :
      (events : List Event) (seen : Bool) (turn turn' : Turn) (s s' : Session)
      → Opening seen turn s
      → receive_all parse message events turn s ≡ ok (turn', s')
      → Opening (any is_capturing events || seen) turn' s'
  unfolding receive_all
  receive_all-Opening [] seen turn turn' s s' o h = Opening-eq seen turn turn' s s' (cc) (cc) o
  receive_all-Opening (e ∷ events) seen turn turn' s s' o h =
      let (m, first, rest) = >>=-eq-ok (receive parse message e turn s) _ h in
      subst (λ b. Opening b turn' s') (or_swap (is_capturing e) (any is_capturing events) seen)
        (receive_all-Opening events (is_capturing e || seen) m.0 turn' m.1 s'
          (receive-Opening e seen turn m.0 s m.1 o first) rest)
