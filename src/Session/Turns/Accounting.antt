-- ===== src/Session/Turns/Accounting.antt =====
-- The tokens of a session (session/src/orxtra/session/_session.py).
use orxtra.Prelude.{
  ◌≡◌, sym, ◌∙◌, ap, String, Bool, true, false, Option, none, some, List, [], ◌∷◌, ◌++◌, ok,
  >>=-eq-ok, arith,
}
use orxtra.Prelude.Ids.{Uuid}
use orxtra.Session.Pricing.{Usage}
use orxtra.Session.Turns.{
  Event, result, step_finish, tool_use, session_suspended, other, entry, Session, no_usage,
  add_usage, accumulate_tokens, compute_token_delta, Turn, parsed, known_id, write_user,
  write_unless, try_capture_session, receive, receive_all,
}

-- The tokens that the finished steps of a turn report.
abbrev pub usage_of : List Event → Usage
usage_of [] = no_usage
usage_of (step_finish u ∷ events) = add_usage u (usage_of events)
usage_of (result text i ∷ events) = usage_of events
usage_of (tool_use c ∷ events) = usage_of events
usage_of (session_suspended i ∷ events) = usage_of events
usage_of (other ∷ events) = usage_of events

usage_eq :
    (a b : Usage)
    → a.input_tokens ≡ b.input_tokens
    → a.output_tokens ≡ b.output_tokens
    → a.reasoning_tokens ≡ b.reasoning_tokens
    → a.cache_read_tokens ≡ b.cache_read_tokens
    → a.cache_write_tokens ≡ b.cache_write_tokens
    → a ≡ b
usage_eq a b h i j k l = λ t. record {
  input_tokens = h t;
  output_tokens = i t;
  reasoning_tokens = j t;
  cache_read_tokens = k t;
  cache_write_tokens = l t;
}

pub add_usage_assoc : (a b c : Usage) → add_usage (add_usage a b) c ≡ add_usage a (add_usage b c)
add_usage_assoc a b c =
    usage_eq _ _ (omega arith) (omega arith) (omega arith) (omega arith) (omega arith)

pub add_usage_none : (a : Usage) → add_usage a no_usage ≡ a
add_usage_none a =
    usage_eq _ _ (omega arith) (omega arith) (omega arith) (omega arith) (omega arith)

none_add_usage : (a : Usage) → add_usage no_usage a ≡ a
none_add_usage a =
    usage_eq _ _ (omega arith) (omega arith) (omega arith) (omega arith) (omega arith)

pub token_delta :
    (snapshot u : Usage) (s : Session)
    → s.totals ≡ add_usage snapshot u
    → compute_token_delta snapshot s ≡ u
unfolding compute_token_delta
token_delta snapshot u s h =
    ap (λ (t : Usage). compute_token_delta snapshot (record s { totals = t })) h
    ∙ usage_eq _ _ (omega arith) (omega arith) (omega arith) (omega arith) (omega arith)

-- A part of a turn in which the steps report `u` takes one state to the other.
abbrev pub IsKept : Usage → Turn → Session → Turn × Session → Type 0
IsKept u turn s (turn', s') = (s'.totals ≡ add_usage s.totals u) × (s'.turn_count ≡ s.turn_count)

pub unchanged-IsKept :
    (turn : Turn) (s : Session) (turn' : Turn) (s' : Session)
    → turn ≡ turn'
    → s ≡ s'
    → IsKept no_usage turn s (turn', s')
unchanged-IsKept turn s turn' s' p q = (
  ap (λ (x : Session). x.totals) (sym q) ∙ sym (add_usage_none s.totals),
  ap (λ (x : Session). x.turn_count) (sym q),
)

pub usage_of-cons :
    (e : Event) (events : List Event)
    → add_usage (usage_of (e ∷ [])) (usage_of events) ≡ usage_of (e ∷ events)
usage_of-cons (step_finish u) events = ap (λ a. add_usage a (usage_of events)) (add_usage_none u)
usage_of-cons (result text i) events = none_add_usage (usage_of events)
usage_of-cons (tool_use c) events = none_add_usage (usage_of events)
usage_of-cons (session_suspended i) events = none_add_usage (usage_of events)
usage_of-cons other events = none_add_usage (usage_of events)

module _ (parse : String → Option Uuid) (message : String) where
  write_user-IsKept :
      (o : Option String) (turn : Turn) (s : Session) (r : Turn × Session)
      → write_user parse message o turn s ≡ ok r
      → IsKept no_usage turn s r
  unfolding write_user
  write_user-IsKept none turn s (turn', s') h =
      let p : turn ≡ turn' = cc in let q : s ≡ s' = cc in unchanged-IsKept turn s turn' s' p q
  write_user-IsKept (some i) turn s (turn', s') h =
      let (u, found, made) = >>=-eq-ok (parsed (parse i)) _ h in
      let user = entry u s "user" message [] none in
      let written = record turn { captured = true; entries = turn.entries ++ user ∷ [] } in
      let p : written ≡ turn' = cc in let q : s ≡ s' = cc in unchanged-IsKept written s turn' s' p q

  write_unless-IsKept :
      (c : Bool) (turn : Turn) (s : Session) (r : Turn × Session)
      → write_unless parse c message turn s ≡ ok r
      → IsKept no_usage turn s r
  unfolding write_unless
  write_unless-IsKept false turn s r h = write_user-IsKept s.session_id turn s r h
  write_unless-IsKept true turn s (turn', s') h =
      let p : turn ≡ turn' = cc in let q : s ≡ s' = cc in unchanged-IsKept turn s turn' s' p q

  receive-IsKept :
      (e : Event) (turn : Turn) (s : Session) (r : Turn × Session)
      → receive parse message e turn s ≡ ok r
      → IsKept (usage_of (e ∷ [])) turn s r
  unfolding receive try_capture_session accumulate_tokens
  receive-IsKept (result text i) turn s r h =
      write_unless-IsKept turn.captured (record turn { result_text = text })
        (record s { session_id = known_id i s.session_id }) r h
  receive-IsKept (session_suspended i) turn s r h =
      write_unless-IsKept turn.captured turn (record s { session_id = known_id i s.session_id }) r h
  receive-IsKept other turn s (turn', s') h =
      let p : turn ≡ turn' = cc in let q : s ≡ s' = cc in unchanged-IsKept turn s turn' s' p q
  receive-IsKept (tool_use c) turn s (turn', s') h =
      let p : record turn { tool_calls = turn.tool_calls ++ c ∷ [] } ≡ turn' = cc in
      let q : s ≡ s' = cc in
      unchanged-IsKept (record turn { tool_calls = turn.tool_calls ++ c ∷ [] }) s turn' s' p q
  receive-IsKept (step_finish u) turn s (turn', s') h =
      let p : turn ≡ turn' = cc in
      let q : record s { totals = add_usage s.totals u } ≡ s' = cc in
      (
        ap (λ (x : Session). x.totals) (sym q) ∙ ap (add_usage s.totals) (sym (add_usage_none u)),
        ap (λ (x : Session). x.turn_count) (sym q),
      )

  pub receive_all-IsKept :
      (events : List Event) (turn : Turn) (s : Session) (r : Turn × Session)
      → receive_all parse message events turn s ≡ ok r
      → IsKept (usage_of events) turn s r
  unfolding receive_all
  receive_all-IsKept [] turn s (turn', s') h =
      let p : turn ≡ turn' = cc in let q : s ≡ s' = cc in unchanged-IsKept turn s turn' s' p q
  receive_all-IsKept (e ∷ events) turn s r h =
      let (m, first, rest) = >>=-eq-ok (receive parse message e turn s) _ h in
      let (t1, n1) = receive-IsKept e turn s m first in
      let (t2, n2) = receive_all-IsKept events m.0 m.1 r rest in
      (
        t2
            ∙ ap (λ t. add_usage t (usage_of events)) t1
            ∙ add_usage_assoc s.totals (usage_of (e ∷ [])) (usage_of events)
            ∙ ap (add_usage s.totals) (usage_of-cons e events),
        n2 ∙ n1,
      )
