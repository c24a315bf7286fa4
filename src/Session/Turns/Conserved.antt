-- ===== src/Session/Turns/Conserved.antt =====
-- The turns of a session (session/src/orxtra/session/_session.py).
use orxtra.Prelude.{
  ◌≡◌, refl, sym, ◌∙◌, ap, ◌+◌, String, Bool, true, false, ◌||◌, Option, List, [], ◌∷◌, ◌++◌, any,
  Result, ok, >>=-eq-ok, inl,
}
use orxtra.Prelude.Ids.{Uuid}
use orxtra.Session.Turns.{
  Event, result, step_finish, tool_use, session_suspended, other, Entry, Session, add_usage,
  accumulate_tokens, new_turn, finish, send, receive_resumed, receive_all, resume_all, resume, Turn,
}
use orxtra.Session.Turns.Accounting.{
  usage_of, add_usage_assoc, IsKept, unchanged-IsKept, receive_all-IsKept,
}
use orxtra.Session.Turns.Transcript.{is_capturing, IsTranscript, closed, receive_all-Opening}
use orxtra.Session.Turns.Written.{finish_if-IsTranscript, finish_resumed-IsTranscript}
use Prim.Native.String.{◌++◌ as join}

resume_all-IsKept :
    (parse : String → Option Uuid) (events : List Event) (turn : Turn) (s : Session)
    → IsKept (usage_of events) turn s (resume_all parse events turn s)
unfolding resume_all receive_resumed accumulate_tokens
resume_all-IsKept parse [] turn s = unchanged-IsKept turn s turn s refl refl
resume_all-IsKept parse (result text i ∷ events) turn s =
    resume_all-IsKept parse events (record turn { result_text = text }) s
resume_all-IsKept parse (tool_use c ∷ events) turn s =
    resume_all-IsKept parse events (record turn { tool_calls = turn.tool_calls ++ c ∷ [] }) s
resume_all-IsKept parse (session_suspended i ∷ events) turn s =
    resume_all-IsKept parse events turn s
resume_all-IsKept parse (other ∷ events) turn s = resume_all-IsKept parse events turn s
resume_all-IsKept parse (step_finish u ∷ events) turn s =
    let (t, n) = resume_all-IsKept parse events turn (record s { totals = add_usage s.totals u }) in
    (t ∙ add_usage_assoc s.totals u (usage_of events), n)

-- A turn of the session.
pub data Call : Type 0 where
  sends : (message : String) (events : List Event) → Call
  resumes : (answer : String) (events : List Event) → Call

abbrev pub events_of : Call → List Event
events_of (sends message events) = events
events_of (resumes answer events) = events

-- What the transcript says of the user.
abbrev pub content_of : Call → String
content_of (sends message events) = message
content_of (resumes answer events) = join "[resume: " (join answer "]")

-- Whether the turn writes to the transcript when the id of the session is known at its end.
abbrev pub is_told : Call → Bool
is_told (sends message events) = any is_capturing events || false
is_told (resumes answer events) = true

abbrev pub take_turn : (String → Option Uuid) → Call → Session → Result (Session × List Entry)
take_turn parse (sends message events) s = send parse message events s
take_turn parse (resumes answer events) s = resume parse answer events s

pub take_turn_accounted :
    (parse : String → Option Uuid) (c : Call) (s s' : Session) (entries : List Entry)
    → take_turn parse c s ≡ ok (s', entries)
    → (s'.totals ≡ add_usage s.totals (usage_of (events_of c)))
      × (s'.turn_count ≡ s.turn_count + 1)
      × IsTranscript parse (content_of c) (is_told c) (usage_of (events_of c)) s' entries
unfolding send resume finish
take_turn_accounted parse (sends message events) s s' entries h =
    let s1 = record s { turn_count = s.turn_count + 1 } in
    let (r, received, finished) = >>=-eq-ok (receive_all parse message events new_turn s1) _ h in
    let (t, n) = receive_all-IsKept parse message events new_turn s1 r received in
    let u = usage_of events in
    let seen = any is_capturing events || false in
    let opening =
      receive_all-Opening parse message events false new_turn r.0 s1 r.1
        (closed refl refl (inl refl)) received in
    let (same, written) =
      finish_if-IsTranscript parse message r.0.captured seen s.totals u r.0 r.1 s' entries refl t
        opening finished in
    (
      ap (λ (x : Session). x.totals) (sym same) ∙ t,
      ap (λ (x : Session). x.turn_count) (sym same) ∙ n,
      written,
    )
take_turn_accounted parse (resumes answer events) s s' entries h =
    let s1 = record s { turn_count = s.turn_count + 1 } in
    let r = resume_all parse events new_turn s1 in
    let (t, n) = resume_all-IsKept parse events new_turn s1 in
    let (same, written) =
      finish_resumed-IsTranscript parse answer s.totals (usage_of events) r.1.session_id r.0 r.1 s'
        entries refl t h in
    (
      ap (λ (x : Session). x.totals) (sym same) ∙ t,
      ap (λ (x : Session). x.turn_count) (sym same) ∙ n,
      written,
    )
