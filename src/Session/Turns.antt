-- ===== src/Session/Turns.antt =====
-- `Session` (session/src/orxtra/session/_session.py): the accounting of tokens and the transcript.
-- The events that the transport yields in a turn are a list. Handlers and sinks see the events and
-- do not change the session. The ids are texts, checked by the argument `parse` for `uuid.UUID`.
pub mod Accounting
pub mod Transcript
pub mod Written
pub mod Conserved
use orxtra.Prelude.{
  ℕ, ◌+◌, ◌-◌, String, Bool, true, false, not, ◌&&◌, Option, none, some, List, [], ◌∷◌, ◌++◌,
  is_none, if◌then◌else◌, Result, ok, err, value_error, runtime_error, ◌>>=◌,
}
use orxtra.Prelude.Ids.{Uuid}
use orxtra.Prelude.Json.{Json}
use orxtra.Session.Pricing.{Usage}
use Prim.Native.String.{◌++◌ as join}

pub record ToolCall : Type 0 where
  pub tool_name : String
  pub input : Json
  pub output : String
  pub status : String

-- The transport events that a turn reads.
pub data Event : Type 0 where
  result : (text : String) (session_id : Option String) → Event
  step_finish : Usage → Event
  tool_use : ToolCall → Event
  session_suspended : (session_id : Option String) → Event
  other : Event

-- The arguments of `write_transcript_entry`.
pub record Entry : Type 0 where
  pub session_id : Uuid
  pub turn : ℕ
  pub role : String
  pub content : String
  pub tool_calls : List ToolCall
  pub tokens : Option Usage

pub record Session : Type 0 where
  pub session_id : Option String
  pub totals : Usage
  pub turn_count : ℕ

abbrev pub no_usage : Usage
no_usage = record {
  input_tokens = 0;
  output_tokens = 0;
  reasoning_tokens = 0;
  cache_read_tokens = 0;
  cache_write_tokens = 0;
}

-- Component by component.
abbrev pub add_usage : Usage → Usage → Usage
add_usage a b = record {
  input_tokens = a.input_tokens + b.input_tokens;
  output_tokens = a.output_tokens + b.output_tokens;
  reasoning_tokens = a.reasoning_tokens + b.reasoning_tokens;
  cache_read_tokens = a.cache_read_tokens + b.cache_read_tokens;
  cache_write_tokens = a.cache_write_tokens + b.cache_write_tokens;
}

unfoldable pub accumulate_tokens : Usage → Session → Session
accumulate_tokens event s = record s { totals = add_usage s.totals event }

-- `_token_snapshot` is the record of the totals.
unfoldable pub compute_token_delta : (snapshot : Usage) → Session → Usage
compute_token_delta snapshot s = record {
  input_tokens = s.totals.input_tokens - snapshot.input_tokens;
  output_tokens = s.totals.output_tokens - snapshot.output_tokens;
  reasoning_tokens = s.totals.reasoning_tokens - snapshot.reasoning_tokens;
  cache_read_tokens = s.totals.cache_read_tokens - snapshot.cache_read_tokens;
  cache_write_tokens = s.totals.cache_write_tokens - snapshot.cache_write_tokens;
}

-- What a turn has gathered.
pub record Turn : Type 0 where
  pub result_text : String
  pub tool_calls : List ToolCall
  pub captured : Bool
  pub entries : List Entry

abbrev pub new_turn : Turn
new_turn = record { result_text = ""; tool_calls = []; captured = false; entries = [] }

abbrev pub parsed : Option Uuid → Result Uuid
parsed none = err value_error
parsed (some u) = ok u

-- `session_id or self._session_id`: the first id that is known stays.
unfoldable pub known_id : (session_id known : Option String) → Option String
known_id session_id none = session_id
known_id session_id (some i) = some i

-- An entry of the current turn.
abbrev pub entry : Uuid → Session → (role content : String) → List ToolCall → Option Usage → Entry
entry u s role content tool_calls tokens = record {
  session_id = u;
  turn = s.turn_count;
  role = role;
  content = content;
  tool_calls = tool_calls;
  tokens = tokens;
}

-- The user's entry of a resumed turn.
abbrev pub resumed_entry : Uuid → Session → (answer : String) → Entry
resumed_entry u s answer = entry u s "user" (join "[resume: " (join answer "]")) [] none

-- A call that raises leaves no outcome to go on with.
module _ (parse : String → Option Uuid) where
  unfoldable pub write_user :
      (message : String) → Option String → Turn → Session → Result (Turn × Session)
  write_user message none turn s = ok (turn, s)
  write_user message (some i) turn s = parsed (parse i) >>= λ u. ok (
    record turn {
      captured = true;
      entries = turn.entries ++ entry u s "user" message [] none ∷ [];
    },
    s,
  )

  -- The first entry of a turn is the user's.
  unfoldable pub write_unless :
      (captured : Bool) (message : String) → Turn → Session → Result (Turn × Session)
  unfolding write_user
  write_unless true message turn s = ok (turn, s)
  write_unless false message turn s = write_user message s.session_id turn s

  unfoldable pub try_capture_session :
      (message : String) (session_id : Option String) → Turn → Session → Result (Turn × Session)
  unfolding write_unless known_id
  try_capture_session message session_id turn s =
      write_unless turn.captured message turn
        (record s { session_id = known_id session_id s.session_id })

  unfoldable pub receive : (message : String) → Event → Turn → Session → Result (Turn × Session)
  unfolding try_capture_session accumulate_tokens
  receive message (result text session_id) turn s =
      try_capture_session message session_id (record turn { result_text = text }) s
  receive message (step_finish usage) turn s = ok (turn, accumulate_tokens usage s)
  receive message (tool_use call) turn s =
      ok (record turn { tool_calls = turn.tool_calls ++ call ∷ [] }, s)
  receive message (session_suspended session_id) turn s =
      try_capture_session message session_id turn s
  receive message other turn s = ok (turn, s)

  unfoldable pub receive_all :
      (message : String) → List Event → Turn → Session → Result (Turn × Session)
  unfolding receive
  receive_all message [] turn s = ok (turn, s)
  receive_all message (event ∷ events) turn s =
      receive message event turn s >>= λ r. receive_all message events r.0 r.1

  -- The assistant's entry at the end of a turn, with the tokens of the turn.
  unfoldable pub write_assistant :
      (snapshot : Usage) → Option String → Turn → Session → Result (Session × List Entry)
  unfolding compute_token_delta
  write_assistant snapshot none turn s = ok (s, turn.entries)
  write_assistant snapshot (some i) turn s = parsed (parse i) >>= λ u. ok (
    s,
    turn.entries
        ++ entry u s "assistant" turn.result_text turn.tool_calls
            (some (compute_token_delta snapshot s))
          ∷ [],
  )

  unfoldable pub finish_if :
      (captured : Bool) (snapshot : Usage) → Turn → Session → Result (Session × List Entry)
  unfolding write_assistant
  finish_if true snapshot turn s = write_assistant snapshot s.session_id turn s
  finish_if false snapshot turn s = ok (s, turn.entries)

  unfoldable pub finish : (snapshot : Usage) → Turn → Session → Result (Session × List Entry)
  unfolding finish_if
  finish snapshot turn s = finish_if turn.captured snapshot turn s

  -- The session that a turn leaves, and the entries that it writes.
  unfoldable pub send :
      (message : String) (events : List Event) → Session → Result (Session × List Entry)
  unfolding receive_all finish
  send message events s =
      receive_all message events new_turn (record s { turn_count = s.turn_count + 1 }) >>= λ r.
      finish s.totals r.0 r.1

  -- In a resumed turn a result does not capture the session.
  unfoldable pub receive_resumed : Event → Turn → Session → Turn × Session
  unfolding accumulate_tokens
  receive_resumed (result text session_id) turn s = (record turn { result_text = text }, s)
  receive_resumed (step_finish usage) turn s = (turn, accumulate_tokens usage s)
  receive_resumed (tool_use call) turn s =
      (record turn { tool_calls = turn.tool_calls ++ call ∷ [] }, s)
  receive_resumed (session_suspended session_id) turn s = (turn, s)
  receive_resumed other turn s = (turn, s)

  unfoldable pub resume_all : List Event → Turn → Session → Turn × Session
  unfolding receive_resumed
  resume_all [] turn s = (turn, s)
  resume_all (event ∷ events) turn s =
      let (turn', s') = receive_resumed event turn s in resume_all events turn' s'

  unfoldable pub finish_resumed :
      (result : String) (snapshot : Usage)
      → Option String
      → Turn
      → Session
      → Result (Session × List Entry)
  unfolding write_assistant
  finish_resumed answer snapshot none turn s = ok (s, [])
  finish_resumed answer snapshot (some i) turn s = parsed (parse i) >>= λ u.
      write_assistant snapshot (some i) (record turn { entries = resumed_entry u s answer ∷ [] }) s

  unfoldable pub resume :
      (result : String) (events : List Event) → Session → Result (Session × List Entry)
  unfolding resume_all finish_resumed
  resume answer events s =
      let (turn, s') = resume_all events new_turn (record s { turn_count = s.turn_count + 1 }) in
      finish_resumed answer s.totals s'.session_id turn s'

or_runtime_error : Option String → Result String
or_runtime_error none = err runtime_error
or_runtime_error (some i) = ok i

unfoldable pub resume_id : Session → Result String
unfolding or_runtime_error
resume_id s = or_runtime_error s.session_id
