-- ===== src/Agui/Translator/Framing.antt =====
-- The frames of the AG-UI messages (agui/src/orxtra/agui/_translator.py).
use orxtra.Prelude.{
  ◌≡◌, refl, sym, ◌∙◌, subst, String, Bool, true, false, not, ◌&&◌, ◌||◌, Option, none, some, List,
  [], ◌∷◌, ◌++◌, ◌==◌, nat_eq, string_eq, if◌then◌else◌, Bool-cases, inl, inr, arith,
}
use orxtra.Prelude.Ids.{Uuid}
use orxtra.Agui.Events.{
  BaseEvent, text_message_start, text_message_end, text_message_content, thinking_start,
  thinking_end, thinking_content, step_started, step_finished, tool_call_start, tool_call_end,
  tool_call_result, run_start, run_finished, run_error, custom,
}
use orxtra.Agui.Translator.{
  Translator, Output, close_message, close_text_message, close_thinking, closing, open_message,
  handle_stream_delta, think, handle_thinking,
}

-- What a client that reads the stream has open.
pub data Phase : Type 0 where
  idle in_thinking : Phase
  in_text : (message_id : Uuid) → Phase

-- The client's view of the protocol: a message starts when none is open, its content and its end
-- bear its id, and steps, tool calls and the end of the run stand outside of messages.
abbrev pub read : BaseEvent → Phase → Option Phase
read (text_message_start i) idle = some (in_text i)
read (text_message_content (some i) delta) (in_text j) = if i == j then some (in_text j) else none
read (text_message_end i) (in_text j) = if i == j then some idle else none
read thinking_start idle = some in_thinking
read (thinking_content delta) in_thinking = some in_thinking
read thinking_end in_thinking = some idle
read (step_started name) idle = some idle
read (step_finished name) idle = some idle
read (tool_call_start i name parent) idle = some idle
read (run_finished thread run interrupt) idle = some idle
read (tool_call_end i) p = some p
read (tool_call_result m i content) p = some p
read (run_start thread run) p = some p
read (run_error message) p = some p
read (custom name value) p = some p
read _ _ = none

abbrev pub read_from : Option Phase → BaseEvent → Option Phase
read_from none e = none
read_from (some p) e = read e p

abbrev pub read_all : Option Phase → List BaseEvent → Option Phase
read_all o [] = o
read_all o (e ∷ es) = read_all (read_from o e) es

-- The translator's flags tell what it has left open.
abbrev pub IsAt : Translator → Phase → Type 0
IsAt t idle =
    (t.text_message_open ≡ false) × (t.current_message_id ≡ none) × (t.thinking_open ≡ false)
IsAt t in_thinking =
    (t.text_message_open ≡ false) × (t.current_message_id ≡ none) × (t.thinking_open ≡ true)
IsAt t (in_text i) =
    (t.text_message_open ≡ true) × (t.current_message_id ≡ some i) × (t.thinking_open ≡ false)

-- The events read well from a phase, and the flags tell the phase that they lead to.
abbrev pub Reads : Phase → Output → Type 0
Reads p o = (q : Phase) × (read_all (some p) o.0 ≡ some q) × IsAt o.1 q

pub read_all-append :
    (o : Option Phase) (xs ys : List BaseEvent)
    → read_all o (xs ++ ys) ≡ read_all (read_all o xs) ys
read_all-append o [] ys = refl
read_all-append o (x ∷ xs) ys = read_all-append (read_from o x) xs ys

abbrev hushed : Translator → Translator
hushed t = record t { thinking_open = false }

abbrev ended : Translator → Translator
ended t = record t { text_message_open = false; current_message_id = none }

close_thinking_lem :
    (t : Translator)
    → close_thinking t ≡ (if t.thinking_open then (thinking_end ∷ [], hushed t) else ([], t))
unfolding close_thinking
close_thinking_lem t = refl

close_text_none : (t : Translator) → t.text_message_open ≡ false → close_text_message t ≡ ([], t)
unfolding close_text_message close_message
close_text_none t h = rw (h, close_message) refl

close_text_some :
    (t : Translator) (i : Uuid)
    → t.text_message_open ≡ true
    → t.current_message_id ≡ some i
    → close_text_message t ≡ (text_message_end i ∷ [], ended t)
unfolding close_text_message close_message
close_text_some t i h k = rw (h, k, close_message) refl

closing-idle :
    (t : Translator) (next : Translator → List BaseEvent)
    → IsAt t idle
    → closing next t ≡ (next t, t)
unfolding closing
closing-idle t next (a, b, c) =
    let e : close_thinking t ≡ ([], t) = close_thinking_lem t ∙ rw c refl in
    rw (e, close_text_none t a) refl

closing_thinking :
    (t : Translator) (next : Translator → List BaseEvent)
    → IsAt t in_thinking
    → closing next t ≡ (thinking_end ∷ next (hushed t), hushed t)
unfolding closing
closing_thinking t next (a, b, c) =
    let e : close_thinking t ≡ (thinking_end ∷ [], hushed t) = close_thinking_lem t ∙ rw c refl in
    rw (e, close_text_none (hushed t) a) refl

closing_text :
    (t : Translator) (i : Uuid) (next : Translator → List BaseEvent)
    → IsAt t (in_text i)
    → closing next t ≡ (text_message_end i ∷ next (ended t), ended t)
unfolding closing
closing_text t i next (a, b, c) =
    let e : close_thinking t ≡ ([], t) = close_thinking_lem t ∙ rw c refl in
    rw (e, close_text_some t i a b) refl

-- Closing leaves the translator idle, whatever it had open, and a client too.
pub closing-Reads :
    (p : Phase) (t : Translator) (next : Translator → List BaseEvent)
    → IsAt t p
    → ((u : Translator) → u.current_message_id ≡ none → read_all (some idle) (next u) ≡ some idle)
    → Reads p (closing next t)
closing-Reads idle t next at h =
    subst (Reads idle) (sym (closing-idle t next at)) (idle, h t at.1, at)
closing-Reads in_thinking t next (a, b, c) h =
    subst (Reads in_thinking) (sym (closing_thinking t next (a, b, c)))
      (idle, h (hushed t) b, (a, b, refl))
closing-Reads (in_text i) t next (a, b, c) h =
    subst (Reads (in_text i)) (sym (closing_text t i next (a, b, c)))
      (idle, ground (arith, nat_eq.beq_iff i i, h (ended t) refl), (refl, refl, c))

opened : Uuid → Translator → Translator
opened i t = record t { text_message_open = true; current_message_id = some i }

open_message_new :
    (i : Uuid) (s : String) (t : Translator)
    → t.text_message_open ≡ false
    → open_message i s t ≡ (text_message_start i ∷ text_message_content (some i) s ∷ [], opened i t)
unfolding open_message opened
open_message_new i s t h = rw h refl

open_message_old :
    (i j : Uuid) (s : String) (t : Translator)
    → t.text_message_open ≡ true
    → t.current_message_id ≡ some j
    → open_message i s t ≡ (text_message_content (some j) s ∷ [], t)
unfolding open_message
open_message_old i j s t h k = rw (h, k) refl

pub stream_delta-Reads :
    (i : Uuid) (s : String) (p : Phase) (t : Translator)
    → IsAt t p
    → Reads p (handle_stream_delta i s t)
unfolding handle_stream_delta opened
stream_delta-Reads i s idle t (a, b, c) =
    let e : close_thinking t ≡ ([], t) = close_thinking_lem t ∙ rw c refl in
    rw (e, open_message_new i s t a)
      (in_text i, ground (arith, nat_eq.beq_iff i i), (refl, refl, c))
stream_delta-Reads i s in_thinking t (a, b, c) =
    let e : close_thinking t ≡ (thinking_end ∷ [], hushed t) = close_thinking_lem t ∙ rw c refl in
    rw (e, open_message_new i s (hushed t) a)
      (in_text i, ground (arith, nat_eq.beq_iff i i), (refl, refl, refl))
stream_delta-Reads i s (in_text j) t (a, b, c) =
    let e : close_thinking t ≡ ([], t) = close_thinking_lem t ∙ rw c refl in
    rw (e, open_message_old i j s t a b) (in_text j, ground (arith, nat_eq.beq_iff j j), (a, b, c))

musing : Translator → Translator
musing t = record t { thinking_open = true }

think_new :
    (s : String) (t : Translator)
    → t.thinking_open ≡ false
    → think s t ≡ (thinking_start ∷ thinking_content s ∷ [], musing t)
unfolding think musing
think_new s t h = rw h refl

think_old :
    (s : String) (t : Translator)
    → t.thinking_open ≡ true
    → think s t ≡ (thinking_content s ∷ [], t)
unfolding think
think_old s t h = rw h refl

abbrev is_hidden : Bool → Translator → Bool
is_hidden is_overseer t =
    t.thinking_visibility == "silent" || (t.thinking_visibility == "overseer" && not is_overseer)

shown-Reads :
    (s : String) (p : Phase) (t : Translator)
    → IsAt t p
    → let (a, t') = close_text_message t in let (b, t'') = think s t' in Reads p (a ++ b, t'')
unfolding musing
shown-Reads s idle t (a, b, c) =
    rw (close_text_none t a, think_new s t c) (in_thinking, refl, (a, b, refl))
shown-Reads s in_thinking t (a, b, c) =
    rw (close_text_none t a, think_old s t c) (in_thinking, refl, (a, b, c))
shown-Reads s (in_text i) t (a, b, c) =
    rw (close_text_some t i a b, think_new s (ended t) c)
      (in_thinking, ground (arith, nat_eq.beq_iff i i), (refl, refl, refl))

pub thinking-Reads :
    (v : Bool) (s : String) (p : Phase) (t : Translator)
    → IsAt t p
    → Reads p (handle_thinking v s t)
unfolding handle_thinking musing
thinking-Reads v s p t at = elim (Bool-cases (is_hidden v t)) [
  | inl hidden ↦ rw hidden (p, refl, at)
  | inr shown ↦ rw shown (shown-Reads s p t at)
]
