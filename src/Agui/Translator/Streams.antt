-- ===== src/Agui/Translator/Streams.antt =====
-- Whole streams of AG-UI events (agui/src/orxtra/agui/_translator.py).
use orxtra.Prelude.{
  ◌≡◌, refl, ◌∙◌, ap, String, true, false, none, some, List, [], ◌∷◌, ◌++◌, ok, arith,
}
use orxtra.Prelude.Ids.{Uuid}
use orxtra.Agui.Events.{
  TransportEvent, stream_delta, thinking, step_start, step_finish, tool_executing, tool_use, result,
  error, other, OverseerEvent, run_started, budget_threshold_crossed, budget_exhausted, task_failed,
  task_escalated, inbox_answered, inbox_rejected, structural_advisory, health_degraded,
  step_started, step_finished, tool_call_start, run_finished,
}
use orxtra.Agui.Translator.{
  Translator, Output, new_translator, translate_transport, translate_overseer,
  translate_thinking_from_overseer,
}
use orxtra.Agui.Translator.Framing.{
  Phase, idle, read_all, IsAt, Reads, read_all-append, closing-Reads, stream_delta-Reads,
  thinking-Reads,
}

transport-Reads :
    (i : Uuid) (e : TransportEvent) (p : Phase) (t : Translator)
    → IsAt t p
    → Reads p (translate_transport i e t)
unfolding translate_transport
transport-Reads i (stream_delta s) p t at = stream_delta-Reads i s p t at
transport-Reads i (thinking s) p t at = thinking-Reads false s p t at
transport-Reads i (step_start s) p t at =
    closing-Reads p t (λ u. step_started s ∷ []) at (λ u h. refl)
transport-Reads i (step_finish s) p t at =
    closing-Reads p t (λ u. step_finished s ∷ []) at (λ u h. refl)
transport-Reads i (tool_executing x name) p t at =
    closing-Reads p t (λ u. tool_call_start x name u.current_message_id ∷ []) at (λ u h. refl)
transport-Reads i result p t at =
    closing-Reads p t (λ u. run_finished u.thread_id u.run_id none ∷ []) at (λ u h. refl)
transport-Reads i (tool_use x out) p t at = (p, refl, at)
transport-Reads i (error name message) p t at = (p, refl, at)
transport-Reads i other p t at = (p, refl, at)

overseer-Reads :
    (e : OverseerEvent) (p : Phase) (t : Translator) → IsAt t p → Reads p (translate_overseer e t)
unfolding translate_overseer
overseer-Reads run_started p t at = (p, refl, at)
overseer-Reads (budget_threshold_crossed w b c d) p t at = (p, refl, at)
overseer-Reads (budget_exhausted w) p t at = (p, refl, at)
overseer-Reads (task_failed w n) p t at = (p, refl, at)
overseer-Reads (task_escalated w n c) p t at = (p, refl, at)
overseer-Reads (inbox_answered w a b c) p t at = (p, refl, at)
overseer-Reads (inbox_rejected w r) p t at = (p, refl, at)
overseer-Reads (structural_advisory w o s) p t at = (p, refl, at)
overseer-Reads (health_degraded w f d) p t at = (p, refl, at)

-- One call of the translator.
pub data Input : Type 0 where
  from_transport : (new_id : Uuid) (event : TransportEvent) → Input
  from_overseer : (event : OverseerEvent) → Input
  thought_of_overseer : (text : String) → Input

abbrev pub translate : Input → Translator → Output
translate (from_transport new_id event) t = translate_transport new_id event t
translate (from_overseer event) t = translate_overseer event t
translate (thought_of_overseer text) t = translate_thinking_from_overseer text t

-- The events of all calls, in their order.
abbrev pub translate_all : List Input → Translator → Output
translate_all [] t = ([], t)
translate_all (i ∷ is) t =
    let (a, t') = translate i t in let (b, t'') = translate_all is t' in (a ++ b, t'')

translate-Reads : (i : Input) (p : Phase) (t : Translator) → IsAt t p → Reads p (translate i t)
unfolding translate_thinking_from_overseer
translate-Reads (from_transport new_id event) p t at = transport-Reads new_id event p t at
translate-Reads (from_overseer event) p t at = overseer-Reads event p t at
translate-Reads (thought_of_overseer text) p t at = thinking-Reads true text p t at

translate_all-Reads :
    (is : List Input) (p : Phase) (t : Translator) → IsAt t p → Reads p (translate_all is t)
translate_all-Reads [] p t at = (p, refl, at)
translate_all-Reads (i ∷ is) p t at =
    let (q, well, at') = translate-Reads i p t at in
    let t' = (translate i t).1 in
    let (r, rest, at'') = translate_all-Reads is q t' at' in
    (
      r,
      read_all-append (some p) (translate i t).0 (translate_all is t').0
          ∙ ap (λ o. read_all o (translate_all is t').0) well
          ∙ rest,
      at'',
    )

new_translator-IsAt :
    (thread_id run_id visibility : String) (t : Translator)
    → new_translator thread_id run_id visibility ≡ ok t
    → IsAt t idle
unfolding new_translator
new_translator-IsAt thread_id run_id visibility t h = ground arith

-- Whatever transport and overseer events a new translator is given, in whatever order and with any
-- visibility of thinking, a client that follows the protocol reads the whole stream: text and
-- thinking messages start when nothing is open and are ended before the other kind, a step, a tool
-- call or the end of the run begins, contents and ends bear the id of the message that is open, and
-- the translator's flags tell what the client has open at the end.
pub translate_all-framed :
    (thread_id run_id visibility : String) (t : Translator) (is : List Input)
    → new_translator thread_id run_id visibility ≡ ok t
    → (q : Phase) × (read_all (some idle) (translate_all is t).0 ≡ some q)
      × IsAt (translate_all is t).1 q
translate_all-framed thread_id run_id visibility t is h =
    translate_all-Reads is idle t (new_translator-IsAt thread_id run_id visibility t h)
