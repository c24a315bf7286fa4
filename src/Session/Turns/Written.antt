-- ===== src/Session/Turns/Written.antt =====
-- What a turn writes at its end (session/src/orxtra/session/_session.py).
use orxtra.Prelude.{
  ◌≡◌, refl, sym, ◌∙◌, ap, subst, String, Bool, true, false, Option, none, some, List, [], ◌∷◌,
  ◌++◌, ok, >>=-eq-ok, inr,
}
use orxtra.Prelude.Ids.{Uuid}
use orxtra.Session.Pricing.{Usage}
use orxtra.Session.Turns.{
  Entry, entry, Session, add_usage, compute_token_delta, Turn, parsed, write_assistant, finish_if,
  finish_resumed, resumed_entry,
}
use orxtra.Session.Turns.Accounting.{token_delta}
use Prim.Native.String.{◌++◌ as join}
use orxtra.Session.Turns.Transcript.{
  IsTranscript, silent, told, Opening, closed, opened, parsed_lem,
}

module _ (parse : String → Option Uuid) (message : String) where
  write_assistant-told :
      (expected : Bool) (content i : String) (v : Uuid) (snapshot u : Usage) (turn : Turn)
      (s s' : Session) (entries : List Entry)
      → s.session_id ≡ some i
      → parse i ≡ some v
      → turn.entries ≡ entry v s "user" content [] none ∷ []
      → s.totals ≡ add_usage snapshot u
      → write_assistant parse snapshot (some i) turn s ≡ ok (s', entries)
      → (s ≡ s') × IsTranscript parse content expected u s' entries
  unfolding write_assistant
  write_assistant-told expected content i v snapshot u turn s s' entries at p e t h =
      let (w, found, made) = >>=-eq-ok (parsed (parse i)) _ h in
      let q : some v ≡ some w = sym p ∙ parsed_lem parse message (parse i) w found in
      let tokens = compute_token_delta snapshot s in
      let last = entry w s "assistant" turn.result_text turn.tool_calls (some tokens) in
      let same : s ≡ s' = cc in
      let written : entry v s "user" content [] none ∷ last ∷ [] ≡ entries =
        ap (λ xs. xs ++ last ∷ []) (sym e) ∙ cc in
      (
        same,
        subst (λ x. IsTranscript parse content expected u x entries) same
            (subst (IsTranscript parse content expected u s) written
              (told i v last at p (cc) refl refl (ap some (token_delta snapshot u s t)))),
      )

  pub finish_if-IsTranscript :
      (b seen : Bool) (snapshot u : Usage) (turn : Turn) (s s' : Session) (entries : List Entry)
      → turn.captured ≡ b
      → s.totals ≡ add_usage snapshot u
      → Opening parse message seen turn s
      → finish_if parse b snapshot turn s ≡ ok (s', entries)
      → (s ≡ s') × IsTranscript parse message seen u s' entries
  unfolding finish_if
  finish_if-IsTranscript false seen snapshot u turn s s' entries c t (closed d e n) h =
      let same : s ≡ s' = cc in
      let p : [] ≡ entries = sym e ∙ cc in
      (
        same,
        subst (λ x. IsTranscript parse message seen u x entries) same
            (subst (IsTranscript parse message seen u s) p (silent n)),
      )
  finish_if-IsTranscript true seen snapshot u turn s s' entries c t (closed d e n) h = cc
  finish_if-IsTranscript false seen snapshot u turn s s' entries c t (opened i v d at p e) h = cc
  finish_if-IsTranscript true seen snapshot u turn s s' entries c t (opened i v d at p e) h =
      write_assistant-told seen message i v snapshot u turn s s' entries at p e t
        (subst (λ o. write_assistant parse snapshot o turn s ≡ ok (s', entries)) at h)

module _ (parse : String → Option Uuid) where
  pub finish_resumed-IsTranscript :
      (answer : String) (snapshot u : Usage) (o : Option String) (turn : Turn) (s s' : Session)
      (entries : List Entry)
      → s.session_id ≡ o
      → s.totals ≡ add_usage snapshot u
      → finish_resumed parse answer snapshot o turn s ≡ ok (s', entries)
      → (s ≡ s') × IsTranscript parse (join "[resume: " (join answer "]")) true u s' entries
  unfolding finish_resumed
  finish_resumed-IsTranscript answer snapshot u none turn s s' entries at t h =
      let same : s ≡ s' = cc in
      let p : [] ≡ entries = cc in
      let content = join "[resume: " (join answer "]") in
      (
        same,
        subst (λ x. IsTranscript parse content true u x entries) same
            (subst (IsTranscript parse content true u s) p (silent (inr at))),
      )
  finish_resumed-IsTranscript answer snapshot u (some i) turn s s' entries at t h =
      let (v, found, made) = >>=-eq-ok (parsed (parse i)) _ h in
      write_assistant-told parse answer true (join "[resume: " (join answer "]")) i v snapshot u
        (record turn { entries = resumed_entry v s answer ∷ [] }) s s' entries at
        (parsed_lem parse answer (parse i) v found) refl t made
