-- ===== src/WriteSafety/Stale.antt =====
-- `StaleWriteTracker` (write-safety/src/orxtra/write_safety/_stale.py). `Path.resolve`, which asks
-- the file system, is the argument `resolve`.
use orxtra.Prelude.{
  ◌≡◌, ◌↔◌, refl, sym, subst, ap, String, Bool, true, false, Option, none, some, List, [], ◌∷◌,
  ◌==◌, string_eq, Result, ok, err, stale_write_error, if◌then◌else◌, Bool-cases, inl, inr, arith,
  ◌&&◌,
}
use orxtra.Prelude.Dict.{Dict, get, put, get-put}

-- `_reads`: for each canonical path, the hash that each session saw last.
abbrev pub Reads : Type 0
Reads = Dict String (Dict String String)

abbrev pub sessions_of : Option (Dict String String) → Dict String String
sessions_of none = []
sessions_of (some session_reads) = session_reads

unfoldable pub record_read :
    (resolve : String → String) (session_id path content_hash : String) → Reads → Reads
record_read resolve session_id path content_hash reads =
    put reads (resolve path) (put (sessions_of (get reads (resolve path))) session_id content_hash)

unfoldable pub check_recorded :
    (recorded : Option String) (current_hash : String) → Result (Unit {0})
check_recorded none current_hash = err stale_write_error
check_recorded (some recorded_hash) current_hash =
    if recorded_hash == current_hash then ok tt else err stale_write_error

unfoldable pub check_write :
    (resolve : String → String) (session_id path current_hash : String) (is_new_file : Bool)
    → Reads
    → Result (Unit {0})
unfolding check_recorded
check_write resolve session_id path current_hash is_new_file reads =
    if is_new_file then ok tt else elim (get reads (resolve path)) [
      | none ↦ err stale_write_error
      | some session_reads ↦ check_recorded (get session_reads session_id) current_hash
    ]

-- A read that a session made: the session, the path and the hash.
pub record Read : Type 0 where
  pub session_id : String
  pub path : String
  pub content_hash : String

-- The tracker after these reads, the newest first.
unfoldable pub record_reads : (String → String) → List Read → Reads
unfolding record_read
record_reads resolve [] = []
record_reads resolve (r ∷ rs) =
    record_read resolve r.session_id r.path r.content_hash (record_reads resolve rs)

-- The hash of the session's newest read of a path that resolves as `path` does.
abbrev pub last_read : (String → String) → (session_id path : String) → List Read → Option String
last_read resolve session_id path [] = none
last_read resolve session_id path (r ∷ rs) =
    if (resolve r.path == resolve path) && (r.session_id == session_id)
    then some r.content_hash
    else last_read resolve session_id path rs

recorded_step :
    (resolve : String → String) (r : Read) (session_id path : String) (reads : Reads)
    (before : Option String)
    → get (sessions_of (get reads (resolve path))) session_id ≡ before
    → get
        (sessions_of
          (get (record_read resolve r.session_id r.path r.content_hash reads) (resolve path)))
        session_id
      ≡ (if (resolve r.path == resolve path) && (r.session_id == session_id)
          then some r.content_hash
          else before)
unfolding record_read
recorded_step resolve r session_id path reads before h =
    let updated = put (sessions_of (get reads (resolve r.path))) r.session_id r.content_hash in
    let here : (resolve r.path == resolve path) ≡ true
        → get (sessions_of (get reads (resolve r.path))) session_id ≡ before =
      λ same.
        subst (λ p. get (sessions_of (get reads p)) session_id ≡ before)
          (sym ((string_eq.beq_iff (resolve r.path) (resolve path)).0 same)) h in
    rw (get-put reads (resolve r.path) (resolve path) updated)
      (elim (Bool-cases (resolve r.path == resolve path)) [
        | inl same ↦ rw same (
            rw
              (get-put (sessions_of (get reads (resolve r.path))) r.session_id session_id
                r.content_hash)
              (ap (λ x. if r.session_id == session_id then some r.content_hash else x) (here same)))
        | inr differ ↦ rw differ h
      ])

recorded_last :
    (resolve : String → String) (session_id path : String) (rs : List Read)
    → get (sessions_of (get (record_reads resolve rs) (resolve path))) session_id
      ≡ last_read resolve session_id path rs
unfolding record_reads get
recorded_last resolve session_id path [] = refl
recorded_last resolve session_id path (r ∷ rs) =
    recorded_step resolve r session_id path (record_reads resolve rs)
      (last_read resolve session_id path rs) (recorded_last resolve session_id path rs)

check_recorded_lem :
    (recorded : Option String) (current_hash : String)
    → (check_recorded recorded current_hash ≡ ok tt) ↔ (recorded ≡ some current_hash)
unfolding check_recorded
check_recorded_lem none current_hash = (λ h. absurd (cc h), λ h. absurd (cc h))
check_recorded_lem (some h) current_hash = (
  λ e. ground (arith, string_eq.beq_iff h current_hash),
  λ e. ground (arith, string_eq.beq_iff h current_hash),
)

check_sessions :
    (sessions : Option (Dict String String)) (session_id current_hash : String)
    → elim sessions [
      | none ↦ err stale_write_error
      | some session_reads ↦ check_recorded (get session_reads session_id) current_hash
    ]
      ≡ check_recorded (get (sessions_of sessions) session_id) current_hash
unfolding check_recorded get
check_sessions none session_id current_hash = refl
check_sessions (some session_reads) session_id current_hash = refl

-- After any reads, a write to a file that is not new is allowed exactly when the newest read that
-- the session made of this path, under any name that resolves to it, saw the current hash: a session
-- that never read the file, or whose read an intervening change made stale, is refused.
pub check_write_lem :
    (resolve : String → String) (session_id path current_hash : String) (reads : List Read)
    → (check_write resolve session_id path current_hash false (record_reads resolve reads) ≡ ok tt)
      ↔ (last_read resolve session_id path reads ≡ some current_hash)
unfolding check_write
check_write_lem resolve session_id path current_hash reads =
    rw (check_sessions (get (record_reads resolve reads) (resolve path)) session_id current_hash) (
      rw (recorded_last resolve session_id path reads)
        (check_recorded_lem (last_read resolve session_id path reads) current_hash))
