-- ===== src/Breakpoints/Pausing.antt =====
-- internal/breakpoints/manager.go: holding a request, and the decisions that release it.
use api_x.Base.{
  ==_iff, ℕ, Text, Bool, true, false, Option, none, some, List, [], ◌∷◌, ◌==◌, if◌then◌else◌, ◌≡◌,
  refl, any,
}
use api_x.Base.Strings.{text_eq_refl}
use api_x.Base.Maps.{Assoc, lookup, insert, delete, lookup-insert, lookup-delete}
use api_x.Regex.{RegexLib}
use api_x.Breakpoints.{Manager, PausedEntry, ResumeDecision, resumed}

-- `close` panics on a closed channel.
pub data Resumption (lib : RegexLib) (Msg : Type 0) : Type 0 where
  not_paused panics : Resumption lib Msg
  resumes : Manager lib Msg → Resumption lib Msg

abbrev pub store :
    {Msg : Type 0} → (ℕ → PausedEntry Msg) → ℕ → PausedEntry Msg → ℕ → PausedEntry Msg
store h a e b = if a == b then e else h b

abbrev pub decided : {Msg : Type 0} → PausedEntry Msg → ResumeDecision Msg → PausedEntry Msg
decided e d = record e { decision = some d; state = resumed; closed = true }

abbrev pub drop_channel : ℕ → List ℕ → List ℕ
drop_channel ch [] = []
drop_channel ch (c ∷ cs) = let rest = drop_channel ch cs in if c == ch then rest else c ∷ rest

forgotten : (id : Text) (ps : Assoc ℕ) → lookup id (delete id ps) ≡ none
forgotten id ps = rw (lookup-delete id id ps, text_eq_refl id)

module _ {lib : RegexLib} {Msg : Type 0} where
  -- `Pause` of the entry at an address, up to its select; the send to the subscribers is left out
  unfoldable pub pause : ℕ → Manager lib Msg → Manager lib Msg
  unfolding insert
  pause a m = record m { paused_reqs = insert (m.heap a).request_id a m.paused_reqs }

  -- The case of the select in which `done` is closed: the decision that `Pause` returns.
  unfoldable pub pause_resumed :
      ℕ → Manager lib Msg → Option (Manager lib Msg × Option (ResumeDecision Msg))
  unfolding delete
  pause_resumed a m =
      if (m.heap a).closed
      then some (
        record m { paused_reqs = delete (m.heap a).request_id m.paused_reqs },
        (m.heap a).decision,
      )
      else none

  -- The case of the select in which the context is cancelled.
  unfoldable pub pause_cancelled : ℕ → Manager lib Msg → Manager lib Msg
  unfolding delete
  pause_cancelled a m = record m { paused_reqs = delete (m.heap a).request_id m.paused_reqs }

  abbrev resume_at : Option ℕ → ResumeDecision Msg → Manager lib Msg → Resumption lib Msg
  resume_at none d m = not_paused
  resume_at (some a) d m =
      if (m.heap a).closed
      then panics
      else resumes (record m { heap = store m.heap a (decided (m.heap a) d) })

  -- `Resume`
  unfoldable pub resume : Text → ResumeDecision Msg → Manager lib Msg → Resumption lib Msg
  unfolding lookup
  resume id d m = resume_at (lookup id m.paused_reqs) d m

  -- `Subscribe`, where `ch` is the channel that it makes
  unfoldable pub subscribe : ℕ → Manager lib Msg → Manager lib Msg
  subscribe ch m = record m { subscribers = ch ∷ m.subscribers }

  -- `Unsubscribe`, and whether it closes the channel
  unfoldable pub unsubscribe : ℕ → Manager lib Msg → Manager lib Msg × Bool
  unsubscribe ch m =
      (record m { subscribers = drop_channel ch m.subscribers }, any (λ c. c == ch) m.subscribers)

  -- What `Resume` makes of the manager in which the entry at an address has just been paused.
  abbrev resumed_with : ℕ → ResumeDecision Msg → Manager lib Msg → Manager lib Msg
  resumed_with a d m = record (pause a m) { heap = store m.heap a (decided (m.heap a) d) }

  lookup_paused :
      (a : ℕ) (m : Manager lib Msg) → lookup (m.heap a).request_id (pause a m).paused_reqs ≡ some a
  unfolding pause
  lookup_paused a m = rw (
    lookup-insert (m.heap a).request_id (m.heap a).request_id a m.paused_reqs,
    text_eq_refl (m.heap a).request_id,
  )

  resume-pause :
      (a : ℕ) (d : ResumeDecision Msg) (m : Manager lib Msg)
      → (m.heap a).closed ≡ false
      → resume (m.heap a).request_id d (pause a m) ≡ resumes (resumed_with a d m)
  unfolding resume pause
  resume-pause a d m fresh = rw (text_eq_refl (m.heap a).request_id, fresh)

  released :
      (a : ℕ) (d : ResumeDecision Msg) (m : Manager lib Msg)
      → pause_resumed a (resumed_with a d m)
        ≡ some (
          record (resumed_with a d m) {
            paused_reqs = delete (m.heap a).request_id (pause a m).paused_reqs;
          },
          some d,
        )
  unfolding pause_resumed
  released a d m = rw ((==_iff a a).1 refl)

  -- A request that is paused and then resumed goes on with exactly that decision, and is paused no more.
  pub decision_arrives :
      (a : ℕ) (d : ResumeDecision Msg) (m : Manager lib Msg)
      → (m.heap a).closed ≡ false
      → (m' : Manager lib Msg) × (m'' : Manager lib Msg) × (resume
            (m.heap a).request_id
            d
            (pause a m)
          ≡ resumes m')
        × (pause_resumed a m' ≡ some (m'', some d))
        × (lookup (m.heap a).request_id m''.paused_reqs ≡ none)
  unfolding resume pause pause_resumed
  decision_arrives a d m fresh = (
    _,
    _,
    resume-pause a d m fresh,
    released a d m,
    forgotten (m.heap a).request_id (pause a m).paused_reqs,
  )

  resume-resumed :
      (a : ℕ) (d d' : ResumeDecision Msg) (m : Manager lib Msg)
      → resume (m.heap a).request_id d' (resumed_with a d m) ≡ panics
  unfolding resume pause
  resume-resumed a d d' m = rw (text_eq_refl (m.heap a).request_id, (==_iff a a).1 refl)

  -- A second decision before the paused request has gone on closes its channel again and panics.
  pub second_resume-panics :
      (a : ℕ) (d d' : ResumeDecision Msg) (m : Manager lib Msg)
      → (m.heap a).closed ≡ false
      → (m' : Manager lib Msg) × (resume (m.heap a).request_id d (pause a m) ≡ resumes m')
        × (resume (m.heap a).request_id d' m' ≡ panics)
  unfolding resume pause
  second_resume-panics a d d' m fresh = (_, resume-pause a d m fresh, resume-resumed a d d' m)
