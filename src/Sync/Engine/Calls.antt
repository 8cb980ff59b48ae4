-- ===== src/Sync/Engine/Calls.antt =====
-- What the orchestrator does to the outside: its calls of the provider, of the repository and of the
-- lease manager, in the order in which it makes them, with the answers as a parameter.
use worshiptool_churchtools.Prelude.{
  ℕ, String, Bool, true, false, Option, List, ◌∷◌, Dict, count_if,
}
use worshiptool_churchtools.Sync.Errors.{Result, ok, raise, Raised}
use worshiptool_churchtools.Sync.Models.{
  ActionExecution, Agenda, AgendaItem, Arrangement, Ownership, Payload, PlannedAction, TargetSong,
  EventPlan, RunStatus, SyncPlan,
}

pub data Call : Type 0 where
  create_song : Payload → String → Call
  create_arrangement : String → String → String → Call
  insert_agenda_song :
      String → String → List (String × String) → String → Option String → Option String → Call
  replace_agenda_song : String → String → String → List (String × String) → String → Call
  delete_agenda_item : String → String → String → Call
  get_song : String → Call
  get_agenda : String → Call
  action_started : PlannedAction → Call
  action_finished : ActionExecution → Call
  bind_ownership : Ownership → Call
  unbind_ownership : String → String → String → Call
  cancel_requested : Call
  prior_executions : Call
  record_event_synced : EventPlan → Call
  acquire : String → Call
  release : String → Call
  renew_run_lease : Call
  renew_event_lease : String → Call
  claim load_plan open_target open_source now list_source_songs list_target_songs : Call
  list_source_events list_target_events : ℕ → ℕ → Call
  event_sync_states : List (String × String) → Call
  ownerships : String → Call
  persist_plan : SyncPlan → Call
  finish : RunStatus → Option Raised → Call

-- The calls that change the target.
abbrev pub is_write : Call → Bool
is_write (Call.create_song payload key) = true
is_write (Call.create_arrangement song name key) = true
is_write (Call.insert_agenda_song event arrangement defaults key before after) = true
is_write (Call.replace_agenda_song event item arrangement defaults key) = true
is_write (Call.delete_agenda_item event item key) = true
is_write _ = false

-- The answers, given the calls so far, newest first, with the one that is answered in front.
-- `lease_lost` is the event that the heartbeat sets.
pub record Ports : Type 0 where
  pub song : List Call → Result TargetSong
  pub arrangement : List Call → Result Arrangement
  pub item : List Call → Result AgendaItem
  pub agenda : List Call → Result Agenda
  pub flag : List Call → Result Bool
  pub executions : List Call → Result (Dict ActionExecution)
  pub done : List Call → Result (Unit {0})
  pub lease_lost : List Call → Bool

-- The calls made, newest first, and `progress.resources`.
pub record World : Type 0 where
  pub calls : List Call
  pub resources : Dict String

abbrev pub Action : Type 0 → Type 0
Action A = World → Result A × World

unfoldable pub pure : {A : Type 0} → A → Action A
pure a = λ w. (ok a, w)

unfoldable pub fail : {A : Type 0} → Raised → Action A
fail e = λ w. (raise e, w)

module _ {A B : Type 0} where
  abbrev pub and_then : Result A × World → (A → Action B) → Result B × World
  and_then (ok a, w) k = k a w
  and_then (raise e, w) k = (raise e, w)

  infixl 5 ◌>>=◌ ◌>>◌
  unfoldable pub ◌>>=◌ : Action A → (A → Action B) → Action B
  m >>= k = λ w. and_then (m w) k

  unfoldable pub ◌>>◌ : Action A → Action B → Action B
  m >> n = m >>= λ _. n

module _ {A : Type 0} where
  abbrev pub or_else : Result A × World → (Raised → Action A) → Result A × World
  or_else (ok a, w) k = (ok a, w)
  or_else (raise e, w) k = k e w

  -- `try: m` with `except` clauses that take every exception
  unfoldable pub handle : Action A → (Raised → Action A) → Action A
  handle m k = λ w. or_else (m w) k

  abbrev pub close : Result A → Result (Unit {0}) × World → Result A × World
  close r (ok u, w) = (r, w)
  close r (raise e, w) = (raise e, w)

  -- `try: m` with `finally: f`
  unfoldable pub finally : Action A → Action (Unit {0}) → Action A
  finally m f w = let (r, w') = m w in close r (f w')

  -- One call, with its answer.
  unfoldable pub perform : (List Call → Result A) → Call → Action A
  perform answer c w = (answer (c ∷ w.calls), record w { calls = c ∷ w.calls })

  unfoldable pub lift : Result A → Action A
  lift (ok a) = pure a
  lift (raise e) = fail e

unfoldable pub resources_of : Action (Dict String)
resources_of = λ w. (ok w.resources, w)

unfoldable pub set_resources : Dict String → Action (Unit {0})
set_resources d = λ w. (ok tt, record w { resources = d })

abbrev pub writes : World → ℕ
writes w = count_if is_write w.calls
