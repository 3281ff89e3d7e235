-- ===== src/Repository/Lives.antt =====
-- The abstract view of the repository: a Run is a status with a log of event types, and the log only
-- grows along the transitions of `Life`. What a method does to the tables of Runs and of events is
-- one of the `Effect`s.
pub mod Queries
pub mod Methods
pub mod Ends
pub mod Starts
pub mod Quiet
pub mod Births
pub mod Sweep
pub mod Orphans
pub mod Histories
pub mod Refinement
pub mod Log
pub mod Threads
pub mod Pages
use work_assistant_agent.Prelude.{
  ℕ, suc, ◌+◌, ◌≡◌, refl, Bool, true, false, String, Option, none, some, List, [], ◌∷◌, ◌++◌, ok,
  map, any, length, contains, All, is_none, is_some, not,
}
use work_assistant_agent.Prelude.Dict.{Dict, lookup, insert, has_key, values}
use work_assistant_agent.Schemas.Payload.{runtime_event_types, validate_product_event}
use work_assistant_agent.Repository.Records.{
  RunStatus, is_active, RunRecord, EventRecord, Store, clashes,
}

-- The transitions of a Run, each with the types of the events that it adds to the log.
pub data Life : RunStatus → RunStatus → List String → Type 0 where
  starts : Life RunStatus.created RunStatus.running ("run.started" ∷ [])
  emits :
      (t : String)
      → contains t runtime_event_types ≡ true
      → Life RunStatus.running RunStatus.running (t ∷ [])
  completes :
      Life RunStatus.running RunStatus.completed ("message.completed" ∷ "run.completed" ∷ [])
  fails : {a : RunStatus} → is_active a ≡ true → Life a RunStatus.failed ("run.failed" ∷ [])
  cancels : {a : RunStatus} → is_active a ≡ true → Life a RunStatus.cancelled ("run.cancelled" ∷ [])

abbrev pub types : List EventRecord → List String
types rows = map (λ (e : EventRecord). e.type) rows

-- The events of one Run with the numbers after `n`.
abbrev pub IsNumbered : String → ℕ → List EventRecord → Type 0
IsNumbered id n [] = Unit
IsNumbered id n (e ∷ rows) = (e.run_id ≡ id) × (e.seq ≡ suc n) × IsNumbered id (suc n) rows

abbrev pub IsStored : EventRecord → Type 0
IsStored e = validate_product_event e.type e.payload ≡ ok e.payload

-- What a Run keeps, whatever becomes of it.
pub record IsSameRun (r r' : RunRecord) : Type 0 where
  pub same_thread : r'.thread_id ≡ r.thread_id
  pub same_key : r'.idempotency_key ≡ r.idempotency_key
  pub same_actor : r'.actor_subject ≡ r.actor_subject
  pub same_plan : r'.execution_plan ≡ r.execution_plan
  pub same_metering : r'.metering_version ≡ r.metering_version
  pub same_creation : r'.created_at ≡ r.created_at

-- A Run has its time of completion exactly if it is not active, and then, where it is metered, its
-- usage; an active Run has neither usage nor outcome.
pub record IsSettled (r : RunRecord) : Type 0 where
  pub completion : is_some r.completed_at ≡ not (is_active r.status)
  pub no_usage : is_active r.status ≡ true → r.usage_metrics ≡ none
  pub no_outcome : is_active r.status ≡ true → r.execution_outcome ≡ none
  pub has_usage :
      is_active r.status ≡ false
      → is_some r.metering_version ≡ true
      → is_some r.usage_metrics ≡ true

pub record Advance (id : String) (r r' : RunRecord) (rows : Dict EventRecord) : Type 0 where
  pub life : Life r.status r'.status (types (values rows))
  pub numbered : IsNumbered id r.last_seq (values rows)
  pub counted : r'.last_seq ≡ r.last_seq + length rows
  pub stored : All IsStored (values rows)
  pub same : IsSameRun r r'
  pub settled : IsSettled r → IsSettled r'

pub data Effect (s t : Store) : Type 0 where
  quiet : t.runs ≡ s.runs → t.events ≡ s.events → Effect s t
  creates :
      (id : String) (r : RunRecord)
      → has_key id s.runs ≡ false
      → any (clashes r) (values s.runs) ≡ false
      → r.status ≡ RunStatus.created
      → r.last_seq ≡ 0
      → IsSettled r
      → t.runs ≡ s.runs ++ (id, r) ∷ []
      → t.events ≡ s.events
      → Effect s t
  advances :
      (id : String) (r r' : RunRecord) (rows : Dict EventRecord)
      → lookup id s.runs ≡ some r
      → Advance id r r' rows
      → t.runs ≡ insert id r' s.runs
      → t.events ≡ s.events ++ rows
      → Effect s t

pub data Effects (s : Store) : Store → Type 0 where
  unchanged : Effects s s
  next : {t u : Store} → Effects s t → Effect t u → Effects s u
