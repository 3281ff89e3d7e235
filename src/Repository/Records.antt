-- ===== src/Repository/Records.antt =====
-- The tables of backend/src/work_assistant/models.py and the transactions of
-- backend/src/work_assistant/repository.py on them. A table is a dict from the primary key to the
-- other columns, in order of insertion, and a stored JSON document is the record that it was dumped
-- from. No row is ever deleted, and each row is inserted after the rows that it refers to were
-- read, so foreign keys hold; the widths of the columns are not modelled.
use work_assistant_agent.Prelude.{
  ℕ, Bool, true, false, ◌&&◌, ◌||◌, not, String, Option, none, some, [], ◌∷◌, ◌++◌, Result, ok, err,
  Exec, any, str_eq, ◌==◌, if◌then◌else◌, leb,
}
use work_assistant_agent.Prelude.Dict.{Dict, lookup, insert, has_key, values}
use work_assistant_agent.Usage.Metric.{UsageFault}
use work_assistant_agent.Usage.Run.{ProviderTokenUsage, RunUsage}
use work_assistant_agent.Usage.Ledger.Types.{ModelCallKind, ModelAttemptStatus}
use work_assistant_agent.Policy.Plan.{ExecutionPlanEvidence}
use work_assistant_agent.Policy.Evidence.{ExecutionOutcomeEvidence, EvidenceFault}
use work_assistant_agent.Schemas.Payload.{MessageRole, Payload, EventFault}

pub data RunStatus : Type 0 where
  created running completed failed cancelled : RunStatus

-- `status in ACTIVE_STATUSES`
abbrev pub is_active : RunStatus → Bool
is_active created = true
is_active running = true
is_active _ = false

abbrev pub is_created : RunStatus → Bool
is_created created = true
is_created _ = false

abbrev pub is_running : RunStatus → Bool
is_running running = true
is_running _ = false

abbrev pub is_run_completed : RunStatus → Bool
is_run_completed completed = true
is_run_completed _ = false

pub record ThreadRecord : Type 0 where
  pub owner_subject : String
  pub title : String
  pub created_at : ℕ
  pub updated_at : ℕ

pub record RunRecord : Type 0 where
  pub thread_id : String
  pub idempotency_key : String
  pub actor_subject : String
  pub status : RunStatus
  pub last_seq : ℕ
  pub execution_plan : Option ExecutionPlanEvidence
  pub execution_outcome : Option ExecutionOutcomeEvidence
  pub metering_version : Option String
  pub first_visible_at : Option ℕ
  pub usage_metrics : Option RunUsage
  pub created_at : ℕ
  pub completed_at : Option ℕ

-- The five token columns are `tokens`.
pub record ModelAttemptRecord : Type 0 where
  pub run_id : String
  pub thread_id : String
  pub call_index : ℕ
  pub attempt_index : ℕ
  pub call_kind : ModelCallKind
  pub status : ModelAttemptStatus
  pub started_at : ℕ
  pub completed_at : Option ℕ
  pub tokens : ProviderTokenUsage

pub record MessageRecord : Type 0 where
  pub thread_id : String
  pub run_id : Option String
  pub role : MessageRole
  pub content : String
  pub created_at : ℕ

pub record EventRecord : Type 0 where
  pub run_id : String
  pub thread_id : String
  pub seq : ℕ
  pub type : String
  pub occurred_at : ℕ
  pub payload : Payload

-- The tables, and `_fatal_error` of the `ProductRepository`.
pub record Store : Type 0 where
  pub threads : Dict ThreadRecord
  pub runs : Dict RunRecord
  pub attempts : Dict ModelAttemptRecord
  pub messages : Dict MessageRecord
  pub events : Dict EventRecord
  pub fatal_error : Option String

abbrev pub empty_store : Store
empty_store = record {
  threads = [];
  runs = [];
  attempts = [];
  messages = [];
  events = [];
  fatal_error = none;
}

pub data ResourceKind : Type 0 where
  of_thread of_run : ResourceKind

-- The exceptions of the repository and of what it calls, with their messages.
pub data RepositoryError : Type 0 where
  resource_not_found : String → RepositoryError
  resource_forbidden : ResourceKind → RepositoryError
  active_run_conflict initial_thread_exists idempotency_mismatch : RepositoryError
  repository_unavailable : String → RepositoryError
  policy_kernel_configuration : String → RepositoryError
  usage_metering : String → RepositoryError
  usage_invalid : UsageFault → RepositoryError
  evidence_invalid : EvidenceFault → RepositoryError
  product_event_invalid : EventFault → RepositoryError
  integrity_error : RepositoryError

abbrev pub Repo : Type 0 → Type 0
Repo A = Exec RepositoryError Store A

abbrev pub Checked : Type 0 → Type 0
Checked A = Result RepositoryError A

module _ {A : Type 0} where
  -- `async with self._sessions() as session, session.begin()`: an exception rolls back.
  unfoldable pub transaction : Repo A → Repo A
  transaction m s = let (r, t) = m s in (r, elim r [ ok _ ↦ t | err _ ↦ s ])

  -- A query, with the checks on its rows.
  unfoldable pub reads : (Store → Checked A) → Repo A
  reads f s = (f s, s)

-- Rows that were added are written at the end of the transaction, or at the next flush: a primary
-- key that is taken, or a broken constraint, is an `IntegrityError`.
unfoldable pub add_thread : String → ThreadRecord → Repo (Unit {0})
add_thread id thread s =
    if has_key id s.threads
    then (err integrity_error, s)
    else (ok tt, record s { threads = s.threads ++ (id, thread) ∷ [] })

-- `uq_product_run_idempotency` and `uq_product_run_one_active_thread`
unfoldable pub clashes : RunRecord → RunRecord → Bool
clashes new old =
    str_eq old.thread_id new.thread_id
    && (str_eq old.idempotency_key new.idempotency_key
        || (is_active old.status && is_active new.status))

unfoldable pub add_run : String → RunRecord → Repo (Unit {0})
unfolding clashes
add_run id run s =
    if has_key id s.runs || any (clashes run) (values s.runs)
    then (err integrity_error, s)
    else (ok tt, record s { runs = s.runs ++ (id, run) ∷ [] })

-- `uq_product_model_attempt_position`
unfoldable pub same_position : String → ℕ → ℕ → ModelAttemptRecord → Bool
same_position run_id call attempt a =
    str_eq a.run_id run_id && (a.call_index == call && a.attempt_index == attempt)

-- With the checks on the two indices.
unfoldable pub add_attempt : String → ModelAttemptRecord → Repo (Unit {0})
unfolding same_position
add_attempt id a s =
    if has_key id s.attempts
      || (any (same_position a.run_id a.call_index a.attempt_index) (values s.attempts)
          || not (leb 1 a.call_index && leb 1 a.attempt_index))
    then (err integrity_error, s)
    else (ok tt, record s { attempts = s.attempts ++ (id, a) ∷ [] })

unfoldable pub add_message : String → MessageRecord → Repo (Unit {0})
add_message id message s =
    if has_key id s.messages
    then (err integrity_error, s)
    else (ok tt, record s { messages = s.messages ++ (id, message) ∷ [] })

-- `uq_product_event_run_seq`
unfoldable pub same_place : EventRecord → EventRecord → Bool
same_place new old = str_eq old.run_id new.run_id && old.seq == new.seq

unfoldable pub add_event : String → EventRecord → Repo (Unit {0})
unfolding same_place
add_event id event s =
    if has_key id s.events || any (same_place event) (values s.events)
    then (err integrity_error, s)
    else (ok tt, record s { events = s.events ++ (id, event) ∷ [] })

-- Changes of a row that was read.
unfoldable pub put_thread : String → ThreadRecord → Store → Store
put_thread id thread s = record s { threads = insert id thread s.threads }

unfoldable pub put_run : String → RunRecord → Store → Store
put_run id run s = record s { runs = insert id run s.runs }

-- `ck_product_model_attempt_completed_at`
unfoldable pub attempt_fits : ModelAttemptRecord → Bool
attempt_fits a = elim a.completed_at [ none ↦ true | some end ↦ leb a.started_at end ]

unfoldable pub put_attempt : String → ModelAttemptRecord → Repo (Unit {0})
unfolding attempt_fits
put_attempt id a s =
    if attempt_fits a
    then (ok tt, record s { attempts = insert id a s.attempts })
    else (err integrity_error, s)

abbrev updated_run :
    Option RunRecord
    → String
    → (RunRecord → Bool)
    → (RunRecord → RunRecord)
    → Repo (Option RunRecord)
updated_run none id guard change s = (ok none, s)
updated_run (some run) id guard change s =
    if guard run then (ok (some (change run)), put_run id (change run) s) else (ok none, s)

-- `UPDATE product_runs SET change WHERE id = :id AND guard RETURNING *`
unfoldable pub update_run :
    String → (RunRecord → Bool) → (RunRecord → RunRecord) → Repo (Option RunRecord)
unfolding put_run
update_run id guard change s = updated_run (lookup id s.runs) id guard change s
