-- ===== src/Repository/Creation.antt =====
-- The creation of threads and Runs: `create_thread`, `create_initial_run`, `create_run` and
-- `rename_thread` of backend/src/work_assistant/repository.py. A test of the Unicode category of a
-- character is a parameter.
pub mod Titles
pub mod Winners
pub mod Replays
use work_assistant_agent.Prelude.{
  ℕ, ◌+◌, Bool, true, false, ◌&&◌, not, String, Option, none, some, List, [], ◌∷◌, filter, length,
  Result, ok, err, Exec, pure, raise, lift, modify, ◌>>=◌, ◌>>◌, any, str_eq, ◌==◌, if◌then◌else◌,
}
use work_assistant_agent.Prelude.Dict.{Dict, lookup, values}
use work_assistant_agent.Capabilities.Decision.{Principal}
use work_assistant_agent.Usage.Run.{metering_schema_version}
use work_assistant_agent.Policy.Plan.{ExecutionPlanEvidence, valid_plan}
use work_assistant_agent.Schemas.Payload.{MessageRole}
use work_assistant_agent.Repository.Records.{
  RunStatus, is_active, Store, ThreadRecord, RunRecord, MessageRecord, RepositoryError,
  policy_kernel_configuration, active_run_conflict, initial_thread_exists, idempotency_mismatch,
  integrity_error, resource_not_found, of_thread, Repo, Checked, transaction, reads, put_thread,
  add_thread, add_run, add_message,
}
use work_assistant_agent.Repository.Access.{
  require_available, found, ◌|>=◌, ◌|>◌, require_thread_owner, require_run_actor,
  require_thread_run_consistency,
}
use work_assistant_agent.Repository.Views.{ThreadSummary, RunView, run_view, thread_summary}
use work_assistant_agent.Repository.Transitions.{view_of}
use work_assistant_agent.Repository.Creation.Titles.{initial_thread_title}

-- `validate_execution_plan`
unfoldable pub validate_execution_plan : ExecutionPlanEvidence → Checked ExecutionPlanEvidence
validate_execution_plan p =
    if valid_plan p then ok p else err (policy_kernel_configuration "execution_plan_invalid")

-- `title or "New conversation"`
abbrev pub title_or_default : Option String → String
title_or_default none = "New conversation"
title_or_default (some t) = if str_eq t "" then "New conversation" else t

abbrev pub new_thread : Principal → Option String → ℕ → ThreadRecord
new_thread principal title now = record {
  owner_subject = principal.subject;
  title = title_or_default title;
  created_at = now;
  updated_at = now;
}

-- The answer is the summary of the `ThreadSnapshot`, which holds nothing else yet.
unfoldable pub create_thread : String → Principal → Option String → ℕ → Repo ThreadSummary
unfolding transaction reads require_available add_thread thread_summary
create_thread id principal title now =
    let t = new_thread principal title now in
    reads require_available >> transaction (add_thread id t) >> pure (thread_summary id t)

abbrev pub new_run : Principal → String → String → ExecutionPlanEvidence → ℕ → RunRecord
new_run principal thread_id key plan now = record {
  thread_id = thread_id;
  idempotency_key = key;
  actor_subject = principal.subject;
  status = RunStatus.created;
  last_seq = 0;
  execution_plan = some plan;
  execution_outcome = none;
  metering_version = some metering_schema_version;
  first_visible_at = none;
  usage_metrics = none;
  created_at = now;
  completed_at = none;
}

abbrev pub user_message : String → String → String → ℕ → MessageRecord
user_message thread_id run_id content now = record {
  thread_id = thread_id;
  run_id = some run_id;
  role = MessageRole.user;
  content = content;
  created_at = now;
}

-- The Run of the thread with the key.
unfoldable pub run_of_key : String → String → Dict RunRecord → Option (String × RunRecord)
run_of_key thread_id key [] = none
run_of_key thread_id key ((id, r) ∷ runs) =
    if str_eq r.thread_id thread_id && str_eq r.idempotency_key key
    then some (id, r)
    else run_of_key thread_id key runs

-- `_active_run_query`; a thread has one active Run at most.
unfoldable pub active_run : String → Dict RunRecord → Option (String × RunRecord)
active_run thread_id [] = none
active_run thread_id ((id, r) ∷ runs) =
    if str_eq r.thread_id thread_id && is_active r.status
    then some (id, r)
    else active_run thread_id runs

abbrev is_user : MessageRole → Bool
is_user MessageRole.user = true
is_user MessageRole.assistant = false

unfoldable pub is_question_of : String → String → MessageRecord → Bool
is_question_of thread_id run_id m =
    (elim m.run_id [ none ↦ false | some id ↦ str_eq id run_id ])
    && (str_eq m.thread_id thread_id && is_user m.role)

abbrev same_question : String → List MessageRecord → Checked (Unit {0})
same_question message (m ∷ []) =
    if str_eq m.content message then ok tt else err idempotency_mismatch
same_question message _ = err (resource_not_found "run_ownership")

-- `_resolve_initial_run_replay`
unfoldable pub resolve_initial_run_replay :
    Principal → String → String → String → ThreadRecord → Store → Checked (String × RunRecord)
unfolding require_thread_owner require_thread_run_consistency run_of_key require_run_actor
    is_question_of
resolve_initial_run_replay principal thread_id message key t s =
    require_thread_owner t principal
    |> require_thread_run_consistency thread_id t s
    |> elim (run_of_key thread_id key s.runs) [
      | none ↦ err initial_thread_exists
      | some (id, r) ↦
          require_run_actor r principal of_thread
          |> same_question message (filter (is_question_of thread_id id) (values s.messages))
          |> ok (id, r)
    ]

-- What the creation of a first Run answers, with whether it created.
pub record InitialRun : Type 0 where
  pub thread : ThreadSummary
  pub run : RunView
  pub was_created : Bool

-- The answer to a replay, in a store where the thread is.
unfoldable pub replayed_initial_run :
    Principal → String → String → String → ThreadRecord → Store → Checked InitialRun
unfolding resolve_initial_run_replay thread_summary run_view
replayed_initial_run principal thread_id message key t s =
    resolve_initial_run_replay principal thread_id message key t s |>= λ existing.
    run_view existing.0 existing.1 |>= λ view.
    ok (record { thread = thread_summary thread_id t; run = view; was_created = false })

-- The ids of a Run and of its question.
pub record RunIds : Type 0 where
  pub run : String
  pub message : String

module _ {A : Type 0} where
  abbrev pub recovered : Checked A → Repo A → Repo A
  recovered (err integrity_error) handler s = handler s
  recovered r handler s = (r, s)

  -- `except IntegrityError`
  unfoldable pub on_integrity : Repo A → Repo A → Repo A
  on_integrity m handler s = let (r, t) = m s in recovered r handler t

-- The three rows of a first Run.
unfoldable pub insert_thread_and_run :
    RunIds → String → String → ThreadRecord → RunRecord → Repo (Unit {0})
unfolding add_thread add_run add_message
insert_thread_and_run ids thread_id message t r =
    add_thread thread_id t
    >> add_run ids.run r
    >> add_message ids.message (user_message thread_id ids.run message r.created_at)

unfoldable pub view_initial : String → ThreadRecord → String → RunRecord → Repo InitialRun
unfolding view_of thread_summary
view_initial thread_id t run_id r = view_of run_id r >>= λ view.
    pure (record { thread = thread_summary thread_id t; run = view; was_created = true })

-- The handler of `create_initial_run`.
unfoldable pub reread_initial_run :
    Principal → String → String → String → Store → Checked InitialRun
unfolding replayed_initial_run
reread_initial_run principal thread_id message key s = elim (lookup thread_id s.threads) [
  | none ↦ err integrity_error
  | some existing ↦ replayed_initial_run principal thread_id message key existing s
]

module _ (is_control : ℕ → Bool) where
  abbrev pub first_thread : Principal → String → ℕ → ThreadRecord
  first_thread principal message now = record {
    owner_subject = principal.subject;
    title = initial_thread_title is_control message;
    created_at = now;
    updated_at = now;
  }

  -- The part of `create_initial_run` after a lookup that found no thread. Between the two another
  -- caller may have created it: the lookup of a row that is not there locks nothing.
  unfoldable pub insert_initial_run :
      RunIds → Principal → String → String → String → ExecutionPlanEvidence → ℕ → Repo InitialRun
  unfolding transaction reads on_integrity insert_thread_and_run view_initial reread_initial_run
  insert_initial_run ids principal thread_id message key plan now =
      let t : ThreadRecord = first_thread principal message now in
      let r : RunRecord = new_run principal thread_id key plan now in
      on_integrity
        (transaction (insert_thread_and_run ids thread_id message t r)
          >> view_initial thread_id t ids.run r)
        (reads (reread_initial_run principal thread_id message key))

  -- The lookup and, where it finds no thread, the insertion, with no other caller between.
  unfoldable pub create_initial_run :
      RunIds → Principal → String → String → String → ExecutionPlanEvidence → ℕ → Repo InitialRun
  unfolding reads require_available replayed_initial_run insert_initial_run validate_execution_plan
  create_initial_run ids principal thread_id message key plan now s =
      (reads require_available >> lift (validate_execution_plan plan) >>= λ validated. λ u.
          elim (lookup thread_id u.threads) [
            | some existing ↦
                reads (replayed_initial_run principal thread_id message key existing) u
            | none ↦ insert_initial_run ids principal thread_id message key validated now u
          ])
        s

-- A Run that is there already: the answer to a replay, or a conflict.
unfoldable pub existing_run :
    Principal → String → String → Store → Checked (Option (String × RunRecord))
unfolding run_of_key active_run require_run_actor
existing_run principal thread_id key s = elim (run_of_key thread_id key s.runs) [
  | some (id, r) ↦ require_run_actor r principal of_thread |> ok (some (id, r))
  | none ↦ elim (active_run thread_id s.runs) [
    | none ↦ ok none
    | some (id, r) ↦
        require_run_actor r principal of_thread
        |> (if str_eq r.idempotency_key key then ok (some (id, r)) else err active_run_conflict)
  ]
]

-- The owner's thread, whose Runs are the owner's.
unfoldable pub require_own_thread : Principal → String → Store → Checked ThreadRecord
unfolding require_thread_owner require_thread_run_consistency
require_own_thread principal thread_id s = found "thread" (lookup thread_id s.threads) |>= λ t.
    require_thread_owner t principal |> require_thread_run_consistency thread_id t s |> ok t

unfoldable pub insert_run :
    RunIds → String → String → RunRecord → ThreadRecord → Repo (String × RunRecord × Bool)
unfolding add_run add_message put_thread
insert_run ids thread_id message r t =
    add_run ids.run r
    >> add_message ids.message (user_message thread_id ids.run message r.created_at)
    >> modify (put_thread thread_id (record t { updated_at = r.created_at }))
    >> pure (ids.run, r, true)

abbrev pub found_or :
    Option (String × RunRecord)
    → Repo (String × RunRecord × Bool)
    → Repo (String × RunRecord × Bool)
found_or none m = m
found_or (some (id, r)) m = pure (id, r, false)

-- The transaction of `create_run`.
unfoldable pub find_or_insert_run :
    RunIds
    → Principal
    → String
    → String
    → String
    → ExecutionPlanEvidence
    → ℕ
    → Repo (String × RunRecord × Bool)
unfolding reads require_own_thread existing_run insert_run
find_or_insert_run ids principal thread_id message key plan now =
    reads (require_own_thread principal thread_id) >>= λ t.
    reads (existing_run principal thread_id key) >>= λ existing.
    found_or existing
      (insert_run ids thread_id message (new_run principal thread_id key plan now) t)

-- Its handler, which reads the winner of a race.
unfoldable pub reread_run : Principal → String → String → Repo (String × RunRecord × Bool)
unfolding reads require_own_thread existing_run
reread_run principal thread_id key =
    reads (require_own_thread principal thread_id)
    >> reads (existing_run principal thread_id key)
    >>= λ existing. found_or existing (raise integrity_error)

-- The view of the Run, with whether this call created it.
unfoldable pub view_created : String × RunRecord × Bool → Repo (RunView × Bool)
unfolding view_of
view_created (id, r, is_new) = view_of id r >>= λ view. pure (view, is_new)

unfoldable pub create_run :
    RunIds
    → Principal
    → String
    → String
    → String
    → ExecutionPlanEvidence
    → ℕ
    → Repo (RunView × Bool)
unfolding transaction reads require_available validate_execution_plan find_or_insert_run reread_run
    on_integrity view_created
create_run ids principal thread_id message key plan now =
    reads require_available >> lift (validate_execution_plan plan) >>= λ validated.
    on_integrity
      (transaction (find_or_insert_run ids principal thread_id message key validated now))
      (reread_run principal thread_id key)
    >>= view_created

unfoldable pub rename_thread : String → Principal → String → ℕ → Repo ThreadSummary
unfolding transaction reads require_available require_own_thread put_thread thread_summary
rename_thread thread_id principal title now =
    reads require_available
    >> transaction (
        reads (require_own_thread principal thread_id) >>= λ t.
        let renamed : ThreadRecord = record t { title = title; updated_at = now } in
        modify (put_thread thread_id renamed) >> pure (thread_summary thread_id renamed))
