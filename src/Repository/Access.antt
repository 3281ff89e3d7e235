-- ===== src/Repository/Access.antt =====
-- `ExactOwnershipAuthorizer` (backend/src/work_assistant/authorization.py), and the checks that the
-- methods of backend/src/work_assistant/repository.py share.
use text.Mathlib.Text.{starts_with}
use work_assistant_agent.Prelude.{
  Bool, ◌&&◌, not, String, Option, none, some, Result, ok, err, any, str_eq, if◌then◌else◌,
}
use work_assistant_agent.Prelude.Dict.{lookup, values}
use work_assistant_agent.Capabilities.Decision.{Principal}
use work_assistant_agent.Repository.Records.{
  Store, ThreadRecord, RunRecord, ResourceKind, of_thread, of_run, RepositoryError,
  resource_not_found, resource_forbidden, repository_unavailable, Checked,
}

-- `INTERNAL_SUBJECT_PREFIX`
abbrev pub internal_subject_prefix : String
internal_subject_prefix = "urn:work-assistant:internal:"

unfoldable pub is_internal : String → Bool
is_internal subject = starts_with subject internal_subject_prefix

-- `ExactOwnershipAuthorizer.require_owner`
unfoldable pub require_owner : Principal → String → ResourceKind → Checked (Unit {0})
unfolding is_internal
require_owner principal owner_subject kind =
    if is_internal owner_subject
    then err (resource_forbidden kind)
    else if not (str_eq principal.subject owner_subject)
    then err (resource_forbidden kind)
    else ok tt

unfoldable pub fail_closed : String → Store → Store
fail_closed reason s = elim s.fatal_error [
  | none ↦ record s { fatal_error = some reason }
  | some _ ↦ s
]

unfoldable pub require_available : Store → Checked (Unit {0})
require_available s = elim s.fatal_error [
  | none ↦ ok tt
  | some reason ↦ err (repository_unavailable reason)
]

abbrev pub found : {A : Type 0} → String → Option A → Result RepositoryError A
found what none = err (resource_not_found what)
found what (some a) = ok a

infixr 5 ◌|>=◌ ◌|>◌
-- Checks one after the other.
abbrev pub ◌|>=◌ : {A B : Type 0} → Checked A → (A → Checked B) → Checked B
ok a |>= f = f a
err e |>= f = err e

abbrev pub ◌|>◌ : {A B : Type 0} → Checked A → Checked B → Checked B
a |> b = a |>= λ _. b

unfoldable pub require_thread_owner : ThreadRecord → Principal → Checked (Unit {0})
unfolding require_owner
require_thread_owner t principal = require_owner principal t.owner_subject of_thread

unfoldable pub require_run_actor : RunRecord → Principal → ResourceKind → Checked (Unit {0})
unfolding require_owner
require_run_actor r principal kind = require_owner principal r.actor_subject kind

-- `_require_authorized_run`
unfoldable pub require_authorized_run : RunRecord → Principal → Store → Checked ThreadRecord
unfolding require_owner require_run_actor
require_authorized_run r principal s = found "run" (lookup r.thread_id s.threads) |>= λ t.
    require_owner principal t.owner_subject of_run |> require_run_actor r principal of_run |> ok t

-- A Run of the thread that another subject acts in.
unfoldable pub is_inconsistent : String → ThreadRecord → RunRecord → Bool
is_inconsistent thread_id t r =
    str_eq r.thread_id thread_id && not (str_eq r.actor_subject t.owner_subject)

-- `_require_thread_run_consistency`
unfoldable pub require_thread_run_consistency : String → ThreadRecord → Store → Checked (Unit {0})
unfolding is_inconsistent
require_thread_run_consistency thread_id t s =
    if any (is_inconsistent thread_id t) (values s.runs)
    then err (resource_not_found "run_ownership")
    else ok tt

-- `_require_internal_run_consistency`
unfoldable pub require_internal_run_consistency : Bool → RunRecord → Store → Checked ThreadRecord
unfolding is_internal
require_internal_run_consistency allow_internal r s = elim (lookup r.thread_id s.threads) [
  | none ↦ err (resource_not_found "run_ownership")
  | some t ↦
      if not (str_eq r.actor_subject t.owner_subject)
      then err (resource_not_found "run_ownership")
      else if not allow_internal && is_internal t.owner_subject
      then err (resource_not_found "run_ownership")
      else ok t
]
