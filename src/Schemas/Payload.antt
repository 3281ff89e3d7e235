-- ===== src/Schemas/Payload.antt =====
-- The payloads of the public events and their validation (backend/src/work_assistant/schemas.py).
-- A payload is a dict of texts, a dict with a message, with or without its key `run_id`, or a dict with the status of a Run; of the
-- last, a key that is missing and one that is null are both `none`.
pub mod Stored
use work_assistant_agent.Prelude.{
  ℕ, Bool, true, false, ◌&&◌, ◌||◌, not, String, Option, none, some, List, [], ◌∷◌, Result, ok, err,
  contains, str_eq, is_none, is_some, if◌then◌else◌,
}
use work_assistant_agent.Capabilities.Values.{Fields}
use work_assistant_agent.Usage.Run.{RunUsage, validate_state}
use work_assistant_agent.Policy.Violation.{
  RunFailureCode, run_timeout, agent_execution_failed, service_restarted, model_step_limit,
  tool_call_limit, repeated_tool_call, no_progress, tool_not_allowed, result_schema_invalid,
  source_validation_failed,
}
use work_assistant_agent.Schemas.Fields.{FieldRule, validate_fields}

pub data MessageRole : Type 0 where
  user assistant : MessageRole

pub record Message : Type 0 where
  pub message_id : String
  pub role : MessageRole
  pub content : String
  pub created_at : ℕ
  pub run_id : Option String

pub record StatusPayload : Type 0 where
  pub status : String
  pub error_code : Option String
  pub usage : Option RunUsage

-- A message whose key `run_id` is missing.
pub record BareMessage : Type 0 where
  pub message_id : String
  pub role : MessageRole
  pub content : String
  pub created_at : ℕ

pub data Payload : Type 0 where
  texts : Fields → Payload
  with_message : Message → Payload
  with_bare_message : BareMessage → Payload
  with_status : StatusPayload → Payload

-- The names of `RunFailureCode`.
abbrev pub code_name : RunFailureCode → String
code_name run_timeout = "run_timeout"
code_name agent_execution_failed = "agent_execution_failed"
code_name service_restarted = "service_restarted"
code_name model_step_limit = "model_step_limit"
code_name tool_call_limit = "tool_call_limit"
code_name repeated_tool_call = "repeated_tool_call"
code_name no_progress = "no_progress"
code_name tool_not_allowed = "tool_not_allowed"
code_name result_schema_invalid = "result_schema_invalid"
code_name source_validation_failed = "source_validation_failed"

abbrev pub failure_codes : List String
failure_codes =
    "run_timeout" ∷ "agent_execution_failed" ∷ "service_restarted" ∷ "model_step_limit"
    ∷ "tool_call_limit" ∷ "repeated_tool_call" ∷ "no_progress" ∷ "tool_not_allowed"
    ∷ "result_schema_invalid" ∷ "source_validation_failed" ∷ []

abbrev required : String → ℕ → FieldRule
required key most = record { key = key; least = 1; most = most; is_required = true }

abbrev pub tool_started_rules : List FieldRule
tool_started_rules =
    required "tool_call_id" 128
    ∷ required "name" 128
    ∷ required "label" 200
    ∷ record { key = "input_summary"; least = 0; most = 500; is_required = false }
    ∷ []

abbrev pub tool_finished_rules : List FieldRule
tool_finished_rules =
    required "tool_call_id" 128
    ∷ required "name" 128
    ∷ required "label" 200
    ∷ required "output_summary" 1000
    ∷ []

abbrev pub message_delta_rules : List FieldRule
message_delta_rules = required "delta" 8000 ∷ []

abbrev pub source_added_rules : List FieldRule
source_added_rules =
    required "source_id" 128 ∷ required "label" 200 ∷ required "description" 1000 ∷ []

-- A model of a payload: texts by their rules, a message, or a status with what may stand beside it.
pub data PayloadModel : Type 0 where
  of_texts : List FieldRule → PayloadModel
  of_message : PayloadModel
  of_status : String → Bool → Bool → PayloadModel

-- `EVENT_PAYLOAD_MODELS.get(event_type)`
unfoldable pub payload_model : String → Option PayloadModel
payload_model t =
    if str_eq t "run.started"
    then some (of_status "running" false false)
    else if str_eq t "tool.started"
    then some (of_texts tool_started_rules)
    else if str_eq t "tool.finished"
    then some (of_texts tool_finished_rules)
    else if str_eq t "message.delta"
    then some (of_texts message_delta_rules)
    else if str_eq t "source.added"
    then some (of_texts source_added_rules)
    else if str_eq t "message.completed"
    then some of_message
    else if str_eq t "run.completed"
    then some (of_status "completed" false true)
    else if str_eq t "run.failed"
    then some (of_status "failed" true true)
    else if str_eq t "run.cancelled"
    then some (of_status "cancelled" false true)
    else none

-- `error_code: RunFailureCode`, in the one model that has it
abbrev pub code_fits : Bool → Option String → Bool
code_fits true none = false
code_fits true (some c) = contains c failure_codes
code_fits false c = is_none c

-- `usage: RunUsage | None`, in the models that have it
abbrev pub usage_fits : Bool → Option RunUsage → Bool
usage_fits takes none = true
usage_fits false (some u) = false
usage_fits true (some u) = elim (validate_state u) [ ok _ ↦ true | err _ ↦ false ]

-- `ProductEventValidationError`
pub data EventFault : Type 0 where
  unsupported_product_event invalid_product_event_payload runtime_event_not_allowed : EventFault

abbrev pub fitting : Option Fields → Result EventFault Payload
fitting none = err invalid_product_event_payload
fitting (some d) = ok (texts d)

-- `exclude_none=True` drops the key of a `run_id` that is null.
unfoldable pub dumped_message : Message → Payload
dumped_message m = elim m.run_id [
  | some _ ↦ with_message m
  | none ↦ with_bare_message (record {
    message_id = m.message_id;
    role = m.role;
    content = m.content;
    created_at = m.created_at;
  })
]

-- `payload_model.model_validate(data)`, dumped again; a message must have its key `run_id`.
unfoldable pub validate_payload : PayloadModel → Payload → Result EventFault Payload
unfolding validate_fields dumped_message
validate_payload (of_texts rules) (texts d) = fitting (validate_fields rules d)
validate_payload of_message (with_message m) = ok (dumped_message m)
validate_payload (of_status status takes_code takes_usage) (with_status p) =
    if str_eq p.status status
      && (code_fits takes_code p.error_code && usage_fits takes_usage p.usage)
    then ok (with_status p)
    else err invalid_product_event_payload
validate_payload _ _ = err invalid_product_event_payload

abbrev pub validate_by : Option PayloadModel → Payload → Result EventFault Payload
validate_by none p = err unsupported_product_event
validate_by (some m) p = validate_payload m p

unfoldable pub validate_product_event : String → Payload → Result EventFault Payload
unfolding payload_model validate_payload
validate_product_event event_type p = validate_by (payload_model event_type) p

-- `RUNTIME_EVENT_TYPES`
abbrev pub runtime_event_types : List String
runtime_event_types = "tool.started" ∷ "tool.finished" ∷ "message.delta" ∷ "source.added" ∷ []

unfoldable pub validate_runtime_event : String → Payload → Result EventFault (String × Payload)
unfolding validate_product_event
validate_runtime_event event_type p =
    if not (contains event_type runtime_event_types)
    then err runtime_event_not_allowed
    else elim (validate_product_event event_type p) [ ok q ↦ ok (event_type, q) | err e ↦ err e ]

abbrev pub current_code : Option String → Option String
current_code none = none
current_code (some c) =
    if str_eq c "agent_result_missing" then some "agent_execution_failed" else some c

-- `normalize_stored_product_event`
unfoldable pub normalize_stored_product_event : String → Payload → Payload
normalize_stored_product_event event_type (texts d) = texts d
normalize_stored_product_event event_type (with_message m) = with_message m
normalize_stored_product_event event_type (with_bare_message m) = with_bare_message m
normalize_stored_product_event event_type (with_status p) =
    if str_eq event_type "run.failed"
    then with_status (record p { error_code = current_code p.error_code })
    else with_status p
