-- ===== src/Policy/Admission.antt =====
-- What `RunExecution` demands of a Tool call before it starts, and that the event of the start is one
-- that it accepts (backend/src/work_assistant/execution_policy.py).
use work_assistant_agent.Prelude.{
  ℕ, ◌<◌, ◌≡◌, refl, true, false, String, some, arith, ok, contains, str_eq, eq_iff, Result-cases,
  Option-cases, Bool-cases, inl, inr, is_ok, ap, ◌∙◌, ◌↔◌,
}
use work_assistant_agent.Prelude.Dict.{lookup, insert, has_key, lookup-insert}
use work_assistant_agent.Prelude.Names.{take_text}
use work_assistant_agent.Capabilities.Values.{
  Fields, Value, text, null, other, same_value, same_fields, get_text,
}
use work_assistant_agent.Capabilities.Tools.{RegisteredTool}
use work_assistant_agent.Capabilities.Registry.{require, canonicalize_call, enabled_tool_ids}
use work_assistant_agent.Capabilities.Decision.{CapabilityDecision, decided}
use work_assistant_agent.Policy.State.{RunConfig, RunExecution, ProductEvent, ToolReservation}
use work_assistant_agent.Policy.Calls.{begin_tool_call, open_call, is_permitted, started_data}
use work_assistant_agent.Policy.Events.{validate_runtime_event, validate_started}
use work_assistant_agent.Policy.Invariant.{book, IsValid}

-- A decision of the capability policy that lets a Tool be called now: it comes from the policy that
-- admitted the Run, and it, the Run, the Agent and the registry all have the Tool.
pub record IsPermitted (c : RunConfig) (tool_id : String) : Type 0 where
  pub decision : CapabilityDecision
  pub answered :
      decided c.capability_policy c.principal c.agent (enabled_tool_ids c.tool_registry)
      ≡ some decision
  pub same_policy : decision.policy_id ≡ c.capability_decision.policy_id
  pub same_version : decision.policy_version ≡ c.capability_decision.policy_version
  pub allowed : contains tool_id decision.allowed_tools ≡ true
  pub visible : contains tool_id c.visible_tool_ids ≡ true
  pub agent_allows : contains tool_id c.agent.allowed_tools ≡ true
  pub is_base : contains tool_id c.agent.base_tools ≡ true
  pub is_required : is_ok (require c.tool_registry tool_id) ≡ true

is_permitted-IsPermitted :
    (c : RunConfig) (tool_id : String) → is_permitted c tool_id ≡ true → IsPermitted c tool_id
unfolding is_permitted
is_permitted-IsPermitted c tool_id h =
    elim (Option-cases
      (decided c.capability_policy c.principal c.agent (enabled_tool_ids c.tool_registry))) [
        | inl refused ↦ absurd (ground (arith, h, refused))
        | inr (d, answered) ↦ record {
          decision = d;
          answered = answered;
          same_policy =
              ground (arith, h, answered, eq_iff d.policy_id c.capability_decision.policy_id);
          same_version =
              ground
                (arith, h, answered, eq_iff d.policy_version c.capability_decision.policy_version);
          allowed = ground (arith, h, answered);
          visible = ground (arith, h, answered);
          agent_allows = ground (arith, h, answered);
          is_base = ground (arith, h, answered);
          is_required = ground (arith, h, answered);
        }
      ]

IsPermitted-is_permitted :
    (c : RunConfig) (tool_id : String) → IsPermitted c tool_id → is_permitted c tool_id ≡ true
unfolding is_permitted
IsPermitted-is_permitted c tool_id p = ground (
  arith,
  p.answered,
  p.allowed,
  p.visible,
  p.agent_allows,
  p.is_base,
  p.is_required,
  eq_iff p.decision.policy_id c.capability_decision.policy_id,
  eq_iff p.decision.policy_version c.capability_decision.policy_version,
  p.same_policy,
  p.same_version,
)

-- What a started Tool call rests on, at its reservation.
pub record IsAdmitted (c : RunConfig) (now : ℕ) (id tool_id : String) (arguments : Fields)
    (s : RunExecution) (r : ToolReservation) : Type 0 where
  pub validated : Fields
  pub in_time : now < s.deadline_at
  pub reserved : lookup id s.reservations ≡ some r
  pub same_tool : r.tool_id ≡ tool_id
  pub canonical :
      canonicalize_call c.fingerprint c.tool_registry tool_id arguments
      ≡ ok (validated, r.fingerprint)
  pub same_arguments : same_fields validated r.validated_arguments ≡ true
  pub is_new : has_key id s.started_calls ≡ false
  pub permitted : IsPermitted c tool_id

begin_tool_call-IsAdmitted :
    (c : RunConfig) (now : ℕ) (id tool_id : String) (arguments : Fields) (s : RunExecution)
    {x : Fields × ProductEvent}
    → (begin_tool_call c now id tool_id arguments s).0 ≡ ok x
    → (r : ToolReservation) × IsAdmitted c now id tool_id arguments s r
unfolding begin_tool_call lookup
begin_tool_call-IsAdmitted c now id tool_id arguments s h =
    elim (Option-cases (lookup id s.reservations)) [
      | inl missing ↦ absurd (ground (arith))
      | inr (r, found) ↦
          elim (Result-cases (canonicalize_call c.fingerprint c.tool_registry tool_id arguments)) [
            | inl (e, bad) ↦ absurd (ground (arith))
            | inr ((validated, fingerprint), good) ↦
                let same : fingerprint ≡ r.fingerprint =
                  ground (arith, eq_iff fingerprint r.fingerprint) in
                (
                  r,
                  record {
                    validated = validated;
                    in_time = ground arith;
                    reserved = found;
                    same_tool = ground (arith, eq_iff r.tool_id tool_id);
                    canonical = good ∙ ap (λ f. ok (validated, f)) same;
                    same_arguments = ground arith;
                    is_new = ground arith;
                    permitted = is_permitted-IsPermitted c tool_id (ground arith);
                  },
                )
          ]
    ]

IsAdmitted-begin_tool_call :
    (c : RunConfig) (now : ℕ) (id tool_id : String) (arguments : Fields) (s : RunExecution)
    (r : ToolReservation)
    → IsAdmitted c now id tool_id arguments s r
    → is_ok (begin_tool_call c now id tool_id arguments s).0 ≡ true
unfolding begin_tool_call lookup
IsAdmitted-begin_tool_call c now id tool_id arguments s r a = ground (
  arith,
  a.in_time,
  a.reserved,
  a.same_tool,
  a.canonical,
  a.same_arguments,
  a.is_new,
  a.permitted.is_required,
  IsPermitted-is_permitted c tool_id a.permitted,
  eq_iff r.tool_id tool_id,
  eq_iff r.fingerprint r.fingerprint,
)

-- A Tool call starts exactly if it is in time, was reserved for the same Tool, has arguments that the
-- Tool's schema takes and that are those of the reservation, has not started before, and is permitted
-- now: the capability policy that admitted the Run, in the same version, answers a decision that
-- allows the Tool, the Run shows it, the Agent may use it and has it among its base Tools, and the
-- registry has it enabled.
pub begin_tool_call_iff :
    (c : RunConfig) (now : ℕ) (id tool_id : String) (arguments : Fields) (s : RunExecution)
    → (is_ok (begin_tool_call c now id tool_id arguments s).0 ≡ true)
      ↔ (r : ToolReservation) × IsAdmitted c now id tool_id arguments s r
begin_tool_call_iff c now id tool_id arguments s = (
  λ h. elim (Result-cases (begin_tool_call c now id tool_id arguments s).0) [
    | inl (e, bad) ↦ absurd (ground (arith, h, bad))
    | inr (x, good) ↦ begin_tool_call-IsAdmitted c now id tool_id arguments s good
  ],
  λ (r, a). IsAdmitted-begin_tool_call c now id tool_id arguments s r a,
)

same_value_refl : (v : Value) → same_value v v ≡ true
same_value_refl (text s) = ground (arith, eq_iff s s)
same_value_refl null = refl
same_value_refl (other n) = ground arith

started_data-same :
    (id tool_id : String) (tool : RegisteredTool) (f : Fields)
    → same_fields (started_data id tool_id tool f) (started_data id tool_id tool f) ≡ true
unfolding started_data same_fields lookup
started_data-same id tool_id tool f = elim (Option-cases (tool.summarize_input f)) [
  | inl silent ↦
      rw silent (ground (arith, eq_iff id id, eq_iff tool_id tool_id, eq_iff tool.label tool.label))
  | inr (summary, said) ↦ elim (Bool-cases (str_eq summary "")) [
    | inl blank ↦
        rw (said, blank)
          (ground (arith, eq_iff id id, eq_iff tool_id tool_id, eq_iff tool.label tool.label))
    | inr full ↦
        rw (said, full)
          (ground (
            arith,
            eq_iff id id,
            eq_iff tool_id tool_id,
            eq_iff tool.label tool.label,
            same_value_refl (text (take_text 500 summary)),
          ))
  ]
]

-- The event of a start, in the state that the start leaves.
started_event :
    (id tool_id : String) (tool : RegisteredTool) (f : Fields) (s : RunExecution)
    → contains id s.persisted_started ≡ false
    → validate_runtime_event
        (record { type = "tool.started"; payload = started_data id tool_id tool f })
        (record s {
          started_calls = insert id (tool_id, started_data id tool_id tool f) s.started_calls;
        })
      ≡ ok tt
unfolding validate_runtime_event validate_started get_text lookup
started_event id tool_id tool f s n =
    let named_id : get_text "tool_call_id" (started_data id tool_id tool f) ≡ some id =
      unfold started_data in refl in
    rw (named_id, lookup-insert id id (tool_id, started_data id tool_id tool f) s.started_calls)
      (ground (arith, eq_iff id id, n, started_data-same id tool_id tool f))

-- A started call's event is accepted, where the start was not confirmed before.
open_call-emits :
    (c : RunConfig) (id tool_id : String) (validated : Fields) (fingerprint : String)
    (r : ToolReservation) (s : RunExecution) {f : Fields} {e : ProductEvent} {t : RunExecution}
    → contains id s.persisted_started ≡ false
    → open_call c id tool_id validated fingerprint r s ≡ (ok (f, e), t)
    → validate_runtime_event e t ≡ ok tt
unfolding open_call
open_call-emits c id tool_id validated fingerprint r s n h =
    elim (Result-cases (require c.tool_registry tool_id)) [
      | inl (x, bad) ↦ absurd (ground arith)
      | inr (tool, good) ↦ grind (arith, started_event id tool_id tool validated s n)
    ]

-- Where the books are valid, the event that a Tool call starts with is one that
-- `accept_runtime_event` takes.
pub begin_tool_call-emits :
    (c : RunConfig) (now : ℕ) (id tool_id : String) (arguments : Fields) (s : RunExecution)
    (budget : ℕ) {validated : Fields} {e : ProductEvent} {t : RunExecution}
    → IsValid budget (book s)
    → begin_tool_call c now id tool_id arguments s ≡ (ok (validated, e), t)
    → validate_runtime_event e t ≡ ok tt
unfolding begin_tool_call
begin_tool_call-emits c now id tool_id arguments s budget v h =
    let (r, a) = begin_tool_call-IsAdmitted c now id tool_id arguments s (ap (λ x. x.0) h) in
    let n : contains id s.persisted_started ≡ false =
      ground (arith, v.confirmed_started id, a.is_new) in
    grind (arith, open_call-emits)
