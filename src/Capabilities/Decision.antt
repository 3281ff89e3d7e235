-- ===== src/Capabilities/Decision.antt =====
-- `CapabilityDecision`, the interface of a capability policy and the neutral default policy
-- (backend/src/work_assistant/capabilities.py), with the principal that a policy is asked about
-- (backend/src/work_assistant/identity.py).
use work_assistant_agent.Prelude.{Bool, ◌&&◌, String, Option, none, some, List, all, if◌then◌else◌}
use work_assistant_agent.Agents.Pattern.{valid_identifier, valid_version}
use work_assistant_agent.Agents.Definition.{AgentDefinition}

-- `Principal`, without the display extensions, which are for the client.
pub record Principal : Type 0 where
  pub subject : String
  pub display_name : Option String
  pub organization : Option String
  pub roles : List String
  pub session_id : Option String

pub record CapabilityDecision : Type 0 where
  pub policy_id : String
  pub policy_version : String
  pub allowed_tools : List String

unfoldable pub valid_decision : CapabilityDecision → Bool
valid_decision d =
    valid_identifier d.policy_id
    && (valid_version d.policy_version && all valid_identifier d.allowed_tools)

-- `decide` answers `none` where the policy raises.
pub record PrincipalCapabilityPolicy : Type 0 where
  pub policy_id : String
  pub version : String
  pub decide : Principal → AgentDefinition → List String → Option CapabilityDecision

-- `CapabilityDecision.model_validate(policy.decide(...).model_dump())`
abbrev checked : Option CapabilityDecision → Option CapabilityDecision
checked none = none
checked (some d) = if valid_decision d then some d else none

unfoldable pub decided :
    PrincipalCapabilityPolicy
    → Principal
    → AgentDefinition
    → List String
    → Option CapabilityDecision
decided p principal agent enabled = checked (p.decide principal agent enabled)

unfoldable pub neutral_authenticated_tool_policy : PrincipalCapabilityPolicy
neutral_authenticated_tool_policy = record {
  policy_id = "neutral-authenticated-tools";
  version = "1.0.0";
  decide = λ principal agent enabled. some (record {
    policy_id = "neutral-authenticated-tools";
    policy_version = "1.0.0";
    allowed_tools = enabled;
  });
}
