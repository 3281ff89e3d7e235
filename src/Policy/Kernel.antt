-- ===== src/Policy/Kernel.antt =====
-- `AgentPolicyKernel` of backend/src/work_assistant/execution_policy.py: what is validated at
-- startup, and the admission of a Run. `sha256` and `fingerprint` stand for `hashlib.sha256`.
pub mod Built
pub mod Admits
use work_assistant_agent.Prelude.{
  ℕ, ◌+◌, ◌*◌, Bool, true, false, ◌&&◌, not, String, Option, none, some, List, [], ◌∷◌, ◌++◌,
  Result, ok, err, contains, leb, filter, map, all, is_ok, str_eq, if◌then◌else◌,
}
use work_assistant_agent.Prelude.Dict.{Dict, lookup, insert, has_key, values}
use work_assistant_agent.Agents.Definition.{
  AgentDefinition, ModelProfile, valid_agent, valid_profile,
}
use work_assistant_agent.Capabilities.Tools.{RegisteredTool}
use work_assistant_agent.Capabilities.Registry.{
  ToolRegistry, Fingerprint, require, enabled_tool_ids, ToolInvocationContractError,
}
use work_assistant_agent.Capabilities.Decision.{
  Principal, CapabilityDecision, PrincipalCapabilityPolicy, valid_decision, decided,
}
use work_assistant_agent.Policy.State.{RunConfig}
use work_assistant_agent.Policy.Plan.{
  ExecutionPlanEvidence, VersionedToolEvidence, ContextBuilder, default_context_builder, valid_plan,
}

-- `PolicyKernelConfigurationError`, and the `ValidationError` of a plan.
pub data KernelError : Type 0 where
  agent_schema_version_unsupported agent_definition_invalid duplicate_agent_definition : KernelError
  agent_definition_missing model_profile_invalid default_agent_unknown default_agent_disabled :
      KernelError
  agent_model_profile_unknown agent_tool_reference_unavailable capability_policy_invalid :
      KernelError
  agent_definition_unknown agent_definition_disabled plan_refused visible_tool_unavailable :
      KernelError

pub record AgentPolicyKernel : Type 0 where
  pub definitions : Dict AgentDefinition
  pub default_agent_id : String
  pub model_profile : ModelProfile
  pub tool_registry : ToolRegistry
  pub capability_policy : PrincipalCapabilityPolicy
  pub context_builder : ContextBuilder

-- The first loop of the constructor.
unfoldable pub collect_definitions :
    Dict AgentDefinition → List AgentDefinition → Result KernelError (Dict AgentDefinition)
collect_definitions d [] = ok d
collect_definitions d (a ∷ agents) =
    let rest = collect_definitions (insert a.agent_id a d) agents in
    if not (str_eq a.schema_version "1.0.0" && str_eq a.result_contract.schema_version "1.0.0")
    then err agent_schema_version_unsupported
    else if not (valid_agent a)
    then err agent_definition_invalid
    else if has_key a.agent_id d
    then err duplicate_agent_definition
    else rest

-- The second loop.
unfoldable pub check_references :
    ModelProfile → ToolRegistry → List AgentDefinition → Result KernelError (Unit {0})
check_references profile r [] = ok tt
check_references profile r (a ∷ agents) =
    let rest = check_references profile r agents in
    if not (str_eq a.model_profile profile.profile_id)
    then err agent_model_profile_unknown
    else if not (all (λ id. is_ok (require r id)) (a.allowed_tools ++ a.base_tools))
    then err agent_tool_reference_unavailable
    else rest

-- `definition_map.get(default_agent_id)`, tested
abbrev pub check_default : Option AgentDefinition → Result KernelError (Unit {0})
check_default none = err default_agent_unknown
check_default (some a) = if a.enabled then ok tt else err default_agent_disabled

-- `CapabilityDecision(policy_id=..., policy_version=..., allowed_tools=frozenset())`
abbrev pub nothing_allowed : PrincipalCapabilityPolicy → CapabilityDecision
nothing_allowed p = record {
  policy_id = p.policy_id;
  policy_version = p.version;
  allowed_tools = [];
}

-- `context_builder or ContextBuilder()`
abbrev pub builder_or_default : Option ContextBuilder → ContextBuilder
builder_or_default none = default_context_builder
builder_or_default (some b) = b

unfoldable pub build_kernel :
    List AgentDefinition
    → String
    → ModelProfile
    → ToolRegistry
    → PrincipalCapabilityPolicy
    → Option ContextBuilder
    → Result KernelError AgentPolicyKernel
build_kernel agents default_agent_id profile r policy builder =
    elim (collect_definitions [] agents) [
      | err e ↦ err e
      | ok [] ↦ err agent_definition_missing
      | ok (entry ∷ entries) ↦
          if not (valid_profile profile)
          then err model_profile_invalid
          else elim (check_default (lookup default_agent_id (entry ∷ entries))) [
            | err e ↦ err e
            | ok _ ↦ elim (check_references profile r (values (entry ∷ entries))) [
              | err e ↦ err e
              | ok _ ↦
                  if not (valid_decision (nothing_allowed policy))
                  then err capability_policy_invalid
                  else ok (record {
                    definitions = entry ∷ entries;
                    default_agent_id = default_agent_id;
                    model_profile = profile;
                    tool_registry = r;
                    capability_policy = policy;
                    context_builder = builder_or_default builder;
                  })
            ]
          ]
    ]

-- `agent_id or self.default_agent_id`
abbrev pub selected : AgentPolicyKernel → Option String → String
selected k none = k.default_agent_id
selected k (some id) = if str_eq id "" then k.default_agent_id else id

abbrev pub if_admissible : Option AgentDefinition → Result KernelError AgentDefinition
if_admissible none = err agent_definition_unknown
if_admissible (some a) = if a.enabled then ok a else err agent_definition_disabled

unfoldable pub resolve : AgentPolicyKernel → Option String → Result KernelError AgentDefinition
resolve k agent_id = if_admissible (lookup (selected k agent_id) k.definitions)

-- The decision that a Run is admitted with: where the policy raises, or answers under another
-- identity, nothing is allowed.
unfoldable pub admitted_decision :
    AgentPolicyKernel → Principal → AgentDefinition → CapabilityDecision
admitted_decision k principal a =
    elim (decided k.capability_policy principal a (enabled_tool_ids k.tool_registry)) [
      | none ↦ nothing_allowed k.capability_policy
      | some d ↦
          if str_eq d.policy_id k.capability_policy.policy_id
            && str_eq d.policy_version k.capability_policy.version
          then d
          else nothing_allowed k.capability_policy
    ]

unfoldable pub visible_tools :
    AgentPolicyKernel → AgentDefinition → CapabilityDecision → List String
visible_tools k a d =
    filter
      (λ id.
        contains id (enabled_tool_ids k.tool_registry)
        && (contains id a.allowed_tools && contains id d.allowed_tools))
      a.base_tools

-- `VersionedToolEvidence(tool_id=..., version=self.tool_registry.version_for(tool_id))`, each
unfoldable pub versioned : ToolRegistry → List String → Option (List VersionedToolEvidence)
versioned r [] = some []
versioned r (id ∷ ids) = elim (versioned r ids) [
  | none ↦ none
  | some rest ↦ elim (require r id) [
    | err e ↦ none
    | ok t ↦ some (record { tool_id = id; version = t.version } ∷ rest)
  ]
]

unfoldable pub plan_of :
    (String → String)
    → AgentPolicyKernel
    → AgentDefinition
    → CapabilityDecision
    → List VersionedToolEvidence
    → ExecutionPlanEvidence
plan_of sha256 k a d tools = record {
  agent_schema_version = a.schema_version;
  agent_id = a.agent_id;
  agent_version = a.version;
  model_profile_id = k.model_profile.profile_id;
  model_profile_version = k.model_profile.version;
  model_provider = k.model_profile.provider;
  model_id = k.model_profile.model_id;
  prompt_id = a.prompt.prompt_id;
  prompt_version = a.prompt.version;
  prompt_sha256 = sha256 a.prompt.instructions;
  context_builder_version = k.context_builder.version;
  context_layer_versions = k.context_builder.built_versions a;
  capability_policy_id = d.policy_id;
  capability_policy_version = d.policy_version;
  tool_registry_id = k.tool_registry.registry_id;
  tool_registry_version = k.tool_registry.version;
  agent_allowed_tools = a.allowed_tools;
  base_tools = a.base_tools;
  visible_tools = tools;
  budget = a.budget;
  result_contract = a.result_contract;
}

-- `prepare_run`: the plan's evidence, and what the execution is built with.
unfoldable pub prepare_run :
    (String → String)
    → Fingerprint
    → AgentPolicyKernel
    → Principal
    → Option String
    → Result KernelError (ExecutionPlanEvidence × RunConfig)
prepare_run sha256 fingerprint k principal agent_id = elim (resolve k agent_id) [
  | err e ↦ err e
  | ok a ↦
      let d = admitted_decision k principal a in
      let visible = visible_tools k a d in
      elim (versioned k.tool_registry visible) [
        | none ↦ err visible_tool_unavailable
        | some tools ↦
            let plan = plan_of sha256 k a d tools in
            if valid_plan plan
            then ok (
              plan,
              record {
                principal = principal;
                agent = a;
                capability_decision = d;
                visible_tool_ids = visible;
                tool_registry = k.tool_registry;
                capability_policy = k.capability_policy;
                sha256 = sha256;
                fingerprint = fingerprint;
              },
            )
            else err plan_refused
      ]
]

-- `max(...)` of the enabled definitions; the default one is enabled.
abbrev pub largest : List ℕ → ℕ
largest [] = 0
largest (x ∷ xs) = let rest = largest xs in if leb x rest then rest else x

unfoldable pub framework_recursion_limit : AgentPolicyKernel → ℕ
framework_recursion_limit k =
    let enabled = filter (λ (a : AgentDefinition). a.enabled) (values k.definitions) in
    (largest (map (λ (a : AgentDefinition). a.budget.max_model_steps) enabled)
      + largest (map (λ (a : AgentDefinition). a.budget.max_tool_calls) enabled)
      + 4)
    * 3
