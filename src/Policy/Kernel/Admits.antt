-- ===== src/Policy/Kernel/Admits.antt =====
-- `prepare_run` after a startup that was let through (backend/src/work_assistant/execution_policy.py).
use work_assistant_agent.Prelude.{
  ◌≡◌, refl, Bool, true, ◌&&◌, String, Option, none, some, List, [], ◌∷◌, ok, arith, eq_iff, All,
  inl, inr, is_ok, sym, ap, ◌∙◌, Result-cases, contains, filter, all, is_unique, is_subset,
}
use work_assistant_agent.Prelude.Dict.{lookup}
use work_assistant_agent.Agents.Pattern.{valid_identifier, valid_version}
use work_assistant_agent.Agents.Definition.{
  AgentDefinition, ModelProfile, valid_agent, valid_profile, valid_prompt, valid_contract,
  valid_tool_names, valid_tool_scope,
}
use work_assistant_agent.Capabilities.Tools.{RegisteredTool, register, is_sha256}
use work_assistant_agent.Capabilities.Registry.{
  ToolRegistry, build_registry, enabled_tool_ids, require, Fingerprint,
}
use work_assistant_agent.Capabilities.Registry.Laws.{build_registry-require}
use work_assistant_agent.Capabilities.Registry.Registered.{
  built-IsNamed, built-registry_id, built-version,
}
use work_assistant_agent.Capabilities.Decision.{
  Principal, CapabilityDecision, PrincipalCapabilityPolicy, valid_decision, decided,
}
use work_assistant_agent.Policy.Plan.{
  VersionedToolEvidence, tool_ids, valid_tool_evidence, valid_plan, valid_agent_fields,
  valid_host_fields, valid_layers, valid_contract_evidence, valid_intersection, layer_versions,
  default_context_builder, ContextBuilder,
}
use work_assistant_agent.Policy.Kernel.{
  AgentPolicyKernel, build_kernel, nothing_allowed, resolve, admitted_decision, visible_tools,
  versioned, plan_of, prepare_run,
}
use work_assistant_agent.Policy.Kernel.Built.{
  built-agent, built-profile, built-policy, built-registry, built-context_builder,
}

module _ (p : String → Bool) where
  contains-filter :
      (x : String) (xs : List String) → contains x (filter p xs) ≡ (contains x xs && p x)
  contains-filter x [] = refl
  contains-filter x (y ∷ xs) = ground (arith, contains-filter x xs, eq_iff y x)

  is_unique-filter : (xs : List String) → is_unique xs ≡ true → is_unique (filter p xs) ≡ true
  is_unique-filter [] u = refl
  is_unique-filter (x ∷ xs) u = ground (arith, is_unique-filter xs, contains-filter x xs)

subset_by :
    (xs ys : List String)
    → ((x : String) → contains x xs ≡ true → contains x ys ≡ true)
    → is_subset xs ys ≡ true
subset_by [] ys h = refl
subset_by (x ∷ xs) ys h =
    let here = h x (ground (arith, eq_iff x x)) in
    let rest = subset_by xs ys (λ y m. h y (ground (arith, m))) in ground (arith, here, rest)

required_there :
    (r : ToolRegistry) (id : String) (t : RegisteredTool)
    → require r id ≡ ok t
    → lookup id r.records ≡ some t
unfolding require
required_there r id t h = ground arith

-- The Tools that the plan shows are versioned, where each is in the registry.
versioned-all :
    (r : ToolRegistry) (ids : List String)
    → ((k : String) (t : RegisteredTool)
        → lookup k r.records ≡ some t
        → (valid_identifier k ≡ true) × (valid_version t.version ≡ true))
    → ((k : String) → contains k ids ≡ true → is_ok (require r k) ≡ true)
    → (tools : List VersionedToolEvidence) × (versioned r ids ≡ some tools)
      × (tool_ids tools ≡ ids)
      × (all valid_tool_evidence tools ≡ true)
unfolding versioned valid_tool_evidence
versioned-all r [] named found = ([], refl, refl, refl)
versioned-all r (id ∷ ids) named found =
    let (tools, e, same, valid) = versioned-all r ids named (λ k m. found k (ground (arith, m))) in
    elim (Result-cases (require r id)) [
      | inl (x, bad) ↦ absurd (ground (arith, bad, found id (ground (arith, eq_iff id id))))
      | inr (t, good) ↦
          let (known, version) = named id t (required_there r id t good) in
          (
            record { tool_id = id; version = t.version } ∷ tools,
            ground (arith, e, good),
            ap (λ xs. id ∷ xs) same,
            ground (arith, known, version, valid),
          )
    ]

admitted_decision-valid :
    (k : AgentPolicyKernel) (principal : Principal) (a : AgentDefinition)
    → valid_decision (nothing_allowed k.capability_policy) ≡ true
    → valid_decision (admitted_decision k principal a) ≡ true
unfolding admitted_decision decided
admitted_decision-valid k principal a h = ground (arith, h)

visible_tools_iff :
    (k : AgentPolicyKernel) (a : AgentDefinition) (d : CapabilityDecision) (id : String)
    → contains id (visible_tools k a d) ≡ (
        contains id a.base_tools
        && (contains id (enabled_tool_ids k.tool_registry)
            && (contains id a.allowed_tools && contains id d.allowed_tools)))
unfolding visible_tools
visible_tools_iff k a d id = contains-filter _ id a.base_tools

agent_fields :
    (sha256 : String → String) (k : AgentPolicyKernel) (a : AgentDefinition)
    (d : CapabilityDecision) (tools : List VersionedToolEvidence)
    → ((t : String) → is_sha256 (sha256 t) ≡ true)
    → valid_agent a ≡ true
    → valid_agent_fields (plan_of sha256 k a d tools) ≡ true
unfolding valid_agent_fields plan_of valid_agent valid_prompt
agent_fields sha256 k a d tools h v =
    let one : valid_version "1.0.0" ≡ true = unfold valid_version in refl in
    ground (arith, eq_iff a.schema_version "1.0.0", one, h a.prompt.instructions)

host_fields :
    (sha256 : String → String) (k : AgentPolicyKernel) (a : AgentDefinition)
    (d : CapabilityDecision) (tools : List VersionedToolEvidence)
    → k.context_builder ≡ default_context_builder
    → valid_agent a ≡ true
    → valid_profile k.model_profile ≡ true
    → valid_decision d ≡ true
    → valid_identifier k.tool_registry.registry_id ≡ true
    → valid_version k.tool_registry.version ≡ true
    → valid_host_fields (plan_of sha256 k a d tools) ≡ true
unfolding valid_host_fields plan_of valid_layers layer_versions default_context_builder valid_agent
    valid_prompt valid_profile valid_decision
host_fields sha256 k a d tools b v w x y z =
    let one : valid_version "1.0.0" ≡ true = unfold valid_version in refl in
    let layers : valid_layers (k.context_builder.built_versions a) ≡ true =
      rw (ap (λ (x : ContextBuilder). x.built_versions a) b) (ground (arith, one)) in
    let version : valid_version k.context_builder.version ≡ true =
      rw (ap (λ (x : ContextBuilder). x.version) b) one in
    ground (arith, one, layers, version)

contract_evidence :
    (a : AgentDefinition) → valid_agent a ≡ true → valid_contract_evidence a.result_contract ≡ true
unfolding valid_contract_evidence valid_agent valid_contract
contract_evidence a v =
    let one : valid_version "1.0.0" ≡ true = unfold valid_version in refl in
    ground (arith, one, eq_iff a.result_contract.schema_version "1.0.0")

intersection :
    (sha256 : String → String) (k : AgentPolicyKernel) (a : AgentDefinition)
    (d : CapabilityDecision) (tools : List VersionedToolEvidence)
    → valid_agent a ≡ true
    → tool_ids tools ≡ visible_tools k a d
    → valid_intersection (plan_of sha256 k a d tools) ≡ true
unfolding valid_intersection plan_of valid_agent valid_tool_scope valid_tool_names
intersection sha256 k a d tools v same =
    let base =
      subset_by (visible_tools k a d) a.base_tools
        (λ x m. ground (arith, visible_tools_iff k a d x)) in
    let allowed =
      subset_by (visible_tools k a d) a.allowed_tools
        (λ x m. ground (arith, visible_tools_iff k a d x)) in
    let once : is_unique (visible_tools k a d) ≡ true =
      unfold visible_tools in is_unique-filter _ a.base_tools (ground arith) in
    rw same (ground (arith, base, allowed, once))

plan_valid :
    (sha256 : String → String) (k : AgentPolicyKernel) (a : AgentDefinition)
    (d : CapabilityDecision) (tools : List VersionedToolEvidence)
    → ((t : String) → is_sha256 (sha256 t) ≡ true)
    → k.context_builder ≡ default_context_builder
    → valid_agent a ≡ true
    → valid_profile k.model_profile ≡ true
    → valid_decision d ≡ true
    → valid_identifier k.tool_registry.registry_id ≡ true
    → valid_version k.tool_registry.version ≡ true
    → all valid_tool_evidence tools ≡ true
    → tool_ids tools ≡ visible_tools k a d
    → valid_plan (plan_of sha256 k a d tools) ≡ true
unfolding valid_plan plan_of valid_agent
plan_valid sha256 k a d tools h b v w x y z t same = ground (
  arith,
  agent_fields sha256 k a d tools h v,
  host_fields sha256 k a d tools b v w x y z,
  contract_evidence a v,
  intersection sha256 k a d tools v same,
)

admitted_by :
    (sha256 : String → String) (fingerprint : Fingerprint) (k : AgentPolicyKernel)
    (principal : Principal) (agent_id : Option String) (a : AgentDefinition)
    (shown : List VersionedToolEvidence)
    → resolve k agent_id ≡ ok a
    → versioned k.tool_registry (visible_tools k a (admitted_decision k principal a)) ≡ some shown
    → valid_plan (plan_of sha256 k a (admitted_decision k principal a) shown) ≡ true
    → is_ok (prepare_run sha256 fingerprint k principal agent_id) ≡ true
unfolding prepare_run
admitted_by sha256 fingerprint k principal agent_id a shown resolved e valid =
    ground (arith, resolved, e, valid)

-- A startup that was let through is enough for every Run: with a kernel that was built without a
-- context builder of its own, over a registry that was built of registered Tools, and SHA-256 digests of 64 hexadecimal digits, a Run of
-- an Agent that resolves is admitted, for every principal and whatever the capability policy answers.
pub prepare_run-admits :
    (sha256 : String → String) (fingerprint : Fingerprint) (id version : String)
    (tools : List RegisteredTool) (r : ToolRegistry) (agents : List AgentDefinition)
    (default : String) (profile : ModelProfile) (policy : PrincipalCapabilityPolicy)
    (k : AgentPolicyKernel) (principal : Principal) (agent_id : Option String) (a : AgentDefinition)
    → ((t : String) → is_sha256 (sha256 t) ≡ true)
    → All (λ (t : RegisteredTool). register t ≡ ok t) tools
    → build_registry id version tools ≡ ok r
    → build_kernel agents default profile r policy none ≡ ok k
    → resolve k agent_id ≡ ok a
    → is_ok (prepare_run sha256 fingerprint k principal agent_id) ≡ true
prepare_run-admits sha256 fingerprint id version tools r agents default profile policy k principal
      agent_id a hashes registered filed built resolved =
    let here : build_registry id version tools ≡ ok k.tool_registry =
      filed ∙ ap (λ x. ok x) (sym (built-registry agents default profile r policy none k built)) in
    let d = admitted_decision k principal a in
    let (shown, e, same, valid) =
      versioned-all k.tool_registry (visible_tools k a d)
        (built-IsNamed id version tools k.tool_registry here registered)
        (λ j m.
          sym (build_registry-require id version tools k.tool_registry j here)
          ∙ ground (arith, visible_tools_iff k a d j)) in
    let plan =
      plan_valid sha256 k a d shown hashes
        (built-context_builder agents default profile r policy none k built)
        (built-agent agents default profile r policy none k built agent_id a resolved)
        (built-profile agents default profile r policy none k built)
        (admitted_decision-valid k principal a
          (built-policy agents default profile r policy none k built))
        (built-registry_id id version tools k.tool_registry here)
        (built-version id version tools k.tool_registry here) valid same in
    admitted_by sha256 fingerprint k principal agent_id a shown resolved e plan
