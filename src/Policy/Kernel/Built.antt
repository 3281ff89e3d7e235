-- ===== src/Policy/Kernel/Built.antt =====
-- What `AgentPolicyKernel.__init__` has validated of a kernel that was built
-- (backend/src/work_assistant/execution_policy.py).
use work_assistant_agent.Prelude.{
  ◌≡◌, true, String, Option, none, some, List, [], ◌∷◌, ok, arith, subst, inl, inr, is_ok,
}
use work_assistant_agent.Prelude.Dict.{Dict, lookup, insert, lookup-insert_cases}
use work_assistant_agent.Agents.Definition.{
  AgentDefinition, ModelProfile, valid_agent, valid_profile,
}
use work_assistant_agent.Capabilities.Registry.{ToolRegistry}
use work_assistant_agent.Capabilities.Decision.{PrincipalCapabilityPolicy, valid_decision}
use work_assistant_agent.Policy.Plan.{ContextBuilder}
use work_assistant_agent.Policy.Kernel.{
  AgentPolicyKernel, collect_definitions, build_kernel, builder_or_default, nothing_allowed,
  resolve, selected,
}

collect_definitions-valid :
    (d e : Dict AgentDefinition) (agents : List AgentDefinition)
    → ((id : String) (a : AgentDefinition) → lookup id d ≡ some a → valid_agent a ≡ true)
    → collect_definitions d agents ≡ ok e
    → (id : String) (a : AgentDefinition) → lookup id e ≡ some a
    → valid_agent a ≡ true
unfolding collect_definitions
collect_definitions-valid d e [] valid h id a f = valid id a (ground (arith, f))
collect_definitions-valid d e (b ∷ agents) valid h id a f =
    let good : valid_agent b ≡ true = ground arith in
    collect_definitions-valid (insert b.agent_id b d) e agents
      (λ j u g. elim (lookup-insert_cases b.agent_id j b u d g) [
        | inl (_, which) ↦ subst (λ w. valid_agent w ≡ true) which good
        | inr (_, before) ↦ valid j u before
      ])
      (ground arith) id a f

module _ (agents : List AgentDefinition) (default : String) (profile : ModelProfile)
    (r : ToolRegistry) (policy : PrincipalCapabilityPolicy) (builder : Option ContextBuilder)
    (k : AgentPolicyKernel)
    (built : build_kernel agents default profile r policy builder ≡ ok k) where
  built-definitions : collect_definitions [] agents ≡ ok k.definitions
  unfolding build_kernel
  built-definitions = ground arith

  pub built-agent :
      (agent_id : Option String) (a : AgentDefinition)
      → resolve k agent_id ≡ ok a
      → valid_agent a ≡ true
  unfolding resolve lookup
  built-agent agent_id a h =
      collect_definitions-valid [] k.definitions agents (λ id b f. cc) built-definitions
        (selected k agent_id) a (ground arith)

  pub built-profile : valid_profile k.model_profile ≡ true
  unfolding build_kernel
  built-profile = ground arith

  pub built-policy : valid_decision (nothing_allowed k.capability_policy) ≡ true
  unfolding build_kernel
  built-policy = ground arith

  pub built-registry : k.tool_registry ≡ r
  unfolding build_kernel
  built-registry = ground arith

  pub built-context_builder : k.context_builder ≡ builder_or_default builder
  unfolding build_kernel
  built-context_builder = ground arith

  -- A kernel that was built has a default Agent to run.
  pub build_kernel-resolve : is_ok (resolve k none) ≡ true
  unfolding build_kernel resolve
  build_kernel-resolve = ground arith
