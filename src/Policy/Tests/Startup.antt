-- ===== src/Policy/Tests/Startup.antt =====
-- A kernel with the Agent of the tests, and the theorems of admission at it.
use work_assistant_agent.Prelude.{◌≡◌, refl, true, none, [], ◌∷◌, is_ok}
use work_assistant_agent.Prelude.Names.{is_blank}
use work_assistant_agent.Prelude.Dict.{lookup, insert}
use work_assistant_agent.Agents.Pattern.{valid_identifier, valid_version}
use work_assistant_agent.Agents.Definition.{
  ModelProfile, valid_agent, valid_prompt, valid_budget, valid_contract, valid_tool_names,
  valid_tool_scope, valid_profile,
}
use work_assistant_agent.Capabilities.Tools.{is_sha256, register}
use work_assistant_agent.Capabilities.Registry.{build_registry, require}
use work_assistant_agent.Capabilities.Decision.{valid_decision}
use work_assistant_agent.Policy.Kernel.{
  AgentPolicyKernel, build_kernel, resolve, prepare_run, check_references, collect_definitions,
  framework_recursion_limit,
}
use work_assistant_agent.Policy.Kernel.Built.{build_kernel-resolve}
use work_assistant_agent.Policy.Kernel.Admits.{prepare_run-admits}
use work_assistant_agent.Policy.Plan.{default_context_builder}
use work_assistant_agent.Policy.Tests.{agent, clock, config, fact}

abbrev profile : ModelProfile
profile = record {
  profile_id = "default";
  version = "1.0.0";
  provider = "openai";
  model_id = "model";
}

abbrev kernel : AgentPolicyKernel
kernel = record {
  definitions = ("assistant", agent) ∷ [];
  default_agent_id = "assistant";
  model_profile = profile;
  tool_registry = config.tool_registry;
  capability_policy = config.capability_policy;
  context_builder = default_context_builder;
}

prepare_run-admits_example :
    is_ok (prepare_run (λ t. fact) (λ id version fields. id) kernel config.principal none) ≡ true
unfolding is_sha256 register build_registry build_kernel resolve lookup insert require valid_agent
    valid_prompt valid_budget valid_contract valid_tool_names valid_tool_scope valid_profile
    valid_decision valid_identifier valid_version collect_definitions check_references is_blank
prepare_run-admits_example =
    prepare_run-admits (λ t. fact) (λ id version fields. id) "tools" "1.0.0" (clock ∷ [])
      config.tool_registry (agent ∷ []) "assistant" profile config.capability_policy kernel
      config.principal none agent (λ t. refl) (refl, tt) refl refl refl

build_kernel-resolve_example : is_ok (resolve kernel none) ≡ true
unfolding build_kernel lookup insert require valid_agent valid_prompt valid_budget valid_contract
    valid_tool_names valid_tool_scope valid_profile valid_decision valid_identifier valid_version
    collect_definitions check_references is_blank
build_kernel-resolve_example =
    build_kernel-resolve (agent ∷ []) "assistant" profile config.tool_registry
      config.capability_policy none kernel refl

recursion_limit : framework_recursion_limit kernel ≡ 27
unfolding framework_recursion_limit
recursion_limit = refl
