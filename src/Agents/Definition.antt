-- ===== src/Agents/Definition.antt =====
-- `PromptDefinition`, `AgentBudget`, `ResultContract`, `AgentDefinition` and `ModelProfile` of
-- backend/src/work_assistant/agent_definition.py, with their validators. A pydantic model that was
-- built is one whose validator answers true. Seconds are whole microseconds.
use work_assistant_agent.Prelude.{
  ℕ, Bool, true, false, ◌&&◌, not, String, List, [], ◌∷◌, leb, ltb, ◌==◌, all, any, is_unique,
  is_subset, str_eq,
}
use work_assistant_agent.Prelude.Names.{codes, is_blank, text_length}
use work_assistant_agent.Agents.Pattern.{valid_identifier, valid_version}

pub record PromptDefinition : Type 0 where
  pub prompt_id : String
  pub version : String
  pub instructions : String

unfoldable pub valid_prompt : PromptDefinition → Bool
valid_prompt p =
    valid_identifier p.prompt_id
    && (valid_version p.version
        && (leb 1 (text_length p.instructions)
            && (leb (text_length p.instructions) 20000
                && (not (is_blank (codes p.instructions))
                    && not (any (λ c. c == 0) (codes p.instructions))))))

pub record AgentBudget : Type 0 where
  pub max_model_steps : ℕ
  pub max_tool_calls : ℕ
  pub deadline : ℕ
  pub max_identical_tool_calls : ℕ
  pub max_no_progress_steps : ℕ

-- The bounds of the fields; 900 seconds are 900000000 microseconds.
unfoldable pub valid_budget : AgentBudget → Bool
valid_budget b =
    leb 1 b.max_model_steps
    && (leb b.max_model_steps 32
        && (leb b.max_tool_calls 16
            && (ltb 0 b.deadline
                && (leb b.deadline 900000000
                    && (leb 1 b.max_identical_tool_calls
                        && (leb b.max_identical_tool_calls 5
                            && (leb 1 b.max_no_progress_steps
                                && leb b.max_no_progress_steps 8)))))))

pub data SourcePolicy : Type 0 where
  no_sources required_if_tool_used required : SourcePolicy

pub record ResultContract : Type 0 where
  pub schema_version : String
  pub max_answer_chars : ℕ
  pub source_policy : SourcePolicy

unfoldable pub valid_contract : ResultContract → Bool
valid_contract r =
    str_eq r.schema_version "1.0.0" && (leb 1 r.max_answer_chars && leb r.max_answer_chars 32000)

pub record AgentDefinition : Type 0 where
  pub schema_version : String
  pub agent_id : String
  pub version : String
  pub enabled : Bool
  pub model_profile : String
  pub prompt : PromptDefinition
  pub allowed_tools : List String
  pub base_tools : List String
  pub budget : AgentBudget
  pub result_contract : ResultContract

-- `validate_tool_names`
unfoldable pub valid_tool_names : List String → Bool
valid_tool_names names = is_unique names && all valid_identifier names

-- `validate_tool_scope`
unfoldable pub valid_tool_scope : AgentDefinition → Bool
valid_tool_scope a =
    is_subset a.base_tools a.allowed_tools
    && not (not (elim a.base_tools [ [] ↦ true | _ ∷ _ ↦ false ]) && a.budget.max_tool_calls == 0)

unfoldable pub valid_agent : AgentDefinition → Bool
valid_agent a =
    str_eq a.schema_version "1.0.0"
    && (valid_identifier a.agent_id
        && (valid_version a.version
            && (valid_identifier a.model_profile
                && (valid_prompt a.prompt
                    && (valid_tool_names a.allowed_tools
                        && (valid_tool_names a.base_tools
                            && (valid_budget a.budget
                                && (valid_contract a.result_contract && valid_tool_scope a))))))))

pub record ModelProfile : Type 0 where
  pub profile_id : String
  pub version : String
  pub provider : String
  pub model_id : String

unfoldable pub valid_profile : ModelProfile → Bool
valid_profile p =
    valid_identifier p.profile_id
    && (valid_version p.version
        && (leb (text_length p.provider) 64
            && (valid_identifier p.provider
                && (leb 1 (text_length p.model_id) && leb (text_length p.model_id) 128))))
