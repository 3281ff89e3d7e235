-- ===== src/Policy/Verdicts.antt =====
-- The judgement of a result: `validate_result` of `RunExecution`
-- (backend/src/work_assistant/execution_policy.py).
use work_assistant_agent.Prelude.{
  ℕ, ◌≤◌, ◌<◌, ◌≡◌, ◌↔◌, refl, true, false, not, ◌&&◌, String, Option, none, some, List, [], ◌∷◌,
  arith, ok, contains, is_subset, any, eq_iff, Bool-cases, inl, inr, ltb, ◌==◌,
}
use work_assistant_agent.Prelude.Names.{text_length}
use work_assistant_agent.Agents.Definition.{
  SourcePolicy, no_sources, required_if_tool_used, required,
}
use work_assistant_agent.Policy.State.{RunConfig, RunExecution}
use work_assistant_agent.Policy.Evidence.{is_empty}
use work_assistant_agent.Policy.Results.{
  AgentResult, shaped, valid_result, lacks_sources, validate_result,
}

-- The source policy: a source at all, or one where a Tool call succeeded.
pub record MeetsPolicy (p : SourcePolicy) (calls : ℕ) (ids : List String) : Type 0 where
  pub always : p ≡ required → is_empty ids ≡ false
  pub after_tools : p ≡ required_if_tool_used → 0 < calls → is_empty ids ≡ false

met_policy :
    (p : SourcePolicy) (calls : ℕ) (ids : List String)
    → lacks_sources p calls ids ≡ false
    → MeetsPolicy p calls ids
unfolding lacks_sources
met_policy no_sources calls ids h = record { always = λ e. cc; after_tools = λ e n. cc }
met_policy required_if_tool_used calls ids h = record {
  always = λ e. cc;
  after_tools = λ e n. ground (arith, n);
}
met_policy required calls ids h = record { always = λ e. h; after_tools = λ e n. cc }

policy_met :
    (p : SourcePolicy) (calls : ℕ) (ids : List String)
    → MeetsPolicy p calls ids
    → lacks_sources p calls ids ≡ false
unfolding lacks_sources
policy_met no_sources calls ids m = refl
policy_met required_if_tool_used calls ids m = elim (Bool-cases (ltb 0 calls)) [
  | inl some_calls ↦ ground (arith, m.after_tools refl (ground (arith, some_calls)))
  | inr no_calls ↦ ground (arith, no_calls)
]
policy_met required calls ids m = m.always refl

no_early_sources :
    (calls : ℕ) (ids : List String)
    → (calls ≡ 0 → ids ≡ [])
    → (calls == 0 && not (is_empty ids)) ≡ false
no_early_sources calls ids h = elim (Bool-cases (calls == 0)) [
  | inl z ↦ let empty = h (ground (arith, z)) in rw (z, empty) refl
  | inr n ↦ ground (arith, n)
]

-- What a result must be to pass.
pub record IsAcceptable (c : RunConfig) (runtime_text : Option String) (r : AgentResult)
    (s : RunExecution) : Type 0 where
  pub shaped_well : valid_result r ≡ true
  pub same_schema : r.schema_version ≡ c.agent.result_contract.schema_version
  pub short : text_length r.text ≤ c.agent.result_contract.max_answer_chars
  pub same_text : (t : String) → runtime_text ≡ some t → t ≡ r.text
  pub confirmed : is_subset r.source_ids s.persisted_sources ≡ true
  pub tools_first : s.tool_calls_succeeded ≡ 0 → r.source_ids ≡ []
  pub policy_met :
      MeetsPolicy c.agent.result_contract.source_policy s.tool_calls_succeeded r.source_ids

any-not-confirmed :
    (xs ys : List String) → any (λ id. not (contains id ys)) xs ≡ not (is_subset xs ys)
any-not-confirmed [] ys = refl
any-not-confirmed (x ∷ xs) ys = ground (arith, any-not-confirmed xs ys)

accepted :
    (c : RunConfig) (runtime_text : Option String) (r : AgentResult) (s : RunExecution)
    → (validate_result c (shaped r) runtime_text s).0 ≡ ok r
    → IsAcceptable c runtime_text r s
unfolding validate_result
accepted c runtime_text r s h = record {
  shaped_well = ground arith;
  same_schema = ground (arith, eq_iff r.schema_version c.agent.result_contract.schema_version);
  short = ground arith;
  same_text = λ t e. ground (arith, e, eq_iff t r.text);
  confirmed = ground (arith, any-not-confirmed r.source_ids s.persisted_sources);
  tools_first = λ z. ground (arith, z);
  policy_met =
      met_policy c.agent.result_contract.source_policy s.tool_calls_succeeded r.source_ids
        (ground arith);
}

acceptable :
    (c : RunConfig) (runtime_text : Option String) (r : AgentResult) (s : RunExecution)
    → IsAcceptable c runtime_text r s
    → (validate_result c (shaped r) runtime_text s).0 ≡ ok r
unfolding validate_result
acceptable c none r s a = ground (
  arith,
  eq_iff r.schema_version c.agent.result_contract.schema_version,
  any-not-confirmed r.source_ids s.persisted_sources,
  no_early_sources s.tool_calls_succeeded r.source_ids a.tools_first,
  policy_met c.agent.result_contract.source_policy s.tool_calls_succeeded r.source_ids a.policy_met,
)
acceptable c (some t) r s a = ground (
  arith,
  eq_iff r.schema_version c.agent.result_contract.schema_version,
  any-not-confirmed r.source_ids s.persisted_sources,
  no_early_sources s.tool_calls_succeeded r.source_ids a.tools_first,
  policy_met c.agent.result_contract.source_policy s.tool_calls_succeeded r.source_ids a.policy_met,
  eq_iff t r.text,
  a.same_text t refl,
)

-- A result passes exactly if it is well formed, has the schema version and at most the length of the
-- Agent's contract, repeats the text that the Runtime streamed, if it streamed one, cites confirmed
-- sources only, cites none where no Tool call succeeded, and meets the source policy.
pub validate_result_iff :
    (c : RunConfig) (runtime_text : Option String) (r : AgentResult) (s : RunExecution)
    → ((validate_result c (shaped r) runtime_text s).0 ≡ ok r) ↔ IsAcceptable c runtime_text r s
validate_result_iff c runtime_text r s =
    (accepted c runtime_text r s, acceptable c runtime_text r s)
