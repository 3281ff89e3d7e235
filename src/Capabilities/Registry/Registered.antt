-- ===== src/Capabilities/Registry/Registered.antt =====
-- The ids and versions in a registry that was built of registered Tools.
use work_assistant_agent.Prelude.{
  ◌≡◌, true, String, some, List, [], ◌∷◌, ok, arith, All, subst, inl, inr,
}
use work_assistant_agent.Prelude.Dict.{Dict, lookup, insert, lookup-insert_cases}
use work_assistant_agent.Agents.Pattern.{valid_identifier, valid_version}
use work_assistant_agent.Agents.Pattern.Length.{is_version-valid}
use work_assistant_agent.Capabilities.Tools.{RegisteredTool, register}
use work_assistant_agent.Capabilities.Registry.{ToolRegistry, collect, build_registry}

abbrev IsNamed : String → RegisteredTool → Type 0
IsNamed id t = (valid_identifier id ≡ true) × (valid_version t.version ≡ true)

register-IsNamed : (t : RegisteredTool) → register t ≡ ok t → IsNamed t.tool_id t
unfolding register valid_identifier
register-IsNamed t h = (ground arith, is_version-valid t.version (ground arith) (ground arith))

collect-IsNamed :
    (d e : Dict RegisteredTool) (tools : List RegisteredTool)
    → ((id : String) (t : RegisteredTool) → lookup id d ≡ some t → IsNamed id t)
    → All (λ (t : RegisteredTool). register t ≡ ok t) tools
    → collect d tools ≡ ok e
    → (id : String) (t : RegisteredTool) → lookup id e ≡ some t
    → IsNamed id t
unfolding collect
collect-IsNamed d e [] named all h id t f = named id t (ground (arith, f))
collect-IsNamed d e (tool ∷ tools) named all h id t f =
    collect-IsNamed (insert tool.tool_id tool d) e tools
      (λ j u g. elim (lookup-insert_cases tool.tool_id j tool u d g) [
        | inl (same, which) ↦
            subst (λ i. IsNamed i u) same
              (subst (λ w. IsNamed tool.tool_id w) which (register-IsNamed tool all.0))
        | inr (_, before) ↦ named j u before
      ])
      all.1 (ground arith) id t f

module _ (id version : String) (tools : List RegisteredTool) (r : ToolRegistry)
    (built : build_registry id version tools ≡ ok r) where
  pub built-IsNamed :
      All (λ (t : RegisteredTool). register t ≡ ok t) tools
      → (k : String) (t : RegisteredTool) → lookup k r.records ≡ some t
      → (valid_identifier k ≡ true) × (valid_version t.version ≡ true)
  unfolding build_registry lookup
  built-IsNamed all = collect-IsNamed [] r.records tools (λ k t f. cc) all (ground arith)

  pub built-registry_id : valid_identifier r.registry_id ≡ true
  unfolding build_registry valid_identifier
  built-registry_id = ground arith

  pub built-version : valid_version r.version ≡ true
  unfolding build_registry
  built-version = is_version-valid r.version (ground arith) (ground arith)
