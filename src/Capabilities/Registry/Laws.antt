-- ===== src/Capabilities/Registry/Laws.antt =====
-- What a registry that was built holds.
use work_assistant_agent.Prelude.{
  ◌≡◌, refl, Bool, true, false, String, Option, none, some, List, [], ◌∷◌, ok, arith, eq_iff,
  contains, is_unique, is_unique-snoc, is_ok, All, sym, ◌∙◌, map, filter,
}
use work_assistant_agent.Prelude.Dict.{
  Dict, lookup, insert, values, keys, contains-keys, keys-insert_new, All-insert,
}
use work_assistant_agent.Capabilities.Tools.{RegisteredTool}
use work_assistant_agent.Capabilities.Registry.{
  ToolRegistry, collect, build_registry, enabled_tool_ids, require,
}

-- Every Tool stands under its own id, and no id twice.
abbrev IsFiled : Dict RegisteredTool → Type 0
IsFiled d = All (λ (e : String × RegisteredTool). e.1.tool_id ≡ e.0) d × (is_unique (keys d) ≡ true)

collect-IsFiled :
    (d e : Dict RegisteredTool) (tools : List RegisteredTool)
    → IsFiled d
    → collect d tools ≡ ok e
    → IsFiled e
unfolding collect
collect-IsFiled d e [] f h = ground (arith, f)
collect-IsFiled d e (t ∷ tools) f h =
    collect-IsFiled (insert t.tool_id t d) e tools
      (
        All-insert (λ (x : String × RegisteredTool). x.1.tool_id ≡ x.0) t.tool_id t d f.0
            (λ j p. sym p),
        rw (keys-insert_new t.tool_id t d (ground arith))
            (is_unique-snoc t.tool_id (keys d) f.1 (ground (arith, contains-keys t.tool_id d))),
      )
      (ground arith)

abbrev is_enabled : Option RegisteredTool → Bool
is_enabled none = false
is_enabled (some t) = t.enabled

enabled_ids : Dict RegisteredTool → List String
enabled_ids d =
    map (λ (t : RegisteredTool). t.tool_id) (filter (λ (t : RegisteredTool). t.enabled) (values d))

enabled_ids-lookup :
    (k : String) (d : Dict RegisteredTool)
    → IsFiled d
    → contains k (enabled_ids d) ≡ is_enabled (lookup k d)
unfolding enabled_ids lookup
enabled_ids-lookup k [] f = refl
enabled_ids-lookup k ((j, t) ∷ d) ((here, filed), unique) = ground (
  arith,
  enabled_ids-lookup k d (filed, ground arith),
  contains-keys k d,
  eq_iff j k,
  eq_iff t.tool_id k,
)

require-is_enabled :
    (r : ToolRegistry) (k : String) → is_ok (require r k) ≡ is_enabled (lookup k r.records)
unfolding require
require-is_enabled r k = ground arith

collected :
    (id version : String) (tools : List RegisteredTool) (r : ToolRegistry)
    → build_registry id version tools ≡ ok r
    → collect [] tools ≡ ok r.records
unfolding build_registry
collected id version tools r h = ground arith

built-IsFiled :
    (id version : String) (tools : List RegisteredTool) (r : ToolRegistry)
    → build_registry id version tools ≡ ok r
    → IsFiled r.records
built-IsFiled id version tools r h =
    collect-IsFiled [] r.records tools (tt, refl) (collected id version tools r h)

-- Of a registry that was built, a Tool id is among the enabled ids exactly when `require` finds it.
pub build_registry-require :
    (id version : String) (tools : List RegisteredTool) (r : ToolRegistry) (k : String)
    → build_registry id version tools ≡ ok r
    → contains k (enabled_tool_ids r) ≡ is_ok (require r k)
unfolding enabled_tool_ids enabled_ids
build_registry-require id version tools r k h =
    enabled_ids-lookup k r.records (built-IsFiled id version tools r h)
    ∙ sym (require-is_enabled r k)
