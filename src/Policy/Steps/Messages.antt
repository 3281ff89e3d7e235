-- ===== src/Policy/Steps/Messages.antt =====
-- Messages of a model, and `_content_text` of backend/src/work_assistant/execution_policy.py.
use Prim.Native.String.{◌++◌}
use work_assistant_agent.Prelude.{
  Bool, false, ◌||◌, String, Option, none, some, List, [], ◌∷◌, str_eq, if◌then◌else◌,
}
use work_assistant_agent.Policy.Reserve.{ToolCall}

-- A block of content: its "type" and its "text", where they are texts.
pub record Block : Type 0 where
  pub type : Option String
  pub text : Option String

pub data Content : Type 0 where
  plain : String → Content
  blocks : List Block → Content
  other : Content

pub data BaseMessage : Type 0 where
  ai : Content → List ToolCall → BaseMessage
  not_ai : BaseMessage

abbrev is_text_type : Option String → Bool
is_text_type none = false
is_text_type (some t) = str_eq t "text" || str_eq t "output_text"

abbrev block_text : Block → String
block_text b = elim b.text [ none ↦ "" | some t ↦ if is_text_type b.type then t else "" ]

joined : List Block → String
joined [] = ""
joined (b ∷ bs) = block_text b ++ joined bs

unfoldable pub content_text : Content → String
unfolding joined
content_text (plain s) = s
content_text (blocks bs) = joined bs
content_text other = ""
