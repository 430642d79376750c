-- ===== src/Responses/Stream/Channels.antt =====
-- modelship/openai/protocol/responses/streaming.py: the three channels of `ResponsesStreamTranslator`,
-- and the closing of their items.
use Prim.Native.String.{◌++◌ as text_append}
use modelship.Prelude.{ℕ, String, Option, none, some, List, [], ◌∷◌, ◌==◌, str_eq, if◌then◌else◌}
use modelship.Json.{Json, Fields, str, int, end, field}
use modelship.Responses.Stream.{
  Reasoning, Answer, Tool, Translator, World, emit, take_oi, minted_id, mint, summary_json,
  part_json, reasoning_json, answer_json, tool_json, sorted_tools,
}

-- the payload's part that every event of an item's only part has
abbrev pub at_part : String → String → ℕ → Fields → Fields
at_part index id oi rest =
    field "item_id" (str id) (field "output_index" (int oi) (field index (int 0) rest))

abbrev pub at_item : ℕ → Json → Fields
at_item oi item = field "output_index" (int oi) (field "item" item end)

abbrev pub new_reasoning : World → Translator → Reasoning
new_reasoning world t = record {
  id = minted_id world "rs_" t;
  summary = [];
  output_index = t.next_oi;
  text = "";
}

-- the new item is not in the state yet: `on_reasoning` puts it there with its first delta
unfoldable pub open_reasoning : Reasoning → Translator → Translator
unfolding emit reasoning_json
open_reasoning r t =
    emit "response.reasoning_summary_part.added"
      (at_part "summary_index" r.id r.output_index (field "part" (summary_json "") end))
      (emit "response.output_item.added" (at_item r.output_index (reasoning_json r)) t)

unfoldable pub reasoning_delta : String → Reasoning → Translator → Translator
unfolding emit
reasoning_delta text r t =
    emit "response.reasoning_summary_text.delta"
      (at_part "summary_index" r.id r.output_index (field "delta" (str text) end))
      (record t { reasoning = some (record r { text = text_append r.text text }) })

unfoldable pub reasoning_from : World → String → Option Reasoning → Translator → Translator
unfolding take_oi mint open_reasoning reasoning_delta
reasoning_from world text none t =
    let r = new_reasoning world t in reasoning_delta text r (open_reasoning r (take_oi (mint t)))
reasoning_from world text (some r) t = reasoning_delta text r t

-- `_on_reasoning`
unfoldable pub on_reasoning : World → String → Translator → Translator
unfolding reasoning_from
on_reasoning world text t = reasoning_from world text t.reasoning t

abbrev pub closed_reasoning : Reasoning → Reasoning
closed_reasoning r = record r { summary = r.text ∷ [] }

-- `_close_reasoning`
unfoldable pub close_reasoning_of : Option Reasoning → Translator → Translator
unfolding emit reasoning_json
close_reasoning_of none t = t
close_reasoning_of (some r) t =
    emit "response.output_item.done" (at_item r.output_index (reasoning_json (closed_reasoning r)))
      (record (emit "response.reasoning_summary_part.done"
        (at_part "summary_index" r.id r.output_index (field "part" (summary_json r.text) end))
        (emit "response.reasoning_summary_text.done"
          (at_part "summary_index" r.id r.output_index (field "text" (str r.text) end)) t)) {
            reasoning = some (closed_reasoning r);
          })

unfoldable pub close_reasoning : Translator → Translator
unfolding close_reasoning_of
close_reasoning t = close_reasoning_of t.reasoning t

abbrev pub new_answer : World → Translator → Answer
new_answer world t = record {
  id = minted_id world "msg_" t;
  status = "in_progress";
  content = [];
  output_index = t.next_oi;
  text = "";
}

unfoldable pub open_message : Answer → Translator → Translator
unfolding emit answer_json part_json
open_message m t =
    emit "response.content_part.added"
      (at_part "content_index" m.id m.output_index (field "part" (part_json "") end))
      (emit "response.output_item.added" (at_item m.output_index (answer_json m)) t)

unfoldable pub content_delta : String → Answer → Translator → Translator
unfolding emit
content_delta text m t =
    emit "response.output_text.delta"
      (at_part "content_index" m.id m.output_index (field "delta" (str text) end))
      (record t { message = some (record m { text = text_append m.text text }) })

unfoldable pub content_from : World → String → Option Answer → Translator → Translator
unfolding take_oi mint open_message content_delta
content_from world text none t =
    let m = new_answer world t in content_delta text m (open_message m (take_oi (mint t)))
content_from world text (some m) t = content_delta text m t

-- `_on_content`
unfoldable pub on_content : World → String → Translator → Translator
unfolding content_from
on_content world text t = content_from world text t.message t

abbrev pub closed_answer : Answer → Answer
closed_answer m = record m { content = m.text ∷ []; status = "completed" }

-- `_close_message`
unfoldable pub close_message_of : Option Answer → Translator → Translator
unfolding emit answer_json part_json
close_message_of none t = t
close_message_of (some m) t =
    emit "response.output_item.done" (at_item m.output_index (answer_json (closed_answer m)))
      (record (emit "response.content_part.done"
        (at_part "content_index" m.id m.output_index (field "part" (part_json m.text) end))
        (emit "response.output_text.done"
          (at_part "content_index" m.id m.output_index (field "text" (str m.text) end)) t)) {
            message = some (closed_answer m);
          })

unfoldable pub close_message : Translator → Translator
unfolding close_message_of
close_message t = close_message_of t.message t

-- `DeltaToolCall`; without a function its name and its arguments are `None`
pub record ToolDelta : Type 0 where
  pub index : ℕ
  pub id : Option String
  pub name : Option String
  pub arguments : Option String

-- a text that is there and not empty
abbrev pub non_empty : Option String → Option String
non_empty none = none
non_empty (some t) = if str_eq t "" then none else some t

abbrev pub or_empty : Option String → String
or_empty none = ""
or_empty (some t) = t

-- `self._tools[idx]`
unfoldable pub tool_at : ℕ → List Tool → Option Tool
tool_at i [] = none
tool_at i (c ∷ cs) = if c.index == i then some c else tool_at i cs

-- the call of an index changed in its place, or else put at the end
unfoldable pub put_tool : Tool → List Tool → List Tool
put_tool c [] = c ∷ []
put_tool c (d ∷ ds) = if d.index == c.index then c ∷ ds else d ∷ put_tool c ds

abbrev pub call_of : World → Option String → Translator → String
call_of world (some id) t = id
call_of world none t = minted_id world "call_" t

abbrev pub minted_call : Option String → Translator → Translator
unfolding mint
minted_call (some id) t = t
minted_call none t = mint t

-- the item that `_on_tool_call` makes for a new index, in the state after the id of the call
abbrev pub new_tool : World → ToolDelta → String → Translator → Tool
new_tool world tc call_id t = record {
  index = tc.index;
  id = minted_id world "fc_" t;
  call_id = call_id;
  name = or_empty tc.name;
  arguments = "";
  status = "in_progress";
  args = "";
  output_index = t.next_oi;
}

unfoldable pub open_tool : Tool → Translator → Translator
unfolding emit tool_json put_tool take_oi
open_tool c t =
    emit "response.output_item.added" (at_item c.output_index (tool_json c))
      (take_oi (record t { tools = put_tool c t.tools }))

-- the late name of a call that is there
abbrev pub named_tool : Option String → Tool → Tool
named_tool none c = c
named_tool (some name) c = if str_eq c.name "" then record c { name = name } else c

unfoldable pub arguments_delta : Option String → Tool → Translator → Translator
unfolding emit put_tool
arguments_delta none c t = t
arguments_delta (some text) c t =
    emit "response.function_call_arguments.delta"
      (field "item_id" (str c.id)
        (field "output_index" (int c.output_index) (field "delta" (str text) end)))
      (record t { tools = put_tool (record c { args = text_append c.args text }) t.tools })

unfoldable pub tool_call_from : World → ToolDelta → Option Tool → Translator → Translator
unfolding mint open_tool arguments_delta put_tool
tool_call_from world tc none t =
    let t' = minted_call (non_empty tc.id) t in
    let c = new_tool world tc (call_of world (non_empty tc.id) t) t' in
    arguments_delta (non_empty tc.arguments) c (open_tool c (mint t'))
tool_call_from world tc (some c) t =
    let c' = named_tool (non_empty tc.name) c in
    arguments_delta (non_empty tc.arguments) c' (record t { tools = put_tool c' t.tools })

-- `_on_tool_call`
unfoldable pub on_tool_call : World → ToolDelta → Translator → Translator
unfolding tool_call_from tool_at
on_tool_call world tc t = tool_call_from world tc (tool_at tc.index t.tools) t

abbrev pub closed_tool : Tool → Tool
closed_tool c = record c { arguments = c.args; status = "completed" }

unfoldable pub close_tool : Tool → Translator → Translator
unfolding emit tool_json put_tool
close_tool c t =
    emit "response.output_item.done" (at_item c.output_index (tool_json (closed_tool c))) (
      emit "response.function_call_arguments.done"
        (field "item_id" (str c.id)
          (field "output_index" (int c.output_index) (field "arguments" (str c.args) end)))
        (record t { tools = put_tool (closed_tool c) t.tools }))

-- the loop of `_close_tools`
unfoldable pub close_each : List Tool → Translator → Translator
unfolding close_tool
close_each [] t = t
close_each (c ∷ cs) t = close_each cs (close_tool c t)

unfoldable pub close_tools : Translator → Translator
unfolding close_each sorted_tools
close_tools t = close_each (sorted_tools t.tools) t
