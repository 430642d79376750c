-- ===== src/Responses/Stream/Walks.antt =====
-- What every chunk keeps, where the three channels and a change of the model, the usage or the finish
-- reason keep it.
use modelship.Prelude.{Option, none, some, String, List, [], ◌∷◌}
use modelship.Responses.Envelope.{Usage}
use modelship.Responses.Stream.{Translator, World}
use modelship.Responses.Stream.Channels.{
  ToolDelta, non_empty, on_reasoning, on_content, on_tool_call,
}
use modelship.Responses.Stream.Translate.{
  Choice, Chunk, with_model, with_usage, with_reason, reasoning_part, content_part, tool_calls_part,
  on_choice, on_choices, process, process_all,
}

module _ (world : World) (P : Translator → Type 0)
    (keeps_reasoning : (text : String) (t : Translator) → P t → P (on_reasoning world text t))
    (keeps_content : (text : String) (t : Translator) → P t → P (on_content world text t))
    (keeps_tool : (tc : ToolDelta) (t : Translator) → P t → P (on_tool_call world tc t))
    (keeps_aside : (t : Translator) (model : String) (usage : Option Usage) (reason : Option String)
      → P t
      → P (record t { model = model; usage = usage; finish_reason = reason })) where
  reasoning_part-keeps :
      (text : Option String) (t : Translator) → P t → P (reasoning_part world text t)
  unfolding reasoning_part
  reasoning_part-keeps none t h = h
  reasoning_part-keeps (some text) t h = keeps_reasoning text t h

  content_part-keeps : (text : Option String) (t : Translator) → P t → P (content_part world text t)
  unfolding content_part
  content_part-keeps none t h = h
  content_part-keeps (some text) t h = keeps_content text t h

  tool_calls_part-keeps :
      (tcs : List ToolDelta) (t : Translator) → P t → P (tool_calls_part world tcs t)
  unfolding tool_calls_part
  tool_calls_part-keeps [] t h = h
  tool_calls_part-keeps (tc ∷ tcs) t h = tool_calls_part-keeps tcs _ (keeps_tool tc t h)

  with_reason-keeps : (reason : Option String) (t : Translator) → P t → P (with_reason reason t)
  with_reason-keeps none t h = h
  with_reason-keeps (some reason) t h = keeps_aside t t.model t.usage (some reason) h

  with_model-keeps : (model : Option String) (t : Translator) → P t → P (with_model model t)
  with_model-keeps none t h = h
  with_model-keeps (some model) t h = keeps_aside t model t.usage t.finish_reason h

  with_usage-keeps : (usage : Option Usage) (t : Translator) → P t → P (with_usage usage t)
  with_usage-keeps none t h = h
  with_usage-keeps (some usage) t h = keeps_aside t t.model (some usage) t.finish_reason h

  on_choices-keeps : (cs : List Choice) (t : Translator) → P t → P (on_choices world cs t)
  unfolding on_choices on_choice
  on_choices-keeps [] t h = h
  on_choices-keeps (c ∷ cs) t h = on_choices-keeps cs _ (
      with_reason-keeps c.finish_reason _ (
        tool_calls_part-keeps c.tool_calls _ (
          content_part-keeps (non_empty c.content) _
            (reasoning_part-keeps (non_empty c.reasoning) t h))))

  pub process_all-keeps :
      (chunks : List Chunk) (t : Translator) → P t → P (process_all world chunks t)
  unfolding process_all process
  process_all-keeps [] t h = h
  process_all-keeps (c ∷ cs) t h = process_all-keeps cs _ (
      on_choices-keeps c.choices _
        (with_usage-keeps c.usage _ (with_model-keeps (non_empty (some c.model)) t h)))
