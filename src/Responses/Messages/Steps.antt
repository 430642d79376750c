-- ===== src/Responses/Messages/Steps.antt =====
-- What one round of the loop over the items adds to the messages.
use modelship.Prelude.{
  String, ◌≡◌, refl, ap, sym, ◌∙◌, inl, inr, true, false, Option, none, some, List, [], ◌∷◌, ◌++◌,
  if◌then◌else◌, Bool-cases, arith,
}
use mathlib.Core.Path.{subst}
use modelship.Json.{Json, Fields, obj, field_of}
use modelship.Responses.Result.{Result, returned, >>=-returned}
use modelship.Responses.Content.{text_of, content_to_chat, some_text}
use modelship.Responses.Messages.{
  Message, said, called, answered, Walk, Walked, mem, Kind, function_call, mcp_call, skipped,
  function_call_output, reasoning, compaction, message, unknown, is_truthy, is_system, is_assistant,
  with_part, on_call, mcp_content, on_mcp_call, on_output, first_text, on_reasoning, any_compaction,
  on_decoded, on_message, kind_of, on_compaction, on_item, step, walk,
}

abbrev pub Nested : Type 0
Nested = List Json → List String → Result Walked

-- what a round does to the messages and to the call ids seen
pub data Adds (nested : Nested) (w w' : Walk) : Type 0 where
  nothing : w'.messages ≡ w.messages → w'.seen ≡ w.seen → Adds nested w w'
  a_call :
      (id name : String) (arguments : Json) (r : Option String)
      → w'.messages ≡ w.messages ++ called id name arguments r ∷ []
      → w'.seen ≡ id ∷ w.seen
      → Adds nested w w'
  a_pair :
      (id name : String) (arguments : Json) (r content : Option String)
      → w'.messages ≡ (w.messages ++ called id name arguments r ∷ []) ++ answered id content ∷ []
      → w'.seen ≡ w.seen
      → Adds nested w w'
  an_answer :
      (id : String) (content : Option String)
      → mem id w.seen ≡ true
      → w'.messages ≡ w.messages ++ answered id content ∷ []
      → w'.seen ≡ w.seen
      → Adds nested w w'
  a_saying :
      (role content : Json) (r : Option String)
      → is_system role ≡ false
      → w'.messages ≡ w.messages ++ said role content r ∷ []
      → w'.seen ≡ w.seen
      → Adds nested w w'
  inner :
      (items : List Json) (parts : List String) (r : Walked)
      → nested items parts ≡ returned r
      → w'.messages ≡ w.messages ++ r.0
      → w'.seen ≡ w.seen
      → Adds nested w w'

abbrev messages_seen : Walk → List Message × List String
messages_seen w = (w.messages, w.seen)

pub returned-inj : {A : Type 0} (a b : A) → returned a ≡ returned b → a ≡ b
returned-inj a b h = cc h

module _ (nested : Nested) (w w' : Walk) where
  on_call-Adds :
      (id name : Option String) (arguments : Json) (r : Option String)
      → on_call id name arguments r w ≡ returned w'
      → Adds nested w w'
  unfolding on_call
  on_call-Adds (some id) (some name) arguments r h =
      Adds.a_call id name arguments r (ground (arith, h)) (ground (arith, h))
  on_call-Adds none name arguments r h = absurd (cc h)
  on_call-Adds (some id) none arguments r h = absurd (cc h)

  on_mcp_call-Adds :
      (id name : Option String) (arguments : Json) (error output : Option Json) (r : Option String)
      → on_mcp_call id name arguments error output r w ≡ returned w'
      → Adds nested w w'
  unfolding on_mcp_call
  on_mcp_call-Adds (some id) (some name) arguments error output r h =
      let (content, _, e) = >>=-returned (mcp_content error output) _ h in
      Adds.a_pair id name arguments r content (ground (arith, e)) (ground (arith, e))
  on_mcp_call-Adds none name arguments error output r h = absurd (cc h)
  on_mcp_call-Adds (some id) none arguments error output r h = absurd (cc h)

  on_output-Adds :
      (id : Option String) (output : Option Json)
      → on_output id output w ≡ returned w'
      → Adds nested w w'
  unfolding on_output
  on_output-Adds none output h = absurd (cc h)
  on_output-Adds (some id) output h =
      let (content, _, e) = >>=-returned (text_of output) _ h in
      elim (Bool-cases (mem id w.seen)) [
        | inl i ↦
            let e' = rw i at e in
            Adds.an_answer id content i (ground (arith, e')) (ground (arith, e'))
        | inr i ↦ absurd (cc (rw i at e))
      ]

  on_reasoning-Adds :
      (content summary : Option Json)
      → on_reasoning content summary w ≡ returned w'
      → Adds nested w w'
  unfolding on_reasoning
  on_reasoning-Adds content summary h =
      let (t, _, e) = >>=-returned (first_text content summary) _ h in
      elim (Bool-cases (some_text t)) [
        | inl i ↦ let e' = rw i at e in Adds.nothing (ground (arith, e')) (ground (arith, e'))
        | inr i ↦ let e' = rw i at e in Adds.nothing (ground (arith, e')) (ground (arith, e'))
      ]

  on_decoded-Adds :
      (items : Option (List Json)) → on_decoded nested items w ≡ returned w' → Adds nested w w'
  unfolding on_decoded
  on_decoded-Adds none h = absurd (cc h)
  on_decoded-Adds (some items) h = elim (Bool-cases (any_compaction items)) [
    | inl i ↦ absurd (cc (rw i at h))
    | inr i ↦
        let (r, n, e) = >>=-returned (nested items w.system) _ (rw i at h) in
        Adds.inner items w.system r n (ground (arith, e)) (ground (arith, e))
  ]

  with_part-messages : (t : Option String) → messages_seen (with_part t w) ≡ messages_seen w
  with_part-messages none = refl
  with_part-messages (some t) = ground arith

  on_message-Adds :
      (role : Json) (content : Option Json) (r : Option String)
      → on_message role content r w ≡ returned w'
      → Adds nested w w'
  unfolding on_message
  on_message-Adds role content r h = elim (Bool-cases (is_system role)) [
    | inl i ↦
        let (t, _, e) = >>=-returned (text_of content) _ (rw i at h) in
        let same = ap messages_seen (sym (returned-inj _ _ e)) ∙ with_part-messages t in
        Adds.nothing (ap (λ p. p.0) same) (ap (λ p. p.1) same)
    | inr i ↦
        let (c, _, e) = >>=-returned (content_to_chat content) _ (rw i at h) in
        Adds.a_saying role c (if is_assistant role then r else none) i (ground (arith, e))
          (ground (arith, e))
  ]

module _ (decrypt : Json → Option (List Json)) (nested : Nested) where
  on_item-Adds :
      (k : Kind) (item : Fields) (r : Option String) (w w' : Walk)
      → on_item decrypt nested k item r w ≡ returned w'
      → Adds nested w w'
  unfolding on_item on_compaction
  on_item-Adds function_call item r w w' h = on_call-Adds nested w w' _ _ _ r h
  on_item-Adds mcp_call item r w w' h = on_mcp_call-Adds nested w w' _ _ _ _ _ r h
  on_item-Adds skipped item r w w' h = Adds.nothing (ground (arith, h)) (ground (arith, h))
  on_item-Adds function_call_output item r w w' h = on_output-Adds nested w w' _ _ h
  on_item-Adds reasoning item r w w' h = on_reasoning-Adds nested w w' _ _ h
  on_item-Adds compaction item r w w' h =
      elim (Bool-cases (is_truthy (field_of "encrypted_content" item))) [
        | inl i ↦ on_decoded-Adds nested w w' _ (rw i at h)
        | inr i ↦ absurd (cc (rw i at h))
      ]
  on_item-Adds message item r w w' h = on_message-Adds nested w w' _ _ r h
  on_item-Adds unknown item r w w' h = absurd (cc h)

  -- A round adds a call, an answer to a call that was seen, both of an MCP call, a message that is
  -- not a system message, an inner list's messages, or nothing.
  step-Adds :
      (item : Json) (w w' : Walk)
      → step decrypt nested item w ≡ returned w'
      → Adds nested (record w { carried = none }) w'
  unfolding step
  step-Adds (obj item) w w' h =
      on_item-Adds (kind_of item) item w.carried (record w { carried = none }) w' h
  step-Adds _ w w' h = absurd (cc h)

  -- What each such round keeps, the loop keeps.
  pub walk-keeps :
      (P : List Message → List String → Type 0)
      → ((w w' : Walk) → Adds nested w w' → P w.messages w.seen → P w'.messages w'.seen)
      → (items : List Json) (w w' : Walk) → walk decrypt nested items w ≡ returned w'
      → P w.messages w.seen
      → P w'.messages w'.seen
  unfolding walk
  walk-keeps P keeps [] w w' h p = subst (λ v. P v.messages v.seen) (returned-inj w w' h) p
  walk-keeps P keeps (item ∷ items) w w' h p =
      let (w1, s, rest) = >>=-returned (step decrypt nested item w) _ h in
      walk-keeps P keeps items w1 w' rest
        (keeps (record w { carried = none }) w1 (step-Adds item w w1 s) p)
