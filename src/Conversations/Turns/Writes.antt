-- ===== src/Conversations/Turns/Writes.antt =====
-- A turn that is written is read back behind its parent's conversation.
use modelship.Prelude.{
  ℕ, String, ◌≡◌, refl, ap, ◌∙◌, false, Option, none, some, List, [], ◌∷◌, ◌++◌,
}
use modelship.Conversations.Turns.Continues.{Continued, stored-first, stored-behind}
use modelship.Json.{with_field, Json, Fields, list_json}
use modelship.State.Store.{StateStore}
use modelship.Conversations.Keys.{key}
use modelship.Conversations.Records.{Position, Entry, finished, record_of}
use modelship.Conversations.History.{read_record, entries, found}
use modelship.Conversations.History.Chain.{Chain, log_at, Ascending}
use modelship.Conversations.History.Reads.{entries-found}
use modelship.Conversations.Turns.{ours, output_of, write, with_ids}
use modelship.Conversations.Turns.Content.{next_position, taken_at, store_turn-Same}
use modelship.Conversations.Turns.Keeps.{store_turn-content}

module _ (store : StateStore Json) (ttl : Option ℕ) (identity : String) where
  open store use {State, content, Lasting}

  -- what a caller reads back of a turn that was written
  pub record ReadBack (response_id : String) (response : Fields) (before : List Entry)
      (input : List Json) (s : State) : Type 0 where
    pub at : Position
    pub turn : Entry
    pub named :
        (read_record store ttl identity response_id s).0
        ≡ some
            (record { response = with_field "output" (list_json []) response; turn = finished at })
    pub read : (entries store ttl identity at s).0 ≡ found (before ++ turn ∷ [])
    pub asked : turn.input ≡ input
    pub answered : turn.output ≡ output_of response

  ReadBack-Continued :
      (response_id : String) (response : Fields) (before : List Entry) (input : List Json)
      (s : State)
      → Lasting ttl s
      → Continued (content s) identity response_id response before input
      → ReadBack response_id response before input s
  ReadBack-Continued response_id response before input s h c = record {
    at = c.at;
    turn = c.turn;
    named =
        unfold read_record in
        ap record_of (store.get-reply ttl (key identity response_id) s h) ∙ c.named;
    read =
        (entries-found store ttl identity (content s) c.at (before ++ c.turn ∷ []) s
          (record { shows = λ k. refl; lasting = h }) c.chain).0;
    asked = c.asked;
    answered = c.answered;
  }

  module _ (uuids : ℕ → String) (response_id : String) (response : Fields) (input : List Json)
      (s : State) (h : Lasting ttl s) (empty : log_at (content s) identity response_id ≡ []) where
    lasting_after :
        (parent : Option Position)
        → Lasting ttl (write store ttl identity uuids response_id response parent input s).1
    lasting_after parent =
        unfold write in
        (store_turn-Same store ttl identity (content s) response_id response parent
          (with_ids uuids input) false s (record { shows = λ k. refl; lasting = h })).lasting

    -- The first turn of a conversation, once written, is read back as a conversation of that turn.
    pub write-first :
        ReadBack response_id response []
          (with_ids uuids input)
          (write store ttl identity uuids response_id response none input s).1
    write-first =
        ReadBack-Continued response_id response [] (with_ids uuids input) _ (lasting_after none) (
          unfold write in
          rw
            (store_turn-content store ttl identity response_id response none (with_ids uuids input)
              false s h)
            (stored-first identity (content s) response_id response (with_ids uuids input) false
              empty refl))

    -- A turn that continues a parent, once written, is read back as the parent's conversation with the
    -- turn behind it, whether the place behind the parent was free or taken by another turn.
    pub write-continues :
        (parent : Position) (es : List Entry)
        → Ascending (content s)
        → Chain (content s) identity parent es
        → ours response_id (taken_at identity (content s) (next_position parent)) ≡ false
        → ReadBack response_id response es
            (with_ids uuids input)
            (write store ttl identity uuids response_id response (some parent) input s).1
    write-continues parent es asc ch other =
        ReadBack-Continued response_id response es (with_ids uuids input) _
          (lasting_after (some parent))
          (unfold write in
            rw
              (store_turn-content store ttl identity response_id response (some parent)
                (with_ids uuids input) false s h)
              (stored-behind identity (content s) response_id response parent es
                (with_ids uuids input) false asc ch empty other refl))
