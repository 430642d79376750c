-- ===== src/Conversations/Turns/Keeps.antt =====
-- Storing a turn: what it leaves of the conversations that are there, and of other callers.
use mathlib.Core.Path.{fun_ext}
use modelship.Prelude.{
  ℕ, suc, String, ◌≡◌, ◌≢◌, refl, sym, Bool, Option, none, some, List, Bool-cases, inl, inr,
}
use modelship.Prelude.{str_eq_ne}
use modelship.Text.{NoSlash}
use modelship.Json.{Json, Fields}
use modelship.State.Store.{StateStore, Content, accepts, written}
use modelship.Conversations.Keys.{key, log_key, key-ne-log_key, key_inj, log_key_inj}
use modelship.Conversations.Records.{Position, Entry, entry}
use modelship.Conversations.History.Chain.{Chain, Grows, same, Ascending, Chain-kept}
use modelship.Conversations.Turns.{forked, ours, output_of, entry_fields, store_turn}
use modelship.Conversations.Turns.Content.{
  put_content, put_content-Grows, put_content-Ascending, next_position, taken_at, stored,
  store_turn-Same,
}

stored-Grows :
    (identity : String) (c : Content Json) (response_id : String) (response : Fields)
    (parent : Option Position) (input : List Json) (x : Bool)
    → Grows c (stored identity c response_id response parent input x)
stored-Grows identity c response_id response none input x i l =
    put_content-Grows identity c response_id _ _ response x i l
stored-Grows identity c response_id response (some parent) input x i l =
    let p = next_position parent in
    elim (Bool-cases (accepts c (log_key identity p.log) p.depth (key identity response_id) x)) [
      | inl e ↦ rw e (
          rw e at (
            put_content-Grows identity c response_id
              (entry_fields response_id input (output_of response)) p response x i l))
      | inr e ↦ elim (Bool-cases (ours response_id (taken_at identity c p))) [
        | inl o ↦ rw (e, o) (same _ refl)
        | inr o ↦
            rw (e, o)
              (put_content-Grows identity c response_id
                (forked (entry_fields response_id input (output_of response)) parent)
                (record { log = response_id; depth = suc parent.depth }) response x i l)
      ]
    ]

stored-Ascending :
    (identity : String) (c : Content Json) (response_id : String) (response : Fields)
    (parent : Option Position) (input : List Json) (x : Bool)
    → Ascending c
    → Ascending (stored identity c response_id response parent input x)
stored-Ascending identity c response_id response none input x h =
    put_content-Ascending identity c response_id _ _ response x h
stored-Ascending identity c response_id response (some parent) input x h =
    let p = next_position parent in
    let entry = entry_fields response_id input (output_of response) in
    elim (Bool-cases (accepts c (log_key identity p.log) p.depth (key identity response_id) x)) [
      | inl e ↦ rw e (rw e at (put_content-Ascending identity c response_id entry p response x h))
      | inr e ↦ elim (Bool-cases (ours response_id (taken_at identity c p))) [
        | inl o ↦ rw (e, o) h
        | inr o ↦
            rw (e, o)
              (put_content-Ascending identity c response_id (forked entry parent)
                (record { log = response_id; depth = suc parent.depth }) response x h)
      ]
    ]

put_content-apart :
    (identity : String) (c : Content Json) (response_id : String) (entry : Fields) (p : Position)
    (response : Fields) (x : Bool) (k : String)
    → ((r : String) → key identity r ≢ k)
    → ((l : String) → log_key identity l ≢ k)
    → put_content identity c response_id entry p response x k ≡ c k
unfolding written
put_content-apart identity c response_id entry p response x k hk hl =
    elim (Bool-cases (accepts c (log_key identity p.log) p.depth (key identity response_id) x)) [
      | inr e ↦ rw e
      | inl e ↦ rw (e, str_eq_ne _ _ (hk response_id), str_eq_ne _ _ (hl p.log))
    ]

-- What a caller of another identity reads is not touched.
stored-apart :
    (identity : String) (c : Content Json) (response_id : String) (response : Fields)
    (parent : Option Position) (input : List Json) (x : Bool) (k : String)
    → ((r : String) → key identity r ≢ k)
    → ((l : String) → log_key identity l ≢ k)
    → stored identity c response_id response parent input x k ≡ c k
stored-apart identity c response_id response none input x k hk hl =
    put_content-apart identity c response_id _ _ response x k hk hl
stored-apart identity c response_id response (some parent) input x k hk hl =
    let p = next_position parent in
    let entry = entry_fields response_id input (output_of response) in
    elim (Bool-cases (accepts c (log_key identity p.log) p.depth (key identity response_id) x)) [
      | inl e ↦ rw e (rw e at (put_content-apart identity c response_id entry p response x k hk hl))
      | inr e ↦ elim (Bool-cases (ours response_id (taken_at identity c p))) [
        | inl o ↦ rw (e, o)
        | inr o ↦
            rw (e, o)
              (put_content-apart identity c response_id (forked entry parent)
                (record { log = response_id; depth = suc parent.depth }) response x k hk hl)
      ]
    ]

module _ (store : StateStore Json) (ttl : Option ℕ) (identity : String) where
  open store use {State, content, Lasting}

  pub store_turn-content :
      (response_id : String) (response : Fields) (parent : Option Position) (input : List Json)
      (x : Bool) (s : State)
      → Lasting ttl s
      → content (store_turn store ttl identity response_id response parent input x s).1
        ≡ stored identity (content s) response_id response parent input x
  store_turn-content response_id response parent input x s h =
      fun_ext
        (store_turn-Same store ttl identity (content s) response_id response parent input x s
          (record { shows = λ k. refl; lasting = h })).shows

  -- Storing a turn, wherever it lands, leaves every conversation of every caller as it was: what
  -- could be read at a position before can be read there after.
  pub store_turn-keeps :
      (response_id : String) (response : Fields) (parent : Option Position) (input : List Json)
      (x : Bool) (s : State)
      → Lasting ttl s
      → Ascending (content s)
      → (i : String) (p : Position) (es : List Entry) → Chain (content s) i p es
      → Chain
          (content (store_turn store ttl identity response_id response parent input x s).1)
          i
          p
          es
  store_turn-keeps response_id response parent input x s h asc i p es ch =
      rw (store_turn-content response_id response parent input x s h) (
        Chain-kept (content s) (stored identity (content s) response_id response parent input x)
          (stored-Grows identity (content s) response_id response parent input x) asc i ch)

  -- Storing a turn keeps the positions of every log strictly increasing.
  pub store_turn-Ascending :
      (response_id : String) (response : Fields) (parent : Option Position) (input : List Json)
      (x : Bool) (s : State)
      → Lasting ttl s
      → Ascending (content s)
      → Ascending (content (store_turn store ttl identity response_id response parent input x s).1)
  store_turn-Ascending response_id response parent input x s h asc =
      rw (store_turn-content response_id response parent input x s h)
        (stored-Ascending identity (content s) response_id response parent input x asc)

  -- A turn stored under one identity changes no record and no log of another, whatever ids the turn
  -- and its parent name, as long as neither identity holds a slash.
  pub store_turn-isolated :
      (response_id : String) (response : Fields) (parent : Option Position) (input : List Json)
      (x : Bool) (s : State) (other id : String)
      → Lasting ttl s
      → NoSlash identity
      → NoSlash other
      → identity ≢ other
      → let c' = content (store_turn store ttl identity response_id response parent input x s).1 in
        (c' (key other id) ≡ content s (key other id))
        × (c' (log_key other id) ≡ content s (log_key other id))
  store_turn-isolated response_id response parent input x s other id h hi ho ne =
      rw (store_turn-content response_id response parent input x s h) (
        stored-apart identity (content s) response_id response parent input x (key other id)
            (λ r e. ne (key_inj identity other r id hi ho e).0)
            (λ l e. key-ne-log_key other id identity l (sym e)),
        stored-apart identity (content s) response_id response parent input x (log_key other id)
            (λ r e. key-ne-log_key identity r other id e)
            (λ l e. ne (log_key_inj identity other l id hi ho e).0),
      )
