-- ===== src/Conversations/Records.antt =====
-- modelship/openai/state/responses.py: what records, positions and log entries look like as JSON.
-- Two shapes that the code never writes pass `_read_record` and are then a KeyError where a key is
-- read that they lack: they are shapes here too.
use modelship.Prelude.{ℕ, String, Option, none, some, List, [], ◌∷◌}
use modelship.Json.{
  Json, Fields, int, str, obj, end, field, field_of, as_obj, as_arr, as_str, as_int, present,
}
use modelship.State.Memory.{Stored, document}

-- where a turn's items stand
pub record Position : Type 0 where
  pub log : String
  pub depth : ℕ

unfoldable pub position_json : Position → Fields
position_json p = field "log" (str p.log) (field "depth" (int p.depth) end)

abbrev pub bind {ℓ κ} : {A : Type ℓ} {B : Type κ} → Option A → (A → Option B) → Option B
bind none f = none
bind (some a) f = f a

-- `_is_position`, with the position
unfoldable pub position : Fields → Option Position
unfolding field_of
position d = bind (bind (field_of "log" d) as_str) λ log.
    bind (bind (field_of "depth" d) as_int) λ depth. some (record { log = log; depth = depth })

-- the list under a key, if a list stands there
unfoldable pub list_at : String → Fields → Option (List Json)
unfolding field_of as_arr
list_at k d = bind (field_of k d) as_arr

pub record Entry : Type 0 where
  pub fields : Fields
  pub input : List Json
  pub output : List Json

-- `_is_entry`, with the entry's lists
unfoldable pub entry : Json → Option Entry
unfolding list_at
entry v = bind (as_obj v) λ d.
    bind (list_at "input" d)
      λ xs. bind (list_at "output" d) λ ys. some (record { fields = d; input = xs; output = ys })

-- `all(_is_entry(entry) for entry in entries)`, with the entries
unfoldable pub entries_of : List Json → Option (List Entry)
unfolding entry
entries_of [] = some []
entries_of (v ∷ vs) = bind (entry v) λ e. bind (entries_of vs) λ es. some (e ∷ es)

-- A turn is finished, its items in a log, or is waiting, its input in the record. `misplaced` has an
-- input and names a log, but stands nowhere in it; `unparented` has an input, but no key for its parent.
pub data Turn : Type 0 where
  finished : Position → Turn
  waiting : List Json → Option Position → Turn
  misplaced : Turn
  unparented : Turn

pub record Record : Type 0 where
  pub response : Fields
  pub turn : Turn

-- `record.get("parent") is None or _is_position(record["parent"])`, with the parent
unfoldable pub parent_of : Option Json → Option (Option Position)
unfolding position
parent_of none = some none
parent_of (some v) = bind (as_obj v) λ d. bind (position d) λ p. some (some p)

-- what a record without a position is, by what stands under `log` and `parent`
unfoldable pub turn_with : List Json → Option Json → Option Json → Option Turn
unfolding parent_of
turn_with items log none = some (elim log [ none ↦ unparented | some v ↦ misplaced ])
turn_with items log (some parent) =
    bind (parent_of (present (some parent)))
      λ p. some (elim log [ none ↦ waiting items p | some v ↦ misplaced ])

-- the shapes that `_read_record` lets pass
unfoldable pub turn_of : Fields → Option Turn
unfolding position list_at turn_with field_of
turn_of d = elim (position d) [
  | some p ↦ some (finished p)
  | none ↦
      bind (list_at "input" d) λ items. turn_with items (field_of "log" d) (field_of "parent" d)
]

unfoldable pub record_of : Option (Stored Json) → Option Record
unfolding turn_of field_of
record_of (some (document (obj d))) =
    bind (bind (field_of "response" d) as_obj)
      λ r. bind (turn_of d) λ t. some (record { response = r; turn = t })
record_of _ = none
