-- ===== src/State/Tests.antt =====
-- The memory store and its key prefixes at concrete inputs.
use modelship.Prelude.{ℕ, ◌≡◌, refl, true, false, false, ◌&&◌, none, some, List, [], ◌∷◌, arith}
use modelship.Dict.{get as dict_get, put, remove}
use modelship.Text.{split, parts}
use modelship.Text.Prefixes.{begins}
use modelship.State.Prefix.{normalize_prefix, covers, or_blank, normalize_prefix-split}
use modelship.State.Memory.{
  document, Memory, init, get, set, delete, append, append_and_set, missing, read_range, expire,
}
use modelship.State.Memory.View.{view, among}
use modelship.State.Memory.Spec.{Call, Reply, call, calls, spec_calls}
use modelship.State.Memory.Refinement.{calls-refine, init-Refines}
use modelship.State.Memory.Listing.{list, held, among-list}
use modelship.State.Memory.Logs.{Sorted, call-Sorted}

program : Unit {0}
unfolding init get set delete append append_and_set missing read_range expire dict_get put remove
    list covers
program = tt

abbrev empty : Memory ℕ
empty = record { table = []; last_sweep = 0; sweep_interval = 300 }

-- a document that expires at 5, and a log of two entries
abbrev script : List (Call ℕ)
script =
    Call.set_call "responses/u/a" (document 7) (some 5) 0
    ∷ Call.append_and_set_call "log" 1 10 "responses/u/b" (document 8) none false 1 1 2
    ∷ Call.append_call "log" 1 11 none 3
    ∷ Call.append_call "log" 2 12 none 4
    ∷ Call.get_call "responses/u/a" 5
    ∷ Call.read_range_call "log" 2 none 400
    ∷ []

abbrev after : Memory ℕ
after = (calls script empty).1

script_replies :
    (calls script empty).0
    ≡ Reply.done
      ∷ Reply.accepted true
      ∷ Reply.accepted false
      ∷ Reply.accepted true
      ∷ Reply.found none
      ∷ Reply.values (12 ∷ [])
      ∷ []
unfolding program calls call
script_replies = refl

calls-refine_example : (calls script empty).0 ≡ (spec_calls script (λ j u. none)).0
unfolding init
calls-refine_example = calls-refine script 0 (λ j u. none) empty (omega arith) (init-Refines 0 300)

call-Sorted_example : Sorted (call (Call.append_call "log" 3 13 none 401) after).1.table
unfolding program calls call
call-Sorted_example =
    call-Sorted (Call.append_call "log" 3 13 none 401) after tt ((omega arith, tt), (tt, tt))

among-list_example :
    among "responses/u/b" (list "responses/u/" 6 after)
    ≡ (held (view 6 "responses/u/b" after) && begins (parts "responses/u/") (split "responses/u/b"))
unfolding program calls call
among-list_example = among-list "responses/u/" 6 "responses/u/b" after (refl, (refl, tt))

-- "responses/u2" begins with the text "responses/u", and is not under it
neighbour : begins (parts "responses/u/") (split "responses/u2") ≡ false
unfolding begins parts split
neighbour = refl

doubled_slashes : normalize_prefix "/responses//u1/" ≡ "responses/u1"
unfolding normalize_prefix
doubled_slashes = refl

normalize_prefix-split_example :
    split (normalize_prefix "/responses//u1/") ≡ or_blank (parts "/responses//u1/")
normalize_prefix-split_example = normalize_prefix-split "/responses//u1/"
