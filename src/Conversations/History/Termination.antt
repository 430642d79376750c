-- ===== src/Conversations/History/Termination.antt =====
-- The loop of `_entries` ends, whatever the store holds and replies.
use modelship.Prelude.{
  ℕ, zero, suc, ◌<◌, String, ◌≡◌, ◌≢◌, refl, Option, none, some, List, [], ◌∷◌, arith,
}
use modelship.Json.{Json}
use modelship.State.Store.{StateStore, Action}
use modelship.Conversations.Keys.{log_key}
use modelship.Conversations.Records.{Position, Entry, entries_of}
use modelship.Conversations.History.{
  Base, Chained, out_of_fuel, gone, found, Round, stop, go_on, round_from, round, base_of, complete,
  refresh, proceed, entries_loop, entries,
}

-- Each base lies at a smaller depth than the turn that names it.
round-go_on_from :
    (b : Base) (depth : ℕ) (e : Entry) (es fs : List Entry) (p : Position)
    → round_from b depth (e ∷ es) ≡ go_on fs p
    → p.depth < depth
unfolding round_from
round-go_on_from Base.malformed depth e es fs p h = cc
round-go_on_from Base.no_base depth e es fs p h = ground arith
round-go_on_from (Base.based_on q) depth e es fs p h = ground arith

pub round-go_on :
    (entries : Option (List Entry)) (depth : ℕ) (fs : List Entry) (p : Position)
    → round entries depth ≡ go_on fs p
    → p.depth < depth
round-go_on none depth fs p h = unfold round in cc h
round-go_on (some []) depth fs p h = unfold round in cc h
round-go_on (some (e ∷ es)) depth fs p h =
    round-go_on_from (base_of e.fields) depth e es fs p (unfold round in h)

-- a round that stops never runs out
round-stop_from :
    (b : Base) (depth : ℕ) (e : Entry) (es : List Entry) (c : Chained)
    → round_from b depth (e ∷ es) ≡ stop c
    → c ≢ out_of_fuel
unfolding round_from
round-stop_from Base.malformed depth e es c h o = cc
round-stop_from Base.no_base depth e es c h o = ground arith
round-stop_from (Base.based_on q) depth e es c h o = ground arith

round-stop :
    (entries : Option (List Entry)) (depth : ℕ) (c : Chained)
    → round entries depth ≡ stop c
    → c ≢ out_of_fuel
round-stop none depth c h o = unfold round in cc (h, o)
round-stop (some []) depth c h o = unfold round in cc (h, o)
round-stop (some (e ∷ es)) depth c h o =
    round-stop_from (base_of e.fields) depth e es c (unfold round in h) o

complete-ne :
    (segments : List (List Entry)) (c : Chained)
    → c ≢ out_of_fuel
    → complete segments c ≢ out_of_fuel
complete-ne segments out_of_fuel h o = h o
complete-ne segments gone h o = cc
complete-ne segments (found es) h o = cc

module _ (store : StateStore Json) (ttl : Option ℕ) (identity : String) where
  open store use {State, read_range}

  proceed-ne :
      (rest : List (List Entry) → Position → Action State Chained) (segments : List (List Entry))
      (r : Round) (s : State)
      → ((c : Chained) → r ≡ stop c → c ≢ out_of_fuel)
      → ((fs : List Entry) (q : Position) (s' : State)
          → r ≡ go_on fs q
          → (rest (fs ∷ segments) q s').0 ≢ out_of_fuel)
      → (proceed store ttl identity rest segments r s).0 ≢ out_of_fuel
  proceed-ne rest segments (stop c) s ends goes =
      unfold proceed in complete-ne segments c (ends c refl)
  proceed-ne rest segments (go_on fs q) s ends goes =
      unfold proceed in goes fs q (refresh store ttl identity q.log s).1 refl

  loop_ends :
      (fuel : ℕ) (segments : List (List Entry)) (p : Position) (s : State)
      → p.depth < fuel
      → (entries_loop store ttl identity fuel segments p s).0 ≢ out_of_fuel
  unfolding entries_loop proceed
  loop_ends zero segments p s le = absurd (omega arith)
  loop_ends (suc fuel) segments p s le =
      let (values, s1) = read_range (log_key identity p.log) 1 (some p.depth) s in
      let read = entries_of values in
      proceed-ne (entries_loop store ttl identity fuel) segments (round read p.depth) s1
        (round-stop read p.depth)
        (λ fs q s' e.
          loop_ends fuel (fs ∷ segments) q s' (omega (arith, round-go_on read p.depth fs q e)))

  -- From a depth `d` the loop of `_entries` makes at most `d + 1` rounds and then returns, whatever
  -- the store holds and replies: a malformed or cyclic log cannot keep it running.
  pub entries-ne-out_of_fuel :
      (p : Position) (s : State) → (entries store ttl identity p s).0 ≢ out_of_fuel
  entries-ne-out_of_fuel p s = unfold entries in loop_ends (suc p.depth) [] p s (omega arith)
