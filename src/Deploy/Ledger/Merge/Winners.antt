-- ===== src/Deploy/Ledger/Merge/Winners.antt =====
-- As a map from model names, the merged models are the committed ones overridden by the input.
use mathlib.Core.Path.{subst}
use mathlib.Core.Option.{some-injective}
use modelship.Prelude.{
  String, ◌≡◌, ◌≢◌, ◌↔◌, ◌⊎◌, refl, ap, sym, ◌∙◌, Bool, true, false, Option, none, some, List, [],
  ◌∷◌, str_eq, str_eq_self, Bool-cases, inl, inr, arith, eq_iff,
}
use modelship.Dict.{Dict, get, Distinct, get-put}
use modelship.Json.{Json}
use modelship.Deploy.Ledger.Merge.{
  additive, Merging, and_then, enter, app, name, add_committed, add_inputs, values, merge,
}
use modelship.Deploy.Ledger.Merge.Views.{model_of}
use modelship.Deploy.Ledger.Merge.Steps.{
  models, apps, winner, has_name, Unique, Kept, Steps, add_input-Steps, enter-Kept, enter-takes,
}

-- the two dictionaries before the loops
abbrev start : Merging
start = record { merged = []; app_of = [] }

-- a model stands in a list
abbrev pub Listed : Json → List Json → Type 0
Listed raw [] = true ≡ false
Listed raw (x ∷ xs) = (x ≡ raw) ⊎ Listed raw xs

-- a model stands in what a merge that does not raise returns
abbrev pub Returned : Json → Option (List Json) → Type 0
Returned raw none = true ≡ false
Returned raw (some xs) = Listed raw xs

module _ (identity : Json → String × String)
    (determined : (x y : Json)
      → app identity x ≡ app identity y
      → name identity x ≡ name identity y) where
  -- The loop over the input never raises.
  add_inputs-Steps :
      (ds : List Json) (st : Merging)
      → Kept identity st
      → Steps identity
          (λ n. winner identity ds n (model_of (models st) (apps st) n))
          (add_inputs identity ds st)
  unfolding add_inputs winner
  add_inputs-Steps [] st k = record { next = st; does = refl; kept = k; model = λ n. refl }
  add_inputs-Steps (d ∷ ds) st k =
      let one = add_input-Steps identity d st k determined in
      let rest = add_inputs-Steps ds one.next one.kept in
      record {
        next = rest.next;
        does = ap (and_then (add_inputs identity ds)) one.does ∙ rest.does;
        kept = rest.kept;
        model = λ n. rest.model n ∙ ap (winner identity ds n) (one.model n);
      }

  fresh_app :
      (m : Json) (st : Merging)
      → Kept identity st
      → apps st (name identity m) ≡ none
      → models st (app identity m) ≡ none
  fresh_app m st k free = go (models st (app identity m)) refl
    where
      go : (o : Option Json) → models st (app identity m) ≡ o → o ≡ none
      go none e = refl
      go (some old) e =
          let (a, n) = k.sound.named (app identity m) old e in
          absurd (ground (arith, n, free, determined old m a))

  own-name : (m : Json) (ms : List Json) → has_name identity (name identity m) (m ∷ ms) ≡ true
  unfolding has_name
  own-name m ms = rw str_eq_self

  later :
      (m : Json) (ms : List Json) (st : Merging)
      → has_name identity (name identity m) ms ≡ false
      → ((n : String) → has_name identity n (m ∷ ms) ≡ true → apps st n ≡ none)
      → (n : String) → has_name identity n ms ≡ true
      → apps (enter (app identity m) (name identity m) m st) n ≡ none
  unfolding enter has_name
  later m ms st u free n h = elim (Bool-cases (str_eq (name identity m) n)) [
    | inl i ↦ absurd (ground (arith, u, h, ap (λ x. has_name identity x ms) ((eq_iff _ _).0 i)))
    | inr i ↦ rw (get-put, i) (free n (rw i h))
  ]

  -- The loop over the committed models.
  add_committed-Kept :
      (ms : List Json) (st : Merging)
      → Kept identity st
      → Unique identity ms
      → ((n : String) → has_name identity n ms ≡ true → apps st n ≡ none)
      → Kept identity (add_committed identity ms st)
        × ((n : String)
            → model_of
                (models (add_committed identity ms st))
                (apps (add_committed identity ms st))
                n
              ≡ winner identity ms n (model_of (models st) (apps st) n))
  unfolding add_committed winner
  add_committed-Kept [] st k u free = (k, λ n. refl)
  add_committed-Kept (m ∷ ms) st k u free =
      let own = free (name identity m) (own-name m ms) in
      let fresh = fresh_app m st k own in
      let (kept, model) =
        add_committed-Kept ms (enter (app identity m) (name identity m) m st)
          (enter-Kept identity m st k fresh own) u.1 (later m ms st u.0 free) in
      (kept, λ n. model n ∙ ap (winner identity ms n) (enter-takes identity m st k fresh n))

  start-Kept : Kept identity start
  unfolding get
  start-Kept = record {
    sound = record {
      named = λ a raw e. absurd (ground (arith, e));
      held = λ n a e. absurd (ground (arith, e));
    };
    distinct = tt;
  }

  start-model : (n : String) → model_of (models start) (apps start) n ≡ none
  unfolding get
  start-model n = refl

behind :
    {A : Type 0} (k j : String) (v w : A) (d : Dict A)
    → get k d ≡ none
    → get j d ≡ some w
    → get j ((k, v) ∷ d) ≡ some w
unfolding get
behind k j v w d h e = ground (arith, h, e, eq_iff k j)

at_first : {A : Type 0} (k : String) (v : A) (d : Dict A) → get k ((k, v) ∷ d) ≡ some v
unfolding get
at_first k v d = rw str_eq_self

-- what stands in a dictionary's values
Listed-get :
    (at : Json → String) (d : Dict Json) (raw : Json)
    → Distinct d
    → ((k : String) (v : Json) → get k d ≡ some v → at v ≡ k)
    → Listed raw (values d)
    → get (at raw) d ≡ some raw
unfolding get
Listed-get at [] raw u h l = absurd (ground (arith, l))
Listed-get at ((k, v) ∷ d) raw u h (inl e) =
    rw ((eq_iff _ _).1 (sym (h k v (at_first k v d)) ∙ ap at e)) (ap some e)
Listed-get at ((k, v) ∷ d) raw u h (inr l) =
    behind k (at raw) v raw d u.0
      (Listed-get at d raw u.1 (λ j w e. h j w (behind k j v w d u.0 e)) l)

get-Listed : (k : String) (d : Dict Json) (raw : Json) → get k d ≡ some raw → Listed raw (values d)
unfolding get
get-Listed k [] raw e = absurd (ground (arith, e))
get-Listed k ((j, v) ∷ d) raw e = elim (Bool-cases (str_eq j k)) [
  | inl i ↦ inl (some-injective _ _ (rw i at e))
  | inr i ↦ inr (get-Listed k d raw (rw i at e))
]

module _ (identity : Json → String × String) where
  -- A model is among a sound state's values exactly when it is the model of its name.
  Listed-model :
      (st : Merging) (raw : Json)
      → Kept identity st
      → Listed raw (values st.merged)
        ↔ (model_of (models st) (apps st) (name identity raw) ≡ some raw)
  Listed-model st raw k = (there, back (apps st (name identity raw)) refl)
    where
      there :
          Listed raw (values st.merged)
          → model_of (models st) (apps st) (name identity raw) ≡ some raw
      there l =
          let e =
            Listed-get (app identity) st.merged raw k.distinct (λ a v g. (k.sound.named a v g).0)
              l in
          ap (and_then (models st)) (k.sound.named (app identity raw) raw e).1 ∙ e

      back :
          (o : Option String)
          → apps st (name identity raw) ≡ o
          → and_then (models st) o ≡ some raw
          → Listed raw (values st.merged)
      back none e h = absurd (ground (arith, h))
      back (some a) e h = get-Listed a st.merged raw h

  -- Where an app is of one name, no two committed models share a name and the input validates, an
  -- additive merge does not raise, and a model is in its result exactly when it is the last of its
  -- name in the input, or the input has none of that name and it is the committed one.
  pub merge-winners :
      (valid : List Json → Bool) (committed input : List Json) (raw : Json)
      → ((x y : Json) → app identity x ≡ app identity y → name identity x ≡ name identity y)
      → Unique identity committed
      → valid input ≡ true
      → (merge identity valid committed input additive ≢ none)
        × (Returned raw (merge identity valid committed input additive) ↔ (
            winner identity input
              (name identity raw)
              (winner identity committed (name identity raw) none)
            ≡ some raw))
  unfolding merge get
  merge-winners valid committed input raw determined u v =
      let (kept, model) =
        add_committed-Kept identity determined committed start (start-Kept identity determined) u
          (λ n h. refl) in
      let all =
        add_inputs-Steps identity determined input (add_committed identity committed start) kept in
      let n = name identity raw in
      rw (v, all.does)
        (
          λ e. ground (arith, e),
          subst (λ o. Listed raw (values all.next.merged) ↔ (o ≡ some raw))
              (all.model n ∙ ap (winner identity input n) (model n))
              (Listed-model all.next raw all.kept),
        )
