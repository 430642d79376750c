-- ===== src/Deploy/Ledger/Merge/Steps.antt =====
-- What each round of `merge` does to the model of each name.
use mathlib.Core.Path.{fun_ext, subst}
use modelship.Prelude.{
  String, ◌≡◌, refl, ap, sym, ◌∙◌, Bool, false, ◌||◌, Option, none, some, List, [], ◌∷◌,
  if◌then◌else◌, str_eq, str_eq_self, Bool-cases, inl, inr, arith,
}
use modelship.Dict.{get, put, remove, get-put, get-remove, Distinct, put-Distinct, remove-Distinct}
use modelship.Json.{Json}
use modelship.Deploy.Ledger.Merge.{
  Merging, and_then, enter, popped, drop_prior, app, name, add_input,
}
use modelship.Deploy.Ledger.Merge.Views.{
  with_key, without, Sound, model_of, enter-Sound, drop-Sound, replace-Sound, enter-model,
  drop-model, replace-model,
}

abbrev pub models : Merging → String → Option Json
models st a = get a st.merged

abbrev pub apps : Merging → String → Option String
apps st n = get n st.app_of

module _ (identity : Json → String × String) where
  -- the last model of a name in a list, or else the one before it
  unfoldable pub winner : List Json → String → Option Json → Option Json
  winner [] n before = before
  winner (d ∷ ds) n before = winner ds n (if str_eq (name identity d) n then some d else before)

  unfoldable pub has_name : String → List Json → Bool
  has_name n [] = false
  has_name n (d ∷ ds) = str_eq (name identity d) n || has_name n ds

  -- no two models share a name
  abbrev pub Unique : List Json → Type 0
  Unique [] = Unit
  Unique (d ∷ ds) = (has_name (name identity d) ds ≡ false) × Unique ds

  pub record Kept (st : Merging) : Type 0 where
    pub sound : Sound (app identity) (name identity) (models st) (apps st)
    pub distinct : Distinct st.merged

  -- a step after which `of` gives the model of each name
  pub record Steps (of : String → Option Json) (reply : Option Merging) : Type 0 where
    pub next : Merging
    pub does : reply ≡ some next
    pub kept : Kept next
    pub model : (n : String) → model_of (models next) (apps next) n ≡ of n

  -- `d` becomes the model of its name
  abbrev pub taking : Json → Merging → String → Option Json
  taking d st n = if str_eq (name identity d) n then some d else model_of (models st) (apps st) n

  module _ (d : Json) (st : Merging) (k : Kept st) where
    models-enter :
        models (enter (app identity d) (name identity d) d st)
        ≡ with_key (app identity d) d (models st)
    unfolding enter
    models-enter = fun_ext λ a. get-put a (app identity d) d st.merged

    apps-enter :
        apps (enter (app identity d) (name identity d) d st)
        ≡ with_key (name identity d) (app identity d) (apps st)
    unfolding enter
    apps-enter = fun_ext λ n. get-put n (name identity d) (app identity d) st.app_of

    enter-Distinct : Distinct (enter (app identity d) (name identity d) d st).merged
    unfolding enter
    enter-Distinct = put-Distinct (app identity d) d st.merged k.distinct

    pub enter-Kept :
        models st (app identity d) ≡ none
        → apps st (name identity d) ≡ none
        → Kept (enter (app identity d) (name identity d) d st)
    enter-Kept fresh free = record {
      sound =
          rw (models-enter, apps-enter)
            (enter-Sound (app identity) (name identity) (models st) (apps st) k.sound d fresh free);
      distinct = enter-Distinct;
    }

    pub enter-takes :
        models st (app identity d) ≡ none
        → (n : String)
        → model_of
            (models (enter (app identity d) (name identity d) d st))
            (apps (enter (app identity d) (name identity d) d st))
            n
          ≡ taking d st n
    enter-takes fresh n =
        ap (λ f. and_then f (apps (enter (app identity d) (name identity d) d st) n)) models-enter
        ∙ ap (λ g. and_then (with_key (app identity d) d (models st)) (g n)) apps-enter
        ∙ enter-model (app identity) (name identity) (models st) (apps st) k.sound d n fresh

    enter-Steps :
        models st (app identity d) ≡ none
        → apps st (name identity d) ≡ none
        → Steps (taking d st) (some (enter (app identity d) (name identity d) d st))
    enter-Steps fresh free = record {
      next = enter (app identity d) (name identity d) d st;
      does = refl;
      kept = enter-Kept fresh free;
      model = enter-takes fresh;
    }

    replace-Steps :
        (old : Json)
        → models st (app identity d) ≡ some old
        → name identity old ≡ name identity d
        → Steps (taking d st) (some (record st { merged = put (app identity d) d st.merged }))
    replace-Steps old h same = record {
      next = record st { merged = put (app identity d) d st.merged };
      does = refl;
      kept = record {
        sound = rw replaced (
            replace-Sound (app identity) (name identity) (models st) (apps st) k.sound d old h
              same);
        distinct = put-Distinct (app identity d) d st.merged k.distinct;
      };
      model = λ n. rw replaced (
          replace-model (app identity) (name identity) (models st) (apps st) k.sound d old n h
            same);
    }
      where
        replaced :
            (λ a. get a (put (app identity d) d st.merged))
            ≡ with_key (app identity d) d (models st)
        replaced = fun_ext λ a. get-put a (app identity d) d st.merged

  -- a name gives up its app
  abbrev dropped : Json → String → Merging → Merging
  dropped d a st = record {
    merged = remove a st.merged;
    app_of = remove (name identity d) st.app_of;
  }

  drop-Kept :
      (d : Json) (a : String) (st : Merging)
      → Kept st
      → apps st (name identity d) ≡ some a
      → Kept (dropped d a st)
  drop-Kept d a st k h = record {
    sound =
        rw (models-dropped, apps-dropped)
          (drop-Sound (app identity) (name identity) (models st) (apps st) k.sound (name identity d)
            a h);
    distinct = remove-Distinct a st.merged k.distinct;
  }
    where
      models-dropped : models (dropped d a st) ≡ without a (models st)
      models-dropped = fun_ext λ b. get-remove b a st.merged

      apps-dropped : apps (dropped d a st) ≡ without (name identity d) (apps st)
      apps-dropped = fun_ext λ n. get-remove n (name identity d) st.app_of

  taking-dropped :
      (d : Json) (a : String) (st : Merging) (n : String)
      → Kept st
      → apps st (name identity d) ≡ some a
      → taking d (dropped d a st) n ≡ taking d st n
  taking-dropped d a st n k h = elim (Bool-cases (str_eq (name identity d) n)) [
    | inl i ↦ rw i
    | inr i ↦ rw i (
        ap (λ f. and_then f (get n (remove (name identity d) st.app_of)))
          (fun_ext λ b. get-remove b a st.merged)
        ∙ ap (and_then (without a (models st))) (get-remove n (name identity d) st.app_of)
        ∙ drop-model (app identity) (name identity) (models st) (apps st) k.sound (name identity d)
            a n h
        ∙ rw i)
  ]

  -- the name may keep the app it gives up, since it is entered again
  apps-entered :
      (d : Json) (a : String) (st : Merging)
      → apps
          (enter (app identity d) (name identity d) d (record st { merged = remove a st.merged }))
        ≡ apps (enter (app identity d) (name identity d) d (dropped d a st))
  unfolding enter
  apps-entered d a st = fun_ext λ n. rw (get-put, get-put, get-remove) (ground arith)

  drop-Steps :
      (d : Json) (a : String) (st : Merging)
      → Kept st
      → models st (app identity d) ≡ none
      → apps st (name identity d) ≡ some a
      → Steps (taking d st) (
          some (
            enter (app identity d) (name identity d) d (record st { merged = remove a st.merged })))
  unfolding enter
  drop-Steps d a st k fresh h = record {
    next = enter (app identity d) (name identity d) d (record st { merged = remove a st.merged });
    does = refl;
    kept = record {
      sound =
          subst (Sound (app identity) (name identity) (models entered)) (sym (apps-entered d a st))
            kept.sound;
      distinct = kept.distinct;
    };
    model = λ n.
        ap (λ f. and_then (models entered) (f n)) (apps-entered d a st)
        ∙ enter-takes d (dropped d a st) (drop-Kept d a st k h) fresh' n
        ∙ taking-dropped d a st n k h;
  }
    where
      entered : Merging
      entered = enter (app identity d) (name identity d) d (dropped d a st)

      fresh' : models (dropped d a st) (app identity d) ≡ none
      fresh' = rw get-remove (ground (arith, fresh))

      free' : apps (dropped d a st) (name identity d) ≡ none
      free' = rw (get-remove, str_eq_self)

      kept : Kept entered
      kept = enter-Kept d (dropped d a st) (drop-Kept d a st k h) fresh' free'

  popped-held :
      (d : Json) (a : String) (st : Merging)
      → Kept st
      → apps st (name identity d) ≡ some a
      → popped a (get a st.merged) st ≡ some (record st { merged = remove a st.merged })
  unfolding popped
  popped-held d a st k h = go (get a st.merged) (k.sound.held (name identity d) a h)
    where
      go :
          (o : Option Json)
          → and_then (λ raw. some (name identity raw)) o ≡ some (name identity d)
          → popped a o st ≡ some (record st { merged = remove a st.merged })
      go none e = absurd (ground (arith, e))
      go (some v) e = refl

  module _ (d : Json) (st : Merging) (k : Kept st)
      (determined : (x y : Json)
        → app identity x ≡ app identity y
        → name identity x ≡ name identity y) where
    add_input-free :
        apps st (name identity d) ≡ none
        → models st (app identity d) ≡ none
        → add_input identity d st ≡ some (enter (app identity d) (name identity d) d st)
    unfolding add_input drop_prior
    add_input-free h e = rw (e, h)

    add_input-drop :
        (a : String)
        → apps st (name identity d) ≡ some a
        → models st (app identity d) ≡ none
        → add_input identity d st
          ≡ some (
              enter
                (app identity d)
                (name identity d)
                d
                (record st { merged = remove a st.merged }))
    unfolding add_input drop_prior
    add_input-drop a h e = rw (e, h, popped-held d a st k h)

    add_input-replace :
        (old : Json)
        → models st (app identity d) ≡ some old
        → add_input identity d st ≡ some (record st { merged = put (app identity d) d st.merged })
    unfolding add_input
    add_input-replace old e = rw e

    -- A round of the loop over the input never raises, and makes its model the one of its name.
    pub add_input-Steps : Steps (taking d st) (add_input identity d st)
    add_input-Steps = by_app (models st (app identity d)) refl
      where
        by_name :
            (o : Option String)
            → apps st (name identity d) ≡ o
            → models st (app identity d) ≡ none
            → Steps (taking d st) (add_input identity d st)
        by_name none h e = rw (add_input-free h e) (enter-Steps d st k e h)
        by_name (some a) h e = rw (add_input-drop a h e) (drop-Steps d a st k e h)

        by_app :
            (o : Option Json)
            → models st (app identity d) ≡ o
            → Steps (taking d st) (add_input identity d st)
        by_app none e = by_name (apps st (name identity d)) refl e
        by_app (some old) e =
            rw (add_input-replace old e) (
              replace-Steps d st k old e
                (determined old d (k.sound.named (app identity d) old e).0))
