-- ===== src/Deploy/Ledger/Versions.antt =====
-- A committed version is read back, with the one before it, and other gateways keep theirs.
use text.Mathlib.TextLemmas.{append_cancel_left}
use modelship.Prelude.{
  ℕ, ◌+◌, String, ◌≡◌, ◌≢◌, refl, ap, ◌∙◌, sym, Option, none, some, List, str_eq, str_eq_ne,
  str_eq_self, if◌then◌else◌,
}
use modelship.Json.{Json, Fields, int, obj, end, as_arr-list_json, field_of}
use modelship.State.Memory.{document}
use modelship.State.Store.{StateStore}
use modelship.Deploy.Ledger.{
  Version, Versions, version_key, version, version_json, versions_of, with_previous, paired,
  version_in, numbered, data_of, next_number, next_json, read_versions, commit_next, commit_version,
}

module _ (int_of : Json → Option ℕ) (reads : (n : ℕ) → int_of (int n) ≡ some n) where
  version-version_json :
      (n : ℕ) (models : List Json) (rest : Fields)
      → version int_of (some (obj (version_json n models rest)))
        ≡ some (some (record { number = n; models = models }))
  unfolding version version_json version_in numbered field_of
  version-version_json n models rest = rw (as_arr-list_json, reads)

  versions_of-committed :
      (d : Fields) (v : Version)
      → version int_of (some (obj d)) ≡ some (some v)
      → versions_of int_of (some (obj d)) ≡ paired (some v) (version int_of (field_of "previous" d))
  unfolding versions_of with_previous
  versions_of-committed d v h = rw h

  previous-first :
      (models : List Json)
      → version int_of (field_of "previous" (next_json none models)) ≡ some none
  unfolding next_json version_json field_of version
  previous-first models = refl

  previous-next :
      (v : Version) (models : List Json)
      → field_of "previous" (next_json (some v) models)
        ≡ some (obj (version_json v.number v.models end))
  unfolding next_json version_json field_of
  previous-next v models = refl

  next_json-version :
      (committed : Option Version) (models : List Json)
      → version int_of (some (obj (next_json committed models)))
        ≡ some (some (record { number = next_number committed; models = models }))
  next_json-version none models = unfold next_json in version-version_json 1 models end
  next_json-version (some v) models =
      unfold next_json in version-version_json (v.number + 1) models _

  versions_of-next_json :
      (committed : Option Version) (models : List Json)
      → versions_of int_of (some (obj (next_json committed models)))
        ≡ some (some (record { number = next_number committed; models = models }), committed)
  versions_of-next_json none models =
      versions_of-committed _ _ (next_json-version none models)
      ∙ ap (paired _) (previous-first models)
  versions_of-next_json (some v) models =
      versions_of-committed _ _ (next_json-version (some v) models)
      ∙ ap (λ o. paired (next v) (version int_of o)) (previous-next v models)
      ∙ ap (paired (next v)) (version-version_json v.number v.models end)
    where
      next : Version → Option Version
      next v = some (record { number = v.number + 1; models = models })

version_key_inj : (g h : String) → version_key g ≡ version_key h → g ≡ h
unfolding version_key
version_key_inj g h e = append_cancel_left "effective/" g h e

module _ (store : StateStore Json) (int_of : Json → Option ℕ) where
  open store use {State, get, set, content, Lasting}

  read_versions-content :
      (gateway : String) (s : State)
      → Lasting none s
      → (read_versions store int_of gateway s).0
        ≡ versions_of int_of (data_of (content s (version_key gateway)))
  unfolding read_versions
  read_versions-content gateway s h =
      ap (λ o. versions_of int_of (data_of o)) (store.get-reply none (version_key gateway) s h)

  commit-step :
      (gateway : String) (models : List Json) (vs : Versions) (s : State)
      → (read_versions store int_of gateway s).0 ≡ some vs
      → commit_version store int_of gateway models s ≡ (
        some (record { number = next_number vs.0; models = models }),
        (set
            (version_key gateway)
            (document (obj (next_json vs.0 models)))
            none
            (get (version_key gateway) s).1).1,
      )
  unfolding commit_version read_versions commit_next
  commit-step gateway models vs s e = rw e

  commit-content :
      (gateway : String) (models : List Json) (vs : Versions) (s : State)
      → Lasting none s
      → (read_versions store int_of gateway s).0 ≡ some vs
      → Lasting none (commit_version store int_of gateway models s).1
        × ((j : String)
            → content (commit_version store int_of gateway models s).1 j ≡ (
                if str_eq (version_key gateway) j
                then some (document (obj (next_json vs.0 models)))
                else content s j))
  commit-content gateway models vs s h e =
      let k = version_key gateway in
      let v = document (obj (next_json vs.0 models)) in
      let h1 = store.get-Lasting none k s h in
      rw (commit-step gateway models vs s e) (
        store.set-Lasting none k v (get k s).1 h1,
        λ j.
            store.set-content none k j v (get k s).1 h1
            ∙ ap (λ o. if str_eq k j then some v else o) (store.get-content none k j s h),
      )

  written :
      (gateway : String) (models : List Json) (vs : Versions) (s : State)
      → Lasting none s
      → (read_versions store int_of gateway s).0 ≡ some vs
      → content (commit_version store int_of gateway models s).1 (version_key gateway)
        ≡ some (document (obj (next_json vs.0 models)))
  written gateway models vs s h e = rw ((commit-content gateway models vs s h e).1, str_eq_self)

  -- Where the versions of a gateway can be read, committing models writes them under the number
  -- after the committed version's, from 1, and what is read then is that version, with the one
  -- committed before as its previous.
  pub commit_version-read_versions :
      (gateway : String) (models : List Json) (vs : Versions) (s : State)
      → ((n : ℕ) → int_of (int n) ≡ some n)
      → Lasting none s
      → (read_versions store int_of gateway s).0 ≡ some vs
      → let (reply, s') = commit_version store int_of gateway models s in
        let next : Version = record { number = next_number vs.0; models = models } in
        (reply ≡ some next) × ((read_versions store int_of gateway s').0 ≡ some (some next, vs.0))
  commit_version-read_versions gateway models vs s reads h e =
      let (h', after) = commit-content gateway models vs s h e in
      (
        ap (λ c. c.0) (commit-step gateway models vs s e),
        read_versions-content gateway _ h'
            ∙ ap (λ o. versions_of int_of (data_of o)) (written gateway models vs s h e)
            ∙ versions_of-next_json int_of reads vs.0 models,
      )

  -- Committing a gateway's models, where its versions can be read, leaves every other gateway's
  -- versions to be read as they were.
  pub commit_version-other :
      (gateway other : String) (models : List Json) (vs : Versions) (s : State)
      → Lasting none s
      → (read_versions store int_of gateway s).0 ≡ some vs
      → other ≢ gateway
      → (read_versions store int_of other (commit_version store int_of gateway models s).1).0
        ≡ (read_versions store int_of other s).0
  commit_version-other gateway other models vs s h e ne =
      let (h', after) = commit-content gateway models vs s h e in
      read_versions-content other _ h'
      ∙ ap (λ o. versions_of int_of (data_of o))
          (after (version_key other)
            ∙ rw (str_eq_ne _ _ (λ same. ne (sym (version_key_inj gateway other same)))))
      ∙ sym (read_versions-content other s h)
