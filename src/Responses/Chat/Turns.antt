-- ===== src/Responses/Chat/Turns.antt =====
-- Whose reasoning a chat keeps when only the current turn's counts.
use modelship.Prelude.{
  ℕ, ◌+◌, ◌≡◌, refl, ap, ◌∙◌, Bool, true, none, some, List, [], ◌∷◌, ◌++◌, map, all, not, length,
  if◌then◌else◌, Bool-cases, inl, inr, arith,
}
use modelship.Responses.Messages.{Message, system, said, called, answered, message_json}
use modelship.Responses.Tools.{without_field}
use modelship.Responses.Chat.{is_user, strip, last_user, strip_first, current_turn}

-- no message of a list is the user's
abbrev pub no_user : List Message → Bool
no_user ms = all (λ m. not (is_user m)) ms

last_user-none : (ms : List Message) (i last : ℕ) → no_user ms ≡ true → last_user i last ms ≡ last
unfolding last_user
last_user-none [] i last h = refl
last_user-none (m ∷ ms) i last h = elim (Bool-cases (is_user m)) [
  | inl e ↦ absurd (cc (rw e at h))
  | inr e ↦ rw e (last_user-none ms (i + 1) last (rw e at h))
]

last_user-user :
    (m : Message) (ms : List Message) (i last : ℕ)
    → is_user m ≡ true
    → last_user i last (m ∷ ms) ≡ last_user (i + 1) i ms
unfolding last_user
last_user-user m ms i last u = rw u refl

last_user-append :
    (before after : List Message) (user : Message) (i last : ℕ)
    → is_user user ≡ true
    → no_user after ≡ true
    → last_user i last (before ++ user ∷ after) ≡ i + length before
unfolding last_user
last_user-append [] after user i last u h =
    last_user-user user after i last u ∙ last_user-none after (i + 1) i h ∙ omega arith
last_user-append (m ∷ before) after user i last u h =
    omega (arith, last_user-append before after user (i + 1) (if is_user m then i else last) u h)

strip_first-append :
    (before rest : List Message)
    → strip_first (length before) (before ++ rest) ≡ map strip before ++ rest
unfolding strip_first
strip_first-append [] rest = refl
strip_first-append (m ∷ before) rest = ap (◌∷◌ (strip m)) (strip_first-append before rest)

current_turn-strip :
    (before after : List Message) (user : Message)
    → is_user user ≡ true
    → no_user after ≡ true
    → current_turn (before ++ user ∷ after) ≡ map strip before ++ user ∷ after
unfolding current_turn
current_turn-strip before after user u h =
    ap (λ n. strip_first n (before ++ user ∷ after))
      (last_user-append before after user 0 0 u h ∙ omega arith)
    ∙ strip_first-append before (user ∷ after)

-- stripping a message takes the key `reasoning` out of its JSON
strip-without_field :
    (m : Message) → message_json (strip m) ≡ without_field "reasoning" (message_json m)
unfolding message_json without_field
strip-without_field (system t) = refl
strip-without_field (said role content none) = refl
strip-without_field (said role content (some t)) = refl
strip-without_field (called id name arguments none) = refl
strip-without_field (called id name arguments (some t)) = refl
strip-without_field (answered id content) = refl

stripped_json :
    (before rest : List Message)
    → map message_json (map strip before ++ rest)
      ≡ map (λ m. without_field "reasoning" (message_json m)) before ++ map message_json rest
stripped_json [] rest = refl
stripped_json (m ∷ before) rest = rw (strip-without_field m, stripped_json before rest)

-- The dicts that are sent with the context of the current turn: every message before the last user's
-- has no key `reasoning` and is as it was otherwise, and all from that message on are as they were.
pub current_turn-without_field :
    (before after : List Message) (user : Message)
    → is_user user ≡ true
    → no_user after ≡ true
    → map message_json (current_turn (before ++ user ∷ after))
      ≡ map (λ m. without_field "reasoning" (message_json m)) before
        ++ map message_json (user ∷ after)
current_turn-without_field before after user u h =
    ap (map message_json) (current_turn-strip before after user u h)
    ∙ stripped_json before (user ∷ after)
