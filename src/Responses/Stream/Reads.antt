-- ===== src/Responses/Stream/Reads.antt =====
-- What a client reads off a list of events, one event at a time.
use Prim.Native.String.{◌++◌ as text_append}
use mathlib.Core.List.{append_assoc}
use text.Mathlib.TextLemmas.{nil-append, append_assoc as text_append_assoc}
use modelship.Prelude.{
  ℕ, zero, suc, ◌≡◌, refl, sym, ap, ◌∙◌, String, Option, some, List, [], ◌∷◌, ◌++◌, str_eq,
  if◌then◌else◌,
}
use modelship.Json.{Json, Fields, str, int, field_of}
use modelship.Responses.Content.{concat}
use modelship.Responses.Stream.{Event, Translator, emit}

abbrev pub collect {ℓ} : {A : Type ℓ} → (Event → List A) → List Event → List A
collect f [] = []
collect f (e ∷ es) = f e ++ collect f es

pub collect-append {ℓ} :
    {A : Type ℓ} (f : Event → List A) (es fs : List Event)
    → collect f (es ++ fs) ≡ collect f es ++ collect f fs
collect-append f [] fs = refl
collect-append f (e ∷ es) fs =
    ap (λ r. f e ++ r) (collect-append f es fs)
    ∙ sym (append_assoc (f e) (collect f es) (collect f fs))

-- what an event adds to a reading
pub collect-emit {ℓ} :
    {A : Type ℓ} (f : Event → List A) (kind : String) (payload : Fields) (t : Translator)
    → collect f (emit kind payload t).sent
      ≡ collect f t.sent
        ++ (f (record { kind = kind; sequence_number = t.seq; payload = payload }) ++ [])
unfolding emit
collect-emit f kind payload t = collect-append f t.sent _

abbrev pub number : Event → List ℕ
number e = e.sequence_number ∷ []

abbrev pub int_in : Option Json → List ℕ
int_in (some (int n)) = n ∷ []
int_in _ = []

abbrev pub str_in : Option Json → List String
str_in (some (str t)) = t ∷ []
str_in _ = []

-- the output index in an event of a kind
abbrev pub index_in : String → Event → List ℕ
index_in kind e = if str_eq e.kind kind then int_in (field_of "output_index" e.payload) else []

-- the text under a key in an event of a kind
abbrev pub text_in : String → String → Event → List String
text_in kind key e = if str_eq e.kind kind then str_in (field_of key e.payload) else []

-- [0, ..., n - 1]
abbrev pub upto : ℕ → List ℕ
upto zero = []
upto (suc n) = upto n ++ n ∷ []

pub concat-append : (ts us : List String) → concat (ts ++ us) ≡ text_append (concat ts) (concat us)
concat-append [] us = sym (nil-append (concat us))
concat-append (t ∷ ts) us =
    ap (text_append t) (concat-append ts us) ∙ sym (text_append_assoc t (concat ts) (concat us))
