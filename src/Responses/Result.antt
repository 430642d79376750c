-- ===== src/Responses/Result.antt =====
-- What a translation returns or raises: `unsupported` is an `UnsupportedResponsesFeatureError` with its
-- message, less the offending value, and `python_error` any other exception.
use modelship.Prelude.{String, ◌≡◌, refl}

pub data Failure : Type 0 where
  unsupported : String → Failure
  python_error : Failure

pub data Result {ℓ} (V : Type ℓ) : Type ℓ where
  raised : Failure → Result V
  returned : V → Result V

infixl 5 ◌>>=◌
abbrev pub ◌>>=◌ {ℓ κ} : {V : Type ℓ} {W : Type κ} → Result V → (V → Result W) → Result W
raised why >>= next = raised why
returned v >>= next = next v

module _ {ℓ κ} {V : Type ℓ} {W : Type κ} where
  -- a chain that returned has run through, and its first part returned
  pub >>=-returned :
      {w : W} (first : Result V) (next : V → Result W)
      → (first >>= next) ≡ returned w
      → (v : V) × (first ≡ returned v) × (next v ≡ returned w)
  >>=-returned (raised why) next h = cc
  >>=-returned (returned v) next h = (v, refl, h)
