-- ===== src/Conversations/Keys.antt =====
-- modelship/openai/state/responses.py: the keys of records, logs and event buffers.
use Prim.Native.String.{◌++◌}
use modelship.Prelude.{String, ◌≡◌, ◌≢◌, arith, eq_iff}
use modelship.Text.{NoSlash, segment_inj}

-- `_key`
unfoldable pub key : String → String → String
key identity response_id = "responses" ++ ("/" ++ (identity ++ ("/" ++ response_id)))

-- `_log_key`
unfoldable pub log_key : String → String → String
log_key identity log = "responses-log" ++ ("/" ++ (identity ++ ("/" ++ log)))

-- `_stream_key`
unfoldable pub stream_key : String → String → String
stream_key identity response_id = "responses-stream" ++ ("/" ++ (identity ++ ("/" ++ response_id)))

responses-NoSlash : NoSlash "responses"
responses-NoSlash = omega arith

responses_log-NoSlash : NoSlash "responses-log"
responses_log-NoSlash = omega arith

-- A record's key is never a log's, whatever the identities and the ids hold.
pub key-ne-log_key : (i r j l : String) → key i r ≢ log_key j l
unfolding key log_key
key-ne-log_key i r j l e =
    let same =
      (segment_inj "responses" "responses-log" _ _ responses-NoSlash responses_log-NoSlash e).0 in
    ground (arith, same, eq_iff "responses" "responses-log")

-- Under identities without a slash, equal keys are of one identity and one response.
pub key_inj : (i j r q : String) → NoSlash i → NoSlash j → key i r ≡ key j q → (i ≡ j) × (r ≡ q)
unfolding key
key_inj i j r q hi hj e =
    segment_inj i j r q hi hj
      (segment_inj "responses" "responses" _ _ responses-NoSlash responses-NoSlash e).1

pub log_key_inj :
    (i j r q : String) → NoSlash i → NoSlash j → log_key i r ≡ log_key j q → (i ≡ j) × (r ≡ q)
unfolding log_key
log_key_inj i j r q hi hj e =
    segment_inj i j r q hi hj
      (segment_inj "responses-log" "responses-log" _ _ responses_log-NoSlash responses_log-NoSlash
        e).1
