-- ===== src/Replay/Codec.antt =====
-- rawCodec of the four programs: messages pass as the bytes that they are.
use go_replayer.Prelude.{Text, List, ℕ, Outcome, ok, err, ◌≡◌, refl, Option, some, none}

-- A value that is handed to a codec: a []byte, or one of another type, which %T prints.
pub data Message : Type 0 where
  raw : List ℕ → Message
  of_type : Text → Message

-- Marshal of the replayer and of the parity checker.
unfoldable pub marshal : Message → Outcome Text (List ℕ)
marshal (raw bytes) = ok bytes
marshal (of_type name) = err name

-- Marshal of the two targets, where `none` is the panic of the type assertion.
unfoldable pub target_marshal : Message → Option (List ℕ)
target_marshal (raw bytes) = some bytes
target_marshal (of_type name) = none

-- Unmarshal into a *[]byte.
unfoldable pub unmarshal : List ℕ → Message
unmarshal data_bytes = raw data_bytes

marshal-unmarshal : (bytes : List ℕ) → marshal (unmarshal bytes) ≡ ok bytes
unfolding marshal unmarshal
marshal-unmarshal bytes = refl
