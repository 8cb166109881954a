-- ===== src/Transport/MessageChannel.antt =====
-- crates/utils/transport/src/message_channel.rs: the frames of `from_stdio_binary`, four bytes of
-- length and then the payload. What is written is read on the other side as a list of bytes, and the
-- end of the list is the end of the stream. The codec of a message is the crate rmp_serde's.
pub mod Framing
use nexal.Prelude.{
  ℕ, zero, suc, ◌+◌, ◌*◌, ◌/◌, ◌%◌, ◌≡◌, Bool, true, false, Option, none, some, List, [], ◌∷◌, ◌++◌,
  length, take, drop, leb, if◌then◌else◌,
}

pub record MessageCodec (T : Type 0) : Type 0 where
  pub to_vec : T → Option (List ℕ)
  pub from_slice : List ℕ → Option T
  pub from_slice-to_vec :
      (t : T) (bytes : List ℕ) → to_vec t ≡ some bytes → from_slice bytes ≡ some t

-- A disconnection says whether it has a reason.
pub data MessageChannelEvent (T : Type 0) : Type 0 where
  message : T → MessageChannelEvent T
  malformed : MessageChannelEvent T
  disconnected : Bool → MessageChannelEvent T

-- `to_be_bytes` of a `u32`
unfoldable pub to_be_bytes : ℕ → List ℕ
to_be_bytes n = n / 16777216 % 256 ∷ n / 65536 % 256 ∷ n / 256 % 256 ∷ n % 256 ∷ []

unfoldable pub from_be_bytes : List ℕ → ℕ
from_be_bytes [] = 0
from_be_bytes (a ∷ []) = 0
from_be_bytes (a ∷ b ∷ []) = 0
from_be_bytes (a ∷ b ∷ c ∷ []) = 0
from_be_bytes (a ∷ b ∷ c ∷ d ∷ bytes) = a * 16777216 + b * 65536 + c * 256 + d

-- The length is cut to 32 bits.
unfoldable pub frame : List ℕ → List ℕ
unfolding to_be_bytes
frame payload = to_be_bytes (length payload % 4294967296) ++ payload

-- There is nothing where the stream ends before.
unfoldable pub read_exact : ℕ → List ℕ → Option (List ℕ × List ℕ)
read_exact n bytes = if leb n (length bytes) then some (take n bytes, drop n bytes) else none

module _ {T : Type 0} (codec : MessageCodec T) where
  abbrev framed : Option (List ℕ) → List ℕ → List ℕ
  framed none rest = []
  framed (some payload) rest = frame payload ++ rest

  -- The writer's task, which ends where a message cannot be encoded
  unfoldable pub write_messages : List T → List ℕ
  unfolding frame
  write_messages [] = []
  write_messages (t ∷ ts) = framed (codec.to_vec t) (write_messages ts)

  abbrev event_of : Option T → MessageChannelEvent T
  event_of none = malformed
  event_of (some t) = message t

  abbrev with_payload :
      (List ℕ → List (MessageChannelEvent T))
      → Option (List ℕ × List ℕ)
      → List (MessageChannelEvent T)
  with_payload rest none = disconnected true ∷ []
  with_payload rest (some (payload, bytes)) = event_of (codec.from_slice payload) ∷ rest bytes

  abbrev with_length :
      (List ℕ → List (MessageChannelEvent T))
      → Option (List ℕ × List ℕ)
      → List (MessageChannelEvent T)
  with_length rest none = disconnected false ∷ []
  with_length rest (some (len_buf, bytes)) =
      with_payload rest (read_exact (from_be_bytes len_buf) bytes)

  -- The reader's task, for as many frames as there is fuel
  unfoldable pub read_frames : ℕ → List ℕ → List (MessageChannelEvent T)
  unfolding read_exact from_be_bytes
  read_frames zero bytes = []
  read_frames (suc fuel) bytes = with_length (read_frames fuel) (read_exact 4 bytes)
