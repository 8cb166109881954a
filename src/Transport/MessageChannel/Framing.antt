-- ===== src/Transport/MessageChannel/Framing.antt =====
-- crates/utils/transport/src/message_channel.rs: what is written comes out, message by message.
use nexal.Prelude.{
  ℕ, zero, suc, ◌%◌, ◌<◌, ◌≡◌, refl, ap, ◌∙◌, true, false, some, List, [], ◌∷◌, ◌++◌, length,
  length-append, take, drop, leb, arith,
}
use nexal.Transport.MessageChannel.{
  MessageCodec, MessageChannelEvent, message, disconnected, to_be_bytes, from_be_bytes, frame,
  read_exact, write_messages, read_frames,
}

take-append : {A : Type 0} (xs ys : List A) → take (length xs) (xs ++ ys) ≡ xs
take-append [] ys = refl
take-append (x ∷ xs) ys = ap (λ l. x ∷ l) (take-append xs ys)

drop-append : {A : Type 0} (xs ys : List A) → drop (length xs) (xs ++ ys) ≡ ys
drop-append [] ys = refl
drop-append (x ∷ xs) ys = drop-append xs ys

read_exact-append : (xs ys : List ℕ) → read_exact (length xs) (xs ++ ys) ≡ some (xs, ys)
unfolding read_exact
read_exact-append xs ys =
    let fits : leb (length xs) (length (xs ++ ys)) ≡ true = ground (arith, length-append xs ys) in
    simp (fits, take-append xs ys, drop-append xs ys) refl

be_bytes_round_trip : (n : ℕ) → n < 4294967296 → from_be_bytes (to_be_bytes n) ≡ n
unfolding from_be_bytes to_be_bytes
be_bytes_round_trip n h = omega (arith, h)

read_length :
    (n : ℕ) (bytes : List ℕ) → read_exact 4 (to_be_bytes n ++ bytes) ≡ some (to_be_bytes n, bytes)
unfolding to_be_bytes
read_length n bytes = read_exact-append (to_be_bytes n) bytes

module _ {T : Type 0} (codec : MessageCodec T) where
  -- Each message can be encoded, in less than 2 ^ 32 bytes.
  abbrev pub AllFit : List T → Type 0
  AllFit [] = Unit {0}
  AllFit (t ∷ ts) =
      ((payload : List ℕ) × (codec.to_vec t ≡ some payload) × (length payload < 4294967296))
      × AllFit ts

  -- The messages, and then the end of the stream without a reason
  abbrev pub delivered : List T → List (MessageChannelEvent T)
  delivered [] = disconnected false ∷ []
  delivered (t ∷ ts) = message t ∷ delivered ts

  read_frame :
      (fuel : ℕ) (t : T) (payload rest : List ℕ)
      → codec.to_vec t ≡ some payload
      → length payload < 4294967296
      → read_frames codec (suc fuel) (frame payload ++ rest)
        ≡ message t ∷ read_frames codec fuel rest
  unfolding read_frames frame
  read_frame fuel t payload rest encoded small =
      let whole : length payload % 4294967296 ≡ length payload = omega (arith, small) in
      let size = from_be_bytes (to_be_bytes (length payload)) in
      let len : size ≡ length payload = be_bytes_round_trip (length payload) small in
      simp
        (
          whole,
          read_length (length payload) (payload ++ rest),
          len,
          read_exact-append payload rest,
          codec.from_slice-to_vec t payload encoded,
        )
        refl

  ended : (fuel : ℕ) → read_frames codec (suc fuel) [] ≡ disconnected false ∷ []
  unfolding read_frames read_exact
  ended fuel = refl

-- Messages that are written as frames are read as the same messages in the same order, and then as
-- the end of the stream, where each can be encoded in less than 2 ^ 32 bytes: fuel for one frame
-- more than there are messages is enough.
pub read_frames-write_messages :
    {T : Type 0} (codec : MessageCodec T) (messages : List T) (fuel : ℕ)
    → AllFit codec messages
    → length messages < fuel
    → read_frames codec fuel (write_messages codec messages) ≡ delivered codec messages
unfolding write_messages
read_frames-write_messages codec messages zero fits enough = ground (arith, enough)
read_frames-write_messages codec [] (suc fuel) fits enough = ended codec fuel
read_frames-write_messages codec (t ∷ ts) (suc fuel) ((payload, encoded, small), fits) enough =
    simp encoded (
      read_frame codec fuel t payload (write_messages codec ts) encoded small
      ∙ ap (λ es. message t ∷ es)
          (read_frames-write_messages codec ts fuel fits (omega (arith, enough))))
