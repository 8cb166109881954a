-- ===== src/Gateway/Hello.antt =====
-- crates/nexal-gateway/src/server/session.rs: `hex_decode` and `verify_hello`, with the cache of
-- nonces that all sessions share. A time is the pattern of an `i64`, as a number below 2^64, and
-- its arithmetic wraps. HMAC and the printing of numbers are parameters.
pub mod Replay
use nexal.Prelude.{
  ℕ, ◌+◌, ◌-◌, ◌*◌, ◌%◌, String, string_eq, str_append, Bool, true, false, ◌&&◌, ◌||◌, not, Option,
  none, some, List, [], ◌∷◌, ◌≡◌, if◌then◌else◌, leb, ltb, ◌==◌, sub64, add64,
}
use nexal.Prelude.Map
use nexal.Prelude.Map.{Map}
use Prim.Native.String.{[], ◌∷◌, len}
use Prim.Native.Char.{Char, code, len_utf8}

abbrev pub hello_max_skew_secs : ℕ
hello_max_skew_secs = 300

abbrev pub i64_max : ℕ
i64_max = 9223372036854775807

-- What `hex_decode` does: a slice inside a character panics.
pub data Decoded : Type 0 where
  bytes : List ℕ → Decoded
  malformed : Decoded
  panicked : Decoded

within : ℕ → ℕ → ℕ → Bool
within low high n = leb low n && leb n high

-- `char::to_digit(16)`
unfoldable pub hex_digit : Char → Option ℕ
unfolding within
hex_digit c =
    if within 48 57 (code c)
    then some (code c - 48)
    else if within 97 102 (code c)
    then some (code c - 87)
    else if within 65 70 (code c)
    then some (code c - 55)
    else none

both : Option ℕ → Option ℕ → Option ℕ
both none low = none
both (some high) none = none
both (some high) (some low) = some (high * 16 + low)

-- `u8::from_str_radix` of two ASCII characters: a plus sign may stand before the digit.
unfoldable pub pair_value : Char → Char → Option ℕ
unfolding both
pair_value c d = if code c == 43 then hex_digit d else both (hex_digit c) (hex_digit d)

cons_byte : Option ℕ → Decoded → Decoded
cons_byte none rest = malformed
cons_byte (some b) (bytes bs) = bytes (b ∷ bs)
cons_byte (some b) malformed = malformed
cons_byte (some b) panicked = panicked

-- The slices of two bytes, up to the first that is no number
unfoldable pub decode_slices : String → Decoded
unfolding cons_byte
decode_slices [] = bytes []
decode_slices (c ∷ []) = if leb (len_utf8 c) 2 then malformed else panicked
decode_slices (c ∷ d ∷ s) =
    let rest = decode_slices s in
    if len_utf8 c == 1
    then (if len_utf8 d == 1 then cons_byte (pair_value c d) rest else panicked)
    else if len_utf8 c == 2
    then malformed
    else panicked

unfoldable pub hex_decode : String → Decoded
unfolding decode_slices
hex_decode s = if len s % 2 == 0 then decode_slices s else malformed

-- `n <= bound` for an `i64`
unfoldable pub i64_le : ℕ → ℕ → Bool
i64_le n bound = ltb i64_max n || leb n bound

-- `abs` in two's complement, where the least number is its own
unfoldable pub i64_abs : ℕ → ℕ
i64_abs n = if leb n i64_max then n else sub64 0 n

unfoldable pub is_stale : ℕ → ℕ → Bool
unfolding i64_abs i64_le
is_stale now ts = not (i64_le (i64_abs (sub64 now ts)) hello_max_skew_secs)

abbrev pub NonceCache : Type 0
NonceCache = Map String ℕ

-- `cache.retain(|_, seen| (now - *seen) <= HELLO_MAX_SKEW_SECS * 2)`
unfoldable pub retain : ℕ → NonceCache → NonceCache
unfolding i64_le
retain now [] = []
retain now ((nonce, seen) ∷ cache) =
    let rest = retain now cache in
    if i64_le (sub64 now seen) (hello_max_skew_secs * 2) then (nonce, seen) ∷ rest else rest

pub record HelloParams : Type 0 where
  pub access_key : String
  pub client_name : String
  pub ts : ℕ
  pub nonce : String
  pub signature : String

pub data Verdict : Type 0 where
  accepted : Verdict
  rejected : String → Verdict
  panicked : Verdict

module _ (show : ℕ → String) (hmac_verify : String → String → List ℕ → Bool) where
  unfoldable pub canonical : HelloParams → String
  canonical p = str_append p.access_key (
      str_append "\n" (
        str_append (show p.ts)
          (str_append "\n" (str_append p.nonce (str_append "\n" p.client_name)))))

  unfoldable pub check_signature : String → HelloParams → Decoded → Verdict
  unfolding canonical
  check_signature secret p malformed = rejected "malformed signature"
  check_signature secret p panicked = panicked
  check_signature secret p (bytes sig) =
      if hmac_verify secret (canonical p) sig then accepted else rejected "signature mismatch"

  -- The section under the lock of the cache, and the signature behind it
  unfoldable pub check_nonce : NonceCache → ℕ → String → HelloParams → NonceCache × Verdict
  unfolding check_signature hex_decode
  check_nonce cache now secret p =
      if Map.contains_key cache p.nonce
      then (cache, rejected "replayed nonce")
      else (Map.insert cache p.nonce now, check_signature secret p (hex_decode p.signature))

  with_secret : NonceCache → ℕ → HelloParams → Option String → NonceCache × Verdict
  unfolding check_nonce
  with_secret cache now p none = (cache, rejected "unknown access key")
  with_secret cache now p (some secret) =
      if is_stale now p.ts
      then (cache, rejected "stale request (ts outside allowed window)")
      else check_nonce (retain now cache) now secret p

  unfoldable pub verify_hello :
      Map String String → NonceCache → ℕ → HelloParams → NonceCache × Verdict
  unfolding with_secret
  verify_hello credentials cache now p = with_secret cache now p (Map.get credentials p.access_key)
