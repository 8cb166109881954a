-- ===== src/Wire/Values.antt =====
-- The `rmpv::Value` of the third-party crate rmpv, by the operations that the sources use, and
-- `map_get`, which crates/utils/transport/src/lib.rs, crates/nexal-gateway/src/agent_conn.rs and
-- crates/nexal-agent/src/server/channel/dispatch.rs each define in the same words.
use nexal.Prelude.{
  ℕ, ◌<◌, String, string_eq, ◌===◌, Bool, false, Option, none, some, List, [], ◌∷◌, ◌≡◌,
  if◌then◌else◌, u64_mod, arith,
}
use nexal.Prelude.Int.{ℤ}

pub record Values (Value : Type 0) : Type 0 where
  pub as_str : Value → Option String
  pub as_map : Value → Option (List (Value × Value))
  pub as_u64 : Value → Option ℕ
  pub as_i64 : Value → Option ℤ
  pub as_array : Value → Option (List Value)
  pub nil : Value
  pub string : String → Value
  pub integer : ℕ → Value
  pub negative : ℕ → Value
  pub map : List (Value × Value) → Value
  pub as_str-string : (s : String) → as_str (string s) ≡ some s
  pub as_map-map : (l : List (Value × Value)) → as_map (map l) ≡ some l
  pub as_u64-integer : (n : ℕ) → n < u64_mod → as_u64 (integer n) ≡ some n

unfoldable pub is_key : String → Option String → Bool
is_key key none = false
is_key key (some s) = s === key

module _ {Value : Type 0} ⦃values : Values Value⦄ where
  unfoldable pub find_key : String → List (Value × Value) → Option Value
  unfolding is_key
  find_key key [] = none
  find_key key ((k, v) ∷ pairs) =
      let rest = find_key key pairs in if is_key key (values.as_str k) then some v else rest

  unfoldable pub find_in : String → Option (List (Value × Value)) → Option Value
  find_in key none = none
  find_in key (some pairs) = find_key key pairs

  unfoldable pub map_get : Value → String → Option Value
  unfolding find_in
  map_get v key = find_in key (values.as_map v)

  text_of : Option Value → Option String
  text_of none = none
  text_of (some v) = values.as_str v

  -- `map_str`, or `map_get` and then `as_str`
  unfoldable pub map_str : Value → String → Option String
  unfolding text_of
  map_str v key = text_of (map_get v key)

  unfoldable pub number_of : Option Value → Option ℕ
  number_of none = none
  number_of (some v) = values.as_u64 v

  unfoldable pub map_u64 : Value → String → Option ℕ
  unfolding number_of
  map_u64 v key = number_of (map_get v key)

  -- What a key gives in a value of two pairs that was just built
  pub map_get-map :
      (key a b : String) (v w : Value)
      → map_get (values.map ((values.string a, v) ∷ (values.string b, w) ∷ [])) key
        ≡ (if a === key then some v else if b === key then some w else none)
  unfolding map_get find_in find_key is_key
  map_get-map key a b v w = ground (
    arith,
    values.as_map-map ((values.string a, v) ∷ (values.string b, w) ∷ []),
    values.as_str-string a,
    values.as_str-string b,
  )
