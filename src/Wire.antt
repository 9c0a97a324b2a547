-- ===== src/Wire.antt =====
-- proxy/credentials.go: AMQP short strings, long strings and tables as bytes.
pub mod RoundTrip
use amqplex.Base.{ℕ, ◌+◌, ◌%◌, Bool, List, [], ◌∷◌, ◌++◌, length, take, drop, ltb, if◌then◌else◌}
use amqplex.Base.Words.{put_uint32}
use amqplex.Base.Result.{
  Result, ok, err, data_too_short, bad_string_length, long_too_short, bad_long_length,
  table_too_short, bad_table_length,
}
use amqplex.Frame.{byte_at, uint32_at}

unfoldable pub serialize_short_string : List ℕ → List ℕ
serialize_short_string s = length s % 256 ∷ s

unfoldable pub serialize_long_string : List ℕ → List ℕ
serialize_long_string s = put_uint32 (length s % 4294967296) ++ s

unfoldable pub serialize_empty_table : List ℕ
serialize_empty_table = put_uint32 0

-- A string and the number of bytes that it takes with its length byte.
unfoldable pub parse_short_string : List ℕ → Result (List ℕ × ℕ)
parse_short_string bs =
    if ltb (length bs) 1
    then err data_too_short
    else if ltb (length bs) (1 + byte_at bs 0)
    then err bad_string_length
    else ok (take (byte_at bs 0) (drop 1 bs), 1 + byte_at bs 0)

unfoldable pub parse_long_string : List ℕ → Result (List ℕ × ℕ)
parse_long_string bs =
    if ltb (length bs) 4
    then err long_too_short
    else if ltb (length bs) (4 + uint32_at bs 0)
    then err bad_long_length
    else ok (take (uint32_at bs 0) (drop 4 bs), 4 + uint32_at bs 0)

-- The table is not looked into.
unfoldable pub parse_table : List ℕ → Result (List ℕ × ℕ)
parse_table bs =
    if ltb (length bs) 4
    then err table_too_short
    else if ltb (length bs) (4 + uint32_at bs 0)
    then err bad_table_length
    else ok (take (uint32_at bs 0) (drop 4 bs), 4 + uint32_at bs 0)
