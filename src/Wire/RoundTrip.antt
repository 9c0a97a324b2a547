-- ===== src/Wire/RoundTrip.antt =====
-- proxy/credentials.go: the parsers on what the serialisers write.
use amqplex.Base.{ℕ, ◌+◌, ◌≤◌, ◌<◌, ◌≡◌, arith, List, [], ◌++◌, length, length-append}
use amqplex.Base.{take-length-append, ◌%◌}
use amqplex.Base.Words.{put_uint32, uint32-put}
use amqplex.Base.Result.{ok}
use amqplex.Wire.{
  serialize_short_string, serialize_long_string, serialize_empty_table, parse_short_string,
  parse_long_string, parse_table,
}

-- A string of at most 255 bytes is read back in front of anything.
pub parse_short_string-serialize :
    (s rest : List ℕ)
    → length s ≤ 255
    → parse_short_string (serialize_short_string s ++ rest) ≡ ok (s, 1 + length s)
unfolding parse_short_string serialize_short_string
parse_short_string-serialize s rest h =
    ground (arith, small, length-append s rest, take-length-append s rest)
  where
    small : length s % 256 ≡ length s
    small = omega arith

-- One below 4 GiB by its long form.
pub parse_long_string-serialize :
    (s rest : List ℕ)
    → length s < 4294967296
    → parse_long_string (serialize_long_string s ++ rest) ≡ ok (s, 4 + length s)
unfolding parse_long_string serialize_long_string put_uint32
parse_long_string-serialize s rest h =
    ground (arith, small, uint32-put (length s) h, length-append s rest, take-length-append s rest)
  where
    small : length s % 4294967296 ≡ length s
    small = omega arith

-- The empty table takes four bytes.
pub parse_table-empty : (rest : List ℕ) → parse_table (serialize_empty_table ++ rest) ≡ ok ([], 4)
unfolding parse_table serialize_empty_table put_uint32
parse_table-empty rest = ground (arith, uint32-put 0)
