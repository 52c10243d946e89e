-- ===== src/Network/Parser/Tests.antt =====
-- A message of three bytes in two arguments behind a length of two bytes.
use czx.Base.{
  ℕ, ◌+◌, ◌≡◌, true, false, List, [], ◌∷◌, ◌++◌, refl, inl, inr, arith, length, ok, OnOk,
}
use czx.Network.Parser.{MessageParserConf, default_parse_conf, read, write}
use czx.Network.Parser.Roundtrip.{joined, message_roundtrip}
use czx.Network.Parser.Limits.{IsWithin, read-IsWithin}

abbrev defaults : MessageParserConf
defaults = record { msg_length_type = 2; msg_min_size = 0; msg_max_size = 0; little_endian = false }

abbrev parts : List (List ℕ)
parts = (1 ∷ 2 ∷ []) ∷ (3 ∷ []) ∷ []

message_roundtrip_example :
    (msg : List ℕ) × (write (default_parse_conf defaults) true parts ≡ ok msg)
    × (length msg ≡ 2 + length (joined parts))
    × ((rest : List ℕ) → read (default_parse_conf defaults) (msg ++ rest) ≡ ok (joined parts, rest))
unfolding default_parse_conf
message_roundtrip_example =
    message_roundtrip defaults parts (inr (inl refl)) (omega arith) (omega arith) (omega arith)

abbrev stream : List ℕ
stream = 0 ∷ 2 ∷ 65 ∷ 66 ∷ 67 ∷ []

abbrev limited : MessageParserConf
limited = record {
  msg_length_type = 2;
  msg_min_size = 1;
  msg_max_size = 100;
  little_endian = false;
}

read-IsWithin_example : OnOk (IsWithin limited stream) (read limited stream)
read-IsWithin_example = read-IsWithin limited stream
