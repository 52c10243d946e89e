-- ===== src/Network/Parser.antt =====
-- network/tcp/message.go: a message on a stream, behind its length. The stream is the list of the
-- bytes that come before the connection is closed; the writer's own errors are not modelled: `write`
-- gives the bytes that it hands to the connection's Write. A run-time panic is an error value here.
mod Tests
pub mod Limits
pub mod Roundtrip
use czx.Base.{
  ℕ, ◌+◌, ◌-◌, ◌%◌, Bool, true, false, List, [], ◌∷◌, ◌++◌, Option, none, some, if◌then◌else◌,
  length, ltb, leb, ◌==◌, take, drop, replicate, Result, ok, err, ◌>>=◌,
}
use czx.Network.Bytes.{
  byte, big16, little16, big32, little32, at, get_big16, get_little16, get_big32, get_little32,
  overwrite,
}

-- `MsgLengthType` is a number of bytes: `LenType8`, `LenType16`, `LenType32`.
pub record MessageParserConf : Type 0 where
  pub msg_length_type : ℕ
  pub msg_min_size : ℕ
  pub msg_max_size : ℕ
  pub little_endian : Bool

pub data ParseError : Type 0 where
  message_too_long : ParseError
  message_too_short : ParseError
  eof : ParseError
  unexpected_eof : ParseError
  not_a_writer : ParseError
  panicked : ParseError

-- The largest length that the field can hold; 0 at a length type the code does not know.
abbrev pub max_of : ℕ → ℕ
max_of t = if t == 1 then 255 else if t == 2 then 65535 else if t == 4 then 4294967295 else 0

-- defaultParseConf.
unfoldable pub default_parse_conf : MessageParserConf → MessageParserConf
default_parse_conf conf =
    let maximum = if conf.msg_max_size == 0 then 4096 else conf.msg_max_size in
    let minimum = if conf.msg_min_size == 0 then 1 else conf.msg_min_size in
    let max = max_of conf.msg_length_type in
    record conf {
      msg_min_size = if ltb max minimum then max else minimum;
      msg_max_size = if ltb max maximum then max else maximum;
    }

-- io.ReadFull of `n` bytes: them and what is left of the stream.
abbrev pub read_full : ℕ → List ℕ → Result ParseError (List ℕ × List ℕ)
read_full n stream =
    if leb n (length stream)
    then ok (take n stream, drop n stream)
    else if length stream == 0
    then err eof
    else err unexpected_eof

-- The number in the length field; a length type the code does not know reads as 0.
unfoldable pub get_length : MessageParserConf → List ℕ → ℕ
get_length conf b =
    if conf.msg_length_type == 1
    then at b 0
    else if conf.msg_length_type == 2
    then if conf.little_endian then get_little16 b else get_big16 b
    else if conf.msg_length_type == 4
    then if conf.little_endian then get_little32 b else get_big32 b
    else 0

-- Read: the message, and the stream behind it. `b[:MsgLengthType]` of the 4 bytes `b` may panic.
unfoldable pub read : MessageParserConf → List ℕ → Result ParseError (List ℕ × List ℕ)
read conf stream =
    if ltb 4 conf.msg_length_type
    then err panicked
    else read_full conf.msg_length_type stream >>= λ (field, rest).
        if ltb conf.msg_max_size (get_length conf field)
        then err message_too_long
        else if ltb (get_length conf field) conf.msg_min_size
        then err message_too_short
        else read_full (get_length conf field) rest

-- The sum of the lengths, in the `uint32` that the code adds them in.
unfoldable pub total_from : ℕ → List (List ℕ) → ℕ
total_from n [] = n
total_from n (a ∷ args) = total_from ((n + length a % 4294967296) % 4294967296) args

-- The length written at the front of the new buffer.
unfoldable pub put_length : MessageParserConf → ℕ → List ℕ → Option (List ℕ)
put_length conf n msg =
    if conf.msg_length_type == 1
    then overwrite (byte n ∷ []) msg
    else if conf.msg_length_type == 2
    then overwrite (if conf.little_endian then little16 (n % 65536) else big16 (n % 65536)) msg
    else if conf.msg_length_type == 4
    then overwrite (if conf.little_endian then little32 n else big32 n) msg
    else some msg

-- Each argument copied behind the last one, as much of it as the buffer has room for; `msg[l:]` with
-- `l` beyond the buffer is a panic.
unfoldable pub copy_args : List ℕ → ℕ → List (List ℕ) → Option (List ℕ)
copy_args msg l [] = some msg
copy_args msg l (a ∷ args) =
    let copied = take (length msg - l) a in
    let rest =
      copy_args (take l msg ++ (copied ++ drop (length copied) (drop l msg))) (l + length a) args in
    if ltb (length msg) l then none else rest

abbrev pub or_panic : Option (List ℕ) → Result ParseError (List ℕ)
or_panic none = err panicked
or_panic (some msg) = ok msg

-- Write; `is_writer` is whether the connection implements io.Writer.
unfoldable pub write : MessageParserConf → Bool → List (List ℕ) → Result ParseError (List ℕ)
write conf is_writer args =
    let msg_len = total_from 0 args in
    let size = (conf.msg_length_type % 4294967296 + msg_len) % 4294967296 in
    if ltb conf.msg_max_size msg_len
    then err message_too_long
    else if ltb msg_len conf.msg_min_size
    then err message_too_short
    else or_panic (put_length conf msg_len (replicate size 0)) >>= λ msg.
        or_panic (copy_args msg conf.msg_length_type args) >>= λ msg.
        if is_writer then ok msg else err not_a_writer
