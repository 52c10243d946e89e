-- ===== src/Network/Code.antt =====
-- network/processor.go: the message identifier and the status code in front of a message.
use czx.Base.{
  ℕ, ◌%◌, ◌^◌, ◌≡◌, ◌⊎◌, inl, inr, refl, Bool-cases, Bool, List, [], ◌∷◌, ◌++◌, Option, some, arith,
  if◌then◌else◌, length, ltb, ◌==◌, replicate, Result, ok, err,
}
use czx.Network.Bytes.{
  byte, big16, little16, big32, little32, at, get_big16, get_little16, get_big32, get_little32,
  overwrite,
}

-- `IDLength` and `CodeLength` are 1, 2 or 4; the code does nothing at another length.
pub record ProcessorConf : Type 0 where
  pub little_endian : Bool
  pub id_length : ℕ
  pub code_length : ℕ

pub data GetError : Type 0 where
  too_short_for_id : GetError

-- PutCode and PutID; `none` is a panic on a short buffer.
pub put_code : List ℕ → ℕ → ProcessorConf → Option (List ℕ)
put_code buffer code conf =
    if conf.code_length == 1
    then overwrite (byte code ∷ []) buffer
    else if conf.code_length == 2
    then overwrite (if conf.little_endian then little16 (code % 65536) else big16 (code % 65536))
        buffer
    else if conf.code_length == 4
    then overwrite
        (if conf.little_endian then little32 (code % 4294967296) else big32 (code % 4294967296))
        buffer
    else some buffer

pub put_id : List ℕ → ℕ → ProcessorConf → Option (List ℕ)
put_id buffer id conf =
    if conf.id_length == 1
    then overwrite (byte id ∷ []) buffer
    else if conf.id_length == 2
    then overwrite (if conf.little_endian then little16 (id % 65536) else big16 (id % 65536)) buffer
    else if conf.id_length == 4
    then overwrite
        (if conf.little_endian then little32 (id % 4294967296) else big32 (id % 4294967296)) buffer
    else some buffer

pub get_id : List ℕ → ProcessorConf → Result GetError ℕ
get_id b conf =
    if ltb (length b) conf.id_length
    then err too_short_for_id
    else ok (
        if conf.id_length == 1
        then at b 0
        else if conf.id_length == 2
        then if conf.little_endian then get_little16 b else get_big16 b
        else if conf.id_length == 4
        then if conf.little_endian then get_little32 b else get_big32 b
        else 0)

abbrev pub Supported : ℕ → Type 0
Supported w = (w ≡ 1) ⊎ (w ≡ 2) ⊎ (w ≡ 4)

-- The field of an identifier, as the processors make it: in a new buffer of the configured length.
abbrev pub id_field : ℕ → ProcessorConf → Option (List ℕ)
id_field id conf = put_id (replicate conf.id_length 0) id conf

-- An identifier written into a new buffer is read back from in front of any message, cut to the
-- width of the field, and the buffer takes exactly that width.
pub id_roundtrip :
    (id : ℕ) (conf : ProcessorConf)
    → Supported conf.id_length
    → (b : List ℕ) × (id_field id conf ≡ some b)
      × (length b ≡ conf.id_length)
      × ((rest : List ℕ) → get_id (b ++ rest) conf ≡ ok (id % 256 ^ conf.id_length))
unfolding put_id get_id
id_roundtrip id conf (inl e) = (byte id ∷ [], rw e refl, rw e refl, λ rest. rw e ground arith)
id_roundtrip id conf (inr (inl e)) = elim (Bool-cases conf.little_endian) [
  | inl l ↦ (little16 (id % 65536), rw (e, l) refl, rw e refl, λ rest. rw (e, l) ground arith)
  | inr l ↦ (big16 (id % 65536), rw (e, l) refl, rw e refl, λ rest. rw (e, l) ground arith)
]
id_roundtrip id conf (inr (inr e)) = elim (Bool-cases conf.little_endian) [
  | inl l ↦ (little32 (id % 4294967296), rw (e, l) refl, rw e refl, λ rest. rw (e, l) ground arith)
  | inr l ↦ (big32 (id % 4294967296), rw (e, l) refl, rw e refl, λ rest. rw (e, l) ground arith)
]
