-- ===== src/Network/Protobuf/Tests.antt =====
-- A processor of two types, which numbers stand for, with the bytes of a message as its value.
use czx.Base.Dict.{lookup, insert, has}
use czx.Base.{
  ℕ, ◌<◌, ◌^◌, ◌≡◌, refl, inl, inr, Bool, true, false, List, [], ◌∷◌, ◌++◌, none, some, Result, ok,
  arith, nat_eq,
}
use czx.Network.Code.{ProcessorConf, Supported}
use czx.Network.Protobuf.{
  Processor, new_processor, register, register_handler, process, marshal, unmarshal,
}
use czx.Network.Protobuf.Typed.{IsTyped, IsFresh, Setup, registers, handles, set_up, set_up-IsTyped}
use czx.Network.Protobuf.Roundtrip.{unmarshal-marshal}

abbrev all_pointers : ℕ → Bool
all_pointers t = true

abbrev BytesOf : ℕ → Type 0
BytesOf t = List ℕ

abbrev encode : (t : ℕ) → BytesOf t → Result ℕ (List ℕ)
encode t v = ok v

abbrev decode : (t : ℕ) → List ℕ → Result ℕ (BytesOf t)
decode t b = ok b

abbrev conf : ProcessorConf
conf = record { little_endian = false; id_length = 2; code_length = 1 }

abbrev calls : List (Setup ℕ)
calls = registers 300 (some 0) ∷ handles 0 (some 5) ∷ registers 4 (some 1) ∷ registers 9 none ∷ []

abbrev empty : Processor ℕ
empty = new_processor conf

abbrev filled : Processor ℕ
filled = set_up all_pointers empty calls

empty-IsTyped : IsTyped empty
unfolding new_processor lookup
empty-IsTyped t id h = absurd (cc h)

calls-IsFresh : IsFresh all_pointers empty calls
unfolding set_up new_processor register register_handler has lookup insert
calls-IsFresh = (refl, (refl, (refl, tt)))

set_up-IsTyped_example : IsTyped filled
set_up-IsTyped_example = set_up-IsTyped all_pointers calls empty empty-IsTyped calls-IsFresh

known : lookup 0 filled.ids ≡ some 300
unfolding set_up new_processor register register_handler has lookup insert
known = refl

filled-IsTyped : IsTyped filled
filled-IsTyped = set_up-IsTyped all_pointers calls empty empty-IsTyped calls-IsFresh

width : Supported filled.option.id_length
unfolding set_up new_processor register register_handler has lookup insert
width = inr (inl refl)

fits : 300 < 256 ^ filled.option.id_length
unfolding set_up new_processor register register_handler has lookup insert
fits = omega arith

unmarshal-marshal_example :
    (field : List ℕ) × (marshal BytesOf encode decode filled 0 (1 ∷ 2 ∷ [])
      ≡ ok (field ∷ (1 ∷ 2 ∷ []) ∷ []))
    × (unmarshal BytesOf encode decode filled (field ++ 1 ∷ 2 ∷ []) ≡ ok (0, 1 ∷ 2 ∷ []))
unmarshal-marshal_example =
    unmarshal-marshal BytesOf encode decode filled 0 (1 ∷ 2 ∷ []) 300 (1 ∷ 2 ∷ []) width
      filled-IsTyped known fits refl refl

-- The second of two types with one identifier takes the messages of the first.
abbrev clash : Processor ℕ
clash =
    set_up all_pointers empty
      (registers 7 (some 0) ∷ registers 7 (some 1) ∷ handles 1 (some 5) ∷ [])

wrong_handler : process {E = ℕ} clash 0 ≡ ok (some 5)
unfolding process set_up new_processor register register_handler has lookup insert
wrong_handler = refl
