-- ===== src/Network/Protobuf/Roundtrip.antt =====
-- What the protobuf processor marshals, it reads back.
use native.Mathlib.Nat.{mod-eq_of_lt}
use czx.Base.Dict.{lookup}
use czx.Base.{
  ℕ, ◌^◌, ◌<◌, ◌≡◌, sym, ap, ◌∙◌, List, [], ◌∷◌, ◌++◌, some, Result, ok, Eq, drop, drop-append,
  nat_eq,
}
use czx.Network.Code.{Supported, id_roundtrip}
use czx.Network.Protobuf.{
  Processor, with_field, marshal_as, marshal, value, unmarshal_as, unmarshal_at, unmarshal,
}
use czx.Network.Protobuf.Typed.{IsTyped}

module _ {T : Type 0} ⦃eq : Eq T⦄ {E : Type 0} (V : T → Type 0)
    (encode : (t : T) → V t → Result E (List ℕ)) (decode : (t : T) → List ℕ → Result E (V t)) where
  -- With identifiers of 1, 2 or 4 bytes, a value of a registered type whose identifier fits in them
  -- and leads to that type, and where proto.Marshal succeeds and proto.Unmarshal gives its value
  -- back, is marshalled into an identifier field and the data, and these two in a row are
  -- unmarshalled to the same value of the same type.
  pub unmarshal-marshal :
      (p : Processor T) (t : T) (v : V t) (id : ℕ) (bytes : List ℕ)
      → Supported p.option.id_length
      → IsTyped p
      → lookup t p.ids ≡ some id
      → id < 256 ^ p.option.id_length
      → encode t v ≡ ok bytes
      → decode t bytes ≡ ok v
      → (field : List ℕ) × (marshal V encode decode p t v ≡ ok (field ∷ bytes ∷ []))
        × (unmarshal V encode decode p (field ++ bytes) ≡ ok (t, v))
  unfolding marshal unmarshal
  unmarshal-marshal p t v id bytes width typed known fits encoded decoded =
      let (field, written, size, back) = id_roundtrip id p.option width in
      let (info, found, of_type) = typed t id known in
      (
        field,
        ap (λ o. marshal_as V encode decode p o (encode t v)) known
            ∙ ap (λ o. with_field V encode decode o (encode t v)) written
            ∙ ap (with_field V encode decode (some field)) encoded,
        ap (unmarshal_at V encode decode p (field ++ bytes))
              (back bytes ∙ ap ok (mod-eq_of_lt fits))
            ∙ ap (unmarshal_as V encode decode p (field ++ bytes)) found
            ∙ ap
                (λ s. value V encode decode s (decode s (drop p.option.id_length (field ++ bytes))))
                of_type
            ∙ ap (λ b. value V encode decode t (decode t b))
                (drop-append field bytes p.option.id_length (sym size))
            ∙ ap (value V encode decode t) decoded,
      )
