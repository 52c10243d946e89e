-- ===== src/Network/Protobuf.antt =====
-- network/protobuf/protobuf.go: the processor of protobuf messages. A message is a value of a
-- registered Go type, that a pointer points to: the types `T` and their values `V` are parameters,
-- as are proto.Marshal and proto.Unmarshal of each type. `nil` has no type. A handler is a number;
-- what it is called with is the answer of Process.
pub mod Typed
pub mod Roundtrip
mod Tests
use czx.Base.Dict.{Dict, lookup, insert, has}
use czx.Base.{
  ℕ, Bool, true, false, not, List, [], ◌∷◌, ◌++◌, Option, none, some, if◌then◌else◌, Result, ok,
  err, ◌>>=◌, drop, replicate, map, Eq, nat_eq,
}
use czx.Network.Code.{ProcessorConf, GetError, id_field, put_code, get_id}

pub data ProcessorError {ℓ} (E : Type ℓ) : Type ℓ where
  not_registered not_a_pointer already_registered : ProcessorError E
  no_id : GetError → ProcessorError E
  of_proto : E → ProcessorError E
  panics : ProcessorError E

-- The struct `message`
pub record Entry (T : Type 0) : Type 0 where
  pub id : ℕ
  pub msgtype : T
  pub handler : Option ℕ

pub record Processor (T : Type 0) : Type 0 where
  pub ids : Dict T ℕ
  pub messages : Dict ℕ (Entry T)
  pub option : ProcessorConf

module _ {T : Type 0} ⦃eq : Eq T⦄ where
  unfoldable pub new_processor : ProcessorConf → Processor T
  new_processor opt = record { ids = []; messages = []; option = opt }

  abbrev entry : ℕ → T → Entry T
  entry id t = record { id = id; msgtype = t; handler = none }

  -- Register. The bound math.MaxInt on the number of messages is never reached.
  unfoldable pub register :
      {E : Type 0} (is_pointer : T → Bool)
      → Processor T
      → ℕ
      → Option T
      → Result (ProcessorError E) (Processor T)
  register is_pointer p id none = err not_a_pointer
  register is_pointer p id (some t) =
      if not (is_pointer t)
      then err not_a_pointer
      else if has t p.ids
      then err already_registered
      else ok (record p { messages = insert id (entry id t) p.messages; ids = insert t id p.ids })

  -- `info.handler = handler`
  abbrev pub with_handler : Option ℕ → Entry T → Entry T
  with_handler handler info = record info { handler = handler }

  abbrev pub handled :
      {E : Type 0}
      → Processor T
      → ℕ
      → Option ℕ
      → Option (Entry T)
      → Result (ProcessorError E) (Processor T)
  handled p id handler none = err panics
  handled p id handler (some info) =
      ok (record p { messages = insert id (with_handler handler info) p.messages })

  abbrev pub handled_at :
      {E : Type 0} → Processor T → Option ℕ → Option ℕ → Result (ProcessorError E) (Processor T)
  handled_at p handler none = err not_registered
  handled_at p handler (some id) = handled p id handler (lookup id p.messages)

  -- RegisterHandler, of a message's type
  unfoldable pub register_handler :
      {E : Type 0} → Processor T → T → Option ℕ → Result (ProcessorError E) (Processor T)
  register_handler p t handler = handled_at p handler (lookup t p.ids)

  -- The handler that Process calls, if there is one.
  abbrev pub called : {E : Type 0} → Option (Entry T) → Result (ProcessorError E) (Option ℕ)
  called none = err not_registered
  called (some info) = ok info.handler

  abbrev pub called_at :
      {E : Type 0} → Processor T → Option ℕ → Result (ProcessorError E) (Option ℕ)
  called_at p none = err not_registered
  called_at p (some id) = called (lookup id p.messages)

  -- Process, of a message's type
  unfoldable pub process : {E : Type 0} → Processor T → T → Result (ProcessorError E) (Option ℕ)
  process p t = called_at p (lookup t p.ids)

  -- Range: what its function is called with
  pub range : Processor T → List (ℕ × T)
  range p = map (λ (id, info). (info.id, info.msgtype)) p.messages

  module _ {E : Type 0} (V : T → Type 0) (encode : (t : T) → V t → Result E (List ℕ))
      (decode : (t : T) → List ℕ → Result E (V t)) where
    abbrev pub with_data : List ℕ → Result E (List ℕ) → Result (ProcessorError E) (List (List ℕ))
    with_data field (ok data_of) = ok (field ∷ data_of ∷ [])
    with_data field (err e) = err (of_proto e)

    abbrev pub with_field :
        Option (List ℕ) → Result E (List ℕ) → Result (ProcessorError E) (List (List ℕ))
    with_field none data_of = err panics
    with_field (some field) data_of = with_data field data_of

    abbrev pub marshal_as :
        Processor T → Option ℕ → Result E (List ℕ) → Result (ProcessorError E) (List (List ℕ))
    marshal_as p none data_of = err not_registered
    marshal_as p (some id) data_of = with_field (id_field id p.option) data_of

    -- Marshal
    unfoldable pub marshal : Processor T → (t : T) → V t → Result (ProcessorError E) (List (List ℕ))
    marshal p t v = marshal_as p (lookup t p.ids) (encode t v)

    -- A code in a new buffer of the configured length.
    abbrev code_field : ℕ → ProcessorConf → Option (List ℕ)
    code_field code conf = put_code (replicate conf.code_length 0) code conf

    abbrev behind : Option (List ℕ) → List (List ℕ) → Result (ProcessorError E) (List (List ℕ))
    behind none parts = err panics
    behind (some field) parts = ok (field ∷ parts)

    -- MarshalWithCode
    pub marshal_with_code :
        Processor T → ℕ → (t : T) → V t → Result (ProcessorError E) (List (List ℕ))
    unfolding marshal
    marshal_with_code p code t v =
        marshal p t v >>= λ parts. behind (code_field code p.option) parts

    abbrev pub value : (t : T) → Result E (V t) → Result (ProcessorError E) ((t : T) × V t)
    value t (ok v) = ok (t, v)
    value t (err e) = err (of_proto e)

    abbrev pub unmarshal_as :
        Processor T → List ℕ → Option (Entry T) → Result (ProcessorError E) ((t : T) × V t)
    unmarshal_as p bytes none = err not_registered
    unmarshal_as p bytes (some info) =
        value info.msgtype (decode info.msgtype (drop p.option.id_length bytes))

    abbrev pub unmarshal_at :
        Processor T → List ℕ → Result GetError ℕ → Result (ProcessorError E) ((t : T) × V t)
    unmarshal_at p bytes (err e) = err (no_id e)
    unmarshal_at p bytes (ok id) = unmarshal_as p bytes (lookup id p.messages)

    -- Unmarshal
    unfoldable pub unmarshal : Processor T → List ℕ → Result (ProcessorError E) ((t : T) × V t)
    unmarshal p bytes = unmarshal_at p bytes (get_id bytes p.option)
