-- ===== src/Network/Parser/Roundtrip.antt =====
-- network/tcp/message.go: what Write sends is what Read returns.
use czx.Base.{
  ℕ, zero, suc, ◌+◌, ◌-◌, ◌%◌, ◌≤◌, ◌<◌, ◌≡◌, inl, inr, refl, sym, ap, ◌∙◌, Bool-cases, if_cases,
  true, false, List, [], ◌∷◌, ◌++◌, some, arith, if◌then◌else◌, length, ltb, leb, ◌==◌, take, drop,
  replicate, ok, length-append, length-replicate, take-append, drop-append, take_all,
}
use czx.Network.Bytes.{byte, big16, little16, big32, little32, overwrite}
use czx.Network.Code.{Supported}
use czx.Network.Parser.{
  MessageParserConf, default_parse_conf, max_of, read_full, get_length, read, total_from,
  put_length, copy_args, write,
}

-- The arguments of Write behind one another.
abbrev pub joined : List (List ℕ) → List ℕ
joined [] = []
joined (a ∷ args) = a ++ joined args

++_assoc : (xs ys zs : List ℕ) → (xs ++ ys) ++ zs ≡ xs ++ (ys ++ zs)
++_assoc [] ys zs = refl
++_assoc (x ∷ xs) ys zs = ap (◌∷◌ x) (++_assoc xs ys zs)

abbrev zeros : ℕ → List ℕ
zeros n = replicate n 0

zeros_add : (m n : ℕ) → zeros (m + n) ≡ zeros m ++ zeros n
zeros_add zero n = (let e : 0 + n ≡ n = omega arith in rw e refl)
zeros_add (suc m) n =
    let e : suc m + n ≡ suc (m + n) = omega arith in rw e (ap (◌∷◌ 0) (zeros_add m n))

length-zeros : (n : ℕ) → length (zeros n) ≡ n
length-zeros n = length-replicate n 0

-- No sum wraps as long as the whole fits in 32 bits.
total_from-joined :
    (n : ℕ) (args : List (List ℕ))
    → n + length (joined args) < 4294967296
    → total_from n args ≡ n + length (joined args)
unfolding total_from
total_from-joined n [] h = omega arith
total_from-joined n (a ∷ args) h =
    let whole = length-append a (joined args) in
    let sum : (n + length a % 4294967296) % 4294967296 ≡ n + length a = omega arith in
    rw (sum, whole) (total_from-joined (n + length a) args (omega arith) ∙ omega arith)

-- What one `copy` makes of the buffer.
copy_lem :
    (front : List ℕ) (l : ℕ) (a : List ℕ) (n room : ℕ)
    → l ≡ length front
    → room ≡ length a + n
    → take l (front ++ zeros (length a + n))
        ++ (take room a ++ drop (length (take room a)) (drop l (front ++ zeros (length a + n))))
      ≡ (front ++ a) ++ zeros n
copy_lem front l a n room h r =
    let all = take_all a room (omega arith) in
    let behind = drop-append front (zeros (length a + n)) l h ∙ zeros_add (length a) n in
    let before = take-append front (zeros (length a + n)) l h in
    let cut =
      drop-append (zeros (length a)) (zeros n) (length a)
        (omega (arith, length-zeros (length a))) in
    rw (all, before, behind, cut) (sym (++_assoc front a (zeros n)))

copy_args-joined :
    (front : List ℕ) (l : ℕ) (args : List (List ℕ))
    → l ≡ length front
    → copy_args (front ++ zeros (length (joined args))) l args ≡ some (front ++ joined args)
unfolding copy_args
copy_args-joined front l [] h = refl
copy_args-joined front l (a ∷ args) h =
    let n = length (joined args) in
    let whole = length-append a (joined args) in
    let size = length-append front (zeros (length a + n)) in
    let fill = length-zeros (length a + n) in
    let fits : ltb (length (front ++ zeros (length a + n))) l ≡ false = ground arith in
    let copied =
      copy_lem front l a n (length (front ++ zeros (length a + n)) - l) h (omega arith) in
    rw (whole, fits, copied)
      (copy_args-joined (front ++ a) (l + length a) args (omega (arith, length-append front a))
        ∙ ap some (++_assoc front a (joined args)))

read_full-append :
    (xs rest : List ℕ) (n : ℕ) → n ≡ length xs → read_full n (xs ++ rest) ≡ ok (xs, rest)
read_full-append xs rest n h =
    let enough : leb n (length (xs ++ rest)) ≡ true = ground (arith, length-append xs rest) in
    rw (enough, take-append xs rest n h, drop-append xs rest n h) refl

overwrite-zeros : (f : List ℕ) (n : ℕ) → overwrite f (zeros (length f + n)) ≡ some (f ++ zeros n)
overwrite-zeros f n =
    let size = length-zeros (length f + n) in
    let fits : leb (length f) (length (zeros (length f + n))) ≡ true = ground arith in
    let cut =
      drop-append (zeros (length f)) (zeros n) (length f)
        (omega (arith, length-zeros (length f))) in
    let apart = zeros_add (length f) n in rw fits (rw (apart, cut) refl)

-- The length field of a message of `n` bytes.
field_lem :
    (conf : MessageParserConf) (n : ℕ)
    → Supported conf.msg_length_type
    → n ≤ max_of conf.msg_length_type
    → (f : List ℕ) × (length f ≡ conf.msg_length_type)
      × (put_length conf n (zeros (conf.msg_length_type + n)) ≡ some (f ++ zeros n))
      × (get_length conf f ≡ n)
unfolding put_length get_length
field_lem conf n (inl e) h =
    let small : n ≤ 255 = rw (sym (ap max_of e)) h in
    (byte n ∷ [], rw e refl, rw e (overwrite-zeros (byte n ∷ []) n), rw e (omega arith))
field_lem conf n (inr (inl e)) h =
    let small : n ≤ 65535 = rw (sym (ap max_of e)) h in
    elim (Bool-cases conf.little_endian) [
      | inl l ↦ (
        little16 (n % 65536),
        rw e refl,
        rw (e, l) (overwrite-zeros (little16 (n % 65536)) n),
        rw (e, l) (omega arith),
      )
      | inr l ↦ (
        big16 (n % 65536),
        rw e refl,
        rw (e, l) (overwrite-zeros (big16 (n % 65536)) n),
        rw (e, l) (omega arith),
      )
    ]
field_lem conf n (inr (inr e)) h =
    let small : n ≤ 4294967295 = rw (sym (ap max_of e)) h in
    elim (Bool-cases conf.little_endian) [
      | inl l ↦ (
        little32 n,
        rw e refl,
        rw (e, l) (overwrite-zeros (little32 n) n),
        rw (e, l) (omega arith),
      )
      | inr l ↦
          (big32 n, rw e refl, rw (e, l) (overwrite-zeros (big32 n) n), rw (e, l) (omega arith))
    ]

module _ (conf : MessageParserConf) (args : List (List ℕ)) (w : Supported conf.msg_length_type)
    (hi : length (joined args) ≤ conf.msg_max_size) (lo : conf.msg_min_size ≤ length (joined args))
    (fits : conf.msg_length_type + length (joined args) < 4294967296) (f : List ℕ)
    (size : length f ≡ conf.msg_length_type) where
  write-field :
      put_length conf (length (joined args)) (zeros (conf.msg_length_type + length (joined args)))
        ≡ some (f ++ zeros (length (joined args)))
      → write conf true args ≡ ok (f ++ joined args)
  unfolding write
  write-field put =
      let n = length (joined args) in
      let total : total_from 0 args ≡ n = total_from-joined 0 args (omega arith) ∙ omega arith in
      let low : ltb n conf.msg_min_size ≡ false = ground arith in
      let high : ltb conf.msg_max_size n ≡ false = ground arith in
      let made : (conf.msg_length_type % 4294967296 + n) % 4294967296 ≡ conf.msg_length_type + n =
        omega arith in
      let copied = copy_args-joined f conf.msg_length_type args (sym size) in
      rw (total, low, high, made, put, copied) refl

  read-field :
      get_length conf f ≡ length (joined args)
      → (rest : List ℕ) → read conf ((f ++ joined args) ++ rest) ≡ ok (joined args, rest)
  unfolding read
  read-field get rest =
      let n = length (joined args) in
      let short : ltb 4 conf.msg_length_type ≡ false = ground arith in
      let low : ltb n conf.msg_min_size ≡ false = ground arith in
      let high : ltb conf.msg_max_size n ≡ false = ground arith in
      let field = read_full-append f (joined args ++ rest) conf.msg_length_type (sym size) in
      let body = read_full-append (joined args) rest n refl in
      rw (short, ++_assoc f (joined args) rest, field, get, low, high, body) refl

default_limits :
    (conf : MessageParserConf)
    → (default_parse_conf conf).msg_max_size ≤ max_of conf.msg_length_type
unfolding default_parse_conf
default_limits conf =
    let max = max_of conf.msg_length_type in
    let maximum = if conf.msg_max_size == 0 then 4096 else conf.msg_max_size in
    if_cases (λ k. k ≤ max) (ltb max maximum) max maximum (λ _. omega arith) (λ e. ground arith)

-- What Write sends is what Read returns. For any configuration completed by its defaults, with a
-- length field of 1, 2 or 4 bytes, and any arguments whose bytes are together within the limits of
-- the completed configuration, and fit into 32 bits with the length field: Write succeeds, it hands
-- over as many bytes as the field and the arguments have, and Read, in front of any further bytes,
-- returns the arguments joined and leaves exactly the further bytes.
pub message_roundtrip :
    (given : MessageParserConf) (args : List (List ℕ))
    → Supported given.msg_length_type
    → length (joined args) ≤ (default_parse_conf given).msg_max_size
    → (default_parse_conf given).msg_min_size ≤ length (joined args)
    → given.msg_length_type + length (joined args) < 4294967296
    → (msg : List ℕ) × (write (default_parse_conf given) true args ≡ ok msg)
      × (length msg ≡ given.msg_length_type + length (joined args))
      × ((rest : List ℕ) → read (default_parse_conf given) (msg ++ rest) ≡ ok (joined args, rest))
unfolding default_parse_conf
message_roundtrip given args w hi lo fits =
    let n = length (joined args) in
    let conf = default_parse_conf given in
    let most = default_limits given in
    let (f, size, put, get) = field_lem conf n w (omega arith) in
    (
      f ++ joined args,
      write-field conf args w hi lo fits f size put,
      length-append f (joined args) ∙ ap (λ k. k + n) size,
      read-field conf args w hi lo fits f size get,
    )
