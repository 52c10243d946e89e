-- ===== src/Network/Parser/Limits.antt =====
-- network/tcp/message.go: what Read and Write let through.
use czx.Base.{
  ℕ, ◌≤◌, ◌≡◌, sym, ap, ◌∙◌, if_cases, Bool, true, false, List, ◌++◌, arith, if◌then◌else◌, length,
  ltb, leb, ◌==◌, take, drop, Result, ok, err, ◌>>=◌, OnOk, length-take, take-append-drop,
}
use czx.Network.Parser.{
  MessageParserConf, ParseError, eof, unexpected_eof, panicked, message_too_long, message_too_short,
  read_full, get_length, read,
}

module _ {ℓ} {A : Type ℓ} where
  OnOk-if :
      (P : A → Type 0) (b : Bool) (x y : Result ParseError A)
      → (b ≡ true → OnOk P x)
      → (b ≡ false → OnOk P y)
      → OnOk P (if b then x else y)
  OnOk-if P b x y p q = if_cases (OnOk P) b x y p q

  OnOk->>= :
      {B : Type ℓ} (P : A → Type 0) (Q : B → Type 0) (r : Result ParseError B)
      (f : B → Result ParseError A)
      → OnOk Q r
      → ((b : B) → Q b → OnOk P (f b))
      → OnOk P (r >>= f)
  OnOk->>= P Q (ok b) f h next = next b h
  OnOk->>= P Q (err e) f h next = tt

OnOk-map :
    {A : Type 0} (P Q : A → Type 0) (r : Result ParseError A)
    → ((a : A) → Q a → P a)
    → OnOk Q r
    → OnOk P r
OnOk-map P Q (ok a) f h = f a h
OnOk-map P Q (err e) f h = tt

abbrev Splits : ℕ → List ℕ → List ℕ × List ℕ → Type 0
Splits n stream (front, rest) = (length front ≡ n) × (front ++ rest ≡ stream)

read_full-Splits : (n : ℕ) (stream : List ℕ) → OnOk (Splits n stream) (read_full n stream)
read_full-Splits n stream =
    OnOk-if (Splits n stream) (leb n (length stream)) (ok (take n stream, drop n stream))
      (if length stream == 0 then err eof else err unexpected_eof)
      (λ e. (ground (arith, length-take n stream), take-append-drop n stream))
      (λ _.
        if_cases (OnOk (Splits n stream)) (length stream == 0) (err eof) (err unexpected_eof)
          (λ _. tt) (λ _. tt))

-- A message within the limits of the configuration, cut from the stream behind its length field.
unfoldable pub IsWithin : MessageParserConf → List ℕ → List ℕ × List ℕ → Type 0
IsWithin conf stream (message, rest) =
    (conf.msg_min_size ≤ length message)
    × (length message ≤ conf.msg_max_size)
    × ((field : List ℕ) × (length field ≡ conf.msg_length_type)
        × (get_length conf field ≡ length message)
        × (field ++ (message ++ rest) ≡ stream))

-- Whatever the configuration and the bytes on the stream: a message that Read returns is no shorter
-- and no longer than the configuration's limits, has the length that its length field says, and
-- stands on the stream right behind that field and in front of what Read leaves. A maximum of 0 is a
-- limit as any other.
pub read-IsWithin :
    (conf : MessageParserConf) (stream : List ℕ) → OnOk (IsWithin conf stream) (read conf stream)
unfolding read IsWithin
read-IsWithin conf stream =
    let P = IsWithin conf stream in
    OnOk-if P (ltb 4 conf.msg_length_type) (err panicked) _ (λ _. tt)
      (λ _.
        OnOk->>= P (Splits conf.msg_length_type stream) (read_full conf.msg_length_type stream) _
          (read_full-Splits conf.msg_length_type stream)
          (λ (field, rest) (size, front).
            let n = get_length conf field in
            OnOk-if P (ltb conf.msg_max_size n) (err message_too_long) _ (λ _. tt)
              (λ hi.
                OnOk-if P (ltb n conf.msg_min_size) (err message_too_short) _ (λ _. tt)
                  (λ lo.
                    OnOk-map P (Splits n rest) (read_full n rest)
                      (λ (message, tail) (len, back).
                        let low : conf.msg_min_size ≤ length message = ground arith in
                        let high : length message ≤ conf.msg_max_size = ground arith in
                        (low, high, (field, size, sym len, ap (λ k. field ++ k) back ∙ front)))
                      (read_full-Splits n rest)))))
