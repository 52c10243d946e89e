-- ===== src/Container/Queue/Search.antt =====
-- What SearchFunc finds, and how far a Push of one element may fill a queue.
use czx.Base.{
  ℕ, suc, ◌+◌, ◌≤◌, ◌≡◌, refl, ◌∙◌, Bool-cases, List-cases, suc-ne-zero, ◌⊎◌, inl, inr, Bool, List,
  [], ◌∷◌, Option, none, some, arith, if◌then◌else◌, length, length-append, OnOk,
}
use czx.Base.Int.{ℤ, pos, negsuc}
use czx.Container.Queue.{Growth, Queue, pick, search_from, search_func, push}

module _ {ℓ} {T : Type ℓ} where
  -- The first element that passes, by plain recursion.
  pub first_match : (T → Bool) → List T → Option T
  first_match fn [] = none
  first_match fn (x ∷ xs) = if fn x then some x else first_match fn xs

  -- The index that the loop returns is counted from its start.
  search_from_shift :
      (fn : T → Bool) (x : T) (xs ys : List T) (i j : ℕ)
      → j ≡ suc i
      → pick (x ∷ xs) (search_from fn j ys) ≡ pick xs (search_from fn i ys)
  unfolding search_from
  search_from_shift fn x xs [] i j e = refl
  search_from_shift fn x xs (y ∷ ys) i j e = elim (Bool-cases (fn y)) [
    | inl found ↦ rw (found, e)
    | inr other ↦ rw other (search_from_shift fn x xs ys (i + 1) (j + 1) (omega arith))
  ]

  search_from-first :
      (fn : T → Bool) (xs : List T) → pick xs (search_from fn 0 xs) ≡ first_match fn xs
  unfolding search_from first_match
  search_from-first fn [] = refl
  search_from-first fn (x ∷ xs) = elim (Bool-cases (fn x)) [
    | inl found ↦ rw found
    | inr other ↦
        rw other (search_from_shift fn x xs xs 0 (0 + 1) (omega arith) ∙ search_from-first fn xs)
  ]

  -- SearchFunc returns the first element, in the queue's order, that the function accepts.
  pub search_func-first : (q : Queue T) (fn : T → Bool) → search_func q fn ≡ first_match fn q.queue
  unfolding search_func
  search_func-first q fn = elim (List-cases q.queue) [
    | inl e ↦ rw e (unfold first_match in refl)
    | inr (x, xs, e) ↦ rw (e, search_func, suc-ne-zero (length xs)) (search_from-first fn (x ∷ xs))
  ]

-- The bound on a queue that has one.
abbrev pub Bounded {ℓ} : {T : Type ℓ} → ℤ → Queue T → Type 0
Bounded (pos m) q = m ≡ 0 ⊎ length q.queue ≤ m
Bounded (negsuc m) q = Unit {0}

module _ {T : Type 0} (g : Growth) where
  -- A successful Push of one element leaves a queue that is within its maximum capacity, if it has one,
  -- within it.
  pub push_one-Bounded :
      (q : Queue T) (x : T)
      → Bounded q.max_capacity q
      → OnOk (λ q'. Bounded q'.max_capacity q') (push g q (x ∷ []))
  unfolding push
  push_one-Bounded q x h = ground (arith, length-append q.queue (x ∷ []))
