-- ===== src/Container/Queue/Refine.antt =====
-- A queue answers as a list with an upper bound and a flag: its capacity and its recycler cannot be
-- seen from outside.
use mathlib.Core.Path.{ap₂}
use mathlib.Core.List.{head?, tail}
use czx.Base.{
  ℕ, ◌-◌, ◌≡◌, refl, ap, ◌∙◌, Bool, true, not, ◌&&◌, List, [], ◌∷◌, ◌++◌, Option, none, some, arith,
  ◌==◌, if◌then◌else◌, length, get_elem?, take, drop, take_all, drop_all, ok, err,
}
use czx.Base.Int.{ℤ, pos, negsuc, geb, is_nonpos}
use czx.Container.Queue.{
  Growth, Queue, PushError, queue_closed, queue_full, panic, refused, blocks, takes,
  shrink_if_asked, keep_unless, delete_func, peek, pop, wait_pop, pop_batch, clear, shrink, close,
  push, len,
}

-- What a user of a queue knows of it.
pub record Fifo {ℓ} (T : Type ℓ) : Type ℓ where
  pub items : List T
  pub bound : ℤ
  pub shut : Bool

pub data Call {ℓ} (T : Type ℓ) : Type ℓ where
  pushes : List T → Call T
  pops waits peeks sizes clears closes shrinks : Call T
  deletes : (T → Bool) → Call T
  batches : ℤ → Call T

pub data Reply {ℓ} (T : Type ℓ) : Type ℓ where
  done waiting shut_down panics : Reply T
  failed : PushError → Reply T
  maybe : Option T → Reply T
  number : ℕ → Reply T
  flag : Bool → Reply T
  many : Option (List T) → Reply T

module _ {ℓ} {T : Type ℓ} where
  abbrev pub view : Queue T → Fifo T
  view q = record { items = q.queue; bound = q.max_capacity; shut = q.closed }

  -- The bound holds no more elements: a bound of zero or less is none.
  abbrev pub is_full : Fifo T → Bool
  is_full f = not (is_nonpos f.bound) && geb (length f.items) f.bound

  abbrev pub with_items : Fifo T → List T → Fifo T
  with_items f xs = record f { items = xs }

  -- The calls on the list.
  pub spec : Fifo T → Call T → Reply T × Fifo T
  spec f (pushes xs) =
      if f.shut
      then (failed queue_closed, f)
      else if is_full f
      then (failed (queue_full f.bound), f)
      else (done, with_items f (f.items ++ xs))
  spec f pops = (maybe (head? f.items), with_items f (tail f.items))
  spec f waits =
      if f.shut
      then (shut_down, f)
      else (elim f.items [ [] ↦ (waiting, f) | x ∷ rest ↦ (maybe (some x), with_items f rest) ])
  spec f peeks = (maybe (head? f.items), f)
  spec f sizes = (number (length f.items), f)
  spec f clears = (done, with_items f [])
  spec f closes = (done, record f { shut = true })
  spec f shrinks = (done, f)
  spec f (deletes fn) = (flag (not (length f.items == 0)), with_items f (keep_unless fn f.items))
  spec f (batches n) = elim n [
    | pos k ↦ (
      many (elim f.items [ [] ↦ none | _ ↦ some (take k f.items) ]),
      with_items f (drop k f.items),
    )
    | negsuc k ↦ elim f.items [ [] ↦ (many none, f) | _ ↦ (panics, f) ]
  ]

  pub run_spec : Fifo T → List (Call T) → List (Reply T)
  run_spec f [] = []
  run_spec f (c ∷ cs) = let (r, f') = spec f c in r ∷ run_spec f' cs

module _ {T : Type 0} (g : Growth) where
  -- The same calls on the queue; one that fails or waits leaves it as it was.
  pub call : Queue T → Call T → Reply T × Queue T
  call q (pushes xs) = elim (push g q xs) [ ok q' ↦ (done, q') | err e ↦ (failed e, q) ]
  call q pops = let (v, q') = pop q in (maybe v, q')
  call q waits = elim (wait_pop q) [
    | refused ↦ (shut_down, q)
    | blocks ↦ (waiting, q)
    | takes v q' ↦ (maybe (some v), q')
  ]
  call q peeks = (maybe (peek q), q)
  call q sizes = (number (len q), q)
  call q clears = (done, clear q)
  call q closes = (done, close q)
  call q shrinks = (done, shrink q)
  call q (deletes fn) = let (b, q') = delete_func q fn in (flag b, q')
  call q (batches n) = elim (pop_batch q n) [ ok (b, q') ↦ (many b, q') | err panic ↦ (panics, q) ]

  abbrev Agrees : Reply T × Queue T → Reply T × Fifo T → Type 0
  Agrees a b = (a.0 ≡ b.0) × (view a.1 ≡ b.1)

  view-shrink_if_asked : (q : Queue T) → view (shrink_if_asked q) ≡ view q
  unfolding shrink_if_asked
  view-shrink_if_asked q = ground arith

  empty_of_length : (xs : List T) → length xs ≡ 0 → xs ≡ []
  empty_of_length [] e = refl
  empty_of_length (x ∷ xs) e = absurd (omega arith)

  head?-eq : (xs : List T) → get_elem? xs 0 ≡ head? xs
  head?-eq [] = refl
  head?-eq (x ∷ xs) = refl

  push-Agrees :
      (q : Queue T) (xs : List T) → Agrees (call q (pushes xs)) (spec (view q) (pushes xs))
  unfolding call spec push
  push-Agrees q xs = ground arith

  pop-Agrees : (q : Queue T) → Agrees (call q pops) (spec (view q) pops)
  unfolding call spec pop
  pop-Agrees q = ground (
    arith,
    view-shrink_if_asked (record q { queue = tail q.queue; cap = q.cap - 1 }),
    empty_of_length (tail q.queue),
  )

  wait-Agrees : (q : Queue T) → Agrees (call q waits) (spec (view q) waits)
  unfolding call spec wait_pop
  wait-Agrees q = ground (
    arith,
    view-shrink_if_asked (record q { queue = tail q.queue; cap = q.cap - 1 }),
    view-shrink_if_asked (record q { queue = []; cap = 0 }),
    empty_of_length (tail q.queue),
  )

  delete-Agrees :
      (q : Queue T) (fn : T → Bool) → Agrees (call q (deletes fn)) (spec (view q) (deletes fn))
  unfolding call spec delete_func keep_unless
  delete-Agrees q fn = ground (
    arith,
    view-shrink_if_asked q,
    view-shrink_if_asked (record q { queue = keep_unless fn q.queue }),
    empty_of_length q.queue,
  )

  batch-Agrees : (q : Queue T) (n : ℤ) → Agrees (call q (batches n)) (spec (view q) (batches n))
  unfolding call spec pop_batch
  batch-Agrees q (negsuc k) = ground (arith, empty_of_length q.queue)
  batch-Agrees q (pos k) =
      let xs = q.queue in
      let n = length xs in
      ground (
        arith,
        take_all xs k,
        take_all xs n,
        drop_all xs k,
        drop_all xs n,
        empty_of_length (drop k xs),
        empty_of_length xs,
        view-shrink_if_asked (record q { queue = drop k xs; cap = q.cap - k }),
        view-shrink_if_asked (record q { queue = drop n xs; cap = q.cap - n }),
      )

  shrink-Agrees : (q : Queue T) → Agrees (call q shrinks) (spec (view q) shrinks)
  unfolding call spec shrink
  shrink-Agrees q = ground arith

  close-Agrees : (q : Queue T) → Agrees (call q closes) (spec (view q) closes)
  unfolding call spec close
  close-Agrees q = ground arith

  call-Agrees : (q : Queue T) (c : Call T) → Agrees (call q c) (spec (view q) c)
  unfolding call spec
  call-Agrees q (pushes xs) = push-Agrees q xs
  call-Agrees q pops = pop-Agrees q
  call-Agrees q waits = wait-Agrees q
  call-Agrees q peeks = unfold peek in (ap maybe (head?-eq q.queue), refl)
  call-Agrees q sizes = unfold len in (refl, refl)
  call-Agrees q clears = unfold clear in (refl, refl)
  call-Agrees q closes = close-Agrees q
  call-Agrees q shrinks = shrink-Agrees q
  call-Agrees q (deletes fn) = delete-Agrees q fn
  call-Agrees q (batches n) = batch-Agrees q n

  -- The answers to a sequence of calls.
  pub run : Queue T → List (Call T) → List (Reply T)
  run q [] = []
  run q (c ∷ cs) = let (r, q') = call q c in r ∷ run q' cs

  -- Whatever the growth of slices and the recycler, any sequence of calls is answered as by a list
  -- with an upper bound and a closed flag.
  pub calls_refine : (cs : List (Call T)) (q : Queue T) → run q cs ≡ run_spec (view q) cs
  unfolding run run_spec
  calls_refine [] q = refl
  calls_refine (c ∷ cs) q =
      let (answer, state) = call-Agrees q c in
      ap₂ ◌∷◌ answer (calls_refine cs (call q c).1 ∙ ap (λ f. run_spec f cs) state)
