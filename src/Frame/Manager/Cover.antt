-- ===== src/Frame/Manager/Cover.antt =====
-- frame/manager.go: no loop that was started is left behind by Stop.
use Prim.Native.String.{String}
use text.Mathlib.TextEquality.{eq_iff}
use mathlib.Core.Path.{subst}
use czx.Base.{
  ℕ, ◌≡◌, ◌⊎◌, refl, ap, sym, ◌∙◌, Bool, true, false, ◌||◌, List, [], ◌∷◌, ◌++◌, none, some, arith,
  ◌==◌, if◌then◌else◌, map, string_eq, Bool-cases, Option-cases, inl, inr,
}
use czx.Base.Dict.{Dict, lookup, is_some}
use czx.Container.Queue.{Recycler}
use czx.Container.CMap.{CMap, get, has_key, set_key, visited, iterator, clear}
use czx.Container.CMap.Refine.{has_key-lookup, get-set_key, get-delete}
use czx.Frame.Manager.{LoopManager, new_manager, add, removed, remove, all_loops, stop, get_loop}

pub among : ℕ → List ℕ → Bool
among l [] = false
among l (k ∷ ks) = if k == l then true else among l ks

among-append : (l : ℕ) (a b : List ℕ) → among l (a ++ b) ≡ (among l a || among l b)
unfolding among
among-append l [] b = refl
among-append l (k ∷ a) b = ground (arith, among-append l a b)

-- A loop that was started was stopped, or stands in the map.
pub Covered : LoopManager → ℕ → Type 0
Covered lm l = (among l lm.stopped ≡ true) ⊎ ((id : String) × (get lm.loops id ≡ some l))

pub IsCovering : LoopManager → Type 0
IsCovering lm = (l : ℕ) → among l lm.started ≡ true → Covered lm l

no_key : (c : CMap String ℕ) (id : String) → has_key c id ≡ false → get c id ≡ none
no_key c id h = elim (Option-cases (get c id)) [
  | inl e ↦ e
  | inr (v, e) ↦ absurd (ground (arith, has_key-lookup c id, ap is_some e))
]

kept :
    (lm : LoopManager) (id key : String) (loop l : ℕ)
    → get lm.loops id ≡ none
    → get lm.loops key ≡ some l
    → get (set_key lm.loops id loop) key ≡ some l
kept lm id key loop l empty found = elim (Bool-cases (string_eq.beq id key)) [
  | inl same ↦
      let is : id ≡ key = ground (arith, eq_iff id key) in
      absurd (ground (arith, sym empty ∙ ap (get lm.loops) is ∙ found))
  | inr other ↦ get-set_key lm.loops id key loop ∙ rw other found
]

added : (lm : LoopManager) (id : String) (loop : ℕ) → get (set_key lm.loops id loop) id ≡ some loop
added lm id loop = get-set_key lm.loops id id loop ∙ rw ((eq_iff id id).1 refl) refl

among-last : (l k : ℕ) (ks : List ℕ) → among l (ks ++ (k ∷ [])) ≡ (among l ks || k == l)
unfolding among
among-last l k [] = ground arith
among-last l k (j ∷ ks) = ground (arith, among-last l k ks)

add-Covered :
    (lm : LoopManager) (id : String) (loop l : ℕ)
    → get lm.loops id ≡ none
    → IsCovering lm
    → among l (lm.started ++ (loop ∷ [])) ≡ true
    → Covered
        (record lm { loops = set_key lm.loops id loop; started = lm.started ++ (loop ∷ []) })
        l
unfolding IsCovering Covered
add-Covered lm id loop l empty c m = elim (Bool-cases (loop == l)) [
  | inl is ↦ let eq : loop ≡ l = ground arith in inr (id, added lm id loop ∙ ap some eq)
  | inr other ↦
      let old : among l lm.started ≡ true = ground (arith, among-last l loop lm.started) in
      elim (c l old) [
        | inl s ↦ inl s
        | inr (key, found) ↦ inr (key, kept lm id key loop l empty found)
      ]
]

add-IsCovering :
    (lm : LoopManager) (id : String) (loop : ℕ) → IsCovering lm → IsCovering ((add lm id loop).1)
unfolding add IsCovering
add-IsCovering lm id loop c = elim (Bool-cases (has_key lm.loops id)) [
  | inl h ↦ rw h c
  | inr h ↦ rw h (λ l m. add-Covered lm id loop l (no_key lm.loops id h) c m)
]

remove-Covered :
    (lm : LoopManager) (id : String) (loop l : ℕ)
    → get lm.loops id ≡ some loop
    → Covered lm l
    → Covered (removed lm id (some loop)) l
unfolding Covered
remove-Covered lm id loop l e (inl s) = inl (ground (arith, among-last l loop lm.stopped))
remove-Covered lm id loop l e (inr (key, found)) = elim (Bool-cases (string_eq.beq id key)) [
  | inl same ↦
      let is : id ≡ key = ground (arith, eq_iff id key) in
      let both : some loop ≡ some l = sym e ∙ ap (get lm.loops) is ∙ found in
      let eq : loop ≡ l = cc both in inl (ground (arith, among-last l loop lm.stopped))
  | inr other ↦ inr (key, get-delete lm.loops id key ∙ rw other found)
]

remove-IsCovering : (lm : LoopManager) (id : String) → IsCovering lm → IsCovering (remove lm id)
unfolding remove IsCovering
remove-IsCovering lm id c = elim (Option-cases (get lm.loops id)) [
  | inl e ↦ subst (λ t. IsCovering (removed lm id t)) (sym e) c
  | inr (loop, e) ↦
      subst (λ t. IsCovering (removed lm id t)) (sym e)
        (λ l m. remove-Covered lm id loop l e (c l m))
]

-- What a key finds is among the values that the iterator goes through.
among-visited :
    (id : String) (l : ℕ) (m : Dict String ℕ)
    → lookup id m ≡ some l
    → among l (map (λ (id, loop). loop) (visited (λ id loop. true) m)) ≡ true
unfolding among lookup visited
among-visited id l [] h = absurd (ground arith)
among-visited id l ((key, k) ∷ m) h = elim (Bool-cases (string_eq.beq key id)) [
  | inl same ↦ let is : k ≡ l = cc (rw same at h) in ground arith
  | inr other ↦ ground (arith, among-visited id l m (rw other at h))
]

-- The calls of a manager, each whole; a number names a loop.
pub data Call : Type 0 where
  adds : String → ℕ → Call
  removes : String → Call

abbrev pub run_from : LoopManager → List Call → LoopManager
run_from lm [] = lm
run_from lm (adds id loop ∷ cs) = run_from ((add lm id loop).1) cs
run_from lm (removes id ∷ cs) = run_from (remove lm id) cs

run-IsCovering : (cs : List Call) (lm : LoopManager) → IsCovering lm → IsCovering (run_from lm cs)
run-IsCovering [] lm c = c
run-IsCovering (adds id loop ∷ cs) lm c =
    run-IsCovering cs ((add lm id loop).1) (add-IsCovering lm id loop c)
run-IsCovering (removes id ∷ cs) lm c = run-IsCovering cs (remove lm id) (remove-IsCovering lm id c)

stop-Covered : (lm : LoopManager) (l : ℕ) → Covered lm l → among l (stop lm).stopped ≡ true
unfolding Covered stop all_loops get iterator
stop-Covered lm l (inl s) = ground (
  arith,
  among-append l lm.stopped (map (λ (id, loop). loop) (visited (λ id loop. true) lm.loops.entries)),
)
stop-Covered lm l (inr (id, found)) = ground (
  arith,
  among-append l lm.stopped (map (λ (id, loop). loop) (visited (λ id loop. true) lm.loops.entries)),
  among-visited id l lm.loops.entries found,
)

new-IsCovering : (r : Recycler) → IsCovering (new_manager r)
unfolding IsCovering new_manager among
new-IsCovering r l m = absurd (ground arith)

-- After calls of Add and Remove on a new manager, none interleaved with another, Stop has stopped every
-- loop that Add ever started, now or in Remove, so that its wait for them can end; and it leaves no loop
-- behind a name.
pub stops_all :
    (r : Recycler) (cs : List Call)
    → ((l : ℕ)
        → among l (stop (run_from (new_manager r) cs)).started ≡ true
        → among l (stop (run_from (new_manager r) cs)).stopped ≡ true)
      × ((id : String) → get_loop (stop (run_from (new_manager r) cs)) id ≡ none)
unfolding IsCovering stop get_loop get clear lookup
stops_all r cs =
    let lm = run_from (new_manager r) cs in
    (
      λ l m. stop-Covered lm l (run-IsCovering cs (new_manager r) (new-IsCovering r) l m),
      λ id. refl,
    )
