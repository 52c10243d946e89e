-- ===== src/EventBus/Subject.antt =====
-- eventbus/observer.go: a subject with its observers by their names. An observer is the caller's; its name
-- is the function `name`.
use Prim.Native.String.{String}
use czx.Base.{
  ℕ, ◌≡◌, refl, ap, ◌∙◌, List, [], ◌∷◌, Option, none, some, if◌then◌else◌, length, map, string_eq,
}
use czx.Base.Dict.{
  Dict, lookup, insert, erase, lookup-insert, lookup-erase, IsDict, insert-IsDict, erase-IsDict,
}

pub record Subject (O : Type 0) : Type 0 where
  pub observers : Dict String O

pub data SubjectCall (O : Type 0) : Type 0 where
  subscribes unsubscribes : O → SubjectCall O

module _ {O : Type 0} (name : O → String) where
  pub new_subject : Subject O
  new_subject = record { observers = [] }

  pub count_observers : Subject O → ℕ
  count_observers s = length s.observers

  -- The observers whose OnNotify is called, outside of the lock.
  pub notify : Subject O → List O
  notify s = map (λ (n, o). o) s.observers

  pub subscribe_observer : Subject O → O → Subject O
  subscribe_observer s o = record { observers = insert (name o) o s.observers }

  pub unsubscribe_observer : Subject O → O → Subject O
  unsubscribe_observer s o = record { observers = erase (name o) s.observers }

  abbrev pub run_subject : Subject O → List (SubjectCall O) → Subject O
  run_subject s [] = s
  run_subject s (subscribes o ∷ cs) = run_subject (subscribe_observer s o) cs
  run_subject s (unsubscribes o ∷ cs) = run_subject (unsubscribe_observer s o) cs

  -- The last of the calls that concerns a name decides, else what stood there before.
  abbrev pub decided : Option O → String → List (SubjectCall O) → Option O
  decided before n [] = before
  decided before n (subscribes o ∷ cs) =
      decided (if string_eq.beq (name o) n then some o else before) n cs
  decided before n (unsubscribes o ∷ cs) =
      decided (if string_eq.beq (name o) n then none else before) n cs

  -- After any calls the observer of a name is the one of the last Subscribe with that name, and there is
  -- none after an Unsubscribe with it.
  pub run_subject-observers :
      (cs : List (SubjectCall O)) (s : Subject O) (n : String)
      → lookup n (run_subject s cs).observers ≡ decided (lookup n s.observers) n cs
  unfolding subscribe_observer unsubscribe_observer
  run_subject-observers [] s n = refl
  run_subject-observers (subscribes o ∷ cs) s n =
      run_subject-observers cs (subscribe_observer s o) n
      ∙ ap (λ t. decided t n cs) (lookup-insert (name o) n o s.observers)
  run_subject-observers (unsubscribes o ∷ cs) s n =
      run_subject-observers cs (unsubscribe_observer s o) n
      ∙ ap (λ t. decided t n cs) (lookup-erase (name o) n s.observers)

  -- No name has two observers, so Notify calls each name's observer once.
  pub run_subject-IsDict :
      (cs : List (SubjectCall O)) (s : Subject O)
      → IsDict s.observers
      → IsDict (run_subject s cs).observers
  unfolding subscribe_observer unsubscribe_observer
  run_subject-IsDict [] s d = d
  run_subject-IsDict (subscribes o ∷ cs) s d =
      run_subject-IsDict cs (subscribe_observer s o) (insert-IsDict (name o) o s.observers d)
  run_subject-IsDict (unsubscribes o ∷ cs) s d =
      run_subject-IsDict cs (unsubscribe_observer s o) (erase-IsDict (name o) s.observers d)
