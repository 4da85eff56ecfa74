-- ===== src/Registry/Recent.antt =====
-- `ListEvents` against its promise: the n most recent events of the angel.
use angellab.Prelude.{
  ℕ, ◌+◌, ◌≤◌, ◌≡◌, List, [], ◌∷◌, ◌++◌, arith, min, All, drop, length, length-take,
  take-append-drop,
}
use angellab.Prelude.Sort.{sort_by, IsSorted, sort_by-IsSorted, sort_by-Perm}
use angellab.Registry.{Registry, Event, AngelId, events_of, list_events, reverse_onto}
use mathlib.Core.List.{Perm, perm_middle, append-nil}
use mathlib.Core.List.Perm

-- The newest comes first.
abbrev pub IsNewestFirst : List Event → Type 0
IsNewestFirst [] = Unit
IsNewestFirst (e ∷ es) = All (λ f. f.occurred_at ≤ e.occurred_at) es × IsNewestFirst es

abbrev time : Event → ℕ
time e = e.occurred_at

reverse_onto-Perm : (xs acc : List Event) → Perm (reverse_onto xs acc) (xs ++ acc)
reverse_onto-Perm [] acc = Perm.refl _
reverse_onto-Perm (x ∷ xs) acc = Perm.trans (reverse_onto-Perm xs (x ∷ acc)) (perm_middle xs acc)

All-zip :
    {P Q R : Event → Type 0} (xs : List Event)
    → ((e : Event) → P e → Q e → R e)
    → All P xs
    → All Q xs
    → All R xs
All-zip [] f ps qs = tt
All-zip (x ∷ xs) f (p, ps) (q, qs) = (f x p q, All-zip xs f ps qs)

reverse_onto-IsNewestFirst :
    (xs acc : List Event)
    → IsSorted time xs
    → IsNewestFirst acc
    → All (λ x. All (λ y. time y ≤ time x) acc) xs
    → IsNewestFirst (reverse_onto xs acc)
reverse_onto-IsNewestFirst [] acc sorted down below = down
reverse_onto-IsNewestFirst (x ∷ xs) acc (low, sorted) down (here, below) =
    reverse_onto-IsNewestFirst xs (x ∷ acc) sorted (here, down)
      (All-zip xs (λ e p q. (p, q)) low below)

All-none : (xs : List Event) → All (λ x. Unit {0}) xs
All-none [] = tt
All-none (x ∷ xs) = (tt, All-none xs)

length-reverse_onto : (xs acc : List Event) → length (reverse_onto xs acc) ≡ length xs + length acc
length-reverse_onto [] acc = omega arith
length-reverse_onto (x ∷ xs) acc = omega (arith, length-reverse_onto xs (x ∷ acc))

-- What it is for `listed` to be the `n` most recent of `events`: with the others behind them they
-- are those events, newest first.
pub record AreMostRecent (n : ℕ) (listed events : List Event) : Type 0 where
  pub others : List Event
  pub same : Perm (listed ++ others) events
  pub ordered : IsNewestFirst (listed ++ others)
  pub count : length listed ≡ min n (length (listed ++ others))

-- The answer of `ListEvents` is the `n` most recent events of the angel, or all when there are
-- fewer; of all angels for an empty id.
pub list_events-AreMostRecent :
    (id : AngelId) (n : ℕ) (r : Registry)
    → AreMostRecent n (list_events id n r) (events_of id r.events)
unfolding list_events
list_events-AreMostRecent id n r =
    let s = sort_by time (events_of id r.events) in
    let down = reverse_onto s [] in
    let whole = take-append-drop n down in
    record {
      others = drop n down;
      same = rw whole (
          Perm.trans (reverse_onto-Perm s [])
            (rw (append-nil s) (sort_by-Perm time (events_of id r.events))));
      ordered = rw whole (
          reverse_onto-IsNewestFirst s [] (sort_by-IsSorted time (events_of id r.events)) tt
            (All-none s));
      count = rw whole (length-take n down);
    }
