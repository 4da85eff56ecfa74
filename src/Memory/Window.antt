-- ===== src/Memory/Window.antt =====
-- The circular buffer against the list of all samples.
use angellab.Prelude.{
  ℕ, suc, zero, ◌+◌, ◌-◌, ◌%◌, ◌≤◌, ◌<◌, ◌≡◌, ◌≢◌, refl, sym, ap, ◌∙◌, min, true, false, List, [],
  ◌∷◌, ◌++◌, arith, Bool-cases, inl, inr, ltb, leb, nat_beq, if◌then◌else◌, length, length-append,
  length-set, length-replicate, get_or, get_or-set_self, get_or-set_ne, replicate,
}
use mathlib.Core.List.{append-nil}
use mathlib.Core.Path.{subst}
use native.Mathlib.Nat.{mod-lt, mod-add-mod, mod-eq_of_lt, mod-eq-sub-mod}
use angellab.Memory.{RssSample, RssWindow, zero_sample, new_rss_window, add, full, oldest, newest}

-- two numbers less than a period apart stand in different slots
slots_apart : (places i n : ℕ) → 0 < places → i < n → n < i + places → n % places ≢ i % places
slots_apart places i n some_room less near same =
    let low = mod-lt i some_room in
    let step : (i % places + (n - i)) % places ≡ n % places =
      mod-add-mod i places (n - i) ∙ ap (λ m. m % places) (omega arith) in
    elim (Bool-cases (ltb (i % places + (n - i)) places)) [
      | inl fits ↦
          absurd (ground (arith, step, same, mod-eq_of_lt {n = i % places + (n - i)} {m = places}))
      | inr wraps ↦
          let back : (i % places + (n - i)) % places ≡ i % places + (n - i) - places =
            mod-eq-sub-mod {n = i % places + (n - i)} {m = places} (ground arith)
            ∙ mod-eq_of_lt (omega (arith, low)) in
          absurd (ground (arith, step, same, back, low))
    ]

get_or-append :
    (xs : List RssSample) (s d : RssSample) (i : ℕ)
    → get_or (xs ++ s ∷ []) i d
      ≡ (if ltb i (length xs) then get_or xs i d else if nat_beq i (length xs) then s else d)
get_or-append [] s d zero = refl
get_or-append [] s d (suc i) = ground arith
get_or-append (x ∷ xs) s d zero = ground arith
get_or-append (x ∷ xs) s d (suc i) = ground (arith, get_or-append xs s d i)

get_or-replicate : (n i : ℕ) (d : RssSample) → get_or (replicate n d) i d ≡ d
get_or-replicate zero i d = refl
get_or-replicate (suc n) zero d = refl
get_or-replicate (suc n) (suc i) d = get_or-replicate n i d

get_or-nil : (xs : List RssSample) (i : ℕ) → length xs ≡ 0 → get_or xs i zero_sample ≡ zero_sample
get_or-nil [] i e = refl
get_or-nil (x ∷ xs) i e = absurd (omega (arith, e))

-- The window that has seen `xs` holds the last `places` of them.
record Holds (places : ℕ) (xs : List RssSample) (w : RssWindow) : Type 0 where
  slots : length w.samples ≡ places
  head_at : w.head ≡ length xs
  size_is : w.size ≡ min places (length xs)
  held :
      (i : ℕ)
      → i < length xs
      → length xs ≤ i + places
      → get_or w.samples (i % places) zero_sample ≡ get_or xs i zero_sample
  fresh : length xs ≡ 0 → get_or w.samples 0 zero_sample ≡ zero_sample

new-Holds : (places : ℕ) → Holds places [] (new_rss_window places)
new-Holds places = record {
  slots = length-replicate places zero_sample;
  head_at = refl;
  size_is = omega arith;
  held = λ i less near. absurd (omega (arith, less));
  fresh = λ e. get_or-replicate places 0 zero_sample;
}

add-Holds :
    (places : ℕ) (xs : List RssSample) (w : RssWindow) (s : RssSample)
    → 0 < places
    → Holds places xs w
    → Holds places (xs ++ s ∷ []) (add s w)
unfolding add
add-Holds places xs w s room h =
    let at : w.head % length w.samples ≡ length xs % places = rw (h.head_at, h.slots) refl in
    let grown = length-append xs (s ∷ []) in
    record {
      slots = length-set w.samples _ s ∙ h.slots;
      head_at = omega (arith, h.head_at, grown);
      size_is = ground (arith, h.size_is, h.slots, grown);
      held = λ i less near. elim (Bool-cases (ltb i (length xs))) [
        | inl older ↦
            let apart =
              slots_apart places i (length xs) room (ground arith) (omega (arith, near, grown)) in
            rw (at, get_or-append xs s zero_sample i, older)
              (get_or-set_ne w.samples (length xs % places) (i % places) s zero_sample apart
                ∙ h.held i (ground arith) (omega (arith, near, grown)))
        | inr last ↦
            let here : i ≡ length xs = ground (arith, less, grown) in
            rw (at, get_or-append xs s zero_sample i, last, here)
              (get_or-set_self w.samples (length xs % places) s zero_sample
                  (ground (arith, mod-lt (length xs) room, h.slots))
                ∙ ground arith)
      ];
      fresh = λ e. absurd (omega (arith, grown, e));
    }

unfoldable pub add_all : List RssSample → RssWindow → RssWindow
add_all [] w = w
add_all (s ∷ rest) w = add_all rest (add s w)

append_assoc : (xs ys zs : List RssSample) → (xs ++ ys) ++ zs ≡ xs ++ (ys ++ zs)
append_assoc [] ys zs = refl
append_assoc (x ∷ xs) ys zs = ap (◌∷◌ x) (append_assoc xs ys zs)

add_all-Holds :
    (places : ℕ) (ys xs : List RssSample) (w : RssWindow)
    → 0 < places
    → Holds places xs w
    → Holds places (xs ++ ys) (add_all ys w)
unfolding add_all
add_all-Holds places [] xs w room h = subst (λ l. Holds places l w) (sym (append-nil xs)) h
add_all-Holds places (s ∷ rest) xs w room h =
    rw⁻¹ (append_assoc xs (s ∷ []) rest)
      (add_all-Holds places rest (xs ++ s ∷ []) (add s w) room (add-Holds places xs w s room h))

-- What a window shows of the samples it has seen.
pub record Shows (places : ℕ) (xs : List RssSample) (w : RssWindow) : Type 0 where
  pub filled : full w ≡ leb places (length xs)
  pub last : newest w ≡ get_or xs (length xs - 1) zero_sample
  pub first : oldest w ≡ get_or xs (length xs - places) zero_sample

module _ (places : ℕ) (xs : List RssSample) (w : RssWindow) (room : 0 < places)
    (h : Holds places xs w) where
  newest_held : newest w ≡ get_or xs (length xs - 1) zero_sample
  unfolding newest
  newest_held = elim (Bool-cases (nat_beq (length xs) 0)) [
    | inl nothing ↦ ground (arith, h.size_is, no_samples)
    | inr some_samples ↦
        let place : (length xs + places - 1) % places ≡ (length xs - 1) % places =
          mod-eq-sub-mod {n = length xs + places - 1} {m = places} (ground arith)
          ∙ ap (λ m. m % places) (ground arith) in
        let not_empty : nat_beq w.size 0 ≡ false = ground (arith, h.size_is) in
        rw (not_empty, h.head_at, h.slots, place)
          (h.held (length xs - 1) (ground arith) (ground arith))
  ]
    where
      no_samples : length xs ≡ 0 → get_or xs (length xs - 1) zero_sample ≡ zero_sample
      no_samples e = get_or-nil xs (length xs - 1) e

  oldest_held : oldest w ≡ get_or xs (length xs - places) zero_sample
  unfolding oldest
  oldest_held = elim (Bool-cases (ltb (length xs) places)) [
    | inl partial ↦
        let fits : ltb w.size (length w.samples) ≡ true = ground (arith, h.size_is, h.slots) in
        let start : length xs - places ≡ 0 = ground arith in
        rw (fits, start)
          (elim (Bool-cases (nat_beq (length xs) 0)) [
            | inl nothing ↦ h.fresh (ground arith) ∙ sym (get_or-nil xs 0 (ground arith))
            | inr some_samples ↦
                ap (λ i. get_or w.samples i zero_sample) (sym (mod-eq_of_lt {n = 0} room))
                ∙ h.held 0 (ground arith) (ground arith)
          ])
    | inr wrapped ↦
        let fits : ltb w.size (length w.samples) ≡ false = ground (arith, h.size_is, h.slots) in
        let place : length xs % places ≡ (length xs - places) % places =
          mod-eq-sub-mod {n = length xs} {m = places} (ground arith) in
        rw (fits, h.head_at, h.slots, place)
          (h.held (length xs - places) (ground arith) (ground arith))
  ]

-- After any samples a window of `places` slots is full when there were at least `places` of them; its
-- newest sample is the last one, and its oldest the `places`-th from the end, or the first while there
-- are fewer.
pub add_all-Shows :
    (places : ℕ) (xs : List RssSample)
    → 0 < places
    → Shows places xs (add_all xs (new_rss_window places))
unfolding full
add_all-Shows places xs room =
    let w = add_all xs (new_rss_window places) in
    let h = add_all-Holds places xs [] (new_rss_window places) room (new-Holds places) in
    record {
      filled = ground (arith, h.size_is, h.slots);
      last = newest_held places xs w room h;
      first = oldest_held places xs w room h;
    }
