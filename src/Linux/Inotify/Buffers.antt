-- ===== src/Linux/Inotify/Buffers.antt =====
-- A buffer as the kernel fills it is read as its events.
use angellab.Prelude.{
  ℕ, zero, suc, ◌/◌, ◌%◌, ◌^◌, ◌≤◌, ◌<◌, ◌≡◌, refl, sym, ap, ◌∙◌, false, Option, none, some, List,
  [], ◌∷◌, ◌++◌, arith, inl, inr, Bool-cases, if◌then◌else◌, length, length-append, ltb, nat_beq,
  replicate, take, drop, map, All, bytes_eq, nat_eq, ◌==◌,
}
use mathlib.Core.Path.{subst}
use mathlib.Core.List.{append-nil, append_assoc}
use angellab.Prelude.Map.{Map, lookup}
use angellab.Prelude.Text.{Text}
use angellab.Linux.Inotify.{
  InotifyEvent, Watcher, event_size, uint32_le, cut, trimmed, trim_nul, deliver, notify, take_name,
  take_event, then_rest, parse_from, parse_events, path,
}

-- what the kernel writes: the name is padded with zero bytes
pub record RawEvent : Type 0 where
  pub wd : ℕ
  pub mask : ℕ
  pub cookie : ℕ
  pub name : Text
  pub padding : ℕ

abbrev pub put_le : ℕ → List ℕ
put_le n = n % 256 ∷ n / 2 ^ 8 % 256 ∷ n / 2 ^ 16 % 256 ∷ n / 2 ^ 24 % 256 ∷ []

abbrev pub name_bytes : RawEvent → List ℕ
name_bytes e = e.name ++ replicate e.padding 0

abbrev pub raw_bytes : RawEvent → List ℕ
raw_bytes e =
    put_le e.wd
    ++ (put_le e.mask ++ (put_le e.cookie ++ (put_le (length (name_bytes e)) ++ name_bytes e)))

abbrev pub IsInName : ℕ → Type 0
IsInName c = nat_beq c 0 ≡ false

-- fields of 32 bits, and a name without zero bytes
pub record IsRaw (e : RawEvent) : Type 0 where
  pub wd_fits : e.wd < 2 ^ 32
  pub mask_fits : e.mask < 2 ^ 32
  pub name_fits : length (name_bytes e) < 2 ^ 32
  pub name_plain : All IsInName e.name

uint32_le-put : (n : ℕ) → n < 2 ^ 32 → uint32_le (put_le n) ≡ n
uint32_le-put n fits = omega (arith, fits)

cut-append : (xs ys : List ℕ) → cut (length xs) (xs ++ ys) ≡ some (xs, ys)
unfolding cut
cut-append [] ys = refl
cut-append (x ∷ xs) ys = rw (cut-append xs ys) refl

trim_nul-zeros : (n : ℕ) → trim_nul (replicate n 0) ≡ []
unfolding trim_nul
trim_nul-zeros zero = refl
trim_nul-zeros (suc n) = rw (trim_nul-zeros n) refl

trimmed-plain : (c : ℕ) (cs : Text) → IsInName c → trimmed c cs ≡ c ∷ cs
trimmed-plain c [] plain = rw plain refl
trimmed-plain c (d ∷ cs) plain = refl

trim_nul-padded :
    (name : Text) (n : ℕ) → All IsInName name → trim_nul (name ++ replicate n 0) ≡ name
unfolding trim_nul
trim_nul-padded [] n h = trim_nul-zeros n
trim_nul-padded (c ∷ cs) n (plain, h) =
    ap (trimmed c) (trim_nul-padded cs n h) ∙ trimmed-plain c cs plain

take_event-raw :
    (w : Watcher) (e : RawEvent) (rest : List ℕ)
    → IsRaw e
    → take_event w (raw_bytes e ++ rest)
      ≡ some (notify (lookup e.wd w.watches) e.name e.mask w, rest)
take_event-raw w e rest h =
    ap
      (λ wd.
        take_name w wd (uint32_le (put_le e.mask))
          (cut (uint32_le (put_le (length (name_bytes e)))) (name_bytes e ++ rest)))
      (uint32_le-put e.wd h.wd_fits)
    ∙ ap
        (λ m.
          take_name w e.wd m
            (cut (uint32_le (put_le (length (name_bytes e)))) (name_bytes e ++ rest)))
        (uint32_le-put e.mask h.mask_fits)
    ∙ ap (λ n. take_name w e.wd e.mask (cut n (name_bytes e ++ rest)))
        (uint32_le-put (length (name_bytes e)) h.name_fits)
    ∙ ap (λ o. take_name w e.wd e.mask o) (cut-append (name_bytes e) rest)
    ∙ ap (λ (t : Text). some (notify (lookup e.wd w.watches) t e.mask w, rest))
        (trim_nul-padded e.name e.padding h.name_plain)

abbrev pub buffer : List RawEvent → List ℕ
buffer [] = []
buffer (e ∷ es) = raw_bytes e ++ buffer es

unfoldable pub notify_all : List RawEvent → Watcher → Watcher
notify_all [] w = w
notify_all (e ∷ es) w = notify_all es (notify (lookup e.wd w.watches) e.name e.mask w)

length-raw_bytes : (e : RawEvent) (rest : List ℕ) → 16 ≤ length (raw_bytes e ++ rest)
length-raw_bytes e rest = omega (arith, length-append (name_bytes e) rest)

shorter-raw_bytes : (e : RawEvent) (rest : List ℕ) → length rest < length (raw_bytes e ++ rest)
shorter-raw_bytes e rest = omega (arith, length-append (name_bytes e) rest)

parse_from-raw :
    (fuel : ℕ) (es : List RawEvent) (w : Watcher)
    → All IsRaw es
    → length (buffer es) < fuel
    → parse_from fuel (buffer es) w ≡ some (notify_all es w)
unfolding parse_from notify_all
parse_from-raw zero es w h enough = absurd (omega (arith, enough))
parse_from-raw (suc fuel) [] w h enough = refl
parse_from-raw (suc fuel) (e ∷ es) w (raw, h) enough =
    let whole : ltb (length (raw_bytes e ++ buffer es)) event_size ≡ false =
      ground (arith, length-raw_bytes e (buffer es)) in
    let w' = notify (lookup e.wd w.watches) e.name e.mask w in
    ap
      (λ b.
        if b
        then some w
        else then_rest (take_event w (raw_bytes e ++ buffer es)) (λ v rest. parse_from fuel rest v))
      whole
    ∙ ap (λ o. then_rest o (λ v rest. parse_from fuel rest v)) (take_event-raw w e (buffer es) raw)
    ∙ parse_from-raw fuel es w' h (omega (arith, enough, shorter-raw_bytes e (buffer es)))

abbrev pub event_of : Text → RawEvent → InotifyEvent
event_of p e = record { watch_path = p; name = e.name; mask = e.mask }

abbrev pub cons_event : Option Text → RawEvent → List InotifyEvent → List InotifyEvent
cons_event none e rest = rest
cons_event (some p) e rest = if p == [] then rest else event_of p e ∷ rest

-- the events whose descriptors have a path
abbrev pub seen : Map ℕ Text → List RawEvent → List InotifyEvent
seen watches [] = []
seen watches (e ∷ es) = cons_event (lookup e.wd watches) e (seen watches es)

take-nil : (n : ℕ) → take {A = InotifyEvent} n [] ≡ []
take-nil zero = refl
take-nil (suc n) = refl

drop-nil : (n : ℕ) → drop {A = InotifyEvent} n [] ≡ []
drop-nil zero = refl
drop-nil (suc n) = refl

-- what a watcher has after some more events
pub record HasSeen (w w' : Watcher) (new : List InotifyEvent) : Type 0 where
  pub delivered : w'.events ≡ w.events ++ take w.room new
  pub dropped : w'.errors ≡ w.errors ++ map path (drop w.room new)
  pub kept : w'.watches ≡ w.watches

deliver-HasSeen :
    (n : ℕ) (ev : InotifyEvent) (new : List InotifyEvent) (w w' : Watcher)
    → HasSeen (deliver ev (record w { room = n })) w' new
    → HasSeen (record w { room = n }) w' (ev ∷ new)
unfolding deliver
deliver-HasSeen zero ev new w w' h = record {
  delivered = h.delivered;
  dropped = h.dropped ∙ append_assoc w.errors (path ev ∷ []) (map path new);
  kept = h.kept;
}
deliver-HasSeen (suc n) ev new w w' h = record {
  delivered = h.delivered ∙ append_assoc w.events (ev ∷ []) (take n new);
  dropped = h.dropped;
  kept = h.kept;
}

notify-HasSeen :
    (o : Option Text) (e : RawEvent) (new : List InotifyEvent) (w w' : Watcher)
    → HasSeen (notify o e.name e.mask w) w' new
    → HasSeen w w' (cons_event o e new)
unfolding notify
notify-HasSeen none e new w w' h = h
notify-HasSeen (some p) e new w w' h = elim (Bool-cases (p == [])) [
  | inl empty ↦ rw empty (rw (notify, empty) at h)
  | inr there ↦ rw there (deliver-HasSeen w.room (event_of p e) new w w' (rw (notify, there) at h))
]

watches-deliver : (ev : InotifyEvent) (w : Watcher) → (deliver ev w).watches ≡ w.watches
unfolding deliver
watches-deliver ev w = ground arith

watches-notify :
    (o : Option Text) (name : Text) (mask : ℕ) (w : Watcher)
    → (notify o name mask w).watches ≡ w.watches
unfolding notify
watches-notify none name mask w = refl
watches-notify (some p) name mask w =
    ground (arith, watches-deliver (record { watch_path = p; name = name; mask = mask }) w)

notify_all-HasSeen :
    (es : List RawEvent) (w : Watcher) → HasSeen w (notify_all es w) (seen w.watches es)
unfolding notify_all
notify_all-HasSeen [] w = record {
  delivered = sym (append-nil w.events) ∙ ap (λ l. w.events ++ l) (sym (take-nil w.room));
  dropped = sym (append-nil w.errors) ∙ ap (λ l. w.errors ++ map path l) (sym (drop-nil w.room));
  kept = refl;
}
notify_all-HasSeen (e ∷ es) w =
    let o = lookup e.wd w.watches in
    let w1 = notify o e.name e.mask w in
    notify-HasSeen o e (seen w.watches es) w (notify_all es w1) (
      subst (λ m. HasSeen w1 (notify_all es w1) (seen m es)) (watches-notify o e.name e.mask w)
        (notify_all-HasSeen es w1))

-- A buffer that the kernel has filled is read without a panic, as its events in order: those whose
-- descriptors have a path go to the channel as far as there is room, the others of them become errors,
-- and the watches stay.
pub parse_events-HasSeen :
    (es : List RawEvent) (w : Watcher)
    → All IsRaw es
    → (w' : Watcher) × (parse_events (buffer es) w ≡ some w') × HasSeen w w' (seen w.watches es)
unfolding parse_events
parse_events-HasSeen es w h = (
  notify_all es w,
  parse_from-raw (suc (length (buffer es))) es w h (omega arith),
  notify_all-HasSeen es w,
)
