-- ===== src/Prelude/Text/Fields.antt =====
-- Words that are written with blanks between them, and what `fields` and the trims read back.
use Prim.Native.Nat.{ℕ, ◌<◌}
use mathlib.Core.Path.{◌≡◌, refl, sym, ap, ◌∙◌}
use mathlib.Core.Bool.{false}
use mathlib.Core.List.{List, [], ◌∷◌, ◌++◌, append-nil, append_assoc}
use native.Mathlib.Omega.{arith}
use angellab.Prelude.Lists.{All, length}
use angellab.Prelude.Text.{
  Text, is_space, cons_word, fields_from, fields, unwords, trim_left, trim_right, trim_space,
}

abbrev pub IsInk : ℕ → Type 0
IsInk c = is_space c ≡ false

abbrev pub IsWord : Text → Type 0
IsWord w = All IsInk w × (0 < length w)

fields_from-blank :
    (acc w rest : Text)
    → All IsInk w
    → fields_from acc (w ++ 32 ∷ rest) ≡ cons_word (acc ++ w) (fields_from [] rest)
unfolding fields_from
fields_from-blank acc [] rest h = ap (λ v. cons_word v (fields_from [] rest)) (sym (append-nil acc))
fields_from-blank acc (c ∷ w) rest (ink, h) =
    rw ink (fields_from-blank (acc ++ c ∷ []) w rest h)
    ∙ ap (λ v. cons_word v (fields_from [] rest)) (append_assoc acc (c ∷ []) w)

fields_from-end : (acc w : Text) → All IsInk w → fields_from acc w ≡ cons_word (acc ++ w) []
unfolding fields_from
fields_from-end acc [] h = ap (λ v. cons_word v []) (sym (append-nil acc))
fields_from-end acc (c ∷ w) (ink, h) =
    rw ink (fields_from-end (acc ++ c ∷ []) w h)
    ∙ ap (λ v. cons_word v []) (append_assoc acc (c ∷ []) w)

cons_word-filled : (w : Text) (ws : List Text) → 0 < length w → cons_word w ws ≡ w ∷ ws
cons_word-filled [] ws h = absurd (omega (arith, h))
cons_word-filled (c ∷ w) ws h = refl

fields_from-unwords : (ws : List Text) → All IsWord ws → fields_from [] (unwords ws) ≡ ws
fields_from-unwords [] h = unfold fields_from in refl
fields_from-unwords (w ∷ []) ((ink, filled), h) =
    fields_from-end [] w ink ∙ cons_word-filled w [] filled
fields_from-unwords (w ∷ v ∷ ws) ((ink, filled), h) =
    fields_from-blank [] w (unwords (v ∷ ws)) ink
    ∙ cons_word-filled w (fields_from [] (unwords (v ∷ ws))) filled
    ∙ ap (◌∷◌ w) (fields_from-unwords (v ∷ ws) h)

pub fields-unwords : (ws : List Text) → All IsWord ws → fields (unwords ws) ≡ ws
unfolding fields
fields-unwords ws h = fields_from-unwords ws h

-- a blank in front
pub fields-blank : (ws : List Text) → All IsWord ws → fields (32 ∷ unwords ws) ≡ ws
unfolding fields fields_from
fields-blank ws h = fields_from-unwords ws h

trim_right-ink : (c : ℕ) (s : Text) → IsInk c → trim_right (c ∷ s) ≡ c ∷ trim_right s
unfolding trim_right
trim_right-ink c s ink = ground (arith, ink)

trim_right-word : (w : Text) → All IsInk w → trim_right w ≡ w
trim_right-word [] h = unfold trim_right in refl
trim_right-word (c ∷ w) (ink, h) = trim_right-ink c w ink ∙ ap (◌∷◌ c) (trim_right-word w h)

trim_right-blank : (w : Text) → All IsInk w → trim_right (w ++ 32 ∷ []) ≡ w
trim_right-blank [] h = unfold trim_right in refl
trim_right-blank (c ∷ w) (ink, h) =
    trim_right-ink c (w ++ 32 ∷ []) ink ∙ ap (◌∷◌ c) (trim_right-blank w h)

trim_left-word : (w : Text) → All IsInk w → trim_left w ≡ w
unfolding trim_left
trim_left-word [] h = refl
trim_left-word (c ∷ w) (ink, h) = ground (arith, ink)

pub trim_space-word : (w : Text) → All IsInk w → trim_space w ≡ w
unfolding trim_space
trim_space-word w h = ap trim_left (trim_right-word w h) ∙ trim_left-word w h

-- a blank behind
pub trim_space-blank : (w : Text) → All IsInk w → trim_space (w ++ 32 ∷ []) ≡ w
unfolding trim_space
trim_space-blank w h = ap trim_left (trim_right-blank w h) ∙ trim_left-word w h
