-- ===== src/Linux/ProcNet/Columns.antt =====
-- The words of a line of /proc/net/tcp in their columns, and what the splitting of `ParseTCPFile` finds.
use angellab.Prelude.{
  ℕ, suc, zero, ◌<◌, ◌≡◌, ◌≢◌, refl, sym, ap, ◌∙◌, false, List, [], ◌∷◌, ◌++◌, arith, All,
  All-append, All-map, length, replicate,
}
use mathlib.Core.List.{append-nil}
use angellab.Linux.ProcNet.{is_blank, cons_if_some, words}

-- neither a separator nor the end of a line
abbrev pub IsText : ℕ → Type 0
IsText c = (is_blank c ≡ false) × (c ≢ 10)

abbrev pub IsWord : List ℕ → Type 0
IsWord w = All IsText w × (0 < length w)

-- Words in their columns: behind the k-th word one blank and `gaps k` more, behind the last one
-- `trailing` blanks.
abbrev pub unwords : ℕ → (ℕ → ℕ) → List (List ℕ) → List ℕ
unwords trailing gaps [] = []
unwords trailing gaps (w ∷ []) = w ++ replicate trailing 32
unwords trailing gaps (w ∷ v ∷ ws) =
    w ++ 32 ∷ (replicate (gaps 0) 32 ++ unwords trailing (λ k. gaps (suc k)) (v ∷ ws))

pub append_assoc : (xs ys zs : List ℕ) → (xs ++ ys) ++ zs ≡ xs ++ (ys ++ zs)
append_assoc [] ys zs = refl
append_assoc (x ∷ xs) ys zs = ap (◌∷◌ x) (append_assoc xs ys zs)

words-blank :
    (acc w rest : List ℕ)
    → All IsText w
    → words acc (w ++ 32 ∷ rest) ≡ cons_if_some (acc ++ w) (words [] rest)
unfolding words
words-blank acc [] rest h = ap (λ v. cons_if_some v (words [] rest)) (sym (append-nil acc))
words-blank acc (c ∷ w) rest ((visible, _), h) =
    rw visible (words-blank (acc ++ c ∷ []) w rest h)
    ∙ ap (λ v. cons_if_some v (words [] rest)) (append_assoc acc (c ∷ []) w)

words-end : (acc w : List ℕ) → All IsText w → words acc w ≡ cons_if_some (acc ++ w) []
unfolding words
words-end acc [] h = ap (λ v. cons_if_some v []) (sym (append-nil acc))
words-end acc (c ∷ w) ((visible, _), h) =
    rw visible (words-end (acc ++ c ∷ []) w h)
    ∙ ap (λ v. cons_if_some v []) (append_assoc acc (c ∷ []) w)

cons_word : (w : List ℕ) (ws : List (List ℕ)) → 0 < length w → cons_if_some w ws ≡ w ∷ ws
cons_word [] ws h = absurd (omega (arith, h))
cons_word (c ∷ w) ws h = refl

pub words-indent : (n : ℕ) (s : List ℕ) → words [] (replicate n 32 ++ s) ≡ words [] s
unfolding words
words-indent zero s = refl
words-indent (suc n) s = words-indent n s

words-blanks : (n : ℕ) → words [] (replicate n 32) ≡ []
unfolding words
words-blanks zero = refl
words-blanks (suc n) = words-blanks n

words-trailing :
    (w : List ℕ) (n : ℕ) → All IsText w → words [] (w ++ replicate n 32) ≡ cons_if_some w []
words-trailing w zero h = ap (words []) (append-nil w) ∙ words-end [] w h
words-trailing w (suc n) h =
    words-blank [] w (replicate n 32) h ∙ ap (cons_if_some w) (words-blanks n)

pub words-unwords :
    (trailing : ℕ) (gaps : ℕ → ℕ) (ws : List (List ℕ))
    → All IsWord ws
    → words [] (unwords trailing gaps ws) ≡ ws
words-unwords trailing gaps [] h = unfold words in refl
words-unwords trailing gaps (w ∷ []) ((text, filled), h) =
    words-trailing w trailing text ∙ cons_word w [] filled
words-unwords trailing gaps (w ∷ v ∷ ws) ((text, filled), h) =
    let later : ℕ → ℕ = λ k. gaps (suc k) in
    let rest = unwords trailing later (v ∷ ws) in
    words-blank [] w (replicate (gaps 0) 32 ++ rest) text
    ∙ ap (cons_if_some w) (words-indent (gaps 0) rest)
    ∙ cons_word w (words [] rest) filled
    ∙ ap (◌∷◌ w) (words-unwords trailing later (v ∷ ws) h)

abbrev pub IsInLine : ℕ → Type 0
IsInLine c = c ≢ 10

pub blanks-All : (n : ℕ) → All IsInLine (replicate n 32)
blanks-All zero = tt
blanks-All (suc n) = ((λ e. cc), blanks-All n)

word-All : (w : List ℕ) → All IsText w → All IsInLine w
word-All w text = All-map IsText IsInLine w (λ c t. t.1) text

pub unwords-All :
    (trailing : ℕ) (gaps : ℕ → ℕ) (ws : List (List ℕ))
    → All IsWord ws
    → All IsInLine (unwords trailing gaps ws)
unwords-All trailing gaps [] h = tt
unwords-All trailing gaps (w ∷ []) ((text, _), h) =
    All-append IsInLine w _ (word-All w text) (blanks-All trailing)
unwords-All trailing gaps (w ∷ v ∷ ws) ((text, _), h) = All-append IsInLine w _ (word-All w text) (
  (λ e. cc),
  All-append IsInLine (replicate (gaps 0) 32) _ (blanks-All (gaps 0))
      (unwords-All trailing (λ k. gaps (suc k)) (v ∷ ws) h),
)
