-- ===== src/Lab/Server/Cli/Answers.antt =====
-- The lists that the command line gives and gets: the paths between commas, and the angels in order.
use angellab.Prelude.{
  ℕ, ◌≡◌, refl, sym, ap, ◌∙◌, true, false, List, [], ◌∷◌, ◌++◌, arith, inl, inr, Bool-cases,
  nat_beq, All,
}
use mathlib.Core.List.{Perm, append_assoc}
use mathlib.Core.List.Perm
use angellab.Prelude.Text.{Text, text_lt}
use angellab.Lab.Server.{Server}
use angellab.Lab.Server.Cli.{AngelSummary, Daemon, accepted, listed, status, LabStatus}
use angellab.Lab.Server.Cli.Commands.{
  split_from, split_comma, insert_summary, sort_summaries, summaries, cli_angel_list,
  cli_lab_status,
}

-- each part, with a comma after it
abbrev pub ended : List Text → Text
ended [] = []
ended (w ∷ ws) = w ++ 44 ∷ ended ws

abbrev pub IsPlain : Text → Type 0
IsPlain w = All (λ c. nat_beq c 44 ≡ false) w

IsPlain-snoc : (w : Text) (c : ℕ) → IsPlain w → nat_beq c 44 ≡ false → IsPlain (w ++ c ∷ [])
IsPlain-snoc [] c h plain = (plain, tt)
IsPlain-snoc (d ∷ w) c (first, h) plain = (first, IsPlain-snoc w c h plain)

ended-split_from : (part cs : Text) → ended (split_from part cs) ≡ part ++ (cs ++ 44 ∷ [])
unfolding split_from
ended-split_from part [] = refl
ended-split_from part (c ∷ cs) = elim (Bool-cases (nat_beq c 44)) [
  | inl comma ↦
      let e : c ≡ 44 = ground (arith, comma) in
      rw comma (ap (λ t. part ++ 44 ∷ t) (ended-split_from [] cs))
      ∙ ap (λ k. part ++ k ∷ (cs ++ 44 ∷ [])) (sym e)
  | inr other ↦
      rw other (ended-split_from (part ++ c ∷ []) cs) ∙ append_assoc part (c ∷ []) (cs ++ 44 ∷ [])
]

split_from-IsPlain : (part cs : Text) → IsPlain part → All IsPlain (split_from part cs)
unfolding split_from
split_from-IsPlain part [] h = (h, tt)
split_from-IsPlain part (c ∷ cs) h = elim (Bool-cases (nat_beq c 44)) [
  | inl comma ↦ rw comma (h, split_from-IsPlain [] cs tt)
  | inr other ↦ rw other (split_from-IsPlain (part ++ c ∷ []) cs (IsPlain-snoc part c h other))
]

-- The parts of a text that is not empty have no comma in them, and each followed by a comma they are
-- the text with a comma at its end.
split_comma_parts :
    (c : ℕ) (cs : Text)
    → (ended (split_comma (c ∷ cs)) ≡ (c ∷ cs) ++ 44 ∷ []) × All IsPlain (split_comma (c ∷ cs))
unfolding split_comma
split_comma_parts c cs = (ended-split_from [] (c ∷ cs), split_from-IsPlain [] (c ∷ cs) tt)

text_lt-asym : (s t : Text) → text_lt s t ≡ true → text_lt t s ≡ false
unfolding text_lt
text_lt-asym s [] h = ground (arith, h)
text_lt-asym [] (d ∷ t) h = refl
text_lt-asym (c ∷ s) (d ∷ t) h = ground (arith, h, text_lt-asym s t)

-- no angel comes before one whose id is smaller
abbrev pub InOrder : List AngelSummary → Type 0
InOrder [] = Unit
InOrder (a ∷ []) = Unit
InOrder (a ∷ b ∷ rest) = (text_lt b.id a.id ≡ false) × InOrder (b ∷ rest)

insert_after-InOrder :
    (a p : AngelSummary) (rest : List AngelSummary)
    → InOrder (p ∷ rest)
    → text_lt a.id p.id ≡ false
    → InOrder (p ∷ insert_summary a rest)
unfolding insert_summary
insert_after-InOrder a p [] h below = (below, tt)
insert_after-InOrder a p (b ∷ rest) (first, h) below = elim (Bool-cases (text_lt b.id a.id)) [
  | inl later ↦ rw later (first, insert_after-InOrder a b rest h (text_lt-asym b.id a.id later))
  | inr here ↦ rw here (below, (here, h))
]

insert_summary-InOrder :
    (a : AngelSummary) (l : List AngelSummary) → InOrder l → InOrder (insert_summary a l)
unfolding insert_summary
insert_summary-InOrder a [] h = tt
insert_summary-InOrder a (b ∷ rest) h = elim (Bool-cases (text_lt b.id a.id)) [
  | inl later ↦ rw later (insert_after-InOrder a b rest h (text_lt-asym b.id a.id later))
  | inr here ↦ rw here (here, h)
]

insert_summary-Perm : (a : AngelSummary) (l : List AngelSummary) → Perm (insert_summary a l) (a ∷ l)
unfolding insert_summary
insert_summary-Perm a [] = Perm.refl _
insert_summary-Perm a (b ∷ rest) = elim (Bool-cases (text_lt b.id a.id)) [
  | inl later ↦
      rw later (Perm.trans (Perm.cons b (insert_summary-Perm a rest)) (Perm.swap a b rest))
  | inr here ↦ rw here (Perm.refl _)
]

sort_summaries-InOrder : (l : List AngelSummary) → InOrder (sort_summaries l)
unfolding sort_summaries
sort_summaries-InOrder [] = tt
sort_summaries-InOrder (a ∷ l) =
    insert_summary-InOrder a (sort_summaries l) (sort_summaries-InOrder l)

sort_summaries-Perm : (l : List AngelSummary) → Perm (sort_summaries l) l
unfolding sort_summaries
sort_summaries-Perm [] = Perm.refl _
sort_summaries-Perm (a ∷ l) =
    Perm.trans (insert_summary-Perm a (sort_summaries l)) (Perm.cons a (sort_summaries-Perm l))

-- `angel.list` answers with the angels of the table, each once, in the order of their ids, and
-- `lab.status` shows the same list.
listed_angels :
    (d : Daemon) (s : Server)
    → (l : List AngelSummary) × (cli_angel_list s ≡ accepted (listed l))
      × ((st : LabStatus) × (cli_lab_status d s ≡ accepted (status st)) × (st.angels ≡ l))
      × InOrder l
      × Perm l (summaries s.sup.angels)
unfolding cli_angel_list cli_lab_status
listed_angels d s = (
  sort_summaries (summaries s.sup.angels),
  refl,
  (_, refl, refl),
  sort_summaries-InOrder (summaries s.sup.angels),
  sort_summaries-Perm (summaries s.sup.angels),
)
