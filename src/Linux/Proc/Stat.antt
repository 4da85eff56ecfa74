-- ===== src/Linux/Proc/Stat.antt =====
-- A line of /proc/<pid>/stat as the kernel writes it, and what parseProcStat reads from it.
use angellab.Prelude.{
  ℕ, suc, ◌+◌, ◌^◌, ◌≤◌, ◌<◌, ◌≡◌, ◌≢◌, refl, sym, ap, ◌∙◌, false, none, some, List, [], ◌∷◌, ◌++◌,
  arith, ltb, All, All-append, All-map, length, length-append, drop,
}
use mathlib.Core.List.{append_assoc}
use angellab.Prelude.Decimal.{digits, digits-All}
use angellab.Prelude.Int.{pos}
use angellab.Prelude.Text.{Text, unwords, trim_space, parse_int, parsed}
use angellab.Prelude.Text.Fields.{IsInk, IsWord, fields-blank, trim_space-blank}
use angellab.Prelude.Text.Numerals.{parse_uint-digits, parse_int-digits, digits-IsWord}
use angellab.Linux.ProcNet.{cut}
use angellab.Linux.ProcNet.Numbers.{cut-append}
use angellab.Linux.Proc.{ProcStat, ok, panic, cut_last, parse_cut, stat_of, parse_proc_stat}

-- one character of a word that is not the end of the name of a process
abbrev pub IsPlain : ℕ → Type 0
IsPlain c = IsInk c × (c ≢ 41)

-- the numbers of a process that are read, with words for the fields that are not
pub record StatLine : Type 0 where
  pub pid : ℕ
  pub comm : Text
  pub state : ℕ
  pub user_time : ℕ
  pub system_time : ℕ
  pub start_time : ℕ
  pub vsize : ℕ
  pub rss : ℕ
  pub other : ℕ → Text
  pub more : List Text

pub record IsWritten (l : StatLine) : Type 0 where
  pub pid_fits : l.pid < 2 ^ 63
  pub state_is_plain : IsPlain l.state
  pub user_time_fits : l.user_time < 2 ^ 64
  pub system_time_fits : l.system_time < 2 ^ 64
  pub start_time_fits : l.start_time < 2 ^ 64
  pub vsize_fits : l.vsize < 2 ^ 64
  pub rss_fits : l.rss < 2 ^ 63
  pub other_are_words : (i : ℕ) → All IsPlain (l.other i) × (0 < length (l.other i))
  pub more_are_words : All (λ w. All IsPlain w × (0 < length w)) l.more

abbrev pub stat_words : StatLine → List Text
stat_words l =
    (l.state ∷ [])
    ∷ l.other 4
    ∷ l.other 5
    ∷ l.other 6
    ∷ l.other 7
    ∷ l.other 8
    ∷ l.other 9
    ∷ l.other 10
    ∷ l.other 11
    ∷ l.other 12
    ∷ l.other 13
    ∷ digits l.user_time l.user_time
    ∷ digits l.system_time l.system_time
    ∷ l.other 16
    ∷ l.other 17
    ∷ l.other 18
    ∷ l.other 19
    ∷ l.other 20
    ∷ l.other 21
    ∷ digits l.start_time l.start_time
    ∷ digits l.vsize l.vsize
    ∷ digits l.rss l.rss
    ∷ l.more

-- "%d (%s) %c …", with the name as it is
abbrev pub stat_line : StatLine → Text
stat_line l = (digits l.pid l.pid ++ 32 ∷ []) ++ 40 ∷ (l.comm ++ 41 ∷ 32 ∷ unwords (stat_words l))

abbrev pub stat_value : StatLine → ProcStat
stat_value l = record {
  pid = pos l.pid;
  comm = l.comm;
  state = l.state;
  user_time = l.user_time;
  system_time = l.system_time;
  start_time = l.start_time;
  vsize = l.vsize;
  rss = pos l.rss;
}

cut_last-none : (b : ℕ) (s : Text) → All (λ c. c ≢ b) s → cut_last b s ≡ none
unfolding cut_last
cut_last-none b [] h = refl
cut_last-none b (c ∷ s) (ne, h) = ground (arith, cut_last-none b s h)

cut_last-append :
    (b : ℕ) (xs rest : Text) → All (λ c. c ≢ b) rest → cut_last b (xs ++ b ∷ rest) ≡ some (xs, rest)
unfolding cut_last
cut_last-append b [] rest h = ground (arith, cut_last-none b rest h)
cut_last-append b (x ∷ xs) rest h = rw (cut_last-append b xs rest h) refl

drop-append : (xs ys : Text) → drop (length xs) (xs ++ ys) ≡ ys
drop-append [] ys = refl
drop-append (x ∷ xs) ys = drop-append xs ys

plain-IsWord : (w : Text) → All IsPlain w × (0 < length w) → IsWord w
plain-IsWord w (h, filled) = (All-map _ _ w (λ c p. p.0) h, filled)

decimal-IsPlain : (n : ℕ) → All IsPlain (digits n n) × (0 < length (digits n n))
decimal-IsPlain n =
    (All-map _ _ (digits n n) (λ c dec. ground arith) (digits-All n n), (digits-IsWord n).1)

unwords-plain :
    (ws : List Text) → All (λ w. All IsPlain w × (0 < length w)) ws → All (λ c. c ≢ 41) (unwords ws)
unwords-plain [] h = tt
unwords-plain (w ∷ []) ((plain, _), h) = All-map _ _ w (λ c p. p.1) plain
unwords-plain (w ∷ v ∷ ws) ((plain, _), h) =
    All-append _ w _ (All-map _ _ w (λ c p. p.1) plain) (omega arith, unwords-plain (v ∷ ws) h)

words-IsPlain :
    (l : StatLine) → IsWritten l → All (λ w. All IsPlain w × (0 < length w)) (stat_words l)
words-IsPlain l w = (
  ((w.state_is_plain, tt), omega arith),
  (
    w.other_are_words 4,
    (
      w.other_are_words 5,
      (
        w.other_are_words 6,
        (
          w.other_are_words 7,
          (
            w.other_are_words 8,
            (
              w.other_are_words 9,
              (
                w.other_are_words 10,
                (
                  w.other_are_words 11,
                  (
                    w.other_are_words 12,
                    (
                      w.other_are_words 13,
                      (
                        decimal-IsPlain l.user_time,
                        (
                          decimal-IsPlain l.system_time,
                          (
                            w.other_are_words 16,
                            (
                              w.other_are_words 17,
                              (
                                w.other_are_words 18,
                                (
                                  w.other_are_words 19,
                                  (
                                    w.other_are_words 20,
                                    (
                                      w.other_are_words 21,
                                      (
                                        decimal-IsPlain l.start_time,
                                        (
                                          decimal-IsPlain l.vsize,
                                          (decimal-IsPlain l.rss, w.more_are_words),
                                        ),
                                      ),
                                    ),
                                  ),
                                ),
                              ),
                            ),
                          ),
                        ),
                      ),
                    ),
                  ),
                ),
              ),
            ),
          ),
        ),
      ),
    ),
  ),
)

drop-past : (xs ys : Text) (c : ℕ) → drop (length xs + 1) (xs ++ c ∷ ys) ≡ ys
drop-past [] ys c = refl
drop-past (x ∷ xs) ys c =
    let more : suc (length xs) + 1 ≡ suc (length xs + 1) = omega arith in
    ap (λ n. drop n (x ∷ (xs ++ c ∷ ys))) more ∙ drop-past xs ys c

parse_cut-words :
    (p q comm : Text) (ws : List Text)
    → All IsWord ws
    → 22 ≤ length ws
    → parse_cut (some (p, q)) (some (p ++ 40 ∷ comm, 32 ∷ unwords ws))
      ≡ stat_of (parse_int (trim_space p)) comm ws
parse_cut-words p q comm ws words enough =
    let read = fields-blank ws words in
    let behind = drop-past p comm 40 in
    let long : ltb (length (p ++ 40 ∷ comm)) (length p + 1) ≡ false =
      ground (arith, length-append p (40 ∷ comm)) in
    let many : ltb (length ws) 22 ≡ false = ground arith in rw (long, read, many, behind) refl

stat_of-written :
    (l : StatLine)
    → IsWritten l
    → stat_of (parsed (pos l.pid)) l.comm (stat_words l) ≡ ok (stat_value l)
stat_of-written l w =
    rw
      (
        parse_uint-digits l.user_time w.user_time_fits,
        parse_uint-digits l.system_time w.system_time_fits,
        parse_uint-digits l.start_time w.start_time_fits,
        parse_uint-digits l.vsize w.vsize_fits,
        parse_int-digits l.rss w.rss_fits,
      )
      refl

-- A line in the format of the kernel is read back, whatever the name of the process holds: blanks and
-- parentheses too.
pub parse-stat_line :
    (l : StatLine) → IsWritten l → parse_proc_stat (stat_line l) ≡ ok (stat_value l)
unfolding parse_proc_stat
parse-stat_line l w =
    let front : Text = digits l.pid l.pid ++ 32 ∷ [] in
    let tail : Text = 32 ∷ unwords (stat_words l) in
    let plain = words-IsPlain l w in
    let words : All IsWord (stat_words l) = All-map _ _ (stat_words l) plain-IsWord plain in
    let no_open : All (λ c. c ≢ 40) front =
      All-append _ (digits l.pid l.pid) (32 ∷ [])
        (All-map _ _ (digits l.pid l.pid) (λ c dec. ground arith) (digits-All l.pid l.pid))
        (omega arith, tt) in
    let first : cut 40 (stat_line l) ≡ some (front, l.comm ++ 41 ∷ tail) =
      cut-append 40 front (l.comm ++ 41 ∷ tail) no_open in
    let last : cut_last 41 (stat_line l) ≡ some (front ++ 40 ∷ l.comm, tail) =
      ap (cut_last 41) (sym (append_assoc front (40 ∷ l.comm) (41 ∷ tail)))
      ∙ cut_last-append 41 (front ++ 40 ∷ l.comm) tail
          (omega arith, unwords-plain (stat_words l) plain) in
    let number : parse_int (trim_space front) ≡ parsed (pos l.pid) =
      ap parse_int (trim_space-blank (digits l.pid l.pid) (digits-IsWord l.pid).0)
      ∙ parse_int-digits l.pid w.pid_fits in
    ap (λ o. parse_cut o (cut_last 41 (stat_line l))) first
    ∙ ap (parse_cut (some (front, l.comm ++ 41 ∷ tail))) last
    ∙ parse_cut-words front (l.comm ++ 41 ∷ tail) l.comm (stat_words l) words (omega arith)
    ∙ ap (λ n. stat_of n l.comm (stat_words l)) number
    ∙ stat_of-written l w

cut-later :
    (b c : ℕ) (xs ys later behind : Text)
    → All (λ x. x ≢ b) xs
    → c ≢ b
    → cut b ys ≡ some (later, behind)
    → cut b (xs ++ c ∷ ys) ≡ some (xs ++ c ∷ later, behind)
unfolding cut
cut-later b c [] ys later behind h ne found = ground (arith, found)
cut-later b c (x ∷ xs) ys later behind (other, h) ne found =
    ground (arith, cut-later b c xs ys later behind h ne found)

-- A line with no opening parenthesis in front of the last closing one panics, if there is one behind it.
pub parse_proc_stat-panic :
    (xs ys later behind : Text)
    → All (λ c. c ≢ 40) xs
    → All (λ c. c ≢ 41) ys
    → cut 40 ys ≡ some (later, behind)
    → parse_proc_stat (xs ++ 41 ∷ ys) ≡ panic
unfolding parse_proc_stat
parse_proc_stat-panic xs ys later behind no_open no_close opens =
    rw
      (
        cut-later 40 41 xs ys later behind no_open (omega arith) opens,
        cut_last-append 41 xs ys no_close,
      )
      (ground (arith, length-append xs (41 ∷ later)))
