-- ===== src/Linux/Proc/Tests.antt =====
-- A process whose name holds a blank and parentheses.
use angellab.Prelude.{◌≡◌, refl, [], ◌∷◌, arith}
use angellab.Linux.ProcNet.{cut}
use angellab.Linux.Proc.{parse_proc_stat, ok, panic, parse_kb}
use angellab.Linux.Proc.Stat.{
  StatLine, IsWritten, stat_line, stat_value, parse-stat_line, parse_proc_stat-panic,
}

-- (") (", 120 ticks and 3 pages)
abbrev tricky : StatLine
tricky = record {
  pid = 42;
  comm = 41 ∷ 32 ∷ 40 ∷ [];
  state = 83;
  user_time = 120;
  system_time = 7;
  start_time = 9000;
  vsize = 4096;
  rss = 3;
  other = λ i. 48 ∷ [];
  more = [];
}

tricky-IsWritten : IsWritten tricky
tricky-IsWritten = record {
  pid_fits = omega arith;
  state_is_plain = (refl, omega arith);
  user_time_fits = omega arith;
  system_time_fits = omega arith;
  start_time_fits = omega arith;
  vsize_fits = omega arith;
  rss_fits = omega arith;
  other_are_words = λ i. (((refl, omega arith), tt), omega arith);
  more_are_words = tt;
}

parse-stat_line_example : parse_proc_stat (stat_line tricky) ≡ ok (stat_value tricky)
parse-stat_line_example = parse-stat_line tricky tricky-IsWritten

backwards : parse_proc_stat (41 ∷ 40 ∷ []) ≡ panic
unfolding cut
backwards = parse_proc_stat-panic [] (40 ∷ []) [] [] tt (omega arith, tt) refl

-- "12 kB"
kilobytes : parse_kb (49 ∷ 50 ∷ 32 ∷ 107 ∷ 66 ∷ []) ≡ 12
unfolding parse_kb
kilobytes = refl
