-- ===== src/Metrics/Exposition.antt =====
-- The text of the metrics.
use angellab.Prelude.{
  ℕ, ◌+◌, ◌/◌, ◌%◌, Bool, false, ◌||◌, ◌&&◌, none, some, List, [], ◌∷◌, ◌++◌, String, if◌then◌else◌,
  length, nat_beq, ltb, leb, bytes_eq, ◌==◌,
}
use angellab.Prelude.Map.{Map, lookup}
use angellab.Prelude.Text.{Text, codes}
use angellab.Prelude.Decimal.{digits}
use angellab.Metrics.{AngelMetrics, EventCounter, Registry}

-- %d of a number with at most 21 digits
abbrev pub number : ℕ → Text
number n = digits 20 n

-- a digit of %x
abbrev pub hex : ℕ → ℕ
hex d = if ltb d 10 then 48 + d else 87 + d

-- one character of %q, when it is ASCII
abbrev pub quoted_char : ℕ → Text
quoted_char c =
    if nat_beq c 34 || nat_beq c 92
    then 92 ∷ c ∷ []
    else if leb 32 c && leb c 126
    then c ∷ []
    else if nat_beq c 7
    then codes "\\a"
    else if nat_beq c 8
    then codes "\\b"
    else if nat_beq c 12
    then codes "\\f"
    else if nat_beq c 10
    then codes "\\n"
    else if nat_beq c 13
    then codes "\\r"
    else if nat_beq c 9
    then codes "\\t"
    else if nat_beq c 11
    then codes "\\v"
    else 92 ∷ 120 ∷ hex (c / 16) ∷ hex (c % 16) ∷ []

abbrev pub quoted_chars : Text → Text
quoted_chars [] = []
quoted_chars (c ∷ cs) = quoted_char c ++ quoted_chars cs

-- %q
abbrev pub quoted : Text → Text
quoted s = 34 ∷ quoted_chars s ++ 34 ∷ []

-- `writeHelp`
unfoldable pub write_help : Text → Text → Text → Text
write_help name typ help =
    codes "# HELP "
    ++ (name ++ 32 ∷ help ++ (10 ∷ codes "# TYPE " ++ (name ++ 32 ∷ typ ++ 10 ∷ [])))

abbrev pub label_order : List Text
label_order =
    codes "angel_id"
    ∷ codes "angel_type"
    ∷ codes "state"
    ∷ codes "conn_state"
    ∷ codes "severity"
    ∷ []

abbrev pub is_any : Text → List Text → Bool
is_any s [] = false
is_any s (t ∷ ts) = t == s || is_any s ts

-- %s=%q
abbrev pub label : Text → Text → Text
label k v = k ++ 61 ∷ quoted v

-- the loop over `order`
unfoldable pub known_labels : List Text → Map Text Text → List Text
known_labels [] labels = []
known_labels (k ∷ ks) labels =
    let rest = known_labels ks labels in
    elim (lookup k labels) [ none ↦ rest | some v ↦ label k v ∷ rest ]

-- the loop over the labels
unfoldable pub other_labels : List Text → Map Text Text → List Text
other_labels order [] = []
other_labels order ((k, v) ∷ labels) =
    let rest = other_labels order labels in if is_any k order then rest else label k v ∷ rest

-- strings.Join(parts, ",")
abbrev pub joined : List Text → Text
joined [] = []
joined (s ∷ []) = s
joined (s ∷ t ∷ ts) = s ++ 44 ∷ joined (t ∷ ts)

-- `writeLine`
unfoldable pub write_line : Text → Map Text Text → Text → Text
write_line name [] value = name ++ 32 ∷ value ++ 10 ∷ []
write_line name (l ∷ ls) value =
    name
    ++ (123 ∷ joined (known_labels label_order (l ∷ ls) ++ other_labels label_order (l ∷ ls))
        ++ (125 ∷ 32 ∷ value ++ 10 ∷ []))

abbrev pub states : List Text
states =
    codes "ACTIVE"
    ∷ codes "TRAINING"
    ∷ codes "UNSTABLE"
    ∷ codes "CONTAINED"
    ∷ codes "TERMINATED"
    ∷ []

abbrev pub angel_labels : AngelMetrics → Map Text Text
angel_labels a = (codes "angel_id", a.id) ∷ (codes "angel_type", a.angel_type) ∷ []

-- the value of the sample for one state
abbrev pub state_value : AngelMetrics → Text → ℕ
state_value a state = if a.state == state then 1 else 0

unfoldable pub state_lines : AngelMetrics → List Text → Text
state_lines a [] = []
state_lines a (state ∷ rest) =
    write_line (codes "angellab_angel_state")
      ((codes "angel_id", a.id) ∷ (codes "angel_type", a.angel_type) ∷ (codes "state", state) ∷ [])
      (number (state_value a state))
    ++ state_lines a rest

-- one metric, a line for each angel
abbrev pub per_angel : (AngelMetrics → Text) → Map Text AngelMetrics → Text
per_angel line [] = []
per_angel line ((id, a) ∷ rest) = line a ++ per_angel line rest

abbrev pub metric : String → String → Text → (AngelMetrics → Text) → Map Text AngelMetrics → Text
metric name typ help value angels =
    write_help (codes name) (codes typ) help
    ++ per_angel (λ a. write_line (codes name) (angel_labels a) (value a)) angels

abbrev pub event_lines : Map Text EventCounter → Text
event_lines [] = []
event_lines ((key, e) ∷ rest) =
    write_line (codes "angellab_events_total")
      ((codes "angel_id", e.angel_id)
        ∷ (codes "angel_type", e.angel_type)
        ∷ (codes "severity", e.severity)
        ∷ [])
      (number e.total)
    ++ event_lines rest

-- with the three bytes of an en dash
abbrev pub cpu_help : Text
cpu_help = codes "CPU utilisation of the angel process (0" ++ (226 ∷ 128 ∷ 147 ∷ codes "100)")

-- the text that the handler writes; `uptime` is that of the Lab
unfoldable pub exposition : Text → Registry → Text
exposition uptime r =
    write_help (codes "angellab_lab_uptime_seconds") (codes "gauge")
      (codes "Seconds since the Lab daemon started")
    ++ (write_line (codes "angellab_lab_uptime_seconds") [] uptime
        ++ (write_help (codes "angellab_lab_angel_count") (codes "gauge")
              (codes "Number of registered angel processes")
            ++ (write_line (codes "angellab_lab_angel_count") [] (number (length r.angels))
                ++ (write_help (codes "angellab_angel_state") (codes "gauge")
                      (codes "1 if the angel is in the given state, 0 otherwise")
                    ++ (per_angel (λ a. state_lines a states) r.angels
                        ++ (metric "angellab_angel_restarts_total" "counter"
                              (codes "Total number of restarts for this angel")
                              (λ a. number a.restart_count) r.angels
                            ++ (metric "angellab_angel_rss_bytes" "gauge"
                                  (codes "Resident set size of the angel process in bytes")
                                  (λ a. number a.rss_bytes) r.angels
                                ++ (metric "angellab_angel_cpu_percent" "gauge" cpu_help
                                      (λ a. a.cpu_percent) r.angels
                                    ++ (metric "angellab_angel_fd_count" "gauge"
                                          (codes "Open file descriptor count of the angel process")
                                          (λ a. number a.fd_count) r.angels
                                        ++ (metric "angellab_angel_goroutines" "gauge"
                                              (codes "Number of goroutines in the angel process")
                                              (λ a. number a.goroutines) r.angels
                                            ++ (metric "angellab_angel_uptime_seconds" "gauge"
                                                  (codes
                                                    "Seconds since the angel process last registered")
                                                  (λ a. number a.uptime_secs) r.angels
                                                ++ (write_help (codes "angellab_events_total")
                                                      (codes "counter")
                                                      (codes
                                                        "Total events emitted by each angel, by severity")
                                                    ++ event_lines r.events))))))))))))

pub data Method : Type 0 where
  get head other_method : Method

pub data Response : Type 0 where
  method_not_allowed empty_body : Response
  body : Text → Response

-- `Handler`
unfoldable pub handler : Text → Method → Registry → Response
handler uptime get r = body (exposition uptime r)
handler uptime head r = empty_body
handler uptime other_method r = method_not_allowed
