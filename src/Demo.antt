-- ===== src/Demo.antt =====
-- src/ris_live_demo.cpp: the program that prints the events of a file of messages. What it writes to
-- the console is a text; the contents of the file are a parameter.
mod Tests
use asnprefix_map.Base.{
  ℕ, ◌+◌, ◌≡◌, refl, ◌∙◌, ap, sym, true, false, Option, none, some, List, [], ◌∷◌, ◌++◌, arith,
  is_empty, length, Bytes, Result, ok, err, ◌>>=◌, if◌then◌else◌,
}
use mathlib.Core.List.{append-nil, append_assoc}
use asnprefix_map.Base.Text.{codes, lines, join}
use asnprefix_map.Base.Decimal.{to_string}
use asnprefix_map.Peer.{make_key}
use asnprefix_map.Parser.{
  JsonLibrary, EventType, announce, withdraw, BgpEvent, parse_ris_live_message,
}
use asnprefix_map.Parser.Message.{message_events}
use asnprefix_map.Parser.Events.{deliver, parse_ris_live_message_lem}

unfoldable pub event_type_to_string : EventType → Bytes
event_type_to_string announce = codes "announce"
event_type_to_string withdraw = codes "withdraw"

-- The line that the callback prints.
unfoldable pub event_line : BgpEvent → Bytes
event_line e =
    event_type_to_string e.type
    ++ (9 ∷ codes "peer=")
    ++ make_key e.peer
    ++ (9 ∷ codes "prefix=")
    ++ e.prefix
    ++ (9 ∷ codes "asn=")
    ++ to_string e.asn
    ++ (9 ∷ codes "timestamp=")
    ++ to_string e.timestamp
    ++ 10 ∷ []

-- The callback, on what stands on the console.
unfoldable pub print_event : Bytes → BgpEvent → Result Bytes
print_event console e = ok (console ++ event_line e)

unfoldable pub count_line : ℕ → Bytes
count_line emitted_events =
    codes "message -> " ++ to_string emitted_events ++ codes " event(s)" ++ 10 ∷ []

-- The text of an event, described by its parts: five fields between tabs, the first one the kind, and
-- the peer's three between bars.
pub event_text : BgpEvent → Bytes
event_text e =
    join 9 (
      (elim e.type [ announce ↦ codes "announce" | withdraw ↦ codes "withdraw" ])
      ∷ (codes "peer=" ++ join b'|' (e.peer.host ∷ e.peer.peer_ip ∷ to_string e.peer.peer_asn ∷ []))
      ∷ (codes "prefix=" ++ e.prefix)
      ∷ (codes "asn=" ++ to_string e.asn)
      ∷ (codes "timestamp=" ++ to_string e.timestamp)
      ∷ [])
    ++ (10 ∷ [])

pub total_text : ℕ → Bytes
total_text events = codes "message -> " ++ (to_string events ++ codes " event(s)") ++ (10 ∷ [])

event_line_lem : (e : BgpEvent) → event_line e ≡ event_text e
unfolding event_line event_text event_type_to_string make_key join
event_line_lem e = elim e.type [ announce ↦ simp append_assoc | withdraw ↦ simp append_assoc ]

count_line_lem : (n : ℕ) → count_line n ≡ total_text n
unfolding count_line total_text
count_line_lem n = simp append_assoc

module _ (j : JsonLibrary) where
  -- The loop over the lines.
  unfoldable pub demo_lines : List Bytes → Bytes → Result Bytes
  demo_lines [] console = ok console
  demo_lines (line ∷ input) console =
      if is_empty line
      then demo_lines input console
      else (parse_ris_live_message j print_event line console >>= λ z.
          demo_lines input (z.0 ++ count_line z.1))

  -- The exit code, the console's text, and the text of `cerr`; an exception, which nothing catches,
  -- ends the program.
  unfoldable pub demo : Bytes → Option Bytes → Result (ℕ × Bytes × Bytes)
  demo input_path none = ok (1, [], codes "Failed to open input file: " ++ input_path ++ 10 ∷ [])
  demo input_path (some contents) =
      demo_lines (lines contents) [] >>= λ console. ok (0, console, [])

  event_lines : List BgpEvent → Bytes
  event_lines [] = []
  event_lines (e ∷ es) = event_text e ++ event_lines es

  -- What a message stands for: a line for each event, and their number; or the exception of a number
  -- that overflows.
  pub message_report : Bytes → Result Bytes
  message_report line =
      message_events j line >>= λ es. ok (event_lines es ++ total_text (length es))

  -- The reports of the lines that are not empty, up to the first exception.
  pub report : List Bytes → Result Bytes
  report [] = ok []
  report (line ∷ input) =
      let rest = report input in
      if is_empty line
      then rest
      else (message_report line >>= λ here. rest >>= λ later. ok (here ++ later))

  deliver-print_event :
      (es : List BgpEvent) (console : Bytes) (n : ℕ)
      → deliver print_event es (console, n) ≡ ok (console ++ event_lines es, n + length es)
  unfolding deliver print_event event_lines
  deliver-print_event [] console n =
      ap (λ z. ok (z, n)) (sym (append-nil console)) ∙ ap (λ m. ok (console ++ [], m)) (omega arith)
  deliver-print_event (e ∷ es) console n =
      deliver-print_event es (console ++ event_line e) (n + 1)
      ∙ ap (λ line. ok (console ++ line ++ event_lines es, n + 1 + length es)) (event_line_lem e)
      ∙ ap (λ z. ok (z, n + 1 + length es)) (append_assoc console (event_text e) (event_lines es))
      ∙ ap (λ m. ok (console ++ (event_text e ++ event_lines es), m)) (omega arith)

  -- One line that is not empty, in front of others.
  line_lem :
      (r : Result (List BgpEvent)) (rest : Result Bytes) (next : Bytes → Result Bytes)
      (console : Bytes)
      → ((z : Bytes) → next z ≡ (rest >>= λ later. ok (z ++ later)))
      → ((r >>= λ es. deliver print_event es (console, 0)) >>= λ z. next (z.0 ++ count_line z.1))
        ≡ (((r >>= λ es. ok (event_lines es ++ total_text (length es))) >>= λ here.
              rest >>= λ later. ok (here ++ later))
            >>= λ text. ok (console ++ text))
  line_lem (err x) rest next console h = refl
  line_lem (ok es) (err x) next console h =
      ap (λ r. r >>= λ z. next (z.0 ++ count_line z.1)) (deliver-print_event es console 0)
      ∙ h (console ++ event_lines es ++ count_line (0 + length es))
  line_lem (ok es) (ok later) next console h =
      let total = total_text (length es) in
      let none_before : 0 + length es ≡ length es = omega arith in
      ap (λ r. r >>= λ z. next (z.0 ++ count_line z.1)) (deliver-print_event es console 0)
      ∙ h (console ++ event_lines es ++ count_line (0 + length es))
      ∙ ap (λ m. ok (console ++ event_lines es ++ count_line m ++ later)) none_before
      ∙ ap (λ line. ok (console ++ event_lines es ++ line ++ later)) (count_line_lem (length es))
      ∙ ap (λ z. ok (z ++ later)) (append_assoc console (event_lines es) total)
      ∙ ap (λ z. ok z) (append_assoc console (event_lines es ++ total) later)

  demo_lines_lem :
      (input : List Bytes) (console : Bytes)
      → demo_lines input console ≡ (report input >>= λ text. ok (console ++ text))
  unfolding demo_lines report message_report
  demo_lines_lem [] console = ap (λ z. ok z) (sym (append-nil console))
  demo_lines_lem ([] ∷ input) console = demo_lines_lem input console
  demo_lines_lem ((c ∷ cs) ∷ input) console =
      let line = c ∷ cs in
      ap (λ r. r >>= λ z. demo_lines input (z.0 ++ count_line z.1))
        (parse_ris_live_message_lem print_event j line console)
      ∙ line_lem (message_events j line) (report input) (demo_lines input) console
          (demo_lines_lem input)

  >>=-ok :
      {T : Type 0} (r : Result Bytes) (f : Bytes → Result T)
      → ((r >>= λ text. ok text) >>= f) ≡ (r >>= f)
  >>=-ok (err x) f = refl
  >>=-ok (ok z) f = refl

  -- For any file that can be opened: unless a number of a line overflows, the program returns 0 and has
  -- printed, for each line that is not empty, in order, a line for each event of the message, with its
  -- kind, peer, prefix, ASN and timestamp between tabs, and then the number of events. If one does, the
  -- program ends by the exception of the JSON library.
  pub demo_lem :
      (input_path contents : Bytes)
      → demo input_path (some contents) ≡ (report (lines contents) >>= λ text. ok (0, text, []))
  unfolding demo
  demo_lem input_path contents =
      ap (λ r. r >>= λ z. ok (0, z, [])) (demo_lines_lem (lines contents) [])
      ∙ >>=-ok (report (lines contents)) (λ z. ok (0, z, []))
