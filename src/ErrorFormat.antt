-- ===== src/ErrorFormat.antt =====
-- src/error_format.h: the text that `main` prints for an exception. Boost's error codes are
-- parameters: the equality with each named code, the message, the category's name and the value.
mod Tests
use asnprefix_map.Base.{
  ℕ, ◌≡◌, refl, ◌≤◌, ◌∙◌, inl, inr, Bool, true, false, not, ◌&&◌, ◌||◌, Option, none, some, List,
  [], ◌∷◌, ◌++◌, arith, ltb, ◌==◌, ==-iff, nat_eq, if◌then◌else◌, is_empty, length, length_pos,
  Bool-cases, ◌⊎◌, Bytes,
}
use asnprefix_map.Base.Text.{codes}
use asnprefix_map.Base.Decimal.{to_string}

unfoldable pub is_ascii_error_text : Bytes → Bool
is_ascii_error_text [] = true
is_ascii_error_text (ch ∷ text) =
    let rest = is_ascii_error_text text in
    if ch == 10 || (ch == 13 || ch == 9)
    then rest
    else if ltb ch 32 || ltb 126 ch
    then false
    else rest

-- The codes that have a text of their own, in the order of the source's tests.
pub data NamedError : Type 0 where
  stream_truncated connection_reset connection_aborted connection_refused timed_out eof : NamedError
  operation_aborted network_down network_reset network_unreachable host_unreachable : NamedError

-- What the code asks of a `boost::system::error_code`; `value_text` is its value, printed.
pub record ErrorCode : Type 0 where
  pub is : NamedError → Bool
  pub message : Bytes
  pub category_name : Bytes
  pub value_text : Bytes

unfoldable pub describe_error_code : ErrorCode → Bytes
describe_error_code ec =
    if ec.is stream_truncated
    then codes "stream truncated"
    else if ec.is connection_reset
    then codes "connection reset by peer"
    else if ec.is connection_aborted
    then codes "connection aborted"
    else if ec.is connection_refused
    then codes "connection refused"
    else if ec.is timed_out
    then codes "timed out"
    else if ec.is eof
    then codes "end of stream"
    else if ec.is operation_aborted
    then codes "operation aborted"
    else if ec.is network_down
    then codes "network down"
    else if ec.is network_reset
    then codes "network reset"
    else if ec.is network_unreachable
    then codes "network unreachable"
    else if ec.is host_unreachable
    then codes "host unreachable"
    else if not (is_empty ec.message) && is_ascii_error_text ec.message
    then ec.message
    else codes "system error"

-- An exception: one with an error code, or one with the text of `what`.
pub data Exception : Type 0 where
  system_error : ErrorCode → Exception
  other_error : Bytes → Exception

unfoldable pub format_exception_message : Exception → Bytes
format_exception_message (system_error ec) =
    describe_error_code ec
    ++ codes " ["
    ++ ec.category_name
    ++ codes ":"
    ++ ec.value_text
    ++ codes "]"
format_exception_message (other_error what) = what

-- A byte from the space to the tilde, a tab, a newline or a carriage return.
abbrev pub IsShown : ℕ → Type 0
IsShown c = ((b' ' ≤ c) × (c ≤ b'~')) ⊎ (c ≡ 9) ⊎ (c ≡ 10) ⊎ (c ≡ 13)

abbrev pub AllShown : Bytes → Type 0
AllShown [] = Unit
AllShown (c ∷ text) = IsShown c × AllShown text

-- Text that can be shown: something, and ASCII that a terminal prints.
abbrev pub IsPrintable : Bytes → Type 0
IsPrintable text = (1 ≤ length text) × AllShown text

byte-IsShown :
    (c : ℕ)
    → ((c == 10 || (c == 13 || c == 9)) ≡ true) ⊎ ((ltb c 32 || ltb 126 c) ≡ false)
    → IsShown c
byte-IsShown c (inl e) = elim (Bool-cases (c == 10)) [
  | inl newline ↦ inr (inr (inl ((==-iff c 10).0 newline)))
  | inr not_newline ↦ elim (Bool-cases (c == 13)) [
    | inl return ↦ inr (inr (inr ((==-iff c 13).0 return)))
    | inr not_return ↦
        let tab : (c == 9) ≡ true = rw (not_newline, not_return) at e in
        inr (inl ((==-iff c 9).0 tab))
  ]
]
byte-IsShown c (inr e) = inl (ground arith, ground arith)

-- The test of the source accepts only such text.
is_ascii-AllShown : (text : Bytes) → is_ascii_error_text text ≡ true → AllShown text
unfolding is_ascii_error_text
is_ascii-AllShown [] h = tt
is_ascii-AllShown (c ∷ text) h = elim (Bool-cases (c == 10 || (c == 13 || c == 9))) [
  | inl e ↦ (byte-IsShown c (inl e), is_ascii-AllShown text (rw e at h))
  | inr e ↦ elim (Bool-cases (ltb c 32 || ltb 126 c)) [
    | inl bad ↦ absurd (impossible (rw (e, bad) at h))
    | inr good ↦ (byte-IsShown c (inr good), is_ascii-AllShown text (rw (e, good) at h))
  ]
]
  where
    impossible : false ≡ true → ⊥
    impossible e = cc

shown_test :
    (c : ℕ) → IsShown c → (ltb c 32 || ltb 126 c) ≡ true → (c == 10 || (c == 13 || c == 9)) ≡ true
shown_test c (inl (low, high)) h = absurd (omega (arith, outside c low high h))
  where
    outside : (c : ℕ) → b' ' ≤ c → c ≤ b'~' → (ltb c 32 || ltb 126 c) ≡ true → ⊥
    outside c low high h = ground arith
shown_test c (inr (inl e)) h = rw e refl
shown_test c (inr (inr (inl e))) h = rw e refl
shown_test c (inr (inr (inr e))) h = rw e refl

AllShown-is_ascii : (text : Bytes) → AllShown text → is_ascii_error_text text ≡ true
unfolding is_ascii_error_text
AllShown-is_ascii [] h = refl
AllShown-is_ascii (c ∷ text) (here, later) =
    let rest = AllShown-is_ascii text later in
    elim (Bool-cases (c == 10 || (c == 13 || c == 9))) [
      | inl e ↦ rw e rest
      | inr e ↦ elim (Bool-cases (ltb c 32 || ltb 126 c)) [
        | inl outside ↦ let blank = shown_test c here outside in absurd (cc)
        | inr good ↦ rw (e, good) rest
      ]
    ]

-- The text of each code that has one.
pub own_text : NamedError → Bytes
own_text stream_truncated = codes "stream truncated"
own_text connection_reset = codes "connection reset by peer"
own_text connection_aborted = codes "connection aborted"
own_text connection_refused = codes "connection refused"
own_text timed_out = codes "timed out"
own_text eof = codes "end of stream"
own_text operation_aborted = codes "operation aborted"
own_text network_down = codes "network down"
own_text network_reset = codes "network reset"
own_text network_unreachable = codes "network unreachable"
own_text host_unreachable = codes "host unreachable"

-- What a description is: something to be shown; and the text of a code that has one, or where the code
-- is none of these, the message of the system if that can be shown, and else a fixed text.
abbrev pub Describes : ErrorCode → Bytes → Type 0
Describes ec text =
    IsPrintable text
    × (((e : NamedError) × (ec.is e ≡ true) × (text ≡ own_text e))
        ⊎ (((e : NamedError) → ec.is e ≡ false) × IsPrintable ec.message × (text ≡ ec.message))
        ⊎ (((e : NamedError) → ec.is e ≡ false)
            × (¬ IsPrintable ec.message)
            × (text ≡ codes "system error")))

known :
    (text : Bytes) → (is_ascii_error_text text ≡ true) × (is_empty text ≡ false) → IsPrintable text
known text h = (length_pos text h.1, is_ascii-AllShown text h.0)

-- A code with a text of its own, in front of the tests for others.
choice :
    (ec : ErrorCode) (e : NamedError) (b : Bytes)
    → (is_ascii_error_text (own_text e) ≡ true) × (is_empty (own_text e) ≡ false)
    → (ec.is e ≡ false → Describes ec b)
    → Describes ec (if ec.is e then own_text e else b)
choice ec e b p q = elim (Bool-cases (ec.is e)) [
  | inl h ↦ rw h (known (own_text e) p, inl (e, h, refl))
  | inr h ↦ rw h (q h)
]

shown_message :
    (message : Bytes)
    → IsPrintable message
    → (not (is_empty message) && is_ascii_error_text message) ≡ true
shown_message [] h = absurd (omega arith)
shown_message (c ∷ cs) h = AllShown-is_ascii (c ∷ cs) h.1

raw_or_default :
    (ec : ErrorCode)
    → ((e : NamedError) → ec.is e ≡ false)
    → Describes ec (
        if not (is_empty ec.message) && is_ascii_error_text ec.message
        then ec.message
        else codes "system error")
unfolding is_ascii_error_text
raw_or_default ec other =
    let message = ec.message in
    elim (Bool-cases (not (is_empty message) && is_ascii_error_text message)) [
      | inl shown ↦
          let printable = known message (ground (arith, shown), ground (arith, shown)) in
          rw shown (printable, inr (inl (other, printable, refl)))
      | inr hidden ↦ rw hidden (
        known (codes "system error") (refl, refl),
        inr (inr (other, λ h. differ (shown_message message h) hidden, refl)),
      )
    ]
  where
    differ : {b : Bool} → b ≡ true → b ≡ false → ⊥
    differ p q = cc

-- Whatever the system says of a code, its description is not empty, and each of its bytes is one from
-- the space to the tilde, a tab, a newline or a carriage return. It is the text of one of the eleven
-- codes that have a text, where the code is equal to that one; and where it is none of them, it is the
-- system's message if that is such a text, and "system error" if it is not.
pub describe_error_code-IsPrintable : (ec : ErrorCode) → Describes ec (describe_error_code ec)
unfolding describe_error_code is_ascii_error_text own_text
describe_error_code-IsPrintable ec =
    choice ec stream_truncated _ (refl, refl)
      λ h0.
        choice ec connection_reset _ (refl, refl)
          λ h1.
            choice ec connection_aborted _ (refl, refl)
              λ h2.
                choice ec connection_refused _ (refl, refl)
                  λ h3.
                    choice ec timed_out _ (refl, refl)
                      λ h4.
                        choice ec eof _ (refl, refl)
                          λ h5.
                            choice ec operation_aborted _ (refl, refl)
                              λ h6.
                                choice ec network_down _ (refl, refl)
                                  λ h7.
                                    choice ec network_reset _ (refl, refl)
                                      λ h8.
                                        choice ec network_unreachable _ (refl, refl)
                                          λ h9.
                                            choice ec host_unreachable _ (refl, refl)
                                              λ h10. raw_or_default ec (λ e.
                                                elim e as (λ b. ec.is b ≡ false) [
                                                  | stream_truncated ↦ h0
                                                  | connection_reset ↦ h1
                                                  | connection_aborted ↦ h2
                                                  | connection_refused ↦ h3
                                                  | timed_out ↦ h4
                                                  | eof ↦ h5
                                                  | operation_aborted ↦ h6
                                                  | network_down ↦ h7
                                                  | network_reset ↦ h8
                                                  | network_unreachable ↦ h9
                                                  | host_unreachable ↦ h10
                                                ])
