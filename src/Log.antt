-- ===== src/Log.antt =====
-- source/lib/log.c: numbers and formatted text on the screen. A text is the list of its characters
-- before the terminator. The screen is a function from addresses to 16-bit cells.
pub mod Numbers
use mango_os.Base.{
  ℕ, zero, suc, ◌+◌, ◌-◌, ◌*◌, ◌/◌, ◌%◌, Bool, true, false, ◌&&◌, Option, none, some, List, [], ◌∷◌,
  ◌==◌, ltb, leb, if◌then◌else◌, update,
}

pub record Screen : Type 0 where
  pub cells : ℕ → ℕ
  pub vga : ℕ

abbrev pub screen_start : ℕ
screen_start = 0xB8000

-- `*vga = 0x07 << 8 | c; vga++`
unfoldable pub put : ℕ → Screen → Screen
put c s = record { cells = update s.cells s.vga (0x700 + c); vga = s.vga + 2 }

unfoldable pub put_all : List ℕ → Screen → Screen
unfolding put
put_all [] s = s
put_all (c ∷ cs) s = put_all cs (put c s)

-- The loop that fills `buffer` from its end, on the places left; the digits are in order.
unfoldable pub digits : ℕ → ℕ → ℕ → List ℕ → List ℕ
digits zero value base buffer = buffer
digits (suc i) value base buffer =
    let rest = digits i (value / base) base ((value % base) ∷ buffer) in
    if value == 0 then buffer else rest

-- `"0123456789abcdef"[digit]`
abbrev pub digit_char : ℕ → ℕ
digit_char digit = if ltb digit 10 then 48 + digit else 87 + digit

unfoldable pub chars : List ℕ → List ℕ
chars [] = []
chars (d ∷ ds) = digit_char d ∷ chars ds

-- What `print_integer` writes. A `uint` is never negative, so that the '-' for base 10 is never written.
unfoldable pub integer_text : ℕ → ℕ → List ℕ
unfolding digits chars
integer_text value base = if value == 0 then 48 ∷ [] else chars (digits 32 value base [])

unfoldable pub print_integer : ℕ → ℕ → Screen → Screen
unfolding integer_text put_all
print_integer value base = put_all (integer_text value base)

pub data Arg : Type 0 where
  number : ℕ → Arg
  text : List ℕ → Arg

-- `va_arg`; `none` says that the arguments do not fit.
abbrev pub next_number : List Arg → Option (ℕ × List Arg)
next_number [] = none
next_number (number v ∷ rest) = some (v, rest)
next_number (text t ∷ rest) = none

abbrev pub next_text : List Arg → Option (List ℕ × List Arg)
next_text [] = none
next_text (number v ∷ rest) = none
next_text (text t ∷ rest) = some (t, rest)

abbrev pub print_next : ℕ → List Arg → Screen → Option (List Arg × Screen)
print_next base args s = elim (next_number args) [
  | none ↦ none
  | some (v, rest) ↦ some (rest, print_integer v base s)
]

abbrev pub print_words : List Arg → Screen → Option (List Arg × Screen)
print_words args s = elim (next_text args) [
  | none ↦ none
  | some (t, rest) ↦ some (rest, put_all t s)
]

-- The character behind a `%`.
unfoldable pub directive : ℕ → List Arg → Screen → Option (List Arg × Screen)
unfolding print_integer
directive c args s =
    if c == 100
    then print_next 10 args s
    else if c == 120
    then print_next 16 args s
    else if c == 115
    then print_words args s
    else some (args, put c s)

-- `vga += left / 2` on cells of two bytes.
unfoldable pub new_line : Screen → Screen
new_line s =
    let left = 160 - (s.vga - screen_start) % 160 in record s { vga = s.vga + left / 2 * 2 }

-- `vga[i] = ' '` for the whole screen.
unfoldable pub clear : Screen → Screen
clear s = record {
  cells = λ a. if leb screen_start a && ltb a (screen_start + 160 * 25) then 32 else s.cells a;
  vga = screen_start;
}

abbrev pub is_full : Screen → Bool
is_full s = leb (160 * 25) (s.vga - screen_start)

-- The loop of `kprintf`. On a full screen the current character is shown again, so the loop takes
-- fuel.
unfoldable pub format_loop : ℕ → List ℕ → List Arg → Screen → Option Screen
unfolding directive new_line clear
format_loop zero fmt args s = none
format_loop (suc n) [] args s = some s
format_loop (suc n) (c ∷ cs) args s = elim (c == 37) [
  | true ↦ elim cs [
    | [] ↦ none
    | d ∷ ds ↦ elim (directive d args s) [
      | none ↦ none
      | some (rest, s') ↦ elim (is_full s') [
        | true ↦ format_loop n (d ∷ ds) rest (clear s')
        | false ↦ format_loop n ds rest s'
      ]
    ]
  ]
  | false ↦ elim (c == 10) [
    | true ↦ format_loop n cs args (new_line s)
    | false ↦ elim (is_full (put c s)) [
      | true ↦ format_loop n (c ∷ cs) args (clear (put c s))
      | false ↦ format_loop n cs args (put c s)
    ]
  ]
]
