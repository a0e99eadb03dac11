-- ===== src/Reconfigurable/Text.antt =====
-- The lines of a trace file, of reconfigurable/simulate.cpp: `trim`, and what it uses of the standard library
-- (isdigit, stoi, the reading of an int from a stream, find and replace). A line is the list of its bytes.
pub mod Extract
mod Examples
use astra_network_analytical.Base.{
  ℕ, zero, suc, ◌+◌, ◌-◌, ◌*◌, ◌^◌, Bool, true, false, not, ◌&&◌, ◌||◌, List, [], ◌∷◌, ◌++◌, length,
  Option, none, some, ltb, leb, ◌==◌, if◌then◌else◌, Outcome, Error, ok, fail, ◌>>=◌, exited,
}
use astra_network_analytical.Base.Int.{ℤ, pos, negsuc}

abbrev pub Text : Type 0
Text = List ℕ

abbrev pub is_empty : Text → Bool
is_empty [] = true
is_empty (c ∷ cs) = false

-- The bytes of `ws`.
abbrev pub is_blank : ℕ → Bool
is_blank c = c == b' ' || c == 9 || c == 13 || c == 10

-- find_first_not_of, and the text from there.
unfoldable pub trim_start : Text → Text
trim_start [] = []
trim_start (c ∷ cs) = if is_blank c then trim_start cs else c ∷ cs

-- find_last_not_of, and the text up to there.
unfoldable pub trim_end : Text → Text
trim_end [] = []
trim_end (c ∷ cs) = let rest = trim_end cs in if is_blank c && is_empty rest then [] else c ∷ rest

unfoldable pub trim : Text → Text
unfolding trim_start trim_end
trim s = trim_end (trim_start s)

abbrev pub is_digit : ℕ → Bool
is_digit c = leb b'0' c && leb c b'9'

-- isdigit(line[0]), on a line that is not empty.
abbrev pub starts_with_digit : Text → Bool
starts_with_digit [] = false
starts_with_digit (c ∷ cs) = is_digit c

-- line.rfind(prefix, 0) == 0
unfoldable pub starts_with : Text → Text → Bool
starts_with [] s = true
starts_with (p ∷ ps) [] = false
starts_with (p ∷ ps) (c ∷ cs) = if p == c then starts_with ps cs else false

unfoldable pub equals : Text → Text → Bool
equals [] [] = true
equals (p ∷ ps) (c ∷ cs) = if p == c then equals ps cs else false
equals _ _ = false

-- The value of the digits at the front, behind `value`, and what follows them.
unfoldable pub read_digits : ℕ → Text → ℕ × Text
read_digits value [] = (value, [])
read_digits value (c ∷ cs) =
    if is_digit c then read_digits (10 * value + (c - b'0')) cs else (value, c ∷ cs)

-- On a text that starts with a digit. The exception for a value out of range leaves a function
-- that is noexcept, and ends the program.
unfoldable pub stoi : Text → Outcome ℕ
unfolding read_digits
stoi s = let value = (read_digits 0 s).0 in if ltb value (2 ^ 31) then ok value else fail exited

-- isspace
abbrev pub is_space : ℕ → Bool
is_space c = c == b' ' || leb 9 c && leb c 13

unfoldable pub skip_space : Text → Text
skip_space [] = []
skip_space (c ∷ cs) = if is_space c then skip_space cs else c ∷ cs

-- What `stream >> variable` does to an int: a value with the rest of the stream, or a failure. It leaves the
-- variable alone where nothing is left to read, and else sets it to 0, or to the bound that the number is beyond.
pub data Extraction : Type 0 where
  extracted : ℤ → Text → Extraction
  untouched : Extraction
  failed_with : ℤ → Extraction

unfoldable pub in_range : Bool → ℕ → Text → Extraction
in_range negative value rest =
    if negative
    then (if leb value (2 ^ 31)
        then extracted (if value == 0 then pos 0 else negsuc (value - 1)) rest
        else failed_with (negsuc (2 ^ 31 - 1)))
    else if ltb value (2 ^ 31)
    then extracted (pos value) rest
    else failed_with (pos (2 ^ 31 - 1))

unfoldable pub read_unsigned : Bool → Text → Extraction
unfolding read_digits in_range
read_unsigned negative s =
    if starts_with_digit s
    then in_range negative (read_digits 0 s).0 (read_digits 0 s).1
    else failed_with (pos 0)

unfoldable pub read_signed : Text → Extraction
unfolding read_unsigned
read_signed [] = untouched
read_signed (c ∷ cs) =
    if c == b'-'
    then read_unsigned true cs
    else if c == b'+'
    then read_unsigned false cs
    else read_unsigned false (c ∷ cs)

unfoldable pub extract : Text → Extraction
unfolding skip_space read_signed
extract s = read_signed (skip_space s)

abbrev pub push_extracted : (Text → List ℤ) → Extraction → List ℤ
push_extracted more (extracted value rest) = value ∷ more rest
push_extracted more _ = []

-- while (ss >> value) row.push_back(value): each round reads a byte at least, so that the length
-- of the text is enough fuel.
unfoldable pub extract_all : ℕ → Text → List ℤ
unfolding extract
extract_all zero s = []
extract_all (suc fuel) s = push_extracted (extract_all fuel) (extract s)

-- line.replace(line.find("->"), 2, " "); without "->" the exception ends the program.
unfoldable pub replace_arrow : Text → Outcome Text
replace_arrow [] = fail exited
replace_arrow (c ∷ []) = fail exited
replace_arrow (c ∷ e ∷ cs) =
    let rest = replace_arrow (e ∷ cs) in
    if c == b'-' && e == b'>' then ok (b' ' ∷ cs) else (do r ← rest; ok (c ∷ r))
