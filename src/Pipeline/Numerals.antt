-- ===== src/Pipeline/Numerals.antt =====
-- The Chinese numerals of backend/pipeline/normalize.py, and Python's `str` of a number.
pub mod Reading
use taigi_agent.Prelude.{
  ℕ, zero, suc, ◌+◌, ◌/◌, ◌%◌, Option, none, some, List, [], ◌∷◌, ◌++◌, ltb, ◌==◌, if◌then◌else◌,
  Text, codes,
}

-- The digits of a number; the fuel bounds how many there are.
unfoldable pub str_digits : ℕ → ℕ → Text
str_digits zero n = []
str_digits (suc fuel) n =
    let more = str_digits fuel (n / 10) ++ (48 + n % 10) ∷ [] in
    if ltb n 10 then (48 + n) ∷ [] else more

-- `str(n)`: a number has at most as many digits as its successor.
unfoldable pub str : ℕ → Text
unfolding str_digits
str n = str_digits (suc n) n

-- `DIGIT_ZH.get(c, c)`
unfoldable pub digit_zh : ℕ → Text
digit_zh c =
    if c == b'0'
    then codes "零"
    else if c == b'1'
    then codes "一"
    else if c == b'2'
    then codes "二"
    else if c == b'3'
    then codes "三"
    else if c == b'4'
    then codes "四"
    else if c == b'5'
    then codes "五"
    else if c == b'6'
    then codes "六"
    else if c == b'7'
    then codes "七"
    else if c == b'8'
    then codes "八"
    else if c == b'9'
    then codes "九"
    else c ∷ []

unfoldable pub digits_to_chinese : Text → Text
unfolding digit_zh
digits_to_chinese [] = []
digits_to_chinese (c ∷ s) = digit_zh c ++ digits_to_chinese s

-- `_ONES_ZH[n]`, for a digit.
unfoldable pub ones_zh : ℕ → Text
unfolding digit_zh
ones_zh n = if n == 0 then [] else digit_zh (48 + n)

unfoldable pub count_to_chinese : ℕ → Text
unfolding ones_zh digits_to_chinese str
count_to_chinese n =
    if n == 0
    then codes "零"
    else if ltb n 10
    then ones_zh n
    else if ltb n 20
    then codes "十" ++ ones_zh (n % 10)
    else if ltb n 100
    then ones_zh (n / 10) ++ (codes "十" ++ ones_zh (n % 10))
    else digits_to_chinese (str n)

-- `_mins_zh` of backend/services/departures/normalize.py
unfoldable pub mins_zh : ℕ → Text
mins_zh n = if ltb n 100 then count_to_chinese n else str n
