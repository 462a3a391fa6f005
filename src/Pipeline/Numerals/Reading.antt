-- ===== src/Pipeline/Numerals/Reading.antt =====
-- A numeral of backend/pipeline/normalize.py can be read back.
use taigi_agent.Prelude.{
  String, leb, text_eq, ℕ, zero, suc, ◌+◌, ◌-◌, ◌*◌, ◌/◌, ◌%◌, ◌≤◌, ◌<◌, ◌≡◌, refl, Bool, true,
  false, ◌&&◌, List, [], ◌∷◌, ◌++◌, arith, ltb, ◌==◌, if◌then◌else◌, Bool-cases, inl, inr, Text,
  codes,
}
use taigi_agent.Pipeline.Numerals.{str_digits, str, count_to_chinese, mins_zh}

-- The number that a row of ASCII digits stands for, behind those read so far.
abbrev pub read_digits : ℕ → Text → ℕ
read_digits acc [] = acc
read_digits acc (c ∷ s) = read_digits (acc * 10 + (c - 48)) s

read_digits-append_one :
    (acc : ℕ) (s : Text) (c : ℕ) → read_digits acc (s ++ c ∷ []) ≡ read_digits acc s * 10 + (c - 48)
read_digits-append_one acc [] c = refl
read_digits-append_one acc (d ∷ s) c = read_digits-append_one (acc * 10 + (d - 48)) s c

read-str_digits : (fuel n : ℕ) → n < fuel → read_digits 0 (str_digits fuel n) ≡ n
unfolding str_digits
read-str_digits zero n h = elim h [ ]
read-str_digits (suc fuel) n h = elim (Bool-cases (ltb n 10)) [
  | inl t ↦ rw t (omega arith)
  | inr t ↦
      let ten : 10 ≤ n = ground arith in
      rw (t, read_digits-append_one 0 (str_digits fuel (n / 10)) (48 + n % 10))
        (omega (arith, read-str_digits fuel (n / 10) (omega arith)))
]

-- The digits that `str` writes read as the number.
pub read-str : (n : ℕ) → read_digits 0 (str n) ≡ n
unfolding str
read-str n = read-str_digits (suc n) n (omega arith)

-- The value of a Chinese digit; 0 for any other character.
value_in : List String → ℕ → ℕ → ℕ
value_in [] k c = 0
value_in (z ∷ zs) k c = if text_eq (codes z) (c ∷ []) then k else value_in zs (k + 1) c

value_zh : ℕ → ℕ
unfolding value_in
value_zh = value_in ("一" ∷ "二" ∷ "三" ∷ "四" ∷ "五" ∷ "六" ∷ "七" ∷ "八" ∷ "九" ∷ []) 1

-- A Chinese count below a hundred, read from the left.
pub read_zh : ℕ → Text → ℕ
unfolding value_zh
read_zh acc [] = acc
read_zh acc (c ∷ s) =
    read_zh
      (if text_eq (codes "十") (c ∷ [])
        then (if acc == 0 then 10 else acc * 10)
        else acc + value_zh c)
      s

abbrev pub is_digit : ℕ → Bool
is_digit c = leb 48 c && leb c 57

abbrev pub all_digits : Text → Bool
all_digits [] = true
all_digits (c ∷ s) = is_digit c && all_digits s

-- The minutes that a status text names.
pub read_minutes : Text → ℕ
unfolding read_zh
read_minutes t = if all_digits t then read_digits 0 t else read_zh 0 t

all_digits-append_one :
    (s : Text) (c : ℕ) → all_digits s ≡ true → is_digit c ≡ true → all_digits (s ++ c ∷ []) ≡ true
all_digits-append_one [] c h k = rw k
all_digits-append_one (d ∷ s) c h k = ground (arith, all_digits-append_one s c)

is_digit_of_lt : (n : ℕ) → n < 10 → is_digit (48 + n) ≡ true
is_digit_of_lt n h = ground arith

all_digits-str_digits : (fuel n : ℕ) → n < fuel → all_digits (str_digits fuel n) ≡ true
unfolding str_digits
all_digits-str_digits zero n h = elim h [ ]
all_digits-str_digits (suc fuel) n h = elim (Bool-cases (ltb n 10)) [
  | inl t ↦ let small : n < 10 = ground arith in rw t (rw (is_digit_of_lt n small))
  | inr t ↦
      let ten : 10 ≤ n = ground arith in
      rw t (
        all_digits-append_one (str_digits fuel (n / 10)) (48 + n % 10)
          (all_digits-str_digits fuel (n / 10) (omega arith))
          (is_digit_of_lt (n % 10) (omega arith)))
]

all_digits-str : (n : ℕ) → all_digits (str n) ≡ true
unfolding str
all_digits-str n = all_digits-str_digits (suc n) n (omega arith)

-- Every count under the bound reads back.
reads_back : ℕ → Bool
reads_back zero = true
reads_back (suc n) = if read_minutes (count_to_chinese n) == n then reads_back n else false

reads_back_lt :
    (bound n : ℕ) → n < bound → reads_back bound ≡ true → read_minutes (count_to_chinese n) ≡ n
unfolding reads_back
reads_back_lt zero n lt h = absurd (omega arith)
reads_back_lt (suc bound) n lt h = elim (Bool-cases (n == bound)) [
  | inl t ↦ let last : n ≡ bound = ground arith in rw last (ground arith)
  | inr t ↦ reads_back_lt bound n (ground arith) (ground arith)
]

hundred_read_back : reads_back 100 ≡ true
unfolding reads_back read_minutes count_to_chinese
hundred_read_back = refl

read_minutes-str : (n : ℕ) → read_minutes (str n) ≡ n
unfolding read_minutes
read_minutes-str n = rw (all_digits-str n) (read-str n)

-- The minutes that a rider is told can be read back from the text, whatever their number is: the
-- texts of two numbers of minutes are never the same.
pub read_minutes-mins_zh : (n : ℕ) → read_minutes (mins_zh n) ≡ n
unfolding mins_zh
read_minutes-mins_zh n = elim (Bool-cases (ltb n 100)) [
  | inl t ↦ rw t (reads_back_lt 100 n (ground arith) hundred_read_back)
  | inr t ↦ rw t (read_minutes-str n)
]
