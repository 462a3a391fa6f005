-- ===== src/Agent/Router.antt =====
-- backend/agent/router.py and the pattern of backend/tools/intent_rules.py: the questions that are
-- answered without the model. The digits of `\d` are an argument, as Unicode has more of them.
use taigi_agent.Prelude.{
  ℕ, zero, suc, ◌-◌, Bool, true, false, ◌&&◌, ◌||◌, Option, none, some, List, [], ◌∷◌, ◌++◌, concat,
  map, any, length, drop, ltb, leb, ◌==◌, if◌then◌else◌, Text, codes, text_eq, starts_with,
  contains, strip,
}

pub data Intent : Type 0 where
  route_only remote_destination timetable_unsupported unknown : Intent

-- `ConvState.last_intent`
pub record ConvState : Type 0 where
  pub last_intent : Option Intent

pub record Decision : Type 0 where
  pub intent : Intent
  pub canned_response : Option Text
  pub fallback_to_llm : Bool
  pub next_state : Option ConvState

-- `to_halfwidth` of backend/pipeline/normalize.py
unfoldable pub to_halfwidth : Text → Text
to_halfwidth [] = []
to_halfwidth (c ∷ s) = (if leb 0xFF01 c && leb c 0xFF5E then c - 0xFEE0 else c) ∷ to_halfwidth s

abbrev pub is_letter : ℕ → Bool
is_letter c = leb 65 c && leb c 90 || leb 97 c && leb c 122

-- `(…)路?$`: what the group would be.
unfoldable pub without_suffix : Text → Text
without_suffix [] = []
without_suffix (c ∷ s) = if text_eq (c ∷ s) (codes "路") then [] else c ∷ without_suffix s

-- The digits at the start of a text, and the rest.
unfoldable pub digit_run : (ℕ → Bool) → Text → Text × Text
digit_run is_decimal [] = ([], [])
digit_run is_decimal (c ∷ s) =
    if is_decimal c
    then (let (run, rest) = digit_run is_decimal s in (c ∷ run, rest))
    else ([], c ∷ s)

-- `\d{2,4}[A-Za-z]?` to the end.
unfoldable pub is_number : (ℕ → Bool) → Text → Bool
unfolding digit_run
is_number is_decimal s =
    let (run, rest) = digit_run is_decimal s in
    leb 2 (length run)
    && leb (length run) 4
    && elim rest [ [] ↦ true | c ∷ more ↦ is_letter c && text_eq more [] ]

-- The group of `_ROUTE_ONLY_RE`.
unfoldable pub is_route : (ℕ → Bool) → Text → Bool
unfolding is_number
is_route is_decimal [] = false
is_route is_decimal (c ∷ s) =
    if is_letter c then is_number is_decimal s else is_number is_decimal (c ∷ s)

unfoldable pub route_of : (ℕ → Bool) → Text → Option Text
unfolding is_route without_suffix
route_of is_decimal s =
    if is_route is_decimal (without_suffix s) then some (without_suffix s) else none

-- `_CHINESE_DIGITS`
unfoldable pub chinese_digit : ℕ → Option ℕ
chinese_digit c =
    if text_eq (c ∷ []) (codes "零")
    then some b'0'
    else if text_eq (c ∷ []) (codes "〇")
    then some b'0'
    else if text_eq (c ∷ []) (codes "一")
    then some b'1'
    else if text_eq (c ∷ []) (codes "二")
    then some b'2'
    else if text_eq (c ∷ []) (codes "三")
    then some b'3'
    else if text_eq (c ∷ []) (codes "四")
    then some b'4'
    else if text_eq (c ∷ []) (codes "五")
    then some b'5'
    else if text_eq (c ∷ []) (codes "六")
    then some b'6'
    else if text_eq (c ∷ []) (codes "七")
    then some b'7'
    else if text_eq (c ∷ []) (codes "八")
    then some b'8'
    else if text_eq (c ∷ []) (codes "九")
    then some b'9'
    else none

unfoldable pub chinese_digits : Text → Option Text
unfolding chinese_digit
chinese_digits [] = some []
chinese_digits (c ∷ s) = elim (chinese_digit c) [
  | none ↦ none
  | some d ↦ elim (chinese_digits s) [ none ↦ none | some ds ↦ some (d ∷ ds) ]
]

-- A match of `_CHINESE_ROUTE_ONLY_RE`, translated; any other text as it is.
unfoldable pub translated : Text → Text
unfolding chinese_digits without_suffix
translated s =
    if leb 2 (length (without_suffix s)) && leb (length (without_suffix s)) 4
    then elim (chinese_digits (without_suffix s)) [ none ↦ s | some ds ↦ ds ]
    else s

abbrev pub remote_cities : List Text
remote_cities =
    codes "台北"
    ∷ codes "臺北"
    ∷ codes "台中"
    ∷ codes "臺中"
    ∷ codes "高雄"
    ∷ codes "新北"
    ∷ codes "桃園"
    ∷ codes "新竹"
    ∷ codes "宜蘭"
    ∷ codes "花蓮"
    ∷ codes "台東"
    ∷ codes "臺東"
    ∷ codes "屏東"
    ∷ []

-- `_is_remote_destination`
unfoldable pub is_remote_destination : Text → Bool
is_remote_destination s = contains (codes "轉乘") s || any (λ city. contains city s) remote_cities

-- What a part of a pattern may leave of a text.
abbrev pub Matcher : Type 0
Matcher = Text → List Text

unfoldable pub literal : Text → Matcher
literal w s = if starts_with w s then drop (length w) s ∷ [] else []

-- `.{least,least + more}`; a dot is any character but a line feed.
unfoldable pub gap : ℕ → ℕ → Matcher
gap zero zero s = s ∷ []
gap zero (suc more) [] = [] ∷ []
gap zero (suc more) (c ∷ s) =
    let rest = gap zero more s in if c == 10 then (c ∷ s) ∷ [] else (c ∷ s) ∷ rest
gap (suc least) more [] = []
gap (suc least) more (c ∷ s) = let rest = gap least more s in if c == 10 then [] else rest

infix 30 ◌then◌
unfoldable pub ◌then◌ : Matcher → Matcher → Matcher
(m then n) s = concat (map n (m s))

unfoldable pub one_of : List Matcher → Matcher
one_of [] s = []
one_of (m ∷ ms) s = m s ++ one_of ms s

-- `search`: a match anywhere.
unfoldable pub search_in : Matcher → Text → Bool
search_in m [] = ltb 0 (length (m []))
search_in m (c ∷ s) = ltb 0 (length (m (c ∷ s))) || search_in m s

-- `TIMETABLE_RE`; `幾分鐘?` matches wherever `幾分` does.
unfoldable pub timetable : Matcher
unfolding one_of literal gap ◌then◌
timetable = one_of (
    literal (codes "完整時刻表")
    ∷ literal (codes "全天時刻表")
    ∷ literal (codes "時刻表")
    ∷ literal (codes "班次表")
    ∷ literal (codes "幾點幾分發車")
    ∷ literal (codes "發車時刻")
    ∷ (literal (codes "站間") then (gap 0 10 then literal (codes "幾分鐘")))
    ∷ (literal (codes "從") then (
        gap 1 19 then (
          literal (codes "到") then (
            gap 1 19 then (
              one_of (
                literal [] ∷ literal (codes "要") ∷ literal (codes "大概") ∷ literal (codes "大約") ∷ [])
              then (gap 0 5 then literal (codes "幾分")))))))
    ∷ [])

-- An answer without the model, and the state that it leaves.
unfoldable pub canned : Intent → Text → Decision
canned intent response = record {
  intent = intent;
  canned_response = some response;
  fallback_to_llm = false;
  next_state = some (record { last_intent = some intent });
}

abbrev pub to_model : Decision
to_model = record {
  intent = unknown;
  canned_response = none;
  fallback_to_llm = true;
  next_state = none;
}

-- The rules behind the first.
unfoldable pub by_topic : Text → Decision
unfolding is_remote_destination search_in timetable canned
by_topic text =
    if is_remote_destination text
    then canned remote_destination (codes "目前只能規劃雲林縣內行程，跨縣市請改用其他地圖服務查詢。")
    else if search_in timetable text
    then canned timetable_unsupported (codes "時刻表查不了，只能查下一班到站時間喔。")
    else to_model

unfoldable pub by_rule : (ℕ → Bool) → Text → Decision
unfolding route_of canned by_topic
by_rule is_decimal text = elim (route_of is_decimal text) [
  | some route ↦ canned route_only (route ++ codes "您想查什麼，到站時間還是有沒有停某個地方？")
  | none ↦ by_topic text
]

-- `IntentRouter.classify`
unfoldable pub classify : (ℕ → Bool) → Text → Decision
unfolding to_halfwidth translated by_rule
classify is_decimal input =
    let text = strip (to_halfwidth input) in
    if text_eq text [] then to_model else by_rule is_decimal (translated text)
