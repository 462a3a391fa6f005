-- ===== src/Pipeline/Streaming.antt =====
-- StreamNormalizer of backend/pipeline/normalize.py. `convert` is the conversion of OpenCC.
pub mod Cutting
use taigi_agent.Prelude.{
  ℕ, zero, suc, ◌+◌, ◌-◌, max, Bool, true, false, not, ◌&&◌, ◌||◌, Option, none, some, List, [],
  ◌∷◌, ◌++◌, length, take, drop, ltb, leb, ◌==◌, if◌then◌else◌, Text, codes, text_eq, starts_with,
  lstrip, rstrip,
}

abbrev pub think_open : Text
think_open = codes "<think>"

abbrev pub think_close : Text
think_close = codes "</think>"

abbrev pub soft_emit_min_chars : ℕ
soft_emit_min_chars = 20

abbrev pub emit_max_chars : ℕ
emit_max_chars = 200

pub record Stream : Type 0 where
  pub raw : Text
  pub clean : Text
  pub in_think : Bool
  pub emitted : Bool

unfoldable pub new : Stream
new = record { raw = []; clean = []; in_think = false; emitted = false }

-- `find` of a tag that is not empty: what stands before the first one, and behind it.
unfoldable pub cut_at : Text → Text → Option (Text × Text)
cut_at tag [] = none
cut_at tag (c ∷ s) =
    if starts_with tag (c ∷ s)
    then some ([], drop (length tag) (c ∷ s))
    else elim (cut_at tag s) [ none ↦ none | some (before, behind) ↦ some (c ∷ before, behind) ]

-- `raw.endswith(part)`
unfoldable pub ends_with : Text → Text → Bool
ends_with part raw =
    leb (length part) (length raw) && text_eq (drop (length raw - length part) raw) part

-- The longest start of the tag, of `size` characters at most, that the text ends with.
unfoldable pub held : Text → ℕ → Text → ℕ
unfolding ends_with
held tag zero raw = 0
held tag (suc size) raw =
    let shorter = held tag size raw in
    if ends_with (take (suc size) tag) raw then suc size else shorter

unfoldable pub hold_back : Stream → Stream
unfolding held
hold_back s =
    let hold =
      max (held think_open (length think_open - 1) s.raw)
        (held think_close (length think_close - 1) s.raw) in
    let cut = length s.raw - hold in
    record s { clean = s.clean ++ take cut s.raw; raw = drop cut s.raw }

-- What a pass of `_scan_think_blocks` finds outside a block: an opening tag, a closing one that
-- stands before every opening one, or none.
pub data Found : Type 0 where
  opening : Text → Text → Found
  orphan : Text → Text → Found
  nothing : Found

unfoldable pub first_tag : Option (Text × Text) → Option (Text × Text) → Found
first_tag none none = nothing
first_tag (some (before, behind)) none = opening before behind
first_tag none (some (before, behind)) = orphan before behind
first_tag (some (b, rest)) (some (b', rest')) =
    if ltb (length b') (length b) then orphan b' rest' else opening b rest

-- `_scan_think_blocks`; each pass but the last takes a tag from the text.
unfoldable pub scan : ℕ → Stream → Stream
unfolding cut_at first_tag hold_back
scan zero s = s
scan (suc fuel) s =
    if s.in_think
    then elim (cut_at think_close s.raw) [
      | none ↦ s
      | some (before, behind) ↦ scan fuel (record s { raw = behind; in_think = false })
    ]
    else elim (first_tag (cut_at think_open s.raw) (cut_at think_close s.raw)) [
      | orphan before behind ↦ scan fuel (record s { clean = s.clean ++ before; raw = behind })
      | opening before behind ↦
          scan fuel (record s { clean = s.clean ++ before; raw = behind; in_think = true })
      | nothing ↦ hold_back s
    ]

unfoldable pub scan_think_blocks : Stream → Stream
unfolding scan
scan_think_blocks s = scan (suc (length s.raw)) s

abbrev pub is_any_of : Text → ℕ → Bool
is_any_of [] c = false
is_any_of (d ∷ s) c = c == d || is_any_of s c

-- `_SENTENCE_END_RE` and `_SOFT_BOUNDARY_RE`, of a character.
abbrev pub is_sentence_end : ℕ → Bool
is_sentence_end c = is_any_of (codes "。！？!?" ++ 10 ∷ []) c

abbrev pub is_soft_boundary : ℕ → Bool
is_soft_boundary c = is_any_of (codes "，、；") c

-- The pieces up to each sentence end, and the rest. The first argument is the piece so far.
unfoldable pub sentences : Text → Text → List Text × Text
sentences part [] = ([], part)
sentences part (c ∷ s) =
    if is_sentence_end c
    then (let (pieces, rest) = sentences [] s in ((part ++ c ∷ []) ∷ pieces, rest))
    else sentences (part ++ c ∷ []) s

-- `soft_ends[-1].end()`
unfoldable pub last_soft_end : Text → Option ℕ
last_soft_end [] = none
last_soft_end (c ∷ s) = elim (last_soft_end s) [
  | some n ↦ some (suc n)
  | none ↦ if is_soft_boundary c then some 1 else none
]

-- The cut of a text without a sentence end; none where it stays.
unfoldable pub soft_cut : Text → Option ℕ
unfolding last_soft_end
soft_cut clean =
    let long = if leb emit_max_chars (length clean) then some (length clean) else none in
    if leb soft_emit_min_chars (length clean)
    then elim (last_soft_end clean) [ some n ↦ some n | none ↦ long ]
    else long

unfoldable pub soft_pieces : Text → Option ℕ → List Text × Text
soft_pieces clean none = ([], clean)
soft_pieces clean (some cut) = (take cut clean ∷ [], drop cut clean)

-- The sentences, or where there is none a part up to a soft boundary.
unfoldable pub ready_pieces : Text → List Text → Text → List Text × Text
unfolding soft_cut soft_pieces
ready_pieces clean [] rest = soft_pieces clean (soft_cut clean)
ready_pieces clean (p ∷ pieces) rest = (p ∷ pieces, rest)

-- The pieces that `_emit_ready` cuts from the text, and what it keeps.
unfoldable pub cut_ready : Text → List Text × Text
unfolding sentences ready_pieces
cut_ready clean = let (pieces, rest) = sentences [] clean in ready_pieces clean pieces rest

-- `raw_pieces` and the text left.
unfoldable pub cut_pieces : Bool → Text → List Text × Text
unfolding cut_ready
cut_pieces false clean = cut_ready clean
cut_pieces true [] = ([], [])
cut_pieces true (c ∷ clean) = ((c ∷ clean) ∷ [], [])

module _ (convert : Text → Text) where
  -- A piece as it is spoken; `last` is `final and i == last`.
  unfoldable pub spoken : Bool → Bool → Text → Text
  spoken emitted last raw =
      let piece = if emitted then convert raw else lstrip (convert raw) in
      if last then rstrip piece else piece

  -- The loop over `raw_pieces`: whether anything was emitted by now, and the pieces.
  unfoldable pub speak : Bool → Bool → List Text → Bool × List Text
  unfolding spoken
  speak final emitted [] = (emitted, [])
  speak final emitted (raw ∷ raws) =
      let piece = spoken emitted (final && leb (length raws) 0) raw in
      if text_eq piece []
      then speak final emitted raws
      else (let (e, pieces) = speak final true raws in (e, piece ∷ pieces))

  -- `_emit_ready`
  unfoldable pub emit_ready : Bool → Stream → Stream × List Text
  unfolding cut_pieces speak
  emit_ready final s =
      let (raws, rest) = cut_pieces final s.clean in
      let (e, pieces) = speak final s.emitted raws in
      (record s { clean = rest; emitted = e }, pieces)

  unfoldable pub feed : Stream → Text → Stream × List Text
  unfolding emit_ready scan_think_blocks
  feed s delta = emit_ready false (scan_think_blocks (record s { raw = s.raw ++ delta }))

  unfoldable pub flush : Stream → Stream × List Text
  unfolding emit_ready scan_think_blocks
  flush s =
      let s' = scan_think_blocks s in
      let kept = if s'.in_think then s'.clean else s'.clean ++ s'.raw in
      emit_ready true (record s' { clean = kept; raw = [] })
