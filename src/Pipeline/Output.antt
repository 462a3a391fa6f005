-- ===== src/Pipeline/Output.antt =====
-- `normalize_llm_output` of backend/pipeline/normalize.py, with the tags and the conversion of
-- StreamNormalizer.
use taigi_agent.Prelude.{
  ℕ, zero, suc, none, some, [], ◌∷◌, ◌++◌, length, drop, if◌then◌else◌, Text, starts_with, lstrip,
  strip,
}
use taigi_agent.Pipeline.Streaming.{think_open, think_close, cut_at}

-- `_THINK_RE.sub("", s)`; each step takes a block from the text.
unfoldable pub drop_blocks : ℕ → Text → Text
unfolding cut_at
drop_blocks zero s = s
drop_blocks (suc fuel) s = elim (cut_at think_open s) [
  | none ↦ s
  | some (before, inside) ↦ elim (cut_at think_close inside) [
    | none ↦ s
    | some (_, behind) ↦ before ++ drop_blocks fuel (lstrip behind)
  ]
]

-- `_ORPHAN_THINK_TAG_RE.sub("", s)`; each step takes a character at least from the text.
unfoldable pub drop_tags : ℕ → Text → Text
drop_tags zero s = s
drop_tags (suc fuel) [] = []
drop_tags (suc fuel) (c ∷ s) =
    if starts_with think_open (c ∷ s)
    then drop_tags fuel (lstrip (drop (length think_open) (c ∷ s)))
    else if starts_with think_close (c ∷ s)
    then drop_tags fuel (lstrip (drop (length think_close) (c ∷ s)))
    else c ∷ drop_tags fuel s

unfoldable pub drop_thinking : Text → Text
unfolding drop_blocks drop_tags
drop_thinking s = let t = drop_blocks (length s) s in drop_tags (length t) t

-- `normalize_llm_output`
unfoldable pub normalize_llm_output : (Text → Text) → Text → Text
unfolding drop_thinking
normalize_llm_output convert s = convert (strip (drop_thinking s))
