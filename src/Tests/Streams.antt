-- ===== src/Tests/Streams.antt =====
-- Runs of StreamNormalizer of backend/pipeline/normalize.py, with a conversion that changes nothing.
use taigi_agent.Prelude.{◌≡◌, refl, true, false, [], ◌∷◌, ◌++◌, concat, Text, codes}
use taigi_agent.Pipeline.Streaming.{new, cut_pieces, feed, flush}
use taigi_agent.Pipeline.Streaming.Cutting.{concat-cut_pieces}

abbrev same : Text → Text
same t = t

-- A tag that two deltas share is no text, and neither is what a block holds.
split_tag :
    (feed same (feed same new (codes "好。<thi")).0 (codes "nk>想。</think>再見")).0.clean ≡ codes "再見"
unfolding feed new
split_tag = refl

flushed : (flush same (feed same new (codes "你好</think>，再")).0).1 ≡ codes "你好，再" ∷ []
unfolding feed flush new
flushed = refl

concat-cut_pieces_example :
    (concat (cut_pieces false (codes "好。再見")).0 ++ (cut_pieces false (codes "好。再見")).1
      ≡ codes "好。再見")
    × (false ≡ true → (cut_pieces false (codes "好。再見")).1 ≡ [])
concat-cut_pieces_example = concat-cut_pieces false (codes "好。再見")
