-- ===== src/Pipeline/Streaming/Cutting.antt =====
-- What StreamNormalizer of backend/pipeline/normalize.py cuts loses no text.
use taigi_agent.Prelude.{
  ℕ, ◌≡◌, refl, ap, sym, ◌∙◌, Bool, true, false, Option, none, some, List, [], ◌∷◌, ◌++◌,
  append-nil, append_assoc, concat, take, drop, take-append-drop, Bool-cases, inl, inr, Text,
}
use taigi_agent.Pipeline.Streaming.{
  is_sentence_end, sentences, soft_cut, soft_pieces, ready_pieces, cut_ready, cut_pieces,
}

concat-sentences : (part s : Text) → concat (sentences part s).0 ++ (sentences part s).1 ≡ part ++ s
unfolding sentences
concat-sentences part [] = sym (append-nil part)
concat-sentences part (c ∷ s) = elim (Bool-cases (is_sentence_end c)) [
  | inl t ↦ rw t (
      append_assoc (part ++ c ∷ []) (concat (sentences [] s).0) (sentences [] s).1
      ∙ (ap (λ x. (part ++ c ∷ []) ++ x) (concat-sentences [] s) ∙ append_assoc part (c ∷ []) s))
  | inr t ↦ rw t (concat-sentences (part ++ c ∷ []) s ∙ append_assoc part (c ∷ []) s)
]

concat-soft_pieces :
    (clean : Text) (o : Option ℕ)
    → concat (soft_pieces clean o).0 ++ (soft_pieces clean o).1 ≡ clean
unfolding soft_pieces
concat-soft_pieces clean none = refl
concat-soft_pieces clean (some cut) =
    ap (λ x. x ++ drop cut clean) (append-nil (take cut clean)) ∙ take-append-drop cut clean

concat-ready_pieces :
    (clean : Text) (pieces : List Text) (rest : Text)
    → concat pieces ++ rest ≡ clean
    → concat (ready_pieces clean pieces rest).0 ++ (ready_pieces clean pieces rest).1 ≡ clean
unfolding ready_pieces
concat-ready_pieces clean [] rest h = concat-soft_pieces clean (soft_cut clean)
concat-ready_pieces clean (p ∷ pieces) rest h = h

concat-cut_ready : (clean : Text) → concat (cut_ready clean).0 ++ (cut_ready clean).1 ≡ clean
unfolding cut_ready
concat-cut_ready clean =
    concat-ready_pieces clean (sentences [] clean).0 (sentences [] clean).1
      (concat-sentences [] clean)

-- The pieces that are cut from the text, and the text that is kept, are the text, in its order and
-- with nothing left out, whether the stream is at its end or not; at its end nothing is kept.
pub concat-cut_pieces :
    (final : Bool) (clean : Text)
    → (concat (cut_pieces final clean).0 ++ (cut_pieces final clean).1 ≡ clean)
      × (final ≡ true → (cut_pieces final clean).1 ≡ [])
unfolding cut_pieces
concat-cut_pieces true [] = (refl, λ e. refl)
concat-cut_pieces true (c ∷ clean) =
    (append-nil ((c ∷ clean) ++ []) ∙ append-nil (c ∷ clean), λ e. refl)
concat-cut_pieces false clean = (concat-cut_ready clean, λ e. cc)
