-- ===== src/Agent/Context/Compact.antt =====
-- `compact_long_tool_results` of backend/agent/context.py.
use taigi_agent.Prelude.{
  ℕ, ◌+◌, ◌≤◌, ◌<◌, ◌≡◌, refl, ap, sym, append_assoc, true, false, List, [], ◌∷◌, ◌++◌, arith,
  length, take, ltb, if◌then◌else◌, Bool-cases, inl, inr, Text, starts_with,
}
use taigi_agent.Agent.Context.{
  Content, none_given, text, parts, Message, is_tool, compact_marker, preview_label, ellipsis,
  preview, is_long, compact_content, compact_message, compact_long_tool_results,
}

starts_with-append : (s t : Text) → starts_with s (s ++ t) ≡ true
starts_with-append [] t = refl
starts_with-append (c ∷ s) t = ground (arith, starts_with-append s t)

preview-not_long : (max_chars n : ℕ) (t : Text) → is_long max_chars (preview n t) ≡ false
unfolding is_long preview
preview-not_long max_chars n t =
    let marked =
      starts_with-append compact_marker
        (preview_label ++ (take n t ++ (if ltb n (length t) then ellipsis else []))) in
    ground (arith, marked)

compact_content_idem :
    (max_chars n : ℕ) (c : Content)
    → compact_content max_chars n (compact_content max_chars n c) ≡ compact_content max_chars n c
unfolding compact_content
compact_content_idem max_chars n none_given = refl
compact_content_idem max_chars n parts = refl
compact_content_idem max_chars n (text t) = elim (Bool-cases (is_long max_chars t)) [
  | inl h ↦ rw h (rw (preview-not_long max_chars n t))
  | inr h ↦ rw h (rw h)
]

compact_message_idem :
    (max_chars n : ℕ) (m : Message)
    → compact_message max_chars n (compact_message max_chars n m) ≡ compact_message max_chars n m
unfolding compact_message
compact_message_idem max_chars n m = elim (Bool-cases (is_tool m)) [
  | inl h ↦
      rw h (rw h (ap (λ c. record m { content = c }) (compact_content_idem max_chars n m.content)))
  | inr h ↦ rw h (rw h)
]

-- Compacting a history again changes nothing, so a result is never cut twice.
compact_long_tool_results_idem :
    (max_chars n : ℕ) (ms : List Message)
    → compact_long_tool_results max_chars n (compact_long_tool_results max_chars n ms)
      ≡ compact_long_tool_results max_chars n ms
unfolding compact_long_tool_results
compact_long_tool_results_idem max_chars n [] = refl
compact_long_tool_results_idem max_chars n (m ∷ ms) =
    cc (compact_message_idem max_chars n m, compact_long_tool_results_idem max_chars n ms)

-- A tool result whose text is over the limit and does not begin with the marker.
abbrev pub IsCut : ℕ → Message → Text → Type 0
IsCut max_chars m t =
    (is_tool m ≡ true)
    × (m.content ≡ text t)
    × (max_chars < length t)
    × (starts_with compact_marker t ≡ false)

-- A short stand-in for a text: it begins with the marker, has the first characters of the text in
-- it, and of other characters 19 at most.
abbrev pub IsPreview : ℕ → Text → Text → Type 0
IsPreview n t t' =
    (starts_with compact_marker t' ≡ true)
    × (before : Text) × (after : Text) × (t' ≡ before ++ (take n t ++ after))
    × (length before + length after ≤ 19)

-- What one message is after the compaction.
abbrev pub Compacted : ℕ → ℕ → Message → Message → Type 0
Compacted max_chars n m m' =
    (((t : Text) → IsCut max_chars m t → ⊥) → m' ≡ m)
    × ((t : Text)
        → IsCut max_chars m t
        → (t' : Text) × (m' ≡ record m { content = text t' }) × IsPreview n t t')

preview-IsPreview : (n : ℕ) (t : Text) → IsPreview n t (preview n t)
unfolding preview
preview-IsPreview n t = (
  starts_with-append compact_marker
      (preview_label ++ (take n t ++ (if ltb n (length t) then ellipsis else []))),
  compact_marker ++ preview_label,
  (if ltb n (length t) then ellipsis else []),
  sym (
      append_assoc compact_marker preview_label
        (take n t ++ (if ltb n (length t) then ellipsis else []))),
  ground arith,
)

compact_message-cut :
    (max_chars n : ℕ) (m : Message) (t : Text)
    → IsCut max_chars m t
    → compact_message max_chars n m ≡ record m { content = text (preview n t) }
unfolding compact_message compact_content is_long
compact_message-cut max_chars n m t h =
    let over : ltb max_chars (length t) ≡ true = ground (arith, h.2) in
    rw (h.0, h.1) (rw (over, h.3) refl)

compact_message-same :
    (max_chars n : ℕ) (m : Message)
    → ((t : Text) → IsCut max_chars m t → ⊥)
    → compact_message max_chars n m ≡ m
unfolding compact_message compact_content is_long
compact_message-same max_chars n m h = elim (Bool-cases (is_tool m)) [
  | inr f ↦ rw f refl
  | inl b ↦ rw b (ap (λ c. record m { content = c }) (go m.content refl b))
]
  where
    go : (c : Content) → m.content ≡ c → is_tool m ≡ true → compact_content max_chars n c ≡ c
    go none_given e b = refl
    go parts e b = refl
    go (text t) e b = elim (Bool-cases (ltb max_chars (length t))) [
      | inr short ↦ rw short refl
      | inl over ↦ elim (Bool-cases (starts_with compact_marker t)) [
        | inl marked ↦ rw (over, marked) refl
        | inr plain ↦ absurd (h t (b, e, ground (arith, over), plain))
      ]
    ]

compact_message-Compacted :
    (max_chars n : ℕ) (m : Message) → Compacted max_chars n m (compact_message max_chars n m)
compact_message-Compacted max_chars n m = (
  compact_message-same max_chars n m,
  λ t h. (preview n t, compact_message-cut max_chars n m t h, preview-IsPreview n t),
)

-- Two histories of one length whose messages correspond.
abbrev pub AllCompacted : ℕ → ℕ → List Message → List Message → Type 0
AllCompacted max_chars n [] [] = Unit
AllCompacted max_chars n (m ∷ ms) (m' ∷ ms') =
    Compacted max_chars n m m' × AllCompacted max_chars n ms ms'
AllCompacted max_chars n _ _ = ⊥

-- Message by message: a tool result whose text is over the limit and does not begin with the marker
-- gets a text that begins with the marker and has the first characters of the old one in it, with
-- 19 other characters at most, and keeps all its other fields; every other message is untouched.
pub compact_long_tool_results-AllCompacted :
    (max_chars n : ℕ) (ms : List Message)
    → AllCompacted max_chars n ms (compact_long_tool_results max_chars n ms)
unfolding compact_long_tool_results
compact_long_tool_results-AllCompacted max_chars n [] = tt
compact_long_tool_results-AllCompacted max_chars n (m ∷ ms) =
    (compact_message-Compacted max_chars n m, compact_long_tool_results-AllCompacted max_chars n ms)
