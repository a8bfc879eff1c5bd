-- ===== src/Models/Prefix.antt =====
-- internal/registry/model_prefix.go: the provider's name in front of a model's id, in brackets.
use llm_mux_fork.Prelude.{
  ◌-◌, leb, Bool, not, ◌&&◌, ◌||◌, if◌then◌else◌, Option, none, some, Text, txt, is_empty,
  has_prefix, trim_space, to_lower, [], ◌∷◌, ◌++◌, Map, lookup,
}

unfoldable pub after_first : Text → Text
after_first [] = []
after_first (_ ∷ s) = s

-- strings.Index(s, "] "): the text before and the text after the first place.
unfoldable pub split_bracket : Text → Option (Text × Text)
unfolding has_prefix after_first
split_bracket [] = none
split_bracket (c ∷ s) =
    let rest : Option (Text × Text) = elim (split_bracket s) [
      | none ↦ none
      | some (a, b) ↦ some (c ∷ a, b)
    ] in
    if has_prefix (c ∷ s) (txt "] ") then some ([], after_first s) else rest

unfoldable pub normalize_trimmed : Text → Text
unfolding split_bracket has_prefix trim_space
normalize_trimmed id =
    if has_prefix id (txt "[")
    then elim (split_bracket id) [ none ↦ id | some (_, rest) ↦ trim_space rest ]
    else id

unfoldable pub normalize_model_id : Text → Text
unfolding normalize_trimmed
normalize_model_id id = normalize_trimmed (trim_space id)

abbrev pub provider_map : Map Text
provider_map =
    (txt "Gemini CLI", txt "gemini-cli")
    ∷ (txt "Gemini", txt "gemini")
    ∷ (txt "Vertex AI", txt "vertex")
    ∷ (txt "AI Studio", txt "aistudio")
    ∷ (txt "Antigravity", txt "antigravity")
    ∷ (txt "Claude", txt "claude")
    ∷ (txt "Codex", txt "codex")
    ∷ (txt "Qwen", txt "qwen")
    ∷ (txt "iFlow", txt "iflow")
    ∷ (txt "Cline", txt "cline")
    ∷ (txt "Kiro", txt "kiro")
    ∷ (txt "OpenAI", txt "openai")
    ∷ (txt "Anthropic", txt "anthropic")
    ∷ (txt "Google", txt "google")
    ∷ []

abbrev pub provider_names : Map Text
provider_names =
    (txt "gemini-cli", txt "Gemini CLI")
    ∷ (txt "gemini", txt "Gemini")
    ∷ (txt "vertex", txt "Vertex AI")
    ∷ (txt "aistudio", txt "AI Studio")
    ∷ (txt "claude", txt "Claude")
    ∷ (txt "codex", txt "Codex")
    ∷ (txt "qwen", txt "Qwen")
    ∷ (txt "iflow", txt "iFlow")
    ∷ (txt "cline", txt "Cline")
    ∷ (txt "kiro", txt "Kiro")
    ∷ (txt "antigravity", txt "Antigravity")
    ∷ (txt "openai", txt "OpenAI")
    ∷ (txt "anthropic", txt "Anthropic")
    ∷ (txt "google", txt "Google")
    ∷ []

unfoldable pub extract_trimmed : Text → Text
unfolding split_bracket has_prefix trim_space lookup after_first
extract_trimmed id =
    if has_prefix id (txt "[")
    then elim (split_bracket id) [
      | none ↦ []
      | some (before, _) ↦ elim (lookup (trim_space (after_first before)) provider_map) [
        | none ↦ []
        | some provider ↦ provider
      ]
    ]
    else []

unfoldable pub extract_provider_from_prefixed_id : Text → Text
unfolding extract_trimmed
extract_provider_from_prefixed_id id = extract_trimmed (trim_space id)

-- strings.ToUpper of the first byte, for a byte of ASCII.
unfoldable pub capitalize : Text → Text
capitalize [] = []
capitalize (c ∷ s) = (if leb b'a' c && leb c b'z' then c - 32 else c) ∷ s

unfoldable pub prefix_of_type : Text → Text
unfolding capitalize is_empty lookup
prefix_of_type type_lower = elim (lookup type_lower provider_names) [
  | some name ↦ txt "[" ++ (name ++ txt "] ")
  | none ↦ if is_empty type_lower then [] else txt "[" ++ (capitalize type_lower ++ txt "] ")
]

unfoldable pub format_provider_prefix : Bool → Text → Text
unfolding prefix_of_type trim_space to_lower is_empty
format_provider_prefix show model_type =
    if not show || is_empty model_type
    then []
    else prefix_of_type (to_lower (trim_space model_type))
