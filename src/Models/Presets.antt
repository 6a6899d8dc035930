-- ===== src/Models/Presets.antt =====
-- `MappingPreset`: the presets and their rules.
use agcp.Prelude.{
  ◌≡◌, ◌≢◌, refl, false, some, List, [], ◌∷◌, arith, if◌then◌else◌, if_rule, ◌⊎◌, inl,
}
use agcp.Prelude.Text.{Bytes, codes, text_eq, text_eq_iff, to_ascii_lowercase}
use agcp.Models.Alias.{stable}
use agcp.Models.Catalogue.{
  IsModel, claude_opus4_6_thinking, claude_sonnet4_5, claude_sonnet4_5_thinking, gemini3_flash,
  gemini3_pro_high, gpt_oss120b_medium,
}
use agcp.Models.Glob.{glob_match}
use agcp.Models.Mappings.{MappingRule, first_match, or_alias, resolve_with_mappings}
use Prim.Native.String.{String}

pub data MappingPreset : Type 0 where
  none_at_all balanced performance cost custom : MappingPreset

abbrev pub name : MappingPreset → Bytes
name none_at_all = codes "none"
name balanced = codes "balanced"
name performance = codes "performance"
name cost = codes "cost"
name custom = codes "custom"

unfoldable pub from_name : Bytes → MappingPreset
unfolding to_ascii_lowercase
from_name s =
    let lower = to_ascii_lowercase s in
    if text_eq lower (codes "balanced")
    then balanced
    else if text_eq lower (codes "performance")
    then performance
    else if text_eq lower (codes "cost")
    then cost
    else if text_eq lower (codes "custom")
    then custom
    else none_at_all

unfoldable pub next : MappingPreset → MappingPreset
next none_at_all = balanced
next balanced = performance
next performance = cost
next cost = custom
next custom = none_at_all

abbrev rule : String → String → MappingRule
rule from to = record { from = codes from; to = codes to }

abbrev pub balanced_rules : List MappingRule
balanced_rules =
    rule "claude-3-haiku-*" "gemini-3-flash"
    ∷ rule "claude-3-5-haiku-*" "gemini-3-flash"
    ∷ rule "claude-haiku-*" "gemini-3-flash"
    ∷ rule "gpt-4o*" "gemini-3-flash"
    ∷ rule "gpt-4*" "gemini-3-pro-high"
    ∷ rule "gpt-3.5*" "gemini-3-flash"
    ∷ rule "o1-*" "gemini-3-pro-high"
    ∷ rule "o3-*" "gemini-3-pro-high"
    ∷ rule "claude-3-opus-*" "claude-opus-4-6-thinking"
    ∷ rule "claude-3-5-sonnet-*" "claude-sonnet-4-5"
    ∷ rule "claude-opus-4-*" "claude-opus-4-6-thinking"
    ∷ []

abbrev pub performance_rules : List MappingRule
performance_rules =
    rule "claude-3-haiku-*" "gemini-3-flash"
    ∷ rule "claude-3-5-haiku-*" "gemini-3-flash"
    ∷ rule "claude-haiku-*" "gemini-3-flash"
    ∷ rule "gpt-4o*" "gemini-3-pro-high"
    ∷ rule "gpt-4*" "gemini-3-pro-high"
    ∷ rule "gpt-3.5*" "gemini-3-flash"
    ∷ rule "o1-*" "claude-opus-4-6-thinking"
    ∷ rule "o3-*" "claude-opus-4-6-thinking"
    ∷ rule "claude-3-opus-*" "claude-opus-4-6-thinking"
    ∷ rule "claude-3-5-sonnet-*" "claude-sonnet-4-5-thinking"
    ∷ rule "claude-opus-4-*" "claude-opus-4-6-thinking"
    ∷ []

abbrev pub cost_rules : List MappingRule
cost_rules =
    rule "claude-3-haiku-*" "gpt-oss-120b-medium"
    ∷ rule "claude-3-5-haiku-*" "gpt-oss-120b-medium"
    ∷ rule "claude-haiku-*" "gpt-oss-120b-medium"
    ∷ rule "gpt-4o*" "gemini-3-flash"
    ∷ rule "gpt-4*" "gemini-3-flash"
    ∷ rule "gpt-3.5*" "gpt-oss-120b-medium"
    ∷ rule "o1-*" "gemini-3-flash"
    ∷ rule "o3-*" "gemini-3-flash"
    ∷ rule "claude-3-opus-*" "claude-sonnet-4-5"
    ∷ rule "claude-3-5-sonnet-*" "gemini-3-flash"
    ∷ rule "claude-opus-4-*" "claude-sonnet-4-5"
    ∷ []

unfoldable pub rules : MappingPreset → List MappingRule
rules balanced = balanced_rules
rules performance = performance_rules
rules cost = cost_rules
rules none_at_all = []
rules custom = []

-- A preset is found again by its name, and `next` leads to another one and, in five steps, back.
from_name-name :
    (p : MappingPreset)
    → (from_name (name p) ≡ p) × (next (next (next (next (next p)))) ≡ p) × (next p ≢ p)
unfolding from_name next
from_name-name none_at_all = (refl, refl, λ h. absurd (ground arith))
from_name-name balanced = (refl, refl, λ h. absurd (ground arith))
from_name-name performance = (refl, refl, λ h. absurd (ground arith))
from_name-name cost = (refl, refl, λ h. absurd (ground arith))
from_name-name custom = (refl, refl, λ h. absurd (ground arith))

-- Every target is a model's identifier.
abbrev Targets : List MappingRule → Type 0
Targets [] = Unit
Targets (r ∷ l) = IsModel r.to × Targets l

rules-Targets : (p : MappingPreset) → Targets (rules p)
unfolding rules
rules-Targets balanced = (
  (gemini3_flash, refl),
  (
    (gemini3_flash, refl),
    (
      (gemini3_flash, refl),
      (
        (gemini3_flash, refl),
        (
          (gemini3_pro_high, refl),
          (
            (gemini3_flash, refl),
            (
              (gemini3_pro_high, refl),
              (
                (gemini3_pro_high, refl),
                (
                  (claude_opus4_6_thinking, refl),
                  ((claude_sonnet4_5, refl), ((claude_opus4_6_thinking, refl), tt)),
                ),
              ),
            ),
          ),
        ),
      ),
    ),
  ),
)
rules-Targets performance = (
  (gemini3_flash, refl),
  (
    (gemini3_flash, refl),
    (
      (gemini3_flash, refl),
      (
        (gemini3_pro_high, refl),
        (
          (gemini3_pro_high, refl),
          (
            (gemini3_flash, refl),
            (
              (claude_opus4_6_thinking, refl),
              (
                (claude_opus4_6_thinking, refl),
                (
                  (claude_opus4_6_thinking, refl),
                  ((claude_sonnet4_5_thinking, refl), ((claude_opus4_6_thinking, refl), tt)),
                ),
              ),
            ),
          ),
        ),
      ),
    ),
  ),
)
rules-Targets cost = (
  (gpt_oss120b_medium, refl),
  (
    (gpt_oss120b_medium, refl),
    (
      (gpt_oss120b_medium, refl),
      (
        (gemini3_flash, refl),
        (
          (gemini3_flash, refl),
          (
            (gpt_oss120b_medium, refl),
            (
              (gemini3_flash, refl),
              (
                (gemini3_flash, refl),
                ((claude_sonnet4_5, refl), ((gemini3_flash, refl), ((claude_sonnet4_5, refl), tt))),
              ),
            ),
          ),
        ),
      ),
    ),
  ),
)
rules-Targets none_at_all = tt
rules-Targets custom = tt

-- A name that is resolved: to a model, or to itself.
abbrev pub Resolved : Bytes → Bytes → Type 0
Resolved model s = IsModel s ⊎ (s ≡ model)

first_match-Resolved :
    (model : Bytes) (l : List MappingRule)
    → Targets l
    → Resolved model (or_alias model (first_match model l))
unfolding first_match or_alias
first_match-Resolved model [] h = (stable model).0
first_match-Resolved model (r ∷ l) h =
    if_rule (λ o. Resolved model (or_alias model o)) (glob_match r.from model) (some r.to)
      (first_match model l) (λ _. inl h.0) (λ _. first_match-Resolved model l h.1)

-- Under a preset, any name but that of the background task resolves to a model or stays as it is.
resolve_with_mappings-rules :
    (p : MappingPreset) (model background : Bytes)
    → model ≢ codes "internal-background-task"
    → Resolved model (resolve_with_mappings model (rules p) background)
unfolding resolve_with_mappings
resolve_with_mappings-rules p model background h =
    let other : text_eq model (codes "internal-background-task") ≡ false =
      ground (arith, text_eq_iff model (codes "internal-background-task")) in
    rw other (first_match-Resolved model (rules p) (rules-Targets p))
