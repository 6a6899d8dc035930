-- ===== src/Models/Catalogue.antt =====
-- The models, their identifiers and their fallbacks.
use agcp.Prelude.{◌≡◌, ◌≢◌, refl, Option, none, some, List, [], ◌∷◌, map, arith, if◌then◌else◌, ◌∙◌}
use agcp.Prelude.Text.{Bytes, codes, text_eq, text_case}

pub data Model : Type 0 where
  claude_opus4_6_thinking claude_opus4_5_thinking claude_sonnet4_5 claude_sonnet4_5_thinking
        gemini3_flash gemini3_pro_high gemini3_pro_low gpt_oss120b_medium :
      Model

abbrev pub anthropic_id : Model → Bytes
anthropic_id claude_opus4_6_thinking = codes "claude-opus-4-6-thinking"
anthropic_id claude_opus4_5_thinking = codes "claude-opus-4-5-thinking"
anthropic_id claude_sonnet4_5 = codes "claude-sonnet-4-5"
anthropic_id claude_sonnet4_5_thinking = codes "claude-sonnet-4-5-thinking"
anthropic_id gemini3_flash = codes "gemini-3-flash"
anthropic_id gemini3_pro_high = codes "gemini-3-pro-high"
anthropic_id gemini3_pro_low = codes "gemini-3-pro-low"
anthropic_id gpt_oss120b_medium = codes "gpt-oss-120b-medium"

abbrev pub all : List Model
all =
    claude_opus4_6_thinking ∷ claude_opus4_5_thinking ∷ claude_sonnet4_5 ∷ claude_sonnet4_5_thinking
    ∷ gemini3_flash ∷ gemini3_pro_high ∷ gemini3_pro_low ∷ gpt_oss120b_medium ∷ []

abbrev pub all_target_models : List Bytes
all_target_models = map anthropic_id all

unfoldable pub get_fallback_model : Bytes → Option Bytes
get_fallback_model model =
    if text_eq model (codes "gemini-3-pro-high")
    then some (codes "claude-opus-4-6-thinking")
    else if text_eq model (codes "gemini-3-pro-low")
    then some (codes "claude-sonnet-4-5")
    else if text_eq model (codes "gemini-3-flash")
    then some (codes "claude-sonnet-4-5-thinking")
    else if text_eq model (codes "claude-opus-4-6-thinking")
    then some (codes "claude-opus-4-5-thinking")
    else if text_eq model (codes "claude-opus-4-5-thinking")
    then some (codes "gemini-3-pro-high")
    else if text_eq model (codes "claude-sonnet-4-5-thinking")
    then some (codes "gemini-3-flash")
    else if text_eq model (codes "claude-sonnet-4-5")
    then some (codes "gemini-3-flash")
    else if text_eq model (codes "gpt-oss-120b-medium")
    then some (codes "gemini-3-flash")
    else none

-- The text is the identifier of a model.
abbrev pub IsModel : Bytes → Type 0
IsModel s = (m : Model) × (s ≡ anthropic_id m)

-- A model that stands in for the one that is named.
abbrev StandsIn : Bytes → Option Bytes → Type 0
StandsIn model none = Unit
StandsIn model (some f) = IsModel model × IsModel f × (f ≢ model)

stands_in :
    (model k : Bytes) (m f : Model)
    → k ≡ anthropic_id m
    → anthropic_id f ≢ k
    → model ≡ k
    → StandsIn model (some (anthropic_id f))
stands_in model k m f e h w = ((m, w ∙ e), (f, refl), λ x. h (x ∙ w))

get_fallback_model-StandsIn : (model : Bytes) → StandsIn model (get_fallback_model model)
unfolding get_fallback_model
get_fallback_model-StandsIn model =
    text_case (StandsIn model) model _ _ _
      (stands_in model _ gemini3_pro_high claude_opus4_6_thinking refl (λ x. absurd (ground arith)))
      (text_case (StandsIn model) model _ _ _
        (stands_in model _ gemini3_pro_low claude_sonnet4_5 refl (λ x. absurd (ground arith)))
        (text_case (StandsIn model) model _ _ _
          (stands_in model _ gemini3_flash claude_sonnet4_5_thinking refl
            (λ x. absurd (ground arith)))
          (text_case (StandsIn model) model _ _ _
            (stands_in model _ claude_opus4_6_thinking claude_opus4_5_thinking refl
              (λ x. absurd (ground arith)))
            (text_case (StandsIn model) model _ _ _
              (stands_in model _ claude_opus4_5_thinking gemini3_pro_high refl
                (λ x. absurd (ground arith)))
              (text_case (StandsIn model) model _ _ _
                (stands_in model _ claude_sonnet4_5_thinking gemini3_flash refl
                  (λ x. absurd (ground arith)))
                (text_case (StandsIn model) model _ _ _
                  (stands_in model _ claude_sonnet4_5 gemini3_flash refl
                    (λ x. absurd (ground arith)))
                  (text_case (StandsIn model) model _ _ _
                    (stands_in model _ gpt_oss120b_medium gemini3_flash refl
                      (λ x. absurd (ground arith)))
                    tt)))))))

-- Only a model's identifier has a fallback, and that is the identifier of another model.
get_fallback_model_stands_in :
    (model fallback : Bytes)
    → get_fallback_model model ≡ some fallback
    → IsModel model × IsModel fallback × (fallback ≢ model)
get_fallback_model_stands_in model fallback h = rw h at (get_fallback_model-StandsIn model)

-- Every model has a fallback that is a model, so that a chain of fallbacks never ends.
get_fallback_model_total :
    (m : Model) → (f : Model) × (get_fallback_model (anthropic_id m) ≡ some (anthropic_id f))
unfolding get_fallback_model
get_fallback_model_total gemini3_pro_high = (claude_opus4_6_thinking, refl)
get_fallback_model_total gemini3_pro_low = (claude_sonnet4_5, refl)
get_fallback_model_total gemini3_flash = (claude_sonnet4_5_thinking, refl)
get_fallback_model_total claude_opus4_6_thinking = (claude_opus4_5_thinking, refl)
get_fallback_model_total claude_opus4_5_thinking = (gemini3_pro_high, refl)
get_fallback_model_total claude_sonnet4_5_thinking = (gemini3_flash, refl)
get_fallback_model_total claude_sonnet4_5 = (gemini3_flash, refl)
get_fallback_model_total gpt_oss120b_medium = (gemini3_flash, refl)
