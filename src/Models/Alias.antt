-- ===== src/Models/Alias.antt =====
-- `resolve_model_alias`: the aliases of the models.
use agcp.Prelude.{
  ◌≡◌, refl, Bool, Option, none, some, List, [], ◌∷◌, any, if◌then◌else◌, if_rule, ◌⊎◌, inl, inr,
  ◌∙◌, sym, ap,
}
use agcp.Prelude.Text.{Bytes, codes, text_eq, to_ascii_lowercase}
use agcp.Models.Catalogue.{
  Model, anthropic_id, IsModel, claude_opus4_6_thinking, claude_opus4_5_thinking, claude_sonnet4_5,
  claude_sonnet4_5_thinking, gemini3_flash, gemini3_pro_high, gemini3_pro_low, gpt_oss120b_medium,
}
use agcp.Models.Family.{starts_with_ignore_case}

-- The target of the first arm with a name that passes the test.
unfoldable pub first_arm : (Bytes → Bool) → List (List Bytes × Bytes) → Option Bytes
first_arm test [] = none
first_arm test ((names, target) ∷ arms) =
    let rest = first_arm test arms in if any test names then some target else rest

-- The dated names, by their prefixes in either spelling.
abbrev pub dated_names : List (List Bytes × Bytes)
dated_names =
    (codes "claude-opus-4-6" ∷ codes "claude-opus-4.6" ∷ [], codes "claude-opus-4-6-thinking")
    ∷ (codes "claude-opus-4-5" ∷ codes "claude-opus-4.5" ∷ [], codes "claude-opus-4-5-thinking")
    ∷ (
      codes "claude-sonnet-4-5-thinking" ∷ codes "claude-sonnet-4.5-thinking" ∷ [],
      codes "claude-sonnet-4-5-thinking",
    )
    ∷ (codes "claude-sonnet-4-5" ∷ codes "claude-sonnet-4.5" ∷ [], codes "claude-sonnet-4-5")
    ∷ (codes "claude-3-5-haiku" ∷ codes "claude-3.5-haiku" ∷ [], codes "gemini-3-flash")
    ∷ []

unfoldable pub dated_alias : Bytes → Option Bytes
unfolding first_arm starts_with_ignore_case
dated_alias model = first_arm (starts_with_ignore_case model) dated_names

-- The arms of the match on the lowercase name.
abbrev pub short_names : List (List Bytes × Bytes)
short_names =
    (
      codes "opus" ∷ codes "opus-thinking" ∷ codes "claude-opus" ∷ [],
      codes "claude-opus-4-6-thinking",
    )
    ∷ (
      codes "opus-4-5" ∷ codes "opus-4.5" ∷ codes "claude-opus-4-5" ∷ [],
      codes "claude-opus-4-5-thinking",
    )
    ∷ (codes "sonnet" ∷ codes "claude-sonnet" ∷ [], codes "claude-sonnet-4-5")
    ∷ (
      codes "sonnet-thinking" ∷ codes "claude-sonnet-thinking" ∷ [],
      codes "claude-sonnet-4-5-thinking",
    )
    ∷ (codes "haiku" ∷ codes "claude-haiku" ∷ codes "claude-haiku-4-5" ∷ [], codes "gemini-3-flash")
    ∷ (
      codes "gpt-5.2-codex" ∷ codes "gpt-5.2" ∷ codes "gpt-5" ∷ codes "o3" ∷ codes "o3-high" ∷ [],
      codes "claude-opus-4-6-thinking",
    )
    ∷ (codes "flash" ∷ codes "gemini-flash" ∷ [], codes "gemini-3-flash")
    ∷ (codes "flash-lite" ∷ codes "gemini-flash-lite" ∷ [], codes "gemini-3-flash")
    ∷ (codes "flash-thinking" ∷ codes "gemini-flash-thinking" ∷ [], codes "gemini-3-flash")
    ∷ (codes "pro" ∷ codes "gemini-pro" ∷ [], codes "gemini-3-pro-high")
    ∷ (codes "3-flash" ∷ codes "gemini3-flash" ∷ [], codes "gemini-3-flash")
    ∷ (codes "3-pro" ∷ codes "3-pro-high" ∷ codes "gemini3-pro" ∷ [], codes "gemini-3-pro-high")
    ∷ (codes "3-pro-low" ∷ codes "gemini3-pro-low" ∷ [], codes "gemini-3-pro-low")
    ∷ (codes "gpt-oss" ∷ codes "gpt-oss-120b" ∷ codes "oss" ∷ [], codes "gpt-oss-120b-medium")
    ∷ []

unfoldable pub short_alias : Bytes → Option Bytes
unfolding first_arm
short_alias lower = first_arm (text_eq lower) short_names

unfoldable pub or_else : Option Bytes → Bytes → Bytes
or_else none s = s
or_else (some t) s = t

unfoldable pub resolve_model_alias : Bytes → Bytes
unfolding dated_alias short_alias or_else to_ascii_lowercase
resolve_model_alias model =
    or_else (dated_alias model) (or_else (short_alias (to_ascii_lowercase model)) model)

abbrev Names : Option Bytes → Type 0
Names none = Unit
Names (some s) = IsModel s

-- Every target is a model's identifier.
abbrev Targets : List (List Bytes × Bytes) → Type 0
Targets [] = Unit
Targets ((names, target) ∷ arms) = IsModel target × Targets arms

first_arm-Names :
    (test : Bytes → Bool) (arms : List (List Bytes × Bytes))
    → Targets arms
    → Names (first_arm test arms)
unfolding first_arm
first_arm-Names test [] h = tt
first_arm-Names test ((names, target) ∷ arms) h =
    if_rule Names (any test names) (some target) (first_arm test arms) (λ _. h.0)
      (λ _. first_arm-Names test arms h.1)

dated_names-Targets : Targets dated_names
dated_names-Targets = (
  (claude_opus4_6_thinking, refl),
  (
    (claude_opus4_5_thinking, refl),
    ((claude_sonnet4_5_thinking, refl), ((claude_sonnet4_5, refl), ((gemini3_flash, refl), tt))),
  ),
)

short_names-Targets : Targets short_names
short_names-Targets = (
  (claude_opus4_6_thinking, refl),
  (
    (claude_opus4_5_thinking, refl),
    (
      (claude_sonnet4_5, refl),
      (
        (claude_sonnet4_5_thinking, refl),
        (
          (gemini3_flash, refl),
          (
            (claude_opus4_6_thinking, refl),
            (
              (gemini3_flash, refl),
              (
                (gemini3_flash, refl),
                (
                  (gemini3_flash, refl),
                  (
                    (gemini3_pro_high, refl),
                    (
                      (gemini3_flash, refl),
                      (
                        (gemini3_pro_high, refl),
                        ((gemini3_pro_low, refl), ((gpt_oss120b_medium, refl), tt)),
                      ),
                    ),
                  ),
                ),
              ),
            ),
          ),
        ),
      ),
    ),
  ),
)

dated_alias-Names : (model : Bytes) → Names (dated_alias model)
unfolding dated_alias
dated_alias-Names model =
    first_arm-Names (starts_with_ignore_case model) dated_names dated_names-Targets

short_alias-Names : (lower : Bytes) → Names (short_alias lower)
unfolding short_alias
short_alias-Names lower = first_arm-Names (text_eq lower) short_names short_names-Targets

or_else-Names :
    (o : Option Bytes) (s model : Bytes)
    → Names o
    → IsModel s ⊎ (s ≡ model)
    → IsModel (or_else o s) ⊎ (or_else o s ≡ model)
unfolding or_else
or_else-Names none s model h k = k
or_else-Names (some t) s model h k = inl h

resolved :
    (model : Bytes) → IsModel (resolve_model_alias model) ⊎ (resolve_model_alias model ≡ model)
unfolding resolve_model_alias
resolved model = or_else-Names (dated_alias model) _ model (dated_alias-Names model) (
    or_else-Names (short_alias (to_ascii_lowercase model)) model model
      (short_alias-Names (to_ascii_lowercase model)) (inr refl))

-- A model's own identifier is resolved to itself.
resolve_own : (m : Model) → resolve_model_alias (anthropic_id m) ≡ anthropic_id m
unfolding resolve_model_alias
resolve_own claude_opus4_6_thinking = refl
resolve_own claude_opus4_5_thinking = refl
resolve_own claude_sonnet4_5 = refl
resolve_own claude_sonnet4_5_thinking = refl
resolve_own gemini3_flash = refl
resolve_own gemini3_pro_high = refl
resolve_own gemini3_pro_low = refl
resolve_own gpt_oss120b_medium = refl

-- An alias resolves to a model's identifier, and any other name to itself; to resolve again
-- changes nothing.
pub stable :
    (model : Bytes)
    → (IsModel (resolve_model_alias model) ⊎ (resolve_model_alias model ≡ model))
      × (resolve_model_alias (resolve_model_alias model) ≡ resolve_model_alias model)
stable model = (
  resolved model,
  elim (resolved model) [
    | inl (m, e) ↦ ap resolve_model_alias e ∙ resolve_own m ∙ sym e
    | inr e ↦ ap resolve_model_alias e
  ],
)
