-- ===== src/ToGoogle/Limits.antt =====
-- The settings that the upstream accepts.
use agcp.Prelude.{◌&&◌, ◌||◌, not, leb, ℕ, ◌≡◌, refl, Bool, true, false, Option, none, some, arith}
use agcp.Prelude.Text.{Bytes, codes, text_eq, is_some}
use agcp.Format.Requests.{Thinking, MessagesRequest, ThinkingConfig, GenerationConfig}
use agcp.Models.Family.{get_model_family, is_thinking_model}
use agcp.ToGoogle.Request.{thinking_config, max_output, generation_config}

-- A configuration of thinking is of the form of its family.
abbrev pub suits : Bytes → Option ThinkingConfig → Bool
suits family none = true
suits family (some (ThinkingConfig.claude include)) = text_eq family (codes "claude")
suits family (some (ThinkingConfig.gemini include budget)) = text_eq family (codes "gemini")

-- At most what the client asked for, and what the family allows.
abbrev pub within : Bytes → ℕ → Option ℕ → Bool
within family asked none = false
within family asked (some n) =
    leb n asked
    && (not (text_eq family (codes "claude")) || leb n 64_000)
    && (not (text_eq family (codes "gemini")) || leb n 65_536)

-- No thinking for a client that disabled it.
abbrev pub obeys : Option Thinking → Option ThinkingConfig → Bool
obeys (some Thinking.disabled) (some config) = false
obeys _ _ = true

thinking_config_obeys :
    (is_thinking : Bool) (family : Bytes) (t : Option Thinking)
    → obeys t (thinking_config is_thinking family t) ≡ true
unfolding thinking_config
thinking_config_obeys is_thinking family none = ground arith
thinking_config_obeys is_thinking family (some Thinking.disabled) = refl
thinking_config_obeys is_thinking family (some (Thinking.enabled budget)) = ground arith

thinking_config_suits :
    (is_thinking : Bool) (family : Bytes) (t : Option Thinking)
    → suits family (thinking_config is_thinking family t) ≡ true
unfolding thinking_config
thinking_config_suits is_thinking family none = ground arith
thinking_config_suits is_thinking family (some Thinking.disabled) = refl
thinking_config_suits is_thinking family (some (Thinking.enabled budget)) = ground arith

module _ {F : Type 0} where
  -- Sampling parameters, or the fixed ones of a thinking model of Claude.
  abbrev pub samples : MessagesRequest F → GenerationConfig F → Bool
  samples request config =
      not (
        is_thinking_model request.model
        && text_eq (get_model_family request.model) (codes "claude"))
      || not (is_some config.temperature || is_some config.top_p || is_some config.top_k)

  -- The settings never ask for more tokens than the client, nor than the family allows; thinking
  -- is configured in the form of the family, and not at all if the client disabled it; and a
  -- thinking model of Claude gets no temperature, top_p or top_k.
  pub generation_config_limits :
      (request : MessagesRequest F)
      → let family = get_model_family request.model in
        let config = generation_config request in
        (within family request.max_tokens config.max_output_tokens ≡ true)
        × (suits family config.thinking_config ≡ true)
        × (obeys request.thinking config.thinking_config ≡ true)
        × (samples request config ≡ true)
  unfolding generation_config max_output
  generation_config_limits request =
      let family = get_model_family request.model in
      let is_thinking = is_thinking_model request.model in
      (
        ground arith,
        thinking_config_suits is_thinking family request.thinking,
        thinking_config_obeys is_thinking family request.thinking,
        ground arith,
      )
