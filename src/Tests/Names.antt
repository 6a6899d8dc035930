-- ===== src/Tests/Names.antt =====
-- Model names, patterns and presets on concrete data.
use agcp.Prelude.{◌≡◌, ◌↔◌, refl, true, false}
use agcp.Prelude.Text.{
  strip_prefix, codes, to_ascii_lowercase, split_at_byte, starts_with, ends_with,
}
use agcp.Models.Alias.{resolve_model_alias}
use agcp.Models.Documented.{documented, first_of, resolve_model_alias_stable}
use agcp.Models.Family.{get_model_family, is_thinking_model}
use agcp.Models.Glob.{Fits, glob_match, glob_match_iff}

families :
    (get_model_family (codes "Claude-Opus-4") ≡ codes "claude")
    × (get_model_family (codes "gemini-3-pro") ≡ codes "gemini")
    × (get_model_family (codes "o3") ≡ codes "unknown")
    × (is_thinking_model (codes "gemini-3-flash") ≡ true)
    × (is_thinking_model (codes "gemini-2.5-pro") ≡ false)
    × (is_thinking_model (codes "claude-sonnet-4-5") ≡ false)
unfolding get_model_family is_thinking_model
families = (refl, refl, refl, refl, refl, refl)

aliases :
    (resolve_model_alias (codes "Claude-Opus-4-6-20260101") ≡ codes "claude-opus-4-6-thinking")
    × (resolve_model_alias (codes "OSS") ≡ codes "gpt-oss-120b-medium")
    × (resolve_model_alias (codes "gpt-4o") ≡ codes "gpt-4o")
unfolding resolve_model_alias
aliases = (refl, refl, refl)

globs :
    (glob_match (codes "gpt-4*") (codes "GPT-4o-mini") ≡ true)
    × (glob_match (codes "a*a") (codes "a") ≡ false)
    × (glob_match (codes "*-thinking") (codes "claude-opus-4-5-thinking") ≡ true)
unfolding glob_match starts_with ends_with
globs = (refl, refl, refl)

resolve_model_alias_stable_example :
    let r = resolve_model_alias (codes "Opus") in
    (r ≡ documented (codes "Opus")) × (resolve_model_alias r ≡ r)
resolve_model_alias_stable_example = resolve_model_alias_stable (codes "Opus")

-- The aliases of the README.
readme_aliases :
    (documented (codes "opus") ≡ codes "claude-opus-4-6-thinking")
    × (documented (codes "sonnet") ≡ codes "claude-sonnet-4-5")
    × (documented (codes "sonnet-thinking") ≡ codes "claude-sonnet-4-5-thinking")
    × (documented (codes "flash") ≡ codes "gemini-3-flash")
    × (documented (codes "pro") ≡ codes "gemini-3-pro-high")
    × (documented (codes "gpt-oss") ≡ codes "gpt-oss-120b-medium")
unfolding documented first_of starts_with strip_prefix to_ascii_lowercase
readme_aliases = (refl, refl, refl, refl, refl, refl)

glob_match_iff_example :
    let p = to_ascii_lowercase (codes "Claude-*-opus") in
    (glob_match (codes "Claude-*-opus") (codes "claude-3-opus") ≡ true)
    ↔ Fits (split_at_byte b'*' p) p (to_ascii_lowercase (codes "claude-3-opus"))
glob_match_iff_example = glob_match_iff (codes "Claude-*-opus") (codes "claude-3-opus")
