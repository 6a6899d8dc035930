-- ===== src/Models/Mappings.antt =====
-- `resolve_with_mappings`: the user's rules in front of the aliases.
use agcp.Prelude.{
  ◌≡◌, ◌≢◌, refl, true, false, Option, none, some, List, [], ◌∷◌, ◌++◌, any, arith, if◌then◌else◌,
}
use agcp.Prelude.Text.{Bytes, codes, text_eq, text_eq_iff}
use agcp.Models.Alias.{resolve_model_alias}
use agcp.Models.Glob.{glob_match}

pub record MappingRule : Type 0 where
  pub from : Bytes
  pub to : Bytes

-- The target of the first rule whose pattern matches.
unfoldable pub first_match : Bytes → List MappingRule → Option Bytes
first_match model [] = none
first_match model (rule ∷ rules) =
    let rest = first_match model rules in if glob_match rule.from model then some rule.to else rest

unfoldable pub or_alias : Bytes → Option Bytes → Bytes
or_alias model (some to) = to
or_alias model none = resolve_model_alias model

unfoldable pub resolve_with_mappings : Bytes → List MappingRule → Bytes → Bytes
unfolding first_match or_alias
resolve_with_mappings model rules background_task_model =
    if text_eq model (codes "internal-background-task")
    then background_task_model
    else or_alias model (first_match model rules)

first_match-append :
    (model : Bytes) (before after : List MappingRule) (rule : MappingRule)
    → any (λ r. glob_match r.from model) before ≡ false
    → glob_match rule.from model ≡ true
    → first_match model (before ++ rule ∷ after) ≡ some rule.to
unfolding first_match
first_match-append model [] after rule h k = ground arith
first_match-append model (r ∷ before) after rule h k =
    ground (arith, first_match-append model before after rule)

first_match_absent :
    (model : Bytes) (rules : List MappingRule)
    → any (λ r. glob_match r.from model) rules ≡ false
    → first_match model rules ≡ none
unfolding first_match
first_match_absent model [] h = refl
first_match_absent model (r ∷ rules) h = ground (arith, first_match_absent model rules)

-- The first rule that matches decides, whatever stands behind it; under the rules in front of it
-- alone, none of which matches, the name resolves as an alias.
resolve_with_mappings_first :
    (model background : Bytes) (before after : List MappingRule) (rule : MappingRule)
    → model ≢ codes "internal-background-task"
    → any (λ r. glob_match r.from model) before ≡ false
    → glob_match rule.from model ≡ true
    → (resolve_with_mappings model (before ++ rule ∷ after) background ≡ rule.to)
      × (resolve_with_mappings model before background ≡ resolve_model_alias model)
unfolding resolve_with_mappings
resolve_with_mappings_first model background before after rule h none_before k =
    let other : text_eq model (codes "internal-background-task") ≡ false =
      ground (arith, text_eq_iff model (codes "internal-background-task")) in
    (
      rw (other, first_match-append model before after rule none_before k),
      rw (other, first_match_absent model before none_before),
    )
