-- ===== src/Models/Documented.antt =====
-- The aliases of the models as two flat tables over the lowercase name, and what
-- `resolve_model_alias` has to do with them.
use agcp.Prelude.{
  ◌≡◌, refl, Bool, ◌&&◌, Option, none, some, List, [], ◌∷◌, ◌++◌, any, arith, if◌then◌else◌, ◌∙◌,
  ap, leb, length, take,
}
use agcp.Prelude.Text.{Bytes, codes, text_eq, to_ascii_lowercase, starts_with, strip_prefix}
use agcp.Models.Alias.{
  resolve_model_alias, dated_alias, short_alias, first_arm, dated_names, short_names, or_else,
  stable,
}
use agcp.Models.Catalogue.{
  Model, anthropic_id, claude_opus4_6_thinking, claude_opus4_5_thinking, claude_sonnet4_5,
  claude_sonnet4_5_thinking, gemini3_flash, gemini3_pro_high, gemini3_pro_low, gpt_oss120b_medium,
}
use agcp.Models.Family.{starts_with_ignore_case, eq_ignore_ascii_case}

abbrev pub Table : Type 0
Table = List (Bytes × Model)

-- What a dated name begins with.
abbrev prefixes : Table
prefixes =
    (codes "claude-opus-4-6", claude_opus4_6_thinking)
    ∷ (codes "claude-opus-4.6", claude_opus4_6_thinking)
    ∷ (codes "claude-opus-4-5", claude_opus4_5_thinking)
    ∷ (codes "claude-opus-4.5", claude_opus4_5_thinking)
    ∷ (codes "claude-sonnet-4-5-thinking", claude_sonnet4_5_thinking)
    ∷ (codes "claude-sonnet-4.5-thinking", claude_sonnet4_5_thinking)
    ∷ (codes "claude-sonnet-4-5", claude_sonnet4_5)
    ∷ (codes "claude-sonnet-4.5", claude_sonnet4_5)
    ∷ (codes "claude-3-5-haiku", gemini3_flash)
    ∷ (codes "claude-3.5-haiku", gemini3_flash)
    ∷ []

abbrev aliases : Table
aliases =
    (codes "opus", claude_opus4_6_thinking)
    ∷ (codes "opus-thinking", claude_opus4_6_thinking)
    ∷ (codes "claude-opus", claude_opus4_6_thinking)
    ∷ (codes "opus-4-5", claude_opus4_5_thinking)
    ∷ (codes "opus-4.5", claude_opus4_5_thinking)
    ∷ (codes "claude-opus-4-5", claude_opus4_5_thinking)
    ∷ (codes "sonnet", claude_sonnet4_5)
    ∷ (codes "claude-sonnet", claude_sonnet4_5)
    ∷ (codes "sonnet-thinking", claude_sonnet4_5_thinking)
    ∷ (codes "claude-sonnet-thinking", claude_sonnet4_5_thinking)
    ∷ (codes "haiku", gemini3_flash)
    ∷ (codes "claude-haiku", gemini3_flash)
    ∷ (codes "claude-haiku-4-5", gemini3_flash)
    ∷ (codes "gpt-5.2-codex", claude_opus4_6_thinking)
    ∷ (codes "gpt-5.2", claude_opus4_6_thinking)
    ∷ (codes "gpt-5", claude_opus4_6_thinking)
    ∷ (codes "o3", claude_opus4_6_thinking)
    ∷ (codes "o3-high", claude_opus4_6_thinking)
    ∷ (codes "flash", gemini3_flash)
    ∷ (codes "gemini-flash", gemini3_flash)
    ∷ (codes "flash-lite", gemini3_flash)
    ∷ (codes "gemini-flash-lite", gemini3_flash)
    ∷ (codes "flash-thinking", gemini3_flash)
    ∷ (codes "gemini-flash-thinking", gemini3_flash)
    ∷ (codes "pro", gemini3_pro_high)
    ∷ (codes "gemini-pro", gemini3_pro_high)
    ∷ (codes "3-flash", gemini3_flash)
    ∷ (codes "gemini3-flash", gemini3_flash)
    ∷ (codes "3-pro", gemini3_pro_high)
    ∷ (codes "3-pro-high", gemini3_pro_high)
    ∷ (codes "gemini3-pro", gemini3_pro_high)
    ∷ (codes "3-pro-low", gemini3_pro_low)
    ∷ (codes "gemini3-pro-low", gemini3_pro_low)
    ∷ (codes "gpt-oss", gpt_oss120b_medium)
    ∷ (codes "gpt-oss-120b", gpt_oss120b_medium)
    ∷ (codes "oss", gpt_oss120b_medium)
    ∷ []

-- The model of the first entry whose name passes the test.
unfoldable pub first_of : (Bytes → Bool) → Table → Option Model
first_of test [] = none
first_of test ((name, m) ∷ l) = let rest = first_of test l in if test name then some m else rest

abbrev pub name_of : Option Model → Bytes → Bytes
name_of none s = s
name_of (some m) s = anthropic_id m

-- A name that begins with a prefix of the table is that of its model, else an alias is that of its
-- model, and any other name stays as it is.
unfoldable pub documented : Bytes → Bytes
unfolding first_of
documented model =
    let lower = to_ascii_lowercase model in
    name_of (first_of (starts_with lower) prefixes)
      (name_of (first_of (text_eq lower) aliases) model)

-- The arms as a table of names and identifiers.
each : List Bytes → Bytes → List (Bytes × Bytes)
each [] target = []
each (name ∷ names) target = (name, target) ∷ each names target

flat : List (List Bytes × Bytes) → List (Bytes × Bytes)
unfolding each
flat [] = []
flat ((names, target) ∷ arms) = each names target ++ flat arms

target_of : (Bytes → Bool) → List (Bytes × Bytes) → Option Bytes
target_of test [] = none
target_of test ((name, t) ∷ l) = let rest = target_of test l in if test name then some t else rest

target_of-each :
    (test : Bytes → Bool) (names : List Bytes) (target : Bytes) (l : List (Bytes × Bytes))
    → target_of test (each names target ++ l)
      ≡ (if any test names then some target else target_of test l)
unfolding target_of each
target_of-each test [] target l = refl
target_of-each test (name ∷ names) target l = ground (arith, target_of-each test names target l)

first_arm-flat :
    (test : Bytes → Bool) (arms : List (List Bytes × Bytes))
    → first_arm test arms ≡ target_of test (flat arms)
unfolding first_arm flat target_of
first_arm-flat test [] = refl
first_arm-flat test ((names, target) ∷ arms) =
    ground (arith, first_arm-flat test arms, target_of-each test names target (flat arms))

named : Table → List (Bytes × Bytes)
named [] = []
named ((name, m) ∷ l) = (name, anthropic_id m) ∷ named l

-- Two tests that agree on the names of a table.
abbrev Agree : (Bytes → Bool) → (Bytes → Bool) → Table → Type 0
Agree p q [] = Unit
Agree p q ((name, m) ∷ l) = (p name ≡ q name) × Agree p q l

or_else-named :
    (p q : Bytes → Bool) (l : Table) (s : Bytes)
    → Agree p q l
    → or_else (target_of p (named l)) s ≡ name_of (first_of q l) s
unfolding or_else target_of named first_of
or_else-named p q [] s h = refl
or_else-named p q ((name, m) ∷ l) s h = ground (arith, or_else-named p q l s h.1, h.0)

flat_dated : flat dated_names ≡ named prefixes
unfolding flat each named
flat_dated = refl

flat_short : flat short_names ≡ named aliases
unfolding flat each named
flat_short = refl

-- The test that ignores case is the test on the lowercase name.
lower-starts :
    (s p : Bytes)
    → (leb (length p) (length s) && text_eq (to_ascii_lowercase (take (length p) s)) p)
      ≡ starts_with (to_ascii_lowercase s) p
unfolding starts_with strip_prefix to_ascii_lowercase
lower-starts s [] = ground arith
lower-starts [] (b ∷ p) = ground arith
lower-starts (a ∷ s) (b ∷ p) = ground (arith, lower-starts s p)

starts_with_ignore_case-lower :
    (s p : Bytes)
    → to_ascii_lowercase p ≡ p
    → starts_with_ignore_case s p ≡ starts_with (to_ascii_lowercase s) p
unfolding starts_with_ignore_case eq_ignore_ascii_case
starts_with_ignore_case-lower s p e = rw e (lower-starts s p)

abbrev IsLower : Table → Type 0
IsLower [] = Unit
IsLower ((name, m) ∷ l) = (to_ascii_lowercase name ≡ name) × IsLower l

lower-Agree :
    (s : Bytes) (l : Table)
    → IsLower l
    → Agree (starts_with_ignore_case s) (starts_with (to_ascii_lowercase s)) l
lower-Agree s [] h = tt
lower-Agree s ((name, m) ∷ l) h = (starts_with_ignore_case-lower s name h.0, lower-Agree s l h.1)

prefixes-IsLower : IsLower prefixes
unfolding to_ascii_lowercase
prefixes-IsLower =
    (refl, (refl, (refl, (refl, (refl, (refl, (refl, (refl, (refl, (refl, tt))))))))))

Agree-refl : (p : Bytes → Bool) (l : Table) → Agree p p l
Agree-refl p [] = tt
Agree-refl p ((name, m) ∷ l) = (refl, Agree-refl p l)

resolve_model_alias-documented : (model : Bytes) → resolve_model_alias model ≡ documented model
unfolding resolve_model_alias documented dated_alias short_alias
resolve_model_alias-documented model =
    let lower = to_ascii_lowercase model in
    let short = name_of (first_of (text_eq lower) aliases) model in
    let dated =
      first_arm-flat (starts_with_ignore_case model) dated_names
      ∙ ap (target_of (starts_with_ignore_case model)) flat_dated in
    let short_same =
      first_arm-flat (text_eq lower) short_names ∙ ap (target_of (text_eq lower)) flat_short in
    ap (λ o. or_else (dated_alias model) (or_else o model)) short_same
    ∙ ap (or_else (dated_alias model)) (
        or_else-named (text_eq lower) (text_eq lower) aliases model
          (Agree-refl (text_eq lower) aliases))
    ∙ ap (λ o. or_else o short) dated
    ∙ or_else-named (starts_with_ignore_case model) (starts_with lower) prefixes short
        (lower-Agree model prefixes prefixes-IsLower)

-- In whatever case a name is written: if it begins with a prefix of the table of dated names it
-- resolves to the model of the first such entry, else, if it is an alias of the table, to the model
-- of that, and else to itself; to resolve again changes nothing.
pub resolve_model_alias_stable :
    (model : Bytes)
    → (resolve_model_alias model ≡ documented model)
      × (resolve_model_alias (resolve_model_alias model) ≡ resolve_model_alias model)
resolve_model_alias_stable model = (resolve_model_alias-documented model, (stable model).1)
