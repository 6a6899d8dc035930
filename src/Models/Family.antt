-- ===== src/Models/Family.antt =====
-- The family of a model name, by substring tests that ignore ASCII case.
use agcp.Prelude.{
  ℕ, suc, Bool, true, false, ◌&&◌, Option, none, some, List, [], ◌∷◌, ltb, leb, ◌-◌, length, take,
  any, if◌then◌else◌,
}
use agcp.Prelude.Text.{Bytes, codes, text_eq, to_ascii_lowercase, strip_prefix}

unfoldable pub eq_ignore_ascii_case : Bytes → Bytes → Bool
unfolding to_ascii_lowercase
eq_ignore_ascii_case s t = text_eq (to_ascii_lowercase s) (to_ascii_lowercase t)

-- `s.windows(n)`: every run of `n` bytes, from the left.
unfoldable pub windows : ℕ → Bytes → List Bytes
windows n [] = []
windows n (a ∷ s) =
    let rest = windows n s in if ltb (suc (length s)) n then [] else take n (a ∷ s) ∷ rest

unfoldable pub contains_ignore_case : Bytes → Bytes → Bool
unfolding windows eq_ignore_ascii_case
contains_ignore_case haystack needle =
    if ltb (length haystack) (length needle)
    then false
    else any (λ w. eq_ignore_ascii_case w needle) (windows (length needle) haystack)

unfoldable pub starts_with_ignore_case : Bytes → Bytes → Bool
unfolding eq_ignore_ascii_case
starts_with_ignore_case s prefix =
    leb (length prefix) (length s) && eq_ignore_ascii_case (take (length prefix) s) prefix

unfoldable pub get_model_family : Bytes → Bytes
unfolding contains_ignore_case
get_model_family model_name =
    if contains_ignore_case model_name (codes "claude")
    then codes "claude"
    else if contains_ignore_case model_name (codes "gemini")
    then codes "gemini"
    else if contains_ignore_case model_name (codes "gpt-oss")
    then codes "gpt-oss"
    else codes "unknown"

-- `chars().next().and_then(|c| c.to_digit(10))`, and whether it is at least 3.
major_ge_3 : Option Bytes → Bool
major_ge_3 none = false
major_ge_3 (some []) = false
major_ge_3 (some (c ∷ _)) = leb b'0' c && leb c b'9' && leb 3 (c - b'0')

unfoldable pub is_thinking_model : Bytes → Bool
unfolding contains_ignore_case to_ascii_lowercase strip_prefix major_ge_3
is_thinking_model model_name =
    if contains_ignore_case model_name (codes "claude")
      && contains_ignore_case model_name (codes "thinking")
    then true
    else if contains_ignore_case model_name (codes "gemini")
    then (if contains_ignore_case model_name (codes "thinking")
        then true
        else major_ge_3 (strip_prefix (to_ascii_lowercase model_name) (codes "gemini-")))
    else false
