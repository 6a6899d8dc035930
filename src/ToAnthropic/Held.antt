-- ===== src/ToAnthropic/Held.antt =====
-- What events carry and what an answer holds: text, thinking and calls.
use mathlib.Core.List.{append_assoc, append-nil}
use agcp.Prelude.{◌≡◌, refl, sym, ap, ◌∙◌, Option, none, some, List, [], ◌∷◌, ◌++◌, arith}
use agcp.Prelude.Text.{Bytes}
use agcp.Format.Anthropic.{ContentBlock}
use agcp.Sse.Content.{Item, text, thinking, call, arguments}
use agcp.ToAnthropic.Build.{set_last_input, with_input, read_input}

-- Text, thinking and calls, each in order.
abbrev pub Held : Type 0
Held = Bytes × Bytes × List (Bytes × Bytes)

abbrev pub nothing : Held
nothing = ([], [], [])

infixl 20 ◌and◌
abbrev pub ◌and◌ : Held → Held → Held
(a, b, c) and (a', b', c') = (a ++ a', b ++ b', c ++ c')

pub and_assoc : (x y z : Held) → (x and y) and z ≡ x and (y and z)
and_assoc (a, b, c) (a', b', c') (a'', b'', c'') =
    λ i. (append_assoc a a' a'' i, append_assoc b b' b'' i, append_assoc c c' c'' i)

pub and-nothing : (x : Held) → x and nothing ≡ x
and-nothing (a, b, c) = λ i. (append-nil a i, append-nil b i, append-nil c i)

abbrev pub item_held : Item → Held
item_held (text t) = (t, [], [])
item_held (thinking t) = ([], t, [])
item_held (call id name) = ([], [], (id, name) ∷ [])
item_held (arguments _) = nothing

-- What items hold in all.
unfoldable pub items_held : List Item → Held
items_held [] = nothing
items_held (x ∷ l) = item_held x and items_held l

pub items_held-append : (l m : List Item) → items_held (l ++ m) ≡ items_held l and items_held m
unfolding items_held
items_held-append [] m = refl
items_held-append (x ∷ l) m =
    ap (◌and◌ (item_held x)) (items_held-append l m)
    ∙ sym (and_assoc (item_held x) (items_held l) (items_held m))

-- Nothing is added.
pub same : (x y : Held) → x ≡ y → x ≡ y and nothing
same x y e = e ∙ sym (and-nothing y)

module _ {J : Type 0} where
  abbrev pub block_held : ContentBlock J → Held
  block_held (ContentBlock.text t _) = (t, [], [])
  block_held (ContentBlock.thinking t _) = ([], t, [])
  block_held (ContentBlock.tool_use id name _) = ([], [], (id, name) ∷ [])
  block_held _ = nothing

  -- What the blocks of an answer hold in all.
  unfoldable pub blocks_held : List (ContentBlock J) → Held
  blocks_held [] = nothing
  blocks_held (b ∷ l) = block_held b and blocks_held l

  pub blocks_held-push :
      (l : List (ContentBlock J)) (b : ContentBlock J)
      → blocks_held (l ++ b ∷ []) ≡ blocks_held l and block_held b
  unfolding blocks_held
  blocks_held-push [] b = and-nothing (block_held b)
  blocks_held-push (c ∷ l) b =
      ap (◌and◌ (block_held c)) (blocks_held-push l b)
      ∙ sym (and_assoc (block_held c) (blocks_held l) (block_held b))

  block_held-with_input : (v : J) (b : ContentBlock J) → block_held (with_input v b) ≡ block_held b
  block_held-with_input v b = ground arith

  blocks_held-set_last_input :
      (v : J) (l : List (ContentBlock J)) → blocks_held (set_last_input v l) ≡ blocks_held l
  unfolding set_last_input blocks_held
  blocks_held-set_last_input v [] = refl
  blocks_held-set_last_input v (b ∷ []) = ap (λ x. x and nothing) (block_held-with_input v b)
  blocks_held-set_last_input v (b ∷ c ∷ l) =
      ap (◌and◌ (block_held b)) (blocks_held-set_last_input v (c ∷ l))

  pub blocks_held-read_input :
      (o : Option J) (l : List (ContentBlock J)) → blocks_held (read_input o l) ≡ blocks_held l
  blocks_held-read_input none l = refl
  blocks_held-read_input (some v) l = blocks_held-set_last_input v l
