-- ===== src/Accounts/Best.antt =====
-- Which account the scoring chooses.
use Prim.Native.Nat.{Ordering}
use agcp.Prelude.{
  ℕ, ◌≡◌, ◌≢◌, refl, Bool, true, false, ◌&&◌, ◌||◌, not, Option, none, some, List, [], ◌∷◌, arith,
  any, filter, map, ◌∙◌, ap, sym, Bool-cases, inl, inr,
}
use agcp.Prelude.Text.{Bytes, text_eq_iff}
use agcp.Accounts.Account.{Account, is_rate_limited, is_quota_below_threshold}
use agcp.Accounts.Choice.{Chooses}
use agcp.Accounts.Floats.{Floats}
use agcp.Accounts.Members.{any-filter, scored, scored-sort, scored-map}
use agcp.Accounts.Select.{
  is_candidate, total_score, candidates, before, insert_by_score, sort_by_score, best_or_enabled,
  select_hybrid,
}
use agcp.Accounts.Store.{AccountStore, is_id}

abbrev pub is_gt : Option Ordering → Bool
is_gt (some Ordering.gt) = true
is_gt (some Ordering.eq) = false
is_gt (some Ordering.lt) = false
is_gt none = false

module _ (fl : Floats) where
  open fl use {F64, partial_cmp}

  -- `a > b`
  abbrev pub beats : F64 → F64 → Bool
  beats a b = is_gt (partial_cmp a b)

  before_lem : (o : Option Ordering) → before fl o ≡ is_gt o
  unfolding before
  before_lem o = ground arith

  abbrev every : (F64 → Bool) → List (Bytes × F64) → Bool
  every q [] = true
  every q (e ∷ l) = q e.1 && every q l

  every-insert :
      (q : F64 → Bool) (e : Bytes × F64) (l : List (Bytes × F64))
      → every q (insert_by_score fl e l) ≡ (q e.1 && every q l)
  unfolding insert_by_score
  every-insert q e [] = refl
  every-insert q e (f ∷ l) = ground (arith, every-insert q e l)

  every-sort : (q : F64 → Bool) (l : List (Bytes × F64)) → every q (sort_by_score fl l) ≡ every q l
  unfolding sort_by_score
  every-sort q [] = refl
  every-sort q (e ∷ l) = ground (arith, every-insert q e (sort_by_score fl l), every-sort q l)

  -- All accounts that are eligible pass the test.
  abbrev pub all_eligible : (Account fl → Bool) → (Account fl → Bool) → List (Account fl) → Bool
  all_eligible p q [] = true
  all_eligible p q (a ∷ l) = (not (p a) || q a) && all_eligible p q l

  every-candidates :
      (p : Account fl → Bool) (score : Account fl → F64) (q : F64 → Bool) (l : List (Account fl))
      → every q (map (λ a. (a.id, score a)) (filter p l)) ≡ all_eligible p (λ a. q (score a)) l
  every-candidates p score q [] = refl
  every-candidates p score q (a ∷ l) = ground (arith, every-candidates p score q l)

  any_assoc :
      (p q r : Account fl → Bool) (l : List (Account fl))
      → any (λ a. (p a && q a) && r a) l ≡ any (λ a. p a && (r a && q a)) l
  any_assoc p q r [] = refl
  any_assoc p q r (a ∷ l) = ground (arith, any_assoc p q r l)

  -- What the scoring asks of an account.
  abbrev pub eligible : ℕ → Bytes → F64 → Account fl → Bool
  eligible now model threshold a =
      (a.enabled && not a.is_invalid && not (is_rate_limited fl now model a))
      && not (is_quota_below_threshold fl model threshold a)

  module _ (number : F64 → Bool)
      (asym : (a b : F64)
        → number a ≡ true
        → number b ≡ true
        → beats a b ≡ true
        → beats b a ≡ false)
      (trans : (a b c : F64)
        → number a ≡ true
        → number b ≡ true
        → number c ≡ true
        → beats a b ≡ false
        → beats b c ≡ false
        → beats a c ≡ false) where
    irrefl : (a : F64) → number a ≡ true → beats a a ≡ false
    irrefl a n = elim (Bool-cases (beats a a)) [ inl e ↦ asym a a n n e | inr e ↦ e ]

    abbrev unbeaten : F64 → List (Bytes × F64) → Bool
    unbeaten s l = every (λ t. not (beats t s)) l

    abbrev Top : List (Bytes × F64) → Type 0
    Top [] = Unit
    Top (e ∷ l) = unbeaten e.1 (e ∷ l) ≡ true

    unbeaten_trans :
        (s t : F64) (l : List (Bytes × F64))
        → number s ≡ true
        → number t ≡ true
        → every number l ≡ true
        → beats s t ≡ false
        → unbeaten s l ≡ true
        → unbeaten t l ≡ true
    unbeaten_trans s t [] n m k b h = refl
    unbeaten_trans s t (e ∷ l) n m k b h = ground (arith, trans e.1 s t, unbeaten_trans s t l n m)

    Top-insert :
        (e : Bytes × F64) (l : List (Bytes × F64))
        → number e.1 ≡ true
        → every number l ≡ true
        → Top l
        → Top (insert_by_score fl e l)
    unfolding insert_by_score
    Top-insert e [] n k h = ground (arith, irrefl e.1 n)
    Top-insert e (f ∷ l) n k h = ground (
      arith,
      before_lem (partial_cmp f.1 e.1),
      every-insert (λ t. not (beats t f.1)) e l,
      asym f.1 e.1,
      irrefl e.1 n,
      unbeaten_trans f.1 e.1 l,
    )

    Top-sort : (l : List (Bytes × F64)) → every number l ≡ true → Top (sort_by_score fl l)
    unfolding sort_by_score
    Top-sort [] k = tt
    Top-sort (e ∷ l) k =
        Top-insert e (sort_by_score fl l) (ground arith) (every-sort number l ∙ ground arith)
          (Top-sort l (ground arith))

    -- The account at the top of the list is eligible, and its score is not beaten.
    best-Chooses :
        (p : Account fl → Bool) (score : Account fl → F64) (store : AccountStore fl)
        (l : List (Bytes × F64)) (enabled : Option (Account fl))
        → sort_by_score fl (map (λ a. (a.id, score a)) (filter p store.accounts)) ≡ l
        → l ≢ []
        → Top l
        → Chooses fl
            (λ a. p a && all_eligible p (λ b. not (beats (score b) (score a))) store.accounts)
            store
            (best_or_enabled fl store l enabled)
    unfolding best_or_enabled
    best-Chooses p score store [] enabled e h t = absurd (h refl)
    best-Chooses p score store ((id, s) ∷ l) enabled e h t =
        let entries : List (Bytes × F64) = map (λ a. (a.id, score a)) (filter p store.accounts) in
        let q : F64 → Bool = λ s. all_eligible p (λ b. not (beats (score b) s)) store.accounts in
        let unbeaten_same : (s : F64) → unbeaten s (sort_by_score fl entries) ≡ q s = λ s.
          every-sort (λ t. not (beats t s)) entries
          ∙ every-candidates p score (λ t. not (beats t s)) store.accounts in
        let top : q s ≡ true = sym (unbeaten_same s) ∙ ap (unbeaten s) e ∙ t in
        (
          id,
          refl,
          sym (any_assoc (is_id fl id) (λ a. q (score a)) p store.accounts)
              ∙ sym (any-filter fl p (λ a. is_id fl id a && q (score a)) store.accounts)
              ∙ sym (scored-map fl q score id (filter p store.accounts))
              ∙ sym (scored-sort fl q id entries)
              ∙ ap (scored fl q id) e
              ∙ ground (arith, text_eq_iff id id, top),
          refl,
        )

    insert_by_score_ne : (e : Bytes × F64) (l : List (Bytes × F64)) → insert_by_score fl e l ≢ []
    unfolding insert_by_score
    insert_by_score_ne e [] h = absurd (ground arith)
    insert_by_score_ne e (f ∷ l) h = absurd (ground arith)

    sort_by_score_ne : (l : List (Bytes × F64)) → l ≢ [] → sort_by_score fl l ≢ []
    unfolding sort_by_score
    sort_by_score_ne [] h = h
    sort_by_score_ne (e ∷ l) h = insert_by_score_ne e (sort_by_score fl l)

    -- While an account is enabled, valid, not limited and above its quota threshold, the scoring
    -- returns such an account, which no other of them beats in its score, and makes it the active
    -- one; if the scores of all of them are numbers, on which the order of the floating-point type
    -- is asymmetric and its negation transitive.
    pub select_hybrid-candidate :
        (now : ℕ) (model : Bytes) (store : AccountStore fl)
        → candidates fl now model store ≢ []
        → all_eligible
            (eligible now model store.quota_threshold)
            (λ a. number (total_score fl now model a))
            store.accounts
          ≡ true
        → let score = total_score fl now model in
          let p = eligible now model store.quota_threshold in
          Chooses fl
            (λ a. p a && all_eligible p (λ b. not (beats (score b) (score a))) store.accounts)
            store
            (select_hybrid fl now model store)
    unfolding select_hybrid candidates is_candidate
    select_hybrid-candidate now model store h numbers =
        let p = eligible now model store.quota_threshold in
        let score = total_score fl now model in
        best-Chooses p score store _ _ refl (sort_by_score_ne (candidates fl now model store) h) (
          Top-sort (candidates fl now model store)
            (every-candidates p score number store.accounts ∙ numbers))
