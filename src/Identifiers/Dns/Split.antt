-- ===== src/Identifiers/Dns/Split.antt =====
-- `s.split(sep)` and `sep.join(parts)` are inverse to one another on parts without the separator.
use mathlib.Core.List.{append_assoc, append-nil}
use lacme.Prelude.{
  ℕ, ◌≡◌, ◌≢◌, refl, ap, sym, ◌∙◌, true, false, List, [], ◌∷◌, ◌++◌, ◌==◌, Str, All, Bool-cases,
  inl, inr, arith, ==_iff,
}
use lacme.Prelude.Text.{split_onto, split, join}

abbrev pub Lacks : ℕ → Str → Type 0
Lacks sep = All (λ c. c == sep ≡ false)

module _ (sep : ℕ) where
  split_onto-at :
      (acc s : Str) (c : ℕ) → c == sep ≡ true → split_onto sep acc (c ∷ s) ≡ acc ∷ split sep s
  unfolding split_onto split
  split_onto-at acc s c h = rw (h, split_onto)

  split_onto-skip :
      (acc s : Str) (c : ℕ)
      → c == sep ≡ false
      → split_onto sep acc (c ∷ s) ≡ split_onto sep (acc ++ c ∷ []) s
  unfolding split_onto
  split_onto-skip acc s c h = rw (h, split_onto)

  split_onto-cons :
      (acc p : Str)
      → Lacks sep p
      → (s : Str) → split_onto sep acc (p ++ sep ∷ s) ≡ (acc ++ p) ∷ split sep s
  split_onto-cons acc [] h s = rw append-nil (split_onto-at acc s sep (ground arith))
  split_onto-cons acc (c ∷ p) h s = rw (split_onto-skip acc _ c h.0) (
      split_onto-cons (acc ++ c ∷ []) p h.1 s
      ∙ ap (λ x. x ∷ split sep s) (append_assoc acc (c ∷ []) p))

  split_onto-end : (acc p : Str) → Lacks sep p → split_onto sep acc p ≡ (acc ++ p) ∷ []
  split_onto-end acc [] h = unfold split_onto in rw append-nil
  split_onto-end acc (c ∷ p) h =
      rw (split_onto-skip acc _ c h.0)
        (split_onto-end (acc ++ c ∷ []) p h.1 ∙ ap (λ x. x ∷ []) (append_assoc acc (c ∷ []) p))

  split-join :
      (p : Str) (ps : List Str) → All (Lacks sep) (p ∷ ps) → split sep (join sep (p ∷ ps)) ≡ p ∷ ps
  unfolding join split
  split-join p [] h = split_onto-end [] p h.0
  split-join p (q ∷ ps) h =
      split_onto-cons [] p h.0 (join sep (q ∷ ps)) ∙ ap (◌∷◌ p) (split-join q ps h.1)

  pub split-join_full :
      (ps : List Str) → ps ≢ [] → All (Lacks sep) ps → split sep (join sep ps) ≡ ps
  split-join_full [] full h = absurd (full refl)
  split-join_full (p ∷ ps) full h = split-join p ps h

  split_onto-ne : (acc s : Str) → split_onto sep acc s ≢ []
  split_onto-ne acc [] = λ h. unfold split_onto in cc
  split_onto-ne acc (c ∷ s) = λ h. elim (Bool-cases (c == sep)) [
    | inl same ↦ cc (split_onto-at acc s c same)
    | inr other ↦ split_onto-ne (acc ++ c ∷ []) s (sym (split_onto-skip acc s c other) ∙ h)
  ]

  pub split-ne-nil : (s : Str) → split sep s ≢ []
  unfolding split
  split-ne-nil s = split_onto-ne [] s

  join-cons : (p : Str) (ps : List Str) → ps ≢ [] → join sep (p ∷ ps) ≡ p ++ sep ∷ join sep ps
  unfolding join
  join-cons p [] h = absurd (h refl)
  join-cons p (q ∷ ps) h = refl

  join-split_onto : (acc s : Str) → join sep (split_onto sep acc s) ≡ acc ++ s
  unfolding split
  join-split_onto acc [] = unfold split_onto join in rw append-nil
  join-split_onto acc (c ∷ s) = elim (Bool-cases (c == sep)) [
    | inl same ↦ rw (split_onto-at acc s c same) (
        join-cons acc (split sep s) (split_onto-ne [] s)
        ∙ ap (λ x. acc ++ sep ∷ x) (join-split_onto [] s)
        ∙ ap (λ x. acc ++ x ∷ s) (sym ((==_iff c sep).0 same)))
    | inr other ↦
        rw (split_onto-skip acc s c other)
          (join-split_onto (acc ++ c ∷ []) s ∙ append_assoc acc (c ∷ []) s)
  ]

  pub join-split : (s : Str) → join sep (split sep s) ≡ s
  unfolding split
  join-split s = join-split_onto [] s
