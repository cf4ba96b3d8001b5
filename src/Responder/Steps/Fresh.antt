-- ===== src/Responder/Steps/Fresh.antt =====
-- A URL with the next number is new.
use lacme.Prelude.{ℕ, suc, ◌≤◌, ◌≡◌, refl, none, some, Str, str_Eq, Option-cases, inl, inr, arith}
use lacme.Prelude.Dict.{Dict, get, put, Entries, Entries-put}
use lacme.Responder.Request.{numbered}
use lacme.Responder.Numbered.{numbered-injective}
use lacme.Responder.Steps.Consistent.{Numbered}

pub Numbered-mono : {u : Str} {m n : ℕ} → Numbered u m → m ≤ n → Numbered u n
Numbered-mono r le = record {
  base = r.base;
  kind = r.kind;
  k = r.k;
  spelled = r.spelled;
  bound = omega arith;
}

module _ {ℓ} {V : Type ℓ} where
  pub numbered_fresh :
      (d : Dict Str V) (n : ℕ) (base kind : Str)
      → Entries (λ u _. Numbered u n) d
      → get d (numbered base kind (suc n)) ≡ none
  numbered_fresh d n base kind h = elim (Option-cases (get d (numbered base kind (suc n)))) [
    | inl new ↦ new
    | inr (v, old) ↦
        let r = h (numbered base kind (suc n)) v old in
        let e : suc n ≡ r.k = numbered-injective base r.base kind r.kind (suc n) r.k r.spelled in
        absurd (omega arith)
  ]

  pub numbered-put :
      (d : Dict Str V) (n : ℕ) (base kind : Str) (v : V)
      → Entries (λ u _. Numbered u n) d
      → Entries (λ u _. Numbered u (suc n)) (put d (numbered base kind (suc n)) v)
  numbered-put d n base kind v h =
      Entries-put (λ u _. Numbered u (suc n)) d (numbered base kind (suc n)) v
        (λ u w g. Numbered-mono (h u w g) (omega arith))
        (record { base = base; kind = kind; k = suc n; spelled = refl; bound = omega arith })

  pub numbered-update :
      (d : Dict Str V) (n : ℕ) (k : Str) (v w : V)
      → Entries (λ u _. Numbered u n) d
      → get d k ≡ some w
      → Entries (λ u _. Numbered u n) (put d k v)
  numbered-update d n k v w h found = Entries-put (λ u _. Numbered u n) d k v h (h k w found)
