-- ===== src/Identifiers/Dns/Labels.antt =====
-- What `_DNS_LABEL_RE` and the loop over the labels accept, said without the pattern.
use lacme.Prelude.{
  ℕ, ◌≤◌, ◌≡◌, ◌≢◌, ◌↔◌, refl, ap, Bool, true, false, ◌||◌, ◌&&◌, List, [], ◌∷◌, ◌++◌, ◌==◌, leb,
  leb→le, arith, Str, All, length, ok, value_error, guard-eq-ok, >>=-eq-ok, Bool-cases, inl, inr,
  &&-eq-true,
}
use lacme.Prelude.Text.{codes, lower, starts_with}
use lacme.Identifiers.Platform.{Platform}
use lacme.Identifiers.Dns.{is_alnum, ends_alnum, label_re, is_canonical, check_label, check_labels}

-- a letter, a digit or a hyphen
abbrev pub is_ldh : ℕ → Bool
is_ldh c = is_alnum c || c == b'-'

-- letters, digits and hyphens, with no hyphen at either end, in 1 to 63 characters
pub record IsLdhLabel (label : Str) : Type 0 where
  pub full : label ≢ []
  pub short : length label ≤ 63
  pub chars : All (λ c. is_ldh c ≡ true) label
  pub first : (s : Str) → label ≢ b'-' ∷ s
  pub last : (s : Str) → label ≢ s ++ b'-' ∷ []

pub hyphen-not-alnum : is_alnum b'-' ≡ false
unfolding is_alnum
hyphen-not-alnum = refl

EndsWell : Str → Type 0
EndsWell s = (s ≢ []) × All (λ c. is_ldh c ≡ true) s × ((t : Str) → s ≢ t ++ b'-' ∷ [])

last-cons : (c d : ℕ) (s t : Str) → c ∷ s ≡ t ++ d ∷ [] → s ≢ [] → (u : Str) × (s ≡ u ++ d ∷ [])
last-cons c d s [] e ne = absurd (ne (ground arith))
last-cons c d s (x ∷ t) e ne = (t, ground arith)

nil-ne-concat : (t : Str) (d : ℕ) → [] ≢ t ++ d ∷ []
nil-ne-concat [] d = λ e. cc
nil-ne-concat (x ∷ t) d = λ e. cc

last-one : (c d : ℕ) (t : Str) → c ∷ [] ≡ t ++ d ∷ [] → c ≡ d
last-one c d [] e = ground arith
last-one c d (x ∷ t) e = absurd (nil-ne-concat t d (ground arith))

ends_alnum-to : (s : Str) → ends_alnum s ≡ true → EndsWell s
unfolding ends_alnum EndsWell
ends_alnum-to [] h = cc
ends_alnum-to (c ∷ []) h =
    (λ e. cc, (ground arith, tt), λ t e. cc (last-one c b'-' t e, hyphen-not-alnum))
ends_alnum-to (c ∷ d ∷ s) h =
    let (here, rest) = &&-eq-true _ (ends_alnum (d ∷ s)) h in
    let (_, chars, last) = ends_alnum-to (d ∷ s) rest in
    (
      λ e. cc,
      (here, chars),
      λ t e. let (u, e') = last-cons c b'-' (d ∷ s) t e (λ p. cc) in last u e',
    )

ends_alnum-from : (s : Str) → EndsWell s → ends_alnum s ≡ true
unfolding ends_alnum EndsWell
ends_alnum-from [] h = absurd (h.0 refl)
ends_alnum-from (c ∷ []) (full, chars, last) = elim (Bool-cases (c == b'-')) [
  | inl hyphen ↦ absurd (last [] (ground arith))
  | inr other ↦ ground arith
]
ends_alnum-from (c ∷ d ∷ s) (full, chars, last) =
    ground (arith, ends_alnum-from (d ∷ s) (λ e. cc, chars.1, λ t e. last (c ∷ t) (ap (◌∷◌ c) e)))

label_re-to : (l : Str) → length l ≤ 63 → label_re l ≡ true → IsLdhLabel l
unfolding label_re EndsWell
label_re-to [] short h = cc
label_re-to (c ∷ []) short h = record {
  full = λ e. cc;
  short = short;
  chars = (ground arith, tt);
  first = λ s e. ground (arith, hyphen-not-alnum);
  last = λ s e. cc (last-one c b'-' s e, hyphen-not-alnum);
}
label_re-to (c ∷ d ∷ l) short h =
    let (h₁, room) = &&-eq-true (is_alnum c && ends_alnum (d ∷ l)) (leb (length l) 61) h in
    let (head, tail) = &&-eq-true (is_alnum c) (ends_alnum (d ∷ l)) h₁ in
    let (_, chars, last) = ends_alnum-to (d ∷ l) tail in
    record {
      full = λ e. cc;
      short = short;
      chars = (ground arith, chars);
      first = λ s e. ground (arith, hyphen-not-alnum);
      last = λ s e. let (u, e') = last-cons c b'-' (d ∷ l) s e (λ p. cc) in last u e';
    }

label_re-from : (l : Str) → IsLdhLabel l → label_re l ≡ true
unfolding label_re EndsWell
label_re-from [] p = absurd (p.full refl)
label_re-from (c ∷ []) p = elim (Bool-cases (c == b'-')) [
  | inl hyphen ↦ absurd (p.first [] (ground arith))
  | inr other ↦ ground (arith, p.chars.0)
]
label_re-from (c ∷ d ∷ l) p = elim (Bool-cases (c == b'-')) [
  | inl hyphen ↦ absurd (p.first (d ∷ l) (ground arith))
  | inr other ↦ ground (
    arith,
    p.short,
    p.chars.0,
    ends_alnum-from (d ∷ l) (λ e. cc, p.chars.1, λ t e. p.last (c ∷ t) (ap (◌∷◌ c) e)),
  )
]

module _ (py : Platform) where
  -- A label that may stand in a name: an LDH label, and a canonical A-label if it begins with `xn--`.
  pub record IsLabel (label : Str) : Type 0 where
    pub ldh : IsLdhLabel label
    pub canonical : starts_with (lower label) (codes "xn--") ≡ true → is_canonical py label ≡ true

  check_label-to : (l : Str) → check_label py l ≡ ok tt → IsLabel l
  unfolding check_label
  check_label-to l h =
      let (form, h₁) = guard-eq-ok (leb (length l) 63 && label_re l) value_error _ h in
      let (short, re) = &&-eq-true (leb (length l) 63) (label_re l) form in
      record { ldh = label_re-to l (leb→le (length l) 63 short) re; canonical = λ x. ground arith }

  check_label-from : (l : Str) → IsLabel l → check_label py l ≡ ok tt
  unfolding check_label
  check_label-from l p = elim (Bool-cases (starts_with (lower l) (codes "xn--"))) [
    | inl a_label ↦ ground (arith, label_re-from l p.ldh, p.ldh.short, p.canonical a_label)
    | inr plain ↦ ground (arith, label_re-from l p.ldh, p.ldh.short)
  ]

  pub check_labels-ok_iff : (ls : List Str) → (check_labels py ls ≡ ok tt) ↔ All IsLabel ls
  unfolding check_labels
  check_labels-ok_iff [] = (λ h. tt, λ h. refl)
  check_labels-ok_iff (l ∷ ls) = (
    λ h.
        let (u, one, rest) = >>=-eq-ok (check_label py l) _ h in
        (check_label-to l (cc (one, unit u)), (check_labels-ok_iff ls).0 rest),
    λ h. rw (check_label-from l h.0) ((check_labels-ok_iff ls).1 h.1),
  )
    where
      unit : (u : Unit {0}) → u ≡ tt
      unit tt = refl
