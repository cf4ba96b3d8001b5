-- ===== src/Identifiers/Dns/Accepts.antt =====
-- Which texts `validate_dns_identifier` accepts, and that it returns them as they are.
use lacme.Prelude.{
  ℕ, ◌≤◌, ◌≡◌, ◌≢◌, ◌↔◌, refl, ap, sym, ◌∙◌, Bool, true, false, not, none, List, [], ◌∷◌, ◌++◌,
  ◌==◌, leb, ltb, leb→le, le→leb, arith, Str, All, All-append, All-map, length, any, all, ok,
  value_error, guard-eq-ok, >>=-eq-ok, Bool-cases, Option-cases, inl, inr, ok-injective, subst,
}
use lacme.Prelude.Text.{
  codes, is_empty, is_ascii, contains, strip_prefix, append-strip_prefix, split, join,
}
use lacme.Identifiers.Platform.{Platform}
use lacme.Identifiers.Dns.{is_alnum, check_labels, strip_wildcard, validate_dns_identifier}
use lacme.Identifiers.Dns.Labels.{is_ldh, IsLabel, check_labels-ok_iff}
use lacme.Identifiers.Dns.Split.{Lacks, split-join_full, join-split, split-ne-nil}

-- `*.` before a name, where wildcards are allowed
abbrev pub prefix : Bool → Str
prefix true = codes "*."
prefix false = []

module _ (py : Platform) where
  -- At least one label, joined by dots.
  pub record IsName (name : Str) : Type 0 where
    pub labels : List Str
    pub some_label : labels ≢ []
    pub valid : All (IsLabel py) labels
    pub joined : join b'.' labels ≡ name

  -- A name, or `*.` and a name if wildcards are allowed; at most 253 characters in all.
  pub record IsCertificateName (allow_wildcard : Bool) (value : Str) : Type 0 where
    pub wildcard : Bool
    pub allowed : wildcard ≡ true → allow_wildcard ≡ true
    pub name : Str
    pub is_name : IsName name
    pub spelled : value ≡ prefix wildcard ++ name
    pub short : length value ≤ 253

  ldh-ne : (k c : ℕ) → is_ldh k ≡ false → is_ldh c ≡ true → c == k ≡ false
  ldh-ne k c no_k yes_c = elim (Bool-cases (c == k)) [ inl same ↦ ground arith | inr other ↦ other ]

  ldh-Lacks : (k : ℕ) (l : Str) → is_ldh k ≡ false → All (λ c. is_ldh c ≡ true) l → Lacks k l
  ldh-Lacks k l no_k h = All-map l (λ c p. ldh-ne k c no_k p) h

  labels-Lacks : (k : ℕ) (ls : List Str) → is_ldh k ≡ false → All (IsLabel py) ls → All (Lacks k) ls
  labels-Lacks k ls no_k h = All-map ls (λ l p. ldh-Lacks k l no_k p.ldh.chars) h

  dot-not-ldh : is_ldh b'.' ≡ false
  unfolding is_alnum
  dot-not-ldh = refl

  star-not-ldh : is_ldh b'*' ≡ false
  unfolding is_alnum
  star-not-ldh = refl

  ldh-ascii : (c : ℕ) → is_ldh c ≡ true → ltb c 128 ≡ true
  unfolding is_alnum
  ldh-ascii c h = ground arith

  -- What holds of the dot and of each character of each label holds of the name.
  All-join : (P : ℕ → Type 0) (ls : List Str) → P b'.' → All (All P) ls → All P (join b'.' ls)
  unfolding join
  All-join P [] dot h = tt
  All-join P (l ∷ []) dot h = h.0
  All-join P (l ∷ m ∷ ls) dot h =
      All-append P l (b'.' ∷ join b'.' (m ∷ ls)) h.0 (dot, All-join P (m ∷ ls) dot h.1)

  all-true : (p : ℕ → Bool) (s : Str) → All (λ c. p c ≡ true) s → all p s ≡ true
  all-true p [] h = refl
  all-true p (c ∷ s) h = ground (arith, all-true p s h.1)

  any-false : (p : ℕ → Bool) (s : Str) → All (λ c. p c ≡ false) s → any p s ≡ false
  any-false p [] h = refl
  any-false p (c ∷ s) h = ground (arith, any-false p s h.1)

  labels_full : (ls : List Str) → All (IsLabel py) ls → any is_empty ls ≡ false
  labels_full [] h = refl
  labels_full ([] ∷ ls) h = absurd (h.0.ldh.full refl)
  labels_full ((c ∷ l) ∷ ls) h = labels_full ls h.1

  join_full : (ls : List Str) → ls ≢ [] → All (IsLabel py) ls → is_empty (join b'.' ls) ≡ false
  unfolding join
  join_full [] full h = absurd (full refl)
  join_full ([] ∷ ls) full h = absurd (h.0.ldh.full refl)
  join_full ((c ∷ l) ∷ []) full h = refl
  join_full ((c ∷ l) ∷ m ∷ ls) full h = refl

  module _ (name : Str) (n : IsName name) where
    name_ascii : is_ascii name ≡ true
    name_ascii =
        all-true (λ c. ltb c 128) name
          (subst (All (λ c. ltb c 128 ≡ true)) n.joined (
            All-join (λ c. ltb c 128 ≡ true) n.labels refl
              (All-map n.labels (λ l p. All-map l ldh-ascii p.ldh.chars) n.valid)))

    name_star : contains name b'*' ≡ false
    name_star =
        any-false (λ c. c == b'*') name
          (subst (Lacks b'*') n.joined (
            All-join (λ c. c == b'*' ≡ false) n.labels refl
              (labels-Lacks b'*' n.labels star-not-ldh n.valid)))

    split-name : split b'.' name ≡ n.labels
    split-name =
        ap (split b'.') (sym n.joined)
        ∙ split-join_full b'.' n.labels n.some_label
            (labels-Lacks b'.' n.labels dot-not-ldh n.valid)

    name_full : is_empty name ≡ false
    name_full = ap is_empty (sym n.joined) ∙ join_full n.labels n.some_label n.valid

    labels_pass : not (any is_empty (split b'.' name)) ≡ true
    labels_pass = rw split-name (ap not (labels_full n.labels n.valid))

    check_pass : check_labels py (split b'.' name) ≡ ok tt
    check_pass = rw split-name ((check_labels-ok_iff py n.labels).1 n.valid)

  no_star-strip : (s : Str) → contains s b'*' ≡ false → strip_prefix (codes "*.") s ≡ none
  unfolding strip_prefix
  no_star-strip [] h = refl
  no_star-strip (c ∷ s) h = ground arith

  strip_wildcard-plain :
      (name : Str) (allow : Bool)
      → contains name b'*' ≡ false
      → strip_wildcard py name allow ≡ ok name
  unfolding strip_wildcard
  strip_wildcard-plain name allow h = rw (no_star-strip name h, strip_wildcard)

  strip_wildcard-star : (name : Str) → strip_wildcard py (prefix true ++ name) true ≡ ok name
  unfolding strip_wildcard strip_prefix
  strip_wildcard-star name = refl

  accepted :
      (allow w : Bool) (name : Str)
      → (w ≡ true → allow ≡ true)
      → IsName name
      → length (prefix w ++ name) ≤ 253
      → validate_dns_identifier py (prefix w ++ name) allow ≡ ok (prefix w ++ name)
  unfolding validate_dns_identifier
  accepted allow true name allowed n short = rw (allowed refl) (
      rw (name_ascii name n) (
        rw (strip_wildcard-star name) (
          rw (name_star name n) (
            rw (le→leb (length (prefix true ++ name)) 253 short)
              (rw (labels_pass name n) (rw (check_pass name n)))))))
  accepted allow false name allowed n short = rw (name_full name n) (
      rw (name_ascii name n) (
        rw (strip_wildcard-plain name allow (name_star name n)) (
          rw (name_star name n) (
            rw (le→leb (length name) 253 short)
              (rw (labels_pass name n) (rw (check_pass name n)))))))

  -- What the guards after the wildcard say of the name.
  full-IsName : (name : Str) → check_labels py (split b'.' name) ≡ ok tt → IsName name
  full-IsName name h = record {
    labels = split b'.' name;
    some_label = split-ne-nil b'.' name;
    valid = (check_labels-ok_iff py (split b'.' name)).0 h;
    joined = join-split b'.' name;
  }

  strip_wildcard-ok :
      (value name : Str) (allow : Bool)
      → strip_wildcard py value allow ≡ ok name
      → (w : Bool) × (w ≡ true → allow ≡ true) × (value ≡ prefix w ++ name)
  unfolding strip_wildcard
  strip_wildcard-ok value name true h = elim (Option-cases (strip_prefix (codes "*.") value)) [
    | inl plain ↦ (false, λ e. refl, ground arith)
    | inr (rest, found) ↦
        (true, λ e. refl, append-strip_prefix (codes "*.") value rest found ∙ ground arith)
  ]
  strip_wildcard-ok value name false h = elim (Option-cases (strip_prefix (codes "*.") value)) [
    | inl plain ↦ (false, λ e. cc, ground arith)
    | inr (rest, found) ↦ absurd (ground arith)
  ]

  unit : (u : Unit {0}) → u ≡ tt
  unit tt = refl

  accepted-IsCertificateName :
      (value : Str) (allow : Bool) (result : Str)
      → validate_dns_identifier py value allow ≡ ok result
      → (result ≡ value) × IsCertificateName allow value
  unfolding validate_dns_identifier
  accepted-IsCertificateName value allow result h =
      let (_, h₁) = guard-eq-ok (not (is_empty value)) value_error _ h in
      let (_, h₂) = guard-eq-ok (is_ascii value) value_error _ h₁ in
      let (name, stripped, h₃) = >>=-eq-ok (strip_wildcard py value allow) _ h₂ in
      let (_, h₄) = guard-eq-ok (not (contains name b'*')) value_error _ h₃ in
      let (short, h₅) = guard-eq-ok (leb (length value) 253) value_error _ h₄ in
      let (_, h₆) = guard-eq-ok (not (any is_empty (split b'.' name))) value_error _ h₅ in
      let (u, checked, h₇) = >>=-eq-ok (check_labels py (split b'.' name)) _ h₆ in
      let (w, allowed, spelled) = strip_wildcard-ok value name allow stripped in
      (
        sym (ok-injective h₇),
        record {
          wildcard = w;
          allowed = allowed;
          name = name;
          is_name = full-IsName name (checked ∙ ap ok (unit u));
          spelled = spelled;
          short = leb→le (length value) 253 short;
        },
      )

  -- `validate_dns_identifier` returns a text exactly when that text is its argument, and the argument is
  -- a dotted name of valid labels, or, where wildcards are allowed, `*.` before such a name, of at
  -- most 253 characters.
  pub validate_dns_identifier-ok_iff :
      (value : Str) (allow_wildcard : Bool) (result : Str)
      → (validate_dns_identifier py value allow_wildcard ≡ ok result)
        ↔ ((result ≡ value) × IsCertificateName allow_wildcard value)
  validate_dns_identifier-ok_iff value allow result = (
    accepted-IsCertificateName value allow result,
    λ (same, n).
        rw (same, n.spelled)
          (accepted allow n.wildcard n.name n.allowed n.is_name (rw n.spelled at n.short)),
  )

  pub validate_dns_identifier-full :
      (value : Str) (allow_wildcard : Bool) (result : Str)
      → validate_dns_identifier py value allow_wildcard ≡ ok result
      → is_empty value ≡ false
  unfolding validate_dns_identifier
  validate_dns_identifier-full [] allow result h = cc
  validate_dns_identifier-full (c ∷ value) allow result h = refl

  pub validate_dns_identifier-ascii :
      (value : Str) (allow_wildcard : Bool) (result : Str)
      → validate_dns_identifier py value allow_wildcard ≡ ok result
      → is_ascii value ≡ true
  unfolding validate_dns_identifier
  validate_dns_identifier-ascii value allow result h =
      let (_, h₁) = guard-eq-ok (not (is_empty value)) value_error _ h in
      (guard-eq-ok (is_ascii value) value_error _ h₁).0
