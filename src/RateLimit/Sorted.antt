-- ===== src/RateLimit/Sorted.antt =====
-- `sorted({...})`: the elements of a list, once each, by code points.
use lacme.Prelude.{
  one_if, count_of, ◌+◌, ◌≡◌, ◌≤◌, ◌∙◌, refl, ap, Bool, true, false, List, [], ◌∷◌, ltb, ◌==◌, any,
  if◌then◌else◌, Str, str_eq, str_eq_iff, arith, Bool-cases, inl, inr,
}

-- `s in ts`
abbrev pub elem : Str → List Str → Bool
elem s ts = any (str_eq s) ts

-- `{...}`
unfoldable pub set_of : List Str → List Str
set_of [] = []
set_of (s ∷ ts) = let rest = set_of ts in if elem s rest then rest else s ∷ rest

-- `s < t` on texts
unfoldable pub str_ltb : Str → Str → Bool
str_ltb s [] = false
str_ltb [] (b ∷ t) = true
str_ltb (a ∷ s) (b ∷ t) = let rest = str_ltb s t in if a == b then rest else ltb a b

unfoldable pub insert : Str → List Str → List Str
insert s [] = s ∷ []
insert s (t ∷ ts) = let rest = insert s ts in if str_ltb t s then t ∷ rest else s ∷ t ∷ ts

-- `sorted(ts)`
unfoldable pub sort : List Str → List Str
sort [] = []
sort (s ∷ ts) = insert s (sort ts)

unfoldable pub sorted_set : List Str → List Str
unfolding set_of sort
sorted_set ts = sort (set_of ts)

count_of-insert :
    (r s : Str) (ts : List Str) → count_of r (insert s ts) ≡ one_if (str_eq r s) + count_of r ts
unfolding insert count_of
count_of-insert r s [] = refl
count_of-insert r s (t ∷ ts) = ground (arith, count_of-insert r s ts)

count_of-sort : (r : Str) (ts : List Str) → count_of r (sort ts) ≡ count_of r ts
unfolding sort count_of
count_of-sort r [] = refl
count_of-sort r (t ∷ ts) = omega (arith, count_of-insert r t (sort ts), count_of-sort r ts)

count_of-absent : (r : Str) (ts : List Str) → elem r ts ≡ false → count_of r ts ≡ 0
unfolding count_of
count_of-absent r [] h = refl
count_of-absent r (t ∷ ts) h = ground (arith, count_of-absent r ts)

count_of-set_of : (r : Str) (ts : List Str) → count_of r (set_of ts) ≡ one_if (elem r (set_of ts))
unfolding set_of count_of
count_of-set_of r [] = refl
count_of-set_of r (t ∷ ts) = elim (Bool-cases (elem t (set_of ts))) [
  | inl there ↦ rw there (count_of-set_of r ts)
  | inr new ↦
      rw new
        (ground (arith, count_of-set_of r ts, count_of-absent t (set_of ts) new, str_eq_iff r t))
]

elem-set_of : (r : Str) (ts : List Str) → elem r (set_of ts) ≡ elem r ts
unfolding set_of
elem-set_of r [] = refl
elem-set_of r (t ∷ ts) = elim (Bool-cases (elem t (set_of ts))) [
  | inl there ↦ rw there (ground (arith, elem-set_of r ts, str_eq_iff r t))
  | inr new ↦ rw new (ground (arith, elem-set_of r ts))
]

-- Each element of the list comes once, and nothing else.
pub count_of-sorted_set :
    (r : Str) (ts : List Str) → count_of r (sorted_set ts) ≡ one_if (elem r ts)
unfolding sorted_set
count_of-sorted_set r ts =
    count_of-sort r (set_of ts) ∙ count_of-set_of r ts ∙ ap one_if (elem-set_of r ts)

count_of-present : (r : Str) (ts : List Str) → elem r ts ≡ true → 1 ≤ count_of r ts
unfolding count_of
count_of-present r [] h = absurd (cc)
count_of-present r (t ∷ ts) h = ground (arith, count_of-present r ts)

pub elem-sorted_set : (r : Str) (ts : List Str) → elem r (sorted_set ts) ≡ elem r ts
elem-sorted_set r ts = elim (Bool-cases (elem r (sorted_set ts))) [
  | inr absent ↦
      absent ∙ ground (arith, count_of-absent r (sorted_set ts) absent, count_of-sorted_set r ts)
  | inl there ↦
      there ∙ ground (arith, count_of-present r (sorted_set ts) there, count_of-sorted_set r ts)
]
