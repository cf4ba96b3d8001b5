-- ===== src/Tests/Disk.antt =====
-- A disk for the runs of the store: two keys with two hashes, and a JSON codec for meta.json.
use lacme.Prelude.{
  ℕ, zero, suc, ◌≡◌, ◌≢◌, refl, sym, ap, ◌∙◌, ◌⊎◌, inl, inr, true, false, Option, none, some, List,
  [], ◌∷◌, map, Str, str_eq, str_eq_iff, all, length, ltb, ok, if◌then◌else◌, arith, Bool-cases,
}
use lacme.Prelude.Text.{codes}
use lacme.RateLimit.Sorted.{elem}
use lacme.Json.{Json, Items, text, arr, obj, field, end, nil, cons, of_list}
use lacme.Store.Names.{is_hex_digit, Sha256, domain_component, component_of}
use lacme.Store.Platform.{StorePlatform, LoadedKey, ec_key, meta_dict}
use lacme.Store.Paths.{IsPlainDisk}
use lacme.Store.Agrees.{AreKeys}
use lacme.Tests.Program.{program}

abbrev pub zeros : ℕ → Str
zeros zero = []
zeros (suc n) = b'0' ∷ zeros n

-- one hash for short texts, and one for the others
abbrev pub hexdigest : Str → Str
hexdigest s = (if ltb (length s) 5 then b'0' else b'1') ∷ zeros 63

pub hexdigest-hex : (s : Str) → all is_hex_digit (hexdigest s) ≡ true
unfolding is_hex_digit
hexdigest-hex s = ground arith

abbrev pub sha256 : Sha256
sha256 = record {
  hexdigest = hexdigest;
  hexdigest-hex = hexdigest-hex;
  length-hexdigest = λ s. refl;
}

-- A text as its code points plus one, closed by a zero.
unfoldable pub chunk : Str → Str → Str
chunk [] t = 0 ∷ t
chunk (c ∷ s) t = suc c ∷ chunk s t

abbrev onto_first : ℕ → List Str → List Str
onto_first c [] = (c ∷ []) ∷ []
onto_first c (s ∷ ss) = (c ∷ s) ∷ ss

unfoldable pub chunks : Str → List Str
chunks [] = []
chunks (zero ∷ t) = [] ∷ chunks t
chunks (suc c ∷ t) = onto_first c (chunks t)

unfoldable pub chunk_all : Items → Str
unfolding chunk
chunk_all nil = []
chunk_all (cons (text s) vs) = chunk s (chunk_all vs)
chunk_all (cons v vs) = chunk_all vs

unfoldable pub dumps : Json → Str
unfolding chunk chunk_all
dumps (obj (field a (text d) (field b (arr vs) (field c (text i) (field e (text x) end))))) =
    chunk d (chunk i (chunk x (chunk_all vs)))
dumps _ = []

abbrev meta_of_chunks : List Str → Option Json
meta_of_chunks (d ∷ i ∷ x ∷ names) = some (meta_dict (text d) (map text names) (text i) (text x))
meta_of_chunks _ = none

unfoldable pub loads_meta : Str → Option Json
unfolding chunks
loads_meta s = meta_of_chunks (chunks s)

chunks-chunk : (s t : Str) → chunks (chunk s t) ≡ s ∷ chunks t
unfolding chunks chunk
chunks-chunk [] t = refl
chunks-chunk (c ∷ s) t = rw (chunks-chunk s t) refl

chunks-chunk_all : (names : List Str) → chunks (chunk_all (of_list (map text names))) ≡ names
unfolding chunk_all of_list chunks
chunks-chunk_all [] = refl
chunks-chunk_all (s ∷ names) =
    rw (chunks-chunk s (chunk_all (of_list (map text names))), chunks-chunk_all names) refl

pub loads-dumps :
    (d i x : Str) (names : List Str)
    → let meta = meta_dict (text d) (map text names) (text i) (text x) in
      loads_meta (dumps meta) ≡ some meta
unfolding loads_meta dumps
loads-dumps d i x names =
    rw
      (
        chunks-chunk d (chunk i (chunk x (chunk_all (of_list (map text names))))),
        chunks-chunk i (chunk x (chunk_all (of_list (map text names)))),
        chunks-chunk x (chunk_all (of_list (map text names))),
        chunks-chunk_all names,
      )
      refl

abbrev pub first_of : Str → Option ℕ
first_of [] = none
first_of (c ∷ s) = some c

abbrev pub key_of : Str → Option (LoadedKey ℕ)
key_of [] = none
key_of (c ∷ s) = some (ec_key c)

-- Paths without links, dot names or doubled slashes.
abbrev pub disk_platform : StorePlatform
disk_platform = record {
  sha256 = sha256;
  resolve = λ path. path;
  is_symlink = λ path. false;
  dumps = dumps;
  loads = loads_meta;
  loads-dumps = loads-dumps;
  Datetime = ℕ;
  isoformat = λ t. t ∷ [];
  fromisoformat = first_of;
  fromisoformat-isoformat = λ t. refl;
  EcKey = ℕ;
  is_p256 = λ key. true;
  private_bytes = λ key. key ∷ [];
  load_pem_private_key = key_of;
  load_pem_private_key-private_bytes = λ key. refl;
}

abbrev pub disk_base : Str
disk_base = codes "/b"

pub plain_disk : IsPlainDisk disk_platform disk_base
plain_disk = record {
  root_no_link = refl;
  root_itself = refl;
  no_link = λ name. refl;
  itself = λ name valid. refl;
}

-- a portable key, and one that is hashed
abbrev pub disk_keys : List Str
disk_keys = codes "a.io" ∷ codes "*.a.io" ∷ []

known_key : (d : Str) → elem d disk_keys ≡ true → (d ≡ codes "a.io") ⊎ (d ≡ codes "*.a.io")
known_key d h = elim (Bool-cases (str_eq d (codes "a.io"))) [
  | inl first ↦ inl ((str_eq_iff _ _).0 first)
  | inr other ↦ elim (Bool-cases (str_eq d (codes "*.a.io"))) [
    | inl second ↦ inr ((str_eq_iff _ _).0 second)
    | inr none_of ↦ cc (h, other, none_of)
  ]
]

key_named :
    (d : Str)
    → (d ≡ codes "a.io") ⊎ (d ≡ codes "*.a.io")
    → (name : Str) × (domain_component sha256 d ≡ ok name)
unfolding program
key_named d (inl first) = (codes "a.io", rw first refl)
key_named d (inr second) = (component_of sha256 (codes "*.a.io"), rw second refl)

abbrev head_or_zero : Str → ℕ
head_or_zero [] = 0
head_or_zero (c ∷ s) = c

two_hashes : hexdigest (codes "a.io") ≢ hexdigest (codes "*.a.io")
two_hashes same = let heads : b'0' ≡ b'1' = ap head_or_zero same in absurd (omega (arith, heads))

keys_apart :
    (d e : Str)
    → (d ≡ codes "a.io") ⊎ (d ≡ codes "*.a.io")
    → (e ≡ codes "a.io") ⊎ (e ≡ codes "*.a.io")
    → hexdigest d ≡ hexdigest e
    → d ≡ e
keys_apart d e (inl p) (inl q) same = cc (p, q)
keys_apart d e (inr p) (inr q) same = cc (p, q)
keys_apart d e (inl p) (inr q) same =
    absurd (two_hashes (ap hexdigest (sym p) ∙ same ∙ ap hexdigest q))
keys_apart d e (inr p) (inl q) same =
    absurd (two_hashes (sym (ap hexdigest (sym p) ∙ same ∙ ap hexdigest q)))

pub disk_AreKeys : AreKeys sha256 disk_keys
disk_AreKeys = record {
  named = λ d h. key_named d (known_key d h);
  no_collision = λ d e h h' same. keys_apart d e (known_key d h) (known_key e h') same;
}
