-- ===== src/RateLimit/Domains.antt =====
-- `_default_registered_domain`, on ASCII names (what the client counts are validated DNS names).
use lacme.Prelude.{◌≡◌, refl, false, List, [], ◌∷◌, ◌++◌, any, if◌then◌else◌, Str, str_eq, drop}
use lacme.Prelude.Text.{codes, lower, lower_char, starts_with, strip_prefix, rstrip, split}

-- `_KNOWN_SLDS`
abbrev pub known_slds : List Str
known_slds =
    codes "co.uk"
    ∷ codes "org.uk"
    ∷ codes "ac.uk"
    ∷ codes "gov.uk"
    ∷ codes "me.uk"
    ∷ codes "net.uk"
    ∷ codes "co.jp"
    ∷ codes "or.jp"
    ∷ codes "ne.jp"
    ∷ codes "ac.jp"
    ∷ codes "go.jp"
    ∷ codes "com.au"
    ∷ codes "org.au"
    ∷ codes "net.au"
    ∷ codes "edu.au"
    ∷ codes "gov.au"
    ∷ codes "co.nz"
    ∷ codes "org.nz"
    ∷ codes "net.nz"
    ∷ codes "co.za"
    ∷ codes "org.za"
    ∷ codes "web.za"
    ∷ codes "com.br"
    ∷ codes "org.br"
    ∷ codes "net.br"
    ∷ codes "com.cn"
    ∷ codes "org.cn"
    ∷ codes "net.cn"
    ∷ codes "gov.cn"
    ∷ codes "co.in"
    ∷ codes "org.in"
    ∷ codes "net.in"
    ∷ codes "gen.in"
    ∷ codes "co.kr"
    ∷ codes "or.kr"
    ∷ codes "ne.kr"
    ∷ codes "com.mx"
    ∷ codes "org.mx"
    ∷ codes "net.mx"
    ∷ codes "com.tr"
    ∷ codes "org.tr"
    ∷ codes "net.tr"
    ∷ codes "com.ru"
    ∷ codes "com.sg"
    ∷ codes "com.hk"
    ∷ codes "com.tw"
    ∷ codes "com.my"
    ∷ codes "com.ph"
    ∷ codes "com.ar"
    ∷ codes "com.co"
    ∷ codes "com.ve"
    ∷ codes "com.pe"
    ∷ []

-- `domain` in lower case, without the wildcard prefix and trailing dots
unfoldable pub bare_domain : Str → Str
bare_domain domain =
    let lowered = lower domain in
    rstrip b'.' (if starts_with lowered (codes "*.") then drop 2 lowered else lowered)

-- the last labels joined: two, or three behind a known suffix
unfoldable pub last_labels : Str → List Str → Str
last_labels domain [] = domain
last_labels domain (p ∷ []) = domain
last_labels domain (p ∷ q ∷ []) = domain
last_labels domain (p ∷ q ∷ r ∷ []) =
    let sld = q ++ b'.' ∷ r in if any (str_eq sld) known_slds then p ++ b'.' ∷ sld else sld
last_labels domain (p ∷ q ∷ r ∷ s ∷ parts) = last_labels domain (q ∷ r ∷ s ∷ parts)

unfoldable pub default_registered_domain : Str → Str
unfolding bare_domain last_labels
default_registered_domain domain =
    last_labels (bare_domain domain) (split b'.' (bare_domain domain))

bare_domain-wildcard :
    (d : Str)
    → starts_with (lower d) (codes "*.") ≡ false
    → bare_domain (codes "*." ++ d) ≡ bare_domain d
unfolding bare_domain lower lower_char starts_with strip_prefix drop
bare_domain-wildcard d plain = simp (plain, bare_domain) refl

-- A wildcard name has the same registered domain as the name below it, if that is no wildcard name
-- itself.
pub default_registered_domain-wildcard :
    (d : Str)
    → starts_with (lower d) (codes "*.") ≡ false
    → default_registered_domain (codes "*." ++ d) ≡ default_registered_domain d
unfolding default_registered_domain
default_registered_domain-wildcard d plain = simp (bare_domain-wildcard d plain) refl
