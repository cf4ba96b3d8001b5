-- ===== src/Challenges/Http01.antt =====
-- `HTTP01Handler` of challenges/http01.py: its table of tokens, and the answer to a request line. The
-- socket, its timeouts and the limits on lines are not modelled.
use lacme.Prelude.{
  ◌≡◌, ◌≢◌, refl, ◌∙◌, ℕ, Bool, true, false, ◌&&◌, ◌||◌, leb, ◌==◌, Option, none, some, List, [],
  ◌∷◌, ◌++◌, All, Str, str_eq, str_Eq, if◌then◌else◌, arith, str_eq_iff, str_eq_refl, Bool-cases,
  inl, inr, Result, ok, raise, value_error,
}
use lacme.Prelude.Text.{codes, is_empty, strip_prefix}
use lacme.Prelude.Dict
use lacme.Prelude.Dict.{Dict}

abbrev pub challenge_prefix : Str
challenge_prefix = codes "/.well-known/acme-challenge/"

-- a character of `[A-Za-z0-9_-]`
abbrev pub is_token_char : ℕ → Bool
is_token_char c =
    (leb b'A' c && leb c b'Z')
    || (leb b'a' c && leb c b'z')
    || (leb b'0' c && leb c b'9')
    || c == b'_'
    || c == b'-'

-- the rest of a match, whose `$` stands before a final newline too
unfoldable pub token_rest : Str → Bool
token_rest [] = true
token_rest (c ∷ s) =
    let rest = token_rest s in if is_token_char c then rest else c == 10 && is_empty s

-- `_TOKEN_RE.match`
unfoldable pub token_re : Str → Bool
unfolding token_rest
token_re [] = false
token_re (c ∷ s) = is_token_char c && token_rest s

-- `_challenges`
abbrev pub Challenges : Type 0
Challenges = Dict Str Str

unfoldable pub provision_token : Str → Str → Challenges → Result (Unit {0}) × Challenges
unfolding token_re Dict.put
provision_token token key_authorization s =
    if token_re token then (ok tt, Dict.put s token key_authorization) else (raise value_error, s)

unfoldable pub deprovision_token : Str → Challenges → Challenges
unfolding Dict.pop
deprovision_token token s = Dict.pop s token

abbrev pub get_response : Str → Challenges → Option Str
get_response token s = Dict.get s token

-- the status of an answer, with the body of a 200
pub data Answer : Type 0 where
  ok_with : Str → Answer
  bad_request not_found : Answer

unfoldable pub answer_token : Str → Challenges → Answer
unfolding token_re Dict.get
answer_token token s =
    if token_re token
    then elim (get_response token s) [
      | none ↦ Answer.not_found
      | some key_authorization ↦ Answer.ok_with key_authorization
    ]
    else Answer.bad_request

unfoldable pub answer_path : Str → Str → Challenges → Answer
unfolding answer_token strip_prefix
answer_path method path s =
    if str_eq method (codes "GET")
    then elim (strip_prefix challenge_prefix path) [
      | none ↦ Answer.not_found
      | some token ↦ answer_token token s
    ]
    else Answer.not_found

-- the answer to the parts of the request line
unfoldable pub answer : List Str → Challenges → Answer
unfolding answer_path
answer [] s = Answer.bad_request
answer (method ∷ []) s = Answer.bad_request
answer (method ∷ path ∷ more) s = answer_path method path s

-- A call of the handler.
pub data Call : Type 0 where
  provisioned : Str → Str → Call
  deprovisioned : Str → Call

abbrev pub token_of : Call → Str
token_of (provisioned token key_authorization) = token
token_of (deprovisioned token) = token

unfoldable pub run_tokens : List Call → Challenges → Challenges
unfolding provision_token deprovision_token
run_tokens [] s = s
run_tokens (provisioned token key_authorization ∷ calls) s =
    run_tokens calls (provision_token token key_authorization s).1
run_tokens (deprovisioned token ∷ calls) s = run_tokens calls (deprovision_token token s)

provision_token-elsewhere :
    (token other key_authorization : Str) (s : Challenges)
    → token ≢ other
    → Dict.get (provision_token token key_authorization s).1 other ≡ Dict.get s other
unfolding provision_token
provision_token-elsewhere token other key_authorization s ne = elim (Bool-cases (token_re token)) [
  | inl valid ↦ rw (valid, provision_token) (Dict.get-put_ne s token other key_authorization ne)
  | inr invalid ↦ rw (invalid, provision_token) refl
]

get-pop_ne :
    (t token : Str) (s : Challenges) → t ≢ token → Dict.get (Dict.pop s t) token ≡ Dict.get s token
get-pop_ne t token s ne = ground (arith, Dict.get-pop s t token, str_eq_iff t token)

run_tokens-elsewhere :
    (calls : List Call) (token : Str) (s : Challenges)
    → All (λ c. token_of c ≢ token) calls
    → Dict.get (run_tokens calls s) token ≡ Dict.get s token
unfolding run_tokens deprovision_token
run_tokens-elsewhere [] token s h = refl
run_tokens-elsewhere (provisioned t key_authorization ∷ calls) token s (ne, h) =
    run_tokens-elsewhere calls token (provision_token t key_authorization s).1 h
    ∙ provision_token-elsewhere t token key_authorization s ne
run_tokens-elsewhere (deprovisioned t ∷ calls) token s (ne, h) =
    run_tokens-elsewhere calls token (Dict.pop s t) h ∙ get-pop_ne t token s ne

answer-token :
    (token : Str) (s : Challenges) (more : List Str)
    → answer (codes "GET" ∷ (challenge_prefix ++ token) ∷ more) s ≡ answer_token token s
unfolding answer answer_path str_eq strip_prefix
answer-token token s more = refl

answer_token-some :
    (token key_authorization : Str) (s : Challenges)
    → token_re token ≡ true
    → Dict.get s token ≡ some key_authorization
    → answer_token token s ≡ Answer.ok_with key_authorization
unfolding answer_token
answer_token-some token key_authorization s valid there = rw (valid, there, answer_token) refl

answer_token-none :
    (token : Str) (s : Challenges)
    → token_re token ≡ true
    → Dict.get s token ≡ none
    → answer_token token s ≡ Answer.not_found
unfolding answer_token
answer_token-none token s valid gone = rw (valid, gone, answer_token) refl

-- If a token matches the pattern, then after it is provisioned, and after any further calls that are
-- about other tokens, a GET of its path is answered with its key authorization; once it is
-- deprovisioned, with 404 in any such state.
pub answer-provisioned :
    (token key_authorization : Str) (calls : List Call) (s : Challenges) (more : List Str)
    → token_re token ≡ true
    → All (λ c. token_of c ≢ token) calls
    → let line = codes "GET" ∷ (challenge_prefix ++ token) ∷ more in
      let s' = run_tokens calls (provision_token token key_authorization s).1 in
      (answer line s' ≡ Answer.ok_with key_authorization)
      × (answer line (run_tokens calls (deprovision_token token s')) ≡ Answer.not_found)
unfolding provision_token deprovision_token
answer-provisioned token key_authorization calls s more valid others =
    let s' = run_tokens calls (provision_token token key_authorization s).1 in
    let there : Dict.get s' token ≡ some key_authorization =
      run_tokens-elsewhere calls token (provision_token token key_authorization s).1 others
      ∙ rw (valid, provision_token) (Dict.get-put_self s token key_authorization) in
    let gone : Dict.get (run_tokens calls (deprovision_token token s')) token ≡ none =
      run_tokens-elsewhere calls token (deprovision_token token s') others
      ∙ cc (Dict.get-pop s' token token, str_eq_refl token) in
    (
      answer-token token s' more ∙ answer_token-some token key_authorization s' valid there,
      answer-token token (run_tokens calls (deprovision_token token s')) more
          ∙ answer_token-none token (run_tokens calls (deprovision_token token s')) valid gone,
    )
