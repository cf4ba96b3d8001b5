-- ===== src/Tests/Handlers.antt =====
-- Runs of the challenge handlers.
use lacme.Tests.Program.{program}
use lacme.Prelude.{
  ◌≡◌, ◌≢◌, refl, ℕ, ◌≤◌, arith, true, false, none, some, List, [], ◌∷◌, ◌++◌, Str, str_eq,
  str_eq_iff,
}
use lacme.Prelude.Text.{codes}
use lacme.Challenges.Http01.{
  challenge_prefix, token_re, answer, Answer, Call, provision_token, deprovision_token, run_tokens,
  answer-provisioned,
}
use lacme.Challenges.Dns01.{
  acme_challenge_domain, Provider, Checked, seen, Ending, State, wait_for_propagation,
  wait_for_propagation-ends, provision_record, deprovision_record, dns01_digest,
  provision_record-deprovision,
}

abbrev other_calls : List Call
other_calls = Call.provisioned (codes "u") (codes "u.k") ∷ Call.deprovisioned (codes "u") ∷ []

abbrev t_line : List Str
t_line = codes "GET" ∷ (challenge_prefix ++ codes "t") ∷ codes "HTTP/1.1" ∷ []

t_valid : token_re (codes "t") ≡ true
unfolding program
t_valid = refl

-- A newline at the end of a token passes the pattern.
newline_valid : token_re (codes "t" ++ 10 ∷ []) ≡ true
unfolding program
newline_valid = refl

other_than_t : codes "u" ≢ codes "t"
unfolding program
other_than_t h =
    let same : str_eq (codes "u") (codes "t") ≡ true = (str_eq_iff (codes "u") (codes "t")).1 h in
    cc same

answer-provisioned_example :
    let s' = run_tokens other_calls (provision_token (codes "t") (codes "t.k") []).1 in
    (answer t_line s' ≡ Answer.ok_with (codes "t.k"))
    × (answer t_line (run_tokens other_calls (deprovision_token (codes "t") s')) ≡ Answer.not_found)
answer-provisioned_example =
    answer-provisioned (codes "t") (codes "t.k") other_calls [] (codes "HTTP/1.1" ∷ []) t_valid
      (other_than_t, (other_than_t, tt))

-- a provider that logs
abbrev logging : Provider (List Str) (Unit {0})
logging = record {
  create_txt_record = λ name value log. (none, log ++ name ∷ []);
  delete_txt_record = λ name value log. (none, log ++ codes "deleted" ∷ name ∷ []);
}

abbrev no_digest : Str → Str
no_digest s = []

abbrev unseen : List (Checked (Unit {0}) × ℕ)
unseen = (seen false, 5) ∷ (seen false, 120) ∷ []

abbrev no_records : State (List Str)
no_records = record { records = []; world = [] }

-- A timeout leaves the record in place.
left_behind :
    provision_record no_digest logging 100
      (some unseen)
      (codes "*.a.io")
      (codes "t")
      (codes "t.k")
      no_records
    ≡ (
      some Ending.timed_out,
      record {
        records = ((codes "*.a.io", codes "t"), (codes "_acme-challenge.a.io", [])) ∷ [];
        world = codes "_acme-challenge.a.io" ∷ [];
      },
    )
unfolding program
left_behind = refl

waiting_ends :
    (ending : Ending (Unit {0})) × (wait_for_propagation no_digest logging 100 unseen ≡ some ending)
waiting_ends =
    wait_for_propagation-ends no_digest logging 100 ((seen false, 5) ∷ []) [] (seen false) 120 late
  where
    late : 100 ≤ 120
    late = omega arith

provision_record-deprovision_example :
    let name = acme_challenge_domain (codes "*.a.io") in
    let digest = dns01_digest no_digest logging (codes "t.k") in
    let s' =
      (provision_record no_digest logging 100
        (some unseen)
        (codes "*.a.io")
        (codes "t")
        (codes "t.k")
        no_records).1 in
    ((deprovision_record no_digest logging (codes "*.a.io") (codes "t") s').0
      ≡ (logging.delete_txt_record name digest (name ∷ [])).0)
    × ((deprovision_record no_digest logging (codes "*.a.io") (codes "t") s').1.world
        ≡ (logging.delete_txt_record name digest (name ∷ [])).1)
    × ((deprovision_record no_digest logging
          (codes "*.a.io")
          (codes "t")
          (deprovision_record no_digest logging (codes "*.a.io") (codes "t") s').1).0
        ≡ none)
    × ((deprovision_record no_digest logging
          (codes "*.a.io")
          (codes "t")
          (deprovision_record no_digest logging (codes "*.a.io") (codes "t") s').1).1.world
        ≡ (deprovision_record no_digest logging (codes "*.a.io") (codes "t") s').1.world)
provision_record-deprovision_example =
    provision_record-deprovision no_digest logging 100 (some unseen) (codes "*.a.io") (codes "t")
      (codes "t.k") no_records (acme_challenge_domain (codes "*.a.io") ∷ []) refl
