-- ===== src/Tests/Mocks.antt =====
-- Runs of the mock server.
use lacme.Prelude.{◌≡◌, refl, true, none, some, List, [], ◌∷◌, All, Str, arith}
use lacme.Prelude.Text.{codes}
use lacme.Responder.State.{pem}
use lacme.Responder.Request.{nonce_text}
use lacme.Mock.State.{MockServer, MockRequest, mock_init}
use lacme.Mock.Serve.{handle_request}
use lacme.Mock.View.{view, AreApart, read_mock}
use lacme.Mock.View.Finalizing.{Signs}
use lacme.Mock.View.Server.{IsCommon}
use lacme.Mock.View.Runs.{mock_run, responder_run, mock_run-Same}
use lacme.Tests.World.{world, issued_pem}
use lacme.Tests.Program.{program}

abbrev server : MockServer
server = record { auto_validate = true; base_url_argument = codes "https://ca/"; outside = world }

abbrev post : Str → Str → MockRequest
post path content = record { method = codes "POST"; path = path; content = content }

-- an account, an order, its challenge, the certificate and its download
abbrev requests : List MockRequest
requests =
    post (codes "/directory") []
    ∷ post (codes "/new-account") (codes "C")
    ∷ post (codes "/new-order") (codes "O")
    ∷ post (codes "/authz/1") (codes "E")
    ∷ post (codes "/chall/1") (codes "C")
    ∷ post (codes "/order/1") (codes "E")
    ∷ post (codes "/finalize/1") (codes "F")
    ∷ post (codes "/cert/1") (codes "E")
    ∷ post (codes "/nowhere") []
    ∷ []

signs : Signs server
signs der identifiers = (issued_pem, refl)

requests-IsCommon : All IsCommon requests
unfolding program
requests-IsCommon = (
  record { fits = omega arith; no_nonce = refl; no_ca = refl },
  (
    record { fits = omega arith; no_nonce = refl; no_ca = refl },
    (
      record { fits = omega arith; no_nonce = refl; no_ca = refl },
      (
        record { fits = omega arith; no_nonce = refl; no_ca = refl },
        (
          record { fits = omega arith; no_nonce = refl; no_ca = refl },
          (
            record { fits = omega arith; no_nonce = refl; no_ca = refl },
            (
              record { fits = omega arith; no_nonce = refl; no_ca = refl },
              (
                record { fits = omega arith; no_nonce = refl; no_ca = refl },
                (record { fits = omega arith; no_nonce = refl; no_ca = refl }, tt),
              ),
            ),
          ),
        ),
      ),
    ),
  ),
)

apart : AreApart mock_init
apart = tt

mock_run-Same_example :
    ((mock_run server signs refl requests mock_init).0
      ≡ (responder_run server signs refl requests (view mock_init)).0)
    × (view (mock_run server signs refl requests mock_init).1
        ≡ (responder_run server signs refl requests (view mock_init)).1)
mock_run-Same_example = mock_run-Same server signs refl requests mock_init requests-IsCommon apart

-- the last certificate is the one that was issued
abbrev downloaded : MockRequest
downloaded = post (codes "/cert/1") (codes "E")

downloads :
    read_mock (handle_request server downloaded (mock_run server signs refl requests mock_init).1).0
    ≡ some (200, nonce_text 10, none, pem issued_pem)
unfolding program
downloads = refl
