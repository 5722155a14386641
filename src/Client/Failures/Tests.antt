-- ===== src/Client/Failures/Tests.antt =====
-- The text of an error.
use mailpeek.Prelude.{◌≡◌, refl, false, none, some, [], ◌∷◌, codes}
use mailpeek.Client.Platform.{Platform, rejected, get_method, http_failure}
use mailpeek.Client.Requests.{Config, ask}
use mailpeek.Client.Failures.{failure_text}

abbrev texts : Platform
texts = record {
  World = Unit {0};
  clock = λ w. 0;
  now = λ w. (0, w);
  fetch = λ r w. (rejected false false [], w);
  signal_aborted = λ w. false;
  lower = λ s. s;
  parse_date = λ s. none;
  iso = λ t. [];
  encode = λ s. s;
  show_number = λ n. codes "502";
}

abbrev config : Config
config = record { timeout = 1; request_timeout = 1; base_url = []; inbox_domain = [] }

failure_text_test :
    failure_text texts
      (λ ps. codes "q=a")
      config
      (http_failure (ask get_method (codes "/messages") ((codes "q", codes "a") ∷ []) 1) 502 none)
    ≡ some (codes "Mailpeek GET /messages?q=a failed: HTTP 502")
failure_text_test = refl
