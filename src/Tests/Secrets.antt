-- ===== src/Tests/Secrets.antt =====
-- The secrets of a host, with one subscription in the file and the environment.
use mihomo_proxy_management.Prelude.{String, [], ◌∷◌, some, true, false, str_eq}
use mihomo_proxy_management.Prelude.Dict.{Dict}
use mihomo_proxy_management.Manager.Secrets.{Texts, File, SecretInputs}

-- A text is one line, and 60 is the only number.
abbrev texts : Texts
texts = record {
  strip = λ s. s;
  lstrip = λ s. s;
  lower = λ s. s;
  splitlines = λ s. s ∷ [];
  is_interval = λ s. str_eq s "60";
}

abbrev secret_of : String → File
secret_of content = record {
  exists = true;
  is_link = false;
  is_file = true;
  mode = 384;
  uid = 0;
  gid = 0;
  content = some content;
}

abbrev environment : Dict String
environment = ("MPM_SUBSCRIPTION_URL", "https://host") ∷ []

abbrev resolved : SecretInputs
resolved = record {
  foreign_url = "https://host";
  cn_url = "";
  controller_secret = "token";
  cn_healthcheck_url = "";
  interval = "60";
  origins =
      ("MPM_SUBSCRIPTION_URL", "file+env")
      ∷ ("MPM_CN_SUBSCRIPTION_URL", "absent")
      ∷ ("MPM_CONTROLLER_SECRET", "stored")
      ∷ ("MPM_CN_HEALTHCHECK_URL", "absent")
      ∷ ("MPM_SUBSCRIPTION_INTERVAL", "absent")
      ∷ [];
  generated_secret = false;
}
