-- ===== src/Manager/Secrets/Laws.antt =====
-- What `resolve` of linux/python/mpm/secrets_io.py returns.
use mihomo_proxy_management.Prelude.{String, Option, none, some, Bool, true, ◌&&◌, str_eq}
use mihomo_proxy_management.Prelude.Dict.{Dict, get}
use mihomo_proxy_management.Manager.Secrets.{SecretInputs}

-- A source that has the key has this value.
abbrev pub allows : Option String → String → Bool
allows none value = true
allows (some v) value = str_eq v value

-- What the sources say of the two subscriptions.
abbrev pub agrees : Dict String → SecretInputs → Bool
agrees source inputs =
    allows (get source "MPM_SUBSCRIPTION_URL") inputs.foreign_url
    && allows (get source "MPM_CN_SUBSCRIPTION_URL") inputs.cn_url
    && allows (get source "MPM_CN_HEALTHCHECK_URL") inputs.cn_healthcheck_url
