-- ===== src/Server/Downloads/Examples.antt =====
-- A download of a client.
use trasker.Prelude.{ℕ, refl, false, none, some, List, [], ◌∷◌, ◌++◌}
use trasker.Prelude.Int.{pos}
use trasker.Server.Tables.{ApiKey, ServerDb}
use trasker.Server.Downloads.{Deps, DownloadReq, Generated, Origin, build_download}
use trasker.Server.Downloads.Expiry.{NewKey, download-NewKey}
use trasker.Builder.{Target, zeros}
use trasker.Builder.Examples.{underscores, sentinel}
use trasker.Server.Examples.{old_key, anna_calls, given, settings, small_server}

-- The settings ask for 300 years.
abbrev long_server : ServerDb
long_server = record small_server {
  org_settings = some (record settings { key_expiry_days = pos 109500 });
}

-- "linux" on "amd64".
abbrev linux : Target
linux = record { os = 108 ∷ 105 ∷ 110 ∷ 117 ∷ 120 ∷ []; arch = 97 ∷ 109 ∷ 100 ∷ 54 ∷ 52 ∷ [] }

-- The binary is a sentinel and one more byte; the FQDN is "t".
abbrev deps : Deps
deps = record {
  builder = some ((linux, sentinel ++ 7 ∷ []) ∷ []);
  sentinels = record {
    server_url = sentinel;
    api_key = 65 ∷ underscores 127;
    version = 86 ∷ underscores 127;
  };
  version = 49 ∷ [];
  fqdn = 116 ∷ [];
  settings_fail = false;
  create_fails = false;
}

abbrev request : DownloadReq
request = record { target_os = linux.os; target_arch = linux.arch }

abbrev generated : Generated
generated = record { plain_key = 107 ∷ []; key_hash = "hash"; key_prefix = "tsk_1234" }

abbrev origin : Origin
origin = record { tls = false; forwarded_proto = []; host = [] }

abbrev downloaded_key : ApiKey
downloaded_key = record {
  id = 100;
  user_id = 1;
  key_hash = "hash";
  key_prefix = "tsk_1234";
  last_used_at = 1000;
  expires_at = 0;
  revoked = false;
  created_at = 1000;
  revoked_at = none;
}

abbrev after_download : ServerDb
after_download = record long_server { api_keys = old_key ∷ downloaded_key ∷ [] }

-- "https://t" and its padding.
abbrev binary : List ℕ
binary = (104 ∷ 116 ∷ 116 ∷ 112 ∷ 115 ∷ 58 ∷ 47 ∷ 47 ∷ 116 ∷ zeros 119) ++ 7 ∷ []

download-NewKey_example : (key : ApiKey) × NewKey 1000 109500 long_server after_download key
unfolding build_download
download-NewKey_example =
    download-NewKey deps given anna_calls (some request) (some generated) origin long_server
      after_download binary 109500 refl refl
