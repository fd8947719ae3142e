-- ===== src/Config/Startup.antt =====
-- The loading of internal/config/config.go at concrete files, and the theorems on it applied to them.
use api_x.Base.{Text, str, is_blank, true, false, none, some, [], if◌then◌else◌, ◌≡◌, refl}
use api_x.Base.Int.{pos}
use api_x.Base.Strings.{contains, text_eq}
use api_x.Config.{Config, Machine}
use api_x.Config.Accepting.{Accepted}
use api_x.Config.Loaded.{env_token_missed, blank_address_is_secured, defaults_accepted}
use api_x.Config.Loading.{Sources, defaults, env_token, default_path, load_config}
use api_x.Config.Network.{grpc_bind_requires_remote_security}
use api_x.Regex.{RegexLib}

abbrev substrings : RegexLib
substrings = record { Regex = Text; compile = some; match_string = λ re s. contains s re }

abbrev machine : Machine
machine = record {
  atoi = λ s. if text_eq s (str "8080") then some (pos 8080) else some (pos 9090);
  port_free = λ s. true;
  parse_ip = λ s. some (text_eq s (str "127.0.0.1"));
  missing = λ path. false;
  key_pair_loads = λ cert key. true;
}

-- A file that sets TLS and a token and empties the address, and one that fails to parse after its token.
abbrev opened : Config
opened = record defaults { tls_enabled = true; auth_token = str "f"; grpc_bind_address = [] }

abbrev sources : Sources
sources = record {
  read_file = λ path. if is_blank path then none else some path;
  mode_of = λ path. some 420;
  unmarshal = λ file c.
      if text_eq file (str "bad")
      then (record c { auth_token = str "f" }, false)
      else (opened, true);
  getenv = λ name. if text_eq name (str "APIX_AUTH_TOKEN") then str "e" else [];
  home = none;
  config_under = λ home. home;
}

env_token_missed_example : (load_config sources (str "bad")).auth_token ≡ (
    if (sources.unmarshal (str "bad") defaults).1
    then env_token sources
    else (sources.unmarshal (str "bad") defaults).0.auth_token)
unfolding text_eq
env_token_missed_example = env_token_missed sources (str "bad") (str "bad") refl refl

blank_address_is_secured_example :
    ((load_config sources (str "a.yaml")).tls_enabled ≡ true)
    × (is_blank (load_config sources (str "a.yaml")).auth_token ≡ false)
unfolding load_config grpc_bind_requires_remote_security text_eq
blank_address_is_secured_example =
    blank_address_is_secured sources machine (str "a.yaml") (str "a.yaml") opened refl refl refl
      refl refl

defaults_accepted_example : Accepted substrings machine false (load_config sources [])
unfolding text_eq
defaults_accepted_example =
    defaults_accepted sources substrings machine false [] refl refl refl refl refl refl

-- A mode of 0644 is too open, and the token of the environment is taken.
world_readable : (load_config sources (str "a.yaml")).config_perms_too_open ≡ true
unfolding load_config text_eq
world_readable = refl

fallback : default_path sources ≡ str "/etc/apix/config.yaml"
unfolding default_path text_eq
fallback = refl
