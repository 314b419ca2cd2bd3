-- ===== src/Config/Load.antt =====
-- internal/config/config.go: Load, from what the environment and the file hold to the
-- configuration that the server runs with. Reading the file (cleanenv) is a parameter.
pub mod Origins
use Prim.Native.String
use expire_share_api.Prelude.{
  ℕ, ℤ, Bool, true, false, Char, String, Option, none, some, List, [], ◌∷◌, ◌≡◌, refl, ap, sym, ◌∙◌,
  arith, ◌==◌, code, eqb, if◌then◌else◌, map, Bool-cases, ◌⊎◌, inl, inr,
}
use expire_share_api.Domain.{Error, opaque, wrap}
use expire_share_api.World.{Result, ok, err}
use expire_share_api.Http.Text.{trim_space}
use expire_share_api.Config.{set_permissions_config}

-- config.HttpServer
pub record HttpServer : Type 0 where
  pub port : ℕ
  pub write_timeout : ℤ
  pub read_timeout : ℤ
  pub idle_timeout : ℤ

-- config.CORS, as the file gives it.
pub record Cors : Type 0 where
  pub allowed_origins_env : String
  pub allowed_credentials : Bool
  pub max_age : ℤ

-- config.Redis
pub record Redis : Type 0 where
  pub addr : String
  pub password : String
  pub db : ℤ
  pub dial_timeout : ℤ
  pub timeout : ℤ
  pub max_retries : ℤ

-- config.Config as cleanenv fills it: the parts that the start of the process reads.
pub record Settings : Type 0 where
  pub env : String
  pub db_host : String
  pub db_password : String
  pub http_server : HttpServer
  pub cors : Cors
  pub redis : Redis
  pub auth_addr : String
  pub max_files_size_for_user : String
  pub max_files_size_for_vip : String

-- config.Config after Load.
pub record Config : Type 0 where
  pub settings : Settings
  pub allowed_origins : List String
  pub max_files_size_for_user_in_bytes : ℤ
  pub max_files_size_for_vip_in_bytes : ℤ
  pub db_connection_string : String

-- What Load meets: CONFIG_PATH, whether os.Stat finds no file there, and what cleanenv reads.
pub record Surroundings : Type 0 where
  pub config_path : String
  pub missing : Bool
  pub read : Result Settings

-- strings.Split(s, ","), read from the left.
unfoldable pub cons_first : Char → List String → List String
cons_first c [] = String.◌∷◌ c String.[] ∷ []
cons_first c (s ∷ more) = String.◌∷◌ c s ∷ more

unfoldable pub split_commas : String → List String
unfolding cons_first
split_commas String.[] = "" ∷ []
split_commas (String.◌∷◌ c s) =
    let more = split_commas s in if eqb (code c) 44 then "" ∷ more else cons_first c more

abbrev pub connection_string : Settings → String
connection_string cfg = String.◌++◌ "root:" (
    String.◌++◌ cfg.db_password
      (String.◌++◌ "@tcp(" (String.◌++◌ cfg.db_host ")/ExpireShare?charset=utf8&parseTime=True")))

-- The end of Load, from the file's content on. What ToBytes says of a size is left out of the text.
unfoldable pub configured : Settings → Result Config
configured cfg =
    elim (set_permissions_config cfg.max_files_size_for_user cfg.max_files_size_for_vip) [
      | none ↦ err (opaque "failed to parse max file size in config")
      | some (user, vip) ↦ ok (record {
        settings = cfg;
        allowed_origins = map trim_space (split_commas cfg.cors.allowed_origins_env);
        max_files_size_for_user_in_bytes = user;
        max_files_size_for_vip_in_bytes = vip;
        db_connection_string = connection_string cfg;
      })
    ]

unfoldable pub load : Surroundings → Result Config
unfolding configured
load s =
    if s.config_path == ""
    then err (opaque "env variable CONFIG_PATH not found")
    else if s.missing
    then err (opaque (String.◌++◌ "config file " (String.◌++◌ s.config_path " does not exist")))
    else elim s.read [ err e ↦ err (wrap "failed to read config" e) | ok cfg ↦ configured cfg ]

-- strings.Join(parts, ",")
unfoldable pub join_commas : List String → String
join_commas [] = ""
join_commas (s ∷ []) = s
join_commas (s ∷ t ∷ more) = String.◌++◌ s (String.◌++◌ "," (join_commas (t ∷ more)))
