-- ===== src/Server/Args.antt =====
-- src/main.rs: the arguments and the configuration that `main` starts the server with. The reading of
-- the file and of TOML is a parameter.
use iotd.Prelude.{
  ◌≡◌, refl, Bytes, Option, none, some, List, [], ◌∷◌, ◌||◌, ◌==◌, bytes_eq, if◌then◌else◌,
}
use iotd.Protocol.Packet.{ascii}
use iotd.Config.{Config, default_config}

pub data Flag : Type 0 where
  version help listen_flag config_flag unknown : Flag

unfoldable pub flag_of : Bytes → Flag
flag_of arg =
    if (arg == ascii "-v") || (arg == ascii "--version")
    then Flag.version
    else if (arg == ascii "-h") || (arg == ascii "--help")
    then Flag.help
    else if (arg == ascii "-l") || (arg == ascii "--listen")
    then Flag.listen_flag
    else if (arg == ascii "-c") || (arg == ascii "--config")
    then Flag.config_flag
    else Flag.unknown

-- `print_version`, `print_help`, an error with the help, or the start of the server.
pub data Invocation : Type 0 where
  version help usage_error : Invocation
  start : Option Bytes → Option Bytes → Invocation

-- The loop over the arguments after the first.
unfoldable pub parse_args : List Bytes → Option Bytes → Option Bytes → Invocation
parse_args [] listen_address config_file = Invocation.start listen_address config_file
parse_args (arg ∷ []) listen_address config_file = elim (flag_of arg) [
  | Flag.version ↦ Invocation.version
  | Flag.help ↦ Invocation.help
  | Flag.listen_flag ↦ Invocation.usage_error
  | Flag.config_flag ↦ Invocation.usage_error
  | Flag.unknown ↦ Invocation.usage_error
]
parse_args (arg ∷ value ∷ rest) listen_address config_file = elim (flag_of arg) [
  | Flag.version ↦ Invocation.version
  | Flag.help ↦ Invocation.help
  | Flag.listen_flag ↦ parse_args rest (some value) config_file
  | Flag.config_flag ↦ parse_args rest listen_address (some value)
  | Flag.unknown ↦ Invocation.usage_error
]

abbrev pub load : (Bytes → Option Config) → Option Bytes → Option Config
load load_file none = some default_config
load load_file (some path) = load_file path

abbrev pub override_listen : Option Bytes → Config → Config
override_listen none config = config
override_listen (some addr) config = record config { listen = addr ∷ [] }

-- The configuration of the server, or the error of the file.
unfoldable pub configure : (Bytes → Option Config) → Option Bytes → Option Bytes → Option Config
configure load_file listen_address config_file = elim (load load_file config_file) [
  | none ↦ none
  | some config ↦ some (override_listen listen_address config)
]

pub data Setting : Type 0 where
  listen_on config_from : Bytes → Setting

abbrev pub print_settings : List Setting → List Bytes
print_settings [] = []
print_settings (Setting.listen_on addr ∷ rest) = ascii "-l" ∷ addr ∷ print_settings rest
print_settings (Setting.config_from path ∷ rest) = ascii "--config" ∷ path ∷ print_settings rest

-- The last address and the last file, or else these.
abbrev pub last_listen : List Setting → Option Bytes → Option Bytes
last_listen [] otherwise = otherwise
last_listen (Setting.listen_on addr ∷ rest) otherwise = last_listen rest (some addr)
last_listen (Setting.config_from path ∷ rest) otherwise = last_listen rest otherwise

abbrev pub last_config : List Setting → Option Bytes → Option Bytes
last_config [] otherwise = otherwise
last_config (Setting.listen_on addr ∷ rest) otherwise = last_config rest otherwise
last_config (Setting.config_from path ∷ rest) otherwise = last_config rest (some path)

-- Of the settings that are written on the command line, the last address and the last file count.
pub parse_args-print_settings :
    (settings : List Setting) (l c : Option Bytes)
    → parse_args (print_settings settings) l c
      ≡ Invocation.start (last_listen settings l) (last_config settings c)
unfolding parse_args flag_of
parse_args-print_settings [] l c = refl
parse_args-print_settings (Setting.listen_on addr ∷ rest) l c =
    parse_args-print_settings rest (some addr) c
parse_args-print_settings (Setting.config_from path ∷ rest) l c =
    parse_args-print_settings rest l (some path)
