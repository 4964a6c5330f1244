-- ===== src/LogLevels.antt =====
-- internal/debug/debug.go and error.go: the log levels of the configuration, one text for each.
-- Texts are ASCII bytes.
pub mod Parse
pub mod Order
pub mod Meaning
pub mod Accept
use abschlussarbeit.Common.{
  ℕ, String, Bool, true, false, not, ◌&&◌, ◌||◌, List, [], ◌∷◌, ◌==◌, if◌then◌else◌, Error, errorf,
  Result, ok, err,
}
use abschlussarbeit.Common.Bytes.{Bytes}
use abschlussarbeit.LogLevels.Parse.{
  Setting, Level, Severity, debug, error, info, warning, level_of, panic_level, error_level,
  warn_level, info_level, debug_level, top, firecracker, output, sdk, containerd, invalid,
  level_name, parse_level,
}

-- `Helper`. `log_fc` is empty while it is not set.
pub record Helper : Type 0 where
  pub log_levels : List Bytes
  pub shim_debug : Bool
  pub log_debug : Bool
  pub log_error : Bool
  pub log_info : Bool
  pub log_warning : Bool
  pub log_fc_sdk : Level
  pub log_fc_output : Bool
  pub log_fc : String
  pub log_fc_containerd : Level
  pub fc_sdk_log_level_set : Bool
  pub fc_containerd_log_level_set : Bool

-- `&Helper{logLevels: logLevels}`; the zero value of `logrus.Level` is `PanicLevel`.
abbrev pub blank : List Bytes → Helper
blank log_levels = record {
  log_levels = log_levels;
  shim_debug = false;
  log_debug = false;
  log_error = false;
  log_info = false;
  log_warning = false;
  log_fc_sdk = panic_level;
  log_fc_output = false;
  log_fc = "";
  log_fc_containerd = panic_level;
  fc_sdk_log_level_set = false;
  fc_containerd_log_level_set = false;
}

abbrev pub err_log_level_already_set : Error
err_log_level_already_set = errorf "only one value for top level log level can be set" []

abbrev pub err_fc_log_level_already_set : Error
err_fc_log_level_already_set = errorf "only one value of firecracker log level can be set" []

abbrev pub err_fc_sdk_log_level_already_set : Error
err_fc_sdk_log_level_already_set =
    errorf "only one value of firecracker-go-sdk log level can be set" []

abbrev pub err_fc_containerd_log_level_already_set : Error
err_fc_containerd_log_level_already_set =
    errorf "only one value of firecracker-containerd log level can be set" []

-- `GetFirecrackerLogLevel`
unfoldable pub get_firecracker_log_level : Helper → String
get_firecracker_log_level h =
    if not (h.log_fc == "")
    then h.log_fc
    else if h.log_debug
    then "Debug"
    else if h.log_error
    then "Error"
    else if h.log_info
    then "Info"
    else if h.log_warning
    then "Warning"
    else h.log_fc

-- `LogFirecrackerOutput`
unfoldable pub log_firecracker_output : Helper → Bool
log_firecracker_output h = h.log_debug || h.log_fc_output

-- `GetFirecrackerSDKLogLevel`
unfoldable pub get_firecracker_sdk_log_level : Helper → Level × Bool
get_firecracker_sdk_log_level h =
    if h.fc_sdk_log_level_set
    then (h.log_fc_sdk, true)
    else if h.log_debug
    then (debug_level, true)
    else if h.log_error
    then (error_level, true)
    else if h.log_info
    then (info_level, true)
    else if h.log_warning
    then (warn_level, true)
    else (h.log_fc_sdk, false)

-- `GetFirecrackerContainerdLogLevel`
unfoldable pub get_firecracker_containerd_log_level : Helper → Level × Bool
get_firecracker_containerd_log_level h =
    if h.fc_containerd_log_level_set
    then (h.log_fc_containerd, h.fc_containerd_log_level_set)
    else if h.log_debug || h.shim_debug
    then (debug_level, true)
    else if h.log_error
    then (error_level, true)
    else if h.log_info
    then (info_level, true)
    else if h.log_warning
    then (warn_level, true)
    else (panic_level, false)

-- `setFirecrackerLogLevel`
set_firecracker_log_level : String → Helper → Result Helper
set_firecracker_log_level level h =
    if not (h.log_fc == "")
    then err err_fc_log_level_already_set
    else ok (record h { log_fc = level })

-- `setFirecrackerContainerdLogLevel`
set_firecracker_containerd_log_level : Level → Helper → Result Helper
set_firecracker_containerd_log_level level h =
    if h.fc_containerd_log_level_set
    then err err_fc_containerd_log_level_already_set
    else ok (record h { fc_containerd_log_level_set = true; log_fc_containerd = level })

-- `setFirecrackerSDKLogLevel`
set_firecracker_sdk_log_level : Level → Helper → Result Helper
set_firecracker_sdk_log_level level h =
    if h.fc_sdk_log_level_set
    then err err_fc_sdk_log_level_already_set
    else ok (record h { fc_sdk_log_level_set = true; log_fc_sdk = level })

-- `isTopLogLevelSet`
unfoldable pub is_top_log_level_set : Helper → Bool
is_top_log_level_set h = h.log_debug || h.log_error || h.log_info || h.log_warning

-- The four fields of the top levels.
set_top : Severity → Helper → Helper
set_top debug h = record h { log_debug = true }
set_top error h = record h { log_error = true }
set_top info h = record h { log_info = true }
set_top warning h = record h { log_warning = true }

-- One round of the loop of `setLogLevels`.
unfoldable pub set_log_level : Setting → Helper → Result Helper
unfolding is_top_log_level_set set_top set_firecracker_log_level set_firecracker_sdk_log_level
    set_firecracker_containerd_log_level
set_log_level (top level) h =
    if is_top_log_level_set h then err err_log_level_already_set else ok (set_top level h)
set_log_level (firecracker level) h = set_firecracker_log_level (level_name level) h
set_log_level output h = ok (record h { log_fc_output = true })
set_log_level (sdk level) h = set_firecracker_sdk_log_level (level_of level) h
set_log_level (containerd level) h = set_firecracker_containerd_log_level (level_of level) h
set_log_level (invalid cleaned) h = err (errorf "invalid log level" [])

abbrev and_then : Result Helper → (Helper → Result Helper) → Result Helper
and_then (ok h) f = f h
and_then (err e) f = err e

-- `setLogLevels`, on the settings that the texts stand for.
unfoldable pub set_log_levels : List Setting → Helper → Result Helper
set_log_levels [] h = ok h
set_log_levels (s ∷ rest) h = and_then (set_log_level s h) (set_log_levels rest)

abbrev pub settings : List Bytes → List Setting
settings [] = []
settings (level ∷ rest) = parse_level level ∷ settings rest

-- `New`
unfoldable pub new : List Bytes → Result Helper
new log_levels = set_log_levels (settings log_levels) (blank log_levels)
