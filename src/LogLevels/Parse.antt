-- ===== src/LogLevels/Parse.antt =====
-- internal/debug/debug.go: the texts of the log levels.
use mathlib.Core.List.{reverse}
use abschlussarbeit.Common.{ℕ, String, Bool, ◌||◌, ◌&&◌, List, [], ◌∷◌, leb, eqb, if◌then◌else◌}
use abschlussarbeit.Common.Bytes.{Bytes, bytes_eq, codes}

-- `logrus.Level`, the values that the program uses.
pub data Level : Type 0 where
  panic_level error_level warn_level info_level debug_level : Level

-- The levels that a text can ask for.
pub data Severity : Type 0 where
  debug error info warning : Severity

unfoldable pub level_of : Severity → Level
level_of debug = debug_level
level_of error = error_level
level_of info = info_level
level_of warning = warn_level

-- What a text asks for: a case of the switch of `setLogLevels`.
pub data Setting : Type 0 where
  top : Severity → Setting
  firecracker : Severity → Setting
  output : Setting
  sdk : Severity → Setting
  containerd : Severity → Setting
  invalid : Bytes → Setting

-- The level as Firecracker has it.
unfoldable pub level_name : Severity → String
level_name error = "Error"
level_name warning = "Warning"
level_name info = "Info"
level_name debug = "Debug"

is_space : ℕ → Bool
is_space c = (leb 9 c && leb c 13) || eqb c 32

drop_spaces : Bytes → Bytes
drop_spaces [] = []
drop_spaces (c ∷ s) = let rest = drop_spaces s in if is_space c then rest else c ∷ s

-- `strings.TrimSpace` on ASCII.
unfoldable pub trim_space : Bytes → Bytes
unfolding is_space drop_spaces
trim_space s = reverse (drop_spaces (reverse (drop_spaces s)))

-- The first name of a table that a text equals.
choose : Bytes → List (String × Setting) → Setting
choose s [] = invalid s
choose s ((name, setting) ∷ rest) =
    let later = choose s rest in if bytes_eq s (codes name) then setting else later

-- The cases of the switch, in its order, with the constants `LogLevel…` written out.
abbrev cases : List (String × Setting)
cases =
    ("debug", top debug)
    ∷ ("error", top error)
    ∷ ("info", top info)
    ∷ ("warning", top warning)
    ∷ ("firecracker:debug", firecracker debug)
    ∷ ("firecracker:error", firecracker error)
    ∷ ("firecracker:info", firecracker info)
    ∷ ("firecracker:warning", firecracker warning)
    ∷ ("firecracker:output", output)
    ∷ ("firecracker-go-sdk:debug", sdk debug)
    ∷ ("firecracker-go-sdk:error", sdk error)
    ∷ ("firecracker-go-sdk:info", sdk info)
    ∷ ("firecracker-go-sdk:warning", sdk warning)
    ∷ ("firecracker-containerd:debug", containerd debug)
    ∷ ("firecracker-containerd:error", containerd error)
    ∷ ("firecracker-containerd:info", containerd info)
    ∷ ("firecracker-containerd:warning", containerd warning)
    ∷ []

-- `cleanedLevel` and the switch.
unfoldable pub parse_level : Bytes → Setting
unfolding trim_space choose bytes_eq
parse_level level = choose (trim_space level) cases
