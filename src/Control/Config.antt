-- ===== src/Control/Config.antt =====
-- What `AS_CONTROL` (include/as_control.hpp) asks of the reader of the configuration, which is a
-- parameter.
use as_proxyd.Common.{Bool, not, Bytes, ℤ, pos, eq_ℤ, to_int}
use as_proxyd.Ini.{IniReader}

unfoldable pub get_config_string : IniReader → Bytes → Bytes → Bytes → Bytes
get_config_string r section name def = r.get section name def

unfoldable pub get_config_int : IniReader → Bytes → Bytes → ℤ → ℤ
get_config_int r section name def = to_int (r.get_integer section name def)

-- `getConfigFloat`, which reads an integer.
unfoldable pub get_config_float : IniReader → Bytes → Bytes → ℤ → ℤ
get_config_float r section name def = r.get_integer section name def

unfoldable pub get_config_bool : IniReader → Bytes → Bytes → ℤ → Bool
get_config_bool r section name def = r.get_boolean section name (not (eq_ℤ def (pos 0)))
