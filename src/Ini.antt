-- ===== src/Ini.antt =====
-- The reader of configuration files, INIReader, which is a copy of another project's library.
use as_proxyd.Common.{Bool, Bytes, ℤ}

-- What the code uses of `INIReader`: the value of a key in a section, or a default. An integer is a
-- `long`.
pub record IniReader : Type 0 where
  pub get : Bytes → Bytes → Bytes → Bytes
  pub get_integer : Bytes → Bytes → ℤ → ℤ
  pub get_boolean : Bytes → Bytes → Bool → Bool
