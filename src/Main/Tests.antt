-- ===== src/Main/Tests.antt =====
-- A configuration, and the theorem on its hosts (src/main.cpp).
use as_proxyd.Boost.{join}
use as_proxyd.Boost.Model.{boost}
use as_proxyd.Common.{
  List, [], ◌∷◌, map, ◌≡◌, refl, Bytes, codes, bytes_eq, if◌then◌else◌, true, some, pos, arith,
}
use as_proxyd.Ini.{IniReader}
use as_proxyd.Main.{Os, serves, settings, the_control, main}
use as_proxyd.Main.Path.{expected, main_cases}
use as_proxyd.Main.Hosts.{bare, the_control-bare}

-- Two hosts in one pair of quotes; all else has its default.
abbrev hosts : List Bytes
hosts = codes "\"10.0.0.1" ∷ codes " 10.0.0.2\"" ∷ []

abbrev reader : IniReader
reader = record {
  get = λ section name default.
      if bytes_eq name (codes "servers") then codes "\"10.0.0.1, 10.0.0.2\"" else default;
  get_integer = λ section name default. default;
  get_boolean = λ section name default. default;
}

bare_run : map bare hosts ≡ codes "10.0.0.1" ∷ codes "10.0.0.2" ∷ []
unfolding bare
bare_run = refl

-- What stands behind the closing quote in conf/config.ini stays in the name of the last host.
semicolon_run : bare (codes "10.3.10.108\";") ≡ codes "10.3.10.108;"
unfolding bare
semicolon_run = refl

the_control-bare_example : (the_control boost reader).server_list ≡ map bare hosts
unfolding settings join bytes_eq
the_control-bare_example = the_control-bare boost reader hosts refl (refl, (refl, tt)) refl

-- The program in its place, with that configuration.
abbrev os : Os
os = record {
  exe = some (codes "/opt/as_proxyd/bin/as_proxyd");
  exists = λ file. bytes_eq file (codes "/opt/as_proxyd/bin/../conf/config.ini");
  reader = λ file. (pos 0, reader);
  listens = λ host port. true;
  log_opens = true;
  stamp = λ n. codes "2015-08-05 12:00:00";
  version = codes "0.7.1";
}

main_cases_example :
    main boost os ≡ expected boost os (codes "/opt/as_proxyd/bin/../conf/config.ini")
main_cases_example =
    main_cases boost os (codes "/opt/as_proxyd/bin") (codes "as_proxyd") refl refl refl
      (omega arith)

-- The server is reached.
serves_run :
    (expected boost os (codes "/opt/as_proxyd/bin/../conf/config.ini")).0
    ≡ serves (settings reader) (the_control boost reader)
unfolding bytes_eq
serves_run = refl
