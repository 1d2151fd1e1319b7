-- ===== src/Main.antt =====
-- src/main.cpp: from the path of the program to the server that runs. The reader of the configuration
-- file is a parameter, as is what `main` asks of the system.
pub mod Hosts
pub mod Path
mod Tests
use as_proxyd.Boost.{Boost}
use as_proxyd.Common.{
  ℕ, zero, ◌-◌, suc, Bool, true, false, ◌||◌, ◌==◌, ltb, if◌then◌else◌, Option, none, some, ◌++◌,
  take, length, until_nul, List, [], ◌∷◌, Bytes, codes, ℤ, pos, negsuc, to_int,
}
use as_proxyd.Control.{Control, new_control}
use as_proxyd.Ini.{IniReader}
use as_proxyd.Util.Log.{log_line}

pub record Settings : Type 0 where
  pub health_file : Bytes
  pub host : Bytes
  pub port : ℤ
  pub max_thread : ℤ
  pub as_servers : Bytes
  pub as_port : ℤ
  pub as_timeout : ℤ

unfoldable pub settings : IniReader → Settings
settings r = record {
  health_file = r.get (codes "server") (codes "status") [];
  host = r.get (codes "server") (codes "host") (codes "0.0.0.0");
  port = to_int (r.get_integer (codes "server") (codes "port") (pos 8000));
  max_thread = to_int (r.get_integer (codes "server") (codes "max_thread") (pos 8));
  as_servers = r.get (codes "aerospike") (codes "servers") (codes "127.0.0.1");
  as_port = to_int (r.get_integer (codes "aerospike") (codes "port") (pos 3000));
  as_timeout = to_int (r.get_integer (codes "aerospike") (codes "timeout") (pos 500));
}

-- The five calls of `boost::replace_all`.
unfoldable pub clean_servers : Boost → Bytes → Bytes
clean_servers b s =
    let s1 = b.replace_all s (b'"' ∷ []) [] in
    let s2 = b.replace_all s1 (b'\t' ∷ []) [] in
    let s3 = b.replace_all s2 (b'\n' ∷ []) [] in
    let s4 = b.replace_all s3 (b'\r' ∷ []) [] in b.replace_all s4 (b' ' ∷ []) []

-- `asOP`.
unfoldable pub the_control : Boost → IniReader → Control
unfolding settings clean_servers
the_control b r =
    let s = settings r in
    new_control b (clean_servers b s.as_servers) s.as_port s.as_timeout s.max_thread s.health_file

-- A separator of paths.
abbrev pub is_slash : ℕ → Bool
is_slash c = c == b'\\' || c == b'/'

-- `find_last_of`; `none` is `npos`.
unfoldable pub last_slash : Bytes → Option ℕ
last_slash [] = none
last_slash (c ∷ cs) = elim (last_slash cs) [
  | none ↦ if is_slash c then some 0 else none
  | some i ↦ some (suc i)
]

-- What `main` asks of the system: the target of the link `/proc/.../exe`, of which `readlink` gives 512
-- bytes at most, or fails; whether a file exists; the reader of a file and its `ParseError`; whether the
-- server can be made for a host and a port, or throws; whether the log can be opened; the time of each
-- line of the log; and the version, with the time of the build.
pub record Os : Type 0 where
  pub exe : Option Bytes
  pub exists : Bytes → Bool
  pub reader : Bytes → ℤ × IniReader
  pub listens : Bytes → ℤ → Bool
  pub log_opens : Bool
  pub stamp : ℕ → Bytes
  pub version : Bytes

-- The end of `main`.
pub data Ran : Type 0 where
  -- A byte is written outside of `buf`, or to a log that is not open.
  undefined : Ran
  -- An exception leaves `main`.
  terminated : Ran
  exits : ℕ → Ran
  -- The server runs, and after its stop `main` returns 0.
  serves : Settings → Control → Ran

abbrev pub is_negative : ℤ → Bool
is_negative (pos n) = false
is_negative (negsuc n) = true

-- The end of `main`, and the lines that it has written to the log.
abbrev pub Logged : Type 0
Logged = Ran × List Bytes

-- `WriteLogFile` and what follows it; to write to a log that does not open is undefined.
abbrev pub logging : Os → Bytes → List Bytes → (List Bytes → Logged) → Logged
logging os text log next =
    if os.log_opens
    then next (log ++ log_line (os.stamp (length log)) text ∷ [])
    else (undefined, log)

unfoldable pub blanks : ℕ → Bytes
blanks zero = []
blanks (suc n) = b' ' ∷ blanks n

-- `"%-40s : %s"`.
abbrev pub field_text : Bytes → Bytes → Bytes
field_text name value = name ++ blanks (40 - length name) ++ codes " : " ++ until_nul value

abbrev pub rule_text : Bytes
rule_text = codes "=================================================="

-- The server is made and runs, to its stop; `run` logs the second of the lines. In between nothing else
-- is logged.
unfoldable pub main_serves : Boost → Os → IniReader → List Bytes → Logged
unfolding settings the_control
main_serves b os r log =
    if os.listens (settings r).host (settings r).port
    then logging os (field_text (codes "Starting..........") (codes "OK")) log (λ log1.
      logging os (field_text (codes "Started..........") (codes "OK")) log1 (λ log2.
        logging os (field_text (codes "Stop..........") (codes "OK") ++ b'\n' ∷ []) log2
          (λ log3. (serves (settings r) (the_control b r), log3))))
    else (exits 0, log)

-- Behind the reader.
unfoldable pub main_read : Boost → Os → Bytes → List Bytes → Logged
unfolding main_serves
main_read b os file log =
    let (error, r) = os.reader file in
    if is_negative error
    then logging os (field_text (codes "Can't load") file) log (λ log'. (exits 1, log'))
    else logging os (field_text (codes "load config file") file) log (main_serves b os r)

-- The block of `try`, and the `catch` behind it.
unfoldable pub main_with : Boost → Os → Bytes → Logged
unfolding main_read
main_with b os file = logging os rule_text [] (λ log.
    logging os (field_text (codes "as_proxyd version") os.version) log (main_read b os file))

-- `main`, behind the path of the configuration file.
unfoldable pub main_at : Boost → Os → Bytes → Logged
unfolding main_with
main_at b os file =
    if os.exists file
    then main_with b os file
    else logging os (codes "[ERROR] check config file path " ++ until_nul file) []
        (λ log. (exits 1, log))

-- `main`, behind `ROOT_PATH = buf`.
unfoldable pub main_in : Boost → Os → Bytes → Logged
unfolding last_slash main_at
main_in b os path = elim (last_slash path) [
  | none ↦ (terminated, [])
  | some i ↦ main_at b os (take i path ++ codes "/../" ++ codes "conf/config.ini")
]

-- `main`, from `readlink` on; the text in `buf` ends at its first NUL.
unfoldable pub main_from : Boost → Os → Option Bytes → Logged
unfolding main_in
main_from b os none = (undefined, [])
main_from b os (some path) =
    if ltb (length path) 512 then main_in b os (until_nul path) else (undefined, [])

unfoldable pub main : Boost → Os → Logged
unfolding main_from
main b os = main_from b os os.exe
