-- ===== src/Util/Dates.antt =====
-- The dates of src/util.cpp, and `getTimeString` of include/as_control.hpp. The clock and the functions of
-- the C library on times are parameters.
use as_proxyd.Common.{
  ℕ, zero, suc, ◌+◌, ◌-◌, ◌*◌, ◌/◌, ◌%◌, ◌<◌, ◌≤◌, [], ◌∷◌, ◌++◌, Option, none, some, ◌≡◌, refl,
  ◌∙◌, sym, ap, arith, if◌then◌else◌, ltb, leb, Bytes, codes, length, length-append, append-nil, ℤ,
  pos, negsuc, to_u32, until_nul, is_dec,
}
use as_proxyd.Parser.{digits_value}

-- `struct tm`, and what is done with it. Times are taken to be after 1900. `strptime` may fail.
pub record Times : Type 1 where
  pub Tm : Type 0
  pub tm_year : Tm → ℕ
  pub tm_mon : Tm → ℕ
  pub tm_mday : Tm → ℕ
  pub localtime : ℤ → Tm
  pub mktime : Tm → ℤ
  pub timegm : Tm → ℤ
  pub strftime : Bytes → Tm → Bytes
  pub strptime : Bytes → Bytes → Option Tm

-- The decimal digits of a number, from the last: so many of them,
unfoldable pub last_digits : ℕ → ℕ → Bytes
last_digits zero n = []
last_digits (suc w) n = last_digits w (n / 10) ++ (48 + n % 10) ∷ []

-- and how many there are; the fuel is the number.
unfoldable pub digit_count : ℕ → ℕ → ℕ
digit_count zero n = 1
digit_count (suc f) n = let more = digit_count f (n / 10) in if ltb n 10 then 1 else suc more

-- `"%0wd"`.
unfoldable pub padded : ℕ → ℕ → Bytes
unfolding last_digits digit_count
padded w n = last_digits (if leb (digit_count n n) w then w else digit_count n n) n

-- A time, one day before.
unfoldable pub day_before : ℤ → ℤ
day_before (pos n) = if leb 86400 n then pos (n - 86400) else negsuc (86399 - n)
day_before (negsuc n) = negsuc (n + 86400)

-- What a function of the C library writes into so many bytes, with a NUL at the end. `sprintf` writes
-- behind them otherwise, and `strftime` leaves them undefined.
abbrev pub fits : ℕ → Bytes → Option Bytes
fits n text = if ltb (length text) n then some text else none

-- `"%04d%02d%02d"`.
unfoldable pub date_text : ℕ → ℕ → ℕ → Bytes
unfolding padded
date_text year mon mday = padded 4 year ++ (padded 2 mon ++ padded 2 mday)

module _ (T : Times) where
  open T use {Tm, tm_year, tm_mon, tm_mday, localtime, mktime, timegm, strftime, strptime}

  -- `nowtimeint`.
  unfoldable pub now_time_int : ℤ → ℕ
  now_time_int now = to_u32 (mktime (localtime now))

  -- `yesterdayYYMMDD`.
  unfoldable pub yesterday_yymmdd : ℤ → Option Bytes
  unfolding date_text day_before
  yesterday_yymmdd now =
      let t = localtime (day_before now) in
      fits 11 (date_text (tm_year t + 1900) (tm_mon t + 1) (tm_mday t))

  abbrev pub timegm_of : Option Tm → Option ℕ
  timegm_of none = none
  timegm_of (some t) = some (to_u32 (timegm t))

  -- `string2timeint`. What `strptime` does not read stays undefined.
  unfoldable pub string2timeint : Bytes → Option ℕ
  string2timeint s = timegm_of (strptime (until_nul s) (codes "%Y-%m-%d %H:%M:%S"))

  -- `nowDateString`.
  unfoldable pub now_date_string : ℤ → Option Bytes
  now_date_string now = fits 11 (strftime (codes "%Y-%m-%d") (localtime now))

  -- `getTimeString`.
  unfoldable pub get_time_string : ℤ → Option Bytes
  get_time_string stime = fits 28 (strftime (codes "%Y-%m-%d %H:%M:%S") (localtime stime))

length-last_digits : (w n : ℕ) → length (last_digits w n) ≡ w
unfolding last_digits
length-last_digits zero n = refl
length-last_digits (suc w) n = omega (
  arith,
  length-append (last_digits w (n / 10)) ((48 + n % 10) ∷ []),
  length-last_digits w (n / 10),
)

digit_count_le_2 : (f n : ℕ) → n < 100 → digit_count f n ≤ 2
unfolding digit_count
digit_count_le_2 zero n h = omega arith
digit_count_le_2 (suc zero) n h = ground arith
digit_count_le_2 (suc (suc f)) n h = ground arith

digit_count_le_4 : (f n : ℕ) → n < 10000 → digit_count f n ≤ 4
unfolding digit_count
digit_count_le_4 zero n h = omega arith
digit_count_le_4 (suc zero) n h = ground arith
digit_count_le_4 (suc (suc f)) n h = ground (arith, digit_count_le_2 f (n / 10 / 10))

read_digit :
    (acc d : ℕ) (rest : Bytes)
    → d < 10
    → digits_value acc ((48 + d) ∷ rest) ≡ digits_value (acc * 10 + d) rest
unfolding digits_value is_dec
read_digit acc d rest h = ground arith

read_2 :
    (acc n : ℕ) (rest : Bytes)
    → n < 100
    → digits_value acc (padded 2 n ++ rest) ≡ digits_value (acc * 100 + n) rest
unfolding padded last_digits
read_2 acc n rest h = ground (
  arith,
  digit_count_le_2 n n,
  read_digit acc (n / 10 % 10) ((48 + n % 10) ∷ rest),
  read_digit (acc * 10 + n / 10 % 10) (n % 10) rest,
)

read_4 :
    (acc n : ℕ) (rest : Bytes)
    → n < 10000
    → digits_value acc (padded 4 n ++ rest) ≡ digits_value (acc * 10000 + n) rest
unfolding padded last_digits
read_4 acc n rest h =
    let a = n / 10 / 10 / 10 % 10 in
    let b = n / 10 / 10 % 10 in
    let c = n / 10 % 10 in
    let d = n % 10 in
    ground (
      arith,
      digit_count_le_4 n n,
      read_digit acc a ((48 + b) ∷ (48 + c) ∷ (48 + d) ∷ rest),
      read_digit (acc * 10 + a) b ((48 + c) ∷ (48 + d) ∷ rest),
      read_digit ((acc * 10 + a) * 10 + b) c ((48 + d) ∷ rest),
      read_digit (((acc * 10 + a) * 10 + b) * 10 + c) d rest,
    )

length-padded_2 : (n : ℕ) → n < 100 → length (padded 2 n) ≡ 2
unfolding padded
length-padded_2 n h = ground (arith, digit_count_le_2 n n, length-last_digits 2 n)

length-padded_4 : (n : ℕ) → n < 10000 → length (padded 4 n) ≡ 4
unfolding padded
length-padded_4 n h = ground (arith, digit_count_le_4 n n, length-last_digits 4 n)

length-date_text : (y m d : ℕ) → y < 10000 → m < 100 → d < 100 → length (date_text y m d) ≡ 8
unfolding date_text
length-date_text y m d hy hm hd = omega (
  arith,
  length-append (padded 4 y) (padded 2 m ++ padded 2 d),
  length-append (padded 2 m) (padded 2 d),
  length-padded_4 y hy,
  length-padded_2 m hm,
  length-padded_2 d hd,
)

read_date :
    (y m d : ℕ)
    → y < 10000
    → m < 100
    → d < 100
    → digits_value 0 (date_text y m d) ≡ y * 10000 + m * 100 + d
unfolding date_text
read_date y m d hy hm hd =
    read_4 0 y (padded 2 m ++ padded 2 d) hy
    ∙ read_2 (0 * 10000 + y) m (padded 2 d) hm
    ∙ ap (digits_value ((0 * 10000 + y) * 100 + m)) (sym (append-nil (padded 2 d)))
    ∙ read_2 ((0 * 10000 + y) * 100 + m) d [] hd
    ∙ unfold digits_value in omega arith

module _ (T : Times) where
  open T use {tm_year, tm_mon, tm_mday, localtime}

  -- Before the year 10000 the date of yesterday has eight characters, which `yestDt` has room for, and as
  -- a number it is the year, the month and the day, each with its digits.
  pub yesterday_yymmdd_lem :
      (now : ℤ)
      → tm_year (localtime (day_before now)) + 1900 < 10000
      → tm_mon (localtime (day_before now)) < 12
      → tm_mday (localtime (day_before now)) < 32
      → (text : Bytes) × (yesterday_yymmdd T now ≡ some text)
        × (length text ≡ 8)
        × (digits_value 0 text
            ≡ (tm_year (localtime (day_before now)) + 1900) * 10000
              + (tm_mon (localtime (day_before now)) + 1) * 100
              + tm_mday (localtime (day_before now)))
  unfolding yesterday_yymmdd
  yesterday_yymmdd_lem now hy hm hd =
      let t = localtime (day_before now) in
      let y = tm_year t + 1900 in
      let m = tm_mon t + 1 in
      let e = length-date_text y m (tm_mday t) hy (omega arith) (omega arith) in
      (
        date_text y m (tm_mday t),
        ground arith,
        e,
        read_date y m (tm_mday t) hy (omega arith) (omega arith),
      )
