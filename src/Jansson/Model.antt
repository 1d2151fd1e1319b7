-- ===== src/Jansson/Model.antt =====
-- JSON values that meet what is assumed of Jansson, for the witnesses.
use as_proxyd.Common.{
  ℕ, suc, Bool, true, false, List, [], ◌∷◌, ◌++◌, Option, none, some, ◌≡◌, refl, arith,
  if◌then◌else◌, Bytes, bytes_eq, bytes_eq_iff, ◌==◌, codes, ℤ, pos, negsuc,
}
use as_proxyd.Boost.Model.{decimal}
use as_proxyd.Jansson.{
  Jansson, opens, JsonType, object, array, string, integer, real, true_value, false_value, null,
}

mutual
  pub data Value : Type 0 where
    obj : Fields → Value
    arr : Bytes → Value
    str : Bytes → Value
    int : ℤ → Value
    dbl : Bytes → Value
    bool : Bool → Value
    nul : Value

  pub data Fields : Type 0 where
    end : Fields
    field : Bytes → Value → Fields → Fields

unfoldable pub type_of : Value → JsonType
type_of (obj fs) = object
type_of (arr t) = array
type_of (str s) = string
type_of (int n) = integer
type_of (dbl t) = real
type_of (bool true) = true_value
type_of (bool false) = false_value
type_of nul = null

unfoldable pub put : Bytes → Value → Fields → Fields
put k v end = field k v end
put k v (field j w fs) = if bytes_eq j k then field j v fs else field j w (put k v fs)

unfoldable pub find : Bytes → Fields → Option Value
find k end = none
find k (field j w fs) = if bytes_eq j k then some w else find k fs

unfoldable pub size : Fields → ℕ
size end = 0
size (field j w fs) = suc (size fs)

unfoldable pub list_of : Fields → List (Bytes × Value)
list_of end = []
list_of (field k v fs) = (k, v) ∷ list_of fs

unfoldable pub print_int : ℤ → Bytes
print_int (pos n) = decimal (suc n) n
print_int (negsuc n) = b'-' ∷ decimal (suc (suc n)) (suc n)

unfoldable pub quoted : Bytes → Bytes
quoted s = b'"' ∷ (s ++ b'"' ∷ [])

-- No character of a text is escaped.
mutual
  unfolding print_int quoted

  pub print : Value → Bytes
  print (obj fs) = b'{' ∷ print_fields fs
  print (arr t) = t
  print (str s) = quoted s
  print (int n) = print_int n
  print (dbl t) = t
  print (bool true) = codes "true"
  print (bool false) = codes "false"
  print nul = codes "null"

  print_fields : Fields → Bytes
  print_fields end = codes "}"
  print_fields (field k v fs) = quoted k ++ (b':' ∷ (print v ++ (b',' ∷ print_fields fs)))

unfoldable pub set_member : Value → Bytes → Option Value → Value
unfolding put
set_member (obj fs) k (some v) = obj (put k v fs)
set_member (obj fs) k none = obj fs
set_member v k o = v

unfoldable pub get_member : Value → Bytes → Option Value
unfolding find
get_member (obj fs) k = find k fs
get_member v k = none

find-put :
    (k j : Bytes) (v : Value) (fs : Fields)
    → find j (put k v fs) ≡ (if bytes_eq k j then some v else find j fs)
unfolding find put
find-put k j v end = refl
find-put k j v (field i w fs) =
    ground (arith, bytes_eq_iff i k, bytes_eq_iff i j, bytes_eq_iff k j, find-put k j v fs)

size-put :
    (k : Bytes) (v : Value) (fs : Fields)
    → size (put k v fs) ≡ elim (find k fs) [ none ↦ suc (size fs) | some u ↦ size fs ]
unfolding find put size
size-put k v end = refl
size-put k v (field i w fs) = ground (arith, size-put k v fs)

pub get_member-set_member :
    (o v : Value) (k j : Bytes)
    → type_of o ≡ object
    → get_member (set_member o k (some v)) j ≡ (if bytes_eq k j then some v else get_member o j)
unfolding get_member set_member type_of
get_member-set_member (obj fs) v k j e = find-put k j v fs
get_member-set_member (bool true) v k j e = cc
get_member-set_member (bool false) v k j e = cc
get_member-set_member _ v k j e = cc

pub type_of-set_member :
    (o : Value) (k : Bytes) (v : Option Value) → type_of (set_member o k v) ≡ type_of o
unfolding type_of set_member
type_of-set_member (obj fs) k none = refl
type_of-set_member (obj fs) k (some v) = refl
type_of-set_member _ k v = refl

pub set_member_null : (o : Value) (k : Bytes) → set_member o k none ≡ o
unfolding set_member
set_member_null (obj fs) k = refl
set_member_null _ k = refl

unfoldable pub size_of : Value → ℕ
unfolding size
size_of (obj fs) = size fs
size_of _ = 0

pub size_of-set_member :
    (o v : Value) (k : Bytes)
    → type_of o ≡ object
    → size_of (set_member o k (some v))
      ≡ elim (get_member o k) [ none ↦ suc (size_of o) | some u ↦ size_of o ]
unfolding size_of get_member set_member type_of
size_of-set_member (obj fs) v k e = size-put k v fs
size_of-set_member (bool true) v k e = cc
size_of-set_member (bool false) v k e = cc
size_of-set_member _ v k e = cc

unfoldable pub members_of : Value → List (Bytes × Value)
unfolding list_of
members_of (obj fs) = list_of fs
members_of _ = []

unfoldable pub int_of : Value → ℤ
int_of (int n) = n
int_of _ = pos 0

unfoldable pub text_of : Value → Bytes
text_of (str s) = s
text_of _ = []

unfoldable pub real_of : Value → Bytes
real_of (dbl t) = t
real_of _ = []

-- Arrays are read, as their text.
unfoldable pub loads : Bytes → Option Value
loads [] = none
loads (c ∷ cs) = if c == b'[' then some (arr (c ∷ cs)) else none

pub type_of-obj : (fs : Fields) → type_of (obj fs) ≡ object
unfolding type_of
type_of-obj fs = refl

pub get_member-end : (k : Bytes) → get_member (obj end) k ≡ none
unfolding get_member find
get_member-end k = refl

pub size_of-end : size_of (obj end) ≡ 0
unfolding size_of size
size_of-end = refl

pub opens-loads : (t : Bytes) (v : Value) → loads t ≡ some v → opens t ≡ true
unfolding loads
opens-loads [] v e = cc
opens-loads (c ∷ cs) v e = ground arith

abbrev pub jansson : Jansson
jansson = record {
  Json = Value;
  Real = Bytes;
  json_typeof = type_of;
  json_object = obj end;
  json_object_set = set_member;
  json_object_get = get_member;
  json_object_size = size_of;
  members = members_of;
  json_integer = int;
  json_integer_value = int_of;
  json_string = λ s. some (str s);
  json_string_value = text_of;
  json_real = λ t. some (dbl t);
  json_real_value = real_of;
  json_boolean = bool;
  json_dumps = λ f v. some (print v);
  json_loads = loads;
  typeof-json_object = type_of-obj end;
  typeof-set = type_of-set_member;
  get-json_object = get_member-end;
  get-set = get_member-set_member;
  set_null = set_member_null;
  size-json_object = size_of-end;
  size-set = size_of-set_member;
  loads-opens = opens-loads;
  is_utf8 = λ s. true;
  IsPrintable = λ v. Unit;
  is_utf8-ascii = λ s h. refl;
  json_object-IsPrintable = tt;
  set-IsPrintable = λ o v k p q h. tt;
  json_integer-IsPrintable = λ n. tt;
  json_boolean-IsPrintable = λ b. tt;
  json_string-IsPrintable = λ s v e. tt;
  json_real-IsPrintable = λ x v e. tt;
  json_loads-IsPrintable = λ t v e. tt;
  dumps-IsPrintable = λ v p. (_, refl);
}
