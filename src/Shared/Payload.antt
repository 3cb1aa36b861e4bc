-- ===== src/Shared/Payload.antt =====
-- The values of Python that stand in a payload (`Any`, `Mapping[str, Any]`), as JSON brings them,
-- and the tests that the code makes on them.
use mathlib.Core.Logic.{◌↔◌}
use mathlib.Core.Path.{◌≡◌, refl, ap, ◌∙◌}
use native.Mathlib.Omega.{arith}
use text.Mathlib.TextEquality.{eq_iff}
use Prim.Native.Nat.{ℕ}
use Prim.Native.String.{String}
use mathlib.Core.Bool.{Bool, true, false, not, ◌&&◌}
use mathlib.Core.Option.{Option, none, some}
use mathlib.Core.List.{List, [], ◌∷◌}
use text.Mathlib.Text.{◌==◌ as str_eq}
use discord_context_bridge.Shared.Tests.{if◌then◌else◌, ◌==◌}
use discord_context_bridge.Shared.Text.{is_empty}

-- `negsuc n` is -(n + 1).
pub data ℤ : Type 0 where
  pos : ℕ → ℤ
  negsuc : ℕ → ℤ

-- A float, as `int`, `bool` and `==` against an integer see it: `truncated` is `int(x)`, which
-- raises for a NaN or an infinity; `is_integer` tells whether `x` equals it.
pub record Float : Type 0 where
  pub truncated : Option ℤ
  pub is_zero : Bool
  pub is_integer : Bool

mutual
  pub data Value : Type 0 where
    str : String → Value
    bool : Bool → Value
    null : Value
    int : ℤ → Value
    float : Float → Value
    obj : Fields → Value
    arr : Items → Value

  -- A mapping: its keys with their values, in insertion order.
  pub data Fields : Type 0 where
    end : Fields
    field : (key : String) (value : Value) (rest : Fields) → Fields

  -- A sequence.
  pub data Items : Type 0 where
    nil : Items
    cons : (item : Value) (rest : Items) → Items

-- What is asked of `hashlib` and of the texts that Python gives to values: the hash of a text, by
-- its code points, and `str(value)` of a value that is no text.
pub record Runtime : Type 0 where
  pub sha256 : List ℕ → String
  pub repr : Value → String

abbrev pub find : String → Fields → Option Value
find k end = none
find k (field j v fs) = if str_eq k j then some v else find k fs

abbrev pub or_null : Option Value → Value
or_null none = null
or_null (some v) = v

-- `payload.get(k)`
abbrev pub get : String → Fields → Value
get k fs = or_null (find k fs)

-- `d[k] = v`
abbrev pub put : String → Value → Fields → Fields
put k v end = field k v end
put k v (field j w fs) = if str_eq k j then field j v fs else field j w (put k v fs)

abbrev pub items : Items → List Value
items nil = []
items (cons v vs) = v ∷ items vs

abbrev pub int_is_zero : ℤ → Bool
int_is_zero (pos n) = n == 0
int_is_zero (negsuc n) = false

-- `bool(value)`
abbrev pub truthy : Value → Bool
truthy null = false
truthy (bool b) = b
truthy (int n) = not (int_is_zero n)
truthy (float x) = not x.is_zero
truthy (str s) = not (is_empty s)
truthy (arr nil) = false
truthy (arr (cons v vs)) = true
truthy (obj end) = false
truthy (obj (field k v fs)) = true

-- `str(value)`
abbrev pub to_str : Runtime → Value → String
to_str rt (str s) = s
to_str rt null = "None"
to_str rt (bool true) = "True"
to_str rt (bool false) = "False"
to_str rt v = rt.repr v

-- `str(value or "")`
abbrev pub str_or_empty : Runtime → Value → String
str_or_empty rt v = if truthy v then to_str rt v else ""

-- `value == text`
abbrev pub is_text : String → Value → Bool
is_text s (str t) = str_eq s t
is_text s _ = false

-- `value is True`, `value is False`, `value is None`
abbrev pub is_true : Value → Bool
is_true (bool b) = b
is_true _ = false

abbrev pub is_false : Value → Bool
is_false (bool b) = not b
is_false _ = false

abbrev pub is_null : Value → Bool
is_null null = true
is_null _ = false

abbrev pub int_eq : ℤ → ℕ → Bool
int_eq (pos m) n = m == n
int_eq (negsuc m) n = false

-- `value == n`; True is 1 and False is 0, and a float may equal an integer.
abbrev pub eq_nat : Value → ℕ → Bool
eq_nat (int m) n = int_eq m n
eq_nat (bool true) n = n == 1
eq_nat (bool false) n = n == 0
eq_nat (float x) n = x.is_integer && (elim x.truncated [ none ↦ false | some m ↦ int_eq m n ])
eq_nat _ n = false

-- `value == flag`
abbrev pub eq_bool : Value → Bool → Bool
eq_bool v true = eq_nat v 1
eq_bool v false = eq_nat v 0

-- `payload.get(k)` of a value that may be no mapping
abbrev pub as_fields : Value → Option Fields
as_fields (obj fs) = some fs
as_fields _ = none

-- `d.update(other)`
abbrev pub update : Fields → Fields → Fields
update fs end = fs
update fs (field k v rest) = update (put k v fs) rest

-- What `update` leaves at a key: the last value that the other mapping gives it.
abbrev pub find_last : String → Fields → Option Value → Option Value
find_last j end before = before
find_last j (field k v rest) before = find_last j rest (if str_eq j k then some v else before)

pub find-put :
    (j k : String) (v : Value) (fs : Fields)
    → find j (put k v fs) ≡ (if str_eq j k then some v else find j fs)
find-put j k v end = refl
find-put j k v (field i w fs) =
    ground (arith, eq_iff k i, eq_iff j i, eq_iff j k, find-put j k v fs)

pub find-update :
    (j : String) (fs other : Fields) → find j (update fs other) ≡ find_last j other (find j fs)
find-update j fs end = refl
find-update j fs (field k v rest) =
    find-update j (put k v fs) rest ∙ ap (find_last j rest) (find-put j k v fs)

-- The items of a sequence that is no text.
abbrev pub as_sequence : Value → Option (List Value)
as_sequence (arr vs) = some (items vs)
as_sequence _ = none

pub is_text_iff : (s : String) (v : Value) → (is_text s v ≡ true) ↔ (v ≡ str s)
is_text_iff s (str t) = (λ h. ground (arith, eq_iff s t), λ h. ground (arith, eq_iff s t))
is_text_iff s (bool b) = (λ h. cc, λ h. cc)
is_text_iff s null = (λ h. cc, λ h. cc)
is_text_iff s (int n) = (λ h. cc, λ h. cc)
is_text_iff s (float x) = (λ h. cc, λ h. cc)
is_text_iff s (obj fs) = (λ h. cc, λ h. cc)
is_text_iff s (arr vs) = (λ h. cc, λ h. cc)

pub is_true_iff : (v : Value) → (is_true v ≡ true) ↔ (v ≡ bool true)
is_true_iff (bool true) = (λ h. refl, λ h. refl)
is_true_iff (bool false) = (λ h. cc, λ h. cc)
is_true_iff (str s) = (λ h. cc, λ h. cc)
is_true_iff null = (λ h. cc, λ h. cc)
is_true_iff (int n) = (λ h. cc, λ h. cc)
is_true_iff (float x) = (λ h. cc, λ h. cc)
is_true_iff (obj fs) = (λ h. cc, λ h. cc)
is_true_iff (arr vs) = (λ h. cc, λ h. cc)

pub is_false_iff : (v : Value) → (is_false v ≡ true) ↔ (v ≡ bool false)
is_false_iff (bool true) = (λ h. cc, λ h. cc)
is_false_iff (bool false) = (λ h. refl, λ h. refl)
is_false_iff (str s) = (λ h. cc, λ h. cc)
is_false_iff null = (λ h. cc, λ h. cc)
is_false_iff (int n) = (λ h. cc, λ h. cc)
is_false_iff (float x) = (λ h. cc, λ h. cc)
is_false_iff (obj fs) = (λ h. cc, λ h. cc)
is_false_iff (arr vs) = (λ h. cc, λ h. cc)
