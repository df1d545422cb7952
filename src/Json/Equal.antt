-- ===== src/Json/Equal.antt =====
-- Python's `==` on decoded values: the order of a dict's keys is of no account, and a Boolean is
-- the number 0 or 1.
use rosplus.Base.{ℕ, suc, String, Bool, true, false, ◌&&◌, none, some, nat_beq, ◌==◌}
use rosplus.Json.{Json, null, bool, num, str, arr, obj, Items, nil, cons, Fields, end, field, get}

abbrev number : Bool → ℕ
number true = 1
number false = 0

abbrev is_number : ℕ → Json → Bool
is_number n (num m) = nat_beq n m
is_number n (bool b) = nat_beq n (number b)
is_number n _ = false

abbrev is_null : Json → Bool
is_null null = true
is_null _ = false

abbrev is_text : String → Json → Bool
is_text s (str t) = s == t
is_text s _ = false

abbrev size : Fields → ℕ
size end = 0
size (field k v fs) = suc (size fs)

unfoldable mutual
  unfolding get

  pub equal : Json → Json → Bool
  equal null j = is_null j
  equal (bool b) j = is_number (number b) j
  equal (num n) j = is_number n j
  equal (str s) j = is_text s j
  equal (arr js) j = elim j [ arr ks ↦ equal_items js ks | _ ↦ false ]
  equal (obj fs) j = elim j [ obj gs ↦ nat_beq (size fs) (size gs) && included fs gs | _ ↦ false ]

  pub equal_items : Items → Items → Bool
  equal_items nil nil = true
  equal_items (cons j js) (cons k ks) = equal j k && equal_items js ks
  equal_items _ _ = false

  -- Each key of the first has an equal value in the second.
  pub included : Fields → Fields → Bool
  included end gs = true
  included (field k v fs) gs =
      (elim (get k gs) [ some w ↦ equal v w | none ↦ false ]) && included fs gs
