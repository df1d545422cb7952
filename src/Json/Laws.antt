-- ===== src/Json/Laws.antt =====
-- Reading a dict after an item was set.
use rosplus.Base.{
  String, ◌≡◌, refl, ap, ◌∙◌, false, some, arith, ◌==◌, eq_iff, Bool-cases, inl, inr,
}
use rosplus.Json.{Json, Fields, end, field, get, put}

pub get-put : (key : String) (value : Json) (fs : Fields) → get key (put key value fs) ≡ some value
unfolding get put
get-put key value end = ground (arith, eq_iff key key)
get-put key value (field k v fs) = ground (arith, get-put key value fs, eq_iff k key)

pub get-put-other :
    (key other : String) (value : Json) (fs : Fields)
    → other == key ≡ false
    → get key (put other value fs) ≡ get key fs
unfolding get put
get-put-other key other value end apart = ground arith
get-put-other key other value (field k v fs) apart =
    let rest = get-put-other key other value fs apart in
    elim (Bool-cases (k == other)) [
      | inr differs ↦ rw (get, differs, rest) refl
      | inl same ↦
          let is : k ≡ other = (eq_iff k other).0 same in
          let apart' : k == key ≡ false = ap (λ x. x == key) is ∙ apart in rw (same, apart') refl
    ]
