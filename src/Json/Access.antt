-- ===== src/Json/Access.antt =====
-- What Python reads of a decoded value of any type, and what it raises on the others.
use rosplus.Base.{String, Bool, true, false, none, some, List, [], ◌∷◌, ltb, if◌then◌else◌}
use rosplus.Base.Text.{contains}
use rosplus.Exec.{Result, ok, raise}
use rosplus.Exec.Errors.{Exception, other_error}
use rosplus.Json.{Json, bool, num, str, arr, obj, Items, nil, cons, Fields, end, field, get}
use rosplus.Json.Equal.{equal}

abbrev key_error : Exception
key_error = other_error "KeyError"

abbrev pub type_error : Exception
type_error = other_error "TypeError"

abbrev pub attribute_error : Exception
attribute_error = other_error "AttributeError"

-- `j[key]`
unfoldable pub item : String → Json → Result Json
unfolding get
item key (obj fs) = elim (get key fs) [ some j ↦ ok j | none ↦ raise key_error ]
item key _ = raise type_error

-- `j.get(key, default)`
unfoldable pub get_or : String → Json → Json → Result Json
unfolding get
get_or key default (obj fs) = elim (get key fs) [ some j ↦ ok j | none ↦ ok default ]
get_or key default _ = raise attribute_error

abbrev listed : Items → List Json
listed nil = []
listed (cons j js) = j ∷ listed js

abbrev key_list : Fields → List Json
key_list end = []
key_list (field k v fs) = str k ∷ key_list fs

abbrev letters : String → List Json
letters String.[] = []
letters (String.◌∷◌ c s) = str (String.◌∷◌ c String.[]) ∷ letters s

-- `for x in j`
unfoldable pub elements : Json → Result (List Json)
elements (arr js) = ok (listed js)
elements (obj fs) = ok (key_list fs)
elements (str s) = ok (letters s)
elements _ = raise type_error

-- `j > 0`
unfoldable pub is_positive : Json → Result Bool
is_positive (num n) = ok (ltb 0 n)
is_positive (bool b) = ok b
is_positive _ = raise type_error

abbrev is_member : Json → Items → Bool
is_member j nil = false
is_member j (cons k js) = let rest = is_member j js in if equal j k then true else rest

-- `text in j`
unfoldable pub has_text : String → Json → Result Bool
unfolding contains get equal
has_text text (str s) = ok (contains text s)
has_text text (arr js) = ok (is_member (str text) js)
has_text text (obj fs) = elim (get text fs) [ some j ↦ ok true | none ↦ ok false ]
has_text text _ = raise type_error

-- `any(test(x) for x in js)`
unfoldable pub any_of : (Json → Result Bool) → List Json → Result Bool
any_of test [] = ok false
any_of test (j ∷ js) =
    let rest = any_of test js in
    elim (test j) [ raise e ↦ raise e | ok b ↦ if b then ok true else rest ]
