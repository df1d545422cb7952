-- ===== src/Server/Request.antt =====
-- Requests and answers of src/rosplus/server.py, with the parts of `http.server`, `urllib` and `json`
-- already done: the path is decoded of its query, and the body is what `json.loads` made of it.
use rosplus.Base.{
  ℕ, zero, suc, String, Bool, true, false, Option, none, some, List, [], ◌∷◌, map, ◌==◌,
  if◌then◌else◌,
}
use rosplus.Base.Text.{contains}
use rosplus.Exec.{Result, ok, raise}
use rosplus.Exec.Errors.{
  Exception, workspace_error, permission_error, value_error, other_error, message,
}
use rosplus.Json.{Json, null, bool, num, str, arr, obj, Fields, end, field, nil, cons, get}
use rosplus.Paths.{split}

pub record Request : Type 0 where
  pub method : String
  pub path : String
  -- `parse_qs(query).get("path", ["."])[0]`
  pub query_path : String
  pub authorization : Option String
  pub body : Result Json

pub data Response : Type 0 where
  json : ℕ → Json → Response
  text : ℕ → String → Response
  -- an exception that `dispatch` does not catch: the connection ends without an answer
  dropped : Exception → Response

drop_empty : List String → List String
drop_empty [] = []
drop_empty (p ∷ ps) = elim (p == "") [ true ↦ drop_empty ps | false ↦ p ∷ ps ]

-- The list without the empty texts at its end.
trim_end : List String → List String
trim_end [] = []
trim_end (p ∷ ps) = elim (trim_end ps) [ [] ↦ if p == "" then [] else p ∷ [] | q ∷ qs ↦ p ∷ q ∷ qs ]

abbrev or_one : List String → List String
or_one [] = "" ∷ []
or_one (p ∷ ps) = p ∷ ps

-- `[unquote(x) for x in path.strip("/").split("/")]`
unfoldable pub path_parts : (String → String) → String → List String
unfolding split drop_empty trim_end
path_parts unquote path = map unquote (or_one (trim_end (drop_empty (split b'/' path))))

-- `self.body()` as a JSON object; `.get` of anything else is an `AttributeError`
unfoldable pub body_fields : Request → Result Fields
body_fields r = elim r.body [
  | raise e ↦ raise e
  | ok j ↦ elim j [ obj fs ↦ ok fs | _ ↦ raise (other_error "AttributeError") ]
]

-- `body.get(key, default)` where the value has to be a text
unfoldable pub text_field : String → String → Fields → Result String
unfolding get
text_field key default fs = elim (get key fs) [
  | none ↦ ok default
  | some j ↦ elim j [ str s ↦ ok s | _ ↦ raise (other_error "TypeError") ]
]

-- What `node_name` is to `stop`, with a default of "": a value that is false in Python counts as no
-- name, no process has a name that is no text, and an array or an object is no key of a dict.
pub data NodeName : Type 0 where
  named : String → NodeName
  no_process unhashable : NodeName

unfoldable pub name_of : Json → NodeName
name_of null = named ""
name_of (bool b) = if b then no_process else named ""
name_of (num zero) = named ""
name_of (num (suc n)) = no_process
name_of (str s) = named s
name_of (arr nil) = named ""
name_of (arr (cons j js)) = unhashable
name_of (obj end) = named ""
name_of (obj (field k j fs)) = unhashable

unfoldable pub node_name_of : Fields → NodeName
unfolding get name_of
node_name_of fs = elim (get "node_name" fs) [ none ↦ named "" | some j ↦ name_of j ]

abbrev text_or : (Json → String) → Json → String
text_or text_of (str s) = s
text_or text_of j = text_of j

-- `body.get("mode", "auto")`: a value that is no text is neither "auto" nor "native", and stands as
-- `str` makes of it.
unfoldable pub mode_field : (Json → String) → Fields → String
unfolding get
mode_field text_of fs = elim (get "mode" fs) [ none ↦ "auto" | some j ↦ text_or text_of j ]

abbrev pub is_hashable : Json → Bool
is_hashable (arr js) = false
is_hashable (obj fs) = false
is_hashable _ = true

abbrev pub error_body : String → ℕ → Json
error_body detail code = obj (field "error" (str detail) (field "code" (num code) end))

-- The `except` clauses of `dispatch`.
unfoldable pub answer_error : Exception → Response
unfolding message contains
answer_error (workspace_error e) =
    json (if contains "not found" (message e) then 404 else 400) (error_body (message e) 400)
answer_error (permission_error detail) = json 401 (error_body detail 401)
answer_error (value_error detail) = json 400 (error_body detail 400)
answer_error (other_error detail) = dropped (other_error detail)
