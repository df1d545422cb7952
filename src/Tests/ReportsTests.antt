-- ===== src/Tests/ReportsTests.antt =====
-- The comparisons over files that all say the same, and a publisher of two messages.
use rosplus.Base.{◌≡◌, ◌↔◌, refl, String, Option, none, some, List, [], ◌∷◌, ◌==◌, if◌then◌else◌}
use rosplus.Base.Int.{ℤ, pos, negsuc}
use rosplus.Exec.{ok}
use rosplus.Json.{Json, num, str, obj, end, field}
use rosplus.Scripts.Reports.{Shelf, texts}
use rosplus.Scripts.Reports.Validation
use rosplus.Scripts.Reports.Validation.{validation}
use rosplus.Scripts.Reports.Validation.Laws as Validated
use rosplus.Scripts.Reports.Compatibility
use rosplus.Scripts.Reports.Compatibility.{compatibility}
use rosplus.Scripts.Reports.Compatibility.Laws as Compatible

abbrev int : String → Option ℤ
int s =
    if s == "-1"
    then some (negsuc 0)
    else if s == "0"
    then some (pos 0)
    else if s == "1"
    then some (pos 1)
    else if s == "2"
    then some (pos 2)
    else if s == "3"
    then some (pos 3)
    else none

abbrev messages : List String
messages = "validated:-1" ∷ "validated:0" ∷ "validated:1" ∷ "validated:2" ∷ "validated:3" ∷ []

abbrev observation : Json
observation = obj (
    field "behavior" (obj (field "messages" (texts messages) (field "feedback_count" (num 2) end)))
      (field "warnings" (texts ("C++ source requires manual work" ∷ []))
        (field "status" (str "partial") end)))

abbrev shelf : Shelf
shelf = record {
  State = Unit {0};
  load = λ path s. ok observation;
  digest = λ path s. ok "0";
  save = λ path j s. (ok tt, s);
}

abbrev validated : Validation.Paths
validated = record {
  results = "r" ∷ [];
  source = "s" ∷ [];
  generated = "g" ∷ [];
  output = "out.json" ∷ [];
}

validation_zero_example :
    ((validation int shelf validated tt).0 ≡ ok 0)
    ↔ Validated.AllAgree int shelf validated tt Validation.names
validation_zero_example = Validated.validation_zero int shelf validated tt (λ path j s. refl)

abbrev compared : Compatibility.Paths
compared = record {
  results = "r" ∷ [];
  migration_result = "migration.json" ∷ [];
  output = "out.json" ∷ [];
}

compatibility_zero_example : ((compatibility shelf compared tt).0 ≡ ok 0) ↔ (
    Compatible.AllAgree shelf compared tt Compatibility.names
    × Compatible.Classified shelf compared tt)
compatibility_zero_example = Compatible.compatibility_zero shelf compared tt (λ path j s. refl)
