-- ===== src/Eval/Holds.antt =====
-- The hits that an event must give, with no scratch: one for each rule that holds, in table order.
use libsigma.Base.{
  ◌||◌, Option, none, some, List, [], ◌∷◌, length, get_elem?, leb, ◌==◌, if◌then◌else◌,
}
use libsigma.Text.{Bytes}
use libsigma.Db.{no_value, Str, Rule, Db}
use libsigma.Match.{Host, FieldFn}
use libsigma.Match.Holds.{text_of}
use libsigma.Rules.Holds.{rule_holds}
use libsigma.Eval.{Hit, hit_of}

abbrev pub opt_text : Db → Option Str → Option Bytes
opt_text db none = none
opt_text db (some s) = some (text_of db s)

-- The technique of a rule, where it names an entry of `values`.
unfoldable pub technique : Db → Rule → Option Bytes
technique db r =
    if r.mitre_id == no_value || leb (length db.values) r.mitre_id
    then none
    else opt_text db (get_elem? db.values r.mitre_id)

unfoldable pub expected_hit : Db → Rule → Hit
expected_hit db r = hit_of r (technique db r)

-- The rules of a list that hold at the event.
unfoldable pub matching : Host → Db → FieldFn → List Rule → List Rule
matching host db fn [] = []
matching host db fn (r ∷ rs) =
    if rule_holds host db fn r then r ∷ matching host db fn rs else matching host db fn rs
