-- ===== src/Routing/Pins.antt =====
-- turbobond/bond/routing.py: the rule that pins traffic to a link outlives the teardown.
use turbobond.Base.{◌≡◌, Bool, false, ◌&&◌, List, [], ◌∷◌, All}
use turbobond.Base.Text.{text_eq, decimal}
use Prim.Native.String.{String}
use turbobond.Routing.{prio_sip_pin}

abbrev last_word : String → List String → String
last_word w [] = w
last_word w (v ∷ vs) = last_word v vs

-- Whether a command deletes a rule of the priority, which such a command names last.
abbrev pub deletes_rule : String → List String → Bool
deletes_rule priority [] = false
deletes_rule priority (program ∷ []) = false
deletes_rule priority (program ∷ object ∷ []) = false
deletes_rule priority (program ∷ object ∷ action ∷ words) =
    text_eq object "rule" && (text_eq action "del" && text_eq (last_word "" words) priority)

-- No command deletes a rule of priority 900.
abbrev pub Spares : List (List String) → Type 0
Spares commands = All (λ c. deletes_rule (decimal prio_sip_pin) c ≡ false) commands
