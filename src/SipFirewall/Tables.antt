-- ===== src/SipFirewall/Tables.antt =====
-- turbobond/sip/firewall.py: the rules outside the chain of its own.
use turbobond.Base.{Bool, Option, none, some, List, [], ◌∷◌, ◌++◌, if◌then◌else◌}
use turbobond.Base.Text.{text_eq}
use Prim.Native.String.{String}

-- A table, what is done to it, and the chain it is done to.
abbrev pub Mark : Type 0
Mark = String × String × String

-- What the commands that name a table do.
unfoldable pub mark : List String → Option Mark
mark (program ∷ word ∷ table ∷ action ∷ chain ∷ words) =
    if text_eq word "-t" then some (table, action, chain) else none
mark _ = none

unfoldable pub add : Option Mark → List Mark → List Mark
add none ms = ms
add (some m) ms = m ∷ ms

unfoldable pub on_tables : List (List String) → List Mark
on_tables [] = []
on_tables (c ∷ cs) = add (mark c) (on_tables cs)

-- A list of commands in order, upon a log that has the latest first.
unfoldable pub onto : {A : Type 0} → List A → List A → List A
onto [] log = log
onto (x ∷ xs) log = onto xs (x ∷ log)

-- A rule at the top of both built-in chains of the table raw.
abbrev raw_pair : List Mark
raw_pair = ("raw", "-I", "PREROUTING") ∷ ("raw", "-I", "OUTPUT") ∷ []

-- What an application does to the tables that the command names: three times a rule at the top of both
-- chains of raw, for the exemption from connection tracking, and two rules at the end of a chain of
-- mangle.
unfoldable pub expected : Bool → List Mark
expected exempt =
    let mangle = ("mangle", "-A", "OUTPUT") ∷ ("mangle", "-A", "OUTPUT") ∷ [] in
    if exempt then raw_pair ++ (raw_pair ++ (raw_pair ++ mangle)) else mangle
