-- ===== src/TokenFile/Describe.antt =====
-- src/token_file.rs: the line for the log that says what changed.
use st0x_oracle_server.Base.{◌<>◌, String, Bool, List, ◌∷◌, ◌++◌, [], true}
use st0x_oracle_server.TokenFile.{Change, Projection, change}
use mathlib.Core.Bool.{false}

-- `[String]::join`.
unfoldable pub join : String → List String → String
join sep [] = ""
join sep (s ∷ []) = s
join sep (s ∷ t ∷ ss) = s <> (sep <> join sep (t ∷ ss))

abbrev listed : String → List String → List String
listed what [] = []
listed what (s ∷ ss) = (what <> (" [" <> (join "," (s ∷ ss) <> "]"))) ∷ []

abbrev flagged : Bool → List String
flagged true = "quote token changed" ∷ []
flagged false = []

abbrev pub parts : Change → List String
parts c =
    listed "added" c.added
    ++ listed "removed" c.removed
    ++ listed "address changed" c.readdressed
    ++ flagged c.quote_token_changed

abbrev line : List String → String
line [] = "no difference"
line (p ∷ ps) = join "; " (p ∷ ps)

unfoldable pub show_change : Change → String
show_change c = line (parts c)

abbrev pub describe_change : (String → String) → Projection → Projection → String
describe_change to_lowercase live fresh = show_change (change to_lowercase live fresh)
