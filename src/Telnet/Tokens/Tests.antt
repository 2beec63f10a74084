-- ===== src/Telnet/Tokens/Tests.antt =====
-- Runs of telnet/tokenize.go.
use wheel_mud.Base.{◌≡◌, ◌≢◌, ◌↔◌, true, List, [], ◌∷◌, ◌++◌}
use wheel_mud.Base.Text.{Bytes, codes}
use wheel_mud.Telnet.Tokens.{ok, unbalanced_quote, tokenize, split_on_semicolon, completion_partial}
use wheel_mud.Telnet.Tokens.Quotes.{quote_after, quotes_agree}
use wheel_mud.Telnet.Tokens.RoundTrip.{quoted_line, tokenize-quoted_line}

abbrev trim : Bytes → Bytes
trim s = s

-- say "hi
abbrev open_line : Bytes
open_line = codes "say " ++ 34 ∷ codes "hi"

quotes_agree_example :
    ((tokenize open_line ≡ unbalanced_quote) ↔ (quote_after 0 open_line ≢ 0))
    × ((split_on_semicolon trim open_line ≡ unbalanced_quote) ↔ (quote_after 0 open_line ≢ 0))
    × (((completion_partial open_line).1 ≡ true) ↔ (quote_after 0 open_line ≢ 0))
quotes_agree_example = quotes_agree trim open_line

abbrev arguments : List Bytes
arguments = codes "say" ∷ [] ∷ (34 ∷ 92 ∷ codes " hi") ∷ []

tokenize-quoted_line_example : tokenize (quoted_line arguments) ≡ ok arguments
tokenize-quoted_line_example = tokenize-quoted_line arguments
