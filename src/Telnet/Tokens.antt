-- ===== src/Telnet/Tokens.antt =====
-- telnet/tokenize.go: splitting a line into arguments, splitting it into commands on semicolons,
-- and finding the partial word to complete. A string is the list of its bytes. Each of the three
-- loops over an index `i` is here a function of the bytes from `i` on; where the source advances `i`
-- twice the loop goes on two bytes later. `strings.TrimSpace` is the parameter `trim_space`.
pub mod Quotes
pub mod RoundTrip
mod Tests
use wheel_mud.Base.{
  ℕ, suc, ◌+◌, Bool, true, false, ◌&&◌, ◌||◌, Option, none, some, List, [], ◌∷◌, ◌++◌, ◌==◌,
  if◌then◌else◌, drop,
}
use wheel_mud.Base.Text.{Bytes}

abbrev pub double_quote : ℕ
double_quote = 34

abbrev pub single_quote : ℕ
single_quote = 39

abbrev pub backslash : ℕ
backslash = 92

abbrev is_quote : ℕ → Bool
is_quote c = c == double_quote || c == single_quote

abbrev is_blank : ℕ → Bool
is_blank c = c == b' ' || c == 9

pub data Result {ℓ} (A : Type ℓ) : Type ℓ where
  ok : A → Result A
  unbalanced_quote : Result A

-- The variables of the loop in `Tokenize`; `quote` is 0 outside quotes.
pub record Lexer : Type 0 where
  pub out : List Bytes
  pub cur : Bytes
  pub in_tok : Bool
  pub quote : ℕ

pub flush : Lexer → Lexer
flush l = if l.in_tok then record l { out = l.out ++ l.cur ∷ []; cur = []; in_tok = false } else l

abbrev write_byte : Lexer → ℕ → Lexer
write_byte l c = record l { cur = l.cur ++ c ∷ [] }

unescape : ℕ → ℕ
unescape c = if c == b'n' then 10 else if c == b't' then 9 else if c == b'r' then 13 else c

abbrev plain_byte : Lexer → ℕ → Lexer
plain_byte l c = record l { cur = l.cur ++ c ∷ []; in_tok = true }

-- One round of the loop on the byte `c` with the byte behind it, if there is one; and whether the
-- round takes that byte too.
unfoldable pub tokenize_step : Lexer → ℕ → Option ℕ → Lexer × Bool
unfolding flush unescape
tokenize_step l c none =
    if l.quote == 0
    then (if is_blank c
        then (flush l, false)
        else if is_quote c
        then (record l { quote = c; in_tok = true }, false)
        else (plain_byte l c, false))
    else if c == l.quote
    then (record l { quote = 0 }, false)
    else (write_byte l c, false)
tokenize_step l c (some next) =
    if l.quote == 0
    then (if is_blank c
        then (flush l, false)
        else if is_quote c
        then (record l { quote = c; in_tok = true }, false)
        else if c == backslash
        then (plain_byte l next, true)
        else (plain_byte l c, false))
    else if c == l.quote
    then (record l { quote = 0 }, false)
    else if l.quote == double_quote && c == backslash
    then (write_byte l (unescape next), true)
    else (write_byte l c, false)

unfoldable pub tokenize_loop : Lexer → Bytes → Lexer
tokenize_loop l [] = l
tokenize_loop l (c ∷ []) = (tokenize_step l c none).0
tokenize_loop l (c ∷ next ∷ rest) =
    let (l', skip) = tokenize_step l c (some next) in
    let after = tokenize_loop l' rest in
    let at_next = tokenize_loop l' (next ∷ rest) in if skip then after else at_next

abbrev start : Lexer
start = record { out = []; cur = []; in_tok = false; quote = 0 }

abbrev tokens_of : Lexer → Result (List Bytes)
tokens_of l = if l.quote == 0 then ok (flush l).out else unbalanced_quote

unfoldable pub tokenize : Bytes → Result (List Bytes)
unfolding flush
tokenize [] = ok []
tokenize (c ∷ s) = tokens_of (tokenize_loop start (c ∷ s))

-- The variables of the loop in `SplitOnSemicolon`.
pub record Splitter : Type 0 where
  pub out : List Bytes
  pub cur : Bytes
  pub quote : ℕ

abbrev keep_segment : List Bytes → Bytes → List Bytes
keep_segment out [] = out
keep_segment out (c ∷ seg) = out ++ (c ∷ seg) ∷ []

module _ (trim_space : Bytes → Bytes) where
  flush_segment : Splitter → Splitter
  flush_segment l = record l { out = keep_segment l.out (trim_space l.cur); cur = [] }

  abbrev copy_byte : Splitter → ℕ → Splitter
  copy_byte l c = record l { cur = l.cur ++ c ∷ [] }

  abbrev copy_two : Splitter → ℕ → ℕ → Splitter
  copy_two l c d = record l { cur = (l.cur ++ c ∷ []) ++ d ∷ [] }

  abbrev open_quote : Splitter → ℕ → Splitter
  open_quote l c = record l { cur = l.cur ++ c ∷ []; quote = c }

  unfoldable pub split_step : Splitter → ℕ → Option ℕ → Splitter × Bool
  unfolding flush_segment
  split_step l c none =
      if l.quote == 0
      then (if c == b';'
          then (flush_segment l, false)
          else if is_quote c
          then (open_quote l c, false)
          else (copy_byte l c, false))
      else if c == l.quote
      then (record l { cur = l.cur ++ c ∷ []; quote = 0 }, false)
      else (copy_byte l c, false)
  split_step l c (some next) =
      if l.quote == 0
      then (if c == b';'
          then (flush_segment l, false)
          else if is_quote c
          then (open_quote l c, false)
          else if c == backslash
          then (copy_two l c next, true)
          else (copy_byte l c, false))
      else if c == l.quote
      then (record l { cur = l.cur ++ c ∷ []; quote = 0 }, false)
      else if l.quote == double_quote && c == backslash
      then (copy_two l c next, true)
      else (copy_byte l c, false)

  unfoldable pub split_loop : Splitter → Bytes → Splitter
  split_loop l [] = l
  split_loop l (c ∷ []) = (split_step l c none).0
  split_loop l (c ∷ next ∷ rest) =
      let (l', skip) = split_step l c (some next) in
      let after = split_loop l' rest in
      let at_next = split_loop l' (next ∷ rest) in if skip then after else at_next

  segments_of : Splitter → Result (List Bytes)
  unfolding flush_segment
  segments_of l = if l.quote == 0 then ok (flush_segment l).out else unbalanced_quote

  unfoldable pub split_on_semicolon : Bytes → Result (List Bytes)
  unfolding segments_of
  split_on_semicolon [] = ok []
  split_on_semicolon (c ∷ s) =
      segments_of (split_loop (record { out = []; cur = []; quote = 0 }) (c ∷ s))

-- The variables of the loop in `CompletionPartial`; `i` is its index.
pub record Scanner : Type 0 where
  pub quote : ℕ
  pub token_start : ℕ
  pub has_token : Bool

abbrev token_here : Scanner → ℕ → Scanner
token_here l i = if l.has_token then l else record l { token_start = i; has_token = true }

abbrev quoting : Scanner → ℕ → Scanner
quoting l c = record l { quote = c }

unfoldable pub partial_step : Scanner → ℕ → ℕ → Option ℕ → Scanner × Bool
partial_step l i c none =
    if l.quote == 0
    then (if is_blank c
        then (record l { has_token = false }, false)
        else if is_quote c
        then (quoting (token_here l i) c, false)
        else (token_here l i, false))
    else if c == l.quote
    then (quoting l 0, false)
    else (l, false)
partial_step l i c (some next) =
    if l.quote == 0
    then (if is_blank c
        then (record l { has_token = false }, false)
        else if is_quote c
        then (quoting (token_here l i) c, false)
        else if c == backslash
        then (token_here l i, true)
        else (token_here l i, false))
    else if c == l.quote
    then (quoting l 0, false)
    else if l.quote == double_quote && c == backslash
    then (l, true)
    else (l, false)

unfoldable pub partial_loop : Scanner → ℕ → Bytes → Scanner
partial_loop l i [] = l
partial_loop l i (c ∷ []) = (partial_step l i c none).0
partial_loop l i (c ∷ next ∷ rest) =
    let (l', skip) = partial_step l i c (some next) in
    let after = partial_loop l' (i + 2) rest in
    let at_next = partial_loop l' (i + 1) (next ∷ rest) in if skip then after else at_next

unfoldable pub completion_partial : Bytes → Bytes × Bool
completion_partial buf =
    let l = partial_loop (record { quote = 0; token_start = 0; has_token = false }) 0 buf in
    let in_quote = (if l.quote == 0 then false else true) in
    if l.has_token then (drop l.token_start buf, in_quote) else ([], in_quote)
