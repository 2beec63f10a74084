-- ===== src/Telnet/Tokens/RoundTrip.antt =====
-- `Tokenize` of telnet/tokenize.go reads back arguments that were written in double quotes.
use mathlib.Core.List.{append-nil, append_assoc}
use wheel_mud.Base.{
  ℕ, ◌≡◌, ◌≢◌, ◌∙◌, refl, true, false, ◌||◌, List, [], ◌∷◌, ◌++◌, arith, ◌==◌, if◌then◌else◌,
  Bool-cases, inl, inr,
}
use wheel_mud.Base.Text.{Bytes}
use wheel_mud.Telnet.Tokens.{
  Lexer, ok, double_quote, backslash, flush, tokenize_step, tokenize_loop, tokenize,
}

-- A backslash before each double quote and each backslash.
pub escaped : Bytes → Bytes
escaped [] = []
escaped (c ∷ s) =
    let rest = escaped s in
    if c == double_quote || c == backslash then backslash ∷ c ∷ rest else c ∷ rest

-- Each argument in double quotes, with a space behind it.
pub quoted_line : List Bytes → Bytes
unfolding escaped
quoted_line [] = []
quoted_line (t ∷ ts) = double_quote ∷ (escaped t ++ double_quote ∷ b' ' ∷ quoted_line ts)

abbrev inside : List Bytes → Bytes → Lexer
inside out cur = record { out = out; cur = cur; in_tok = true; quote = double_quote }

abbrev between : List Bytes → Lexer
between out = record { out = out; cur = []; in_tok = false; quote = 0 }

plain_round :
    (out : List Bytes) (cur : Bytes) (c : ℕ) (r : Bytes)
    → c ≢ double_quote
    → c ≢ backslash
    → tokenize_loop (inside out cur) (c ∷ r) ≡ tokenize_loop (inside out (cur ++ c ∷ [])) r
unfolding tokenize_loop tokenize_step
plain_round out cur c [] nq nb = ground arith
plain_round out cur c (d ∷ r) nq nb = ground arith

escaped_round :
    (out : List Bytes) (cur : Bytes) (c : ℕ) (r : Bytes)
    → (c == double_quote || c == backslash) ≡ true
    → tokenize_loop (inside out cur) (backslash ∷ c ∷ r)
      ≡ tokenize_loop (inside out (cur ++ c ∷ [])) r
unfolding tokenize_loop tokenize_step
escaped_round out cur c r h = ground arith

closing_round :
    (out : List Bytes) (cur r : Bytes)
    → tokenize_loop (inside out cur) (double_quote ∷ b' ' ∷ r)
      ≡ tokenize_loop (between (out ++ cur ∷ [])) r
unfolding tokenize_loop tokenize_step flush
closing_round out cur [] = ground arith
closing_round out cur (d ∷ r) = ground arith

tokenize_loop-escaped :
    (out : List Bytes) (cur t r : Bytes)
    → tokenize_loop (inside out cur) (escaped t ++ double_quote ∷ b' ' ∷ r)
      ≡ tokenize_loop (between (out ++ (cur ++ t) ∷ [])) r
unfolding escaped
tokenize_loop-escaped out cur [] r = rw append-nil (closing_round out cur r)
tokenize_loop-escaped out cur (c ∷ t) r =
    let rest : tokenize_loop (inside out (cur ++ c ∷ [])) (escaped t ++ double_quote ∷ b' ' ∷ r)
        ≡ tokenize_loop (between (out ++ (cur ++ c ∷ t) ∷ [])) r =
      tokenize_loop-escaped out (cur ++ c ∷ []) t r ∙ rw append_assoc in
    elim (Bool-cases (c == double_quote || c == backslash)) [
      | inl special ↦
          rw special (escaped_round out cur c (escaped t ++ double_quote ∷ b' ' ∷ r) special ∙ rest)
      | inr ordinary ↦ rw ordinary (
          plain_round out cur c (escaped t ++ double_quote ∷ b' ' ∷ r) (ground arith) (ground arith)
          ∙ rest)
    ]

opening_round :
    (out : List Bytes) (r : Bytes)
    → tokenize_loop (between out) (double_quote ∷ r) ≡ tokenize_loop (inside out []) r
unfolding tokenize_loop tokenize_step
opening_round out [] = ground arith
opening_round out (d ∷ r) = ground arith

tokenize_loop-quoted_line :
    (out ts : List Bytes) → tokenize_loop (between out) (quoted_line ts) ≡ between (out ++ ts)
unfolding quoted_line
tokenize_loop-quoted_line out [] = unfold tokenize_loop in rw append-nil
tokenize_loop-quoted_line out (t ∷ ts) =
    opening_round out (escaped t ++ double_quote ∷ b' ' ∷ quoted_line ts)
    ∙ tokenize_loop-escaped out [] t (quoted_line ts)
    ∙ tokenize_loop-quoted_line (out ++ t ∷ []) ts
    ∙ rw append_assoc

-- Any arguments, empty ones and those with quotes, blanks and backslashes among them, come back from
-- the line that has each of them in double quotes.
pub tokenize-quoted_line : (ts : List Bytes) → tokenize (quoted_line ts) ≡ ok ts
unfolding tokenize quoted_line
tokenize-quoted_line [] = refl
tokenize-quoted_line (t ∷ ts) = rw (tokenize_loop-quoted_line [] (t ∷ ts))
