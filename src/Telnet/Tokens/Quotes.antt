-- ===== src/Telnet/Tokens/Quotes.antt =====
-- The three loops of telnet/tokenize.go follow the quotes of a line in the same way.
use wheel_mud.Base.{
  ℕ, ◌+◌, ◌≡◌, ◌≢◌, ◌↔◌, refl, Bool, true, false, ◌&&◌, ◌||◌, some, [], ◌∷◌, arith, ◌==◌,
  if◌then◌else◌,
}
use wheel_mud.Base.Text.{Bytes}
use wheel_mud.Telnet.Tokens.{
  Lexer, Splitter, Scanner, unbalanced_quote, double_quote, single_quote, backslash, start, flush,
  tokenize_step, tokenize_loop, tokenize, split_step, split_loop, split_on_semicolon, partial_step,
  partial_loop, completion_partial,
}

abbrev takes_two : ℕ → ℕ → Bool
takes_two q c = c == backslash && (q == 0 || q == double_quote)

abbrev next_quote : ℕ → ℕ → ℕ
next_quote q c =
    if q == 0
    then (if c == double_quote || c == single_quote then c else 0)
    else if c == q
    then 0
    else q

-- The quote that is open behind the bytes, if `q` is open before them; 0 for none.
pub quote_after : ℕ → Bytes → ℕ
quote_after q [] = q
quote_after q (c ∷ []) = next_quote q c
quote_after q (c ∷ next ∷ rest) =
    let after = quote_after q rest in
    let at_next = quote_after (next_quote q c) (next ∷ rest) in
    if takes_two q c then after else at_next

tokenize_step-quote :
    (l : Lexer) (c next : ℕ)
    → ((tokenize_step l c (some next)).1 ≡ takes_two l.quote c)
      × ((tokenize_step l c (some next)).0.quote
          ≡ (if takes_two l.quote c then l.quote else next_quote l.quote c))
unfolding tokenize_step flush
tokenize_step-quote l c next = ground arith

tokenize_loop-quote : (l : Lexer) (s : Bytes) → (tokenize_loop l s).quote ≡ quote_after l.quote s
unfolding tokenize_loop quote_after
tokenize_loop-quote l [] = refl
tokenize_loop-quote l (c ∷ []) = unfold tokenize_step flush in ground arith
tokenize_loop-quote l (c ∷ next ∷ rest) =
    let (l', skip) = tokenize_step l c (some next) in
    ground (
      arith,
      tokenize_step-quote l c next,
      tokenize_loop-quote l' rest,
      tokenize_loop-quote l' (next ∷ rest),
    )

partial_step-quote :
    (l : Scanner) (i c next : ℕ)
    → ((partial_step l i c (some next)).1 ≡ takes_two l.quote c)
      × ((partial_step l i c (some next)).0.quote
          ≡ (if takes_two l.quote c then l.quote else next_quote l.quote c))
unfolding partial_step
partial_step-quote l i c next = ground arith

partial_loop-quote :
    (l : Scanner) (i : ℕ) (s : Bytes) → (partial_loop l i s).quote ≡ quote_after l.quote s
unfolding partial_loop quote_after
partial_loop-quote l i [] = refl
partial_loop-quote l i (c ∷ []) = unfold partial_step in ground arith
partial_loop-quote l i (c ∷ next ∷ rest) =
    let (l', skip) = partial_step l i c (some next) in
    ground (
      arith,
      partial_step-quote l i c next,
      partial_loop-quote l' (i + 2) rest,
      partial_loop-quote l' (i + 1) (next ∷ rest),
    )

module _ (trim_space : Bytes → Bytes) where
  split_step-quote :
      (l : Splitter) (c next : ℕ)
      → ((split_step trim_space l c (some next)).1 ≡ takes_two l.quote c)
        × ((split_step trim_space l c (some next)).0.quote
            ≡ (if takes_two l.quote c then l.quote else next_quote l.quote c))
  unfolding split_step
  split_step-quote l c next = ground arith

  split_loop-quote :
      (l : Splitter) (s : Bytes) → (split_loop trim_space l s).quote ≡ quote_after l.quote s
  unfolding split_loop quote_after
  split_loop-quote l [] = refl
  split_loop-quote l (c ∷ []) = unfold split_step in ground arith
  split_loop-quote l (c ∷ next ∷ rest) =
      let (l', skip) = split_step trim_space l c (some next) in
      ground (
        arith,
        split_step-quote l c next,
        split_loop-quote l' rest,
        split_loop-quote l' (next ∷ rest),
      )

  -- Splitting a line into arguments and splitting it into commands refuse the same lines, those
  -- that completion sees as ending inside a quote: those that leave a quote open by the rules of
  -- `quote_after`.
  pub quotes_agree :
      (s : Bytes)
      → ((tokenize s ≡ unbalanced_quote) ↔ (quote_after 0 s ≢ 0))
        × ((split_on_semicolon trim_space s ≡ unbalanced_quote) ↔ (quote_after 0 s ≢ 0))
        × (((completion_partial s).1 ≡ true) ↔ (quote_after 0 s ≢ 0))
  unfolding tokenize split_on_semicolon completion_partial
  quotes_agree [] = unfold quote_after partial_loop in ground arith
  quotes_agree (c ∷ s) =
      let q = quote_after 0 (c ∷ s) in
      (
        ground (arith, tokenize_loop-quote start (c ∷ s)),
        ground (arith, split_loop-quote (record { out = []; cur = []; quote = 0 }) (c ∷ s)),
        ground (
          arith,
          partial_loop-quote (record { quote = 0; token_start = 0; has_token = false }) 0 (c ∷ s),
        ),
      )
