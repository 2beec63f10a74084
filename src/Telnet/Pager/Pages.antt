-- ===== src/Telnet/Pager/Pages.antt =====
-- What telnet/pager.go shows of a text in the end.
use mathlib.Core.List.{append_assoc, append-nil}
use wheel_mud.Base.{
  ℕ, zero, suc, ◌+◌, ◌-◌, ◌≤◌, ◌<◌, ◌≡◌, inl, inr, ◌∙◌, ap, refl, sym, Bool, true, false, ◌||◌,
  List, [], ◌∷◌, ◌++◌, arith, length, take, drop, take-append-drop, length-drop, ltb, if◌then◌else◌,
  if-cases, Bool-cases, Option-cases,
}
use wheel_mud.Base.Text.{Bytes, codes, same}
use wheel_mud.Telnet.Pager.{
  Pager, new_pager_mode, join, is_empty, Turn, next_page, behind_page, turn_page, handle, on_enter,
  index_crlf, split_lines, split_crlf_lines,
}

split_lines_lem :
    (fuel : ℕ) (body : Bytes) → length body ≤ fuel → join (split_lines fuel body) ≡ body
unfolding split_lines
split_lines_lem zero [] h = refl
split_lines_lem zero (c ∷ body) h = ground (arith, h)
split_lines_lem (suc fuel) [] h = refl
split_lines_lem (suc fuel) (c ∷ body) h = elim (Option-cases (index_crlf (c ∷ body))) [
  | inl e ↦ rw e (append-nil (c ∷ body))
  | inr (i, e) ↦
      let two : i + 2 ≡ suc (suc i) = omega arith in
      let less : length (drop (i + 2) (c ∷ body)) ≤ fuel =
        omega (arith, length-drop (i + 2) (c ∷ body), h) in
      rw e (
        ap (λ r. take (i + 2) (c ∷ body) ++ r) (split_lines_lem fuel (drop (i + 2) (c ∷ body)) less)
        ∙ take-append-drop (i + 2) (c ∷ body))
]

-- The lines of `splitCRLFLines`, put together again, are the text.
pub split_crlf_lines-join : (body : Bytes) → join (split_crlf_lines body) ≡ body
unfolding split_crlf_lines
split_crlf_lines-join body = split_lines_lem (length body) body (omega arith)

join-append : (a b : List Bytes) → join (a ++ b) ≡ join a ++ join b
join-append [] b = refl
join-append (s ∷ a) b = ap (λ x. s ++ x) (join-append a b) ∙ sym (append_assoc s (join a) (join b))

-- The inputs of a player that go on, one after the other, until the mode is popped: what is written,
-- and whether it was popped.
unfoldable pub read_on : (word : Bytes → Bytes) → Pager → List Bytes → Bytes × Bool
read_on word p [] = ([], false)
read_on word p (line ∷ lines) =
    let t = handle word true p line in
    let (more, popped) = read_on word t.pager lines in
    if t.popped then (t.written, true) else (t.written ++ more, popped)

-- No line asks to quit.
abbrev pub GoesOn : (Bytes → Bytes) → List Bytes → Type 0
GoesOn word [] = Unit
GoesOn word (line ∷ lines) =
    ((same (word line) (codes "q") || same (word line) (codes "quit")) ≡ false) × GoesOn word lines

is_empty-nil : (xs : List Bytes) → is_empty xs ≡ true → xs ≡ []
is_empty-nil [] h = refl
is_empty-nil (x ∷ xs) h = cc

is_empty-length : (xs : List Bytes) → is_empty xs ≡ false → 0 < length xs
is_empty-length [] h = cc
is_empty-length (x ∷ xs) h = omega arith

-- A page that is written, empty or not.
page_turned : Pager → Turn
page_turned p = record {
  pager = behind_page p;
  written = join (next_page p);
  popped = is_empty (drop p.page_size p.remaining);
  failed = false;
}

turn_page_lem : (p : Pager) → turn_page true p ≡ page_turned p
unfolding turn_page page_turned behind_page
turn_page_lem p =
    if-cases (λ (t : Turn). t ≡ page_turned p) (is_empty (next_page p))
      (λ h.
        ap
          (λ w. record {
            pager = behind_page p;
            written = w;
            popped = is_empty (drop p.page_size p.remaining);
            failed = false;
          })
          (sym (ap join (is_empty-nil (next_page p) h))))
      (λ h. refl)

-- The text that remains is the page and what remains behind it.
page-join :
    (p : Pager)
    → join (take p.page_size p.remaining) ++ join (drop p.page_size p.remaining) ≡ join p.remaining
page-join p =
    sym (join-append (take p.page_size p.remaining) (drop p.page_size p.remaining))
    ∙ ap join (take-append-drop p.page_size p.remaining)

read_on_lem :
    (word : Bytes → Bytes) (p : Pager) (lines : List Bytes)
    → 0 < p.page_size
    → GoesOn word lines
    → 0 < length lines
    → length p.remaining ≤ length lines
    → read_on word p lines ≡ (join p.remaining, true)
unfolding read_on handle page_turned next_page behind_page
read_on_lem word p [] size g h enough = ground (arith, h)
read_on_lem word p (line ∷ lines) size g h enough =
    let rest = drop p.page_size p.remaining in
    rw (g.0, turn_page_lem p)
      (elim (Bool-cases (is_empty rest)) [
        | inl over ↦ rw over (
            ap (λ w. (w, true))
              (sym (append-nil (join (take p.page_size p.remaining)))
                ∙ ap (λ r. join (take p.page_size p.remaining) ++ join r)
                    (sym (is_empty-nil rest over))
                ∙ page-join p))
        | inr more ↦
            let left = length-drop p.page_size p.remaining in
            let some_left = is_empty-length rest more in
            rw
              (
                more,
                read_on_lem word (behind_page p) lines size g.1
                    (omega (arith, left, some_left, size, enough))
                    (omega (arith, left, size, enough)),
              )
              (ap (λ w. (w, true)) (page-join p))
      ])

-- All that the player sees of a pager: the page of `OnEnter`, and what follows.
abbrev pub shown : (word : Bytes → Bytes) → Pager → List Bytes → Bytes × Bool
shown word p lines =
    let first = on_enter true p in
    let (more, popped) = read_on word first.pager lines in (first.written ++ more, popped)

-- A text that a player reads on to its end, with at least as many lines of input as the text has
-- lines, and one at least, none of which asks to quit, is shown as it is, in whole, and then the pager
-- is popped, whatever the height of the window. The writes work.
pub shown-split_crlf_lines :
    (word : Bytes → Bytes) (body : Bytes) (height : ℕ) (lines : List Bytes)
    → GoesOn word lines
    → 0 < length lines
    → length (split_crlf_lines body) ≤ length lines
    → shown word (new_pager_mode (split_crlf_lines body) height) lines ≡ (body, true)
unfolding new_pager_mode on_enter page_turned next_page behind_page
shown-split_crlf_lines word body height lines g h enough =
    let page : ℕ = if ltb (height - 1) 1 then 1 else height - 1 in
    let p : Pager = record { remaining = split_crlf_lines body; page_size = page } in
    let some_size : 0 < page =
      if-cases (λ n. 0 < n) (ltb (height - 1) 1) (λ t. omega arith) (λ t. ground (arith, t)) in
    let rest =
      read_on_lem word (behind_page p) lines some_size g h
        (omega (arith, length-drop page (split_crlf_lines body), enough)) in
    rw (turn_page_lem p, rest) (ap (λ w. (w, true)) (page-join p ∙ split_crlf_lines-join body))
