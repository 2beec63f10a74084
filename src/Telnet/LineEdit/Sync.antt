-- ===== src/Telnet/LineEdit/Sync.antt =====
-- A whole sequence of keys of telnet/lineedit.go against the row of the terminal.
use mathlib.Core.Path.{subst}
use wheel_mud.Base.{ℕ, ◌≡◌, ◌∙◌, ap, sym, refl, true, Option, some, none, List, [], ◌∷◌, ◌++◌}
use wheel_mud.Base.Text.{Bytes}
use wheel_mud.Telnet.LineEdit.{
  LineEdit, TextOps, Edit, types, types_rune, erases, deletes, goes_left, goes_right, goes_home,
  goes_end, cuts_start, cuts_end, cuts_word, recalls, insert, insert_rune, edit,
}
use wheel_mud.Telnet.LineEdit.Screen.{Row, play, printable, Printable, play-append}
use wheel_mud.Telnet.LineEdit.Echo.{
  line, Shows, Shown, OneCell, here, insert-Shown, move_end-Shown, move_home-Shown,
  kill_to_start-Shown, kill_to_end-Shown, replace-Shown,
}
use wheel_mud.Telnet.LineEdit.Keys.{
  delete-Shown, move_right-Shown, move_left-Shown, backspace-Shown, kill_prev_word-Shown,
}

-- A key that brings printable text only.
abbrev pub PrintableEdit : Edit → Type 0
PrintableEdit (types b) = printable b ≡ true
PrintableEdit (types_rune r) = printable r ≡ true
PrintableEdit (recalls s) = Printable s
PrintableEdit _ = Unit

abbrev pub PrintableEdits : List Edit → Type 0
PrintableEdits [] = Unit
PrintableEdits (e ∷ es) = PrintableEdit e × PrintableEdits es

abbrev then_echo : Bytes → Option (LineEdit × Bytes) → Option (LineEdit × Bytes)
then_echo out none = none
then_echo out (some (l, more)) = some (l, out ++ more)

abbrev then_keys :
    Option (LineEdit × Bytes) → (LineEdit → Option (LineEdit × Bytes)) → Option (LineEdit × Bytes)
then_keys none f = none
then_keys (some (l, out)) f = then_echo out (f l)

-- The keys one after the other, with all that is written.
unfoldable pub edits : TextOps → LineEdit → List Edit → Option (LineEdit × Bytes)
edits ops l [] = some (l, [])
edits ops l (e ∷ es) = then_keys (edit ops l e) (λ l'. edits ops l' es)

module _ (ops : TextOps) (laws : OneCell ops) where
  at_line :
      (p s : Bytes) (n : ℕ) (pp : Printable p) (ps : Printable s) (e : Edit)
      → PrintableEdit e
      → Shown (edit ops (line p s) e) (here ops laws p s n pp ps)
  unfolding edit insert insert_rune
  at_line p s n pp ps (types b) h = insert-Shown ops laws p s n pp ps b h
  at_line p s n pp ps (types_rune r) h =
      rw (laws.encoded r h) (insert-Shown ops laws p s n pp ps r h)
  at_line p s n pp ps erases h = backspace-Shown ops laws p s n pp ps
  at_line p s n pp ps deletes h = delete-Shown ops laws p s n pp ps
  at_line p s n pp ps goes_left h = move_left-Shown ops laws p s n pp ps
  at_line p s n pp ps goes_right h = move_right-Shown ops laws p s n pp ps
  at_line p s n pp ps goes_home h = move_home-Shown ops laws p s n pp ps
  at_line p s n pp ps goes_end h = move_end-Shown ops laws p s n pp ps
  at_line p s n pp ps cuts_start h = kill_to_start-Shown ops laws p s n pp ps
  at_line p s n pp ps cuts_end h = kill_to_end-Shown ops laws p s n pp ps
  at_line p s n pp ps cuts_word h = kill_prev_word-Shown ops laws p s n pp ps
  at_line p s n pp ps (recalls t) h = replace-Shown ops laws p s n pp ps t h

  -- One key with printable text keeps the row equal to the line, and its slices are in range.
  edit-Shown :
      (l : LineEdit) (r : Row) (e : Edit) → Shows l r → PrintableEdit e → Shown (edit ops l e) r
  edit-Shown l r e (p, s, n, el, er, pp, ps) h =
      subst (λ x. Shown (edit ops x e) r) (sym el)
        (subst (λ x. Shown (edit ops (line p s) e) x) (sym er) (at_line p s n pp ps e h))

  -- Where a printable byte is a rune of its own in one cell, keys with printable text, on a line that
  -- a row of the terminal shows, all end without a slice out of range, and the row that their bytes
  -- make of it shows the line they leave: the same text, blanks behind it, the cursor at its place.
  pub edits-Shown :
      (l : LineEdit) (r : Row) (es : List Edit)
      → Shows l r
      → PrintableEdits es
      → Shown (edits ops l es) r
  unfolding edits play
  edits-Shown l r [] sh h = (l, [], refl, sh)
  edits-Shown l r (e ∷ es) sh h =
      let (l', out, eq, sh') = edit-Shown l r e sh h.0 in
      let (l'', more, eq', sh'') = edits-Shown l' (play out r) es sh' h.1 in
      (
        l'',
        out ++ more,
        ap (λ o. then_keys o (λ x. edits ops x es)) eq ∙ ap (then_echo out) eq',
        subst (Shows l'') (sym (play-append out more r)) sh'',
      )
