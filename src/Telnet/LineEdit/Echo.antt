-- ===== src/Telnet/LineEdit/Echo.antt =====
-- The bytes that telnet/lineedit.go sends keep the row of the terminal equal to the line.
use mathlib.Core.List.{append-nil, append_assoc}
use wheel_mud.Base.{
  ℕ, suc, ◌+◌, ◌-◌, ◌≡◌, ◌∙◌, ap, ap₂, sym, refl, true, false, Option, some, [], ◌∷◌, ◌++◌, arith,
  length, length-append, leb, ◌==◌, if◌then◌else◌, if-cases,
}
use wheel_mud.Base.Text.{Bytes}
use wheel_mud.Telnet.LineEdit.{
  LineEdit, TextOps, back, spaces, slice_to, slice_from, at_cursor, insert_bytes, move_home,
  move_end, kill_to_start, kill_to_end, replace,
}
use wheel_mud.Telnet.LineEdit.Screen.{
  Row, row, play, printable, Printable, Printable-append, onto, onto-append, play-text, play-back,
  drop-length, take-length, play-insert, play-blank, play-replaced, play-erased,
}
use wheel_mud.Telnet.LineEdit.Bounds.{slice_to_lem, slice_from_lem}

-- The line with the cursor between `p` and `s`.
abbrev pub line : Bytes → Bytes → LineEdit
line p s = record { buf = p ++ s; cursor = length p }

-- The row shows the line from its first cell on, with blanks behind it, and the cursor at its place.
abbrev pub Shows : LineEdit → Row → Type 0
Shows l r =
    (p s : Bytes) × (n : ℕ) × (l ≡ line p s)
    × (r ≡ row (onto p []) (s ++ spaces n))
    × Printable p
    × Printable s

abbrev pub Shown : Option (LineEdit × Bytes) → Row → Type 0
Shown o r = (l : LineEdit) × (out : Bytes) × (o ≡ some (l, out)) × Shows l (play out r)

pub to_cursor-line : (p s : Bytes) → slice_to (p ++ s) (length p) ≡ some p
to_cursor-line p s =
    slice_to_lem (p ++ s) (length p) (omega (arith, length-append p s)) ∙ ap some (take-length p s)

pub from_cursor-line : (p s : Bytes) → slice_from (p ++ s) (length p) ≡ some s
from_cursor-line p s =
    slice_from_lem (p ++ s) (length p) (omega (arith, length-append p s))
    ∙ ap some (drop-length p s)

pub at_cursor-line {ℓ} :
    {A : Type ℓ} (p s : Bytes) (f : Bytes → Bytes → A) → at_cursor (line p s) f ≡ some (f p s)
at_cursor-line p s f = rw (to_cursor-line p s, from_cursor-line p s) refl

-- What the theorems ask of the libraries: a printable byte is a rune of its own in one cell.
pub record OneCell (ops : TextOps) : Type 0 where
  pub first : (c : ℕ) (s : Bytes) → printable c ≡ true → ops.decode_rune (c ∷ s) ≡ (c, 1)
  pub last : (c : ℕ) (s : Bytes) → printable c ≡ true → ops.decode_last_rune (s ++ c ∷ []) ≡ (c, 1)
  pub encoded : (c : ℕ) → printable c ≡ true → ops.encode_rune c ≡ c ∷ []
  pub width : (c : ℕ) → printable c ≡ true → ops.rune_width c ≡ 1
  pub text_width : (s : Bytes) → Printable s → ops.cell_width s ≡ length s

module _ (ops : TextOps) (laws : OneCell ops) (p s : Bytes) (n : ℕ) (pp : Printable p)
    (ps : Printable s) where
  abbrev pub here : Row
  here = row (onto p []) (s ++ spaces n)

  pub unmoved : {o : Option (LineEdit × Bytes)} → o ≡ some (line p s, []) → Shown o here
  unfolding play
  unmoved e = (line p s, [], e, (p, s, n, refl, refl, pp, ps))

  -- The line that an edit leaves, and the row after its echo.
  pub leads :
      {o : Option (LineEdit × Bytes)} {buf out : Bytes} {cursor : ℕ} (q t : Bytes) (m : ℕ)
      → o ≡ some (record { buf = buf; cursor = cursor }, out)
      → buf ≡ q ++ t
      → cursor ≡ length q
      → play out here ≡ row (onto q []) (t ++ spaces m)
      → Printable q
      → Printable t
      → Shown o here
  leads q t m e eb ec er pq pt =
      (_, _, e, (q, t, m, ap₂ (λ b k. record { buf = b; cursor = k }) eb ec, er, pq, pt))

  pub insert-Shown :
      (c : ℕ) → printable c ≡ true → Shown (insert_bytes ops (line p s) (c ∷ [])) here
  unfolding insert_bytes onto
  insert-Shown c pc =
      rw (to_cursor-line p s, from_cursor-line p s, out_lem s ps)
        (leads (p ++ c ∷ []) s (n - 1) refl (sym (append_assoc p (c ∷ []) s))
          (sym (length-append p (c ∷ [])))
          (play-insert c (onto p []) s n pc ps
            ∙ ap (λ x. row x (s ++ spaces (n - 1))) (sym (onto-append p (c ∷ []) [])))
          (Printable-append p (c ∷ []) pp (pc, tt)) ps)
    where
      out_lem :
          (s : Bytes)
          → Printable s
          → (if length s == 0 then c ∷ [] else (c ∷ []) ++ (s ++ back (ops.cell_width s)))
            ≡ c ∷ (s ++ back (length s))
      out_lem [] ps = refl
      out_lem (d ∷ s) ps =
          let more : (suc (length s) == 0) ≡ false = ground arith in
          rw more (ap (λ k. c ∷ d ∷ (s ++ back k)) (laws.text_width (d ∷ s) ps))

  pub move_end-Shown : Shown (move_end ops (line p s)) here
  unfolding move_end
  move_end-Shown =
      if-cases (λ x. Shown x here) (leb (length (p ++ s)) (length p)) (λ h. unmoved refl)
        (λ h. rw (from_cursor-line p s) (
          leads (p ++ s) [] n refl (sym (append-nil (p ++ s))) refl
            (play-text s (onto p []) (s ++ spaces n) ps
              ∙ ap₂ row (sym (onto-append p s [])) (drop-length s (spaces n)))
            (Printable-append p s pp ps) tt))

  pub move_home-Shown : Shown (move_home ops (line p s)) here
  unfolding move_home onto
  move_home-Shown =
      if-cases (λ x. Shown x here) (length p == 0) (λ h. unmoved refl)
        (λ h.
          rw (to_cursor-line p s, from_cursor-line p s, laws.text_width p pp)
            (leads [] (p ++ s) n refl refl refl
              (play-back p [] (s ++ spaces n) ∙ ap (row []) (sym (append_assoc p s (spaces n)))) tt
              (Printable-append p s pp ps)))

  pub kill_to_start-Shown : Shown (kill_to_start ops (line p s)) here
  unfolding kill_to_start
  kill_to_start-Shown =
      if-cases (λ x. Shown x here) (length p == 0) (λ h. unmoved refl)
        (λ h.
          rw (to_cursor-line p s, from_cursor-line p s, laws.text_width p pp, laws.text_width s ps)
            (leads [] s (length p + n) refl refl refl (play-erased [] p s n ps) tt ps))

  pub kill_to_end-Shown : Shown (kill_to_end ops (line p s)) here
  unfolding kill_to_end
  kill_to_end-Shown =
      if-cases (λ x. Shown x here) (leb (length (p ++ s)) (length p)) (λ h. unmoved refl)
        (λ h.
          rw (from_cursor-line p s, to_cursor-line p s, laws.text_width s ps)
            (leads p [] (length s + n) refl (sym (append-nil p)) refl (play-blank (onto p []) s n)
              pp tt))

  pub replace-Shown : (t : Bytes) → Printable t → Shown (replace ops (line p s) t) here
  unfolding replace
  replace-Shown t pt =
      rw
        (
          to_cursor-line p s,
          from_cursor-line p s,
          laws.text_width p pp,
          laws.text_width (p ++ s) (Printable-append p s pp ps),
        )
        (leads t [] (length (p ++ s) + n - length t) refl (sym (append-nil t)) refl
          (play-replaced p s t n (length (p ++ s)) pt refl) pt tt)
