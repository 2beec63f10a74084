-- ===== src/Telnet/LineEdit/Keys.antt =====
-- The keys of telnet/lineedit.go that decode a rune at the cursor: the row shows their result.
use mathlib.Core.List.{append_assoc}
use mathlib.Core.Path.{subst}
use wheel_mud.Base.{
  ℕ, zero, suc, ◌+◌, ◌≤◌, ◌<◌, ◌≡◌, ◌⊎◌, inl, inr, ◌∙◌, ap, ap₂, sym, refl, true, false, some, [],
  ◌∷◌, ◌++◌, arith, length, length-append, take, drop, take-append-drop, length-take, leb, ◌==◌,
  if-cases,
}
use wheel_mud.Base.Text.{Bytes}
use wheel_mud.Telnet.LineEdit.{
  TextOps, minus, slice_to, back, spaces, erased, rune_cell_width, backspace, delete, move_left,
  move_right, kill_prev_word,
}
use wheel_mud.Telnet.LineEdit.Screen.{
  row, play, printable, Printable, Printable-append, Printable-left, Printable-right, onto,
  onto-append, play-text, play-back, drop-length, play-close, play-erased,
}
use wheel_mud.Telnet.LineEdit.Bounds.{
  slice_to_lem, slice_from_lem, minus_lem, Steps, word_start-Upto,
}
use wheel_mud.Telnet.LineEdit.Echo.{
  line, Shown, OneCell, to_cursor-line, from_cursor-line, unmoved, leads, here,
}

last_split : (p : Bytes) → (p ≡ []) ⊎ ((q : Bytes) × (c : ℕ) × (p ≡ q ++ c ∷ []))
last_split [] = inl refl
last_split (c ∷ p) = elim (last_split p) [
  | inl e ↦ inr ([], c, rw e refl)
  | inr (q, d, e) ↦ inr (c ∷ q, d, ap (λ x. c ∷ x) e)
]

by_last {ℓ} :
    (P : Bytes → Type ℓ) → P [] → ((q : Bytes) (c : ℕ) → P (q ++ c ∷ [])) → (p : Bytes) → P p
by_last P a b p = elim (last_split p) [
  | inl e ↦ subst P (sym e) a
  | inr (q, c, e) ↦ subst P (sym e) (b q c)
]

take-left : (i : ℕ) (p s : Bytes) → i ≤ length p → take i (p ++ s) ≡ take i p
take-left zero p s h = refl
take-left (suc i) [] s h = elim (h) [ ]
take-left (suc i) (c ∷ p) s h = ap (λ x. c ∷ x) (take-left i p s (omega arith))

before_last : (q : Bytes) (c : ℕ) → minus (length (q ++ c ∷ [])) 1 ≡ some (length q)
before_last q c =
    let longer = length-append q (c ∷ []) in
    minus_lem (length (q ++ c ∷ [])) 1 (omega (arith, longer)) ∙ ap some (omega (arith, longer))

drop-past : (p s : Bytes) (c : ℕ) → drop (length p + 1) (p ++ c ∷ s) ≡ s
drop-past p s c =
    let e : length p + 1 ≡ length (p ++ c ∷ []) = omega (arith, length-append p (c ∷ [])) in
    ap₂ drop e (sym (append_assoc p (c ∷ []) s)) ∙ drop-length (p ++ c ∷ []) s

rune_cell_width_lem :
    (ops : TextOps) (laws : OneCell ops) (c : ℕ) → printable c ≡ true → rune_cell_width ops c ≡ 1
rune_cell_width_lem ops laws c h = rw (laws.width c h) refl

module _ (ops : TextOps) (laws : OneCell ops) where
  pub delete-Shown :
      (p s : Bytes) (n : ℕ) (pp : Printable p) (ps : Printable s)
      → Shown (delete ops (line p s)) (here ops laws p s n pp ps)
  unfolding delete
  delete-Shown p [] n pp ps =
      let stays : leb (length (p ++ [])) (length p) ≡ true = ground (arith, length-append p []) in
      rw stays (unmoved ops laws p [] n pp ps refl)
  delete-Shown p (c ∷ s) n pp ps =
      let moves : leb (length (p ++ c ∷ s)) (length p) ≡ false =
        ground (arith, length-append p (c ∷ s)) in
      let past : length p + 1 ≤ length (p ++ c ∷ s) = omega (arith, length-append p (c ∷ s)) in
      rw
        (
          moves,
          from_cursor-line p (c ∷ s),
          laws.first c s ps.0,
          to_cursor-line p (c ∷ s),
          slice_from_lem (p ++ c ∷ s) (length p + 1) past,
          drop-past p s c,
          laws.text_width s ps.1,
          laws.width c ps.0,
        )
        (leads ops laws p (c ∷ s) n pp ps p s (1 + n) refl refl refl
          (play-close (onto p []) (c ∷ []) s n ps.1) pp ps.1)

  pub move_right-Shown :
      (p s : Bytes) (n : ℕ) (pp : Printable p) (ps : Printable s)
      → Shown (move_right ops (line p s)) (here ops laws p s n pp ps)
  unfolding move_right
  move_right-Shown p [] n pp ps =
      let stays : leb (length (p ++ [])) (length p) ≡ true = ground (arith, length-append p []) in
      rw stays (unmoved ops laws p [] n pp ps refl)
  move_right-Shown p (c ∷ s) n pp ps =
      let moves : leb (length (p ++ c ∷ s)) (length p) ≡ false =
        ground (arith, length-append p (c ∷ s)) in
      rw
        (
          moves,
          from_cursor-line p (c ∷ s),
          laws.first c s ps.0,
          slice_to_lem (c ∷ s) 1 (omega arith),
        )
        (leads ops laws p (c ∷ s) n pp ps (p ++ c ∷ []) s n refl (sym (append_assoc p (c ∷ []) s))
          (sym (length-append p (c ∷ [])))
          (play-text (c ∷ []) (onto p []) (c ∷ (s ++ spaces n)) (ps.0, tt)
            ∙ ap (λ x. row x (s ++ spaces n)) (sym (onto-append p (c ∷ []) [])))
          (Printable-append p (c ∷ []) pp (ps.0, tt)) ps.1)

  move_left_one :
      (q s : Bytes) (c n : ℕ) (pp : Printable (q ++ c ∷ [])) (ps : Printable s)
      → Shown (move_left ops (line (q ++ c ∷ []) s)) (here ops laws (q ++ c ∷ []) s n pp ps)
  unfolding move_left
  move_left_one q s c n pp ps =
      let pc = (Printable-right q (c ∷ []) pp).0 in
      let some_left : (length (q ++ c ∷ []) == 0) ≡ false =
        ground (arith, length-append q (c ∷ [])) in
      let one : minus (length (q ++ c ∷ [])) 1 ≡ some (length q) = before_last q c in
      rw (some_left, to_cursor-line (q ++ c ∷ []) s, laws.last c q pc, laws.width c pc, one)
        (leads ops laws (q ++ c ∷ []) s n pp ps q (c ∷ s) n refl (append_assoc q (c ∷ []) s) refl
          (ap (λ x. play (back 1) (row x (s ++ spaces n))) (onto-append q (c ∷ []) [])
            ∙ play-back (c ∷ []) (onto q []) (s ++ spaces n))
          (Printable-left q (c ∷ []) pp) (pc, ps))

  backspace_one :
      (q s : Bytes) (c n : ℕ) (pp : Printable (q ++ c ∷ [])) (ps : Printable s)
      → Shown (backspace ops (line (q ++ c ∷ []) s)) (here ops laws (q ++ c ∷ []) s n pp ps)
  unfolding backspace
  backspace_one q s c n pp ps =
      let pc = (Printable-right q (c ∷ []) pp).0 in
      let some_left : (length (q ++ c ∷ []) == 0) ≡ false =
        ground (arith, length-append q (c ∷ [])) in
      let one : minus (length (q ++ c ∷ [])) 1 ≡ some (length q) = before_last q c in
      let kept : slice_to ((q ++ c ∷ []) ++ s) (length q) ≡ some q =
        ap (λ b. slice_to b (length q)) (append_assoc q (c ∷ []) s) ∙ to_cursor-line q (c ∷ s) in
      rw
        (
          some_left,
          to_cursor-line (q ++ c ∷ []) s,
          laws.last c q pc,
          one,
          kept,
          from_cursor-line (q ++ c ∷ []) s,
          laws.width c pc,
          laws.text_width s ps,
        )
        (leads ops laws (q ++ c ∷ []) s n pp ps q s (1 + n) refl refl refl
          (play-erased q (c ∷ []) s n ps) (Printable-left q (c ∷ []) pp) ps)

  pub move_left-Shown :
      (p s : Bytes) (n : ℕ) (pp : Printable p) (ps : Printable s)
      → Shown (move_left ops (line p s)) (here ops laws p s n pp ps)
  unfolding move_left
  move_left-Shown p s n pp ps =
      by_last
        (λ p. (pp : Printable p) → Shown (move_left ops (line p s)) (here ops laws p s n pp ps))
        (λ pp. unmoved ops laws [] s n pp ps refl) (λ q c pp. move_left_one q s c n pp ps) p pp

  pub backspace-Shown :
      (p s : Bytes) (n : ℕ) (pp : Printable p) (ps : Printable s)
      → Shown (backspace ops (line p s)) (here ops laws p s n pp ps)
  unfolding backspace
  backspace-Shown p s n pp ps =
      by_last
        (λ p. (pp : Printable p) → Shown (backspace ops (line p s)) (here ops laws p s n pp ps))
        (λ pp. unmoved ops laws [] s n pp ps refl) (λ q c pp. backspace_one q s c n pp ps) p pp

  -- An erasure from `i` to the cursor, which is what `KillPrevWord` does.
  cut_lem :
      (p s : Bytes) (n i : ℕ) (pp : Printable p) (ps : Printable s)
      → i ≤ length p
      → Shown
          (some (
            record { buf = take i (p ++ s) ++ s; cursor = i },
            erased (ops.cell_width (drop i p)) s (ops.cell_width s),
          ))
          (here ops laws p s n pp ps)
  cut_lem p s n i pp ps h =
      let whole = take-append-drop i p in
      let both : Printable (take i p ++ drop i p) = subst Printable (sym whole) pp in
      let cut = Printable-right (take i p) (drop i p) both in
      rw (take-left i p s h, laws.text_width (drop i p) cut, laws.text_width s ps)
        (leads ops laws p s n pp ps (take i p) s (length (drop i p) + n) refl refl
          (omega (arith, length-take i p))
          (ap
              (λ x.
                play (erased (length (drop i p)) s (length s)) (row (onto x []) (s ++ spaces n)))
              (sym whole)
            ∙ play-erased (take i p) (drop i p) s n ps)
          (Printable-left (take i p) (drop i p) both) ps)

  -- Back over printable text each rune has one byte.
  Printable-Steps : (p s : Bytes) → Printable p → Steps ops (p ++ s) (length p)
  Printable-Steps p s pp i some_left h =
      let e : length (take i p) ≡ i = omega (arith, length-take i p, h) in
      let whole : Printable (take i p ++ drop i p) =
        subst Printable (sym (take-append-drop i p)) pp in
      rw (take-left i p s h)
        (one_byte (take i p) i (Printable-left (take i p) (drop i p) whole) e some_left)
    where
      one_byte :
          (t : Bytes) (i : ℕ)
          → Printable t
          → length t ≡ i
          → 0 < i
          → (1 ≤ (ops.decode_last_rune t).1) × ((ops.decode_last_rune t).1 ≤ i)
      one_byte t i pt e h = elim (last_split t) [
        | inl none_left ↦
            let impossible : ⊥ = omega (arith, e, h, ap length none_left) in elim impossible [ ]
        | inr (q, c, split) ↦
            let pc = (Printable-right q (c ∷ []) (subst Printable split pt)).0 in
            rw (split, laws.last c q pc) (omega arith, omega (arith, h))
      ]

  pub kill_prev_word-Shown :
      (p s : Bytes) (n : ℕ) (pp : Printable p) (ps : Printable s)
      → Shown (kill_prev_word ops (line p s)) (here ops laws p s n pp ps)
  unfolding kill_prev_word
  kill_prev_word-Shown p s n pp ps =
      let shorter : length p ≤ length (p ++ s) = omega (arith, length-append p s) in
      let (i, e, le) =
        word_start-Upto ops (p ++ s) (length p) shorter (Printable-Steps p s pp) (length p)
          (omega arith) in
      if-cases (λ x. Shown x (here ops laws p s n pp ps)) (length p == 0)
        (λ h. unmoved ops laws p s n pp ps refl)
        (λ h. rw e (
          if-cases (λ x. Shown x (here ops laws p s n pp ps)) (i == length p)
            (λ g. unmoved ops laws p s n pp ps refl)
            (λ g.
              rw
                (
                  to_cursor-line p s,
                  slice_from_lem p i le,
                  from_cursor-line p s,
                  slice_to_lem (p ++ s) i (omega (arith, le, shorter)),
                )
                (cut_lem p s n i pp ps le))))
