-- ===== src/Telnet/LineEdit/Bounds.antt =====
-- The cursor of telnet/lineedit.go: whatever the text, it stays inside the buffer and no key panics.
use wheel_mud.Base.{
  ℕ, zero, suc, ◌+◌, ◌-◌, ◌≤◌, ◌<◌, ◌≡◌, ◌⊎◌, inl, inr, refl, Bool, true, false, not, ◌||◌, Option,
  some, [], ◌∷◌, ◌++◌, arith, length, length-append, take, drop, length-take, length-drop, leb,
  ◌==◌, Bool-cases, if-cases,
}
use wheel_mud.Base.Text.{Bytes}
use wheel_mud.Telnet.LineEdit.{
  minus, slice_to, slice_from, LineEdit, TextOps, Edit, types, types_rune, erases, deletes,
  goes_left, goes_right, goes_home, goes_end, cuts_start, cuts_end, cuts_word, recalls,
  insert_bytes, insert, insert_rune, backspace, delete, move_left, move_right, move_home, move_end,
  kill_to_start, kill_to_end, back_while, word_start, kill_prev_word, replace, edit,
}

pub slice_to_lem : (buf : Bytes) (i : ℕ) → i ≤ length buf → slice_to buf i ≡ some (take i buf)
unfolding slice_to
slice_to_lem buf i h = let fits : leb i (length buf) ≡ true = ground (arith, h) in rw fits refl

pub slice_from_lem : (buf : Bytes) (i : ℕ) → i ≤ length buf → slice_from buf i ≡ some (drop i buf)
unfolding slice_from
slice_from_lem buf i h = let fits : leb i (length buf) ≡ true = ground (arith, h) in rw fits refl

pub minus_lem : (m n : ℕ) → n ≤ m → minus m n ≡ some (m - n)
unfolding minus
minus_lem m n h = let fits : leb n m ≡ true = ground (arith, h) in rw fits refl

-- Up to `k` bytes of the buffer, the rune in front of a place has one byte at least, and no more than
-- there are.
abbrev pub Steps : TextOps → Bytes → ℕ → Type 0
Steps ops buf k =
    (i : ℕ)
    → 0 < i
    → i ≤ k
    → (1 ≤ (ops.decode_last_rune (take i buf)).1) × ((ops.decode_last_rune (take i buf)).1 ≤ i)

-- A place up to `i`.
abbrev pub Upto : ℕ → Option ℕ → Type 0
Upto i o = (j : ℕ) × (o ≡ some j) × (j ≤ i)

module _ (ops : TextOps) (buf : Bytes) (k : ℕ) (fits : k ≤ length buf)
    (steps : Steps ops buf k) where
  pub back_while-Upto :
      (test : ℕ → Bool) (fuel i : ℕ) → i ≤ k → Upto i (back_while ops test buf fuel i)
  unfolding back_while
  back_while-Upto test zero i h = (i, refl, omega arith)
  back_while-Upto test (suc fuel) i h =
      if-cases (Upto i) (i == 0) (λ z. (i, refl, omega arith))
        (λ nz.
          let size = (ops.decode_last_rune (take i buf)).1 in
          let (least, most) = steps i (ground (arith, nz)) h in
          rw (slice_to_lem buf i (omega (arith, h, fits))) (
            if-cases (Upto i) (size == 0 || not (test (ops.decode_last_rune (take i buf)).0))
              (λ g. (i, refl, omega arith))
              (λ g.
                let (j, e, le) = back_while-Upto test fuel (i - size) (omega (arith, h)) in
                rw (minus_lem i size most) (j, e, omega (arith, le)))))

  pub word_start-Upto : (i : ℕ) → i ≤ k → Upto i (word_start ops buf i)
  unfolding word_start
  word_start-Upto i h =
      let (j, e, le) = back_while-Upto ops.is_space i i h in
      let (n, e', le') = back_while-Upto (λ r. not (ops.is_space r)) j j (omega (arith, h, le)) in
      rw e (n, e', omega (arith, le, le'))

-- The sizes that utf8.DecodeRune and utf8.DecodeLastRune document: zero for no bytes, else one byte
-- at least, and never more than there are.
pub record Sizes (ops : TextOps) : Type 0 where
  pub first :
      (s : Bytes) → 0 < length s → (1 ≤ (ops.decode_rune s).1) × ((ops.decode_rune s).1 ≤ length s)
  pub last :
      (s : Bytes)
      → 0 < length s
      → (1 ≤ (ops.decode_last_rune s).1) × ((ops.decode_last_rune s).1 ≤ length s)

abbrev pub Inside : LineEdit → Type 0
Inside l = l.cursor ≤ length l.buf

-- The operation ends without a panic, with the cursor inside the buffer.
abbrev pub Kept : Option (LineEdit × Bytes) → Type 0
Kept o = (l : LineEdit) × (out : Bytes) × (o ≡ some (l, out)) × Inside l

kept : {l : LineEdit} {out : Bytes} → Inside l → Kept (some (l, out))
kept {l} {out} h = (l, out, refl, h)

-- What is left of a buffer without the bytes from `i` to `j`.
length-cut :
    (buf : Bytes) (i j : ℕ)
    → i ≤ length buf
    → length (take i buf ++ drop j buf) ≡ i + (length buf - j)
length-cut buf i j h =
    omega (arith, length-append (take i buf) (drop j buf), length-take i buf, length-drop j buf)

Sizes-Steps :
    (ops : TextOps) (sizes : Sizes ops) (buf : Bytes) (k : ℕ) → k ≤ length buf → Steps ops buf k
Sizes-Steps ops sizes buf k fits i some_left h =
    let e : length (take i buf) ≡ i = omega (arith, length-take i buf, h, fits) in
    let (least, most) = sizes.last (take i buf) (omega (arith, e, some_left)) in
    (least, omega (arith, most, e))

module _ (ops : TextOps) (sizes : Sizes ops) (l : LineEdit) (h : Inside l) where
  to_cursor : slice_to l.buf l.cursor ≡ some (take l.cursor l.buf)
  to_cursor = slice_to_lem l.buf l.cursor h

  from_cursor : slice_from l.buf l.cursor ≡ some (drop l.cursor l.buf)
  from_cursor = slice_from_lem l.buf l.cursor h

  abbrev front : Bytes
  front = take l.cursor l.buf

  abbrev last_size : ℕ
  last_size = (ops.decode_last_rune front).1

  abbrev first_size : ℕ
  first_size = (ops.decode_rune (drop l.cursor l.buf)).1

  last_fits : (l.cursor == 0) ≡ false → last_size ≤ l.cursor
  last_fits some_left =
      (Sizes-Steps ops sizes l.buf l.cursor h l.cursor (ground (arith, some_left)) (omega arith)).1

  first_in_rest : leb (length l.buf) l.cursor ≡ false → first_size ≤ length (drop l.cursor l.buf)
  first_in_rest more =
      let e = length-drop l.cursor l.buf in
      (sizes.first (drop l.cursor l.buf) (ground (arith, e, more))).1

  first_fits : leb (length l.buf) l.cursor ≡ false → l.cursor + first_size ≤ length l.buf
  first_fits more = omega (arith, length-drop l.cursor l.buf, first_in_rest more, h)

  insert_bytes-Kept : (enc : Bytes) → Kept (insert_bytes ops l enc)
  unfolding insert_bytes
  insert_bytes-Kept enc =
      rw (to_cursor, from_cursor)
        (kept (
          omega (
            arith,
            h,
            length-append front (enc ++ drop l.cursor l.buf),
            length-append enc (drop l.cursor l.buf),
            length-take l.cursor l.buf,
          )))

  backspace-Kept : Kept (backspace ops l)
  unfolding backspace
  backspace-Kept =
      if-cases Kept (l.cursor == 0) (λ z. kept h)
        (λ z.
          let inside : l.cursor - last_size ≤ length l.buf = omega (arith, h) in
          rw
            (
              to_cursor,
              minus_lem l.cursor last_size (last_fits z),
              slice_to_lem l.buf (l.cursor - last_size) inside,
              from_cursor,
            )
            (kept (omega (arith, h, length-cut l.buf (l.cursor - last_size) l.cursor inside))))

  delete-Kept : Kept (delete ops l)
  unfolding delete
  delete-Kept =
      if-cases Kept (leb (length l.buf) l.cursor) (λ z. kept h)
        (λ z.
          rw (from_cursor, to_cursor, slice_from_lem l.buf (l.cursor + first_size) (first_fits z))
            (kept (omega (arith, h, length-cut l.buf l.cursor (l.cursor + first_size) h))))

  move_left-Kept : Kept (move_left ops l)
  unfolding move_left
  move_left-Kept =
      if-cases Kept (l.cursor == 0) (λ z. kept h)
        (λ z. rw (to_cursor, minus_lem l.cursor last_size (last_fits z)) (kept (omega (arith, h))))

  move_right-Kept : Kept (move_right ops l)
  unfolding move_right
  move_right-Kept =
      if-cases Kept (leb (length l.buf) l.cursor) (λ z. kept h)
        (λ z.
          rw (from_cursor, slice_to_lem (drop l.cursor l.buf) first_size (first_in_rest z))
            (kept (first_fits z)))

  move_home-Kept : Kept (move_home ops l)
  unfolding move_home
  move_home-Kept =
      if-cases Kept (l.cursor == 0) (λ z. kept h)
        (λ z. rw (to_cursor, from_cursor) (kept (omega arith)))

  move_end-Kept : Kept (move_end ops l)
  unfolding move_end
  move_end-Kept =
      if-cases Kept (leb (length l.buf) l.cursor) (λ z. kept h)
        (λ z. rw from_cursor (kept (omega arith)))

  kill_to_start-Kept : Kept (kill_to_start ops l)
  unfolding kill_to_start
  kill_to_start-Kept =
      if-cases Kept (l.cursor == 0) (λ z. kept h)
        (λ z. rw (to_cursor, from_cursor) (kept (omega arith)))

  kill_to_end-Kept : Kept (kill_to_end ops l)
  unfolding kill_to_end
  kill_to_end-Kept =
      if-cases Kept (leb (length l.buf) l.cursor) (λ z. kept h)
        (λ z. rw (from_cursor, to_cursor) (kept (omega (arith, h, length-take l.cursor l.buf))))

  kill_prev_word-Kept : Kept (kill_prev_word ops l)
  unfolding kill_prev_word
  kill_prev_word-Kept =
      let (i, e, le) =
        word_start-Upto ops l.buf l.cursor h (Sizes-Steps ops sizes l.buf l.cursor h) l.cursor
          (omega arith) in
      let inside : i ≤ length l.buf = omega (arith, le, h) in
      let in_front : i ≤ length front = omega (arith, length-take l.cursor l.buf, le, h) in
      if-cases Kept (l.cursor == 0) (λ z. kept h)
        (λ z. rw e (
          if-cases Kept (i == l.cursor) (λ y. kept h)
            (λ y.
              rw
                (
                  to_cursor,
                  slice_from_lem front i in_front,
                  from_cursor,
                  slice_to_lem l.buf i inside,
                )
                (kept (omega (arith, length-cut l.buf i l.cursor inside))))))

  replace-Kept : (s : Bytes) → Kept (replace ops l s)
  unfolding replace
  replace-Kept s = rw (to_cursor, from_cursor) (kept (omega arith))

-- Where the sizes of decoded runes are those documented, every key on a line with the cursor inside
-- the buffer ends without a slice out of range, with the cursor inside the buffer again.
pub edit-Inside :
    (ops : TextOps) (sizes : Sizes ops) (l : LineEdit) → Inside l → (e : Edit) → Kept (edit ops l e)
unfolding edit insert insert_rune
edit-Inside ops sizes l h (types b) = insert_bytes-Kept ops sizes l h (b ∷ [])
edit-Inside ops sizes l h (types_rune r) = insert_bytes-Kept ops sizes l h (ops.encode_rune r)
edit-Inside ops sizes l h erases = backspace-Kept ops sizes l h
edit-Inside ops sizes l h deletes = delete-Kept ops sizes l h
edit-Inside ops sizes l h goes_left = move_left-Kept ops sizes l h
edit-Inside ops sizes l h goes_right = move_right-Kept ops sizes l h
edit-Inside ops sizes l h goes_home = move_home-Kept ops sizes l h
edit-Inside ops sizes l h goes_end = move_end-Kept ops sizes l h
edit-Inside ops sizes l h cuts_start = kill_to_start-Kept ops sizes l h
edit-Inside ops sizes l h cuts_end = kill_to_end-Kept ops sizes l h
edit-Inside ops sizes l h cuts_word = kill_prev_word-Kept ops sizes l h
edit-Inside ops sizes l h (recalls s) = replace-Kept ops sizes l h s

module _ (ops : TextOps) (sizes : Sizes ops) (test : ℕ → Bool) (buf : Bytes) where
  -- Where the loop stands: at 0, or behind a rune that fails the test.
  abbrev pub Ended : ℕ → Type 0
  Ended k = (k ≡ 0) ⊎ (test (ops.decode_last_rune (take k buf)).0 ≡ false)

  back_while-stops :
      (f g i : ℕ)
      → i ≤ length buf
      → i ≤ f
      → i ≤ g
      → (k : ℕ) × (back_while ops test buf f i ≡ some k)
        × (back_while ops test buf g i ≡ some k)
        × Ended k
  unfolding back_while
  back_while-stops zero zero i h a b = (i, refl, refl, inl (omega (arith, a)))
  back_while-stops zero (suc g) i h a b =
      let e : (i == 0) ≡ true = ground (arith, a) in rw e (i, refl, refl, inl (omega (arith, a)))
  back_while-stops (suc f) zero i h a b =
      let e : (i == 0) ≡ true = ground (arith, b) in rw e (i, refl, refl, inl (omega (arith, b)))
  back_while-stops (suc f) (suc g) i h a b = elim (Bool-cases (i == 0)) [
    | inl e ↦ rw e (i, refl, refl, inl (ground (arith, e)))
    | inr e ↦
        let size = (ops.decode_last_rune (take i buf)).1 in
        let rune = (ops.decode_last_rune (take i buf)).0 in
        let (least, most) = Sizes-Steps ops sizes buf i h i (ground (arith, e)) (omega arith) in
        let (k, ef, eg, ends) =
          back_while-stops f g (i - size) (omega (arith, h)) (omega (arith, least, a))
            (omega (arith, least, b)) in
        elim (Bool-cases (size == 0 || not (test rune))) [
          | inl g' ↦
              rw (e, slice_to_lem buf i h, g') (i, refl, refl, inr (ground (arith, g', least)))
          | inr g' ↦ rw (e, slice_to_lem buf i h, g', minus_lem i size most) (k, ef, eg, ends)
        ]
  ]

-- Where the sizes of decoded runes are those documented, a loop of `KillPrevWord` over `i` bytes of
-- the buffer ends within `i` rounds: any larger fuel gives the same position, and there the loop's
-- condition is false, as the position is 0 or the rune before it fails the test.
pub back_while-ends :
    (ops : TextOps) (sizes : Sizes ops) (test : ℕ → Bool) (buf : Bytes) (i fuel : ℕ)
    → i ≤ length buf
    → i ≤ fuel
    → (k : ℕ) × (back_while ops test buf fuel i ≡ some k)
      × (back_while ops test buf i i ≡ some k)
      × Ended ops sizes test buf k
back_while-ends ops sizes test buf i fuel h enough =
    back_while-stops ops sizes test buf fuel i i h enough (omega arith)
