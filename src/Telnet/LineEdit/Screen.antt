-- ===== src/Telnet/LineEdit/Screen.antt =====
-- The row of a terminal that shows the line of telnet/lineedit.go: a byte is written over the cell at
-- the cursor, and a backspace moves one cell back.
use mathlib.Core.List.{append_assoc}
use wheel_mud.Base.{
  ℕ, zero, suc, ◌+◌, ◌-◌, ◌≡◌, ◌∙◌, ap, ap₂, sym, refl, Bool, true, false, ◌&&◌, [], ◌∷◌, ◌++◌,
  arith, length, length-append, take, drop, replicate, leb, ◌==◌, if◌then◌else◌,
}
use wheel_mud.Base.Text.{Bytes}
use wheel_mud.Telnet.LineEdit.{ascii_bs, back, spaces, erased}

-- The cells before the cursor, the nearest first, and those from the cursor on.
pub record Row : Type 0 where
  pub before : Bytes
  pub after : Bytes

step_back : Row → Row
step_back r = elim r.before [ [] ↦ r | c ∷ cs ↦ record { before = cs; after = c ∷ r.after } ]

write_cell : Row → ℕ → Row
write_cell r c = record { before = c ∷ r.before; after = drop 1 r.after }

unfoldable pub play : Bytes → Row → Row
unfolding step_back write_cell
play [] r = r
play (c ∷ out) r = play out (if c == ascii_bs then step_back r else write_cell r c)

-- The line of printable text, 32 to 126.
abbrev pub printable : ℕ → Bool
printable c = leb 32 c && leb c 126

abbrev pub Printable : Bytes → Type 0
Printable [] = Unit
Printable (c ∷ s) = (printable c ≡ true) × Printable s

pub Printable-append : (s t : Bytes) → Printable s → Printable t → Printable (s ++ t)
Printable-append [] t a b = b
Printable-append (c ∷ s) t a b = (a.0, Printable-append s t a.1 b)

pub Printable-left : (s t : Bytes) → Printable (s ++ t) → Printable s
Printable-left [] t a = tt
Printable-left (c ∷ s) t a = (a.0, Printable-left s t a.1)

pub Printable-right : (s t : Bytes) → Printable (s ++ t) → Printable t
Printable-right [] t a = a
Printable-right (c ∷ s) t a = Printable-right s t a.1

pub spaces-Printable : (n : ℕ) → Printable (spaces n)
spaces-Printable zero = tt
spaces-Printable (suc n) = (refl, spaces-Printable n)

-- `s` reversed in front of `left`.
unfoldable pub onto : Bytes → Bytes → Bytes
onto [] left = left
onto (c ∷ s) left = onto s (c ∷ left)

pub onto-append : (s t left : Bytes) → onto (s ++ t) left ≡ onto t (onto s left)
unfolding onto
onto-append [] t left = refl
onto-append (c ∷ s) t left = onto-append s t (c ∷ left)

pub play-append : (a b : Bytes) (r : Row) → play (a ++ b) r ≡ play b (play a r)
unfolding play
play-append [] b r = refl
play-append (c ∷ a) b r = play-append a b (if c == ascii_bs then step_back r else write_cell r c)

abbrev pub row : Bytes → Bytes → Row
row before after = record { before = before; after = after }

drop-drop_one : (n : ℕ) (xs : Bytes) → drop n (drop 1 xs) ≡ drop (suc n) xs
drop-drop_one zero [] = refl
drop-drop_one (suc n) [] = refl
drop-drop_one zero (x ∷ xs) = refl
drop-drop_one (suc n) (x ∷ xs) = refl

drop_one-drop : (n : ℕ) (xs : Bytes) → drop (suc n) xs ≡ drop 1 (drop n xs)
drop_one-drop zero xs = refl
drop_one-drop (suc n) [] = refl
drop_one-drop (suc n) (x ∷ xs) = drop_one-drop n xs

pub play-text :
    (s left right : Bytes)
    → Printable s
    → play s (row left right) ≡ row (onto s left) (drop (length s) right)
unfolding play onto
play-text [] left right p = refl
play-text (c ∷ s) left right p =
    let text : (c == ascii_bs) ≡ false = ground arith in
    rw text (
      play-text s (c ∷ left) (drop 1 right) p.1
      ∙ ap (row (onto s (c ∷ left))) (drop-drop_one (length s) right))

replicate-append : (m n c : ℕ) → replicate m c ++ replicate n c ≡ replicate (m + n) c
replicate-append zero n c = let e : 0 + n ≡ n = omega arith in rw e refl
replicate-append (suc m) n c =
    let e : suc m + n ≡ suc (m + n) = omega arith in
    rw e (ap (λ xs. c ∷ xs) (replicate-append m n c))

back-last : (n : ℕ) → back (suc n) ≡ back n ++ ascii_bs ∷ []
back-last zero = refl
back-last (suc n) = ap (λ xs. ascii_bs ∷ xs) (back-last n)

-- Backspaces uncover the cells that they pass.
pub play-back :
    (w left right : Bytes)
    → play (back (length w)) (row (onto w left) right) ≡ row left (w ++ right)
unfolding onto
play-back [] left right = unfold play in refl
play-back (c ∷ w) left right =
    rw
      (
        back-last (length w),
        play-append (back (length w)) (ascii_bs ∷ []),
        play-back w (c ∷ left) right,
      )
      (unfold play in refl)

pub drop-length : (s t : Bytes) → drop (length s) (s ++ t) ≡ t
drop-length [] t = refl
drop-length (c ∷ s) t = drop-length s t

pub take-length : (s t : Bytes) → take (length s) (s ++ t) ≡ s
take-length [] t = refl
take-length (c ∷ s) t = ap (λ x. c ∷ x) (take-length s t)

pub length-spaces : (n : ℕ) → length (spaces n) ≡ n
length-spaces zero = refl
length-spaces (suc n) = omega (arith, length-spaces n)

-- Text written over cells and then passed back over.
pub play-over :
    (t left right : Bytes)
    → Printable t
    → play (t ++ back (length t)) (row left right) ≡ row left (t ++ drop (length t) right)
play-over t left right p =
    rw (play-append t (back (length t)), play-text t left right p)
      (play-back t left (drop (length t) right))

play-rewrite :
    (t left cells rest : Bytes)
    → Printable t
    → length t ≡ length cells
    → play (t ++ back (length t)) (row left (cells ++ rest)) ≡ row left (t ++ rest)
play-rewrite t left cells rest p e =
    play-over t left (cells ++ rest) p
    ∙ ap (λ k. row left (t ++ drop k (cells ++ rest))) e
    ∙ ap (λ x. row left (t ++ x)) (drop-length cells rest)

drop-spaces : (k n : ℕ) → drop k (spaces n) ≡ spaces (n - k)
drop-spaces zero n = let e : n ≡ n - 0 = omega arith in ap spaces e
drop-spaces (suc k) zero = let e : 0 ≡ 0 - suc k = omega arith in ap spaces e
drop-spaces (suc k) (suc n) =
    let e : n - k ≡ suc n - suc k = omega arith in drop-spaces k n ∙ ap spaces e

-- A character put in front of a suffix, which is then written again.
pub play-insert :
    (c : ℕ) (left s : Bytes) (n : ℕ)
    → printable c ≡ true
    → Printable s
    → play (c ∷ (s ++ back (length s))) (row left (s ++ spaces n))
      ≡ row (c ∷ left) (s ++ spaces (n - 1))
unfolding onto
play-insert c left s n pc ps =
    play-append (c ∷ []) (s ++ back (length s)) (row left (s ++ spaces n))
    ∙ ap (play (s ++ back (length s))) (play-text (c ∷ []) left (s ++ spaces n) (pc, tt))
    ∙ play-over s (c ∷ left) (drop 1 (s ++ spaces n)) ps
    ∙ ap (λ x. row (c ∷ left) (s ++ x))
        (drop-drop_one (length s) (s ++ spaces n)
          ∙ drop_one-drop (length s) (s ++ spaces n)
          ∙ ap (drop 1) (drop-length s (spaces n))
          ∙ drop-spaces 1 n)

-- A suffix that closes up over `w` cells, with blanks behind it.
pub play-close :
    (left w s : Bytes) (n : ℕ)
    → Printable s
    → play
        (s ++ (spaces (length w) ++ back (length s + length w)))
        (row left (w ++ (s ++ spaces n)))
      ≡ row left (s ++ spaces (length w + n))
play-close left w s n h =
    let t = s ++ spaces (length w) in
    let len : length s + length w ≡ length t =
      omega (arith, length-append s (spaces (length w)), length-spaces (length w)) in
    let same : length t ≡ length (w ++ s) = omega (arith, len, length-append w s) in
    let text = Printable-append s (spaces (length w)) h (spaces-Printable (length w)) in
    let lem = play-rewrite t left (w ++ s) (spaces n) text same in
    rw (len, ← append_assoc s (spaces (length w)) (back (length t)), ← append_assoc w s (spaces n))
      (lem
        ∙ ap (row left) (
            append_assoc s (spaces (length w)) (spaces n)
            ∙ ap (λ x. s ++ x) (replicate-append (length w) n b' ')))

-- The echo of an erasure before the cursor.
pub play-erased :
    (p w s : Bytes) (n : ℕ)
    → Printable s
    → play (erased (length w) s (length s)) (row (onto (p ++ w) []) (s ++ spaces n))
      ≡ row (onto p []) (s ++ spaces (length w + n))
play-erased p w s n h =
    rw
      (
        onto-append p w [],
        play-append (back (length w)) (s ++ (spaces (length w) ++ back (length s + length w))),
        play-back w (onto p []) (s ++ spaces n),
      )
      (play-close (onto p []) w s n h)

-- The echo of an erasure behind the cursor.
pub play-blank :
    (left w : Bytes) (n : ℕ)
    → play (spaces (length w) ++ back (length w)) (row left (w ++ spaces n))
      ≡ row left (spaces (length w + n))
play-blank left w n =
    ap (λ k. play (spaces (length w) ++ back k) (row left (w ++ spaces n))) (omega arith)
    ∙ play-close left w [] n tt

-- The echo of a new line: back to the first cell, blanks over the old line, and the text.
pub play-replaced :
    (p s t : Bytes) (n k : ℕ)
    → Printable t
    → k ≡ length (p ++ s)
    → play (back (length p) ++ (spaces k ++ (back k ++ t))) (row (onto p []) (s ++ spaces n))
      ≡ row (onto t []) (spaces (k + n - length t))
play-replaced p s t n k h e =
    play-append (back (length p)) (spaces k ++ (back k ++ t)) (row (onto p []) (s ++ spaces n))
    ∙ ap (play (spaces k ++ (back k ++ t))) (play-back p [] (s ++ spaces n))
    ∙ ap₂ (λ out cells. play out (row [] cells)) (sym (append_assoc (spaces k) (back k) t))
        (sym (append_assoc p s (spaces n)))
    ∙ play-append (spaces k ++ back k) t (row [] ((p ++ s) ++ spaces n))
    ∙ ap (play t) (
        ap (λ j. play (spaces j ++ back j) (row [] ((p ++ s) ++ spaces n))) e
        ∙ play-blank [] (p ++ s) n
        ∙ ap (λ j. row [] (spaces (j + n))) (sym e))
    ∙ play-text t [] (spaces (k + n)) h
    ∙ ap (row (onto t [])) (drop-spaces (length t) (k + n))
