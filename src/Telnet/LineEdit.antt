-- ===== src/Telnet/LineEdit.antt =====
-- telnet/lineedit.go: the line under edit, and the bytes that keep the terminal in step with it. What
-- the code takes from unicode/utf8, unicode and go-runewidth are parameters. An operation is `none`
-- where a bound of one of its slices is negative or lies behind the end of the sliced bytes; there Go
-- panics, or reads capacity that is not part of the line. A cursor that would become negative is `none`
-- at once.
pub mod Bounds
pub mod Screen
pub mod Echo
pub mod Keys
pub mod Sync
mod Tests
use wheel_mud.Base.{
  ℕ, zero, suc, ◌+◌, ◌-◌, Bool, true, false, not, ◌||◌, Option, none, some, List, [], ◌∷◌, ◌++◌,
  length, take, drop, replicate, leb, ltb, ◌==◌, if◌then◌else◌,
}
use wheel_mud.Base.Text.{Bytes}

pub record LineEdit : Type 0 where
  pub buf : Bytes
  pub cursor : ℕ

abbrev pub ascii_bs : ℕ
ascii_bs = 8

unfoldable pub reset : LineEdit → LineEdit
reset l = record { buf = []; cursor = 0 }

-- `m - n` where it is not negative.
unfoldable pub minus : ℕ → ℕ → Option ℕ
minus m n = if leb n m then some (m - n) else none

-- `buf[:i]` and `buf[i:]`.
unfoldable pub slice_to : Bytes → ℕ → Option Bytes
slice_to buf i = if leb i (length buf) then some (take i buf) else none

unfoldable pub slice_from : Bytes → ℕ → Option Bytes
slice_from buf i = if leb i (length buf) then some (drop i buf) else none

infixl 5 ◌>>=◌
abbrev pub ◌>>=◌ {ℓ κ} : {A : Type ℓ} {B : Type κ} → Option A → (A → Option B) → Option B
none >>= f = none
some a >>= f = f a

-- The slices on the two sides of the cursor, if it is not behind the end.
abbrev pub at_cursor {ℓ} : {A : Type ℓ} → LineEdit → (Bytes → Bytes → A) → Option A
at_cursor l f = do
  before ← slice_to l.buf l.cursor
  suffix ← slice_from l.buf l.cursor
  some (f before suffix)

abbrev pub back : ℕ → Bytes
back n = replicate n ascii_bs

abbrev pub spaces : ℕ → Bytes
spaces n = replicate n b' '

-- What `Backspace`, `KillToStart` and `KillPrevWord` write once `w` cells before the cursor are gone.
abbrev pub erased : (w : ℕ) → (suffix : Bytes) → (suffix_cells : ℕ) → Bytes
erased w suffix suffix_cells = back w ++ (suffix ++ (spaces w ++ back (suffix_cells + w)))

-- One key.
pub data Edit : Type 0 where
  types : (b : ℕ) → Edit
  types_rune : (r : ℕ) → Edit
  erases deletes goes_left goes_right goes_home goes_end cuts_start cuts_end cuts_word : Edit
  recalls : (s : Bytes) → Edit

-- What the code takes from its libraries: utf8.DecodeRune and utf8.DecodeLastRune with the size,
-- utf8.EncodeRune, runewidth.RuneWidth and runewidth.StringWidth, and unicode.IsSpace.
pub record TextOps : Type 0 where
  pub decode_rune : Bytes → ℕ × ℕ
  pub decode_last_rune : Bytes → ℕ × ℕ
  pub encode_rune : ℕ → Bytes
  pub rune_width : ℕ → ℕ
  pub cell_width : Bytes → ℕ
  pub is_space : ℕ → Bool

module _ (ops : TextOps) where
  open ops use {decode_rune, decode_last_rune, encode_rune, rune_width, cell_width, is_space}

  abbrev pub rune_cell_width : ℕ → ℕ
  rune_cell_width r = let w = rune_width r in if w == 0 then 1 else w

  -- `Insert` and `InsertRune` for the encoding of the byte or rune.
  unfoldable pub insert_bytes : LineEdit → Bytes → Option (LineEdit × Bytes)
  insert_bytes l enc = at_cursor l (λ before suffix. (
    record { buf = before ++ (enc ++ suffix); cursor = l.cursor + length enc },
    if length suffix == 0 then enc else enc ++ (suffix ++ back (cell_width suffix)),
  ))

  unfoldable pub insert : LineEdit → ℕ → Option (LineEdit × Bytes)
  insert l b = insert_bytes l (b ∷ [])

  unfoldable pub insert_rune : LineEdit → ℕ → Option (LineEdit × Bytes)
  insert_rune l r = insert_bytes l (encode_rune r)

  unfoldable pub backspace : LineEdit → Option (LineEdit × Bytes)
  backspace l = if l.cursor == 0 then some (l, []) else (do
    before ← slice_to l.buf l.cursor
    let (r, size) = decode_last_rune before
    i ← minus l.cursor size
    left ← slice_to l.buf i
    suffix ← slice_from l.buf l.cursor
    some (
      record { buf = left ++ suffix; cursor = i },
      erased (rune_cell_width r) suffix (cell_width suffix),
    ))

  unfoldable pub delete : LineEdit → Option (LineEdit × Bytes)
  delete l = if leb (length l.buf) l.cursor then some (l, []) else (do
    rest ← slice_from l.buf l.cursor
    let (r, size) = decode_rune rest
    let w = rune_cell_width r
    before ← slice_to l.buf l.cursor
    suffix ← slice_from l.buf (l.cursor + size)
    some
        (record l { buf = before ++ suffix }, suffix ++ (spaces w ++ back (cell_width suffix + w))))

  unfoldable pub move_left : LineEdit → Option (LineEdit × Bytes)
  move_left l = if l.cursor == 0 then some (l, []) else (do
    before ← slice_to l.buf l.cursor
    let (r, size) = decode_last_rune before
    i ← minus l.cursor size
    some (record l { cursor = i }, back (rune_cell_width r)))

  unfoldable pub move_right : LineEdit → Option (LineEdit × Bytes)
  move_right l = if leb (length l.buf) l.cursor then some (l, []) else (do
    rest ← slice_from l.buf l.cursor
    let (r, size) = decode_rune rest
    out ← slice_to rest size
    some (record l { cursor = l.cursor + size }, out))

  unfoldable pub move_home : LineEdit → Option (LineEdit × Bytes)
  move_home l =
      if l.cursor == 0
      then some (l, [])
      else at_cursor l (λ before suffix. (record l { cursor = 0 }, back (cell_width before)))

  unfoldable pub move_end : LineEdit → Option (LineEdit × Bytes)
  move_end l =
      if leb (length l.buf) l.cursor
      then some (l, [])
      else (do rest ← slice_from l.buf l.cursor; some (record l { cursor = length l.buf }, rest))

  unfoldable pub kill_to_start : LineEdit → Option (LineEdit × Bytes)
  kill_to_start l =
      if l.cursor == 0
      then some (l, [])
      else at_cursor l (λ before rest.
        (record { buf = rest; cursor = 0 }, erased (cell_width before) rest (cell_width rest)))

  unfoldable pub kill_to_end : LineEdit → Option (LineEdit × Bytes)
  kill_to_end l = if leb (length l.buf) l.cursor then some (l, []) else (do
    rest ← slice_from l.buf l.cursor
    let removed = cell_width rest
    before ← slice_to l.buf l.cursor
    some (record l { buf = before }, spaces removed ++ back removed))

  -- A loop of `KillPrevWord`, back over the runes that pass the test, with `fuel` rounds at most.
  unfoldable pub back_while : (ℕ → Bool) → Bytes → (fuel i : ℕ) → Option ℕ
  back_while test buf zero i = some i
  back_while test buf (suc fuel) i =
      let more : Option ℕ = (do
        before ← slice_to buf i
        let (r, size) = decode_last_rune before
        let next : Option ℕ = minus i size >>= back_while test buf fuel
        if size == 0 || not (test r) then some i else next) in
      if i == 0 then some i else more

  unfoldable pub word_start : Bytes → ℕ → Option ℕ
  word_start buf cursor = do
    i ← back_while is_space buf cursor cursor
    back_while (λ r. not (is_space r)) buf i i

  unfoldable pub kill_prev_word : LineEdit → Option (LineEdit × Bytes)
  kill_prev_word l =
      let cut : ℕ → Option (LineEdit × Bytes) = (λ i. do
        before ← slice_to l.buf l.cursor
        removed ← slice_from before i
        suffix ← slice_from l.buf l.cursor
        left ← slice_to l.buf i
        some (
          record { buf = left ++ suffix; cursor = i },
          erased (cell_width removed) suffix (cell_width suffix),
        )) in
      if l.cursor == 0
      then some (l, [])
      else (do i ← word_start l.buf l.cursor; if i == l.cursor then some (l, []) else cut i)

  unfoldable pub replace : LineEdit → Bytes → Option (LineEdit × Bytes)
  replace l s = at_cursor l (λ before suffix.
      let old_cells = cell_width l.buf in
      (
        record { buf = s; cursor = length s },
        back (cell_width before) ++ (spaces old_cells ++ (back old_cells ++ s)),
      ))

  unfoldable pub edit : LineEdit → Edit → Option (LineEdit × Bytes)
  edit l (types b) = insert l b
  edit l (types_rune r) = insert_rune l r
  edit l erases = backspace l
  edit l deletes = delete l
  edit l goes_left = move_left l
  edit l goes_right = move_right l
  edit l goes_home = move_home l
  edit l goes_end = move_end l
  edit l cuts_start = kill_to_start l
  edit l cuts_end = kill_to_end l
  edit l cuts_word = kill_prev_word l
  edit l (recalls s) = replace l s
