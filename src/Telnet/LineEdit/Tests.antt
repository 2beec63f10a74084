-- ===== src/Telnet/LineEdit/Tests.antt =====
-- Runs of telnet/lineedit.go with libraries that know one-byte runes only.
use wheel_mud.Base.{ℕ, ◌≤◌, ◌<◌, ◌≡◌, refl, List, [], ◌∷◌, ◌++◌, arith, length, ◌==◌}
use wheel_mud.Base.Text.{Bytes, codes}
use wheel_mud.Telnet.LineEdit.{
  TextOps, Edit, types, erases, deletes, goes_left, goes_home, goes_end, cuts_word, recalls, edit,
}
use wheel_mud.Telnet.LineEdit.Screen.{row, onto}
use wheel_mud.Telnet.LineEdit.Echo.{Shown, OneCell}
use wheel_mud.Telnet.LineEdit.Bounds.{Sizes, Kept, edit-Inside}
use wheel_mud.Telnet.LineEdit.Sync.{edits, edits-Shown}

abbrev first_byte : Bytes → ℕ × ℕ
first_byte [] = (65533, 0)
first_byte (c ∷ s) = (c, 1)

abbrev last_byte : Bytes → ℕ × ℕ
last_byte [] = (65533, 0)
last_byte (c ∷ []) = (c, 1)
last_byte (c ∷ d ∷ s) = last_byte (d ∷ s)

abbrev ascii : TextOps
ascii = record {
  decode_rune = first_byte;
  decode_last_rune = last_byte;
  encode_rune = (λ r. r ∷ []);
  rune_width = (λ r. 1);
  cell_width = length;
  is_space = (λ r. r == b' ');
}

last_byte-append : (c : ℕ) (s : Bytes) → last_byte (s ++ c ∷ []) ≡ (c, 1)
last_byte-append c [] = refl
last_byte-append c (d ∷ []) = refl
last_byte-append c (d ∷ e ∷ s) = last_byte-append c (e ∷ s)

ascii-OneCell : OneCell ascii
ascii-OneCell = record {
  first = (λ c s h. refl);
  last = (λ c s h. last_byte-append c s);
  encoded = (λ c h. refl);
  width = (λ c h. refl);
  text_width = (λ s h. refl);
}

last_byte-Sizes : (s : Bytes) → 0 < length s → (1 ≤ (last_byte s).1) × ((last_byte s).1 ≤ length s)
last_byte-Sizes [] h = elim (h) [ ]
last_byte-Sizes (c ∷ []) h = (omega arith, omega arith)
last_byte-Sizes (c ∷ d ∷ s) h =
    let rest = last_byte-Sizes (d ∷ s) (omega arith) in (rest.0, omega (arith, rest.1))

first_byte-Sizes :
    (s : Bytes) → 0 < length s → (1 ≤ (first_byte s).1) × ((first_byte s).1 ≤ length s)
first_byte-Sizes [] h = elim (h) [ ]
first_byte-Sizes (c ∷ s) h = (omega arith, omega arith)

ascii-Sizes : Sizes ascii
ascii-Sizes = record { first = first_byte-Sizes; last = last_byte-Sizes }

abbrev some_keys : List Edit
some_keys =
    types b'l'
    ∷ types b'k'
    ∷ goes_left
    ∷ types b'o'
    ∷ goes_end
    ∷ erases
    ∷ cuts_word
    ∷ recalls (codes "say hi")
    ∷ goes_home
    ∷ deletes
    ∷ []

edits-Shown_example : Shown (edits ascii (record { buf = []; cursor = 0 }) some_keys) (row [] [])
unfolding onto
edits-Shown_example =
    edits-Shown ascii ascii-OneCell (record { buf = []; cursor = 0 }) (row [] []) some_keys
      ([], [], 0, refl, refl, tt, tt)
      (
        refl,
        (
          refl,
          (
            tt,
            (
              refl,
              (
                tt,
                (tt, (tt, ((refl, (refl, (refl, (refl, (refl, (refl, tt)))))), (tt, (tt, tt))))),
              ),
            ),
          ),
        ),
      )

edit-Inside_example : Kept (edit ascii (record { buf = codes "say hi"; cursor = 3 }) cuts_word)
edit-Inside_example =
    edit-Inside ascii ascii-Sizes (record { buf = codes "say hi"; cursor = 3 }) (omega arith)
      cuts_word
