-- ===== src/Telnet/Ansi/Strip.antt =====
-- Taking the escape sequences out again (telnet/color.go, StripANSI).
use wheel_mud.Base.{
  not, leb, if-cases, ◌&&◌, ℕ, ◌≡◌, ◌∙◌, refl, sym, Bool, true, false, [], ◌∷◌, ◌++◌, arith, ◌==◌,
}
use wheel_mud.Base.Int.{ℤ}
use wheel_mud.Base.Text.{Bytes, codes}
use wheel_mud.Telnet.Ansi.{
  Place, in_text, behind_esc, in_sequence, esc, ends_sequence, strip_from, has_esc, strip_ansi,
  render_rgb, clamp8, rgb_to_256, rgb_to_16, color_level_none, color_level_true_color,
  color_level_256, render_rgb_fg, render_rgb_bg,
}

no_esc_left : (p : Place) (s : Bytes) → has_esc (strip_from p s) ≡ false
unfolding has_esc strip_from
no_esc_left p [] = refl
no_esc_left in_text (c ∷ s) = ground (arith, no_esc_left behind_esc s, no_esc_left in_text s)
no_esc_left behind_esc (c ∷ s) = ground (arith, no_esc_left in_sequence s, no_esc_left in_text s)
no_esc_left in_sequence (c ∷ s) = ground (arith, no_esc_left in_sequence s, no_esc_left in_text s)

text_kept : (s : Bytes) → has_esc s ≡ false → strip_from in_text s ≡ s
unfolding has_esc strip_from
text_kept [] h = refl
text_kept (c ∷ s) h = ground (arith, text_kept s)

strip_ansi-from : (s : Bytes) → strip_ansi s ≡ strip_from in_text s
unfolding strip_ansi
strip_ansi-from s = ground (arith, text_kept s)

-- The result of `StripANSI` has no ESC in it, a text without ESC stays as it is, and so stripping
-- twice is stripping once.
pub strip_ansi_lem :
    (s : Bytes)
    → (has_esc (strip_ansi s) ≡ false)
      × (has_esc s ≡ false → strip_ansi s ≡ s)
      × (strip_ansi (strip_ansi s) ≡ strip_ansi s)
strip_ansi_lem s =
    let clean : has_esc (strip_ansi s) ≡ false = rw (strip_ansi-from s) (no_esc_left in_text s) in
    let kept : (t : Bytes) → has_esc t ≡ false → strip_ansi t ≡ t =
      λ t h. strip_ansi-from t ∙ text_kept t h in
    (clean, kept s, kept (strip_ansi s) clean)

-- The last byte ends a sequence, and no other does.
unfoldable pub ends_at_last : Bytes → Bool
ends_at_last [] = false
ends_at_last (c ∷ []) = ends_sequence c
ends_at_last (c ∷ d ∷ s) = not (ends_sequence c) && ends_at_last (d ∷ s)

unfoldable pub all_digits : Bytes → Bool
all_digits [] = true
all_digits (c ∷ s) = leb b'0' c && leb c b'9' && all_digits s

sequence_skipped :
    (s t : Bytes) → ends_at_last s ≡ true → strip_from in_sequence (s ++ t) ≡ strip_from in_text t
unfolding strip_from ends_at_last
sequence_skipped [] t h = cc
sequence_skipped (c ∷ []) t h = ground arith
sequence_skipped (c ∷ d ∷ s) t h = ground (arith, sequence_skipped (d ∷ s) t)

inside_first :
    (c : ℕ) (s : Bytes)
    → ends_sequence c ≡ false
    → ends_at_last s ≡ true
    → ends_at_last (c ∷ s) ≡ true
unfolding ends_at_last
inside_first c [] h e = cc
inside_first c (d ∷ s) h e = ground arith

digits_skipped :
    (n s : Bytes) → all_digits n ≡ true → ends_at_last s ≡ true → ends_at_last (n ++ s) ≡ true
unfolding all_digits
digits_skipped [] s h e = e
digits_skipped (c ∷ n) s h e =
    inside_first c (n ++ s) (ground arith) (digits_skipped n s (ground arith) e)

sequence_stripped :
    (s t : Bytes)
    → ends_at_last s ≡ true
    → strip_from in_text (esc ∷ b'[' ∷ (s ++ t)) ≡ strip_from in_text t
unfolding strip_from
sequence_stripped s t h = sequence_skipped s t h

module _ (show : ℕ → Bytes) (digits : (n : ℕ) → all_digits (show n) ≡ true) where
  number :
      (n c : ℕ) (s : Bytes)
      → ends_sequence c ≡ false
      → ends_at_last s ≡ true
      → ends_at_last (show n ++ c ∷ s) ≡ true
  number n c s h e = digits_skipped (show n) (c ∷ s) (digits n) (inside_first c s h e)

  last_number : (n : ℕ) → ends_at_last (show n ++ b'm' ∷ []) ≡ true
  last_number n = digits_skipped (show n) (b'm' ∷ []) (digits n) (unfold ends_at_last in refl)

  parameters :
      (plane s : Bytes) (kind : ℕ)
      → all_digits plane ≡ true
      → ends_sequence kind ≡ false
      → ends_at_last s ≡ true
      → ends_at_last (plane ++ b';' ∷ kind ∷ b';' ∷ s) ≡ true
  parameters plane s kind h k e = digits_skipped plane (b';' ∷ kind ∷ b';' ∷ s) h (
      inside_first b';' (kind ∷ b';' ∷ s) refl
        (inside_first kind (b';' ∷ s) k (inside_first b';' s refl e)))

  rendered :
      (plane : Bytes) (bg : Bool) (level : ℕ) (r g b : ℤ) (t : Bytes)
      → all_digits plane ≡ true
      → strip_from in_text (render_rgb show plane bg level r g b ++ t) ≡ strip_from in_text t
  unfolding render_rgb
  rendered plane bg level r g b t h =
      let Stripped : Bytes → Type 0 = λ x. strip_from in_text (x ++ t) ≡ strip_from in_text t in
      if-cases Stripped (level == color_level_none) (λ _. refl)
        λ _.
          if-cases Stripped (level == color_level_true_color)
            (λ _. sequence_stripped _ t (
              parameters plane _ b'2' h refl (
                number (clamp8 r) b';' _ refl
                  (number (clamp8 g) b';' _ refl (last_number (clamp8 b))))))
            λ _.
              if-cases Stripped (level == color_level_256)
                (λ _.
                  sequence_stripped _ t
                    (parameters plane _ b'5' h refl (last_number (rgb_to_256 r g b))))
                λ _. sequence_stripped _ t (last_number (rgb_to_16 r g b bg))

  -- If %d writes digits only, then a text behind a foreground or a background of any level and any
  -- three values is stripped to what the text alone is stripped to.
  pub color_stripped :
      (level : ℕ) (r g b : ℤ) (t : Bytes)
      → (strip_ansi (render_rgb_fg show level r g b ++ t) ≡ strip_ansi t)
        × (strip_ansi (render_rgb_bg show level r g b ++ t) ≡ strip_ansi t)
  unfolding render_rgb_fg render_rgb_bg all_digits
  color_stripped level r g b t = (
    strip_ansi-from _ ∙ rendered (codes "38") false level r g b t refl ∙ sym (strip_ansi-from t),
    strip_ansi-from _ ∙ rendered (codes "48") true level r g b t refl ∙ sym (strip_ansi-from t),
  )
