-- ===== src/Api/Sanitize/Stripped.antt =====
-- What is left of a text after the tags and the control characters have been removed.
use mathlib.Core.List.{[]}
use predict_iq.Api.Sanitize.{strip_from, strip_control_chars, strip_html_tags, ◌∷◌}
use predict_iq.Prelude.{List, ℕ, Bool, ◌≡◌, true, false, not, arith, ◌==◌, ◌&&◌, refl}

-- No angle bracket.
abbrev pub is_plain : List ℕ → Bool
is_plain [] = true
is_plain (c ∷ cs) = not (c == b'<') && not (c == b'>') && is_plain cs

strip_from-is_plain : (in_tag : Bool) (cs : List ℕ) → is_plain (strip_from in_tag cs) ≡ true
unfolding strip_from
strip_from-is_plain in_tag [] = refl
strip_from-is_plain in_tag (c ∷ cs) = ground (
  arith,
  strip_from-is_plain true cs,
  strip_from-is_plain false cs,
  strip_from-is_plain in_tag cs,
)

strip_plain : (cs : List ℕ) → is_plain cs ≡ true → strip_from false cs ≡ cs
unfolding strip_from
strip_plain [] h = refl
strip_plain (c ∷ cs) h = ground (arith, strip_plain cs)

module _ (is_control : ℕ → Bool) where
  control_plain :
      (cs : List ℕ) → is_plain cs ≡ true → is_plain (strip_control_chars is_control cs) ≡ true
  unfolding strip_control_chars
  control_plain [] h = refl
  control_plain (c ∷ cs) h = ground (arith, control_plain cs)

  control_twice :
      (cs : List ℕ)
      → strip_control_chars is_control (strip_control_chars is_control cs)
        ≡ strip_control_chars is_control cs
  unfolding strip_control_chars
  control_twice [] = refl
  control_twice (c ∷ cs) = ground (arith, control_twice cs)

  -- A text from which tags and control characters have been stripped has no angle bracket, and
  -- stripping it again changes nothing.
  pub strip_lem :
      (input : List ℕ)
      → let clean = strip_control_chars is_control (strip_html_tags input) in
        (is_plain clean ≡ true) × (strip_control_chars is_control (strip_html_tags clean) ≡ clean)
  unfolding strip_html_tags
  strip_lem input =
      let plain = control_plain (strip_from false input) (strip_from-is_plain false input) in
      (
        plain,
        rw (strip_plain (strip_control_chars is_control (strip_from false input)) plain)
            (control_twice (strip_from false input)),
      )
