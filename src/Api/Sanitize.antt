-- ===== src/Api/Sanitize.antt =====
-- services/api/src/validation.rs: the removal of tags and of control characters. A text is its list
-- of characters; `char::is_control` is a parameter. The patterns that are refused before it are not
-- modelled.
pub mod Stripped
use mathlib.Core.List.{[]}
use predict_iq.Prelude.{Bool, List, ℕ, ◌∷◌, false, ◌==◌, true, ◌||◌, if◌then◌else◌, not, ◌&&◌}

-- The loop over the characters, with its flag.
unfoldable pub strip_from : Bool → List ℕ → List ℕ
strip_from in_tag [] = []
strip_from in_tag (ch ∷ cs) =
    let opened = strip_from true cs in
    let closed' = strip_from false cs in
    let same = strip_from in_tag cs in
    if ch == b'<'
    then opened
    else if ch == b'>'
    then closed'
    else if in_tag
    then same
    else ch ∷ same

unfoldable pub strip_html_tags : List ℕ → List ℕ
unfolding strip_from
strip_html_tags input = strip_from false input

module _ (is_control : ℕ → Bool) where
  -- Tab, line feed and carriage return stay.
  abbrev pub is_kept : ℕ → Bool
  is_kept c = c == 9 || c == 10 || c == 13 || (not (is_control c) && not (c == 0))

  unfoldable pub strip_control_chars : List ℕ → List ℕ
  strip_control_chars [] = []
  strip_control_chars (c ∷ cs) =
      let rest = strip_control_chars cs in if is_kept c then c ∷ rest else rest
