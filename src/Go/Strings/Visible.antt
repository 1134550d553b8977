-- ===== src/Go/Strings/Visible.antt =====
-- Strings of visible ASCII characters: trimming leaves them alone.
use mathlib.Core.List.{reverse}
use grounded_search.Prelude.{ℕ, ◌≤◌, ◌≡◌, refl, [], ◌∷◌, arith, All, All-reverse}
use grounded_search.Go.Str.{Str}
use grounded_search.Go.Strings.{space_width, space_width_back, trim_space}
use grounded_search.Go.Strings.Trim.{trim_space_of_trimmed}

-- A character from "!" to "~".
abbrev pub IsVisible : ℕ → Type 0
IsVisible c = (0x21 ≤ c) × (c ≤ 0x7e)

space_width_of_visible : (s : Str) → All IsVisible s → space_width s ≡ 0
unfolding space_width
space_width_of_visible [] h = refl
space_width_of_visible (a ∷ []) h = ground arith
space_width_of_visible (a ∷ b ∷ []) h = ground arith
space_width_of_visible (a ∷ b ∷ c ∷ s) h = ground arith

space_width_back_of_visible : (s : Str) → All IsVisible s → space_width_back s ≡ 0
unfolding space_width_back
space_width_back_of_visible [] h = refl
space_width_back_of_visible (a ∷ []) h = ground arith
space_width_back_of_visible (a ∷ b ∷ []) h = ground arith
space_width_back_of_visible (a ∷ b ∷ c ∷ s) h = ground arith

pub trim_space_of_visible : (s : Str) → All IsVisible s → trim_space s ≡ s
trim_space_of_visible s h =
    trim_space_of_trimmed s (space_width_of_visible s h)
      (space_width_back_of_visible (reverse s) (All-reverse IsVisible s h))
