-- ===== src/Models/Agents.antt =====
-- src/models.rs: `agent_color`, on a hash of 32 bits that wraps.
use Prim.Native.String.{◌++◌ as append}
use sjbis.Prelude.{ℕ, ◌+◌, ◌*◌, ◌/◌, ◌%◌, ◌^◌, String, List, [], ◌∷◌, codes, if◌then◌else◌, ◌==◌}

-- `h.wrapping_mul(31).wrapping_add(c as u32)` over the characters.
unfoldable pub color_hash : ℕ → List ℕ → ℕ
color_hash h [] = h
color_hash h (c ∷ s) = color_hash ((h * 31 % 2 ^ 32 + c) % 2 ^ 32) s

-- HUES, as `format!` prints them.
unfoldable pub hue : ℕ → String
hue i =
    if i == 0
    then "130"
    else if i == 1
    then "175"
    else if i == 2
    then "245"
    else if i == 3
    then "295"
    else if i == 4
    then "330"
    else if i == 5
    then "25"
    else if i == 6
    then "55"
    else if i == 7
    then "90"
    else if i == 8
    then "150"
    else "210"

-- LIGHTS
unfoldable pub light : ℕ → String
light i = if i == 0 then "72" else if i == 1 then "78" else "84"

unfoldable pub agent_color : String → String
unfolding color_hash hue light
agent_color name =
    let h = color_hash 0 (codes name) in
    append "oklch(" (append (light (h / 2 ^ 8 % 3)) (append "% 0.21 " (append (hue (h % 10)) ")")))
