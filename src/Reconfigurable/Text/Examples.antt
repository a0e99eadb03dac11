-- ===== src/Reconfigurable/Text/Examples.antt =====
-- Lines of a trace.
use astra_network_analytical.Base.{[], ◌∷◌, ◌≡◌, refl, ok}
use astra_network_analytical.Base.Int.{pos, negsuc}
use astra_network_analytical.Reconfigurable.Text.{trim, stoi, extract_all, replace_arrow, Text}

abbrev row : Text
row = b' ' ∷ b'1' ∷ b'0' ∷ b' ' ∷ b'-' ∷ b'2' ∷ 13 ∷ []

row_trimmed : trim row ≡ b'1' ∷ b'0' ∷ b' ' ∷ b'-' ∷ b'2' ∷ []
unfolding trim
row_trimmed = refl

row_values : extract_all 7 row ≡ pos 10 ∷ negsuc 1 ∷ []
unfolding extract_all
row_values = refl

sixteen : stoi (b'1' ∷ b'6' ∷ []) ≡ ok 16
unfolding stoi
sixteen = refl

arrow : replace_arrow (b'0' ∷ b'-' ∷ b'>' ∷ b'1' ∷ []) ≡ ok (b'0' ∷ b' ' ∷ b'1' ∷ [])
unfolding replace_arrow
arrow = refl
