-- ===== src/Evidence/Examples.antt =====
-- A page with one node, read from the beginning.
use extrio.Base.{ok, err, ℕ, zero, suc, ◌<◌, ◌≡◌, refl, true, false, none, some, [], ◌∷◌, arith}
use extrio.Evidence.{
  Text, Node, PageEvidence, offset_of, cursor_of, content_kind, read_on, cursor_invalid,
}
use extrio.Evidence.Cursors.{offset_of-cursor_of}
use extrio.Evidence.Reading.{Comes, read_on-ends}

abbrev node : Node
node = record { id = 110 ∷ 48 ∷ []; text = 123 ∷ 49 ∷ 125 ∷ []; children = [] }

abbrev page : PageEvidence
page = record { digest = 97 ∷ []; is_html = false; nodes = node ∷ [] }

another_page : offset_of page node.id content_kind (some (98 ∷ 58 ∷ 48 ∷ [])) 3 ≡ err cursor_invalid
unfolding offset_of
another_page = refl

offset_of-cursor_of_example :
    ((o : ℕ)
      → o < 12
      → (c : Text) × (cursor_of page node.id content_kind o 12 ≡ some c)
        × (offset_of page node.id content_kind (some c) 12 ≡ ok o))
    × ((cursor_of page node.id content_kind 12 12 ≡ none)
        × ((c : Text) (o : ℕ) → offset_of page node.id content_kind (some c) 12 ≡ ok o → o < 12))
offset_of-cursor_of_example = offset_of-cursor_of page node.id content_kind 12 (omega arith)

-- "<b>7</b>" over and over: 130 characters cut its seventeenth repetition after "<b"
abbrev repeated : ℕ → Text
repeated zero = []
repeated (suc n) = 60 ∷ 98 ∷ 62 ∷ 55 ∷ 60 ∷ 47 ∷ 98 ∷ 62 ∷ repeated n

abbrev long_node : Node
long_node = record { id = 110 ∷ 48 ∷ []; text = repeated 33; children = [] }

abbrev html_page : PageEvidence
html_page = record { digest = 97 ∷ []; is_html = true; nodes = long_node ∷ [] }

read_on-ends_example :
    Comes html_page 130 long_node.text (read_on 265 html_page long_node.id none 130) long_node.text
read_on-ends_example =
    read_on-ends html_page long_node.id long_node 130 265 refl (omega arith) (omega arith)
      (omega arith) (omega arith)
