-- ===== src/Evidence/Cursors.antt =====
-- A cursor leads back to the position that it was made for.
use extrio.Base.{
  ltb, ==_refl, Bool-cases, Option-cases, ok, ℕ, ◌≤◌, ◌<◌, ◌≡◌, refl, inl, inr, ◌&&◌, none, some,
  [], ◌∷◌, ◌++◌, arith,
}
use extrio.Evidence.{
  Text, show, parse_from, parse-show, show_digits, show_short, show_some, PageEvidence,
  cursor_prefix, after_prefix, is_decimal, offset_of, cursor_of,
}

after_prefix-append : (ps cs : Text) → after_prefix ps (ps ++ cs) ≡ some cs
after_prefix-append [] cs = refl
after_prefix-append (p ∷ ps) cs = ground (arith, after_prefix-append ps cs, ==_refl p)

-- For a position inside a text of at most a thousand million characters there is a cursor, and the
-- position is read back from it; at the end of a text there is none. Any text that is accepted as a
-- cursor, whoever wrote it, leads to a position inside the text.
pub offset_of-cursor_of :
    (page : PageEvidence) (id kind : Text) (total : ℕ)
    → total ≤ 1000000000
    → ((o : ℕ)
        → o < total
        → (c : Text) × (cursor_of page id kind o total ≡ some c)
          × (offset_of page id kind (some c) total ≡ ok o))
      × ((cursor_of page id kind total total ≡ none)
          × ((c : Text) (o : ℕ) → offset_of page id kind (some c) total ≡ ok o → o < total))
unfolding cursor_of offset_of
offset_of-cursor_of page id kind total h = (
  λ o lt.
      let prefix = cursor_prefix page id kind in
      let found = after_prefix-append prefix (show o) in
      let short = show_short o (omega (arith, lt, h)) in
      let back = parse-show o in
      (
        prefix ++ show o,
        ground (arith, lt),
        ground (arith, lt, found, short, back, show_digits o, show_some o),
      ),
  (
    ground arith,
    λ c o e. elim (Option-cases (after_prefix (cursor_prefix page id kind) c)) [
      | inl n ↦ absurd (ground (arith, e, n))
      | inr (offset, f) ↦ inside c offset o e f
    ],
  ),
)
  where
    inside :
        (c offset : Text) (o : ℕ)
        → offset_of page id kind (some c) total ≡ ok o
        → after_prefix (cursor_prefix page id kind) c ≡ some offset
        → o < total
    inside c offset o e f =
        elim (Bool-cases (is_decimal offset && ltb (parse_from 0 offset) total)) [
          | inl y ↦
              let read_as : parse_from 0 offset ≡ o = ground (arith, e, f, y) in
              ground (arith, y, read_as)
          | inr n ↦ absurd (ground (arith, e, f, n))
        ]
