-- ===== src/Evidence/Reading.antt =====
-- Reading from cursor to cursor comes to the end of the text, and misses nothing.
use extrio.Base.{
  ltb, ◌==◌, ltb→lt, Bool-cases, length, drop, Outcome, ok, err, ℕ, zero, suc, ◌+◌, ◌≤◌, ◌<◌, min,
  ◌≡◌, refl, ap, ◌⊎◌, inl, inr, true, Option, none, some, arith,
}
use extrio.Evidence.{
  Text, Node, PageEvidence, EvidenceError, node_of, offset_of, cursor_of, slice, content_kind,
  Fragment, read, read_on, tag_exceeds_read_budget,
}
use extrio.Evidence.Cursors.{offset_of-cursor_of}
use extrio.Evidence.Fragments.{LongTag, fragment_end-cases, slice-append, empty_text, slice_last}

-- Somewhere before the end a tag opens that no fragment of that many characters closes.
abbrev pub HasLongTag : ℕ → Text → Type 0
HasLongTag max_chars text = (o : ℕ) × LongTag o (o + max_chars) text

-- What comes of reading the rest of a node: the rest of its text or, on a page of HTML with such a tag,
-- the error of a tag that fits in no fragment.
abbrev pub Comes : PageEvidence → ℕ → Text → Option (Outcome EvidenceError Text) → Text → Type 0
Comes page max_chars text result rest =
    (result ≡ some (ok rest))
    ⊎ ((page.is_html ≡ true)
        × HasLongTag max_chars text
        × (result ≡ some (err tag_exceeds_read_budget)))

module _ (page : PageEvidence) (id : Text) (node : Node) (max_chars : ℕ) where
  abbrev total : ℕ
  total = length node.text

  abbrev fragment : ℕ → ℕ → Fragment
  fragment offset stop = record {
    start = offset;
    end = stop;
    content = slice offset stop node.text;
    complete = stop == total;
    next_cursor = cursor_of page id content_kind stop total;
  }

  -- one call of `read`, at a position before the end
  read_at :
      (cursor : Option Text) (o : ℕ)
      → node_of page id ≡ ok node
      → 128 ≤ max_chars
      → max_chars ≤ 12000
      → offset_of page id content_kind cursor total ≡ ok o
      → o < total
      → ((e : ℕ) × (read page id cursor max_chars ≡ ok (fragment o e)) × ((o < e) × (e ≤ total)))
        ⊎ ((page.is_html ≡ true)
            × HasLongTag max_chars node.text
            × (read page id cursor max_chars ≡ err tag_exceeds_read_budget))
  unfolding read
  read_at cursor o found small large at lt =
      let stop = min total (o + max_chars) in
      elim (fragment_end-cases page.is_html o stop node.text (omega (arith, lt, small))
        (omega arith)) [
          | inl (e, h, bounds) ↦ inl (e, ground (arith, found, small, large, at, h), bounds)
          | inr (html, long, h) ↦
              let far : stop ≡ o + max_chars = ground (arith, long.0) in
              let long_tag : LongTag o (o + max_chars) node.text = rw far at long in
              inr (html, (o, long_tag), ground (arith, found, small, large, at, h))
        ]

  read_on-Comes :
      (fuel : ℕ) (cursor : Option Text) (o : ℕ)
      → node_of page id ≡ ok node
      → 128 ≤ max_chars
      → max_chars ≤ 12000
      → total ≤ 1000000000
      → offset_of page id content_kind cursor total ≡ ok o
      → o < total
      → total < o + fuel
      → Comes page max_chars node.text (read_on fuel page id cursor max_chars) (drop o node.text)
  unfolding read_on
  read_on-Comes zero cursor o found small large bound at lt enough =
      absurd (omega (arith, lt, enough))
  read_on-Comes (suc fuel) cursor o found small large bound at lt enough =
      elim (read_at cursor o found small large at lt) [
        | inr (html, tag, h) ↦ inr (html, tag, rw (h, read_on))
        | inl (e, h, (moved, inside)) ↦
            let trip = offset_of-cursor_of page id content_kind total bound in
            let joined = slice-append o e node.text (omega (arith, moved)) in
            elim (Bool-cases (ltb e total)) [
              | inl y ↦
                  let (c, made, leads) = trip.0 e (ltb→lt e total y) in
                  elim (read_on-Comes fuel (some c) e found small large bound leads
                    (ltb→lt e total y) (omega (arith, moved, enough))) [
                      | inl r ↦ inl (rw (h, read_on, made, r) (ap (λ t. some (ok t)) joined))
                      | inr (html, tag, r) ↦ inr (html, tag, rw (h, read_on, made, r))
                    ]
              | inr n ↦
                  let last : e ≡ total = ground (arith, n, inside) in
                  let over : cursor_of page id content_kind e total ≡ none = rw last (trip.1.0) in
                  inl (
                    rw (h, read_on, over)
                      (ap (λ t. some (ok t)) (slice_last o e node.text last joined)))
            ]
      ]

  read_empty :
      node_of page id ≡ ok node
      → 128 ≤ max_chars
      → max_chars ≤ 12000
      → total ≡ 0
      → read page id none max_chars ≡ ok (fragment 0 0)
  unfolding read offset_of
  read_empty found small large nothing = ground (arith, found, small, large, nothing)

  cursor_none : cursor_of page id content_kind 0 0 ≡ none
  unfolding cursor_of
  cursor_none = refl

  -- Read from the beginning, fragment by fragment, a node of at most a thousand million characters
  -- comes to an end: with as many reads as the text has characters, and one more, the fragments put
  -- together are the text. The one other outcome is the error of a tag that exceeds the budget, and it
  -- comes only where the page is HTML and from some position on the text begins with an opening
  -- bracket, no closing one follows within a fragment's size, and the text goes on. This holds for
  -- every fragment size that is allowed.
  pub read_on-ends :
      (fuel : ℕ)
      → node_of page id ≡ ok node
      → 128 ≤ max_chars
      → max_chars ≤ 12000
      → total ≤ 1000000000
      → total < fuel
      → Comes page max_chars node.text (read_on fuel page id none max_chars) node.text
  unfolding read_on offset_of
  read_on-ends zero found small large bound enough = absurd (omega (arith, enough))
  read_on-ends (suc fuel) found small large bound enough = elim (Bool-cases (ltb 0 total)) [
    | inl y ↦
        read_on-Comes (suc fuel) none 0 found small large bound refl (ltb→lt 0 total y)
          (omega (arith, enough))
    | inr n ↦
        let nothing : total ≡ 0 = ground (arith, n) in
        let over : cursor_of page id content_kind 0 total ≡ none = rw nothing cursor_none in
        inl (
          rw (read_empty found small large nothing, read_on, over)
            (rw (empty_text node.text nothing)))
  ]
