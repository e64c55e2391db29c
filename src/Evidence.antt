-- ===== src/Evidence.antt =====
-- backend/src/extrio/page_evidence.py: reading a page in fragments, from cursor to cursor. Texts are
-- lists of code points. A page holds the text that each of its nodes is serialized to; that text, the
-- nodes' descriptions and the digest are made by libraries and are data here. A fragment leaves out
-- the ancestors and the table rows that are shown beside the content.
use extrio.Base.{
  ◌>>=◌, ◌>>◌, ltb, leb, ◌==◌, if◌then◌else◌, or_else, length, take, drop, all, Outcome, raise_if,
  ok, err, ℕ, zero, suc, ◌+◌, ◌-◌, ◌*◌, min, Bool, true, false, not, ◌&&◌, Option, none, some, List,
  [], ◌∷◌, ◌++◌,
}
mod Decimal
mod Cursors
mod Fragments
mod Reading
mod Examples
pub use Decimal.*

pub record Node : Type 0 where
  pub id : Text
  pub text : Text
  pub children : List Text

pub record PageEvidence : Type 0 where
  pub digest : Text  -- digest[7:23]
  pub is_html : Bool
  pub nodes : List Node

pub data EvidenceError : Type 0 where
  node_not_found cursor_invalid limit_invalid tag_exceeds_read_budget : EvidenceError

abbrev pub same_text : Text → Text → Bool
same_text [] [] = true
same_text [] (d ∷ ds) = false
same_text (c ∷ cs) [] = false
same_text (c ∷ cs) (d ∷ ds) = (c == d) && same_text cs ds

abbrev pub find_node : Text → List Node → Option Node
find_node id [] = none
find_node id (n ∷ ns) = if same_text n.id id then some n else find_node id ns

-- `_node`
abbrev pub node_of : PageEvidence → Text → Outcome EvidenceError Node
node_of page id = elim (find_node id page.nodes) as (λ _. Outcome EvidenceError Node) [
  | none ↦ err node_not_found
  | some n ↦ ok n
]

-- f"{digest}:{node_id}:{kind}:"
abbrev pub cursor_prefix : PageEvidence → Text → Text → Text
cursor_prefix page node_id kind = page.digest ++ 58 ∷ (node_id ++ 58 ∷ (kind ++ 58 ∷ []))

-- the text after a prefix
abbrev pub after_prefix : Text → Text → Option Text
after_prefix [] cs = some cs
after_prefix (p ∷ ps) [] = none
after_prefix (p ∷ ps) (c ∷ cs) = if p == c then after_prefix ps cs else none

-- isascii, isdecimal and at most nine characters
abbrev pub is_decimal : Text → Bool
is_decimal cs = ltb 0 (length cs) && all is_digit cs && leb (length cs) 9

unfoldable pub offset_of : PageEvidence → Text → Text → Option Text → ℕ → Outcome EvidenceError ℕ
offset_of page node_id kind none total = ok 0
offset_of page node_id kind (some cursor) total =
    elim (after_prefix (cursor_prefix page node_id kind) cursor) as (λ _. Outcome EvidenceError ℕ) [
      | none ↦ err cursor_invalid
      | some offset ↦
          if is_decimal offset && ltb (parse_from 0 offset) total
          then ok (parse_from 0 offset)
          else err cursor_invalid
    ]

unfoldable pub cursor_of : PageEvidence → Text → Text → ℕ → ℕ → Option Text
cursor_of page node_id kind offset total =
    if ltb offset total then some (cursor_prefix page node_id kind ++ show offset) else none

-- text[start:end]
abbrev pub slice {ℓ} : {A : Type ℓ} → ℕ → ℕ → List A → List A
slice start stop xs = take (stop - start) (drop start xs)

pub record Expansion : Type 0 where
  pub start : ℕ
  pub end : ℕ
  pub nodes : List Text
  pub complete : Bool
  pub next_cursor : Option Text

abbrev children_kind : Text
children_kind = 99 ∷ 104 ∷ 105 ∷ 108 ∷ 100 ∷ 114 ∷ 101 ∷ 110 ∷ []

abbrev pub content_kind : Text
content_kind = 99 ∷ 111 ∷ 110 ∷ 116 ∷ 101 ∷ 110 ∷ 116 ∷ []

-- the children of a node, of which a description is left out
unfoldable pub expand : PageEvidence → Text → Option Text → ℕ → Outcome EvidenceError Expansion
expand page node_id cursor limit = do
  node ← node_of page node_id
  raise_if (not (leb 1 limit && leb limit 32)) limit_invalid
  offset ← offset_of page node_id children_kind cursor (length node.children)
  let stop = min (length node.children) (offset + limit)
  ok (record {
    start = offset;
    end = stop;
    nodes = slice offset stop node.children;
    complete = stop == length node.children;
    next_cursor = cursor_of page node_id children_kind stop (length node.children);
  })

-- text.rfind(character, n, ...) on the text from position n on
abbrev pub last_index : ℕ → ℕ → Text → Option ℕ
last_index c n [] = none
last_index c n (x ∷ xs) =
    let rest = last_index c (suc n) xs in
    elim rest as (λ _. Option ℕ) [ some i ↦ some i | none ↦ if x == c then some n else none ]

-- opening > closing, where a position that is not found is -1
abbrev pub is_after : Option ℕ → Option ℕ → Bool
is_after none b = false
is_after (some a) none = true
is_after (some a) (some b) = ltb b a

-- A fragment of HTML ends before a tag that it would cut.
unfoldable pub whole_tags : ℕ → ℕ → Text → Outcome EvidenceError ℕ
whole_tags offset stop text =
    let opening = last_index 60 offset (slice offset stop text) in
    let closing = last_index 62 offset (slice offset stop text) in
    if is_after opening closing
    then if or_else opening 0 == offset then err tag_exceeds_read_budget else ok (or_else opening 0)
    else ok stop

abbrev pub fragment_end : Bool → ℕ → ℕ → Text → Outcome EvidenceError ℕ
fragment_end is_html offset stop text =
    if is_html && ltb stop (length text) then whole_tags offset stop text else ok stop

pub record Fragment : Type 0 where
  pub start : ℕ
  pub end : ℕ
  pub content : Text
  pub complete : Bool
  pub next_cursor : Option Text

unfoldable pub read : PageEvidence → Text → Option Text → ℕ → Outcome EvidenceError Fragment
read page node_id cursor max_chars = do
  node ← node_of page node_id
  raise_if (not (leb 128 max_chars && leb max_chars 12000)) limit_invalid
  offset ← offset_of page node_id content_kind cursor (length node.text)
  stop ← fragment_end page.is_html offset (min (length node.text) (offset + max_chars)) node.text
  ok (record {
    start = offset;
    end = stop;
    content = slice offset stop node.text;
    complete = stop == length node.text;
    next_cursor = cursor_of page node_id content_kind stop (length node.text);
  })

-- A node read from a cursor on, by following each fragment's cursor; `none` where the fuel is used up.
unfoldable pub read_on :
    ℕ → PageEvidence → Text → Option Text → ℕ → Option (Outcome EvidenceError Text)
read_on zero page node_id cursor max_chars = none
read_on (suc fuel) page node_id cursor max_chars =
    elim (read page node_id cursor max_chars) as (λ _. Option (Outcome EvidenceError Text)) [
      | err e ↦ some (err e)
      | ok f ↦ elim f.next_cursor as (λ _. Option (Outcome EvidenceError Text)) [
        | none ↦ some (ok f.content)
        | some next ↦
            elim (read_on fuel page node_id (some next) max_chars)
              as (λ _. Option (Outcome EvidenceError Text)) [
                | none ↦ none
                | some (err e) ↦ some (err e)
                | some (ok rest) ↦ some (ok (f.content ++ rest))
              ]
      ]
    ]
