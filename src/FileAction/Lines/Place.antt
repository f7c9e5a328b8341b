-- ===== src/FileAction/Lines/Place.antt =====
-- `resolve_line_insertions`: what stands at each boundary after the placing and the sort.
use remote_executor.Base.{
  ℕ, zero, suc, ◌+◌, ◌≤◌, ◌<◌, ◌≡◌, refl, sym, ap, ◌∙◌, Bool, true, false, inl, inr, Option, none,
  some, List, [], ◌∷◌, ◌++◌, append-nil, append_assoc, arith, ==_iff, le→leb, ◌==◌, if◌then◌else◌,
  length, length-set, length-replicate, set, get_elem?, replicate, All, Bool-cases,
}
use remote_executor.Base.Outcome.{or_panic, Ends, Ends-bind, Ends-map}
use remote_executor.Base.Sort.{stable_sort, IsSorted, stable_sort-eq_of_sorted}
use remote_executor.Text.{Text}
use remote_executor.FileAction.Types.{
  LinePatchOp, delete, move, append, replace, PendingLineInsertionKind, PendingLineInsertion,
  LineInsertion,
}
use remote_executor.FileAction.Lines.{
  nth, range_len, line_text, range_text, pending_lines, place_insertions, order_le, sort_each,
  resolve_line_insertions,
}
use remote_executor.FileAction.Lines.Snapshot.{texts, text_or, boundary_of, blocks}
use remote_executor.FileAction.Lines.Marks.{nth-Ends, get_elem?-Ends, get_elem?-set}
use remote_executor.FileAction.Lines.Ops.{replaced, pendings, HasLines, IsPlaced}

-- the text of a line by the replacement array
abbrev pub text_in : List Text → List (Option Text) → ℕ → Text
text_in lines replacements line = text_or (replaced replacements line) (text_or (nth lines line) [])

abbrev pub kind_lines : (ℕ → Text) → PendingLineInsertionKind → List Text
kind_lines f (PendingLineInsertionKind.literal block) = block
kind_lines f (PendingLineInsertionKind.move start end) = texts f start (range_len start end)

-- the insertions of one boundary, in the order of the list
abbrev pub items_of : (ℕ → Text) → List PendingLineInsertion → ℕ → List LineInsertion
items_of f [] boundary = []
items_of f (p ∷ pending) boundary =
    (if p.boundary == boundary
      then record { order = p.order; lines = kind_lines f p.kind } ∷ []
      else [])
    ++ items_of f pending boundary

module _ (lines : List Text) (replacements : List (Option Text))
    (sized : length replacements ≡ length lines) where
  pub line_text-Ends :
      (line : ℕ)
      → 1 ≤ line
      → line ≤ length lines
      → Ends (λ t. t ≡ text_in lines replacements line) (line_text lines replacements line)
  unfolding line_text
  line_text-Ends line low high =
      Ends-bind (λ a. nth replacements line ≡ some a) _ (or_panic (nth replacements line)) _
        (nth-Ends replacements line low (omega (arith, sized)))
        (elim [
          | some text ↦ λ e found. ground arith
          | none ↦ λ e found.
              Ends-map (λ a. nth lines line ≡ some a) _ (or_panic (nth lines line))
                (λ t there. ground arith) (nth-Ends lines line low high)
        ])

  range_text-Ends :
      (line rounds : ℕ)
      → 1 ≤ line
      → line + rounds ≤ length lines + 1
      → Ends
          (λ ts. ts ≡ texts (text_in lines replacements) line rounds)
          (range_text lines replacements line rounds)
  unfolding range_text
  range_text-Ends line zero low high = refl
  range_text-Ends line (suc rounds) low high =
      Ends-bind (λ t. t ≡ text_in lines replacements line) _ (line_text lines replacements line) _
        (line_text-Ends line low (omega arith))
        (λ t e h.
          Ends-bind (λ ts. ts ≡ texts (text_in lines replacements) (suc line) rounds) _
            (range_text lines replacements (suc line) rounds) _
            (range_text-Ends (suc line) rounds (omega arith) (omega arith)) (λ ts e' h'. cc))

  pending_lines-Ends :
      (kind : PendingLineInsertionKind)
      → HasLines (length lines) kind
      → Ends
          (λ ts. ts ≡ kind_lines (text_in lines replacements) kind)
          (pending_lines lines replacements kind)
  unfolding pending_lines
  pending_lines-Ends (PendingLineInsertionKind.literal block) h = refl
  pending_lines-Ends (PendingLineInsertionKind.move start end) (low, ordered, high) =
      range_text-Ends start (range_len start end) low (omega arith)

  -- Each boundary holds what it held and its own insertions behind that.
  abbrev IsFilled :
      List PendingLineInsertion → List (List LineInsertion) → List (List LineInsertion) → Type 0
  IsFilled pending before after =
      (length after ≡ length before)
      × ((b : ℕ) (old : List LineInsertion)
          → get_elem? before b ≡ some old
          → get_elem? after b ≡ some (old ++ items_of (text_in lines replacements) pending b))

  filled-cons :
      (p : PendingLineInsertion) (pending : List PendingLineInsertion)
      (insertions after : List (List LineInsertion)) (here : List LineInsertion) (block : List Text)
      (b : ℕ) (old : List LineInsertion)
      → p.boundary < length insertions
      → block ≡ kind_lines (text_in lines replacements) p.kind
      → get_elem? insertions p.boundary ≡ some here
      → ((b' : ℕ) (old' : List LineInsertion)
          → get_elem?
              (set insertions p.boundary (here ++ (record { order = p.order; lines = block } ∷ [])))
              b'
            ≡ some old'
          → get_elem? after b' ≡ some (old' ++ items_of (text_in lines replacements) pending b'))
      → get_elem? insertions b ≡ some old
      → get_elem? after b ≡ some (old ++ items_of (text_in lines replacements) (p ∷ pending) b)
  filled-cons p pending insertions after here block b old fits same found entry there =
      let item : LineInsertion = record { order = p.order; lines = block } in
      let written = get_elem?-set insertions p.boundary b (here ++ (item ∷ [])) fits in
      elim (Bool-cases (p.boundary == b)) [
        | inl hit ↦
            let at : p.boundary ≡ b = (==_iff p.boundary b).0 hit in
            let own : here ≡ old = cc (ap (get_elem? insertions) at) in
            rw hit
              (entry b (here ++ (item ∷ [])) (written ∙ rw hit refl) ∙ rw (append_assoc, own, same))
        | inr miss ↦ rw miss (entry b old (written ∙ rw miss there))
      ]

  place_insertions-Ends :
      (pending : List PendingLineInsertion) (insertions : List (List LineInsertion))
      → length insertions ≡ length lines + 1
      → All (IsPlaced (length lines)) pending
      → Ends (IsFilled pending insertions) (place_insertions lines replacements pending insertions)
  unfolding place_insertions
  place_insertions-Ends [] insertions size h = (refl, λ b old e. e ∙ ap some (sym (append-nil old)))
  place_insertions-Ends (p ∷ pending) insertions size ((room, has), h) =
      Ends-bind (λ ts. ts ≡ kind_lines (text_in lines replacements) p.kind) _
        (pending_lines lines replacements p.kind) _ (pending_lines-Ends p.kind has)
        (λ block e same.
          Ends-bind (λ a. get_elem? insertions p.boundary ≡ some a) _
            (or_panic (get_elem? insertions p.boundary)) _
            (get_elem?-Ends insertions p.boundary (omega arith))
            (λ here e' found.
              let item : LineInsertion = record { order = p.order; lines = block } in
              let updated = set insertions p.boundary (here ++ (item ∷ [])) in
              Ends-map (IsFilled pending updated) _
                (place_insertions lines replacements pending updated)
                (λ after (size', entry). (
                  size' ∙ length-set insertions p.boundary (here ++ (item ∷ [])),
                  λ b old there.
                      filled-cons p pending insertions after here block b old (omega arith) same
                        found entry there,
                ))
                (place_insertions-Ends pending updated
                  (length-set insertions p.boundary (here ++ (item ∷ [])) ∙ size) h)))

-- The orders of the insertions of one boundary go up.
abbrev AreAfter : ℕ → List LineInsertion → Type 0
AreAfter order = All (λ i. order ≤ i.order)

AreAfter-le : (items : List LineInsertion) {m n : ℕ} → m ≤ n → AreAfter n items → AreAfter m items
AreAfter-le [] h a = tt
AreAfter-le (i ∷ items) h (o, a) = (omega arith, AreAfter-le items h a)

AreAfter-order_le :
    (items : List LineInsertion) (item : LineInsertion)
    → AreAfter item.order items
    → All (λ i. order_le item i ≡ true) items
AreAfter-order_le [] item a = tt
AreAfter-order_le (i ∷ items) item (o, a) =
    (le→leb item.order i.order o, AreAfter-order_le items item a)

-- One more insertion, or none, in front of those of later instructions.
items-cons :
    (b : Bool) (item : LineInsertion) (items : List LineInsertion)
    → AreAfter (suc item.order) items
    → IsSorted order_le items
    → AreAfter item.order ((if b then item ∷ [] else []) ++ items)
      × IsSorted order_le ((if b then item ∷ [] else []) ++ items)
items-cons true item items a s =
    let a' = AreAfter-le items {m = item.order} (omega arith) a in
    ((omega arith, a'), (AreAfter-order_le items item a', s))
items-cons false item items a s = (AreAfter-le items (omega arith) a, s)

abbrev pub concat_items : List LineInsertion → List Text
concat_items [] = []
concat_items (i ∷ items) = i.lines ++ concat_items items

module _ (count : ℕ) (f : ℕ → Text) (boundary : ℕ) where
  items_of-pendings :
      (ops : List LinePatchOp) (order : ℕ)
      → AreAfter order (items_of f (pendings count order ops) boundary)
        × IsSorted order_le (items_of f (pendings count order ops) boundary)
  items_of-pendings [] order = (tt, tt)
  items_of-pendings (delete start end ∷ ops) order =
      let (a, s) = items_of-pendings ops (suc order) in (AreAfter-le _ (omega arith) a, s)
  items_of-pendings (replace line text ∷ ops) order =
      let (a, s) = items_of-pendings ops (suc order) in (AreAfter-le _ (omega arith) a, s)
  items_of-pendings (append target block ∷ ops) order =
      let (a, s) = items_of-pendings ops (suc order) in
      items-cons (boundary_of count target == boundary) (record { order = order; lines = block }) _
        a s
  items_of-pendings (move start end target ∷ ops) order =
      let (a, s) = items_of-pendings ops (suc order) in
      items-cons (boundary_of count target == boundary)
        (record { order = order; lines = texts f start (range_len start end) }) _ a s

  -- The lines of a boundary are what the snapshot's reading puts there.
  pub concat_items-pendings :
      (ops : List LinePatchOp) (order : ℕ)
      → concat_items (items_of f (pendings count order ops) boundary) ≡ blocks count f ops boundary
  concat_items-pendings [] order = refl
  concat_items-pendings (delete start end ∷ ops) order = concat_items-pendings ops (suc order)
  concat_items-pendings (replace line text ∷ ops) order = concat_items-pendings ops (suc order)
  concat_items-pendings (append target block ∷ ops) order =
      elim (Bool-cases (boundary_of count target == boundary)) [
        | inl hit ↦ rw (hit, concat_items-pendings ops (suc order))
        | inr miss ↦ rw (miss, concat_items-pendings ops (suc order))
      ]
  concat_items-pendings (move start end target ∷ ops) order =
      elim (Bool-cases (boundary_of count target == boundary)) [
        | inl hit ↦ rw (hit, concat_items-pendings ops (suc order))
        | inr miss ↦ rw (miss, concat_items-pendings ops (suc order))
      ]

length-sort_each : (xs : List (List LineInsertion)) → length (sort_each xs) ≡ length xs
length-sort_each [] = refl
length-sort_each (x ∷ xs) = ap suc (length-sort_each xs)

get_elem?-sort_each :
    (xs : List (List LineInsertion)) (b : ℕ) (l : List LineInsertion)
    → get_elem? xs b ≡ some l
    → get_elem? (sort_each xs) b ≡ some (stable_sort order_le l)
get_elem?-sort_each [] b l e = cc
get_elem?-sort_each (x ∷ xs) zero l e =
    let same : x ≡ l = cc in ap (λ o. some (stable_sort order_le o)) same
get_elem?-sort_each (x ∷ xs) (suc b) l e = get_elem?-sort_each xs b l e

get_elem?-replicate :
    (n b : ℕ) → b < n → get_elem? (replicate {A = List LineInsertion} n []) b ≡ some []
get_elem?-replicate zero b h = absurd (omega arith)
get_elem?-replicate (suc n) zero h = refl
get_elem?-replicate (suc n) (suc b) h = get_elem?-replicate n b (omega arith)

-- `resolve_line_insertions` does not panic, and the sort by order changes nothing: each boundary
-- holds its insertions in the order of the instructions.
pub resolve_line_insertions-Ends :
    (lines : List Text) (replacements : List (Option Text)) (ops : List LinePatchOp)
    → length replacements ≡ length lines
    → All (IsPlaced (length lines)) (pendings (length lines) 0 ops)
    → Ends
        (λ insertions.
          (length insertions ≡ length lines + 1)
          × ((b : ℕ)
              → b ≤ length lines
              → get_elem? insertions b
                ≡ some (items_of (text_in lines replacements) (pendings (length lines) 0 ops) b)))
        (resolve_line_insertions lines replacements (pendings (length lines) 0 ops))
unfolding resolve_line_insertions
resolve_line_insertions-Ends lines replacements ops sized placed =
    let count = length lines in
    let pending = pendings count 0 ops in
    Ends-bind (IsFilled lines replacements sized pending (replicate (count + 1) [])) _
      (place_insertions lines replacements pending (replicate (count + 1) [])) _
      (place_insertions-Ends lines replacements sized pending (replicate (count + 1) [])
        (length-replicate (count + 1) []) placed)
      (λ filled e (size, entry). (
        length-sort_each filled ∙ size ∙ length-replicate (count + 1) [],
        λ b h.
            let f = text_in lines replacements in
            get_elem?-sort_each filled b (items_of f pending b)
              (entry b [] (get_elem?-replicate (count + 1) b (omega arith)))
            ∙ ap some (
                stable_sort-eq_of_sorted order_le (items_of f pending b)
                  (items_of-pendings count f b ops 0).1),
      ))
