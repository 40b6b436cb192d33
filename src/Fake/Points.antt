-- ===== src/Fake/Points.antt =====
-- `ScrollPoints` and `UpsertPoints`: the points are carried over as they are, page by page.
use qdrant_operator.Common.{
  ℕ, ◌+◌, ◌-◌, leb, ltb, min, Text, Option, none, some, List, [], ◌++◌, length, take, drop,
  if◌then◌else◌, is_empty, codes, format_uint,
}
use qdrant_operator.Common.Dict
use qdrant_operator.Common.Dict.{text_key}
use qdrant_operator.Fake.{Fake}
use qdrant_operator.Fake.Answer.{Answer, done, panic, unless_injected, injected_on}
use qdrant_operator.Fake.Seed.{write_points}

-- What `json.Unmarshal` leaves in an int that was 0: the number, or 0 where the text is none.
pub data Index : Type 0 where
  at : ℕ → Index
  below_zero : ℕ → Index

abbrev pub points_of : Fake → Text → List Text
points_of f name = Dict.lookup_or [] name f.points

-- The page, and the offset of the next one where points are left.
unfoldable pub page_from : List Text → ℕ → ℕ → List Text × Option Text
page_from pts start limit =
    let end = min (start + limit) (length pts) in
    if leb (length pts) start then ([], none) else (
      take (end - start) (drop start pts),
      (if ltb end (length pts) then some (format_uint end) else none),
    )

-- A slice below zero is out of range.
abbrev page_at : List Text → Index → ℕ → Answer (List Text × Option Text)
page_at pts (at start) limit = done (page_from pts start limit)
page_at pts (below_zero n) limit = panic

-- `decode` is `json.Unmarshal` into an int.
unfoldable pub scroll_points :
    (Text → Index) → Fake → Text → Text → ℕ → Answer (List Text × Option Text)
scroll_points decode f name offset limit =
    let start = if is_empty offset then at 0 else decode offset in
    unless_injected (injected_on f (codes "ScrollPoints")) (page_at (points_of f name) start limit)

unfoldable pub upsert_points : Fake → Text → List Text → Answer Fake
upsert_points f name new =
    let pts = points_of f name ++ new in
    unless_injected (injected_on f (codes "UpsertPoints"))
      (done (write_points f name pts (length pts)))
