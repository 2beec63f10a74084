-- ===== src/Telnet/Pager.antt =====
-- telnet/pager.go: long output in pages, with a prompt between them. Lower-casing and trimming of an
-- input line is a parameter. The mode stack of the session is the flag `popped`.
pub mod Pages
mod Tests
use wheel_mud.Base.{
  ℕ, zero, suc, ◌+◌, ◌-◌, Bool, true, false, not, ◌&&◌, ◌||◌, Option, none, some, List, [], ◌∷◌,
  ◌++◌, length, take, drop, ltb, ◌==◌, if◌then◌else◌,
}
use wheel_mud.Base.Text.{Bytes, codes, same}

pub record Pager : Type 0 where
  pub remaining : List Bytes
  pub page_size : ℕ

-- A height below 1 gives the same page as a height of 1.
unfoldable pub new_pager_mode : List Bytes → (height : ℕ) → Pager
new_pager_mode remaining height =
    let page = height - 1 in
    record { remaining = remaining; page_size = if ltb page 1 then 1 else page }

-- `strings.Join` with nothing between.
abbrev pub join : List Bytes → Bytes
join [] = []
join (s ∷ ss) = s ++ join ss

abbrev pub is_empty : List Bytes → Bool
is_empty [] = true
is_empty (s ∷ ss) = false

-- What a call leaves: the pager, the bytes that reach the player, and whether the mode is popped or
-- the write has failed.
pub record Turn : Type 0 where
  pub pager : Pager
  pub written : Bytes
  pub popped : Bool
  pub failed : Bool

-- The lines of the next page; Go's `n` is the smaller of the page size and the lines that remain.
unfoldable pub next_page : Pager → List Bytes
next_page p = take p.page_size p.remaining

unfoldable pub behind_page : Pager → Pager
behind_page p = record p { remaining = drop p.page_size p.remaining }

-- `writeNextPage` and what `Handle` makes of its results; `writes` says whether the write works.
unfoldable pub turn_page : (writes : Bool) → Pager → Turn
turn_page writes p =
    let p' = behind_page p in
    let over = is_empty p'.remaining in
    if is_empty (next_page p)
    then record { pager = p'; written = []; popped = over; failed = false }
    else if writes
    then record { pager = p'; written = join (next_page p); popped = over; failed = false }
    else record { pager = p'; written = []; popped = false; failed = true }

unfoldable pub handle : (word : Bytes → Bytes) → (writes : Bool) → Pager → (line : Bytes) → Turn
handle word writes p line =
    if same (word line) (codes "q") || same (word line) (codes "quit")
    then record { pager = p; written = []; popped = true; failed = false }
    else turn_page writes p

-- The first page is written without a look at what remains.
unfoldable pub on_enter : (writes : Bool) → Pager → Turn
on_enter writes p = record (turn_page writes p) { popped = false }

unfoldable pub prompt : Pager → Bytes
prompt p = if is_empty p.remaining then [] else codes "-- More -- (space=next, q=quit) "

abbrev after_byte : Option ℕ → Option ℕ
after_byte none = none
after_byte (some i) = some (suc i)

-- `bytes.Index(body, "\r\n")`.
unfoldable pub index_crlf : Bytes → Option ℕ
index_crlf [] = none
index_crlf (c ∷ []) = none
index_crlf (c ∷ d ∷ body) =
    let rest = after_byte (index_crlf (d ∷ body)) in if c == 13 && d == 10 then some 0 else rest

abbrev pub cut_line : Bytes → Option ℕ → (Bytes → List Bytes) → List Bytes
cut_line body none more = body ∷ []
cut_line body (some i) more = take (i + 2) body ∷ more (drop (i + 2) body)

-- The loop of `splitCRLFLines`, for `fuel` lines at most.
unfoldable pub split_lines : (fuel : ℕ) → Bytes → List Bytes
split_lines zero body = []
split_lines (suc fuel) [] = []
split_lines (suc fuel) (c ∷ body) = cut_line (c ∷ body) (index_crlf (c ∷ body)) (split_lines fuel)

-- A line has one byte at least.
unfoldable pub split_crlf_lines : Bytes → List Bytes
split_crlf_lines body = split_lines (length body) body
