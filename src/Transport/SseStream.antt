-- ===== src/Transport/SseStream.antt =====
-- src/core/sse/stream.ts: blocks of a server-sent event stream, over decoded text. `Number(value)`
-- of a retry field is an argument, as are the reads of the body.
pub mod Blocks
pub mod Chunks
mod Tests
use cavi_api_client.Base.{
  ℕ, zero, suc, ◌+◌, ◌-◌, Bool, true, false, not, ◌&&◌, Option, none, some, List, [], ◌∷◌, ◌++◌,
  map, length, take, drop, if◌then◌else◌, ltb, ◌==◌, Result, ok, err,
}
use cavi_api_client.Base.Number.{Number, is_finite}
use cavi_api_client.Base.Text.{Text, codes, starts_with, index_of, is_empty}

pub record SseMessage : Type 0 where
  pub content : Text
  pub event : Option Text
  pub id : Option Text
  pub retry : Option Number

prepend : ℕ → List Text → List Text
prepend c [] = (c ∷ []) ∷ []
prepend c (l ∷ ls) = (c ∷ l) ∷ ls

-- `text.split("\n")`
split_newlines : Text → List Text
split_newlines [] = [] ∷ []
split_newlines (c ∷ s) =
    let rest = split_newlines s in if c == 10 then [] ∷ rest else prepend c rest

unfoldable pub strip_cr : Text → Text
strip_cr [] = []
strip_cr (c ∷ []) = if c == 13 then [] else c ∷ []
strip_cr (c ∷ d ∷ s) = c ∷ strip_cr (d ∷ s)

-- A line end may be "\r\n"; the text after the last "\n" is no ended line.
strip_ends : List Text → List Text
strip_ends [] = []
strip_ends (l ∷ []) = l ∷ []
strip_ends (l ∷ m ∷ ls) = strip_cr l ∷ strip_ends (m ∷ ls)

-- `block.split(/\r?\n/u)`
unfoldable pub block_lines : Text → List Text
unfolding split_newlines prepend strip_cr strip_ends
block_lines block = strip_ends (split_newlines block)

abbrev strip_space : Text → Text
strip_space [] = []
strip_space (c ∷ s) = if c == 32 then s else c ∷ s

-- The field name and the value of a line.
unfoldable pub line_field : Text → Text × Text
line_field line = elim (index_of (codes ":") line) [
  | none ↦ (line, [])
  | some i ↦ (take i line, strip_space (drop (suc i) line))
]

unfoldable pub same_text : Text → Text → Bool
same_text [] [] = true
same_text (c ∷ s) (d ∷ t) = c == d && same_text s t
same_text _ _ = false

-- What the loop over the lines has read so far; the data lines are in order.
pub record Fields : Type 0 where
  pub data_lines : List Text
  pub event : Option Text
  pub id : Option Text
  pub retry : Option Number

read_retry : Number → Fields → Fields
read_retry n f = if is_finite n then record f { retry = some n } else f

read_field : (Text → Number) → Text × Text → Fields → Fields
unfolding same_text read_retry
read_field to_number (field, value) f =
    if same_text field (codes "data")
    then record f { data_lines = f.data_lines ++ value ∷ [] }
    else if same_text field (codes "event")
    then record f { event = some value }
    else if same_text field (codes "id")
    then record f { id = some value }
    else if same_text field (codes "retry")
    then read_retry (to_number value) f
    else f

read_lines : (Text → Number) → List Text → Fields → Fields
unfolding read_field
read_lines to_number [] f = f
read_lines to_number (line ∷ lines) f = read_lines to_number lines (
    if is_empty line
    then f
    else if starts_with (codes ":") line
    then f
    else read_field to_number (line_field line) f)

-- `dataLines.join("\n")`
join_lines : List Text → Text
join_lines [] = []
join_lines (l ∷ []) = l
join_lines (l ∷ m ∷ ls) = l ++ 10 ∷ join_lines (m ∷ ls)

message_of : Fields → Option SseMessage
unfolding join_lines
message_of f = elim f.data_lines [
  | [] ↦ none
  | l ∷ ls ↦
      some (record { content = join_lines (l ∷ ls); event = f.event; id = f.id; retry = f.retry })
]

abbrev no_fields : Fields
no_fields = record { data_lines = []; event = none; id = none; retry = none }

unfoldable pub parse_sse_block : (Text → Number) → Text → Option SseMessage
unfolding read_lines message_of
parse_sse_block to_number block = message_of (read_lines to_number (block_lines block) no_fields)

abbrev pub lf_boundary : Text
lf_boundary = 10 ∷ 10 ∷ []

abbrev pub crlf_boundary : Text
crlf_boundary = 13 ∷ 10 ∷ 13 ∷ 10 ∷ []

-- The earlier of the two boundaries, with the block before it and the text after it.
pick : Option ℕ → Option ℕ → Text → Option (Text × Text)
pick none none buffer = none
pick none (some j) buffer = some (take j buffer, drop (j + 4) buffer)
pick (some i) none buffer = some (take i buffer, drop (i + 2) buffer)
pick (some i) (some j) buffer =
    if ltb j i
    then some (take j buffer, drop (j + 4) buffer)
    else some (take i buffer, drop (i + 2) buffer)

unfoldable pub take_next_sse_block : Text → Option (Text × Text)
unfolding pick
take_next_sse_block buffer =
    pick (index_of lf_boundary buffer) (index_of crlf_boundary buffer) buffer

abbrev pub emit : Option SseMessage → List SseMessage → List SseMessage
emit none messages = messages
emit (some m) messages = m ∷ messages

-- `drainSseMessages`, with fuel for the blocks: the messages for the handler, and the rest.
unfoldable pub drain_loop : (fuel : ℕ) → (Text → Number) → Text → List SseMessage × Text
drain_loop zero to_number buffer = ([], buffer)
drain_loop (suc fuel) to_number buffer = elim (take_next_sse_block buffer) [
  | none ↦ ([], buffer)
  | some (block, rest) ↦
      let (messages, left) = drain_loop fuel to_number rest in
      (emit (parse_sse_block to_number block) messages, left)
]

-- Every block takes two characters at least, so the length of the buffer is fuel enough.
unfoldable pub drain_sse_messages : (Text → Number) → Text → List SseMessage × Text
drain_sse_messages to_number buffer = drain_loop (length buffer) to_number buffer
