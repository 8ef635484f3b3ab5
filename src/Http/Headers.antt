-- ===== src/Http/Headers.antt =====
-- `parser_header`, `to_lower` and `msg_body_size` of src/http/httpmsg.cpp, and the choice of a body
-- in src/http/httpclient.cpp and src/http/http_svc_keeper.cpp. The map of headers is a list of
-- entries with different keys. The folded value that the source puts together is never used, and is
-- left out.
pub mod Closed
pub mod Lines
pub mod Framing
use hcpp.Common.{
  ℕ, zero, suc, ◌+◌, ◌-◌, ◌*◌, Bool, true, false, ◌&&◌, List, [], ◌∷◌, ◌++◌, Option, none, some,
  map, Bytes, length, take, drop, leb, ◌==◌, if◌then◌else◌, equal, find, starts_with, codes,
}

abbrev pub Headers : Type 0
Headers = List (Bytes × Bytes)

-- `h[k] = v`
unfoldable pub assign : Bytes → Bytes → Headers → Headers
assign k v [] = (k, v) ∷ []
assign k v (x ∷ xs) = let later = assign k v xs in if equal k x.0 then (k, v) ∷ xs else x ∷ later

unfoldable pub header : Bytes → Headers → Option Bytes
header k [] = none
header k (x ∷ xs) = let later = header k xs in if equal k x.0 then some x.1 else later

-- `std::tolower` of a byte in the C locale.
unfoldable pub to_lower : Bytes → Bytes
to_lower = map (λ c. if leb b'A' c && leb c b'Z' then c + 32 else c)

abbrev pub colon : Bytes
colon = b':' ∷ b' ' ∷ []

abbrev pub crlf : Bytes
crlf = b'\r' ∷ b'\n' ∷ []

-- What the loop over folded lines leaves: the rest of the text. Removing a byte of an empty text is
-- undefined.
pub data Folded : Type 0 where
  undefined unfinished : Folded
  rest : Bytes → Folded

-- `npos + 2` is 1, so without a line end one byte is removed.
unfoldable pub fold_lines : ℕ → Bytes → Folded
fold_lines zero svl = unfinished
fold_lines (suc fuel) svl = elim (starts_with svl (b' ' ∷ [])) [
  | false ↦ rest svl
  | true ↦ elim (find (drop 1 svl) crlf) [
    | some val_end ↦ fold_lines fuel (drop (val_end + 2) (drop 1 svl))
    | none ↦ elim (drop 1 svl) [ [] ↦ undefined | c ∷ cs ↦ fold_lines fuel cs ]
  ]
]

-- What the parser leaves: its value with the map.
pub data Outcome : Type 0 where
  undefined unfinished : Outcome
  parsed : Bool → Headers → Outcome

unfoldable pub header_lines : ℕ → Bytes → Headers → Outcome
header_lines zero svl h = unfinished
header_lines (suc fuel) [] h = parsed true h
header_lines (suc fuel) (c ∷ cs) h = elim (find (c ∷ cs) colon) [
  | none ↦ parsed false h
  | some name_end ↦ elim (find (drop (name_end + 2) (c ∷ cs)) crlf) [
    | none ↦ parsed false h
    | some val_end ↦
        elim (fold_lines (length cs + 1) (drop (val_end + 2) (drop (name_end + 2) (c ∷ cs)))) [
          | Folded.undefined ↦ undefined
          | Folded.unfinished ↦ unfinished
          | rest svl ↦ header_lines fuel svl (
              assign (to_lower (take name_end (c ∷ cs)))
                (take (name_end + 2 + val_end + 2) (c ∷ cs)) h)
        ]
  ]
]

unfoldable pub parser_header : Bytes → Headers → Outcome
parser_header svl h = header_lines (length svl + 1) svl h

-- `std::regex_search` with `0|[1-9]\d{0,10}`, and `std::stoul` of what matched.
unfoldable pub digit : ℕ → Bool
digit c = leb b'0' c && leb c b'9'

unfoldable pub number : ℕ → ℕ → Bytes → ℕ
number zero n s = n
number (suc k) n [] = n
number (suc k) n (c ∷ cs) =
    let more = number k (n * 10 + (c - b'0')) cs in if digit c then more else n

unfoldable pub search_number : Bytes → Option ℕ
search_number [] = none
search_number (c ∷ cs) =
    let later = search_number cs in
    if c == b'0' then some 0 else if digit c then some (number 10 (c - b'0') cs) else later

unfoldable pub msg_body_size : Headers → Option ℕ
msg_body_size h = elim (header (codes "content-length") h) [
  | none ↦ none
  | some cl ↦ search_number cl
]

-- How a message says that its body ends.
pub data Body : Type 0 where
  chunked no_body : Body
  sized : ℕ → Body

unfoldable pub body_of : Headers → Body
body_of h =
    let by_size : Body = elim (msg_body_size h) [ none ↦ no_body | some n ↦ sized n ] in
    elim (header (codes "transfer-encoding") h) [
      | none ↦ by_size
      | some te ↦ elim (find te (codes "chunked")) [ none ↦ by_size | some i ↦ chunked ]
    ]
