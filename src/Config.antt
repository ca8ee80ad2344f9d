-- ===== src/Config.antt =====
-- internal/config/config.go: the starting peers of the setting PEERS (parsePeers).
pub mod Printed
pub mod Examples
use jellysync.Common.{
  Str, is_empty, lit, ◌==◌, ◌||◌, ◌&&◌, Bool, true, false, not, Option, none, some, List, [], ◌∷◌,
  ◌++◌, ◌≡◌, refl, ap, ◌∙◌, ℕ, map, arith, if◌then◌else◌, Option-cases, Bool-cases, inl, inr,
}
use jellysync.Common.Bytes.{trim_space, split_commas}

pub record Peer : Type 0 where
  pub id : Str
  pub url : Str

-- strings.Cut with "=": what stands before the first one and after it.
unfoldable pub cut_equals : Str → Option (Str × Str)
cut_equals [] = none
cut_equals (c ∷ s) =
    let rest = cut_equals s in
    if c == b'='
    then some ([], s)
    else elim rest [ none ↦ none | some (id, url) ↦ some (c ∷ id, url) ]

-- One entry; none is the error.
unfoldable pub parse_peer : Str → Option Peer
parse_peer entry = elim (cut_equals entry) [
  | none ↦ none
  | some (id, url) ↦
      if is_empty id || is_empty url then none else some (record { id = id; url = url })
]

-- The loop over the entries.
unfoldable pub parse_entries : List Str → Option (List Peer)
parse_entries [] = some []
parse_entries (raw ∷ rest) =
    let peers = parse_entries rest in
    let entry = trim_space raw in
    if is_empty entry then peers else elim (parse_peer entry) [
      | none ↦ none
      | some p ↦ elim peers [ none ↦ none | some ps ↦ some (p ∷ ps) ]
    ]

unfoldable pub parse_peers : Str → Option (List Peer)
parse_peers raw =
    let s = trim_space raw in if is_empty s then some [] else parse_entries (split_commas [] s)
