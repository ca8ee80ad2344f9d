-- ===== src/Config/Printed.antt =====
-- config.go parsePeers, on a list of peers that was printed.
use jellysync.Common.{
  Str, is_empty, ◌==◌, ◌||◌, Bool, false, some, List, [], ◌∷◌, ◌++◌, ◌≡◌, refl, ap, ◌∙◌, ℕ, map,
  arith,
}
use jellysync.Common.Bytes.{trim_space, split_commas}
use jellysync.Config.{Peer, cut_equals, parse_peer, parse_entries, parse_peers}

unfoldable pub has_byte : ℕ → Str → Bool
has_byte b [] = false
has_byte b (c ∷ s) = c == b || has_byte b s

-- What PEERS says of a peer.
abbrev pub entry_text : Peer → Str
entry_text p = p.id ++ b'=' ∷ p.url

unfoldable pub entries_text : List Peer → Str
entries_text [] = []
entries_text (p ∷ []) = entry_text p
entries_text (p ∷ q ∷ ps) = entry_text p ++ b',' ∷ entries_text (q ∷ ps)

-- A peer that PEERS can name.
pub record IsPlain (p : Peer) : Type 0 where
  pub has_id : is_empty p.id ≡ false
  pub has_url : is_empty p.url ≡ false
  pub no_equals : has_byte b'=' p.id ≡ false
  pub no_comma : has_byte b',' (entry_text p) ≡ false
  pub no_space : trim_space (entry_text p) ≡ entry_text p

abbrev pub AllPlain : List Peer → Type 0
AllPlain [] = Unit {0}
AllPlain (p ∷ ps) = IsPlain p × AllPlain ps

cut_equals-entry :
    (id url : Str) → has_byte b'=' id ≡ false → cut_equals (id ++ b'=' ∷ url) ≡ some (id, url)
unfolding cut_equals has_byte
cut_equals-entry [] url h = refl
cut_equals-entry (c ∷ id) url h =
    let ih = cut_equals-entry id url (ground arith) in ground (arith, h)

parse_peer-entry_text : (p : Peer) → IsPlain p → parse_peer (entry_text p) ≡ some p
unfolding parse_peer
parse_peer-entry_text p h =
    ground (arith, cut_equals-entry p.id p.url h.no_equals, h.has_id, h.has_url)

append_snoc : (s t : Str) (c : ℕ) → (s ++ c ∷ []) ++ t ≡ s ++ c ∷ t
append_snoc [] t c = refl
append_snoc (d ∷ s) t c = ap (λ u. d ∷ u) (append_snoc s t c)

append_nil : (s : Str) → s ++ [] ≡ s
append_nil [] = refl
append_nil (d ∷ s) = ap (λ u. d ∷ u) (append_nil s)

-- A field without a comma ends at the next comma, or at the end of the text.
split_commas-field :
    (field s rest : Str)
    → has_byte b',' s ≡ false
    → split_commas field (s ++ b',' ∷ rest) ≡ (field ++ s) ∷ split_commas [] rest
unfolding split_commas has_byte
split_commas-field field [] rest h = rw (append_nil field) refl
split_commas-field field (c ∷ s) rest h =
    let ih = split_commas-field (field ++ c ∷ []) s rest (ground arith) in
    let e = append_snoc field s c in ground (arith, h)

split_commas-last :
    (field s : Str) → has_byte b',' s ≡ false → split_commas field s ≡ (field ++ s) ∷ []
unfolding split_commas has_byte
split_commas-last field [] h = rw (append_nil field) refl
split_commas-last field (c ∷ s) h =
    let ih = split_commas-last (field ++ c ∷ []) s (ground arith) in
    let e = append_snoc field s c in ground (arith, h)

split_commas-entries_text :
    (p : Peer) (ps : List Peer)
    → AllPlain (p ∷ ps)
    → split_commas [] (entries_text (p ∷ ps)) ≡ map entry_text (p ∷ ps)
unfolding entries_text
split_commas-entries_text p [] h = split_commas-last [] (entry_text p) h.0.no_comma
split_commas-entries_text p (q ∷ ps) h =
    split_commas-field [] (entry_text p) (entries_text (q ∷ ps)) h.0.no_comma
    ∙ ap (λ l. entry_text p ∷ l) (split_commas-entries_text q ps h.1)

not_empty : (s t : Str) → is_empty s ≡ false → is_empty (s ++ t) ≡ false
not_empty [] t h = ground (arith, h)
not_empty (c ∷ s) t h = refl

parse_entries-entry_text :
    (ps : List Peer) → AllPlain ps → parse_entries (map entry_text ps) ≡ some ps
unfolding parse_entries
parse_entries-entry_text [] h = refl
parse_entries-entry_text (p ∷ ps) h =
    rw
      (
        h.0.no_space,
        not_empty p.id (b'=' ∷ p.url) h.0.has_id,
        parse_peer-entry_text p h.0,
        parse_entries-entry_text ps h.1,
      )
      refl

entries_text-not_empty :
    (p : Peer) (ps : List Peer) → IsPlain p → is_empty (entries_text (p ∷ ps)) ≡ false
unfolding entries_text
entries_text-not_empty p [] h = not_empty p.id (b'=' ∷ p.url) h.has_id
entries_text-not_empty p (q ∷ ps) h =
    not_empty (entry_text p) _ (not_empty p.id (b'=' ∷ p.url) h.has_id)

-- Peers written as "id=url" with commas between them are read back as they are, if each has an id
-- without "=" and an address, none contains a comma, and no entry, nor the text, has white space
-- around it.
pub parse_peers-entries_text :
    (ps : List Peer)
    → AllPlain ps
    → trim_space (entries_text ps) ≡ entries_text ps
    → parse_peers (entries_text ps) ≡ some ps
unfolding parse_peers entries_text
parse_peers-entries_text [] h t = rw t refl
parse_peers-entries_text (p ∷ ps) h t =
    rw
      (
        t,
        entries_text-not_empty p ps h.0,
        split_commas-entries_text p ps h,
        parse_entries-entry_text (p ∷ ps) h,
      )
      refl
