-- ===== src/Config/Examples.antt =====
-- The setting PEERS with two peers, with spaces, and with an entry that is none.
use jellysync.Common.{lit, none, some, [], ◌∷◌, ◌≡◌, refl}
use jellysync.Common.Bytes.{trim_space, split_commas}
use jellysync.Config.{Peer, cut_equals, parse_peer, parse_entries, parse_peers}
use jellysync.Config.Printed.{has_byte, entries_text, IsPlain, parse_peers-entries_text}

abbrev bob : Peer
bob = record { id = lit "bob"; url = lit "https://bob.example.org" }

abbrev carol : Peer
carol = record { id = lit "carol"; url = lit "http://10.0.0.3:8098/?a=b" }

spaces_are_cut :
    parse_peers (lit " bob=https://bob.example.org ,, carol=http://10.0.0.3:8098/?a=b\n")
    ≡ some (bob ∷ carol ∷ [])
unfolding trim_space split_commas cut_equals parse_peer parse_entries parse_peers
spaces_are_cut = refl

one_bad_entry_refuses_all : parse_peers (lit "bob=https://bob.example.org,carol") ≡ none
unfolding trim_space split_commas cut_equals parse_peer parse_entries parse_peers
one_bad_entry_refuses_all = refl

bob-IsPlain : IsPlain bob
unfolding has_byte trim_space
bob-IsPlain = record {
  has_id = refl;
  has_url = refl;
  no_equals = refl;
  no_comma = refl;
  no_space = refl;
}

carol-IsPlain : IsPlain carol
unfolding has_byte trim_space
carol-IsPlain = record {
  has_id = refl;
  has_url = refl;
  no_equals = refl;
  no_comma = refl;
  no_space = refl;
}

nothing_to_trim : trim_space (entries_text (bob ∷ carol ∷ [])) ≡ entries_text (bob ∷ carol ∷ [])
unfolding trim_space entries_text
nothing_to_trim = refl

parse_peers-entries_text_example :
    parse_peers (entries_text (bob ∷ carol ∷ [])) ≡ some (bob ∷ carol ∷ [])
parse_peers-entries_text_example =
    parse_peers-entries_text (bob ∷ carol ∷ []) (bob-IsPlain, (carol-IsPlain, tt)) nothing_to_trim
