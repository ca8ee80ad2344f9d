-- ===== src/Catalog/Pull/Examples.antt =====
-- The theorems of pulling at small libraries.
use jellysync.Common.{lit, ℕ, ◌≡◌, refl, inr, true, false, none, some, [], ◌∷◌, arith, take}
use jellysync.Catalog.Entry.{pos}
use jellysync.Catalog.Index.{Index, refresh}
use jellysync.Catalog.Index.Valid.{IsValid}
use jellysync.Catalog.Changes.{
  Feed, first_sync, changes, feed_of, reset_reason_of, base_of, select, to_change, read_page,
  last_rev, next_of,
}
use jellysync.Catalog.Pull.{Cursor, PeerDb, done, running, no_cursor, apply_page, pull_loop}
use jellysync.Catalog.Pull.Follows.{Follows, refresh-Follows}
use jellysync.Catalog.Pull.Termination.{serve, IsMirrorOf, settles}
use jellysync.Catalog.Pull.Convergence.{round_of, round-Follows, epoch-round}
use jellysync.Catalog.Pull.Completion.{pull_completes, pull_never_ends}
use jellysync.Catalog.Pull.Network.{
  Network, here, next, refreshed, first_contact, first_contact-IsSound, last_page-IsMirrorOf,
}
use jellysync.Catalog.Samples.{
  movie, by_name, two, empty_index, empty_index-IsValid, three_films, three_films-IsValid, aged,
  aged-IsValid,
}

abbrev nothing : PeerDb
nothing = record { state = none; mirror = [] }

nothing-Follows : (ix : Index) → IsValid ix → Follows ix no_cursor []
unfolding first_contact
nothing-Follows ix v = (first_contact-IsSound ix v).running

-- The first page of one change from an index.
abbrev page_a : ℕ → Feed
page_a head = record {
  epoch = lit "e1";
  head = head;
  next = 1;
  more = true;
  reset = true;
  changes = record { rev = 1; global_id = lit "a"; deleted = false; entry = some (movie "a") } ∷ [];
  reset_reason = some first_sync;
}

serving : ℕ
unfolding aged changes feed_of reset_reason_of base_of select to_change read_page last_rev next_of
    take
serving = 0

aged_page : changes aged [] (pos 0) 1 ≡ some (page_a 4)
unfolding serving
aged_page = refl

three_page : changes three_films [] (pos 0) 1 ≡ some (page_a 3)
unfolding serving
three_page = refl

refresh-Follows_example :
    IsValid (refresh by_name [] 9 two empty_index).index
    × Follows (refresh by_name [] 9 two empty_index).index no_cursor []
refresh-Follows_example =
    refresh-Follows by_name [] 9 two empty_index no_cursor [] empty_index-IsValid
      (nothing-Follows empty_index empty_index-IsValid)

pull_completes_example :
    (e : PeerDb) × (pull_loop (serve three_films 1) 5 no_cursor nothing ≡ done e)
    × IsMirrorOf three_films e.mirror
unfolding three_films
pull_completes_example =
    pull_completes three_films 0 5 no_cursor nothing (page_a 3) three_films-IsValid
      (nothing-Follows three_films three_films-IsValid) three_page (inr (omega arith)) (omega arith)

-- The rest of a pull after its first page.
settles_example :
    (e : PeerDb) × (pull_loop
        (serve three_films 1)
        5
        (round_of (page_a 3) no_cursor nothing).0
        (round_of (page_a 3) no_cursor nothing).1
      ≡ done e)
    × IsMirrorOf three_films e.mirror
unfolding three_films
settles_example =
    let v = three_films-IsValid in
    let w = nothing-Follows three_films v in
    settles three_films 0 5 (round_of (page_a 3) no_cursor nothing).0
      (round_of (page_a 3) no_cursor nothing).1 v
      (round-Follows three_films no_cursor nothing 1 (page_a 3) v w three_page)
      (epoch-round three_films no_cursor nothing 1 (page_a 3) v w three_page) (omega arith)
      (omega arith)

pull_never_ends_example :
    (c : Cursor) × (d : PeerDb) × (pull_loop (serve aged 1) 100 no_cursor nothing ≡ running c d)
unfolding aged
pull_never_ends_example =
    pull_never_ends aged 0 100 no_cursor nothing (page_a 4) aged-IsValid
      (nothing-Follows aged aged-IsValid) aged_page refl refl (omega arith)

-- The peer drops a film after the pull began, and the pull ends with one page.
abbrev later : Network
later = record (first_contact three_films) { index = (refresh by_name [] 10 two three_films).index }

abbrev page_two : Feed
page_two = record {
  epoch = lit "e1";
  head = 4;
  next = 4;
  more = false;
  reset = true;
  changes =
      record { rev = 1; global_id = lit "a"; deleted = false; entry = some (movie "a") }
      ∷ record { rev = 2; global_id = lit "b"; deleted = false; entry = some (movie "b") }
      ∷ [];
  reset_reason = some first_sync;
}

two_page : changes later.index [] (pos 0) 5 ≡ some page_two
unfolding serving first_contact
two_page = refl

last_page-IsMirrorOf_example :
    (c : Cursor) × (d : PeerDb) × (apply_page page_two later.cursor later.db ≡ some (c, d))
    × IsMirrorOf later.index d.mirror
unfolding first_contact
last_page-IsMirrorOf_example =
    last_page-IsMirrorOf (first_contact three_films) later 4 page_two
      (first_contact-IsSound three_films three_films-IsValid)
      (next here (refreshed (first_contact three_films) by_name [] 10 two)) two_page refl
