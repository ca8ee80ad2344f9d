-- ===== src/Peerauth/Ids.antt =====
-- internal/peerauth/store.go: the ids of the clients, as the registry of peers asks for them.
use jellysync.Common.{none, some}
use jellysync.Common.Table.{Table, lookup}
use jellysync.Peerauth.Store.{Client, id_taken_by}
use jellysync.Peers.Ids.{OtherIds}

-- Store.IDTaken and Store.IDForPin
unfoldable pub client_ids : Table Client → OtherIds
client_ids clients = record {
  id_taken = λ id. id_taken_by id clients;
  id_for_pin = λ pin. elim (lookup pin clients) [ none ↦ none | some c ↦ some c.id ];
}
