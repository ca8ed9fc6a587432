-- ===== src/Repository/Entries.antt =====
-- internal/repository/ledger_repo.go: the append-only journal.
pub mod Appends
pub mod Listing
pub mod Queries
pub mod Aggregates
use mini_payment_gateway.Prelude.{suc, List, [], ◌∷◌, ◌++◌, ok, ◌>>=◌, ◌>>◌, pure, from_result}
use mini_payment_gateway.Domain.Ledger.{LedgerEntry, EntryGroup, validate}
use mini_payment_gateway.Repository.{Statement, Faults, Query, statement}

-- One INSERT, which numbers the line.
pub insert_entry : Faults → LedgerEntry → Query (Unit {0})
insert_entry faults e s =
    statement faults (Statement.insert_entry (suc s.entry_seq))
      (λ t. (
        ok tt,
        record t {
          entries = t.entries ++ record e { id = suc t.entry_seq } ∷ [];
          entry_seq = suc t.entry_seq;
        },
      ))
      s

pub insert_entries : Faults → List LedgerEntry → Query (Unit {0})
unfolding ◌>>=◌ insert_entry
insert_entries faults [] = pure tt
insert_entries faults (e ∷ es) = insert_entry faults e >> insert_entries faults es

-- `InsertGroup`: the group is validated once more before its lines are written.
unfoldable pub insert_group : Faults → EntryGroup → Query (Unit {0})
unfolding ◌>>=◌ insert_entries
insert_group faults group = from_result (validate group) >> insert_entries faults group.entries
