-- ===== src/Aggregate/Transactions/Repository/Table.antt =====
-- The dictionary of transactions: what is found after a write.
use minos_python.Base.{◌≡◌, ◌≢◌, some, List, [], ◌∷◌, arith}
use minos_python.Aggregate.Store.{Uuid, TransactionEntry}
use minos_python.Aggregate.Transactions.Repository.{find_transaction, put_transaction}

pub find-put_self :
    (t : TransactionEntry) (ts : List TransactionEntry)
    → find_transaction t.uuid (put_transaction t ts) ≡ some t
find-put_self t [] = ground arith
find-put_self t (x ∷ ts) = ground (arith, find-put_self t ts)

pub find-put_ne :
    (u : Uuid) (t : TransactionEntry) (ts : List TransactionEntry)
    → u ≢ t.uuid
    → find_transaction u (put_transaction t ts) ≡ find_transaction u ts
find-put_ne u t [] h = ground arith
find-put_ne u t (x ∷ ts) h = ground (arith, find-put_ne u t ts h)
