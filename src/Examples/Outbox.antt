-- ===== src/Examples/Outbox.antt =====
-- Relays over a small outbox: two rows of one request and one of another, sent in two drains, the
-- first of which dies after its first row.
use processing_catalog.Relay.Replicas.{
  World, Steps, mark_all, Reach, later, start, records, begins, dies, confirms, commits,
}
use processing_catalog.Prelude.{List, ℕ, ◌≡◌, some, ◌∷◌, true, String, [], none, arith, refl}
use processing_catalog.Relay.Replicas.Order.{is_in}
use processing_catalog.Outcome.{Result, ok}
use processing_catalog.Value.{Fields, Value}
use processing_catalog.Relay.Replicas.Delivery.{published_of_Reach, ordered_of_Reach}
use processing_catalog.Relay.Liveness.{drains, drains-deliver}
use processing_catalog.Relay.Replicas.Alone.{drain-Steps}
use processing_catalog.Relay.Drain.{
  drain_transaction, pending, Row, order_by_id, insert_by_id, mark_published,
}

abbrev row : ℕ → String → Row
row id request = record {
  id = id;
  queue = "processing";
  pattern = "ProcessingQueued";
  payload = Fields.field "processingRequestId" (Value.string request) Fields.end;
  created_at = 5;
  published_at = none;
}

abbrev table : List Row
table = row 1 "r-1" ∷ row 2 "r-2" ∷ row 4 "r-1" ∷ []

confirms_all : Row → Result (Unit {0})
confirms_all r = ok tt

drains-deliver_example : pending (drains confirms_all (λ n. 9) 2 2 table) ≡ []
unfolding pending order_by_id confirms_all
drains-deliver_example =
    drains-deliver confirms_all (λ n. 9) 2 2 table
      ((omega arith, (omega arith, tt)), ((omega arith, tt), (tt, tt))) (refl, (refl, (refl, tt)))
      (omega arith)

drain-Steps_example :
    let d = drain_transaction confirms_all 9 true 2 table in
    Steps
      (record { table = table; broker = []; lock = none })
      (record { table = d.table; broker = d.sent; lock = none })
drain-Steps_example = drain-Steps confirms_all 9 2 table []

-- A replica sends the first row of request r-1 and dies; another sends it again, and the next.
abbrev ends : World
ends = record {
  table =
      record (row 1 "r-1") { published_at = some 9 }
      ∷ record (row 4 "r-1") { published_at = some 9 }
      ∷ [];
  broker = row 1 "r-1" ∷ row 1 "r-1" ∷ row 4 "r-1" ∷ [];
  lock = none;
}

reached : Reach ends
unfolding pending order_by_id insert_by_id mark_all mark_published
reached =
    later
      (later
        (later
          (later
            (later
              (later (later (later start (records (row 1 "r-1") refl tt)) (begins 50 8 refl))
                (dies (row 1 "r-1" ∷ []) [] 8 true refl))
              (records (row 4 "r-1") refl (λ same. omega arith, tt)))
            (begins 50 9 refl))
          (confirms (row 1 "r-1") (row 4 "r-1" ∷ []) [] 9 refl))
        (confirms (row 4 "r-1") [] (1 ∷ []) 9 refl))
      (commits (1 ∷ 4 ∷ []) 9 refl)

published_of_Reach_example : is_in ends.broker 4 ≡ true
published_of_Reach_example =
    published_of_Reach reached (record (row 1 "r-1") { published_at = some 9 } ∷ []) []
      (record (row 4 "r-1") { published_at = some 9 }) refl refl

ordered_of_Reach_example : is_in (row 1 "r-1" ∷ row 1 "r-1" ∷ []) 1 ≡ true
ordered_of_Reach_example =
    ordered_of_Reach reached (row 1 "r-1" ∷ row 1 "r-1" ∷ []) [] []
      (record (row 4 "r-1") { published_at = some 9 } ∷ []) (row 4 "r-1")
      (record (row 1 "r-1") { published_at = some 9 }) refl refl refl (omega arith)
