-- ===== src/Saga/Store/Lease.antt =====
-- The lease of src/saga/prisma-saga.store.ts: one runner at a time, and a late one cannot write.
use boilerplate_nestjs_api.Prelude.{
  ◌+◌, ◌<◌, String, ◌≡◌, ◌≢◌, ◌↔◌, inl, inr, true, Option, none, some, arith, eq_iff, eq_refl,
  lookup, lookup-insert, Option-cases,
}
use boilerplate_nestjs_api.Saga.Instance.{SagaInstanceRecord, SagaProgress, SagaClaim}
use boilerplate_nestjs_api.Saga.Store.{
  Table, claim, save, find, is_claimable, leased, held_by, saved_row,
}

-- A runner that has claimed an instance holds it: until its lease runs out, nobody else can claim
-- the instance, under whatever name, and the table is left as it was.
pub claim_excludes :
    (id : String) (a b : SagaClaim) (table : Table) (row : SagaInstanceRecord)
    → (claim id a table).0 ≡ some row
    → b.now < a.now + a.lease_ms
    → claim id b (claim id a table).1 ≡ (none, (claim id a table).1)
unfolding claim is_claimable
claim_excludes id a b table row won early =
    ground (arith, lookup-insert id id (leased row a) table, eq_refl id)

held_by_iff :
    (holder : Option String) (owner : String)
    → (held_by holder owner ≡ true) ↔ (holder ≡ some owner)
held_by_iff none owner = ground arith
held_by_iff (some holder) owner = ground (arith, eq_iff holder owner)

-- A write by a runner that does not hold the lease is refused, and changes nothing.
pub save_fenced :
    (id : String) (by : SagaClaim) (progress : SagaProgress) (table : Table)
    (row : SagaInstanceRecord)
    → find id table ≡ some row
    → row.locked_by ≢ some by.owner
    → save id by progress table ≡ (none, table)
unfolding save find
save_fenced id by progress table row there other =
    ground (arith, held_by_iff row.locked_by by.owner)

-- A runner whose instance another one has claimed since cannot write: its progress is dropped, and
-- the table is as the new holder left it.
pub save_after_takeover :
    (id : String) (late by : SagaClaim) (progress : SagaProgress) (table : Table)
    (row : SagaInstanceRecord)
    → (claim id by table).0 ≡ some row
    → late.owner ≢ by.owner
    → save id late progress (claim id by table).1 ≡ (none, (claim id by table).1)
unfolding claim save
save_after_takeover id late by progress table row won other =
    ground
      (arith, lookup-insert id id (leased row by) table, eq_refl id, eq_iff by.owner late.owner)

-- What a write that is accepted leaves in the row, and that it is the row of the table.
pub save-some :
    (id : String) (by : SagaClaim) (progress : SagaProgress) (table : Table)
    {next : SagaInstanceRecord}
    → (save id by progress table).0 ≡ some next
    → (row : SagaInstanceRecord) × (find id table ≡ some row)
      × (row.locked_by ≡ some by.owner)
      × (next ≡ saved_row row by progress)
      × (find id (save id by progress table).1 ≡ some next)
unfolding save find
save-some id by progress table {next} h = elim (Option-cases (lookup id table)) [
  | inl gone ↦ absurd (ground (arith, gone))
  | inr (row, there) ↦ (
    row,
    there,
    ground (arith, there, held_by_iff row.locked_by by.owner),
    ground (arith, there),
    ground (arith, there, lookup-insert id id (saved_row row by progress) table, eq_refl id),
  )
]

pub save-none :
    (id : String) (by : SagaClaim) (progress : SagaProgress) (table : Table)
    → (save id by progress table).0 ≡ none
    → (save id by progress table).1 ≡ table
unfolding save
save-none id by progress table h = ground arith
