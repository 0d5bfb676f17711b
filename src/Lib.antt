-- ===== src/Lib.antt =====
-- The working life of employees: a verification library beside the Rust module that takes them on,
-- promotes them, keeps their contracts and warning letters, computes what they are due when they
-- leave, and posts it to the ledger.
--
-- The program. A write service runs each verb in one database transaction and sends events outside
-- it. `OffboardingWriteService` (src/application/service/offboarding_write_service.rs) opens, clears
-- and closes an offboarding; a closing assembles the settlement (settlement_computation.rs, with the
-- read ports of offboarding_ports.rs), reads the statutory set in force
-- (src/infrastructure/persistence/severance_params_repository.rs), computes (pesangon.rs) and stages
-- the breakdown in the outbox. `FinalSettlementWriteService` (final_settlement_write_service.rs)
-- drafts the same settlement as a row, posts it through the ledger's sink and marks it paid.
-- `ContractWriteService` (contract_write_service.rs) keeps the employment contracts and opens an
-- offboarding when a term ends. The reasons of an exit are the enum of
-- src/domain/entity/offboarding_reason.rs. `OnboardingWriteService` (onboarding_write_service.rs)
-- starts a hire from a template, completes it and confirms the probation; the services of
-- checkpoint_write_service.rs add and resolve the tasks and clearance items for which a completion
-- and a clearing wait. `PromotionWriteService` (promotion_write_service.rs, promotion_approvals_port.rs)
-- files a promotion with the approvals engine and puts it into effect once granted.
-- `DisciplineWriteService` (discipline_write_service.rs) issues warning letters and moves them. The
-- routes of src/presentation/http/guarded_routes.rs are the way to the verbs from outside.
--
-- The files.
--   Prelude          shared names: tests on numbers and texts, results, tables as lists of rows with
--                    the statements on them, and verbs: state passing with failure, where a failed
--                    transaction restores the tables and keeps what was sent
--   Crates           the crates rust_decimal and chrono, as interfaces: a record of operations and
--                    of the laws that their documentation gives
--   Pesangon.Reason  offboarding_reason.rs: `OffboardingReason`, `Display`, `FromStr`
--   Pesangon.Basis   pesangon.rs: the errors, `STATUTORY_CASES`, `severance_basis`
--   Pesangon.Params  pesangon.rs: `SeveranceParams`, its `check`, the scales
--   Pesangon.Tenure  pesangon.rs: `anniversary`, `tenure_years`, `completed_years`
--   Pesangon.LastPay pesangon.rs: `WorkWeek`, `last_pay`, `daily_wage`; its bounds (Bounds) and its
--                    count of days (Counting)
--   Pesangon.Compute pesangon.rs: `compute_settlement`, `compute_with_tenure`
--   Settlement       severance_params_repository.rs (Statutory, Settings), settlement_computation.rs
--                    and offboarding_ports.rs (Assembly)
--   Store            the rows of the tables that the services share (Joining: those of hires and
--                    promotions, Outbox: the staged events), and what they send (Effects)
--   Offboarding      offboarding_write_service.rs: `create`, `clear`, `close`
--   FinalSettlement  final_settlement_write_service.rs: `draft_from_offboarding`, `confirm`,
--                    `mark_paid`; the envelope (Posting) and what follows a posting (Once)
--   Contract         contract_write_service.rs: `create`, `file_decision`; Decisions:
--                    `apply_decision`, `refuse_decision`; Reminders: `remind_due_from`
--   Promotion        promotion_write_service.rs: `create`, `approve`, `reject`, `effect`; Errors; what
--                    they do (Creation, Outcomes) and over runs (Ledger)
--   Onboarding       onboarding_write_service.rs: `create` (Stamping), `complete` and `confirm`
--                    (Outcomes), and their runs (Ledger)
--   Checkpoint       checkpoint_write_service.rs and activity_port.rs: `create_task`, `resolve_task`,
--                    `open_task_count`, `create_clearance_item`; Journey: with `complete` and `clear`
--   Discipline       discipline_write_service.rs: `issue`, `acknowledge`, `contest`, `contest_upheld`,
--                    `contest_refused`, `cancel`; the states of a letter (Moves), writes
--                    that overlap (Overlaps) and runs (Runs)
--   Routes           guarded_routes.rs: the request bodies (Bodies), the handlers of the verb routes
--                    (Handlers) and their responses (Responses), what they answer (Statuses, Settled,
--                    Answers) and the routes as one function of the request (Faults)
--   Examples         a fixed-point instance of the decimals, the Gregorian calendar, concrete data,
--                    and the theorems applied to them
--
-- How the code is read. Ids are numbers, and a fresh id or today's date is an argument. A row
-- lock (FOR UPDATE) or a single UPDATE orders the verbs on a row, so an interleaving is a
-- sequence of verbs; `move_status` of a letter locks nothing, and its write may come after later
-- commits (Discipline.Overlaps). `none` of the calculation is a panic: a date past the calendar's
-- end, a missing part of a date, or an amount of more than 96 bits. Decimals are numbers up to
-- equality; where a sum or a product overflows, `compute_settlement` is none (`amounts_fit`). The
-- count of working days runs on fuel, one round for each day from the first to the last, which is
-- enough. Where a theorem asks for dates before the calendar's last year or two, it is because
-- the code asks for a day after. The ledger's sink, the approvals engine, the activity sink, the
-- read ports, the database's sum of a date and a number of days, `to_lowercase` and the test of
-- an envelope's balance are parameters.
--
-- Not modelled: the failures of the database but those that the code
-- handles or provokes, and with them foreign keys, column checks and columns that no verb reads; the
-- texts of ledger lines and of refusals; the reading of a request and its authentication; the
-- generated CRUD services, the labels of most enums, the seeders and the exports.
pub mod Prelude
pub mod Crates
pub mod Pesangon
pub mod Store
pub mod Settlement
pub mod Offboarding
pub mod FinalSettlement
pub mod Contract
pub mod Promotion
pub mod Discipline
pub mod Onboarding
pub mod Checkpoint
pub mod Routes
pub mod Examples
