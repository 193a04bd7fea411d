-- ===== src/Lib.antt =====
-- The domain core of a marketplace for fish auctions (the Go packages internal/trading/auction,
-- internal/deals/deal, internal/billing/wallet, internal/catalog/domain and internal/identity/domain),
-- six use cases of internal/billing/app, those of internal/trading/app, the outbox relay that
-- carries the events between the services (internal/infra/outbox), and the calls of the auction
-- contract (internal/blockchain/evm).
--
-- A seller publishes an auction; companies bid; the closing ranks the bids and names the winner and
-- up to two candidates behind it. The deals service makes a deal with the winner from a selection of
-- candidates, or from the projection of a lot. The two parties lead the deal through contract,
-- payment and delivery, each step on request of one of them approved by the other, or cancel it, with
-- the deposit of the buyer at stake. The billing service holds the money: accounts with an available
-- and a held balance, invoices to the buyer, payouts to the seller, top-ups, deposits. The catalog
-- offers the lots, the identity service knows the companies and the users. The parts talk by the
-- events that the operations return; each service writes them to its outbox, from which the relay
-- publishes them. Auctions, bids and results are anchored in a contract on a chain.
--
-- Trading, internal/trading/auction:
--   Types: State, Bid, Auction, the events and errors (state.go, bid.go, auction.go, events.go,
--     errors.go); Transitions: transitions.go; Winner: determineWinner (winner.go), the ranking and
--     collectWinnerCompanyIDs (auction.go); Auction: NewAuction, Publish, PlaceBid, Close,
--     CancelAsSellerOrDraft, CancelAsAdmin, Winner (auction.go), RehydrateAuction (rehydrate.go).
--   Ranking, Bidding, Lifecycle, Closing, Validity: theorems; Sort: an instance of RankingSort.
--   Store, Statements: the tables and the statements of internal/trading/postgres, with the data of
--     internal/trading/app; Usecases: usecases.go, actor.go and chain_ops.go of internal/trading/app.
--     Rows: what the statements do to the rows; Placing: theorems. StoreTests: sample runs.
-- Deals, internal/deals/deal:
--   Types: the data of all files; Status: status.go, cancel_reasons.go; Deal: the methods of deal.go
--     that no other module has, and rehydrate.go; Cancel: Deal.Cancel; Confirmation: confirmation.go,
--     with the guards that Approve and Reject share as one function; Approval:
--     RequestConfirmation and ApplyApprovedConfirmation of deal.go; Selection: selection.go; Factory:
--     projection.go, factory.go.
--   Commands: the methods as one step; Cancelling, Lifecycle, Payment, Contract, Completing, Validity,
--     Answering, Approving, Fallback, Creation: theorems.
--   Storage: Save, GetByID and getOne of internal/deals/postgres/deal_repository.go; Kept, Storing:
--     theorems.
-- Wallet, internal/billing/wallet:
--   Types: the data; Account: account.go; Invoice: deal_invoice.go; Payout: seller_payout.go; TopUp:
--     top_up.go; Deposit: deposit.go. Movement: the operations of an account as one step, and lemmas on
--     each; Balance, Invoicing, Paying: theorems.
-- Deposits, internal/billing/app:
--   Store: the tables as lists, with the queries of internal/billing/postgres, and what is published;
--     Reserve: reserve_auction_deposit.go, helpers.go; Finish: release_auction_deposit.go and
--     capture_auction_deposit.go. Once, Reserving: theorems.
--   Settle: settle_winner_deposit_after_invoice_paid.go; Saved, Settled, Settlement: theorems.
--   Fee: capture_platform_fee_from_deposit.go; FeeTaken, Fees: theorems. Rest:
--     release_auction_deposits_except_candidates.go; Released, Releases: theorems.
-- Outbox, internal/infra/outbox:
--   Table: the queries of postgres/repository.go; Relay: RunOnce, recordFailure and metaFromMessage of
--     relay.go. Writes, Pass: what a pass writes into one row; Settling, Delivery: theorems.
-- Chain, internal/blockchain/evm:
--   Hex, Word, Calldata: calldata.go; Abi: a reader of call data; Reading, Calls, Creating,
--     Anchoring: theorems.
-- Catalog, internal/catalog/domain:
--   Types: the data; Product: product.go; Lot: lot.go. Lots, Life, Products: theorems.
-- Identity, internal/identity/domain:
--   Types: the data; Validation: validation.go; Role: role.go, with its theorems; User: user.go;
--     Company: company.go. Checksum, Numbers, Life, Users: theorems.
-- Prelude: the shared types. Outcome is the result of a Go method: the new state of the receiver, and
--   the value or the error, so that what is written before an error is kept. Int and Int64 are the
--   integers and int64, with each sum wrapped to 64 bits.
-- Each part has its sample data and runs in Tests.
--
-- How the code is read. A method with a pointer receiver is a function of the receiver's state; the
-- receiver of the selection and of the payment documents may be nil, and the methods with the suffix
-- _ptr have that test. A time is a number of nanoseconds since the zero time, and `time.Now()` is an
-- argument, as is each generated id. Strings are compared as Go compares them. An enumeration of
-- strings is a data type, with `other` for every string that is no constant. A float64 of a product
-- snapshot is its bits, which no code here computes with. `sort.Slice`, which is not stable, is
-- the interface RankingSort: any function that permutes the bids and leaves them ranked. Loops run
-- over slices by structural recursion, without fuel, but for the bytes of a number (Chain.Word), which
-- are eight at most for an int64. The order in which a query returns the rows that it updated is the
-- record Returning, any permutation. The bytes of a text in Chain are ASCII; elsewhere a text is its
-- characters, and white space is what Go's unicode.IsSpace says.
--
-- Not modelled: the other use cases, the repositories but for the queries of Deposits.Store, of the
-- trading tables, of the deals and of the outbox, the sending of the chain operations, HTTP handlers,
-- the client of the chain, and the adapters. In Deposits.Store and Outbox the database itself never
-- fails; a use case that fails is not rolled back, and one relay works on the outbox at a time. They
-- keep times exactly, which the columns round to microseconds. The tables of the auctions, bids and deals hold
-- rounded times: the rounding is an argument, of which Timestamptz (Prelude.Time) asks that it keeps
-- the order and leaves what is rounded. A row of a deal is saved without failing.
-- In Trading.Statements any statement may fail, and no transaction binds the statements: the unit of
-- work gives the transaction to a context that its callback does not use. The unique indexes of the
-- chain operations and the hashes of the bids are left out.
pub mod Prelude
pub mod Trading
pub mod Deals
pub mod Wallet
pub mod Deposits
pub mod Outbox
pub mod Chain
pub mod Catalog
pub mod Identity
