-- ===== src/Trading/Usecases.antt =====
-- The trading use cases: usecases.go, actor.go and the hashes of chain_ops.go in
-- internal/trading/app, run by the unit of work of internal/trading/postgres/uow.go over
-- internal/infra/postgresctx. Its callback closes over the context of the caller, in which the
-- repositories find no transaction: every statement is on its own, and a rollback undoes none.
use Prim.Native.String.{◌++◌}
use unbelievable_fish.Prelude.{
  ℕ, ◌+◌, Bool, true, false, ◌&&◌, not, List, [], ◌∷◌, String, Result, ok, err, Method, pure, lift,
  fail_if, ◌>>=◌, ◌>>◌, if◌then◌else◌, take,
}
use unbelievable_fish.Prelude.Int.{ℤ, pos, leb_ℤ}
use unbelievable_fish.Prelude.Time.{Time, before, Timestamptz}
use unbelievable_fish.Trading.Types
use unbelievable_fish.Trading.Types.{Event, Bid, Auction, new_bid}
use unbelievable_fish.Trading.Winner.{RankingSort}
use unbelievable_fish.Trading.Auction
use unbelievable_fish.Trading.Auction.{
  new_auction_with_pricing, is_published, publish, place_bid, cancel_as_seller_or_draft,
  cancel_as_admin, winner,
}
use unbelievable_fish.Trading.Store
use unbelievable_fish.Trading.Store.{
  Error, not_found, close_forbidden_before_end_with_bids, deposit_refused, ActorKind,
  platform_admin, system, company, other_kind, CommandMeta, WinnerRecord, auction_create, Database,
  lift_auction,
}
use unbelievable_fish.Trading.Statements.{
  statement, load, save_auction, save_bid, top_bids, save_winners, add_events, enqueue,
  enqueue_bid_anchor, enqueue_auction_finalize,
}
use unbelievable_fish.Prelude.Text.{is_empty}

-- The interface of repository.go.
pub record DepositService (W : Type 0) : Type 0 where
  pub reserve_auction_deposit : String → String → ℤ → Method String W (Unit {0})

-- The digits of the legacy Keccak-256 of a text, the RFC 3339 text of a time and the `%d` of an
-- int64.
pub record Texts : Type 0 where
  pub keccak_digits : String → String
  pub rfc3339 : Time → String
  pub decimal : ℤ → String

abbrev pub keccak_hex : Texts → String → String
keccak_hex t value = "0x" ++ t.keccak_digits value

unfoldable pub build_auction_ref_hash : Texts → String → String
build_auction_ref_hash t id = keccak_hex t ("auction|" ++ id)

unfoldable pub build_bid_hash : Texts → String → String → ℤ → Time → String
build_bid_hash t id bidder amount placed =
    keccak_hex t
      ("bid|" ++ id ++ "|" ++ bidder ++ "|" ++ t.decimal amount ++ "|" ++ t.rfc3339 placed)

unfoldable pub build_finalize_result_hash : Texts → String → String → ℤ → String
build_finalize_result_hash t id winner price =
    keccak_hex t ("result|" ++ id ++ "|" ++ winner ++ "|" ++ t.decimal price)

unfoldable pub effective_actor_kind : CommandMeta → ActorKind
unfolding is_empty
effective_actor_kind meta = elim (meta.actor_kind) [
  | other_kind s ↦ if is_empty s then company else other_kind s
  | k ↦ k
]

unfoldable pub allow_privileged_early_auction_close : CommandMeta → Bool
unfolding effective_actor_kind
allow_privileged_early_auction_close meta = elim (effective_actor_kind meta) [
  | platform_admin ↦ true
  | system ↦ true
  | _ ↦ false
]

unfoldable pub places_from : ℕ → List Bid → List WinnerRecord
places_from n [] = []
places_from n (b ∷ bids) =
    record {
      place = n;
      company_id = b.bidder_company_id;
      amount = b.amount;
      placed_at = b.placed_at;
    }
    ∷ places_from (n + 1) bids

unfoldable pub winner_records_from_bids : List Bid → ℕ → List WinnerRecord
unfolding places_from
winner_records_from_bids bids limit = places_from 1 (take limit bids)

abbrev is_nil : List Bid → Bool
is_nil [] = true
is_nil (_ ∷ _) = false

pub record PlaceBidResult : Type 0 where
  pub auction_id : String
  pub bid_hash : String
  pub chain_status : String

-- What a method left of the auction that was loaded.
abbrev pub taken_auction :
    Auction × Result Types.Error (List Event) → Result Error (Auction × List Event)
taken_auction (a, ok es) = ok (a, es)
taken_auction (a, err e) = err (Store.of_auction e)

abbrev pub on_auction :
    Method Types.Error Auction (List Event) → Auction → Result Error (Auction × List Event)
on_auction m a = taken_auction (m a)

-- What the deposit service left.
abbrev pub reserved :
    {W : Type 0} → W × Result String (Unit {0}) → Method Error (Database W) (Unit {0})
reserved (w, ok _) db = (record db { deposits = w }, ok tt)
reserved (w, err _) db = (record db { deposits = w }, err deposit_refused)

module _ {W : Type 0} where
  -- `UnitOfWork.Do`: what begins the transaction, the callback, and what commits it.
  unfoldable pub unit_of_work :
      {A : Type 0} → Method Error (Database W) A → Method Error (Database W) A
  unfolding statement
  unit_of_work m = do statement; r ← m; statement; pure r

  -- `CreateAuction.Execute`, with what the factory returns.
  unfoldable pub create_auction :
      Timestamptz
      → Result Error String
      → String
      → Time
      → Time
      → ℤ
      → ℤ
      → Method Error (Database W) String
  unfolding unit_of_work load save_auction
  create_auction z generated lot starts ends start_price step =
      let step' = if leb_ℤ step (pos 0) then pos 1 else step in
      lift generated >>= λ id. unit_of_work (λ db.
        let (db', found) = load id db in
        elim found [
          | ok _ ↦ (db', ok id)
          | err not_found ↦
              (do
                a ←
                    lift
                      (lift_auction (new_auction_with_pricing id lot starts ends start_price step'))
                save_auction z a
                pure id)
                db'
          | err e ↦ (db', err e)
        ])

  module _ (t : Texts) (z : Timestamptz) (meta : CommandMeta) (id : String) where
    -- `PublishAuction.Execute`
    unfoldable pub publish_auction : Method Error (Database W) (Unit {0})
    unfolding unit_of_work load save_auction enqueue add_events publish build_auction_ref_hash
    publish_auction = unit_of_work (
        load id >>= λ a. lift (on_auction publish a) >>= λ done.
        save_auction z done.0
        >> enqueue z id (build_auction_ref_hash t id)
            (auction_create done.0.starts_at done.0.ends_at done.0.min_bid_step)
        >> add_events meta done.1)

    unfoldable pub reserve_for : DepositService W → Auction → Method Error (Database W) (Unit {0})
    reserve_for service a db =
        reserved (service.reserve_auction_deposit meta.company_id id a.start_price db.deposits) db

    -- What `PlaceBid` writes once the deposit is reserved.
    unfoldable pub write_bid : Bid → Auction → List Event → Method Error (Database W) PlaceBidResult
    unfolding save_bid save_auction enqueue_bid_anchor add_events build_bid_hash
        build_auction_ref_hash
    write_bid b a events =
        let hash = build_bid_hash t id b.bidder_company_id b.amount b.placed_at in
        do
          save_bid z id b
          save_auction z a
          enqueue_bid_anchor z id (build_auction_ref_hash t id) hash b
          add_events meta events
          pure (record { auction_id = id; bid_hash = hash; chain_status = "PENDING_SUBMIT" })

    -- The callback of `PlaceBid.ExecuteWithResult`.
    unfoldable pub bid_in_tx :
        DepositService W → ℤ → Time → Method Error (Database W) PlaceBidResult
    unfolding load reserve_for write_bid new_bid place_bid
    bid_in_tx service amount placed = load id >>= λ a.
        lift (lift_auction (new_bid meta.company_id amount placed)) >>= λ b.
        lift (on_auction (place_bid b) a) >>= λ done.
        reserve_for service a >> write_bid b done.0 done.1

    -- `PlaceBid.ExecuteWithResult`
    unfoldable pub place_bid_with_result :
        DepositService W → ℤ → Time → Method Error (Database W) PlaceBidResult
    unfolding unit_of_work bid_in_tx
    place_bid_with_result service amount placed = unit_of_work (bid_in_tx service amount placed)

    abbrev finalize : String × ℤ × Bool → Method Error (Database W) (Unit {0})
    finalize (_, _, false) = pure tt
    finalize (leader, price, true) =
        enqueue_auction_finalize z id (build_auction_ref_hash t id)
          (build_finalize_result_hash t id leader price) leader price

    -- `CloseAuction.Execute`, with the order that the query returns, the sort of `Close` and the time.
    unfoldable pub close_auction :
        RankingSort → RankingSort → Time → Method Error (Database W) (Unit {0})
    unfolding unit_of_work load top_bids save_winners save_auction enqueue_auction_finalize
        add_events winner winner_records_from_bids allow_privileged_early_auction_close
    close_auction order s now = unit_of_work (
        load id >>= λ a. top_bids order id >>= λ bids.
        fail_if
          (is_published a.state
            && not (is_nil bids)
            && before now a.ends_at
            && not (allow_privileged_early_auction_close meta))
          close_forbidden_before_end_with_bids
        >> (lift (on_auction (Auction.close s bids) a) >>= λ done.
            save_winners z id (winner_records_from_bids bids 3)
            >> save_auction z done.0
            >> finalize (winner done.0)
            >> add_events meta done.1))

    abbrev cancel_by :
        Method Types.Error Auction (List Event) → Method Error (Database W) (Unit {0})
    cancel_by cancel = unit_of_work (
        load id >>= λ a.
        lift (on_auction cancel a) >>= λ done. save_auction z done.0 >> add_events meta done.1)

    -- `SellerCancelAuction.Execute`
    unfoldable pub seller_cancel_auction : Method Error (Database W) (Unit {0})
    unfolding unit_of_work load save_auction add_events
    seller_cancel_auction = cancel_by cancel_as_seller_or_draft

    -- `AdminCancelAuction.Execute`
    unfoldable pub admin_cancel_auction : Method Error (Database W) (Unit {0})
    unfolding unit_of_work load save_auction add_events
    admin_cancel_auction = cancel_by cancel_as_admin
