-- ===== src/Paper/Advance.antt =====
-- `advance` of src/polymarket_bot/adapters/paper_exchange.py: what becomes of the pending orders.
use claude_route.Base.{
  ℕ, suc, ◌≡◌, ◌⊎◌, String, Bool, none, some, List, [], ◌∷◌, if◌then◌else◌, IsIn,
}
use claude_route.Domain.Types.{OrderStatus}
use claude_route.Domain.Orders.{ExecutionEvent}
use claude_route.Book.Levels.{LevelMap}
use claude_route.Book.Snapshot.{OrderBookSnapshot}
use claude_route.Paper.Fills.{Consumption, total_size}
use claude_route.Paper.{
  PaperConfig, Pending, PaperExchange, Books, update_of, fill_of, fee_of, find_fills,
}

-- The history has a fill for each of these levels, numbered from `index`, with its fee.
abbrev pub Reported : PaperConfig → PaperExchange → Pending → ℕ → LevelMap → Type 0
Reported cfg x p index [] = Unit
Reported cfg x p index ((price, size) ∷ fs) =
    IsIn (p.intent.token_id, fill_of p p.due_ms index price size (fee_of cfg p price size))
      x.history
    × Reported cfg x p (suc index) fs

-- An order is filled where there are fills and they complete it, and else cancelled.
abbrev pub verdict : LevelMap → Bool → OrderStatus
verdict [] complete = OrderStatus.cancelled
verdict (f ∷ fs) complete = if complete then OrderStatus.filled else OrderStatus.cancelled

-- Where the fills come from: none without a book, and else what the matching finds in the book.
abbrev pub IsMatch : PaperConfig → Books → Pending → LevelMap → Bool → Type 0
IsMatch cfg books p fills complete =
    ((books p.intent.token_id ≡ none) × (fills ≡ []))
    ⊎ ((book : OrderBookSnapshot) × (consumed : List Consumption) × (books p.intent.token_id
          ≡ some book)
        × (find_fills cfg p.intent book p.due_ms consumed ≡ (fills, complete)))

-- The final word on an order is in the history: an update for its id, whose shares are the sum of
-- fills that are in the history too.
abbrev pub HasVerdict : PaperConfig → PaperExchange → Pending → LevelMap → Bool → Type 0
HasVerdict cfg x p fills complete =
    (detail : String) × Reported cfg x p 0 fills
    × IsIn
        (p.intent.token_id, update_of p (verdict fills complete) (total_size fills) p.due_ms detail)
        x.history

abbrev pub IsFinished : PaperConfig → Books → PaperExchange → Pending → Type 0
IsFinished cfg books x p =
    (fills : LevelMap) × (complete : Bool) × IsMatch cfg books p fills complete
    × HasVerdict cfg x p fills complete

-- What is in the history stays there, and the pending orders are the same.
abbrev Keeps : PaperExchange → PaperExchange → Type 0
Keeps x x' =
    (x'.pending ≡ x.pending)
    × ((e : String × ExecutionEvent) → IsIn e x.history → IsIn e x'.history)
